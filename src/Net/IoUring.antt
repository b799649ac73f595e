-- ===== src/Net/IoUring.antt =====
-- elgate-core/src/net/io_uring.rs: the engine that keeps the streams by their addresses and tells the
-- ring of every call. A map is the list of its entries in the order of iteration; the mutexes are
-- free, since a call runs without interleaving.
pub mod Cache
pub mod Engine
pub mod Streams
pub mod Sound
pub mod Changes
pub mod Session
use elgate.Prelude.{
  truncated, ℕ, ◌*◌, Bool, true, false, List, [], ◌∷◌, Option, some, none, ◌==◌, if◌then◌else◌,
  IoError, IoResult, io_ok, io_err, Outcome, ok, err, panic, fault,
}
use elgate.Ring.Slot.{UuidApi, OperationKind, network_send, network_receive, network_close}
use elgate.Ring.Memory.{RingMem}
use elgate.Ring.Buffer.{RingBuffer, World}
use elgate.Notify.{notify}
use elgate.Net.Sockets.{Addr, Fds, close_fd, SocketApi}

pub record NetworkConfig : Type 0 where
  pub queue_depth : ℕ
  pub buffer_size : ℕ

abbrev pub default_config : NetworkConfig
default_config = record { queue_depth = 256; buffer_size = 64 * 1024 }

pub data NetworkError : Type 0 where
  io_failed accept_failed connect_failed read_failed write_failed : IoError → NetworkError
  no_connection connection_removed : NetworkError

-- The streams, each by its descriptor.
abbrev pub Connections : Type 0
Connections = List (Addr × ℕ)

unfoldable pub get_stream : Addr → Connections → Option ℕ
get_stream addr [] = none
get_stream addr ((a, fd) ∷ conns) =
    let rest = get_stream addr conns in if a == addr then some fd else rest

-- `conns.iter()` up to the first stream with the descriptor.
unfoldable pub find_addr : ℕ → Connections → Option Addr
find_addr fd [] = none
find_addr fd ((a, f) ∷ conns) = let rest = find_addr fd conns in if f == fd then some a else rest

unfoldable pub remove_stream : Addr → Connections → Connections
remove_stream addr [] = []
remove_stream addr ((a, fd) ∷ conns) =
    let rest = remove_stream addr conns in if a == addr then rest else (a, fd) ∷ rest

-- `insert`: the new entry may stand anywhere in the order of iteration.
unfoldable pub insert_stream : Addr → ℕ → Connections → Connections
insert_stream addr fd conns = (addr, fd) ∷ remove_stream addr conns

-- What the process has: the engine's map, its open descriptors, and the mapping of the ring.
pub record State : Type 0 where
  pub connections : Connections
  pub fds : Fds
  pub ring : RingMem

abbrev pub drop_stream : Option ℕ → Fds → Fds
drop_stream none fds = fds
drop_stream (some fd) fds = close_fd fd fds

-- `conns.insert(addr, stream)`, which drops the stream that it replaces.
unfoldable pub store_stream : Addr → ℕ → State → State
store_stream addr fd s = record s {
  connections = insert_stream addr fd s.connections;
  fds = drop_stream (get_stream addr s.connections) s.fds;
}

abbrev pub Done : Type 0 → Type 0
Done A = Outcome NetworkError A × State

-- What the engine has for good: its configuration, its ring, and the text of an address.
pub record NetworkEngine : Type 0 where
  pub config : NetworkConfig
  pub ring_buffer : RingBuffer
  pub to_string : Addr → List ℕ

-- The answers to `local_addr` and `bind`; the bound listener has a descriptor of its own.
pub record ListenerApi : Type 0 where
  pub local_addr : ℕ → IoResult Addr
  pub bind : Addr → IoResult ℕ

abbrev pub then_return :
    {A : Type 0} → A → State → Outcome NetworkError (Unit {0}) × RingMem → Done A
then_return a s (ok u, m) = (ok a, record s { ring = m })
then_return a s (err e, m) = (err e, record s { ring = m })
then_return a s (panic, m) = (panic, record s { ring = m })
then_return a s (fault, m) = (fault, record s { ring = m })

-- The listener made of the caller's descriptor is dropped when `accept` returns.
abbrev pub closing : {A : Type 0} → ℕ → Done A → Done A
closing fd (r, s) = (r, record s { fds = close_fd fd s.fds })

module _ ⦃uuid : UuidApi⦄ (engine : NetworkEngine) (w : World) (api : SocketApi) where
  -- The end of a call: the notification, then the result.
  unfoldable pub notify_and_return : {A : Type 0} → OperationKind → Addr → A → State → Done A
  notify_and_return kind addr a s =
      then_return a s (notify engine.ring_buffer w kind (engine.to_string addr) s.ring)

  abbrev pub accepted : IoResult (ℕ × Addr) → State → Done (ℕ × Addr)
  accepted (io_ok (fd, peer)) s =
      notify_and_return network_receive peer (fd, peer)
        (store_stream peer fd (record s { fds = fd ∷ s.fds }))
  accepted (io_err e) s = (err (accept_failed e), s)

  abbrev pub bound : IoResult ℕ → State → Done (ℕ × Addr)
  bound (io_ok fd) s = closing fd (accepted (api.accept_on fd) (record s { fds = fd ∷ s.fds }))
  bound (io_err e) s = (err (io_failed e), s)

  abbrev pub listening : ListenerApi → IoResult Addr → State → Done (ℕ × Addr)
  listening listeners (io_ok addr) s = bound (listeners.bind addr) s
  listening listeners (io_err e) s = (err (io_failed e), s)

  unfoldable pub accept : ListenerApi → ℕ → State → Done (ℕ × Addr)
  accept listeners listener_fd s =
      closing listener_fd (listening listeners (listeners.local_addr listener_fd) s)

  abbrev pub connected : Addr → IoResult ℕ → State → Done ℕ
  connected addr (io_ok fd) s =
      notify_and_return network_send addr fd (store_stream addr fd (record s { fds = fd ∷ s.fds }))
  connected addr (io_err e) s = (err (connect_failed e), s)

  unfoldable pub connect : Addr → State → Done ℕ
  connect addr s = connected addr (api.connect_to addr) s

  abbrev pub read_answer : Addr → IoResult (List ℕ) → State → Done (List ℕ)
  read_answer addr (io_ok bytes) s =
      notify_and_return network_receive addr (truncated engine.config.buffer_size bytes) s
  read_answer addr (io_err e) s = (err (read_failed e), s)

  abbrev pub read_stream : Addr → Option ℕ → State → Done (List ℕ)
  read_stream addr none s = (err connection_removed, s)
  read_stream addr (some fd) s = read_answer addr (api.read_from fd engine.config.buffer_size) s

  abbrev pub read_at : Option Addr → State → Done (List ℕ)
  read_at none s = (err no_connection, s)
  read_at (some addr) s = read_stream addr (get_stream addr s.connections) s

  unfoldable pub read : ℕ → State → Done (List ℕ)
  read fd s = read_at (find_addr fd s.connections) s

  abbrev pub write_answer : Addr → IoResult ℕ → State → Done ℕ
  write_answer addr (io_ok n) s = notify_and_return network_send addr n s
  write_answer addr (io_err e) s = (err (write_failed e), s)

  abbrev pub write_stream : List ℕ → Addr → Option ℕ → State → Done ℕ
  write_stream bytes addr none s = (err connection_removed, s)
  write_stream bytes addr (some fd) s = write_answer addr (api.write_to fd bytes) s

  abbrev pub write_at : List ℕ → Option Addr → State → Done ℕ
  write_at bytes none s = (err no_connection, s)
  write_at bytes (some addr) s = write_stream bytes addr (get_stream addr s.connections) s

  unfoldable pub write : ℕ → List ℕ → State → Done ℕ
  write fd bytes s = write_at bytes (find_addr fd s.connections) s

  abbrev pub close_at : Option Addr → State → Done (Unit {0})
  close_at none s = (ok tt, s)
  close_at (some addr) s = notify_and_return network_close addr tt (record s {
    connections = remove_stream addr s.connections;
    fds = drop_stream (get_stream addr s.connections) s.fds;
  })

  unfoldable pub close : ℕ → State → Done (Unit {0})
  close fd s = close_at (find_addr fd s.connections) s

-- `drop` clears the map, which drops every stream.
unfoldable pub close_all : Connections → Fds → Fds
close_all [] fds = fds
close_all ((a, fd) ∷ conns) fds = close_all conns (close_fd fd fds)

unfoldable pub drop_engine : State → State
drop_engine s = record s { connections = []; fds = close_all s.connections s.fds }

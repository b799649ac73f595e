-- ===== src/Examples/EndToEnd.antt =====
-- elgate-core/examples/end_to_end.rs: a client reads a file and sends it in chunks, a server gathers
-- what it receives and writes it to a file, and the two files are compared. Each process has a ring,
-- an engine for files and one for sockets, and each call of an engine meets its own answers.
pub mod Room
pub mod Client
pub mod Server
mod Tests
use Prim.Native.String.{String}
use elgate.Prelude.{
  ℕ, zero, suc, ◌*◌, Bool, true, false, List, [], ◌∷◌, ◌++◌, Option, if◌then◌else◌, IoResult, io_ok,
  io_err, Outcome, ok, err, panic, fault,
}
use elgate.Ring.Slot.{UuidApi}
use elgate.Ring.Memory.{RingMem, RingError}
use elgate.Ring.Buffer.{RingBuffer, RingBufferOptions}
use elgate.Ring.Create.{FileIo, create}
use elgate.Disk.IoUring.{DiskEngine}
use elgate.Net.Sockets.{Addr, Fds, close_fd}
use elgate.Net.IoUring
use elgate.Net.IoUring.{NetworkEngine, ListenerApi}
use elgate.Examples.Chunks.{chunks}
use elgate.Examples.Process.{
  Answers, ExampleError, of_ring, Process, pure, ◌>>=◌, net, try_io, Runtime, within, on_stream,
  disk_read_call, disk_write_call, net_connect_call, net_send_call, net_close_call,
}

abbrev pub file_size : ℕ
file_size = 1024 * 1024

abbrev pub buffer_size : ℕ
buffer_size = 64 * 1024

abbrev pub chunk_size : ℕ
chunk_size = 8192

-- The paths and the address of the program, known by their bytes.
pub record Places : Type 0 where
  pub test_file : ℕ
  pub output_file : ℕ
  pub server_addr : Addr
  pub to_string : Addr → List ℕ
  pub to_string_lossy : ℕ → List ℕ

abbrev pub network : Places → RingBuffer → NetworkEngine
network places rb = record {
  config = record { queue_depth = 32; buffer_size = buffer_size };
  ring_buffer = rb;
  to_string = places.to_string;
}

abbrev pub storage : Places → RingBuffer → DiskEngine
storage places rb = record {
  config = record { queue_depth = 32; buffer_size = buffer_size };
  ring_buffer = rb;
  to_string_lossy = places.to_string_lossy;
}

module _ ⦃uuid : UuidApi⦄ (rt : Runtime) (places : Places) (rb : RingBuffer) where
  -- `for chunk in file_data.chunks(chunk_size) { net_engine.write(socket_fd, chunk.to_vec())? }`:
  -- the numbers of bytes, which are only printed.
  unfoldable pub send_each : (ℕ → Answers) → ℕ → List (List ℕ) → Process (List ℕ)
  send_each answers fd [] = pure []
  send_each answers fd (chunk ∷ rest) = do
    n ← net_send_call rt (network places rb) (answers 0) fd chunk
    ns ← send_each (λ i. answers (suc i)) fd rest
    pure (n ∷ ns)

  abbrev pub gathered :
      (List ℕ → Process (Option (List ℕ)))
      → List ℕ
      → IoUring.Done (List ℕ)
      → Outcome ExampleError (Option (List ℕ)) × IoUring.State
  gathered rest all_data (ok [], s) = (ok (Option.some all_data), s)
  gathered rest all_data (ok (b ∷ bs), s) = rest (all_data ++ (b ∷ bs)) s
  gathered rest all_data (err e, s) = (ok (Option.some all_data), s)
  gathered rest all_data (panic, s) = (panic, s)
  gathered rest all_data (fault, s) = (fault, s)

  -- The server's loop, for at most `fuel` reads: it ends at an empty read or an error.
  unfoldable pub receive : (ℕ → Answers) → ℕ → ℕ → List ℕ → Process (Option (List ℕ))
  receive answers zero fd all_data s = (ok Option.none, s)
  receive answers (suc fuel) fd all_data s =
      gathered (receive (λ i. answers (suc i)) fuel fd) all_data (
        on_stream rt fd (IoUring.read (network places rb) (answers 0).world (answers 0).sockets fd)
          s)

-- Whether `accept` fails before it waits for a connection.
abbrev pub binds_in_vain : IoResult ℕ → Bool
binds_in_vain (io_ok fd) = false
binds_in_vain (io_err e) = true

abbrev pub listens_in_vain : ListenerApi → IoResult Addr → Bool
listens_in_vain listeners (io_ok addr) = binds_in_vain (listeners.bind addr)
listens_in_vain listeners (io_err e) = true

-- A call of `accept`, which binds its listener outside of the runtime too: it is the accept of a
-- connection that panics there.
abbrev pub net_accept_call :
    ⦃uuid : UuidApi⦄ → Runtime → NetworkEngine → Answers → ListenerApi → ℕ → Process (ℕ × Addr)
net_accept_call rt engine c listeners fd =
    let call = net (IoUring.accept engine c.world c.sockets listeners fd) in
    if listens_in_vain listeners (listeners.local_addr fd) then call else within rt call

-- What a listener's owner does, at whose end the listener is dropped.
abbrev pub owning : {A : Type 0} → ℕ → Process A → Process A
owning fd process s = let (r, s') = process s in (r, record s' { fds = close_fd fd s'.fds })

-- What `create` and the answers of the system are to a process before its first call.
pub record Machine : Type 0 where
  pub io : FileIo
  pub now : ℕ
  pub fds : Fds

-- The options of both rings, but for the path.
abbrev pub ring_options : String → RingBufferOptions
ring_options path = record { path = path; size = 4 * 1024 * 1024; slot_size = 64 * 1024 }

-- The state of engines that have just been made.
abbrev pub begin : Fds → RingMem → IoUring.State
begin fds m = record { connections = []; fds = fds; ring = m }

-- A process on the ring that `create` makes.
abbrev pub on_ring :
    {A : Type 0}
    → Fds
    → (RingBuffer → Process A)
    → Outcome RingError (RingBuffer × RingMem)
    → Outcome ExampleError A
on_ring fds process (ok (rb, m)) = (process rb (begin fds m)).0
on_ring fds process (err e) = err (of_ring e)
on_ring fds process panic = panic
on_ring fds process fault = fault

-- The answers that the client's calls meet.
pub record ClientAnswers : Type 0 where
  pub connecting : Answers
  pub reading : Answers
  pub sending : ℕ → Answers
  pub closing : Answers

-- The answers that the server's calls meet: those to the calls on its listener, then to those of the
-- engines.
pub record ServerAnswers : Type 0 where
  pub bound : IoResult ℕ
  pub nonblocking : IoResult (Unit {0})
  pub listeners : ListenerApi
  pub accepting : Answers
  pub receiving : ℕ → Answers
  pub writing : Answers
  pub closing : Answers

module _ ⦃uuid : UuidApi⦄ (rt : Runtime) (places : Places) where
  -- `run_client` from its engines on, with the numbers of bytes that it prints.
  unfoldable pub client_on : ClientAnswers → RingBuffer → Process (List ℕ)
  unfolding send_each
  client_on a rb = do
    socket_fd ← net_connect_call rt (network places rb) a.connecting places.server_addr
    file_data ← disk_read_call rt (storage places rb) a.reading places.test_file 0
    ns ← send_each rt places rb a.sending socket_fd (chunks chunk_size file_data)
    u ← net_close_call (network places rb) a.closing socket_fd
    pure ns

  unfoldable pub run_client : Machine → ClientAnswers → Outcome ExampleError (List ℕ)
  unfolding client_on
  run_client here a =
      on_ring here.fds (client_on a)
        (create here.io (ring_options "/tmp/elgate_client_ring") here.now)

  -- What the server does with all that it has gathered.
  abbrev pub store_all :
      ServerAnswers → RingBuffer → ℕ → Option (List ℕ) → Process (Option (List ℕ))
  store_all a rb client_fd Option.none = pure Option.none
  store_all a rb client_fd (Option.some all_data) = do
    u ← disk_write_call rt (storage places rb) a.writing places.output_file 0 all_data
    v ← net_close_call (network places rb) a.closing client_fd
    pure (Option.some all_data)

  -- The server's work with its listener.
  unfoldable pub serve_on : ServerAnswers → ℕ → RingBuffer → ℕ → Process (Option (List ℕ))
  unfolding receive
  serve_on a fuel rb fd = do
    u ← try_io a.nonblocking
    (client_fd, client_addr) ← net_accept_call rt (network places rb) a.accepting a.listeners fd
    all_data ← receive rt places rb a.receiving fuel client_fd []
    store_all a rb client_fd all_data

  -- `run_server` from its engines on, its loop for at most `fuel` reads: what it has handed to
  -- `write_file`, if the loop has come to its end.
  unfoldable pub server_on : ServerAnswers → ℕ → RingBuffer → Process (Option (List ℕ))
  unfolding serve_on
  server_on a fuel rb = do
    fd ← try_io a.bound
    owning fd (λ s. serve_on a fuel rb fd (record s { fds = fd ∷ s.fds }))

  unfoldable pub run_server : Machine → ServerAnswers → ℕ → Outcome ExampleError (Option (List ℕ))
  unfolding server_on
  run_server here a fuel =
      on_ring here.fds (server_on a fuel)
        (create here.io (ring_options "/tmp/elgate_server_ring") here.now)

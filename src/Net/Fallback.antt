-- ===== src/Net/Fallback.antt =====
-- elgate-core/src/net/fallback.rs: the engine whose worker makes the calls on sockets, one operation
-- of the channel after the other. A worker that is aborted while it works is not modelled.
pub mod Calls
pub mod Session
use elgate.Prelude.{
  truncated, ℕ, ◌*◌, Bool, true, false, List, [], ◌∷◌, Option, some, none, ltb, ◌==◌, ◌^◌,
  if◌then◌else◌, IoError, IoResult, io_ok, io_err, Infallible, Outcome, ok, err, panic, fault,
  ◌>>=◌,
}
use elgate.Net.Sockets.{Addr, Fds, close_fd, SocketApi}

pub record NetworkConfig : Type 0 where
  pub worker_threads : ℕ
  pub pin_threads : Bool
  pub buffer_size : ℕ
  pub numa_node : Option ℕ

abbrev pub default_config : NetworkConfig
default_config = record {
  worker_threads = 2;
  pin_threads = true;
  buffer_size = 64 * 1024;
  numa_node = none;
}

pub data NetworkOperationType : Type 0 where
  accept connect read write close : NetworkOperationType

pub data NetworkResult : Type 0 where
  accepted : ℕ → Addr → NetworkResult
  connected : ℕ → NetworkResult
  received : List ℕ → NetworkResult
  written : ℕ → NetworkResult
  closed : NetworkResult

-- The errors, by their messages.
pub data NetworkError : Type 0 where
  failed : NetworkOperationType → IoError → NetworkError
  no_fd : NetworkOperationType → NetworkError
  no_address no_data unexpected_result send_failed : NetworkError

-- An operation on the channel. Its callback is what the caller makes of the result.
pub record NetworkOperation : Type 0 where
  pub op_type : NetworkOperationType
  pub addr : Option Addr
  pub fd : Option ℕ
  pub data_bytes : Option (List ℕ)

-- A result, and the descriptors that are open then.
abbrev pub Done : Type 0 → Type 0
Done A = Outcome NetworkError A × Fds

-- The listener made of the descriptor is dropped in the end; the stream is not.
abbrev pub accept_result : ℕ → Fds → IoResult (ℕ × Addr) → Done NetworkResult
accept_result fd fds (io_ok (new, peer)) = (ok (accepted new peer), close_fd fd (new ∷ fds))
accept_result fd fds (io_err e) = (err (failed accept e), close_fd fd fds)

abbrev pub connect_result : Fds → IoResult ℕ → Done NetworkResult
connect_result fds (io_ok new) = (ok (connected new), new ∷ fds)
connect_result fds (io_err e) = (err (failed connect e), fds)

-- The stream made of the descriptor is forgotten after a success only.
abbrev pub read_result : ℕ → ℕ → Fds → IoResult (List ℕ) → Done NetworkResult
read_result size fd fds (io_ok bytes) = (ok (received (truncated size bytes)), fds)
read_result size fd fds (io_err e) = (err (failed read e), close_fd fd fds)

abbrev pub write_result : ℕ → Fds → IoResult ℕ → Done NetworkResult
write_result fd fds (io_ok n) = (ok (written n), fds)
write_result fd fds (io_err e) = (err (failed write e), close_fd fd fds)

module _ (api : SocketApi) where
  abbrev pub perform_accept : Option ℕ → Fds → Done NetworkResult
  perform_accept none fds = (err (no_fd accept), fds)
  perform_accept (some fd) fds = accept_result fd fds (api.accept_on fd)

  abbrev pub perform_connect : Option Addr → Fds → Done NetworkResult
  perform_connect none fds = (err no_address, fds)
  perform_connect (some peer) fds = connect_result fds (api.connect_to peer)

  abbrev pub perform_read : ℕ → Option ℕ → Fds → Done NetworkResult
  perform_read size none fds = (err (no_fd read), fds)
  perform_read size (some fd) fds = read_result size fd fds (api.read_from fd size)

  abbrev pub perform_write : Option ℕ → Option (List ℕ) → Fds → Done NetworkResult
  perform_write none bytes fds = (err (no_fd write), fds)
  perform_write (some fd) none fds = (err no_data, fds)
  perform_write (some fd) (some bytes) fds = write_result fd fds (api.write_to fd bytes)

  abbrev pub perform_close : Option ℕ → Fds → Done NetworkResult
  perform_close none fds = (err (no_fd close), fds)
  perform_close (some fd) fds = (ok closed, close_fd fd fds)

  abbrev pub perform_type :
      NetworkOperationType → NetworkConfig → NetworkOperation → Fds → Done NetworkResult
  perform_type accept config op fds = perform_accept op.fd fds
  perform_type connect config op fds = perform_connect op.addr fds
  perform_type read config op fds = perform_read config.buffer_size op.fd fds
  perform_type write config op fds = perform_write op.fd op.data_bytes fds
  perform_type close config op fds = perform_close op.fd fds

  -- What the worker does with an operation that it has received.
  unfoldable pub perform : NetworkConfig → NetworkOperation → Fds → Done NetworkResult
  perform config op fds = perform_type op.op_type config op fds

-- The engine, and whether its worker runs.
pub record NetworkEngine : Type 0 where
  pub config : NetworkConfig
  pub running : Bool

-- `new`: a channel of no capacity is a panic.
unfoldable pub new_engine : NetworkConfig → Outcome Infallible NetworkEngine
new_engine c =
    if ltb (c.worker_threads * 32) (2 ^ 64)
    then (if c.worker_threads * 32 == 0 then panic else ok (record { config = c; running = true }))
    else panic

-- `drop` aborts the worker.
unfoldable pub drop_engine : NetworkEngine → NetworkEngine
drop_engine engine = record engine { running = false }

-- What the callbacks send of a result, by the results that they look for.
abbrev pub sent : {A : Type 0} → Option A → Outcome NetworkError A
sent (some a) = ok a
sent none = err unexpected_result

abbrev pub callback :
    {A : Type 0}
    → (NetworkResult → Option A)
    → Outcome NetworkError NetworkResult
    → Outcome NetworkError A
callback pick (ok r) = sent (pick r)
callback pick (err e) = err e
callback pick panic = panic
callback pick fault = fault

abbrev pub as_accepted : NetworkResult → Option (ℕ × Addr)
as_accepted (accepted fd peer) = some (fd, peer)
as_accepted _ = none

abbrev pub as_connected : NetworkResult → Option ℕ
as_connected (connected fd) = some fd
as_connected _ = none

abbrev pub as_received : NetworkResult → Option (List ℕ)
as_received (received bytes) = some bytes
as_received _ = none

abbrev pub as_written : NetworkResult → Option ℕ
as_written (written n) = some n
as_written _ = none

abbrev pub as_closed : NetworkResult → Option (Unit {0})
as_closed closed = some tt
as_closed _ = none

module _ (api : SocketApi) (engine : NetworkEngine) where
  -- A call: the operation goes to the worker, and its result through the callback.
  unfoldable pub submit :
      {A : Type 0} → (NetworkResult → Option A) → NetworkOperation → Fds → Done A
  submit pick op fds =
      if engine.running
      then (let done = perform api engine.config op fds in (callback pick done.0, done.1))
      else (err send_failed, fds)

  unfoldable pub accept_call : ℕ → Fds → Done (ℕ × Addr)
  accept_call fd =
      submit as_accepted (record { op_type = accept; addr = none; fd = some fd; data_bytes = none })

  unfoldable pub connect_call : Addr → Fds → Done ℕ
  connect_call peer =
      submit as_connected
        (record { op_type = connect; addr = some peer; fd = none; data_bytes = none })

  unfoldable pub read_call : ℕ → Fds → Done (List ℕ)
  read_call fd =
      submit as_received (record { op_type = read; addr = none; fd = some fd; data_bytes = none })

  unfoldable pub write_call : ℕ → List ℕ → Fds → Done ℕ
  write_call fd bytes =
      submit as_written
        (record { op_type = write; addr = none; fd = some fd; data_bytes = some bytes })

  unfoldable pub close_call : ℕ → Fds → Done (Unit {0})
  close_call fd =
      submit as_closed (record { op_type = close; addr = none; fd = some fd; data_bytes = none })

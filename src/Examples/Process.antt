-- ===== src/Examples/Process.antt =====
-- A process of the programs of elgate-core/examples: one ring, on which an engine for files and one for
-- sockets notify of what they do.
use elgate.Prelude.{
  ℕ, zero, suc, ◌+◌, Bool, List, [], ◌∷◌, Option, if◌then◌else◌, IoError, IoResult, io_ok, io_err,
  Outcome, ok, err, panic, fault,
}
use elgate.Ring.Slot.{UuidApi}
use elgate.Ring.Memory.{RingError}
use elgate.Ring.Buffer.{World}
use elgate.Disk.Files.{FileApi}
use elgate.Disk.IoUring as DiskIoUring
use elgate.Disk.IoUring.{DiskError, DiskEngine}
use elgate.Net.Sockets.{SocketApi, Addr}
use elgate.Net.IoUring
use elgate.Net.IoUring.{NetworkError, NetworkEngine}

-- The error of a process.
pub data ExampleError : Type 0 where
  of_ring : RingError → ExampleError
  of_net : NetworkError → ExampleError
  of_disk : DiskError → ExampleError
  of_io : IoError → ExampleError

-- What one call of an engine meets.
pub record Answers : Type 0 where
  pub world : World
  pub sockets : SocketApi
  pub files : FileApi

-- What a process has while it runs: the state of its engine for sockets, whose ring is that of its
-- engine for files too.
abbrev pub Process : Type 0 → Type 0
Process A = IoUring.State → Outcome ExampleError A × IoUring.State

abbrev pub pure : {A : Type 0} → A → Process A
pure a s = (ok a, s)

abbrev pub and_then :
    {A B : Type 0}
    → Outcome ExampleError A × IoUring.State
    → (A → Process B)
    → Outcome ExampleError B × IoUring.State
and_then (ok a, s) f = f a s
and_then (err e, s) f = (err e, s)
and_then (panic, s) f = (panic, s)
and_then (fault, s) f = (fault, s)

infixl 5 ◌>>=◌
abbrev pub ◌>>=◌ : {A B : Type 0} → Process A → (A → Process B) → Process B
◌>>=◌ c f s = and_then (c s) f

-- The `?` operator, on the errors of the library.
abbrev pub map_err : {E A : Type 0} → (E → ExampleError) → Outcome E A → Outcome ExampleError A
map_err f (ok a) = ok a
map_err f (err e) = err (f e)
map_err f panic = panic
map_err f fault = fault

abbrev pub net : {A : Type 0} → (IoUring.State → IoUring.Done A) → Process A
net call s = let (r, s') = call s in (map_err of_net r, s')

-- A call of the engine for files, whose map of handles no call of the program looks at.
abbrev pub disk : {A : Type 0} → (DiskIoUring.State → DiskIoUring.Done A) → Process A
disk call s =
    let (r, d) = call (DiskIoUring.new_state s.ring) in
    (map_err of_disk r, record s { ring = d.ring })

abbrev pub try_io : {A : Type 0} → IoResult A → Process A
try_io (io_ok a) s = (ok a, s)
try_io (io_err e) s = (err (of_io e), s)

-- A result that needs no state.
abbrev pub lift : {A : Type 0} → Outcome ExampleError A → Process A
lift r s = (r, s)

-- `timeout(…)` of a call, by whether its time is up first. The call is then dropped while it waits for
-- the system, before its notification.
abbrev pub timeout : {A : Type 0} → Bool → Process A → Process (Option A)
timeout late call = if late then pure Option.none else call >>= λ a. pure (Option.some a)

-- `.unwrap()` of what a call comes to.
abbrev pub unwrapped : {A : Type 0} → Outcome ExampleError A → Outcome ExampleError A
unwrapped (ok a) = ok a
unwrapped (err e) = panic
unwrapped panic = panic
unwrapped fault = fault

abbrev pub or_panic : {A : Type 0} → Process A → Process A
or_panic call s = let (r, s') = call s in (unwrapped r, s')

-- `for i in start..start + rounds`, with what the rounds give.
unfoldable pub for_range : {A : Type 0} → ℕ → ℕ → (ℕ → Process A) → Process (List A)
for_range i zero body = pure []
for_range i (suc rounds) body = do a ← body i; more ← for_range (i + 1) rounds body; pure (a ∷ more)

-- A result that is matched on.
abbrev pub tried : {A : Type 0} → Outcome ExampleError A → Outcome ExampleError (Option A)
tried (ok a) = ok (Option.some a)
tried (err e) = ok Option.none
tried panic = panic
tried fault = fault

abbrev pub attempt : {A : Type 0} → Process A → Process (Option A)
attempt call s = let (r, s') = call s in (tried r, s')

-- What runs a program: `tokio::main`, or `tokio_uring::start`.
pub data Runtime : Type 0 where
  tokio tokio_uring : Runtime

-- A call of an engine. Its operations are those of the crate tokio_uring, which panic outside of its
-- runtime.
abbrev pub within : {E A S : Type 0} → Runtime → (S → Outcome E A × S) → S → Outcome E A × S
within tokio_uring call s = call s
within tokio call s = (panic, s)

-- A call on a stream fails before it gets there, if the engine does not have the stream.
abbrev pub outside :
    {E A : Type 0}
    → Option Addr
    → (IoUring.State → Outcome E A × IoUring.State)
    → IoUring.State
    → Outcome E A × IoUring.State
outside Option.none call s = call s
outside (Option.some addr) call s = (panic, s)

abbrev pub on_stream :
    {E A : Type 0}
    → Runtime
    → ℕ
    → (IoUring.State → Outcome E A × IoUring.State)
    → IoUring.State
    → Outcome E A × IoUring.State
on_stream tokio_uring fd call s = call s
on_stream tokio fd call s = outside (IoUring.find_addr fd s.connections) call s

module _ ⦃uuid : UuidApi⦄ (rt : Runtime) where
  -- A call of an engine, with what it meets.
  abbrev pub disk_read_call : DiskEngine → Answers → ℕ → ℕ → Process (List ℕ)
  disk_read_call engine c path offset =
      within rt (disk (DiskIoUring.read_file engine c.world c.files path offset))

  abbrev pub disk_write_call : DiskEngine → Answers → ℕ → ℕ → List ℕ → Process (Unit {0})
  disk_write_call engine c path offset bytes =
      within rt (disk (DiskIoUring.write_file engine c.world c.files path offset bytes))

  abbrev pub disk_sync_call : DiskEngine → Answers → ℕ → Process (Unit {0})
  disk_sync_call engine c path =
      within rt (disk (DiskIoUring.sync_file engine c.world c.files path))

  abbrev pub net_connect_call : NetworkEngine → Answers → Addr → Process ℕ
  net_connect_call engine c addr = within rt (net (IoUring.connect engine c.world c.sockets addr))

  abbrev pub net_send_call : NetworkEngine → Answers → ℕ → List ℕ → Process ℕ
  net_send_call engine c fd bytes =
      on_stream rt fd (net (IoUring.write engine c.world c.sockets fd bytes))

  abbrev pub net_receive_call : NetworkEngine → Answers → ℕ → Process (List ℕ)
  net_receive_call engine c fd = on_stream rt fd (net (IoUring.read engine c.world c.sockets fd))

-- `close` makes no call of tokio_uring.
abbrev pub net_close_call : ⦃uuid : UuidApi⦄ → NetworkEngine → Answers → ℕ → Process (Unit {0})
net_close_call engine c fd = net (IoUring.close engine c.world c.sockets fd)

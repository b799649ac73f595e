-- ===== src/Disk/IoUring.antt =====
-- elgate-core/src/disk/io_uring.rs: the engine that opens a file for each operation and tells the ring
-- of those that succeed. The mutex is free, since an operation runs without interleaving.
pub mod Notifications
pub mod Answers
use elgate.Prelude.{
  ℕ, ◌*◌, true, false, List, [], ◌∷◌, ◌==◌, if◌then◌else◌, truncated, IoError, IoResult, io_ok,
  io_err, Outcome, ok, err, panic, fault,
}
use elgate.Ring.Slot.{UuidApi, OperationKind, disk_read, disk_write, custom}
use elgate.Ring.Memory.{RingMem}
use elgate.Ring.Buffer.{RingBuffer, World}
use elgate.Notify.{notify}
use elgate.Disk.Files.{FileApi}

pub record DiskConfig : Type 0 where
  pub queue_depth : ℕ
  pub buffer_size : ℕ

abbrev pub default_config : DiskConfig
default_config = record { queue_depth = 256; buffer_size = 128 * 1024 }

-- The errors, by their messages.
pub data DiskError : Type 0 where
  open_failed read_failed write_failed sync_failed : IoError → DiskError

-- The engine's configuration, its ring, and the text of a path.
pub record DiskEngine : Type 0 where
  pub config : DiskConfig
  pub ring_buffer : RingBuffer
  pub to_string_lossy : ℕ → List ℕ

-- The paths of the cached handles, and the mapping of the ring.
pub record State : Type 0 where
  pub file_handles : List ℕ
  pub ring : RingMem

-- `new`, on the ring's mapping.
unfoldable pub new_state : RingMem → State
new_state m = record { file_handles = []; ring = m }

-- `files.remove(path)`
unfoldable pub remove_handle : ℕ → List ℕ → List ℕ
remove_handle path [] = []
remove_handle path (p ∷ ps) =
    let rest = remove_handle path ps in if p == path then rest else p ∷ rest

abbrev pub Done : Type 0 → Type 0
Done A = Outcome DiskError A × State

abbrev pub then_return : {A : Type 0} → A → State → Outcome DiskError (Unit {0}) × RingMem → Done A
then_return a s (ok u, m) = (ok a, record s { ring = m })
then_return a s (err e, m) = (err e, record s { ring = m })
then_return a s (panic, m) = (panic, record s { ring = m })
then_return a s (fault, m) = (fault, record s { ring = m })

-- `map_err(...)?` on an answer, then the rest of the operation.
abbrev pub try_call :
    {A B : Type 0} → (IoError → DiskError) → IoResult A → (A → State → Done B) → State → Done B
try_call error (io_ok a) rest s = rest a s
try_call error (io_err e) rest s = (err (error e), s)

module _ ⦃uuid : UuidApi⦄ (engine : DiskEngine) (w : World) (api : FileApi) where
  -- The end of an operation: the notification, then the result.
  unfoldable pub notify_and_return : {A : Type 0} → OperationKind → ℕ → A → State → Done A
  notify_and_return kind path a s =
      then_return a s (notify engine.ring_buffer w kind (engine.to_string_lossy path) s.ring)

  unfoldable pub read_file : ℕ → ℕ → State → Done (List ℕ)
  read_file path offset = try_call open_failed (api.open_for_read path) (λ u.
      try_call read_failed (api.read_at path offset engine.config.buffer_size)
        (λ bytes. notify_and_return disk_read path (truncated engine.config.buffer_size bytes)))

  -- The number of bytes that were written is not looked at.
  unfoldable pub write_file : ℕ → ℕ → List ℕ → State → Done (Unit {0})
  write_file path offset bytes = try_call open_failed (api.open_or_create path) (λ u.
      try_call write_failed (api.write_at path offset bytes)
        (λ n. notify_and_return disk_write path tt))

  unfoldable pub sync_file : ℕ → State → Done (Unit {0})
  sync_file path =
      try_call open_failed (api.open_for_write path)
        (λ u. try_call sync_failed (api.sync_all path) (λ v. notify_and_return custom path tt))

  unfoldable pub close_file : ℕ → State → Done (Unit {0})
  close_file path s =
      notify_and_return custom path tt
        (record s { file_handles = remove_handle path s.file_handles })

-- `drop`
unfoldable pub drop_engine : State → State
drop_engine s = record s { file_handles = [] }

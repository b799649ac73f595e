-- ===== src/Disk/Fallback.antt =====
-- elgate-core/src/disk/fallback.rs: the engine whose worker makes the calls on files, one operation of
-- the channel after the other. A worker that is aborted while it works is not modelled.
pub mod Calls
use elgate.Prelude.{
  ℕ, ◌*◌, ◌^◌, Bool, true, false, List, [], Option, some, none, ltb, ◌==◌, if◌then◌else◌, truncated,
  IoError, IoResult, io_ok, io_err, Infallible, Outcome, ok, err, panic, ◌>>=◌, fault,
}
use elgate.Disk.Files.{FileApi}

pub record DiskConfig : Type 0 where
  pub worker_threads : ℕ
  pub pin_threads : Bool
  pub buffer_size : ℕ
  pub numa_node : Option ℕ

abbrev pub default_config : DiskConfig
default_config = record {
  worker_threads = 2;
  pin_threads = true;
  buffer_size = 128 * 1024;
  numa_node = none;
}

pub data DiskOperationType : Type 0 where
  read write sync close : DiskOperationType

-- The errors, by their messages.
pub data DiskError : Type 0 where
  open_failed seek_failed read_failed write_failed sync_failed : IoError → DiskError
  no_data send_failed : DiskError

-- An operation on the channel. Its callback is what the caller makes of the result.
pub record DiskOperation : Type 0 where
  pub op_type : DiskOperationType
  pub path : ℕ
  pub offset : ℕ
  pub data_bytes : Option (List ℕ)

-- A `match` on an answer that goes on after a success.
abbrev pub answer : {A : Type 0} → (IoError → DiskError) → IoResult A → Outcome DiskError A
answer error (io_ok a) = ok a
answer error (io_err e) = err (error e)

-- The size of the buffer of a read.
abbrev pub read_size : ℕ
read_size = 4096

module _ (api : FileApi) where
  unfoldable pub perform_read : ℕ → ℕ → Outcome DiskError (List ℕ)
  perform_read path offset = answer open_failed (api.open_for_read path) >>= λ u.
      answer seek_failed (api.seek path offset) >>= λ v.
      answer read_failed (api.read_at path offset read_size) >>= λ bytes.
      ok (truncated read_size bytes)

  abbrev pub write_bytes : ℕ → ℕ → Option (List ℕ) → Outcome DiskError (List ℕ)
  write_bytes path offset none = err no_data
  write_bytes path offset (some bytes) =
      answer write_failed (api.write_all path offset bytes) >>= λ u. ok []

  unfoldable pub perform_write : ℕ → ℕ → Option (List ℕ) → Outcome DiskError (List ℕ)
  perform_write path offset bytes = answer open_failed (api.open_or_create path) >>= λ u.
      answer seek_failed (api.seek path offset) >>= λ v. write_bytes path offset bytes

  unfoldable pub perform_sync : ℕ → Outcome DiskError (List ℕ)
  perform_sync path = answer open_failed (api.open_for_read path) >>= λ u.
      answer sync_failed (api.sync_all path) >>= λ v. ok []

  abbrev pub perform_type : DiskOperationType → DiskOperation → Outcome DiskError (List ℕ)
  perform_type read op = perform_read op.path op.offset
  perform_type write op = perform_write op.path op.offset op.data_bytes
  perform_type sync op = perform_sync op.path
  perform_type close op = ok []

  -- What the worker does with an operation that it has received.
  unfoldable pub perform : DiskOperation → Outcome DiskError (List ℕ)
  perform op = perform_type op.op_type op

-- The engine, and whether its worker runs.
pub record DiskEngine : Type 0 where
  pub config : DiskConfig
  pub running : Bool

-- `new`: a channel of no capacity is a panic.
unfoldable pub new_engine : DiskConfig → Outcome Infallible DiskEngine
new_engine c =
    if ltb (c.worker_threads * 32) (2 ^ 64)
    then (if c.worker_threads * 32 == 0 then panic else ok (record { config = c; running = true }))
    else panic

-- `drop` aborts the worker.
unfoldable pub drop_engine : DiskEngine → DiskEngine
drop_engine engine = record engine { running = false }

module _ (api : FileApi) (engine : DiskEngine) where
  -- The operation goes to the worker, and its result comes back.
  unfoldable pub submit : DiskOperation → Outcome DiskError (List ℕ)
  submit op = if engine.running then perform api op else err send_failed

  unfoldable pub read_file : ℕ → ℕ → Outcome DiskError (List ℕ)
  read_file p o = submit (record { op_type = read; path = p; offset = o; data_bytes = none })

  unfoldable pub write_file : ℕ → ℕ → List ℕ → Outcome DiskError (Unit {0})
  write_file p o bytes =
      submit (record { op_type = write; path = p; offset = o; data_bytes = some bytes }) >>= λ _.
      ok tt

  unfoldable pub sync_file : ℕ → Outcome DiskError (Unit {0})
  sync_file p =
      submit (record { op_type = sync; path = p; offset = 0; data_bytes = none }) >>= λ _. ok tt

  unfoldable pub close_file : ℕ → Outcome DiskError (Unit {0})
  close_file p =
      submit (record { op_type = close; path = p; offset = 0; data_bytes = none }) >>= λ _. ok tt

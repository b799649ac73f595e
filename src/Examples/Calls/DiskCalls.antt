-- ===== src/Examples/Calls/DiskCalls.antt =====
-- The calls of the engine for files that the programs of elgate-core/examples make.
use elgate.Prelude.{ℕ, ◌≡◌, refl, ap, List, [], truncated_all, IoError, io_ok, io_err, ok, err}
use elgate.Ring.Slot.{UuidApi, OperationKind, custom, disk_read, disk_write}
use elgate.Ring.Memory.{RingMem}
use elgate.Notify.{notify}
use elgate.Disk.IoUring as DiskIoUring
use elgate.Disk.IoUring.{DiskError, open_failed, DiskEngine, read_file, write_file, sync_file}
use elgate.Net.IoUring.{State}
use elgate.Examples.Process.{Answers, disk, map_err, of_disk}
use elgate.Examples.Tells.{Tells}

module _ ⦃uuid : UuidApi⦄ (engine : DiskEngine) {P P' : RingMem → Type 0} (a : Answers)
    (tells : Tells engine.ring_buffer a.world P P') (s : State) (h : P s.ring) where
  -- The end of an operation.
  disk_returns :
      {A : Type 0} (kind : OperationKind) (path : ℕ) (value : A)
      → (m : RingMem) × (DiskIoUring.notify_and_return engine a.world a.files kind path value
            (DiskIoUring.new_state s.ring)
          ≡ (ok value, record { file_handles = []; ring = m }))
        × P' m
  unfolding DiskIoUring.notify_and_return DiskIoUring.new_state
  disk_returns kind path value =
      let text = engine.to_string_lossy path in
      let (sent, after) = tells.told {E = DiskError} kind text s.ring h in
      let m = (notify {E = DiskError} engine.ring_buffer a.world kind text s.ring).1 in
      (m, ap (λ o. DiskIoUring.then_return value (DiskIoUring.new_state s.ring) (o, m)) sent, after)

  pub read_file_lem :
      (path offset : ℕ) (bytes : List ℕ)
      → a.files.open_for_read path ≡ io_ok tt
      → a.files.read_at path offset engine.config.buffer_size ≡ io_ok bytes
      → (m : RingMem) × (disk (read_file engine a.world a.files path offset) s
          ≡ (ok bytes, record s { ring = m }))
        × P' m
  unfolding read_file
  read_file_lem path offset bytes opened given =
      let (m, done, after) = disk_returns disk_read path bytes in
      (
        m,
        rw (opened, given, truncated_all engine.config.buffer_size bytes)
            (ap (λ d. (map_err of_disk d.0, record s { ring = d.1.ring })) done),
        after,
      )

  pub write_file_lem :
      (path offset taken : ℕ) (bytes : List ℕ)
      → a.files.open_or_create path ≡ io_ok tt
      → a.files.write_at path offset bytes ≡ io_ok taken
      → (m : RingMem) × (disk (write_file engine a.world a.files path offset bytes) s
          ≡ (ok tt, record s { ring = m }))
        × P' m
  unfolding write_file
  write_file_lem path offset taken bytes opened given =
      let (m, done, after) = disk_returns disk_write path tt in
      (
        m,
        rw (opened, given) (ap (λ d. (map_err of_disk d.0, record s { ring = d.1.ring })) done),
        after,
      )

  pub sync_file_lem :
      (path : ℕ)
      → a.files.open_for_write path ≡ io_ok tt
      → a.files.sync_all path ≡ io_ok tt
      → (m : RingMem) × (disk (sync_file engine a.world a.files path) s
          ≡ (ok tt, record s { ring = m }))
        × P' m
  unfolding sync_file
  sync_file_lem path opened given =
      let (m, done, after) = disk_returns custom path tt in
      (
        m,
        rw (opened, given) (ap (λ d. (map_err of_disk d.0, record s { ring = d.1.ring })) done),
        after,
      )

pub write_file_refused :
    ⦃uuid : UuidApi⦄ (engine : DiskEngine) (a : Answers) (s : State) (path offset : ℕ)
    (bytes : List ℕ) (e : IoError)
    → a.files.open_or_create path ≡ io_err e
    → disk (write_file engine a.world a.files path offset bytes) s
      ≡ (err (of_disk (open_failed e)), s)
unfolding write_file DiskIoUring.new_state
write_file_refused engine a s path offset bytes e refused = rw refused refl

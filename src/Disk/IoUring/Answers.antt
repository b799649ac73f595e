-- ===== src/Disk/IoUring/Answers.antt =====
-- What the operations of elgate-core/src/disk/io_uring.rs return, by the answers of the system.
use elgate.Prelude.{
  ℕ, ◌<◌, ◌≡◌, refl, ap, ◌∙◌, List, length, truncated, truncated_all, IoError, IoResult, io_ok,
  io_err, Outcome, ok, err,
}
use elgate.Ring.Slot.{UuidApi, OperationKind, disk_read, disk_write, custom}
use elgate.Ring.Buffer.{RingBuffer, World, Entry}
use elgate.Ring.Buffer.Valid.{IsValid}
use elgate.Notify.{notify, notify-IsValid}
use elgate.Disk.Files.{FileApi}
use elgate.Disk.IoUring.{
  DiskError, open_failed, read_failed, write_failed, sync_failed, DiskEngine, State, then_return,
  try_call, notify_and_return, read_file, write_file, sync_file, close_file, remove_handle,
}

-- The first error of two calls, or what is made of the second answer.
abbrev pub first_error :
    {A B C : Type 0}
    → (IoError → DiskError)
    → (IoError → DiskError)
    → (B → C)
    → IoResult A
    → IoResult B
    → Outcome DiskError C
first_error e f value (io_err x) t = err (e x)
first_error e f value (io_ok a) (io_err y) = err (f y)
first_error e f value (io_ok a) (io_ok b) = ok (value b)

module _ ⦃uuid : UuidApi⦄ (engine : DiskEngine) (w : World) (api : FileApi) where
  abbrev rb : RingBuffer
  rb = engine.ring_buffer

  notify_and_return-ok :
      {A : Type 0} (kind : OperationKind) (path : ℕ) (a : A) (q : List Entry) (s : State)
      → IsValid rb q s.ring
      → length q < s.ring.header.slot_count
      → (notify_and_return engine w api kind path a s).0 ≡ ok a
  unfolding notify_and_return
  notify_and_return-ok kind path a q s v room =
      let text = engine.to_string_lossy path in
      let told = notify {E = DiskError} rb w kind text s.ring in
      ap (λ o. (then_return a s (o, told.1)).0)
        (notify-IsValid {E = DiskError} rb w kind text q s.ring v room).0

  module _ (q : List Entry) (s : State) where
    two_calls-first_error :
        {A B C : Type 0} (kind : OperationKind) (path : ℕ) (e f : IoError → DiskError)
        (value given : B → C)
        → ((b : B) → given b ≡ value b)
        → (r : IoResult A) (t : IoResult B) → IsValid rb q s.ring
        → length q < s.ring.header.slot_count
        → (try_call e r
            (λ a. try_call f t (λ b. notify_and_return engine w api kind path (given b)))
            s).0
          ≡ first_error e f value r t
    two_calls-first_error kind path e f value given same (io_err x) t v room = refl
    two_calls-first_error kind path e f value given same (io_ok a) (io_err y) v room = refl
    two_calls-first_error kind path e f value given same (io_ok a) (io_ok b) v room =
        notify_and_return-ok kind path (given b) q s v room ∙ ap ok (same b)

    -- Where the ring has a slot to spare, each operation of the io_uring engine returns the first
    -- error of the two calls that it makes, or its result: the bytes of a read, and success for a
    -- write whatever number of bytes the system has taken, for a sync and for a close.
    pub operations_answered :
        (path offset : ℕ) (bytes : List ℕ)
        → IsValid rb q s.ring
        → length q < s.ring.header.slot_count
        → ((read_file engine w api path offset s).0
            ≡ first_error open_failed read_failed
                (λ b. b)
                (api.open_for_read path)
                (api.read_at path offset engine.config.buffer_size))
          × ((write_file engine w api path offset bytes s).0
              ≡ first_error open_failed write_failed
                  (λ n. tt)
                  (api.open_or_create path)
                  (api.write_at path offset bytes))
          × ((sync_file engine w api path s).0
              ≡ first_error open_failed sync_failed
                  (λ u. tt)
                  (api.open_for_write path)
                  (api.sync_all path))
          × ((close_file engine w api path s).0 ≡ ok tt)
    unfolding read_file write_file sync_file close_file
    operations_answered path offset bytes v room = (
      two_calls-first_error disk_read path open_failed read_failed (λ b. b)
          (truncated engine.config.buffer_size) (truncated_all engine.config.buffer_size)
          (api.open_for_read path) (api.read_at path offset engine.config.buffer_size) v room,
      two_calls-first_error disk_write path open_failed write_failed (λ n. tt) (λ n. tt) (λ n. refl)
          (api.open_or_create path) (api.write_at path offset bytes) v room,
      two_calls-first_error custom path open_failed sync_failed (λ u. tt) (λ u. tt) (λ u. refl)
          (api.open_for_write path) (api.sync_all path) v room,
      notify_and_return-ok custom path tt q
          (record s { file_handles = remove_handle path s.file_handles }) v room,
    )

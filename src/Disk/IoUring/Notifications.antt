-- ===== src/Disk/IoUring/Notifications.antt =====
-- What the ring hears of the operations of elgate-core/src/disk/io_uring.rs.
use elgate.Prelude.{
  ℕ, ◌+◌, ◌<◌, ◌≤◌, ◌≡◌, refl, ap, List, [], ◌∷◌, length, arith, truncated, panic, fault, IoResult,
  io_ok, io_err, IoError, io_error, Outcome, ok, err, ◌>>=◌,
}
use elgate.Ring.Slot.{UuidApi, OperationKind, disk_read, disk_write, custom}
use elgate.Ring.Buffer.{RingBuffer, World, Entry}
use elgate.Ring.Buffer.Valid.{IsValid}
use elgate.Notify.{notify, notified, length-notified, notify-IsValid}
use elgate.Disk.Files.{FileApi}
use elgate.Disk.IoUring.{
  DiskError, open_failed, read_failed, write_failed, sync_failed, DiskEngine, State, Done,
  then_return, try_call, notify_and_return, read_file, write_file, sync_file, close_file,
  remove_handle,
}

pub data FileOp : Type 0 where
  reads : ℕ → ℕ → FileOp
  writes : ℕ → ℕ → List ℕ → FileOp
  syncs : ℕ → FileOp
  closes : ℕ → FileOp

abbrev pub kind_of : FileOp → OperationKind
kind_of (reads path offset) = disk_read
kind_of (writes path offset bytes) = disk_write
kind_of (syncs path) = custom
kind_of (closes path) = custom

abbrev pub path_of : FileOp → ℕ
path_of (reads path offset) = path
path_of (writes path offset bytes) = path
path_of (syncs path) = path
path_of (closes path) = path

abbrev pub done_of : {A : Type 0} → Outcome DiskError A → Outcome DiskError (Unit {0})
done_of o = o >>= λ a. ok tt

-- An operation that returns, without what it returns.
abbrev pub finished : {A : Type 0} → Done A → Done (Unit {0})
finished d = (done_of d.0, d.1)

module _ ⦃uuid : UuidApi⦄ (engine : DiskEngine) where
  abbrev rb : RingBuffer
  rb = engine.ring_buffer

  -- One operation, with the answers that it gets.
  unfoldable pub step : World × FileApi → FileOp → State → Done (Unit {0})
  step (w, api) (reads path offset) s = finished (read_file engine w api path offset s)
  step (w, api) (writes path offset bytes) s =
      finished (write_file engine w api path offset bytes s)
  step (w, api) (syncs path) s = finished (sync_file engine w api path s)
  step (w, api) (closes path) s = finished (close_file engine w api path s)

  -- The entries of the ring after an operation with this result.
  abbrev pub heard : FileOp → Outcome DiskError (Unit {0}) → List Entry → List Entry
  heard op (ok u) q = notified rb (kind_of op) (engine.to_string_lossy (path_of op)) q
  heard op _ q = q

  unfoldable pub run : List ((World × FileApi) × FileOp) → State → State
  run [] s = s
  run ((x, op) ∷ ops) s = run ops (step x op s).1

  -- The entries of the ring after the operations, by their results.
  abbrev pub heard_all : List ((World × FileApi) × FileOp) → State → List Entry → List Entry
  heard_all [] s q = q
  heard_all ((x, op) ∷ ops) s q = let (r, s') = step x op s in heard_all ops s' (heard op r q)

  record Reports (op : FileOp) (q : List Entry) (n : ℕ) (d : Done (Unit {0})) : Type 0 where
    valid : IsValid rb (heard op d.0 q) d.1.ring
    count : d.1.ring.header.slot_count ≡ n

  try_call-Reports :
      {A B : Type 0} (op : FileOp) (q : List Entry) (n : ℕ) (error : IoError → DiskError)
      (r : IoResult A) (rest : A → State → Done B) (s : State)
      → Reports op q n (err (error (io_error 0)), s)
      → ((a : A) → Reports op q n (finished (rest a s)))
      → Reports op q n (finished (try_call error r rest s))
  try_call-Reports op q n error (io_ok a) rest s before after = after a
  try_call-Reports op q n error (io_err e) rest s before after = record {
    valid = before.valid;
    count = before.count;
  }

  module _ (w : World) (api : FileApi) (op : FileOp) (q : List Entry) (s : State) where
    failed-Reports :
        (e : DiskError) → IsValid rb q s.ring → Reports op q s.ring.header.slot_count (err e, s)
    failed-Reports e v = record { valid = v; count = refl }

    notify_and_return-Reports :
        {A : Type 0} (a : A)
        → IsValid rb q s.ring
        → length q < s.ring.header.slot_count
        → Reports op q s.ring.header.slot_count
            (finished (notify_and_return engine w api (kind_of op) (path_of op) a s))
    unfolding notify_and_return
    notify_and_return-Reports a v room =
        let text = engine.to_string_lossy (path_of op) in
        let told = notify {E = DiskError} rb w (kind_of op) text s.ring in
        let sent = notify-IsValid {E = DiskError} rb w (kind_of op) text q s.ring v room in
        let same : then_return a s told ≡ (ok a, record s { ring = told.1 }) =
          ap (λ o. then_return a s (o, told.1)) sent.0 in
        rw same (record { valid = sent.1; count = sent.2 })

    -- An operation of two calls, and the notification behind them.
    two_calls-Reports :
        {A B C : Type 0} (e f : IoError → DiskError) (r : IoResult A) (t : IoResult B)
        (value : B → C)
        → IsValid rb q s.ring
        → length q < s.ring.header.slot_count
        → Reports op q s.ring.header.slot_count (
            finished (
              try_call e r
                (λ a.
                  try_call f t
                    (λ b. notify_and_return engine w api (kind_of op) (path_of op) (value b)))
                s))
    two_calls-Reports e f r t value v room =
        try_call-Reports op q s.ring.header.slot_count e r _ s (failed-Reports _ v) (λ a.
          try_call-Reports op q s.ring.header.slot_count f t _ s (failed-Reports _ v)
            (λ b. notify_and_return-Reports (value b) v room))

  step-Reports :
      (x : World × FileApi) (op : FileOp) (q : List Entry) (s : State)
      → IsValid rb q s.ring
      → length q < s.ring.header.slot_count
      → Reports op q s.ring.header.slot_count (step x op s)
  unfolding step read_file write_file sync_file close_file
  step-Reports (w, api) (reads path offset) q s v room =
      two_calls-Reports w api (reads path offset) q s open_failed read_failed
        (api.open_for_read path) (api.read_at path offset engine.config.buffer_size)
        (truncated engine.config.buffer_size) v room
  step-Reports (w, api) (writes path offset bytes) q s v room =
      two_calls-Reports w api (writes path offset bytes) q s open_failed write_failed
        (api.open_or_create path) (api.write_at path offset bytes) (λ n. tt) v room
  step-Reports (w, api) (syncs path) q s v room =
      two_calls-Reports w api (syncs path) q s open_failed sync_failed (api.open_for_write path)
        (api.sync_all path) (λ u. tt) v room
  step-Reports (w, api) (closes path) q s v room =
      notify_and_return-Reports w api (closes path) q
        (record s { file_handles = remove_handle path s.file_handles }) tt v room

  length-heard :
      (op : FileOp) (r : Outcome DiskError (Unit {0})) (q : List Entry)
      → length (heard op r q) ≤ length q + 1
  length-heard op (ok u) q = length-notified rb (kind_of op) (engine.to_string_lossy (path_of op)) q
  length-heard op (err e) q = omega arith
  length-heard op panic q = omega arith
  length-heard op fault q = omega arith

  -- Over any sequence of operations with no more of them than the ring has slots to spare,
  -- whatever the system answers, the ring holds behind its entries one notification for each
  -- operation that succeeded, with its kind and path, in their order, but for those that do not
  -- fit a slot; a failed operation adds none.
  pub run-IsValid :
      (ops : List ((World × FileApi) × FileOp)) (q : List Entry) (s : State)
      → IsValid rb q s.ring
      → length q + length ops ≤ s.ring.header.slot_count
      → IsValid rb (heard_all ops s q) (run ops s).ring
  unfolding run
  run-IsValid [] q s v room = v
  run-IsValid ((x, op) ∷ ops) q s v room =
      let next = step-Reports x op q s v (omega arith) in
      run-IsValid ops (heard op (step x op s).0 q) (step x op s).1 next.valid
        (omega (arith, next.count, length-heard op (step x op s).0 q))

-- ===== src/Ring/Refine.antt =====
-- The ring against the bounded queue, over any sequence of calls.
use elgate.Prelude.{
  ℕ, ◌-◌, ◌%◌, ◌<◌, ◌≡◌, refl, ap, ap₂, ◌∙◌, List, [], ◌∷◌, Option, some, none, arith, length,
  Outcome, ok, err, panic, fault, ltb, inl, inr, Bool-cases, ltb→lt, ltb→le, lt→ltb, length-append,
}
use elgate.Ring.Slot.{UuidApi, OperationKind}
use elgate.Ring.Memory.{RingMem, RingError, payload_too_large}
use elgate.Ring.Buffer.{RingBuffer, World, Entry, write, read}
use elgate.Ring.Buffer.Valid.{IsValid, area}
use elgate.Ring.Buffer.Write.{write_pushes, write_too_large}
use elgate.Ring.Buffer.Read.{read_pops, read_of_eq}
use elgate.Ring.Queue
use elgate.Ring.Queue.{
  Op, put, get, Reply, accepted, too_large, full, nothing, broken, found, Accepts, Fits,
}
use native.Mathlib.Nat.{mod-eq_of_lt, add-zero}

abbrev pub reply_of_write : Outcome RingError ℕ → Reply
reply_of_write (ok i) = accepted
reply_of_write (err payload_too_large) = too_large
reply_of_write (err _) = full
reply_of_write panic = broken
reply_of_write fault = broken

abbrev pub reply_of_read : Outcome RingError (Option Entry) → Reply
reply_of_read (ok (some e)) = found e
reply_of_read (ok none) = nothing
reply_of_read (err _) = broken
reply_of_read panic = broken
reply_of_read fault = broken

module _ ⦃uuid : UuidApi⦄ (rb : RingBuffer) where
  -- A client's calls, one after the other.
  unfoldable pub step : Op → RingMem → Reply × RingMem
  step (put w kind bytes) m = let (r, m') = write rb w kind bytes m in (reply_of_write r, m')
  step get m = let (r, m') = read rb m in (reply_of_read r, m')

  unfoldable pub run : List Op → RingMem → List Reply × RingMem
  run [] m = ([], m)
  run (op ∷ ops) m = let (r, m') = step op m in let (rs, m'') = run ops m' in (r ∷ rs, m'')

  -- The mapping of `n` slots holds `q`, with a slot to spare.
  record Simulates (n : ℕ) (r : Reply × List Entry) (s : Reply × RingMem) : Type 0 where
    same : s.0 ≡ r.0
    valid : IsValid rb r.1 s.1
    count : s.1.header.slot_count ≡ n
    spare : length r.1 < n

  put-Simulates :
      (n : ℕ) (w : World) (kind : OperationKind) (bytes : List ℕ) (q : List Entry) (m : RingMem)
      → IsValid rb q m
      → m.header.slot_count ≡ n
      → length q < n - 1
      → Simulates n (Queue.push (n - 1) (area rb) q kind bytes) (step (put w kind bytes) m)
  unfolding step
  put-Simulates n w kind bytes q m v count room = elim (Bool-cases (ltb (area rb) (length bytes))) [
    | inl big ↦
        rw (big, write_too_large rb w kind bytes m v.roomy (ltb→lt _ _ big))
          (record { same = refl; valid = v; count = count; spare = omega arith })
    | inr fits ↦
        let (stored, valid, moved) =
          write_pushes rb w kind bytes q m v (omega arith) (ltb→le _ _ fits) in
        rw (fits, lt→ltb (length q) (n - 1) room)
          (record {
            same = ap reply_of_write stored;
            valid = valid;
            count = ap (λ h. h.slot_count) moved ∙ count;
            spare = omega (arith, length-append q ((kind, bytes) ∷ []));
          })
  ]

  get-Simulates :
      (n : ℕ) (q : List Entry) (m : RingMem)
      → IsValid rb q m
      → m.header.slot_count ≡ n
      → length q < n
      → Simulates n (Queue.pop (n - 1) (area rb) q) (step get m)
  unfolding step
  get-Simulates n [] m v count room =
      rw
        (read_of_eq rb m (
          v.ahead
          ∙ ap (λ t. t % m.header.slot_count) (add-zero m.header.consumer_idx)
          ∙ mod-eq_of_lt v.consumer))
        (record { same = refl; valid = v; count = count; spare = room })
  get-Simulates n (e ∷ q) m v count room =
      let (given, valid, _, kept) = read_pops rb m e q v (omega arith) in
      record {
        same = ap reply_of_read given;
        valid = valid;
        count = kept ∙ count;
        spare = omega arith;
      }

  step-Simulates :
      (n : ℕ) (op : Op) (q : List Entry) (m : RingMem)
      → IsValid rb q m
      → m.header.slot_count ≡ n
      → length q < n
      → Accepts (n - 1) (area rb) q op
      → Simulates n (Queue.step (n - 1) (area rb) q op) (step op m)
  step-Simulates n (put w kind bytes) q m v count room fit =
      put-Simulates n w kind bytes q m v count fit
  step-Simulates n get q m v count room fit = get-Simulates n q m v count room

  run_simulates :
      (n : ℕ) (ops : List Op) (q : List Entry) (m : RingMem)
      → IsValid rb q m
      → m.header.slot_count ≡ n
      → length q < n
      → Fits (n - 1) (area rb) q ops
      → let (replies, m') = run ops m in
        let (expected, q') = Queue.run (n - 1) (area rb) q ops in
        (replies ≡ expected) × IsValid rb q' m'
  unfolding run
  run_simulates n [] q m v count room fits = (refl, v)
  run_simulates n (op ∷ ops) q m v count room fits =
      let s = step-Simulates n op q m v count room fits.0 in
      let (rest, valid) = run_simulates n ops _ _ s.valid s.count s.spare fits.1 in
      (ap₂ ◌∷◌ s.same rest, valid)

  -- Over any sequence of reads and writes that never has more than all slots but one in use, the
  -- ring answers as the bounded queue of capacity `slot_count - 1` does, and holds what it holds.
  pub run_refines :
      (ops : List Op) (q : List Entry) (m : RingMem)
      → IsValid rb q m
      → length q < m.header.slot_count
      → Fits (m.header.slot_count - 1) (area rb) q ops
      → let (replies, m') = run ops m in
        let (expected, q') = Queue.run (m.header.slot_count - 1) (area rb) q ops in
        (replies ≡ expected) × IsValid rb q' m'
  run_refines ops q m v room fits = run_simulates m.header.slot_count ops q m v refl room fits

-- ===== src/Examples/Throughput/Drain.antt =====
-- What the reads of elgate-core/examples/perf_benchmark.rs and numa_ring_buffer.rs find in the ring.
use elgate.Prelude.{
  ℕ, zero, suc, ◌+◌, ◌≤◌, ◌<◌, ◌≡◌, refl, ap, ◌∙◌, List, [], ◌∷◌, length, arith, ok, true, false,
  lt→ltb, le→ltb, leb, drop, some, ◌%◌,
}
use native.Mathlib.Nat.{mod-eq_of_lt, add-zero}
use elgate.Ring.Slot.{UuidApi}
use elgate.Ring.Memory.{RingMem}
use elgate.Ring.Buffer.{RingBuffer, Entry, read}
use elgate.Ring.Buffer.Valid.{IsValid}
use elgate.Ring.Buffer.Read.{read_pops, read_of_eq}
use elgate.Examples.Throughput.{read_each, consume}

leb_zero : (n : ℕ) → true ≡ leb 0 n
leb_zero n = ground arith

leb_none : (d : ℕ) → false ≡ leb (suc d) 0
leb_none d = ground arith

leb-suc : (a b : ℕ) → leb a b ≡ leb (suc a) (suc b)
leb-suc a b = ground arith

module _ ⦃uuid : UuidApi⦄ (rb : RingBuffer) where
  -- As many reads as there are entries find them all.
  pub read_each_drains :
      (q : List Entry) (m : RingMem)
      → IsValid rb q m
      → length q < m.header.slot_count
      → (m' : RingMem) × (read_each rb (length q) m ≡ (ok tt, m')) × IsValid rb [] m'
  unfolding read_each
  read_each_drains [] m v room = (m, refl, v)
  read_each_drains (e ∷ q) m v room =
      let (found, valid, _, count) = read_pops rb m e q v room in
      let m1 : RingMem = (read rb m).1 in
      let (m', drained, empty) = read_each_drains q m1 valid (omega (arith, count)) in
      (m', rw found drained, empty)

  IsValid-meet : (m : RingMem) → IsValid rb [] m → m.header.producer_idx ≡ m.header.consumer_idx
  IsValid-meet m v =
      v.ahead
      ∙ ap (λ t. t % m.header.slot_count) (add-zero m.header.consumer_idx)
      ∙ mod-eq_of_lt v.consumer

  consume_step :
      (fuel target k : ℕ) (m : RingMem) (e : Entry)
      → (read rb m).0 ≡ ok (some e)
      → k < target
      → consume rb (suc fuel) target k m ≡ consume rb fuel target (k + 1) (read rb m).1
  unfolding consume
  consume_step fuel target k m e found lt = rw (lt→ltb k target lt, found) refl

  -- Rounds that find nothing change nothing: the loop does not come to its end.
  consume_empty :
      (fuel target k : ℕ) (m : RingMem)
      → m.header.producer_idx ≡ m.header.consumer_idx
      → k < target
      → consume rb fuel target k m ≡ (ok false, m)
  unfolding consume
  consume_empty zero target k m meet lt = rw (lt→ltb k target lt) refl
  consume_empty (suc fuel) target k m meet lt =
      rw (lt→ltb k target lt, read_of_eq rb m meet) (consume_empty fuel target k m meet lt)

  consume_done :
      (fuel target k : ℕ) (m : RingMem) → target ≤ k → consume rb fuel target k m ≡ (ok true, m)
  unfolding consume
  consume_done zero target k m le = rw (le→ltb k target le) refl
  consume_done (suc fuel) target k m le = rw (le→ltb k target le) refl

  -- The loop with `d` entries to go.
  consume_left :
      (d fuel target k : ℕ) (q : List Entry) (m : RingMem)
      → IsValid rb q m
      → length q < m.header.slot_count
      → target ≡ k + d
      → d ≤ fuel
      → let (r, m') = consume rb fuel target k m in
        (r ≡ ok (leb d (length q))) × IsValid rb (drop d q) m'
  consume_left zero fuel target k q m v room e enough =
      rw (consume_done fuel target k m (omega arith)) (ap ok (leb_zero (length q)), v)
  consume_left (suc d) zero target k q m v room e enough = absurd (omega arith)
  consume_left (suc d) (suc fuel) target k [] m v room e enough =
      rw (consume_empty (suc fuel) target k m (IsValid-meet m v) (omega arith))
        (ap ok (leb_none d), v)
  consume_left (suc d) (suc fuel) target k (x ∷ q) m v room e enough =
      let (found, valid, _, count) = read_pops rb m x q v room in
      let (r, rest) =
        consume_left d fuel target (k + 1) q (read rb m).1 valid (omega (arith, count))
          (omega arith) (omega arith) in
      rw (consume_step fuel target k m x found (omega arith))
        (r ∙ ap ok (leb-suc d (length q)), rest)

  -- On a ring that holds fewer entries than it has slots, with nobody writing, the consumer's loop
  -- of perf_benchmark.rs, for at least as many rounds as it wants entries, comes to its end just
  -- where the ring holds as many, and leaves the entries behind them, or none where it holds
  -- fewer.
  pub consume-ends :
      (fuel target : ℕ) (q : List Entry) (m : RingMem)
      → IsValid rb q m
      → length q < m.header.slot_count
      → target ≤ fuel
      → let (r, m') = consume rb fuel target 0 m in
        (r ≡ ok (leb target (length q))) × IsValid rb (drop target q) m'
  consume-ends fuel target q m v room enough =
      consume_left target fuel target 0 q m v room (omega arith) enough

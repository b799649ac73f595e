-- ===== src/Examples/Throughput/Fill.antt =====
-- What the writes of elgate-core/examples/perf_benchmark.rs and numa_ring_buffer.rs leave in the ring.
use elgate.Prelude.{
  ℕ, zero, suc, ◌+◌, ◌≤◌, ◌<◌, ◌≡◌, refl, ap, ◌∙◌, subst, List, [], ◌∷◌, ◌++◌, replicate, length,
  length-append, arith, ok, err, dec_lt,
}
use mathlib.Core.List.{append-nil, append_assoc}
use elgate.Ring.Header.{RingHeader}
use elgate.Ring.Slot.{UuidApi, disk_write}
use elgate.Ring.Memory.{RingMem, ring_full, and_then_ok}
use elgate.Ring.Buffer.{RingBuffer, World, Entry, write}
use elgate.Ring.Buffer.Valid.{IsValid, area}
use elgate.Ring.Buffer.Write.{write_pushes}
use elgate.Ring.Buffer.Full.{write_full}
use elgate.Examples.Throughput.{send_each}

module _ ⦃uuid : UuidApi⦄ (rb : RingBuffer) (w : World) (bytes : List ℕ) where
  abbrev pub copies : ℕ → List Entry
  copies n = replicate n (disk_write, bytes)

  -- While there is room for all of them, the writes go in one behind the other.
  pub send_each_fits :
      (n : ℕ) (q : List Entry) (m : RingMem)
      → IsValid rb q m
      → length q + n ≤ m.header.slot_count
      → length bytes ≤ area rb
      → (m' : RingMem) × (send_each rb w bytes n m ≡ (ok tt, m'))
        × IsValid rb (q ++ copies n) m'
        × (m'.header.slot_count ≡ m.header.slot_count)
  unfolding send_each
  send_each_fits zero q m v room fit = (m, refl, rw (append-nil q) v, refl)
  send_each_fits (suc n) q m v room fit =
      let (stored, valid, moved) = write_pushes rb w disk_write bytes q m v (omega arith) fit in
      let m1 : RingMem = (write rb w disk_write bytes m).1 in
      let count : m1.header.slot_count ≡ m.header.slot_count =
        ap (λ (h : RingHeader). h.slot_count) moved in
      let longer = length-append q ((disk_write, bytes) ∷ []) in
      let (m', sent, valid', count') =
        send_each_fits n (q ++ ((disk_write, bytes) ∷ [])) m1 valid (omega (arith, longer, count))
          fit in
      (
        m',
        and_then_ok _ m1 (λ _. send_each rb w bytes n) stored ∙ sent,
        subst (λ l. IsValid rb l m') (append_assoc q _ _) valid',
        count' ∙ count,
      )

  -- With one write too many, and nobody reading, the first that finds no room fails.
  pub send_each_overflows :
      (n : ℕ) (q : List Entry) (m : RingMem)
      → ((ms : ℕ) (other : RingMem) → w.others ms other ≡ other)
      → IsValid rb q m
      → m.header.slot_count < length q + n
      → length bytes ≤ area rb
      → (send_each rb w bytes n m).0 ≡ err ring_full
  unfolding send_each
  send_each_overflows zero q m alone v over fit = absurd (omega (arith, v.short))
  send_each_overflows (suc n) q m alone v over fit = elim (dec_lt (length q) m.header.slot_count) [
    | yes room ↦
        let (stored, valid, moved) = write_pushes rb w disk_write bytes q m v room fit in
        let m1 : RingMem = (write rb w disk_write bytes m).1 in
        let count : m1.header.slot_count ≡ m.header.slot_count =
          ap (λ (h : RingHeader). h.slot_count) moved in
        let longer = length-append q ((disk_write, bytes) ∷ []) in
        ap (λ r. r.0) (and_then_ok _ m1 (λ _. send_each rb w bytes n) stored)
        ∙ send_each_overflows n (q ++ ((disk_write, bytes) ∷ [])) m1 alone valid
            (omega (arith, longer, count)) fit
    | no full ↦
        rw (write_full rb w disk_write bytes q m alone v (omega (arith, v.short, full)) fit) refl
  ]

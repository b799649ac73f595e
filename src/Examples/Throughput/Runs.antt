-- ===== src/Examples/Throughput/Runs.antt =====
-- The comparison of elgate-core/examples/numa_ring_buffer.rs and the ring buffer's benchmark of
-- elgate-core/examples/perf_benchmark.rs, from their first write to their end.
use elgate.Prelude.{
  ℕ, zero, suc, ◌*◌, ◌≤◌, ◌<◌, ◌≡◌, ◌⊎◌, refl, ap, ◌∙◌, sym, true, List, [], length,
  length-replicate, ne→==, eq→==, arith, ok, err, panic, Outcome, if◌then◌else◌, ltb, ◌==◌,
  Bool-cases, inl, inr, dec_lt, lt→ltb, le→ltb,
}
use elgate.Ring.Header.{validate}
use elgate.Ring.Slot.{UuidApi, disk_write}
use elgate.Ring.Memory.{
  RingMem, RingError, create_failed, resize_failed, map_failed, ring_full, and_then,
}
use elgate.Ring.Buffer.{RingBuffer, RingBufferOptions, World, Entry}
use elgate.Ring.Buffer.Valid.{IsValid, area}
use elgate.Ring.Buffer.Full.{read_full}
use elgate.Ring.Create.{FileIo, create, open_ring}
use elgate.Ring.Create.Fresh.{create-Created}
use elgate.Examples.Throughput.{
  send_each, read_each, fill_and_drain, benchmark_ring_buffer, bench_on, bench_from, bench_options,
  bench_data, unwrapped, kb, data_size, or_panic, consume, iterations,
}
use elgate.Examples.Throughput.Fill.{copies, send_each_fits, send_each_overflows}
use elgate.Examples.Throughput.Drain.{read_each_drains}

-- What comes of `n` writes and `n` reads on an empty ring of `slots` slots.
abbrev pub outcome_of : (n slots : ℕ) → Outcome RingError (Unit {0})
outcome_of n slots = if ltb n slots then ok tt else if n == slots then panic else err ring_full

module _ ⦃uuid : UuidApi⦄ (rb : RingBuffer) (w : World) (bytes : List ℕ) where
  read_each_full :
      (n : ℕ) (q : List Entry) (m : RingMem)
      → IsValid rb q m
      → length q ≡ m.header.slot_count
      → 0 < n
      → (read_each rb n m).0 ≡ panic
  unfolding read_each
  read_each_full zero q m v full pos = absurd (omega arith)
  read_each_full (suc n) q m v full pos = rw (read_full rb q m v full) refl

  -- On an empty ring that nobody else uses, n writes of bytes that fit and then n reads succeed
  -- where the ring has more than n slots; with just n slots the first read finds nothing, and the
  -- assertion panics; with fewer, a write fails for want of a free slot.
  pub fill_and_drain-outcome :
      (n : ℕ) (m : RingMem)
      → ((ms : ℕ) (other : RingMem) → w.others ms other ≡ other)
      → IsValid rb [] m
      → length bytes ≤ area rb
      → (fill_and_drain rb w bytes n m).0 ≡ outcome_of n m.header.slot_count
  unfolding fill_and_drain
  fill_and_drain-outcome n m alone v fit = elim (dec_lt m.header.slot_count n) [
    | yes over ↦
        ap (λ r. (and_then (r, (send_each rb w bytes n m).1) (λ _. read_each rb n)).0)
          (send_each_overflows rb w bytes n [] m alone v (omega arith) fit)
        ∙ rw (
          le→ltb n m.header.slot_count (omega arith),
          ne→== n m.header.slot_count (λ e. absurd (omega (arith, e))),
        )
    | no within ↦
        let (m', sent, valid, count) = send_each_fits rb w bytes n [] m v (omega arith) fit in
        let long = length-replicate {A = Entry} n (disk_write, bytes) in
        ap (λ r. (and_then r (λ _. read_each rb n)).0) sent ∙ elim (dec_lt n m.header.slot_count) [
          | yes room ↦
              let (m2, drained, empty) =
                read_each_drains rb (copies rb w bytes n) m' valid (omega (arith, long, count)) in
              rw (lt→ltb n m.header.slot_count room)
                (ap (λ k. (read_each rb k m').0) (sym long) ∙ ap (λ r. r.0) drained)
          | no full ↦
              rw
                (
                  le→ltb n m.header.slot_count (omega arith),
                  eq→== n m.header.slot_count (omega arith),
                )
                (read_each_full n (copies rb w bytes n) m' valid (omega (arith, long, count))
                  (omega (arith, v.producer)))
        ]
  ]

module _ ⦃uuid : UuidApi⦄ where
  -- The writes do not fit the ring.
  send_each-panics :
      (rb : RingBuffer) (w : World) (fuel : ℕ) (reader : RingBuffer) (m : RingMem)
      → (send_each rb w bench_data iterations m).0 ≡ err ring_full
      → (and_then
          (or_panic (send_each rb w bench_data iterations) m)
          (λ _. consume reader fuel iterations 0)).0
        ≡ panic
  send_each-panics rb w fuel reader m full =
      ap
        (λ r.
          (and_then (unwrapped r, (send_each rb w bench_data iterations m).1)
            (λ _. consume reader fuel iterations 0)).0)
        full

  bench_on-panics :
      (io : FileIo) (w : World) (fuel : ℕ) (rb : RingBuffer) (m : RingMem)
      → validate m.header ≡ true
      → (send_each rb w bench_data iterations m).0 ≡ err ring_full
      → (bench_on io w fuel rb m).0 ≡ panic
  unfolding bench_on open_ring
  bench_on-panics io w fuel rb m valid full = elim (Bool-cases io.opened) [
    | inr shut ↦ rw shut refl
    | inl opened ↦ elim (Bool-cases io.mapped) [
      | inr unmapped ↦ rw (opened, unmapped) refl
      | inl mapped ↦ rw (opened, mapped, valid) (send_each-panics rb w fuel _ m full)
    ]
  ]

  pub create_cases :
      (io : FileIo) (o : RingBufferOptions) (now : ℕ)
      → ((e : RingError) × (create io o now ≡ err e))
        ⊎ ((io.opened ≡ true) × (io.resized ≡ true) × (io.mapped ≡ true))
  unfolding create
  create_cases io o now = elim (Bool-cases io.opened) [
    | inr off ↦ inl (create_failed, rw off refl)
    | inl opened ↦ elim (Bool-cases io.resized) [
      | inr off ↦ inl (resize_failed, rw (opened, off) refl)
      | inl resized ↦ elim (Bool-cases io.mapped) [
        | inr off ↦ inl (map_failed, rw (opened, resized, off) refl)
        | inl mapped ↦ inr (opened, resized, mapped)
      ]
    ]
  ]

  -- Whatever the calls on the files come to, benchmark_ring_buffer panics, for any number of the
  -- consumer's rounds, where nobody else uses the ring.
  pub benchmark_ring_buffer-panics :
      (io io' : FileIo) (now fuel : ℕ) (w : World)
      → ((ms : ℕ) (other : RingMem) → w.others ms other ≡ other)
      → benchmark_ring_buffer io io' now w fuel ≡ panic
  unfolding benchmark_ring_buffer
  benchmark_ring_buffer-panics io io' now fuel w alone = elim (create_cases io bench_options now) [
    | inl (e, failed) ↦ ap (bench_from io' w fuel) failed
    | inr (opened, resized, mapped) ↦
        let (r, made, c) =
          create-Created io bench_options now opened resized mapped (omega arith) (omega arith)
            (omega arith) in
        let handed : r.0.slot_size ≡ 8 * kb = ap (λ h. h.slot_size) c.handle in
        let sized : length bench_data ≡ data_size = length-replicate {A = ℕ} data_size 0x42 in
        ap (bench_from io' w fuel) made
        ∙ (bench_on-panics io' w fuel r.0 r.1 c.accepted (
            send_each_overflows r.0 w bench_data iterations [] r.1 alone c.valid
              (omega (arith, c.count)) (omega (arith, handed, sized))))
  ]

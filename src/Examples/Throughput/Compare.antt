-- ===== src/Examples/Throughput/Compare.antt =====
-- `main` of elgate-core/examples/numa_ring_buffer.rs, up to the comparison of its two rings. What
-- follows with several producers is not reached.
use elgate.Prelude.{
  ℕ, ◌*◌, ◌<◌, ◌≡◌, ◌⊎◌, ap, ◌∙◌, inl, inr, refl, ap₂, ◌-◌, ◌/◌, List, [], replicate, Outcome, ok,
  err, ◌>>=◌, ◌>>◌, length-replicate, Bool-cases, arith, le→ltb, ne→==,
}
use elgate.Arch.CpuInfo.{CpuInfo}
use elgate.Ring.Layout.{header_size}
use elgate.Ring.Slot.{UuidApi}
use elgate.Ring.Memory.{RingMem, RingError, ring_full}
use elgate.Ring.Buffer.{RingBuffer, RingBufferOptions, World}
use elgate.Ring.Buffer.Valid.{IsValid}
use elgate.Ring.Create.{FileIo, create}
use elgate.Ring.Create.Fresh.{create-Created}
use elgate.Ring.Create.Numa.{
  create_numa_aware, create_numa_aware_fallback, create_numa_aware_present, at_node, no_node,
}
use elgate.Examples.Throughput.{fill_and_drain, iterations}
use elgate.Examples.Throughput.Runs.{fill_and_drain-outcome, create_cases}

module _ ⦃uuid : UuidApi⦄ where
  -- The bytes that numa_ring_buffer.rs writes, and its two rings' options.
  abbrev pub numa_data : List ℕ
  numa_data = replicate 1024 42

  abbrev pub regular_options : RingBufferOptions
  regular_options = record {
    path = "/tmp/elgate_example_regular_ring";
    size = 1024 * 1024;
    slot_size = 4096;
  }

  abbrev pub numa_options : RingBufferOptions
  numa_options = record {
    path = "/tmp/elgate_example_numa_ring";
    size = 1024 * 1024;
    slot_size = 4096;
  }

  -- The comparison of what the two calls that create the rings come to, in this order.
  abbrev pub compare_made :
      World
      → Outcome RingError (RingBuffer × RingMem)
      → Outcome RingError (RingBuffer × RingMem)
      → Outcome RingError (Unit {0})
  compare_made w first second = do
    regular ← first
    numa ← second
    (fill_and_drain regular.0 w numa_data iterations regular.1).0
    (fill_and_drain numa.0 w numa_data iterations numa.1).0

  -- `main` of numa_ring_buffer.rs from its first ring to the end of the first comparison, on the
  -- topology that `detect` has found.
  unfoldable pub compare_rings :
      CpuInfo → FileIo → FileIo → ℕ → World → Outcome RingError (Unit {0})
  compare_rings info io io' now w =
      compare_made w (create io regular_options now) (create_numa_aware info io' numa_options 0 now)

  -- A ring of these sizes has fewer slots than there are writes.
  fill_and_drain-full :
      (o : RingBufferOptions) (now : ℕ) (w : World) (r : RingBuffer × RingMem)
      → ((ms : ℕ) (other : RingMem) → w.others ms other ≡ other)
      → IsValid r.0 [] r.1
      → r.0.slot_size ≡ 4096
      → r.1.header.slot_count < iterations
      → (fill_and_drain r.0 w numa_data iterations r.1).0 ≡ err ring_full
  fill_and_drain-full o now w r alone v sized few =
      let long = length-replicate {A = ℕ} 1024 42 in
      fill_and_drain-outcome r.0 w numa_data iterations r.1 alone v (omega (arith, sized, long))
      ∙ rw
          (
            le→ltb iterations r.1.header.slot_count (omega (arith, few)),
            ne→== iterations r.1.header.slot_count (λ e. absurd (omega (arith, few, e))),
          )
          refl

  -- `create` with these sizes fails, or makes a ring that the writes do not fit.
  create-full :
      (io : FileIo) (o : RingBufferOptions) (now : ℕ) (w : World)
      → o.size ≡ 1024 * 1024
      → o.slot_size ≡ 4096
      → ((ms : ℕ) (other : RingMem) → w.others ms other ≡ other)
      → ((e : RingError) × (create io o now ≡ err e))
        ⊎ ((r : RingBuffer × RingMem) × (create io o now ≡ ok r)
            × ((fill_and_drain r.0 w numa_data iterations r.1).0 ≡ err ring_full))
  create-full io o now w size slot_size alone = elim (create_cases io o now) [
    | inl failed ↦ inl failed
    | inr (opened, resized, mapped) ↦
        let (r, made, c) =
          create-Created io o now opened resized mapped (omega (arith, slot_size))
            (omega (arith, size, slot_size)) (omega (arith, size)) in
        let handed : r.0.slot_size ≡ 4096 = ap (λ h. h.slot_size) c.handle ∙ slot_size in
        let count : r.1.header.slot_count ≡ (1024 * 1024 - header_size) / 4096 =
          c.count ∙ ap₂ (λ a b. (a - header_size) / b) size slot_size in
        let few : r.1.header.slot_count < iterations = omega (arith, count) in
        inr (r, made, fill_and_drain-full o now w r alone c.valid handed few)
  ]

  at_node_cases :
      (node : ℕ) (c : Outcome RingError (RingBuffer × RingMem))
      → ((e : RingError) × (c ≡ err e)) ⊎ ((r : RingBuffer × RingMem) × (c ≡ ok r))
      → ((e : RingError) × (at_node node c ≡ err e))
        ⊎ ((r : RingBuffer × RingMem) × (at_node node c ≡ ok r))
  at_node_cases node c (inl (e, failed)) = inl (e, ap (at_node node) failed)
  at_node_cases node c (inr (r, made)) = inr (_, ap (at_node node) made)

  -- The second ring is made, or its creation fails.
  numa_cases :
      (info : CpuInfo) (io : FileIo) (now : ℕ) (w : World)
      → ((ms : ℕ) (other : RingMem) → w.others ms other ≡ other)
      → ((e : RingError) × (create_numa_aware info io numa_options 0 now ≡ err e))
        ⊎ ((r : RingBuffer × RingMem) × (create_numa_aware info io numa_options 0 now ≡ ok r))
  numa_cases info io now w alone =
      let answered : ((e : RingError) × (create io numa_options now ≡ err e))
          ⊎ ((r : RingBuffer × RingMem) × (create io numa_options now ≡ ok r)) =
        elim (create-full io numa_options now w refl refl alone) [
          | inl failed ↦ inl failed
          | inr (r, made, _) ↦ inr (r, made)
        ] in
      elim (Bool-cases (no_node info 0)) [
        | inl absent ↦ rw (create_numa_aware_fallback info io numa_options 0 now absent) answered
        | inr present ↦
            rw (create_numa_aware_present info io numa_options 0 now present (omega arith))
              (at_node_cases 0 (create io numa_options now) answered)
      ]

  -- Whatever the topology and the calls on the files come to, main of numa_ring_buffer.rs ends
  -- with an error before its first comparison is done, where nobody else uses the rings.
  pub compare_rings-fails :
      (info : CpuInfo) (io io' : FileIo) (now : ℕ) (w : World)
      → ((ms : ℕ) (other : RingMem) → w.others ms other ≡ other)
      → (e : RingError) × (compare_rings info io io' now w ≡ err e)
  unfolding compare_rings
  compare_rings-fails info io io' now w alone =
      let second = create_numa_aware info io' numa_options 0 now in
      elim (create-full io regular_options now w refl refl alone) [
        | inl (e, failed) ↦ (e, ap (λ c. compare_made w c second) failed)
        | inr (r, made, full) ↦ elim (numa_cases info io' now w alone) [
          | inl (e, failed) ↦ (e, ap₂ (compare_made w) made failed)
          | inr (r', made') ↦ (
            ring_full,
            ap₂ (compare_made w) made made'
                ∙ ap (λ c. c >> (fill_and_drain r'.0 w numa_data iterations r'.1).0) full,
          )
        ]
      ]

-- ===== src/Ring/Create/Fresh.antt =====
-- What `create` leaves behind, and who may open it.
use elgate.Prelude.{
  ℕ, zero, suc, ◌+◌, ◌-◌, ◌/◌, ◌^◌, ◌≤◌, ◌<◌, ◌≡◌, refl, sym, ap, ◌∙◌, subst, true, List, [], some,
  arith, length, get_elem?, set, replicate, Outcome, ok, ℕ_discrete, length-set, get_elem?-some,
  length-replicate, get_elem?-set_self, get_elem?-set_ne, lt→ltb, le→ltb, ne→==,
}
use elgate.Ring.Layout.{IsRoomy, header_size, header_padding_size}
use elgate.Ring.Header
use elgate.Ring.Header.{RingHeader}
use elgate.Ring.Slot.{UuidApi, SlotMem, reset}
use elgate.Ring.Memory.{RingMem, RingError, and_then_ok}
use elgate.Ring.Buffer.{RingBuffer, RingBufferOptions}
use elgate.Ring.Buffer.Valid.{IsValid, IsFree}
use elgate.Ring.Buffer.Write.{slot_of, get_slot_lem}
use elgate.Ring.Chain.{Chain-all}
use elgate.Ring.Create.{FileIo, zero_slot, map_zeros, init_slots, create_mapped, create}

-- Every slot below `k` is free.
abbrev FreeBelow : ℕ → List SlotMem → Type 0
FreeBelow k slots = (i : ℕ) → i < k → (s : SlotMem) × (get_elem? slots i ≡ some s) × IsFree tt s

module _ ⦃uuid : UuidApi⦄ where
  -- The loop over the slots has run to its end.
  record Initialised (n : ℕ) (m : RingMem) (r : Outcome RingError (Unit {0}) × RingMem)
      : Type 0 where
    done : r.0 ≡ ok tt
    header : r.1.header ≡ m.header
    mapped : length r.1.slots ≡ n
    free : FreeBelow n r.1.slots

  reset-IsFree : (rb : RingBuffer) (s : SlotMem) → IsFree tt (reset (slot_of rb s)).mem
  unfolding reset
  reset-IsFree rb s = record { free = refl }

  -- One round frees one more slot.
  FreeBelow-set :
      (rb : RingBuffer) (i : ℕ) (slots : List SlotMem) (s : SlotMem)
      → i < length slots
      → FreeBelow i slots
      → FreeBelow (suc i) (set slots i (reset (slot_of rb s)).mem)
  FreeBelow-set rb i slots s lt free j jlt = elim (ℕ_discrete i j) [
    | yes same ↦ (
      (reset (slot_of rb s)).mem,
      ap (get_elem? (set slots i (reset (slot_of rb s)).mem)) (sym same)
          ∙ get_elem?-set_self slots i _ lt,
      reset-IsFree rb s,
    )
    | no other ↦
        let (t, here, f) = free j (omega arith) in (t, get_elem?-set_ne slots i j _ other ∙ here, f)
  ]

  init_slots_lem :
      (rb : RingBuffer) (rounds i n : ℕ) (m : RingMem)
      → IsRoomy rb.slot_size
      → m.header.slot_count ≡ n
      → length m.slots ≡ n
      → i + rounds ≡ n
      → FreeBelow i m.slots
      → Initialised n m (init_slots rb.slot_size rounds i m)
  unfolding init_slots
  init_slots_lem rb zero i n m roomy count mapped e free = record {
    done = refl;
    header = refl;
    mapped = mapped;
    free = λ j lt. free j (omega arith);
  }
  init_slots_lem rb (suc rounds) i n m roomy count mapped e free =
      let (s, here) = get_elem?-some m.slots i (omega arith) in
      let m' : RingMem = record m { slots = set m.slots i (reset (slot_of rb s)).mem } in
      let rest : Initialised n m' (init_slots rb.slot_size rounds (i + 1) m') =
        init_slots_lem rb rounds (i + 1) n m' roomy count (length-set m.slots i _ ∙ mapped)
          (omega arith)
          (subst (λ k. FreeBelow k m'.slots) {x = suc i} (omega arith)
            (FreeBelow-set rb i m.slots s (omega arith) free)) in
      rw (get_slot_lem rb i m s roomy (omega arith) here)
        (record { done = rest.done; header = rest.header; mapped = rest.mapped; free = rest.free })

  -- What `create` has made: a handle with the sizes that were asked for, which counts as the one
  -- producer, and a mapping that holds no entry.
  pub record Created (o : RingBufferOptions) (now : ℕ) (r : RingBuffer × RingMem) : Type 0 where
    pub handle :
        r.0 ≡ record { path = o.path; size = o.size; slot_size = o.slot_size; is_producer = true }
    pub valid : IsValid r.0 [] r.1
    pub count : r.1.header.slot_count ≡ (o.size - header_size) / o.slot_size
    pub producers : r.1.header.active_producers ≡ 1
    pub completed : r.1.header.operations_completed ≡ 0
    pub stamp : r.1.header.created_at ≡ now
    pub sized : r.1.header.size ≡ o.size
    pub slot_sized : r.1.header.slot_size ≡ o.slot_size
    pub accepted : Header.validate r.1.header ≡ true

  abbrev made : RingBufferOptions → RingBuffer
  made o = record { path = o.path; size = o.size; slot_size = o.slot_size; is_producer = true }

  -- The header that `new` makes.
  abbrev first_header : RingBufferOptions → ℕ → RingHeader
  first_header o now = record {
    magic = Header.magic_value;
    version = Header.version_value;
    size = o.size;
    slot_size = o.slot_size;
    slot_count = (o.size - header_size) / o.slot_size;
    producer_idx = 0;
    consumer_idx = 0;
    active_producers = 0;
    operations_completed = 0;
    created_at = now;
    numa_node = 0;
    padding = replicate header_padding_size 0;
  }

  new_lem :
      {E : Type 0} (o : RingBufferOptions) (now : ℕ)
      → header_size ≤ o.size
      → 0 < o.slot_size
      → Header.new {E = E} o.size o.slot_size now ≡ ok (first_header o now)
  unfolding Header.new
  new_lem o now big pos = rw (le→ltb o.size header_size big, ne→== o.slot_size 0 (omega arith))

  -- The mapping before its slots are initialised.
  abbrev zeroed : RingBufferOptions → ℕ → RingMem
  zeroed o now = record {
    header = record (first_header o now) { active_producers = 1 };
    slots = replicate ((o.size - header_size) / o.slot_size) (zero_slot o.slot_size);
  }

  slots_pos : (size slot_size : ℕ) → 0 < slot_size → slot_size ≤ size → 0 < size / slot_size
  slots_pos size slot_size p h = grind arith

  slots_le : (size slot_size : ℕ) → 0 < slot_size → size / slot_size ≤ size
  slots_le size slot_size p = grind arith

  initialised :
      (o : RingBufferOptions) (now : ℕ)
      → IsRoomy o.slot_size
      → Initialised
          ((o.size - header_size) / o.slot_size)
          (zeroed o now)
          (init_slots o.slot_size ((o.size - header_size) / o.slot_size) 0 (zeroed o now))
  initialised o now roomy =
      init_slots_lem (made o) ((o.size - header_size) / o.slot_size) 0
        ((o.size - header_size) / o.slot_size) (zeroed o now) roomy refl
        (length-replicate ((o.size - header_size) / o.slot_size) (zero_slot o.slot_size))
        (omega arith) (λ i lt. absurd (omega arith))

  -- Free slots behind the first header make an empty ring.
  slots-Created :
      (o : RingBufferOptions) (now : ℕ) (slots : List SlotMem)
      → IsRoomy o.slot_size
      → header_size + o.slot_size ≤ o.size
      → o.size < 2 ^ 64
      → length slots ≡ (o.size - header_size) / o.slot_size
      → FreeBelow ((o.size - header_size) / o.slot_size) slots
      → Created o now (made o, record { header = (zeroed o now).header; slots = slots })
  unfolding Header.validate
  slots-Created o now slots roomy fits small mapped free = record {
    handle = refl;
    valid = record {
      roomy = roomy;
      small = omega (arith, at_most, small);
      mapped = mapped;
      producer = positive;
      consumer = positive;
      ahead = ground arith;
      short = omega arith;
      pending = tt;
      free =
          Chain-all IsFree ((o.size - header_size) / o.slot_size) slots 0 _ positive positive
            (λ u j lt. let (s, here, f) = free j lt in (s, here, record { free = f.free }));
    };
    count = refl;
    producers = refl;
    completed = refl;
    stamp = refl;
    sized = refl;
    slot_sized = refl;
    accepted = rw (
      lt→ltb header_size o.size (omega arith),
      lt→ltb 0 o.slot_size (omega (arith, roomy.holds)),
      lt→ltb 0 ((o.size - header_size) / o.slot_size) positive,
    );
  }
    where
      positive : 0 < (o.size - header_size) / o.slot_size
      positive =
          slots_pos (o.size - header_size) o.slot_size (omega (arith, roomy.holds)) (omega arith)

      at_most : (o.size - header_size) / o.slot_size ≤ o.size - header_size
      at_most = slots_le (o.size - header_size) o.slot_size (omega (arith, roomy.holds))

  create_mapped_lem :
      (o : RingBufferOptions) (now : ℕ)
      → IsRoomy o.slot_size
      → header_size + o.slot_size ≤ o.size
      → o.size < 2 ^ 64
      → (m : RingMem) × (create_mapped o (map_zeros o (first_header o now)) ≡ (ok (made o), m))
        × Created o now (made o, m)
  unfolding create_mapped Header.register_producer
  create_mapped_lem o now roomy fits small = (
    record { header = (zeroed o now).header; slots = looped.1.slots },
    and_then_ok looped.0 looped.1 (λ _ m. (ok (made o), m)) d.done
        ∙ ap (λ h. (ok (made o), record { header = h; slots = looped.1.slots })) d.header,
    slots-Created o now looped.1.slots roomy fits small d.mapped d.free,
  )
    where
      looped : Outcome RingError (Unit {0}) × RingMem
      looped = init_slots o.slot_size ((o.size - header_size) / o.slot_size) 0 (zeroed o now)

      d : Initialised ((o.size - header_size) / o.slot_size) (zeroed o now) looped
      d = initialised o now roomy

  -- With a file that opens, resizes and maps, a slot size that is a multiple of 64 and not below the
  -- metadata's, and room for one slot at least, `create` makes an empty ring of as many slots as fit.
  pub create-Created :
      (io : FileIo) (o : RingBufferOptions) (now : ℕ)
      → io.opened ≡ true
      → io.resized ≡ true
      → io.mapped ≡ true
      → IsRoomy o.slot_size
      → header_size + o.slot_size ≤ o.size
      → o.size < 2 ^ 64
      → (r : RingBuffer × RingMem) × (create io o now ≡ ok r) × Created o now r
  unfolding create
  create-Created io o now opened resized mapped roomy fits small =
      let (m, made_it, c) = create_mapped_lem o now roomy fits small in
      (
        (made o, m),
        rw (
          opened,
          resized,
          mapped,
          new_lem {E = RingError} o now (omega (arith, roomy.holds)) (omega (arith, roomy.holds)),
          made_it,
        ),
        c,
      )

-- ===== src/Ring/Pending/Search.antt =====
-- The search of a `write` for its slot, and the entries that wait.
use elgate.Prelude.{
  ℕ, zero, suc, ◌*◌, ◌<◌, ◌≡◌, ◌⊎◌, refl, sym, ap, ◌∙◌, Bool, [], some, none, arith, get_elem?, set,
  inl, inr, Bool-cases, min, ok, err, Outcome, get_elem?-some, get_elem?-set_self,
}
use elgate.Ring.Slot.{UuidApi, SlotMem, reset, status}
use elgate.Ring.Memory.{RingMem, RingError, ring_full}
use elgate.Ring.Buffer.{RingBuffer, World, Entry, is_available, take_slot, try_slot, wait_loop}
use elgate.Ring.Buffer.Valid.{area}
use elgate.Ring.Buffer.Write.{slot_of, advanced, try_slot-eq-take_slot}
use elgate.Ring.Buffer.Full.{IsAlone}
use elgate.Ring.Pending.{
  IsMapped, held, pending, count, pending-set, held_free, set-IsMapped, advanced-IsMapped,
}

module _ ⦃uuid : UuidApi⦄ (p : Entry → Bool) (rb : RingBuffer) where
  -- The mapping `m'` has the entries of `m`.
  pub record Keeps (m m' : RingMem) : Type 0 where
    pub mapping : IsMapped rb m'
    pub slots_stay : m'.header.slot_count ≡ m.header.slot_count
    pub entries_stay : count p (pending (area rb) m'.slots) ≡ count p (pending (area rb) m.slots)

  pub Keeps-trans : (m m' m'' : RingMem) → Keeps m m' → Keeps m' m'' → Keeps m m''
  Keeps-trans m m' m'' h k = record {
    mapping = k.mapping;
    slots_stay = k.slots_stay ∙ h.slots_stay;
    entries_stay = k.entries_stay ∙ h.entries_stay;
  }

  -- A slot taken for a `write`: it holds no entry.
  pub record Takes (i : ℕ) (m m' : RingMem) : Type 0 where
    pub keeps : Keeps m m'
    pub inside : i < m'.header.slot_count
    pub slot : SlotMem
    pub here : get_elem? m'.slots i ≡ some slot
    pub bare : held (area rb) slot ≡ []

  -- A search for a slot that has found one, or has ended with `failed`, and lost no entry.
  unfoldable pub Searched :
      {A : Type 0}
      → (ℕ → A)
      → Outcome RingError A
      → RingMem
      → Outcome RingError A × RingMem
      → Type 0
  Searched found failed m d =
      ((i : ℕ) × (m' : RingMem) × (d ≡ (ok (found i), m')) × Takes i m m')
      ⊎ ((m' : RingMem) × (d ≡ (failed, m')) × Keeps m m')

  try_slot-Searched :
      (n : ℕ) (m : RingMem)
      → IsMapped rb m
      → n ≡ m.header.slot_count
      → Searched some (ok none) m (try_slot rb n m)
  unfolding Searched take_slot status reset
  try_slot-Searched n m h e =
      let (s, here) =
        get_elem?-some m.slots m.header.producer_idx (omega (arith, h.mapped, h.producer)) in
      let tried =
        ap (λ k. try_slot rb k m) e
        ∙ try_slot-eq-take_slot rb m s h.roomy h.small h.producer h.consumer here in
      elim (Bool-cases (is_available (status (slot_of rb s)))) [
        | inl free ↦
            let v = (reset (slot_of rb s)).mem in
            inl (
              m.header.producer_idx,
              record (advanced m) { slots = set m.slots m.header.producer_idx v },
              tried ∙ rw free refl,
              record {
                keeps = record {
                  mapping =
                      set-IsMapped rb (advanced m) m.header.producer_idx v
                        (advanced-IsMapped rb m h);
                  slots_stay = refl;
                  entries_stay = omega (
                    arith,
                    pending-set p (area rb) m.slots m.header.producer_idx s v here,
                    ap (count p) (held_free (area rb) s free),
                  );
                };
                inside = h.producer;
                slot = v;
                here =
                    get_elem?-set_self m.slots m.header.producer_idx v
                      (omega (arith, h.mapped, h.producer));
                bare = refl;
              },
            )
        | inr taken ↦ inr (
          advanced m,
          tried ∙ rw taken refl,
          record { mapping = advanced-IsMapped rb m h; slots_stay = refl; entries_stay = refl },
        )
      ]

  pub wait_loop-Searched :
      (w : World) (left backoff_ms n : ℕ) (m : RingMem)
      → IsAlone w
      → IsMapped rb m
      → n ≡ m.header.slot_count
      → Searched (λ i. i) (err ring_full) m (wait_loop rb w n left backoff_ms m)
  unfolding wait_loop Searched
  wait_loop-Searched w zero backoff_ms n m alone h e = elim (try_slot-Searched n m h e) [
    | inl (i, m', tried, takes) ↦ inl (i, m', rw tried refl, takes)
    | inr (m', tried, keeps) ↦ inr (m', rw tried refl, keeps)
  ]
  wait_loop-Searched w (suc left) backoff_ms n m alone h e = elim (try_slot-Searched n m h e) [
    | inl (i, m', tried, takes) ↦ inl (i, m', rw tried refl, takes)
    | inr (m', tried, keeps) ↦
        elim (wait_loop-Searched w left (min (backoff_ms * 2) 100) n m' alone keeps.mapping
          (e ∙ sym keeps.slots_stay)) [
            | inl (i, m'', waited, takes) ↦ inl (
              i,
              m'',
              rw (tried, alone backoff_ms m') waited,
              record {
                keeps = Keeps-trans m m' m'' keeps takes.keeps;
                inside = takes.inside;
                slot = takes.slot;
                here = takes.here;
                bare = takes.bare;
              },
            )
            | inr (m'', waited, keeps') ↦
                inr (m'', rw (tried, alone backoff_ms m') waited, Keeps-trans m m' m'' keeps keeps')
          ]
  ]

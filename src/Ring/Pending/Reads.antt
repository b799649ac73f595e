-- ===== src/Ring/Pending/Reads.antt =====
-- What a `read` does to the entries that wait, wherever the indices stand.
use elgate.Prelude.{
  ℕ, zero, suc, take, ◌+◌, ◌%◌, ◌≡◌, ◌≢◌, refl, ap, ◌∙◌, Bool, true, false, List, [], ◌∷◌, Option,
  some, none, arith, ltb, set, inl, inr, Bool-cases, ok, Outcome, ne→==, eq→==, ℕ_discrete,
  get_elem?-some, mod_lt, ltb→le,
}
use elgate.Ring.Header
use elgate.Ring.Header.Claim.{next_consumer_idx_lem}
use elgate.Ring.Slot.{
  UuidApi, Slot, SlotMem, SlotStatus, reset, status, operation, read_data, decode_status,
  decode_operation,
}
use elgate.Ring.Slot.Transfer.{consumed, read_data_ready}
use elgate.Ring.Buffer.Read.{status_ready}
use elgate.Ring.Memory.{RingMem, RingError}
use elgate.Ring.Buffer.{RingBuffer, Entry, read, read_slot, give_up}
use elgate.Ring.Buffer.Valid.{area}
use elgate.Ring.Buffer.Write.{slot_of, get_slot_lem}
use elgate.Ring.Pending.{IsMapped, held, held_other, pending, count, pending-set, set-IsMapped}

-- What a `read` returns, as entries.
abbrev pub received : Option Entry → List Entry
received none = []
received (some e) = e ∷ []

-- The mapping after `next_consumer_idx`.
abbrev passed : RingMem → RingMem
passed m = record m {
  header = record (m.header) { consumer_idx = (m.header.consumer_idx + 1) % m.header.slot_count };
}

passed-IsMapped : (rb : RingBuffer) (m : RingMem) → IsMapped rb m → IsMapped rb (passed m)
passed-IsMapped rb m h = record {
  roomy = h.roomy;
  small = h.small;
  mapped = h.mapped;
  producer = h.producer;
  consumer = mod_lt m.header.slot_count (m.header.consumer_idx + 1) (omega (arith, h.consumer));
}

increment_completed-IsMapped :
    (rb : RingBuffer) (m : RingMem)
    → IsMapped rb m
    → IsMapped rb (record m { header = Header.increment_completed m.header })
unfolding Header.increment_completed
increment_completed-IsMapped rb m h = record {
  roomy = h.roomy;
  small = h.small;
  mapped = h.mapped;
  producer = h.producer;
  consumer = h.consumer;
}

pub set-set : {A : Type 0} (xs : List A) (i : ℕ) (a b : A) → set (set xs i a) i b ≡ set xs i b
set-set [] i a b = refl
set-set (x ∷ xs) zero a b = refl
set-set (x ∷ xs) (suc i) a b = ap (◌∷◌ x) (set-set xs i a b)

read_data_big :
    (s : Slot)
    → s.mem.metadata.status_word ≡ 2
    → ltb s.data_size s.mem.metadata.size_word ≡ true
    → read_data s ≡ (none, consumed s)
unfolding read_data
read_data_big s ready big = ground arith

status_word_ready : (w : ℕ) → decode_status w ≡ SlotStatus.ready → w ≡ 2
status_word_ready w e = ground arith

module _ ⦃uuid : UuidApi⦄ (p : Entry → Bool) (rb : RingBuffer) where
  -- The call returns, and the entry it has found, if any, no longer waits.
  pub record Removes (m : RingMem) (d : Outcome RingError (Option Entry) × RingMem) : Type 0 where
    pub entry : Option Entry
    pub returned : d.0 ≡ ok entry
    pub mapping : IsMapped rb d.1
    pub slots_stay : d.1.header.slot_count ≡ m.header.slot_count
    pub entries :
        count p (pending (area rb) d.1.slots) + count p (received entry)
        ≡ count p (pending (area rb) m.slots)

  -- `read` from a slot on either returns the slot's entry, or finds that it holds none.
  data ReadsSlot (i : ℕ) (s : SlotMem) (m : RingMem)
      (d : Outcome RingError (Option Entry) × RingMem) : Type 0 where
    gives :
        (e : Entry)
        → held (area rb) s ≡ e ∷ []
        → d ≡ (
          ok (some e),
          record {
            header = Header.increment_completed m.header;
            slots = set m.slots i (consumed (slot_of rb s)).mem;
          },
        )
        → ReadsSlot i s m d
    clears :
        (v : SlotMem)
        → held (area rb) s ≡ []
        → held (area rb) v ≡ []
        → d ≡ (ok none, record m { slots = set m.slots i v })
        → ReadsSlot i s m d

  read_slot_other :
      (st : SlotStatus) (i : ℕ) (s : Slot) (m : RingMem)
      → status s ≡ st
      → st ≢ SlotStatus.ready
      → read_slot i s m ≡ give_up i s m
  unfolding read_slot
  read_slot_other SlotStatus.empty i s m e h = rw (e, read_slot) refl
  read_slot_other SlotStatus.writing i s m e h = rw (e, read_slot) refl
  read_slot_other SlotStatus.ready i s m e h = absurd (h refl)
  read_slot_other SlotStatus.reading i s m e h = rw (e, read_slot) refl
  read_slot_other SlotStatus.complete i s m e h = rw (e, read_slot) refl

  read_slot_big :
      (i : ℕ) (s : SlotMem) (m : RingMem)
      → s.metadata.status_word ≡ 2
      → ltb (area rb) s.metadata.size_word ≡ true
      → read_slot i (slot_of rb s) m
        ≡ give_up i
            (consumed (slot_of rb s))
            (record m { slots = set m.slots i (consumed (slot_of rb s)).mem })
  unfolding read_slot
  read_slot_big i s m ready big = rw (
    status_ready (slot_of rb s) ready,
    read_slot,
    read_data_big (slot_of rb s) ready big,
    read_data_big (slot_of rb s) ready big,
  )

  read_slot_fits :
      (i : ℕ) (s : SlotMem) (m : RingMem)
      → s.metadata.status_word ≡ 2
      → ltb (area rb) s.metadata.size_word ≡ false
      → read_slot i (slot_of rb s) m ≡ (
        ok (some (decode_operation s.metadata.operation_word, take s.metadata.size_word s.payload)),
        record {
          header = Header.increment_completed m.header;
          slots = set m.slots i (consumed (slot_of rb s)).mem;
        },
      )
  unfolding read_slot operation
  read_slot_fits i s m ready fits =
      rw
        (
          status_ready (slot_of rb s) ready,
          read_slot,
          read_data_ready (slot_of rb s) ready (ltb→le _ _ fits),
        )
        refl

  read_slot-ReadsSlot :
      (i : ℕ) (s : SlotMem) (m : RingMem) → ReadsSlot i s m (read_slot i (slot_of rb s) m)
  unfolding status give_up reset
  read_slot-ReadsSlot i s m = elim (ℕ_discrete s.metadata.status_word 2) [
    | no other ↦
        let unready : decode_status s.metadata.status_word ≢ SlotStatus.ready =
          λ e. other (status_word_ready s.metadata.status_word e) in
        clears (reset (slot_of rb s)).mem (held_other (area rb) s unready) refl
          (read_slot_other (status (slot_of rb s)) i (slot_of rb s) m refl unready)
    | yes ready ↦ elim (Bool-cases (ltb (area rb) s.metadata.size_word)) [
      | inl big ↦ clears (reset (consumed (slot_of rb s))).mem (rw (ready, big)) refl (
          read_slot_big i s m ready big
          ∙ ap (λ slots. (ok none, record m { slots = slots }))
              (set-set m.slots i (consumed (slot_of rb s)).mem
                (reset (consumed (slot_of rb s))).mem))
      | inr fits ↦
          gives (decode_operation s.metadata.operation_word, take s.metadata.size_word s.payload)
            (rw (ready, fits)) (read_slot_fits i s m ready fits)
    ]
  ]

  -- A `read` removes the entry that it returns, and nothing else, wherever the indices stand.
  pub read-Removes : (m : RingMem) → IsMapped rb m → Removes m (read rb m)
  unfolding read Header.increment_completed
  read-Removes m h = elim (ℕ_discrete m.header.producer_idx m.header.consumer_idx) [
    | yes same ↦ rw (eq→== m.header.producer_idx m.header.consumer_idx same) (record {
      entry = none;
      returned = refl;
      mapping = h;
      slots_stay = refl;
      entries = omega arith;
    })
    | no apart ↦
        let (s, here) =
          get_elem?-some m.slots m.header.consumer_idx (omega (arith, h.mapped, h.consumer)) in
        rw
          (
            ne→== m.header.producer_idx m.header.consumer_idx apart,
            next_consumer_idx_lem {E = RingError} m.header h.consumer h.small,
            get_slot_lem rb m.header.consumer_idx (passed m) s h.roomy h.consumer here,
          )
          (elim (read_slot-ReadsSlot m.header.consumer_idx s (passed m)) [
            | gives e holds done ↦ rw done (record {
              entry = some e;
              returned = refl;
              mapping = increment_completed-IsMapped rb _ (
                  set-IsMapped rb (passed m) m.header.consumer_idx (consumed (slot_of rb s)).mem
                    (passed-IsMapped rb m h));
              slots_stay = refl;
              entries = omega (
                arith,
                pending-set p (area rb) m.slots m.header.consumer_idx s
                    (consumed (slot_of rb s)).mem here,
                ap (count p) holds,
              );
            })
            | clears v bare empty done ↦ rw done (record {
              entry = none;
              returned = refl;
              mapping = set-IsMapped rb (passed m) m.header.consumer_idx v (passed-IsMapped rb m h);
              slots_stay = refl;
              entries = omega (
                arith,
                pending-set p (area rb) m.slots m.header.consumer_idx s v here,
                ap (count p) bare,
                ap (count p) empty,
              );
            })
          ])
  ]

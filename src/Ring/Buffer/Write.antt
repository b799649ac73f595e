-- ===== src/Ring/Buffer/Write.antt =====
-- `write` into a ring with a free slot.
use elgate.Prelude.{
  ℕ, ◌+◌, ◌-◌, ◌%◌, ◌^◌, ◌≤◌, ◌<◌, ◌≡◌, refl, ◌∙◌, List, [], ◌∷◌, ◌++◌, some, arith, length, drop,
  get_elem?, set, ok, err, get_elem?-set_self, lt→ltb, le→ltb, eq→==, Bool-cases, inl, inr, leb,
  take-length-append,
}
use elgate.Ring.Layout.{IsRoomy, metadata_size, slot_offset, slot_offset_aligned}
use elgate.Ring.Header.{RingHeader}
use elgate.Ring.Header.Claim.{next_producer_idx_lem}
use elgate.Ring.Slot.{
  UuidApi, Slot, SlotMem, OperationKind, reset, status, set_id, set_operation, from_ptr,
}
use elgate.Ring.Slot.Transfer.{filled, write_data-eq-filled}
use elgate.Ring.Memory.{RingMem, RingError, payload_too_large, get_slot}
use elgate.Ring.Buffer.{
  RingBuffer, World, Entry, available_slots, take_slot, try_slot, wait_loop, wait_for_slot, write,
  max_payload_size,
}
use elgate.Ring.Buffer.Valid.{IsValid, Holds, IsFree, push-IsRing, head_slot, area}

-- The slot that the memory of one is.
abbrev pub slot_of : RingBuffer → SlotMem → Slot
slot_of rb s = record { mem = s; data_size = area rb }

pub get_slot_lem :
    (rb : RingBuffer) (i : ℕ) (m : RingMem) (s : SlotMem)
    → IsRoomy rb.slot_size
    → i < m.header.slot_count
    → get_elem? m.slots i ≡ some s
    → get_slot rb.slot_size i m ≡ (ok (slot_of rb s), m)
unfolding get_slot from_ptr
get_slot_lem rb i m s h lt e = rw (
  lt→ltb i m.header.slot_count lt,
  eq→== (slot_offset rb.slot_size i % 64) 0 (slot_offset_aligned rb.slot_size i h.aligned),
  e,
  le→ltb rb.slot_size metadata_size h.holds,
)

-- The mapping after `wait_for_slot` has claimed its slot and cleared it.
abbrev pub claimed : ⦃uuid : UuidApi⦄ → RingBuffer → RingMem → SlotMem → RingMem
claimed rb m s = record {
  header = record (m.header) { producer_idx = (m.header.producer_idx + 1) % m.header.slot_count };
  slots = set m.slots m.header.producer_idx (reset (slot_of rb s)).mem;
}

-- As long as the two indices are indices, the count of free slots is positive, also in a ring whose
-- slots are all taken.
pub available_slots_pos :
    (h : RingHeader)
    → h.producer_idx < h.slot_count
    → h.consumer_idx < h.slot_count
    → (n : ℕ) × (available_slots h.slot_count h ≡ ok n) × (0 < n) × (n ≤ h.slot_count)
unfolding available_slots
available_slots_pos h p c = elim (Bool-cases (leb h.consumer_idx h.producer_idx)) [
  | inl le ↦ (
    h.slot_count - (h.producer_idx - h.consumer_idx),
    rw (le, le→ltb h.slot_count (h.producer_idx - h.consumer_idx) (omega arith)),
    omega arith,
    omega arith,
  )
  | inr gt ↦ (h.consumer_idx - h.producer_idx, rw gt, ground arith, omega arith)
]

-- `try_slot` once the counter has been moved on and the slot found.
abbrev pub advanced : RingMem → RingMem
advanced m = record m {
  header = record (m.header) { producer_idx = (m.header.producer_idx + 1) % m.header.slot_count };
}

module _ ⦃uuid : UuidApi⦄ where
  pub try_slot-eq-take_slot :
      (rb : RingBuffer) (m : RingMem) (s : SlotMem)
      → IsRoomy rb.slot_size
      → m.header.slot_count < 2 ^ 64
      → m.header.producer_idx < m.header.slot_count
      → m.header.consumer_idx < m.header.slot_count
      → get_elem? m.slots m.header.producer_idx ≡ some s
      → try_slot rb m.header.slot_count m
        ≡ take_slot rb m.header.producer_idx (slot_of rb s) (advanced m)
  unfolding try_slot
  try_slot-eq-take_slot rb m s roomy small p c e =
      let (n, counted, pos, _) = available_slots_pos m.header p c in
      rw (
        counted,
        lt→ltb 0 n pos,
        next_producer_idx_lem {E = RingError} m.header p small,
        get_slot_lem rb m.header.producer_idx (advanced m) s roomy p e,
      )

  pub try_slot_free :
      (rb : RingBuffer) (q : List Entry) (m : RingMem) (v : IsValid rb q m)
      → length q < m.header.slot_count
      → (s : SlotMem) → get_elem? m.slots m.header.producer_idx ≡ some s
      → IsFree tt s
      → try_slot rb m.header.slot_count m ≡ (ok (some m.header.producer_idx), claimed rb m s)
  unfolding take_slot status
  try_slot_free rb q m v h s here f =
      try_slot-eq-take_slot rb m s v.roomy v.small v.producer v.consumer here ∙ rw (f.free) refl

  pub wait_for_slot_free :
      (rb : RingBuffer) (w : World) (q : List Entry) (m : RingMem) (v : IsValid rb q m)
      → length q < m.header.slot_count
      → (s : SlotMem) → get_elem? m.slots m.header.producer_idx ≡ some s
      → IsFree tt s
      → wait_for_slot rb w m ≡ (ok m.header.producer_idx, claimed rb m s)
  unfolding wait_for_slot wait_loop
  wait_for_slot_free rb w q m v h s here f = rw (try_slot_free rb q m v h s here f)

  -- What `write` leaves at the slot, and in the mapping.
  abbrev pub entered : RingBuffer → World → OperationKind → List ℕ → SlotMem → Slot
  entered rb w kind bytes s =
      filled bytes w.now
        (set_id w.fresh_id (set_operation kind (slot_of rb (reset (slot_of rb s)).mem)))

  abbrev pub written : RingBuffer → World → OperationKind → List ℕ → RingMem → SlotMem → RingMem
  written rb w kind bytes m s = record (claimed rb m s) {
    slots = set (claimed rb m s).slots m.header.producer_idx (entered rb w kind bytes s).mem;
  }

  pub write-eq-written :
      (rb : RingBuffer) (w : World) (kind : OperationKind) (bytes : List ℕ) (q : List Entry)
      (m : RingMem)
      → IsValid rb q m
      → length q < m.header.slot_count
      → length bytes ≤ area rb
      → (s : SlotMem) → get_elem? m.slots m.header.producer_idx ≡ some s
      → IsFree tt s
      → write rb w kind bytes m ≡ (ok m.header.producer_idx, written rb w kind bytes m s)
  unfolding write max_payload_size set_id set_operation
  write-eq-written rb w kind bytes q m v h fit s here f = rw (
    le→ltb rb.slot_size metadata_size v.roomy.holds,
    le→ltb (area rb) (length bytes) fit,
    wait_for_slot_free rb w q m v h s here f,
    get_slot_lem rb m.header.producer_idx (claimed rb m s) (reset (slot_of rb s)).mem v.roomy
        v.producer (get_elem?-set_self m.slots m.header.producer_idx _ (rw v.mapped v.producer)),
    write_data-eq-filled bytes w.now
        (set_id w.fresh_id (set_operation kind (slot_of rb (reset (slot_of rb s)).mem))) fit,
  )

  -- The slot that was written holds the entry.
  entered-Holds :
      (rb : RingBuffer) (w : World) (kind : OperationKind) (bytes : List ℕ) (s : SlotMem)
      → length bytes ≤ area rb
      → Holds (area rb) (kind, bytes) (entered rb w kind bytes s).mem
  unfolding set_id set_operation
  entered-Holds rb w kind bytes s fit = record {
    ready = refl;
    kind = refl;
    sized = refl;
    fits = fit;
    bytes = take-length-append bytes (drop (length bytes) _);
  }

  -- `write` of bytes that fit, into a ring that holds fewer entries than it has slots, returns the
  -- producer's index and leaves a ring that holds the entry behind the others;
  -- of the header only the producer's index has changed.
  pub write_pushes :
      (rb : RingBuffer) (w : World) (kind : OperationKind) (bytes : List ℕ) (q : List Entry)
      (m : RingMem)
      → IsValid rb q m
      → length q < m.header.slot_count
      → length bytes ≤ area rb
      → let (r, m') = write rb w kind bytes m in
        (r ≡ ok m.header.producer_idx)
        × IsValid rb (q ++ ((kind, bytes) ∷ [])) m'
        × (m'.header ≡ (advanced m).header)
  write_pushes rb w kind bytes q m v h fit =
      let (s, here, f, _) = head_slot v h in
      rw (write-eq-written rb w kind bytes q m v h fit s here f)
        (refl, push-IsRing v h (kind, bytes) _ _ (entered-Holds rb w kind bytes s fit), refl)

  -- Bytes that do not fit are refused before anything is claimed or stored.
  pub write_too_large :
      (rb : RingBuffer) (w : World) (kind : OperationKind) (bytes : List ℕ) (m : RingMem)
      → IsRoomy rb.slot_size
      → area rb < length bytes
      → write rb w kind bytes m ≡ (err payload_too_large, m)
  unfolding write max_payload_size
  write_too_large rb w kind bytes m roomy big =
      rw (le→ltb rb.slot_size metadata_size roomy.holds, lt→ltb (area rb) (length bytes) big)

-- ===== src/Ring/Buffer/Read.antt =====
-- `read` from a ring whose indices differ, and from one whose indices meet.
use elgate.Prelude.{
  ℕ, ◌+◌, ◌%◌, ◌^◌, ◌<◌, ◌≡◌, ◌≢◌, refl, sym, ap, ◌∙◌, List, ◌∷◌, some, none, arith, length, take,
  get_elem?, set, ok, eq→==, ne→==, add-mod-ne,
}
use elgate.Ring.Layout.{IsRoomy}
use elgate.Ring.Header
use elgate.Ring.Header.Claim.{next_consumer_idx_lem}
use elgate.Ring.Slot.{
  UuidApi, Slot, SlotMem, SlotStatus, status, operation, decode_status, decode_operation, read_data,
}
use elgate.Ring.Slot.Transfer.{consumed, read_data_ready, decode_operation-operation_code}
use elgate.Ring.Memory.{RingMem, RingError}
use elgate.Ring.Buffer.{RingBuffer, Entry, read, read_slot}
use elgate.Ring.Buffer.Valid.{IsRing, IsValid, Holds, area, pop-IsRing}
use elgate.Ring.Buffer.Write.{slot_of, get_slot_lem}

-- The mapping after the oldest entry, in the slot `s`, has been read.
abbrev pub read_out : RingBuffer → RingMem → SlotMem → RingMem
read_out rb m s = record {
  header =
      Header.increment_completed
        (record (m.header) { consumer_idx = (m.header.consumer_idx + 1) % m.header.slot_count });
  slots = set m.slots m.header.consumer_idx (consumed (slot_of rb s)).mem;
}

-- With fewer entries than slots, and one at least, the two indices differ.
indices_differ :
    (rb : RingBuffer) (e : Entry) (q : List Entry) (n p c : ℕ) (slots : List SlotMem)
    → IsRing rb (e ∷ q) n p c slots
    → length (e ∷ q) < n
    → p ≢ c
indices_differ rb e q n p c slots v h same =
    add-mod-ne n c (length (e ∷ q)) v.consumer (omega arith) h (sym v.ahead ∙ same)

pub status_ready : (s : Slot) → s.mem.metadata.status_word ≡ 2 → status s ≡ SlotStatus.ready
unfolding status
status_ready s e = ap decode_status e

operation-Holds :
    (rb : RingBuffer) (e : Entry) (s : SlotMem)
    → Holds (area rb) e s
    → operation (slot_of rb s) ≡ e.0
unfolding operation
operation-Holds rb e s h = ap decode_operation h.kind ∙ decode_operation-operation_code e.0

read_data-Holds :
    (rb : RingBuffer) (e : Entry) (s : SlotMem)
    → Holds (area rb) e s
    → read_data (slot_of rb s) ≡ (some e.1, consumed (slot_of rb s))
read_data-Holds rb e s h =
    read_data_ready (slot_of rb s) h.ready (omega (arith, h.sized, h.fits))
    ∙ ap (λ b. (some b, consumed (slot_of rb s))) (ap (λ k. take k s.payload) h.sized ∙ h.bytes)

module _ ⦃uuid : UuidApi⦄ where
  -- A ready slot gives its entry.
  read_slot_ready :
      (rb : RingBuffer) (i : ℕ) (m : RingMem) (e : Entry) (s : SlotMem)
      → Holds (area rb) e s
      → read_slot i (slot_of rb s) m ≡ (
        ok (some e),
        record {
          header = Header.increment_completed m.header;
          slots = set m.slots i (consumed (slot_of rb s)).mem;
        },
      )
  unfolding read_slot
  read_slot_ready rb i m e s h = rw (
    status_ready (slot_of rb s) h.ready,
    read_slot,
    read_data-Holds rb e s h,
    operation-Holds rb e s h,
  )

  -- While the indices differ, a ready slot at the consumer's index is read.
  pub read_ready :
      (rb : RingBuffer) (m : RingMem) (e : Entry) (s : SlotMem)
      → IsRoomy rb.slot_size
      → m.header.slot_count < 2 ^ 64
      → m.header.consumer_idx < m.header.slot_count
      → m.header.producer_idx ≢ m.header.consumer_idx
      → get_elem? m.slots m.header.consumer_idx ≡ some s
      → Holds (area rb) e s
      → read rb m ≡ (ok (some e), read_out rb m s)
  unfolding read
  read_ready rb m e s roomy small c apart here h = rw (
    ne→== m.header.producer_idx m.header.consumer_idx apart,
    next_consumer_idx_lem {E = RingError} m.header c small,
    get_slot_lem rb m.header.consumer_idx
        (record m {
          header = record (m.header) {
            consumer_idx = (m.header.consumer_idx + 1) % m.header.slot_count;
          };
        })
        s roomy c here,
    read_slot_ready rb m.header.consumer_idx _ e s h,
  )

  read-eq-read_out :
      (rb : RingBuffer) (m : RingMem) (e : Entry) (q : List Entry)
      → (v : IsValid rb (e ∷ q) m) → length (e ∷ q) < m.header.slot_count
      → read rb m ≡ (ok (some e), read_out rb m v.pending.0)
  read-eq-read_out rb m e q v h =
      read_ready rb m e v.pending.0 v.roomy v.small v.consumer
        (indices_differ rb e q m.header.slot_count m.header.producer_idx m.header.consumer_idx
          m.slots v h)
        v.pending.1 v.pending.2

  -- `read` of a ring that holds an entry, and fewer entries than it has slots, returns the oldest
  -- one, leaves a ring that holds the others, and counts one more completed operation; the
  -- number of slots stays.
  pub read_pops :
      (rb : RingBuffer) (m : RingMem) (e : Entry) (q : List Entry)
      → IsValid rb (e ∷ q) m
      → length (e ∷ q) < m.header.slot_count
      → let (r, m') = read rb m in
        (r ≡ ok (some e))
        × IsValid rb q m'
        × (m'.header.operations_completed ≡ (m.header.operations_completed + 1) % 2 ^ 64)
        × (m'.header.slot_count ≡ m.header.slot_count)
  unfolding Header.increment_completed
  read_pops rb m e q v h = rw (read-eq-read_out rb m e q v h) (
    refl,
    pop-IsRing v (consumed (slot_of rb v.pending.0)).mem (record { free = refl }),
    refl,
    refl,
  )

  -- While the indices are equal, `read` finds nothing and changes nothing.
  pub read_of_eq :
      (rb : RingBuffer) (m : RingMem)
      → m.header.producer_idx ≡ m.header.consumer_idx
      → read rb m ≡ (ok none, m)
  unfolding read
  read_of_eq rb m e = rw (eq→== m.header.producer_idx m.header.consumer_idx e)

-- ===== src/Ring/Create/Sharing.antt =====
-- Two handles on one mapping: one that has created it and one that has opened it.
use elgate.Prelude.{
  ℕ, ◌+◌, ◌-◌, ◌*◌, ◌/◌, ◌^◌, ◌≤◌, ◌<◌, ◌≡◌, refl, sym, ap, ◌∙◌, true, false, List, [], some, arith,
  length, ok,
}
use elgate.Ring.Layout.{IsRoomy, metadata_size, header_size}
use elgate.Ring.Header
use elgate.Ring.Header.{RingHeader}
use elgate.Ring.Slot.{UuidApi, OperationKind}
use elgate.Ring.Memory.{RingMem}
use elgate.Ring.Buffer.{RingBuffer, RingBufferOptions, World, write, read}
use elgate.Ring.Buffer.Valid.{IsRing-handle}
use elgate.Ring.Buffer.Write.{write_pushes}
use elgate.Ring.Buffer.Read.{read_pops}
use elgate.Ring.Create.{FileIo, create, open_ring}
use elgate.Ring.Create.Fresh.{create-Created}

-- The handle that `open` gives: the sizes are the header's.
abbrev pub opened_handle : RingBufferOptions → RingMem → RingBuffer
opened_handle o m = record {
  path = o.path;
  size = m.header.size;
  slot_size = m.header.slot_size;
  is_producer = false;
}

pub open_ring_lem :
    (io : FileIo) (o : RingBufferOptions) (m : RingMem)
    → io.opened ≡ true
    → io.mapped ≡ true
    → Header.validate m.header ≡ true
    → open_ring io o m ≡ (ok (opened_handle o m), m)
unfolding open_ring
open_ring_lem io o m opened mapped valid = rw (opened, mapped, valid)

-- The producer's index has no part in the validation.
validate_advanced :
    (h : RingHeader) (i : ℕ) → Header.validate (record h { producer_idx = i }) ≡ Header.validate h
unfolding Header.validate
validate_advanced h i = refl

slots_two : (size slot_size : ℕ) → 0 < slot_size → 2 * slot_size ≤ size → 2 ≤ size / slot_size
slots_two size slot_size p h = grind arith

-- What one process writes into a ring that it has created, with room for two slots at least, a
-- process that opens the ring reads, whatever sizes it asks for.
pub opened_reads_written :
    ⦃uuid : UuidApi⦄ (io io' : FileIo) (o o' : RingBufferOptions) (now : ℕ) (w : World)
    (kind : OperationKind) (bytes : List ℕ)
    → io.opened ≡ true
    → io.resized ≡ true
    → io.mapped ≡ true
    → io'.opened ≡ true
    → io'.mapped ≡ true
    → IsRoomy o.slot_size
    → header_size + 2 * o.slot_size ≤ o.size
    → o.size < 2 ^ 64
    → length bytes ≤ o.slot_size - metadata_size
    → (r : RingBuffer × RingMem) × (create io o now ≡ ok r)
      × (other : RingBuffer) × (open_ring io' o' (write r.0 w kind bytes r.1).1
          ≡ (ok other, (write r.0 w kind bytes r.1).1))
      × ((read other (write r.0 w kind bytes r.1).1).0 ≡ ok (some (kind, bytes)))
opened_reads_written io io' o o' now w kind bytes opened resized mapped opened' mapped' roomy fits
      small fit =
    let (r, made, c) = create-Created io o now opened resized mapped roomy (omega arith) small in
    let handed : r.0.slot_size ≡ o.slot_size = ap (λ h. h.slot_size) c.handle in
    let two : 2 ≤ (o.size - header_size) / o.slot_size =
      slots_two (o.size - header_size) o.slot_size (omega arith) (omega arith) in
    let (_, valid, moved) =
      write_pushes r.0 w kind bytes [] r.1 c.valid (omega (arith, c.count, two))
        (omega (arith, handed)) in
    let m' : RingMem = (write r.0 w kind bytes r.1).1 in
    (
      r,
      made,
      opened_handle o' m',
      open_ring_lem io' o' m' opened' mapped'
          (ap Header.validate moved ∙ validate_advanced r.1.header _ ∙ c.accepted),
      (read_pops (opened_handle o' m') m' (kind, bytes) []
          (IsRing-handle (opened_handle o' m')
            (ap (λ h. h.slot_size) moved ∙ c.slot_sized ∙ sym handed) valid)
          (omega (arith, c.count, two, ap (λ h. h.slot_count) moved))).0,
    )

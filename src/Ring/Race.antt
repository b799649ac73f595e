-- ===== src/Ring/Race.antt =====
-- A reader between the claim of a slot and the data: `write` and `read` of
-- elgate-core/src/ring/buffer.rs, with a `read` between `wait_for_slot` and the rest of a `write`.
mod Tests
use elgate.Prelude.{
  ℕ, suc, ◌+◌, ◌-◌, ◌%◌, ◌^◌, ◌≤◌, ◌<◌, ◌≡◌, ◌≢◌, refl, sym, ap, ◌∙◌, List, [], ◌∷◌, some, none,
  arith, length, get_elem?, set, ok, get_elem?-set_self, length-set, le→ltb, ne→==, add-mod-ne,
}
use elgate.Ring.Layout.{IsRoomy, metadata_size}
use elgate.Ring.Header.Claim.{next_consumer_idx_lem}
use elgate.Ring.Slot.{UuidApi, Slot, SlotMem, OperationKind, reset, status, set_id, set_operation}
use elgate.Ring.Slot.Transfer.{filled, write_data-eq-filled}
use elgate.Ring.Memory.{RingMem, RingError}
use elgate.Ring.Buffer.{RingBuffer, World, Entry, wait_for_slot, publish, read, read_slot, give_up}
use elgate.Ring.Buffer.Valid.{IsValid, IsFree, head_slot, area}
use elgate.Ring.Buffer.Write.{slot_of, get_slot_lem, claimed, wait_for_slot_free}
use elgate.Ring.Buffer.Read.{read_of_eq}
use native.Mathlib.Nat.{mod-eq_of_lt, add-zero}

module _ ⦃uuid : UuidApi⦄ (rb : RingBuffer) where
  abbrev emptied : SlotMem → SlotMem
  emptied s = (reset (slot_of rb s)).mem

  -- The reader has passed the slot that it found empty.
  abbrev passed : RingMem → SlotMem → RingMem
  passed m s = record {
    header = record (m.header) { consumer_idx = (m.header.consumer_idx + 1) % m.header.slot_count };
    slots = set m.slots m.header.consumer_idx (emptied s);
  }

  -- `read` of a slot that is empty, while the indices differ.
  read_passes :
      (m : RingMem) (s : SlotMem)
      → IsRoomy rb.slot_size
      → m.header.slot_count < 2 ^ 64
      → m.header.consumer_idx < m.header.slot_count
      → m.header.producer_idx ≢ m.header.consumer_idx
      → get_elem? m.slots m.header.consumer_idx ≡ some (emptied s)
      → read rb m ≡ (ok none, passed m (emptied s))
  unfolding read read_slot give_up status reset
  read_passes m s roomy small c apart here =
      rw
        (
          ne→== m.header.producer_idx m.header.consumer_idx apart,
          next_consumer_idx_lem {E = RingError} m.header c small,
          get_slot_lem rb m.header.consumer_idx
              (record m {
                header = record (m.header) {
                  consumer_idx = (m.header.consumer_idx + 1) % m.header.slot_count;
                };
              })
              (emptied s) roomy c here,
        )
        refl

  -- The rest of a `write`, into the slot that it has claimed.
  abbrev delivered : World → OperationKind → List ℕ → RingMem → ℕ → SlotMem → RingMem
  delivered w kind bytes m i s = record m {
    slots =
        set m.slots i
          (filled bytes w.now (set_id w.fresh_id (set_operation kind (slot_of rb s)))).mem;
  }

  publish_lem :
      (w : World) (kind : OperationKind) (bytes : List ℕ) (m : RingMem) (i : ℕ) (s : SlotMem)
      → IsRoomy rb.slot_size
      → i < m.header.slot_count
      → length bytes ≤ area rb
      → get_elem? m.slots i ≡ some s
      → publish rb w kind bytes i m ≡ (ok i, delivered w kind bytes m i s)
  unfolding set_id set_operation
  publish_lem w kind bytes m i s roomy lt fit here = rw (
    get_slot_lem rb i m s roomy lt here,
    write_data-eq-filled bytes w.now (set_id w.fresh_id (set_operation kind (slot_of rb s))) fit,
  )

  -- On an empty ring of two slots at least, a read that comes between the claim of a slot and its
  -- data finds nothing and passes the slot; the write still succeeds, but the next read finds
  -- nothing either, and changes nothing.
  pub overtaken :
      (w : World) (kind : OperationKind) (bytes : List ℕ) (m : RingMem)
      → IsValid rb [] m
      → 1 < m.header.slot_count
      → length bytes ≤ area rb
      → let (claim, m1) = wait_for_slot rb w m in
        let (early, m2) = read rb m1 in
        let (sent, m3) = publish rb w kind bytes m.header.producer_idx m2 in
        (claim ≡ ok m.header.producer_idx)
        × (early ≡ ok none)
        × (sent ≡ ok m.header.producer_idx)
        × (read rb m3 ≡ (ok none, m3))
  overtaken w kind bytes m v two fit =
      let (s, here, free, _) = head_slot v (omega arith) in
      let m1 : RingMem = claimed rb m s in
      let in_range : m.header.producer_idx < length m.slots = rw v.mapped v.producer in
      let m2 : RingMem = passed m1 (emptied s) in
      rw
        (
          wait_for_slot_free rb w [] m v (omega arith) s here free,
          read_passes m1 s v.roomy v.small v.consumer
              (λ e.
                add-mod-ne m.header.slot_count m.header.producer_idx 1 v.producer (omega arith) two
                  (e ∙ sym met))
              (ap (get_elem? m1.slots) (sym met)
                ∙ get_elem?-set_self m.slots m.header.producer_idx _ in_range),
          publish_lem w kind bytes m2 m.header.producer_idx (emptied (emptied s)) v.roomy v.producer
              fit
              (ap (get_elem? m2.slots) met
                ∙ get_elem?-set_self m1.slots m.header.consumer_idx _ (
                    omega (
                      arith,
                      length-set m.slots m.header.producer_idx (emptied s),
                      v.mapped,
                      v.consumer,
                    ))),
        )
        (refl, refl, refl, read_of_eq rb _ (ap (λ i. (i + 1) % m.header.slot_count) met))
    where
      met : m.header.producer_idx ≡ m.header.consumer_idx
      met =
          v.ahead
          ∙ ap (λ t. t % m.header.slot_count) (add-zero m.header.consumer_idx)
          ∙ mod-eq_of_lt v.consumer

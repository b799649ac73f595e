-- ===== src/Ring/Pending/Writes.antt =====
-- What a `write` does to the entries that wait, wherever the indices stand.
use elgate.Prelude.{
  ℕ, ◌+◌, ◌≤◌, ◌≡◌, refl, ap, Bool, List, [], ◌∷◌, arith, ltb, length, inl, inr, Bool-cases, ok,
  err, Outcome, panic, fault, le→ltb, ltb→le, ltb→lt, drop, take-length-append,
}
use elgate.Ring.Slot.{UuidApi, SlotMem, OperationKind, set_id, set_operation}
use elgate.Ring.Slot.Transfer.{filled, write_data-eq-filled, decode_operation-operation_code}
use elgate.Ring.Layout.{metadata_size}
use elgate.Ring.Memory.{RingMem, RingError}
use elgate.Ring.Buffer.{RingBuffer, World, Entry, wait_for_slot, write, max_payload_size, publish}
use elgate.Ring.Buffer.Valid.{area}
use elgate.Ring.Buffer.Write.{slot_of, get_slot_lem, write_too_large}
use elgate.Ring.Buffer.Full.{IsAlone}
use elgate.Ring.Pending.{IsMapped, held, pending, count, pending-set, set-IsMapped}
use elgate.Ring.Pending.Search.{Takes, Searched, wait_loop-Searched}

-- The entry of a `write` that returns.
abbrev pub sent : {A : Type 0} → OperationKind → List ℕ → Outcome RingError A → List Entry
sent kind bytes (ok a) = (kind, bytes) ∷ []
sent kind bytes (err e) = []
sent kind bytes panic = []
sent kind bytes fault = []

module _ ⦃uuid : UuidApi⦄ (p : Entry → Bool) (rb : RingBuffer) where
  pub record Adds (kind : OperationKind) (bytes : List ℕ) (m : RingMem)
      (d : Outcome RingError ℕ × RingMem) : Type 0 where
    pub mapping : IsMapped rb d.1
    pub slots_stay : d.1.header.slot_count ≡ m.header.slot_count
    pub entries :
        count p (pending (area rb) d.1.slots)
        ≡ count p (pending (area rb) m.slots) + count p (sent kind bytes d.0)

  -- The slot `s` with the entry of a `write` in it.
  abbrev stored : World → OperationKind → List ℕ → SlotMem → SlotMem
  stored w kind bytes s =
      (filled bytes w.now (set_id w.fresh_id (set_operation kind (slot_of rb s)))).mem

  held-stored :
      (w : World) (kind : OperationKind) (bytes : List ℕ) (s : SlotMem)
      → length bytes ≤ area rb
      → held (area rb) (stored w kind bytes s) ≡ (kind, bytes) ∷ []
  unfolding set_id set_operation
  held-stored w kind bytes s fit = rw (
    le→ltb (area rb) (length bytes) fit,
    decode_operation-operation_code kind,
    take-length-append bytes (drop (length bytes) s.payload),
  )

  publish-Adds :
      (w : World) (kind : OperationKind) (bytes : List ℕ) (i : ℕ) (m m' : RingMem)
      → length bytes ≤ area rb
      → Takes p rb i m m'
      → Adds kind bytes m (publish rb w kind bytes i m')
  unfolding set_id set_operation
  publish-Adds w kind bytes i m m' fit t =
      rw
        (
          get_slot_lem rb i m' t.slot t.keeps.mapping.roomy t.inside t.here,
          write_data-eq-filled bytes w.now
              (set_id w.fresh_id (set_operation kind (slot_of rb t.slot))) fit,
        )
        (record {
          mapping = set-IsMapped rb m' i (stored w kind bytes t.slot) t.keeps.mapping;
          slots_stay = t.keeps.slots_stay;
          entries = omega (
            arith,
            t.keeps.entries_stay,
            ap (count p) t.bare,
            ap (count p) (held-stored w kind bytes t.slot fit),
            pending-set p (area rb) m'.slots i t.slot (stored w kind bytes t.slot) t.here,
          );
        })

  -- A `write` adds its entry if it returns, and nothing else, wherever the indices stand.
  pub write-Adds :
      (w : World) (kind : OperationKind) (bytes : List ℕ) (m : RingMem)
      → IsAlone w
      → IsMapped rb m
      → Adds kind bytes m (write rb w kind bytes m)
  unfolding Searched write max_payload_size wait_for_slot
  write-Adds w kind bytes m alone h = elim (Bool-cases (ltb (area rb) (length bytes))) [
    | inl big ↦
        rw (write_too_large rb w kind bytes m h.roomy (ltb→lt _ _ big))
          (record { mapping = h; slots_stay = refl; entries = omega arith })
    | inr fits ↦
        rw (le→ltb rb.slot_size metadata_size h.roomy.holds, fits)
          (elim (wait_loop-Searched p rb w 10 1 m.header.slot_count m alone h refl) [
            | inl (i, m', waited, takes) ↦
                rw waited (publish-Adds w kind bytes i m m' (ltb→le _ _ fits) takes)
            | inr (m', waited, keeps) ↦ rw waited (record {
              mapping = keeps.mapping;
              slots_stay = keeps.slots_stay;
              entries = omega (arith, keeps.entries_stay);
            })
          ])
  ]

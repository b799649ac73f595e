-- ===== src/Ring/Buffer/Full.antt =====
-- A ring whose every slot is taken. Its indices meet, as those of the empty ring do.
use elgate.Prelude.{
  ℕ, zero, suc, ◌+◌, ◌-◌, ◌%◌, ◌^◌, ◌≤◌, ◌<◌, ◌≡◌, refl, ap, subst, ◌∙◌, List, [], ◌∷◌, ◌++◌, some,
  none, arith, length, get_elem?, ok, err, ◌*◌, le→ltb, length-append, min, mod-add_step,
  add-mod_round, mod_lt,
}
use native.Mathlib.Nat.{mod-add-mod, add_comm}
use elgate.Ring.Layout.{IsRoomy, metadata_size}
use elgate.Ring.Slot.{UuidApi, SlotMem, OperationKind, status, decode_status}
use elgate.Ring.Chain.{Chain-at}
use elgate.Ring.Memory.{RingMem, ring_full}
use elgate.Ring.Buffer.{
  RingBuffer, World, Entry, write, read, take_slot, try_slot, wait_loop, wait_for_slot,
  max_payload_size,
}
use elgate.Ring.Buffer.Valid.{IsValid, Holds, area}
use elgate.Ring.Buffer.Write.{advanced, try_slot-eq-take_slot, write_pushes}
use elgate.Ring.Buffer.Read.{read_of_eq}

-- Between the attempts of a write, nobody touches the mapping.
abbrev pub IsAlone : World → Type 0
IsAlone w = (ms : ℕ) (other : RingMem) → w.others ms other ≡ other

-- Every slot is ready.
abbrev pub AllReady : ℕ → List SlotMem → Type 0
AllReady n slots =
    (i : ℕ) → i < n → (s : SlotMem) × (get_elem? slots i ≡ some s) × (s.metadata.status_word ≡ 2)

indices_meet :
    (rb : RingBuffer) (q : List Entry) (m : RingMem)
    → IsValid rb q m
    → length q ≡ m.header.slot_count
    → m.header.producer_idx ≡ m.header.consumer_idx
indices_meet rb q m v full =
    v.ahead
    ∙ ap (λ k. (m.header.consumer_idx + k) % m.header.slot_count) full
    ∙ add-mod_round m.header.slot_count m.header.consumer_idx v.consumer

pub full-AllReady :
    (rb : RingBuffer) (q : List Entry) (m : RingMem)
    → IsValid rb q m
    → length q ≡ m.header.slot_count
    → AllReady m.header.slot_count m.slots
full-AllReady rb q m v full i lt =
    let (e, s, here, h) =
      Chain-at (Holds (area rb)) m.header.slot_count m.slots m.header.consumer_idx
        ((i + m.header.slot_count - m.header.consumer_idx) % m.header.slot_count) q v.consumer
        (omega (
          arith,
          full,
          mod_lt m.header.slot_count (i + m.header.slot_count - m.header.consumer_idx)
              (omega arith),
        ))
        v.pending in
    (s, subst (λ j. get_elem? m.slots j ≡ some s) there here, h.ready)
  where
    there :
        (m.header.consumer_idx
            + (i + m.header.slot_count - m.header.consumer_idx) % m.header.slot_count)
          % m.header.slot_count
        ≡ i
    there =
        ap (λ t. t % m.header.slot_count)
          (add_comm m.header.consumer_idx
            ((i + m.header.slot_count - m.header.consumer_idx) % m.header.slot_count))
        ∙ mod-add-mod (i + m.header.slot_count - m.header.consumer_idx) m.header.slot_count
            m.header.consumer_idx
        ∙ ap (λ t. t % m.header.slot_count) {y = i + m.header.slot_count}
            (omega (arith, v.consumer))
        ∙ add-mod_round m.header.slot_count i lt

-- `read` finds nothing in a ring that has an entry in each of its slots.
pub read_full :
    ⦃uuid : UuidApi⦄ (rb : RingBuffer) (q : List Entry) (m : RingMem)
    → IsValid rb q m
    → length q ≡ m.header.slot_count
    → read rb m ≡ (ok none, m)
read_full rb q m v full = read_of_eq rb m (indices_meet rb q m v full)

-- The write that takes the last free slot succeeds, and the next read finds nothing.
pub read-write_last :
    ⦃uuid : UuidApi⦄ (rb : RingBuffer) (w : World) (kind : OperationKind) (bytes : List ℕ)
    (q : List Entry) (m : RingMem)
    → IsValid rb q m
    → suc (length q) ≡ m.header.slot_count
    → length bytes ≤ area rb
    → let (r, m') = write rb w kind bytes m in
      (r ≡ ok m.header.producer_idx)
      × IsValid rb (q ++ ((kind, bytes) ∷ [])) m'
      × (read rb m' ≡ (ok none, m'))
read-write_last rb w kind bytes q m v last fit =
    let (stored, valid, moved) = write_pushes rb w kind bytes q m v (omega arith) fit in
    (
      stored,
      valid,
      read_full rb (q ++ ((kind, bytes) ∷ [])) (write rb w kind bytes m).1 valid
          (omega (arith, length-append q ((kind, bytes) ∷ []), last, ap (λ h. h.slot_count) moved)),
    )

module _ ⦃uuid : UuidApi⦄ (rb : RingBuffer) where
  -- An attempt finds a slot that is not free, and has moved the producer's index on.
  try_slot_ready :
      (m : RingMem)
      → IsRoomy rb.slot_size
      → m.header.slot_count < 2 ^ 64
      → m.header.producer_idx < m.header.slot_count
      → m.header.consumer_idx < m.header.slot_count
      → AllReady m.header.slot_count m.slots
      → try_slot rb m.header.slot_count m ≡ (ok none, advanced m)
  unfolding take_slot status
  try_slot_ready m roomy small p c all =
      let (s, here, ready) = all m.header.producer_idx p in
      try_slot-eq-take_slot rb m s roomy small p c here ∙ rw (ap decode_status ready) refl

  -- The mapping after `k` such attempts.
  abbrev pub moved_on : ℕ → RingMem → RingMem
  moved_on k m = record m {
    header = record (m.header) { producer_idx = (m.header.producer_idx + k) % m.header.slot_count };
  }

  wait_loop_ready :
      (left backoff_ms : ℕ) (w : World) (m : RingMem)
      → IsAlone w
      → IsRoomy rb.slot_size
      → m.header.slot_count < 2 ^ 64
      → m.header.producer_idx < m.header.slot_count
      → m.header.consumer_idx < m.header.slot_count
      → AllReady m.header.slot_count m.slots
      → wait_loop rb w m.header.slot_count left backoff_ms m
        ≡ (err ring_full, moved_on (suc left) m)
  unfolding wait_loop
  wait_loop_ready zero backoff_ms w m alone roomy small p c all =
      rw (try_slot_ready m roomy small p c all) refl
  wait_loop_ready (suc left) backoff_ms w m alone roomy small p c all =
      rw (try_slot_ready m roomy small p c all, alone backoff_ms (advanced m))
        (wait_loop_ready left (min (backoff_ms * 2) 100) w (advanced m) alone roomy small
            (mod_lt m.header.slot_count (m.header.producer_idx + 1) (omega arith)) c all
          ∙ ap (λ i. (err ring_full, record m { header = record (m.header) { producer_idx = i } }))
              (mod-add_step m.header.slot_count m.header.producer_idx (suc left)))

  -- `write` of bytes that fit makes eleven attempts, wherever the producer's index stands.
  pub write-AllReady :
      (w : World) (kind : OperationKind) (bytes : List ℕ) (m : RingMem)
      → IsAlone w
      → IsRoomy rb.slot_size
      → m.header.slot_count < 2 ^ 64
      → m.header.producer_idx < m.header.slot_count
      → m.header.consumer_idx < m.header.slot_count
      → AllReady m.header.slot_count m.slots
      → length bytes ≤ area rb
      → write rb w kind bytes m ≡ (err ring_full, moved_on 11 m)
  unfolding write max_payload_size wait_for_slot
  write-AllReady w kind bytes m alone roomy small p c all fit = rw (
    le→ltb rb.slot_size metadata_size roomy.holds,
    le→ltb (area rb) (length bytes) fit,
    wait_loop_ready 10 1 w m alone roomy small p c all,
  )

-- `write` into a ring whose every slot is taken, with nobody reading meanwhile, fails after eleven
-- attempts. Each attempt has moved the producer's index on, over entries that nobody has read.
pub write_full :
    ⦃uuid : UuidApi⦄ (rb : RingBuffer) (w : World) (kind : OperationKind) (bytes : List ℕ)
    (q : List Entry) (m : RingMem)
    → IsAlone w
    → IsValid rb q m
    → length q ≡ m.header.slot_count
    → length bytes ≤ area rb
    → write rb w kind bytes m ≡ (
      err ring_full,
      record m {
        header = record (m.header) {
          producer_idx = (m.header.producer_idx + 11) % m.header.slot_count;
        };
      },
    )
write_full rb w kind bytes q m alone v full fit =
    write-AllReady rb w kind bytes m alone v.roomy v.small v.producer v.consumer
      (full-AllReady rb q m v full) fit

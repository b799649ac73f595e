-- ===== src/Notify/Unread.antt =====
-- The notifications of both engines on a ring that nobody reads, however many they are.
use elgate.Prelude.{
  ℕ, ◌<◌, ◌≡◌, ◌⊎◌, refl, sym, subst, List, ltb, ltb→lt, ltb→le, lt→ltb, le→ltb, Bool-cases, inl,
  inr, if◌then◌else◌, length, arith, mod_lt, dec_lt, ok, Outcome, ◌+◌,
}
use elgate.Ring.Slot.{UuidApi, OperationKind}
use elgate.Ring.Memory.{RingMem}
use elgate.Ring.Buffer.{RingBuffer, World, Entry}
use elgate.Ring.Buffer.Valid.{IsValid, area}
use elgate.Ring.Buffer.Write.{write_too_large}
use elgate.Ring.Buffer.Full.{IsAlone, full-AllReady, write-AllReady}
use elgate.Notify.{notify, notified, notify-IsValid}

-- The mapping with the producer's index at a place.
abbrev pub placed : ℕ → RingMem → RingMem
placed p m = record m { header = record (m.header) { producer_idx = p } }

-- The ring holds the entries, and the producer's index stands behind them, unless every slot is
-- taken: then it may stand anywhere.
pub record IsUnread (rb : RingBuffer) (q : List Entry) (m : RingMem) : Type 0 where
  pub place : ℕ
  pub valid : IsValid rb q (placed place m)
  pub stands :
      (m.header.producer_idx ≡ place)
      ⊎ ((length q ≡ m.header.slot_count) × (m.header.producer_idx < m.header.slot_count))

-- The entries after a notification: a full ring takes no more.
abbrev pub kept :
    ⦃uuid : UuidApi⦄ → RingBuffer → ℕ → OperationKind → List ℕ → List Entry → List Entry
kept rb n kind bytes q = if ltb (length q) n then notified rb kind bytes q else q

in_range :
    (rb : RingBuffer) (q : List Entry) (m : RingMem)
    → IsUnread rb q m
    → m.header.producer_idx < m.header.slot_count
in_range rb q m v = by_place v.stands
  where
    by_place :
        (m.header.producer_idx ≡ v.place)
          ⊎ ((length q ≡ m.header.slot_count) × (m.header.producer_idx < m.header.slot_count))
        → m.header.producer_idx < m.header.slot_count
    by_place (inl e) = let p = v.valid.producer in omega arith
    by_place (inr (full, lt)) = lt

module _ ⦃uuid : UuidApi⦄ {E : Type 0} (rb : RingBuffer) (w : World) (kind : OperationKind)
    (bytes : List ℕ) (q : List Entry) (m : RingMem) where
  -- What the notification leaves.
  record Leaves (q' : List Entry) (d : Outcome E (Unit {0}) × RingMem) : Type 0 where
    pub told : d.0 ≡ ok tt
    pub unread : IsUnread rb q' d.1
    pub count : d.1.header.slot_count ≡ m.header.slot_count

  -- One in a ring with a slot to spare.
  roomy_notify :
      IsUnread rb q m
      → length q < m.header.slot_count
      → Leaves (notified rb kind bytes q) (notify {E = E} rb w kind bytes m)
  roomy_notify v room = by_place v.stands
    where
      by_place :
          (m.header.producer_idx ≡ v.place)
            ⊎ ((length q ≡ m.header.slot_count) × (m.header.producer_idx < m.header.slot_count))
          → Leaves (notified rb kind bytes q) (notify {E = E} rb w kind bytes m)
      by_place (inl e) =
          let (sent, valid, count) =
            notify-IsValid {E = E} rb w kind bytes q m
              (subst (λ p. IsValid rb q (placed p m)) (sym e) v.valid) room in
          record {
            told = sent;
            unread = record {
              place = (notify {E = E} rb w kind bytes m).1.header.producer_idx;
              valid = valid;
              stands = inl refl;
            };
            count = count;
          }
      by_place (inr (full, lt)) = absurd (omega arith)

  -- One in a full ring: it is dropped, and the producer's index moves on over the entries.
  full_notify :
      IsAlone w
      → IsUnread rb q m
      → length q ≡ m.header.slot_count
      → Leaves q (notify {E = E} rb w kind bytes m)
  unfolding notify
  full_notify alone v full = elim (Bool-cases (ltb (area rb) (length bytes))) [
    | inl big ↦
        rw (write_too_large rb w kind bytes m v.valid.roomy (ltb→lt _ _ big))
          (record { told = refl; unread = v; count = refl })
    | inr fits ↦
        let filled =
          write-AllReady rb w kind bytes m alone v.valid.roomy v.valid.small (in_range rb q m v)
            v.valid.consumer (full-AllReady rb q (placed v.place m) v.valid full)
            (ltb→le _ _ fits) in
        rw filled (record {
          told = refl;
          unread = record {
            place = v.place;
            valid = v.valid;
            stands = inr (
              full,
              mod_lt m.header.slot_count (m.header.producer_idx + 11)
                  (omega (arith, v.valid.consumer)),
            );
          };
          count = refl;
        })
  ]

  -- On a ring that nobody reads or writes meanwhile, a notification never fails, and the ring
  -- keeps its entries and takes the new one, if it fits and there is a slot to spare.
  pub notify-IsUnread :
      IsAlone w
      → IsUnread rb q m
      → ((notify {E = E} rb w kind bytes m).0 ≡ ok tt)
        × IsUnread rb
            (kept rb m.header.slot_count kind bytes q)
            (notify {E = E} rb w kind bytes m).1
        × ((notify {E = E} rb w kind bytes m).1.header.slot_count ≡ m.header.slot_count)
  notify-IsUnread alone v = elim (dec_lt (length q) m.header.slot_count) [
    | yes room ↦
        let left = roomy_notify v room in
        rw (lt→ltb (length q) m.header.slot_count room) (left.told, left.unread, left.count)
    | no full ↦
        let short = v.valid.short in
        let left = full_notify alone v (omega arith) in
        rw (le→ltb (length q) m.header.slot_count (omega arith))
          (left.told, left.unread, left.count)
  ]

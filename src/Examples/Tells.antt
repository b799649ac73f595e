-- ===== src/Examples/Tells.antt =====
-- What the calls of the engines need of the ring: that a notification comes back, as each call ends
-- with one. Rings with room for it do, and rings that nobody reads.
use elgate.Prelude.{ℕ, suc, ◌+◌, ◌≤◌, ◌≡◌, List, arith, length, ok}
use elgate.Ring.Slot.{UuidApi, OperationKind}
use elgate.Ring.Memory.{RingMem}
use elgate.Ring.Buffer.{RingBuffer, World, Entry}
use elgate.Ring.Buffer.Valid.{IsValid}
use elgate.Notify.{notify, notified, notify-IsValid, length-notified}
use elgate.Notify.Unread.{IsUnread, kept, notify-IsUnread}
use elgate.Ring.Buffer.Full.{IsAlone}

-- A notification on a mapping that is `P` leaves one that is `P'`.
pub record Tells ⦃uuid : UuidApi⦄ (rb : RingBuffer) (w : World) (P P' : RingMem → Type 0)
    : Type 1 where
  pub told :
      {E : Type 0} (kind : OperationKind) (text : List ℕ) (m : RingMem)
      → P m
      → ((notify {E = E} rb w kind text m).0 ≡ ok tt) × P' (notify {E = E} rb w kind text m).1

-- The ring has room for `k` more entries.
pub record HasRoom (rb : RingBuffer) (k : ℕ) (m : RingMem) : Type 0 where
  pub entries : List Entry
  pub valid : IsValid rb entries m
  pub room : length entries + k ≤ m.header.slot_count

-- A ring that nobody reads, with some entries.
abbrev pub NobodyReads : RingBuffer → RingMem → Type 0
NobodyReads rb m = (q : List Entry) × IsUnread rb q m

module _ ⦃uuid : UuidApi⦄ (rb : RingBuffer) (w : World) where
  pub HasRoom-Tells : (k : ℕ) → Tells rb w (HasRoom rb (suc k)) (HasRoom rb k)
  HasRoom-Tells k = record {
    told = λ {E} kind text m h.
        let (sent, valid, count) =
          notify-IsValid {E = E} rb w kind text h.entries m h.valid (omega (arith, h.room)) in
        (
          sent,
          record {
            entries = notified rb kind text h.entries;
            valid = valid;
            room = omega (arith, h.room, count, length-notified rb kind text h.entries);
          },
        );
  }

  pub NobodyReads-Tells : IsAlone w → Tells rb w (NobodyReads rb) (NobodyReads rb)
  NobodyReads-Tells alone = record {
    told = λ {E} kind text m (q, v).
        let (sent, unread, count) = notify-IsUnread {E = E} rb w kind text q m alone v in
        (sent, (kept rb m.header.slot_count kind text q, unread));
  }

-- ===== src/Notify.antt =====
-- How the engines of elgate-core/src/net/io_uring.rs and elgate-core/src/disk/io_uring.rs tell other
-- components of an operation: `let _ = self.ring_buffer.write(kind, bytes)`.
pub mod Unread
use elgate.Prelude.{
  ℕ, ◌<◌, ◌≡◌, refl, ap, List, [], ◌∷◌, ◌++◌, ltb, ltb→lt, ltb→le, Bool-cases, inl, inr,
  if◌then◌else◌, length, length-append, arith, ◌+◌, ◌≤◌, Outcome, ok, err, panic, fault,
}
use elgate.Ring.Slot.{UuidApi, OperationKind}
use elgate.Ring.Memory.{RingMem, RingError}
use elgate.Ring.Buffer.{RingBuffer, World, Entry}
use elgate.Ring.Buffer
use elgate.Ring.Buffer.Valid.{IsValid, area}
use elgate.Ring.Buffer.Write.{write_pushes, write_too_large}

-- An error is dropped; a panic is not.
abbrev pub ignore : {E : Type 0} → Outcome RingError ℕ × RingMem → Outcome E (Unit {0}) × RingMem
ignore (ok i, m) = (ok tt, m)
ignore (err e, m) = (ok tt, m)
ignore (panic, m) = (panic, m)
ignore (fault, m) = (fault, m)

module _ ⦃uuid : UuidApi⦄ where
  unfoldable pub notify :
      {E : Type 0}
      → RingBuffer
      → World
      → OperationKind
      → List ℕ
      → RingMem
      → Outcome E (Unit {0}) × RingMem
  notify rb w kind bytes m = ignore (Buffer.write rb w kind bytes m)

  -- The entries of the ring after a notification: one that does not fit a slot is dropped.
  abbrev pub notified : RingBuffer → OperationKind → List ℕ → List Entry → List Entry
  notified rb kind bytes q = if ltb (area rb) (length bytes) then q else q ++ ((kind, bytes) ∷ [])

  pub length-notified :
      (rb : RingBuffer) (kind : OperationKind) (bytes : List ℕ) (q : List Entry)
      → length (notified rb kind bytes q) ≤ length q + 1
  length-notified rb kind bytes q = elim (Bool-cases (ltb (area rb) (length bytes))) [
    | inl big ↦ rw big (omega arith)
    | inr fits ↦ rw fits (omega (arith, length-append q ((kind, bytes) ∷ [])))
  ]

  pub notify-IsValid :
      {E : Type 0} (rb : RingBuffer) (w : World) (kind : OperationKind) (bytes : List ℕ)
      (q : List Entry) (m : RingMem)
      → IsValid rb q m
      → length q < m.header.slot_count
      → ((notify {E = E} rb w kind bytes m).0 ≡ ok tt)
        × IsValid rb (notified rb kind bytes q) (notify {E = E} rb w kind bytes m).1
        × ((notify {E = E} rb w kind bytes m).1.header.slot_count ≡ m.header.slot_count)
  unfolding notify
  notify-IsValid {E} rb w kind bytes q m v room = elim (Bool-cases (ltb (area rb) (length bytes))) [
    | inl big ↦ rw (big, write_too_large rb w kind bytes m v.roomy (ltb→lt _ _ big)) (refl, v, refl)
    | inr fits ↦
        let (stored, valid, moved) = write_pushes rb w kind bytes q m v room (ltb→le _ _ fits) in
        let done = Buffer.write rb w kind bytes m in
        let same : notify {E = E} rb w kind bytes m ≡ (ok tt, done.1) =
          ap (λ o. ignore (o, done.1)) stored in
        rw (fits, same) (refl, valid, ap (λ h. h.slot_count) moved)
  ]

-- ===== src/Ring/Pending.antt =====
-- The entries that wait in the slots of a mapping, wherever its indices stand: what a `read` that
-- comes to their slots will return.
pub mod Search
pub mod Writes
pub mod Reads
pub mod Conserved
mod Tests
use elgate.Prelude.{
  ℕ, zero, suc, ◌+◌, ◌-◌, ◌%◌, ◌^◌, ◌≤◌, ◌<◌, ◌≡◌, ◌≢◌, refl, ap, sym, ◌∙◌, Bool, true, List, [],
  ◌∷◌, ◌++◌, some, arith, ltb, ◌==◌, if◌then◌else◌, length, take, get_elem?, set, length-set,
  mod_lt, ne→==,
}
use mathlib.Core.Option.{none-ne-some, some-injective}
use mathlib.Core.Bool.{true≢false}
use elgate.Ring.Layout.{IsRoomy, metadata_size}
use elgate.Ring.Slot.{SlotMem, SlotStatus, Slot, status, decode_status, decode_operation}
use elgate.Ring.Memory.{RingMem}
use elgate.Ring.Buffer.{RingBuffer, Entry, is_available}
use elgate.Ring.Buffer.Valid.{area}
use elgate.Ring.Buffer.Write.{advanced}

-- A mapping whose indices are indices of its slots.
pub record IsMapped (rb : RingBuffer) (m : RingMem) : Type 0 where
  pub roomy : IsRoomy rb.slot_size
  pub small : m.header.slot_count < 2 ^ 64
  pub mapped : length m.slots ≡ m.header.slot_count
  pub producer : m.header.producer_idx < m.header.slot_count
  pub consumer : m.header.consumer_idx < m.header.slot_count

-- The entry of a ready slot, whose size is not above the payload area.
abbrev pub held : ℕ → SlotMem → List Entry
held d s =
    if s.metadata.status_word == 2
    then if ltb d s.metadata.size_word
      then []
      else (decode_operation s.metadata.operation_word, take s.metadata.size_word s.payload) ∷ []
    else []

abbrev pub pending : ℕ → List SlotMem → List Entry
pending d [] = []
pending d (s ∷ slots) = held d s ++ pending d slots

-- How many of the entries pass a test.
abbrev pub count : (Entry → Bool) → List Entry → ℕ
count p [] = 0
count p (e ∷ es) = if p e then suc (count p es) else count p es

-- The test that every entry passes.
abbrev pub any_entry : Entry → Bool
any_entry e = true

pub count-append :
    (p : Entry → Bool) (xs ys : List Entry) → count p (xs ++ ys) ≡ count p xs + count p ys
count-append p [] ys = omega arith
count-append p (x ∷ xs) ys = let ih = count-append p xs ys in ground arith

-- A slot's entry comes in the place of the one it had.
pub pending-set :
    (p : Entry → Bool) (d : ℕ) (slots : List SlotMem) (i : ℕ) (s v : SlotMem)
    → get_elem? slots i ≡ some s
    → count p (pending d (set slots i v)) + count p (held d s)
      ≡ count p (pending d slots) + count p (held d v)
pending-set p d [] i s v e = absurd (none-ne-some s e)
pending-set p d (x ∷ slots) zero s v e =
    rw
      (
        some-injective x s e,
        count-append p (held d s) (pending d slots),
        count-append p (held d v) (pending d slots),
      )
      (omega arith)
pending-set p d (x ∷ slots) (suc i) s v e = omega (
  arith,
  pending-set p d slots i s v e,
  count-append p (held d x) (pending d slots),
  count-append p (held d x) (pending d (set slots i v)),
)

-- A slot that is not ready holds no entry, nor does one that a `write` may take.
pub held_other :
    (d : ℕ) (s : SlotMem) → decode_status s.metadata.status_word ≢ SlotStatus.ready → held d s ≡ []
held_other d s h = rw (ne→== s.metadata.status_word 2 (λ e. h (ap decode_status e)))

pub held_free :
    (d : ℕ) (s : SlotMem)
    → is_available (decode_status s.metadata.status_word) ≡ true
    → held d s ≡ []
held_free d s free = held_other d s (λ ready. true≢false (sym free ∙ ap is_available ready))

-- Storing to a slot keeps the mapping one.
pub set-IsMapped :
    (rb : RingBuffer) (m : RingMem) (i : ℕ) (v : SlotMem)
    → IsMapped rb m
    → IsMapped rb (record m { slots = set m.slots i v })
set-IsMapped rb m i v h = record {
  roomy = h.roomy;
  small = h.small;
  mapped = length-set m.slots i v ∙ h.mapped;
  producer = h.producer;
  consumer = h.consumer;
}

-- So does moving an index on.
pub advanced-IsMapped : (rb : RingBuffer) (m : RingMem) → IsMapped rb m → IsMapped rb (advanced m)
advanced-IsMapped rb m h = record {
  roomy = h.roomy;
  small = h.small;
  mapped = h.mapped;
  producer = mod_lt m.header.slot_count (m.header.producer_idx + 1) (omega (arith, h.producer));
  consumer = h.consumer;
}

-- ===== src/Ring/Memory.antt =====
-- The mapping that the processes share, and the calls that read and change it: a state monad over
-- `RingMem` whose results are outcomes. A call that fails keeps what it has stored.
use elgate.Prelude.{
  ℕ, ◌≡◌, Bool, true, false, List, Option, ◌%◌, ◌==◌, get_elem?, set, ltb, if◌then◌else◌, Outcome,
  ok, err, panic, fault,
}
use elgate.Ring.Layout.{slot_offset}
use elgate.Ring.Header.{RingHeader}
use elgate.Ring.Slot.{Slot, SlotMem, SlotError, from_ptr}

pub record RingMem : Type 0 where
  pub header : RingHeader
  pub slots : List SlotMem

-- The errors of buffer.rs, by their messages.
pub data RingError : Type 0 where
  create_failed resize_failed map_failed open_failed : RingError
  invalid_header payload_too_large ring_full : RingError
  slot_error : SlotError → RingError

abbrev pub M : Type 0 → Type 0
M A = RingMem → Outcome RingError A × RingMem

abbrev pub pure : {A : Type 0} → A → M A
pure a m = (ok a, m)

-- What a call goes on with.
abbrev pub and_then :
    {A B : Type 0} → Outcome RingError A × RingMem → (A → M B) → Outcome RingError B × RingMem
and_then (ok a, m) f = f a m
and_then (err e, m) f = (err e, m)
and_then (panic, m) f = (panic, m)
and_then (fault, m) f = (fault, m)

pub and_then_ok :
    {A B : Type 0} (o : Outcome RingError A) (m : RingMem) (f : A → M B) {a : A}
    → o ≡ ok a
    → and_then (o, m) f ≡ f a m
and_then_ok o m f e = rw e

infixl 5 ◌>>=◌ ◌>>◌
abbrev pub ◌>>=◌ : {A B : Type 0} → M A → (A → M B) → M B
◌>>=◌ c f m = and_then (c m) f

abbrev pub ◌>>◌ : {B : Type 0} → M (Unit {0}) → M B → M B
c >> k = c >>= λ _. k

-- A result that touches no memory, with the `?` operator.
abbrev pub lift : {A : Type 0} → Outcome RingError A → M A
lift o m = (o, m)

abbrev pub fail_if : Bool → RingError → M (Unit {0})
fail_if true e m = (err e, m)
fail_if false e m = (ok tt, m)

-- A method of the header that may fail, and one that may not.
abbrev pub keep_header : {A : Type 0} → Outcome RingError (A × RingHeader) → M A
keep_header (ok (a, h)) m = (ok a, record m { header = h })
keep_header (err e) m = (err e, m)
keep_header panic m = (panic, m)
keep_header fault m = (fault, m)

abbrev pub on_header : {A : Type 0} → (RingHeader → Outcome RingError (A × RingHeader)) → M A
on_header f m = keep_header (f m.header) m

abbrev pub change_header : (RingHeader → RingHeader) → M (Unit {0})
change_header f m = (ok tt, record m { header = f m.header })

abbrev pub slot_at : Option SlotMem → ℕ → Outcome RingError Slot
slot_at (Option.some mem) slot_size = from_ptr mem slot_size
slot_at Option.none slot_size = fault

-- `get_slot`: the assertion, then the pointers at the slot's offset. Every caller goes on to access
-- the metadata there, whose type is aligned to 64 bytes; a misaligned access is undefined.
unfoldable pub get_slot : ℕ → ℕ → M Slot
unfolding slot_offset
get_slot slot_size idx m = (
  if ltb idx m.header.slot_count
      then if slot_offset slot_size idx % 64 == 0
        then slot_at (get_elem? m.slots idx) slot_size
        else fault
      else panic,
  m,
)

-- The stores that the slot's methods have made through its pointers.
abbrev pub put_slot : ℕ → Slot → M (Unit {0})
put_slot idx s m = (ok tt, record m { slots = set m.slots idx s.mem })

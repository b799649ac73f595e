-- ===== src/Ring/Header.antt =====
-- elgate-core/src/ring/header.rs: the header at the start of the mapping. An atomic field is the
-- number that it holds; a method that stores returns the new header.
pub mod Claim
use elgate.Prelude.{
  ℕ, ◌+◌, ◌-◌, ◌%◌, ◌^◌, Bool, ◌&&◌, List, [], ◌∷◌, ltb, ◌==◌, if◌then◌else◌, replicate, Outcome,
  ok, panic, ◌>>=◌, checked_sub, checked_add, checked_div,
}
use elgate.Ring.Layout.{header_size, header_padding_size}

pub record RingHeader : Type 0 where
  pub magic : ℕ
  pub version : ℕ
  pub size : ℕ
  pub slot_size : ℕ
  pub slot_count : ℕ
  pub producer_idx : ℕ
  pub consumer_idx : ℕ
  pub active_producers : ℕ
  pub operations_completed : ℕ
  pub created_at : ℕ
  pub numa_node : ℕ
  pub padding : List ℕ

abbrev pub magic_value : ℕ
magic_value = 0x45_4C_47_41_54_45_52_42

abbrev pub version_value : ℕ
version_value = 1

-- `RingHeader::new`; `now` is the clock in seconds.
unfoldable pub new : {E : Type 0} → ℕ → ℕ → ℕ → Outcome E RingHeader
new size slot_size now = do
  room ← checked_sub size header_size
  count ← checked_div room slot_size
  ok (record {
    magic = magic_value;
    version = version_value;
    size = size;
    slot_size = slot_size;
    slot_count = count;
    producer_idx = 0;
    consumer_idx = 0;
    active_producers = 0;
    operations_completed = 0;
    created_at = now;
    numa_node = 0;
    padding = replicate header_padding_size 0;
  })

unfoldable pub validate : RingHeader → Bool
validate h =
    h.magic == magic_value
    && h.version == version_value
    && ltb header_size h.size
    && ltb 0 h.slot_size
    && ltb 0 h.slot_count

-- What other threads do to the counter between a failed compare-exchange and the next one: they
-- store a value, or nothing, and the weak exchange fails without a reason.
pub data Interference : Type 0 where
  moved : ℕ → Interference
  spurious : Interference

-- `(current + 1) % slot_count`
abbrev pub next_of : {E : Type 0} → ℕ → ℕ → Outcome E ℕ
next_of slot_count current = do
  next ← checked_add current 1
  if slot_count == 0 then panic else ok (next % slot_count)

-- The loop of `next_producer_idx` and `next_consumer_idx`: the counter's cell, the local `current`,
-- and what comes before each exchange. Returns the index won and the cell after the exchange.
unfoldable pub claim : {E : Type 0} → ℕ → List Interference → ℕ → ℕ → Outcome E (ℕ × ℕ)
claim slot_count [] cell current = do
  next ← next_of slot_count current
  if cell == current
      then ok (current, next)
      else (do again ← next_of slot_count cell; ok (cell, again))
claim slot_count (spurious ∷ events) cell current = do
  next ← next_of slot_count current
  claim slot_count events cell cell
claim slot_count (moved v ∷ events) cell current =
    let retry = claim slot_count events v v in
    do next ← next_of slot_count current; if v == current then ok (current, next) else retry

unfoldable pub next_producer_idx :
    {E : Type 0} → List Interference → RingHeader → Outcome E (ℕ × RingHeader)
next_producer_idx events h = do
  won ← claim h.slot_count events h.producer_idx h.producer_idx
  ok (won.0, record h { producer_idx = won.1 })

unfoldable pub next_consumer_idx :
    {E : Type 0} → List Interference → RingHeader → Outcome E (ℕ × RingHeader)
next_consumer_idx events h = do
  won ← claim h.slot_count events h.consumer_idx h.consumer_idx
  ok (won.0, record h { consumer_idx = won.1 })

-- Atomic additions and subtractions wrap.
unfoldable pub increment_completed : RingHeader → RingHeader
increment_completed h = record h { operations_completed = (h.operations_completed + 1) % 2 ^ 64 }

unfoldable pub register_producer : RingHeader → RingHeader
register_producer h = record h { active_producers = (h.active_producers + 1) % 2 ^ 64 }

unfoldable pub unregister_producer : RingHeader → RingHeader
unregister_producer h = record h { active_producers = (h.active_producers + (2 ^ 64 - 1)) % 2 ^ 64 }

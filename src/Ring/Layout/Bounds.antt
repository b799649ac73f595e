-- ===== src/Ring/Layout/Bounds.antt =====
-- The slots of a mapping that `RingHeader::new` has divided up.
use elgate.Prelude.{
  ℕ, suc, ◌+◌, ◌-◌, ◌*◌, ◌/◌, ◌≤◌, ◌<◌, ◌≡◌, ◌⊎◌, inl, inr, arith, ok, ℕ_discrete, dec_lt,
}
use elgate.Ring.Layout.{slot_offset, header_size}
use elgate.Ring.Header
use elgate.Ring.Header.{RingHeader}

pub new_inversion :
    {E : Type 0} (size slot_size now : ℕ) (h : RingHeader)
    → Header.new {E = E} size slot_size now ≡ ok h
    → (header_size ≤ size) × (0 < slot_size) × (h.slot_count ≡ (size - header_size) / slot_size)
unfolding Header.new
new_inversion size slot_size now h e = ground arith

div-mul-le : (a b : ℕ) → a / b * b ≤ a
div-mul-le a b = grind arith

mul_le : (i j s : ℕ) → i ≤ j → i * s ≤ j * s
mul_le i j s h = grind arith

-- Every slot of a new header, also the only one, lies behind the header and inside the mapping, and
-- two slots with different indices do not overlap.
pub new_slots_disjoint :
    {E : Type 0} (size slot_size now : ℕ) (h : RingHeader) (i j : ℕ)
    → Header.new {E = E} size slot_size now ≡ ok h
    → i < h.slot_count
    → j < h.slot_count
    → (header_size ≤ slot_offset slot_size i)
      × (slot_offset slot_size i + slot_size ≤ size)
      × ((i ≡ j)
          ⊎ ((slot_offset slot_size i + slot_size ≤ slot_offset slot_size j)
              ⊎ (slot_offset slot_size j + slot_size ≤ slot_offset slot_size i)))
unfolding Header.new slot_offset
new_slots_disjoint {E} size slot_size now h i j e hi hj =
    let (big, pos, count) = new_inversion {E = E} size slot_size now h e in
    (
      omega arith,
      omega (
        arith,
        big,
        mul_le (suc i) ((size - header_size) / slot_size) slot_size (omega (arith, count)),
        div-mul-le (size - header_size) slot_size,
      ),
      elim (ℕ_discrete i j) [
        | yes same ↦ inl same
        | no other ↦ elim (dec_lt i j) [
          | yes less ↦ inr (inl (omega (arith, mul_le (suc i) j slot_size less)))
          | no more ↦ inr (inr (omega (arith, mul_le (suc j) i slot_size (omega arith))))
        ]
      ],
    )

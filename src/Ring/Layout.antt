-- ===== src/Ring/Layout.antt =====
-- The `repr(C)` sizes of `RingHeader` and `SlotMetadata` on a 64-bit target, computed as the
-- language reference computes them, and where a slot stands in the mapping.
pub mod Bounds
use elgate.Prelude.{ℕ, ◌+◌, ◌-◌, ◌*◌, ◌/◌, ◌%◌, ◌≤◌, ◌≡◌, refl, sym, ap, ◌∙◌, List, [], ◌∷◌, arith}
use native.Mathlib.Nat.{mul_assoc}

-- The next multiple of `a` from `n` on.
abbrev pub round_up : ℕ → ℕ → ℕ
round_up a n = (n + a - 1) / a * a

-- Fields in declaration order, each with its size and alignment, laid out after `at` bytes.
abbrev pub fields_end : ℕ → List (ℕ × ℕ) → ℕ
fields_end at [] = at
fields_end at ((size, align) ∷ fields) = fields_end (round_up align at + size) fields

-- `size_of` for `#[repr(C, align(a))]`.
abbrev pub repr_c_size : ℕ → List (ℕ × ℕ) → ℕ
repr_c_size a fields = round_up a (fields_end 0 fields)

abbrev pub header_padding_size : ℕ
header_padding_size = 64

-- `size_of::<RingHeader>()`
abbrev pub header_size : ℕ
header_size = repr_c_size 64 (
    (8, 8)
    ∷ (8, 8)
    ∷ (8, 8)
    ∷ (8, 8)
    ∷ (8, 8)
    ∷ (8, 8)
    ∷ (8, 8)
    ∷ (8, 8)
    ∷ (8, 8)
    ∷ (8, 8)
    ∷ (4, 4)
    ∷ (header_padding_size, 1)
    ∷ [])

-- `size_of::<SlotMetadata>()`
abbrev pub metadata_size : ℕ
metadata_size = repr_c_size 64 ((4, 4) ∷ (4, 4) ∷ (8, 8) ∷ (16, 4) ∷ (8, 8) ∷ (8, 4) ∷ [])

sizes : ◌≡◌ {A = ℕ × ℕ} (header_size, metadata_size) (192, 64)
sizes = refl

-- Where `get_slot` points, before its cast to a pointer.
unfoldable pub slot_offset : ℕ → ℕ → ℕ
slot_offset slot_size idx = header_size + idx * slot_size

-- A slot size that holds the metadata and keeps the alignment of `SlotMetadata` from slot to slot.
pub record IsRoomy (slot_size : ℕ) : Type 0 where
  pub holds : metadata_size ≤ slot_size
  pub aligned : slot_size % 64 ≡ 0

pub slot_offset_aligned :
    (slot_size idx : ℕ) → slot_size % 64 ≡ 0 → slot_offset slot_size idx % 64 ≡ 0
unfolding slot_offset
slot_offset_aligned slot_size idx e =
    let multiple : slot_size ≡ slot_size / 64 * 64 = omega (arith, e) in
    let product : idx * slot_size ≡ idx * (slot_size / 64) * 64 =
      ap (λ k. idx * k) multiple ∙ sym (mul_assoc idx (slot_size / 64) 64) in
    omega (arith, product)

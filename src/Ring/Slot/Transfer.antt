-- ===== src/Ring/Slot/Transfer.antt =====
-- What a slot's methods hand over: data, its kind and its id.
use elgate.Prelude.{
  ℕ, ◌/◌, ◌%◌, ◌^◌, ◌≤◌, ◌<◌, ◌≡◌, ◌≢◌, refl, ap, ap₂, ◌∙◌, List, [], ◌∷◌, ◌++◌, Option, some,
  arith, length, take, drop, take-length-append, ok, err, le→ltb, lt→ltb, inl, inr, ◌⊎◌, dec_lt,
  ℕ_discrete,
}
use elgate.Ring.Slot.{
  UuidApi, Slot, SlotStatus, OperationKind, data_too_large, status_code, operation_code,
  decode_status, decode_operation, write_data, read_data, id, set_id, from_be_bytes, to_be_bytes,
  unwrap_or,
}

pub decode_operation-operation_code : (k : OperationKind) → decode_operation (operation_code k) ≡ k
decode_operation-operation_code k = ground arith

pub decode_status-status_code : (st : SlotStatus) → decode_status (status_code st) ≡ st
decode_status-status_code st = ground arith

-- The slot that `write_data` leaves behind.
abbrev pub filled : List ℕ → ℕ → Slot → Slot
filled bytes now s = record {
  mem = record {
    metadata = record (s.mem.metadata) {
      status_word = 2;
      size_word = length bytes;
      timestamp_word = now;
    };
    payload = bytes ++ drop (length bytes) s.mem.payload;
  };
  data_size = s.data_size;
}

pub write_data-eq-filled :
    (bytes : List ℕ) (now : ℕ) (s : Slot)
    → length bytes ≤ s.data_size
    → write_data bytes now s ≡ (ok tt, filled bytes now s)
unfolding write_data
write_data-eq-filled bytes now s h = rw (le→ltb s.data_size (length bytes) h)

-- The slot that a successful `read_data` leaves behind.
abbrev pub consumed : Slot → Slot
consumed s = record {
  mem = record { metadata = record (s.mem.metadata) { status_word = 4 }; payload = s.mem.payload };
  data_size = s.data_size;
}

pub read_data_ready :
    (s : Slot)
    → s.mem.metadata.status_word ≡ 2
    → s.mem.metadata.size_word ≤ s.data_size
    → read_data s ≡ (some (take s.mem.metadata.size_word s.mem.payload), consumed s)
unfolding read_data
read_data_ready s r h = ground arith

-- `write_data` either takes bytes that fit, after which `read_data` returns exactly these bytes and
-- marks the slot complete, or refuses bytes that do not fit and changes nothing.
pub read_data-write_data :
    (bytes : List ℕ) (now : ℕ) (s : Slot)
    → ((length bytes ≤ s.data_size)
        × ((write_data bytes now s).0 ≡ ok tt)
        × (read_data (write_data bytes now s).1 ≡ (some bytes, consumed (filled bytes now s))))
      ⊎ ((s.data_size < length bytes) × (write_data bytes now s ≡ (err data_too_large, s)))
unfolding write_data
read_data-write_data bytes now s = elim (dec_lt s.data_size (length bytes)) [
  | yes h ↦ inr (h, rw (lt→ltb s.data_size (length bytes) h))
  | no h ↦ let (a, b) = fits (omega arith) in inl (omega arith, a, b)
]
  where
    fits :
        length bytes ≤ s.data_size
        → ((write_data bytes now s).0 ≡ ok tt)
          × (read_data (write_data bytes now s).1 ≡ (some bytes, consumed (filled bytes now s)))
    fits h = rw (write_data-eq-filled bytes now s h) (
      refl,
      read_data_ready (filled bytes now s) refl h
          ∙ ap (λ b. (some b, consumed (filled bytes now s)))
              (take-length-append bytes (drop (length bytes) s.mem.payload)),
    )

-- `read_data` returns nothing and changes nothing unless the slot is ready; it marks a ready slot
-- complete, and returns its bytes if their number fits and nothing if it does not.
pub read_data_cases :
    (s : Slot)
    → ((s.mem.metadata.status_word ≢ 2) × (read_data s ≡ (Option.none, s)))
      ⊎ ((s.mem.metadata.status_word ≡ 2)
          × (s.data_size < s.mem.metadata.size_word)
          × (read_data s ≡ (Option.none, consumed s)))
      ⊎ ((s.mem.metadata.status_word ≡ 2)
          × (s.mem.metadata.size_word ≤ s.data_size)
          × (read_data s ≡ (some (take s.mem.metadata.size_word s.mem.payload), consumed s)))
unfolding read_data
read_data_cases s = elim (ℕ_discrete s.mem.metadata.status_word 2) [
  | no h ↦ inl (h, ground arith)
  | yes r ↦ elim (dec_lt s.data_size s.mem.metadata.size_word) [
    | yes h ↦ inr (inl (r, h, ground arith))
    | no h ↦ inr (inr (r, omega arith, read_data_ready s r (omega arith)))
  ]
]

-- Sixteen bytes.
pub data IsUuid : List ℕ → Type 0 where
  sixteen :
      (a b c d e f g h i j k l m n o p : ℕ)
      → (a < 256) × (b < 256) × (c < 256) × (d < 256)
      → (e < 256) × (f < 256) × (g < 256) × (h < 256)
      → (i < 256) × (j < 256) × (k < 256) × (l < 256)
      → (m < 256) × (n < 256) × (o < 256) × (p < 256)
      → IsUuid (a ∷ b ∷ c ∷ d ∷ e ∷ f ∷ g ∷ h ∷ i ∷ j ∷ k ∷ l ∷ m ∷ n ∷ o ∷ p ∷ [])

be_bytes_round :
    (a b c d : ℕ)
    → (a < 256) × (b < 256) × (c < 256) × (d < 256)
    → to_be_bytes (from_be_bytes a b c d) ≡ a ∷ b ∷ c ∷ d ∷ []
be_bytes_round a b c d h = ground (arith, first, second, third, last)
  where
    w : ℕ
    w = from_be_bytes a b c d

    first : w / 2 ^ 24 % 256 ≡ a
    first = omega arith

    second : w / 2 ^ 16 % 256 ≡ b
    second = omega arith

    third : w / 2 ^ 8 % 256 ≡ c
    third = omega arith

    last : w % 256 ≡ d
    last = omega arith

-- `id` after `set_id` is the id that was set, if the crate reads 16 bytes as the id they are.
pub id-set_id :
    ⦃uuid : UuidApi⦄ (u : List ℕ) (s : Slot)
    → IsUuid u
    → uuid.from_slice u ≡ some u
    → id (set_id u s) ≡ u
unfolding id set_id
id-set_id ⦃uuid⦄ u s (sixteen a b c d e f g h i j k l m n o p w x y z) from =
    ap (λ bytes. unwrap_or (uuid.from_slice bytes) uuid.nil)
      (ap₂ ◌++◌ (be_bytes_round a b c d w) (
        ap₂ ◌++◌ (be_bytes_round e f g h x)
          (ap₂ ◌++◌ (be_bytes_round i j k l y) (be_bytes_round m n o p z))))
    ∙ ap (λ r. unwrap_or r uuid.nil) from

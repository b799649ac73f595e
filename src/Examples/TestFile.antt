-- ===== src/Examples/TestFile.antt =====
-- The file that elgate-core/examples/end_to_end.rs sends, and the comparison with what comes of it.
use elgate.Prelude.{
  ℕ, zero, suc, ◌+◌, ◌<◌, ◌%◌, ◌≡◌, refl, ap, Bool, true, false, ◌&&◌, List, [], ◌∷◌, ◌==◌,
  if◌then◌else◌, length, arith, eq→==, ne→==, ℕ_discrete, Outcome, ok, err,
}

-- The bytes of the test file: `i % 256` for each i below the size.
unfoldable pub pattern_from : ℕ → ℕ → List ℕ
pattern_from i zero = []
pattern_from i (suc left) = (i % 256) ∷ pattern_from (i + 1) left

unfoldable pub create_test_file : ℕ → List ℕ
unfolding pattern_from
create_test_file size = pattern_from 0 size

unfoldable pub same_bytes : List ℕ → List ℕ → Bool
same_bytes [] [] = true
same_bytes [] (y ∷ ys) = false
same_bytes (x ∷ xs) [] = false
same_bytes (x ∷ xs) (y ∷ ys) = let rest = same_bytes xs ys in (x == y) && rest

-- The two lengths of the message.
pub data VerifyError : Type 0 where
  files_differ : ℕ → ℕ → VerifyError

-- `verify_files`, on what the two files hold.
unfoldable pub verify_files : List ℕ → List ℕ → Outcome VerifyError (Unit {0})
unfolding same_bytes
verify_files original copy =
    if same_bytes original copy then ok tt else err (files_differ (length original) (length copy))

length-pattern_from : (i left : ℕ) → length (pattern_from i left) ≡ left
unfolding pattern_from
length-pattern_from i zero = refl
length-pattern_from i (suc left) = ap suc (length-pattern_from (i + 1) left)

pub length-create_test_file : (size : ℕ) → length (create_test_file size) ≡ size
unfolding create_test_file
length-create_test_file size = length-pattern_from 0 size

same_bytes_refl : (xs : List ℕ) → same_bytes xs xs ≡ true
unfolding same_bytes
same_bytes_refl [] = refl
same_bytes_refl (x ∷ xs) = rw (eq→== x x refl, same_bytes_refl xs) refl

same_bytes-longer : (xs ys : List ℕ) → length ys < length xs → same_bytes xs ys ≡ false
unfolding same_bytes
same_bytes-longer [] ys h = absurd (omega arith)
same_bytes-longer (x ∷ xs) [] h = refl
same_bytes-longer (x ∷ xs) (y ∷ ys) h = elim (ℕ_discrete x y) [
  | yes e ↦ rw (eq→== x y e, same_bytes-longer xs ys (omega arith)) refl
  | no n ↦ rw (ne→== x y n) refl
]

-- A copy of the whole is found to be one.
pub verify_files-same : (xs : List ℕ) → verify_files xs xs ≡ ok tt
unfolding verify_files
verify_files-same xs = rw (same_bytes_refl xs) refl

-- A copy that is too short is found to differ.
pub verify_files-shorter :
    (original copy : List ℕ)
    → length copy < length original
    → verify_files original copy ≡ err (files_differ (length original) (length copy))
unfolding verify_files
verify_files-shorter original copy h = rw (same_bytes-longer original copy h) refl

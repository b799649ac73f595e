-- ===== src/Examples/Chunks.antt =====
-- `chunks` of a slice, as elgate-core/examples/end_to_end.rs cuts the file with it.
use elgate.Prelude.{
  ℕ, zero, suc, ◌*◌, ◌≤◌, ◌<◌, ◌≡◌, refl, ap, ◌∙◌, List, [], ◌∷◌, ◌++◌, arith, length, take, drop,
  length-drop, All,
}

-- At most `left` chunks of `k`, the last of what is left.
unfoldable pub chunks_upto : ℕ → ℕ → List ℕ → List (List ℕ)
chunks_upto zero k xs = []
chunks_upto (suc left) k [] = []
chunks_upto (suc left) k (x ∷ xs) = take k (x ∷ xs) ∷ chunks_upto left k (drop k (x ∷ xs))

-- `xs.chunks(k)`
unfoldable pub chunks : ℕ → List ℕ → List (List ℕ)
unfolding chunks_upto
chunks k xs = chunks_upto (length xs) k xs

-- The chunks one after the other.
abbrev pub joined : List (List ℕ) → List ℕ
joined [] = []
joined (c ∷ cs) = c ++ joined cs

take-append-drop : {A : Type 0} (k : ℕ) (xs : List A) → take k xs ++ drop k xs ≡ xs
take-append-drop zero xs = refl
take-append-drop (suc k) [] = refl
take-append-drop (suc k) (x ∷ xs) = ap (◌∷◌ x) (take-append-drop k xs)

pub length-take : {A : Type 0} (k : ℕ) (xs : List A) → length (take k xs) ≤ k
length-take zero xs = omega arith
length-take (suc k) [] = omega arith
length-take (suc k) (x ∷ xs) = omega (arith, length-take k xs)

pub take_all : {A : Type 0} (k : ℕ) (xs : List A) → length xs ≤ k → take k xs ≡ xs
take_all zero [] h = refl
take_all zero (x ∷ xs) h = absurd (omega arith)
take_all (suc k) [] h = refl
take_all (suc k) (x ∷ xs) h = ap (◌∷◌ x) (take_all k xs (omega arith))

joined-chunks_upto :
    (left k : ℕ) (xs : List ℕ) → 0 < k → length xs ≤ left → joined (chunks_upto left k xs) ≡ xs
unfolding chunks_upto
joined-chunks_upto zero k [] pos h = refl
joined-chunks_upto zero k (x ∷ xs) pos h = absurd (omega arith)
joined-chunks_upto (suc left) k [] pos h = refl
joined-chunks_upto (suc left) k (x ∷ xs) pos h =
    ap (λ r. take k (x ∷ xs) ++ r)
      (joined-chunks_upto left k (drop k (x ∷ xs)) pos (omega (arith, length-drop k (x ∷ xs))))
    ∙ take-append-drop k (x ∷ xs)

-- Nothing is lost, and nothing comes twice.
pub joined-chunks : (k : ℕ) (xs : List ℕ) → 0 < k → joined (chunks k xs) ≡ xs
unfolding chunks
joined-chunks k xs pos = joined-chunks_upto (length xs) k xs pos (omega arith)

few_upto :
    (left k n : ℕ) (xs : List ℕ) → 0 < k → length xs ≤ n * k → length (chunks_upto left k xs) ≤ n
unfolding chunks_upto
few_upto zero k n xs pos h = omega arith
few_upto (suc left) k n [] pos h = omega arith
few_upto (suc left) k zero (x ∷ xs) pos h = absurd (omega arith)
few_upto (suc left) k (suc n) (x ∷ xs) pos h =
    let rest = few_upto left k n (drop k (x ∷ xs)) pos (grind (arith, length-drop k (x ∷ xs))) in
    omega (arith, rest)

pub few_chunks : (k n : ℕ) (xs : List ℕ) → 0 < k → length xs ≤ n * k → length (chunks k xs) ≤ n
unfolding chunks
few_chunks k n xs pos h = few_upto (length xs) k n xs pos h

upto_pos : (left k : ℕ) (xs : List ℕ) → 0 < k → All (λ c. 0 < length c) (chunks_upto left k xs)
unfolding chunks_upto
upto_pos zero k xs pos = tt
upto_pos (suc left) k [] pos = tt
upto_pos (suc left) zero (x ∷ xs) pos = absurd (omega arith)
upto_pos (suc left) (suc k) (x ∷ xs) pos = (omega arith, upto_pos left (suc k) (drop k xs) pos)

-- No chunk is empty.
pub chunks_pos : (k : ℕ) (xs : List ℕ) → 0 < k → All (λ c. 0 < length c) (chunks k xs)
unfolding chunks
chunks_pos k xs pos = upto_pos (length xs) k xs pos

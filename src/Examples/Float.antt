-- ===== src/Examples/Float.antt =====
-- The f64 arithmetic of elgate-core/examples/latency_profile.rs: a float that is not negative is
-- its 53-bit mantissa times a power of two, here a number on a fixed binary scale, and each
-- operation rounds to the nearest such number, ties to even.
use elgate.Prelude.{
  ℕ, zero, suc, ◌+◌, refl, inl, inr, ◌⊎◌, true, false, ltb→le, ◌*◌, ◌/◌, ◌%◌, ◌^◌, ◌≤◌, ◌<◌, ◌≡◌,
  arith, Bool, ltb, ◌==◌, ◌&&◌, ◌||◌, if◌then◌else◌,
}
use native.Mathlib.Nat.{
  mod-add-div', mod-lt, add-mul, two-pow-succ, div-mul-le_self, mul-le-mul_right, mul-le-mul_left,
}

-- The bits that a number has too many: `s` or the next with a mantissa below 2^53.
unfoldable pub excess : ℕ → ℕ → ℕ → ℕ
excess zero s p = s
excess (suc left) s p =
    let next = excess left (suc s) p in if ltb (p / 2 ^ s) (2 ^ 53) then s else next

-- The nearest multiple of `u`, the even one of two.
unfoldable pub nearest : ℕ → ℕ → ℕ
nearest u p =
    if ltb u (2 * (p % u)) || (2 * (p % u) == u && (p / u) % 2 == 1)
    then (p / u + 1) * u
    else p / u * u

-- A number below 2^117 has at most 64 bits too many.
unfoldable pub round : ℕ → ℕ
unfolding excess nearest
round p = nearest (2 ^ excess 64 0 p) p

-- `(len as f64 * c) as usize`, with c = m / 2^53.
unfoldable pub scaled_index : ℕ → ℕ → ℕ
unfolding round
scaled_index m len = round (round len * m) / 2 ^ 53

-- No bit too many, or a number of 53 bits at least.
abbrev IsFit : ℕ → ℕ → ℕ → Type 0
IsFit s p r = (r ≡ s) ⊎ (2 ^ 52 * 2 ^ r ≤ p)

IsFit-next :
    (s p r : ℕ) (b : Bool)
    → ltb (p / 2 ^ s) (2 ^ 53) ≡ b
    → IsFit (suc s) p r
    → IsFit s p (if b then s else r)
IsFit-next s p r true _ _ = inl refl
IsFit-next s p r false large (inr more) = inr more
IsFit-next s p r false large (inl same) = inr (
    rw (same, two-pow-succ s)
      (omega (arith, div-mul-le_self p (2 ^ s), ltb→le (p / 2 ^ s) (2 ^ 53) large, mul_mono)))
  where
    mul_mono : 2 ^ 53 * 2 ^ s ≤ p / 2 ^ s * 2 ^ s
    mul_mono = mul-le-mul_right (2 ^ s) (ltb→le (p / 2 ^ s) (2 ^ 53) large)

excess-IsFit : (left s p : ℕ) → IsFit s p (excess left s p)
unfolding excess
excess-IsFit zero s p = inl refl
excess-IsFit (suc left) s p =
    IsFit-next s p (excess left (suc s) p) (ltb (p / 2 ^ s) (2 ^ 53)) refl
      (excess-IsFit left (suc s) p)

-- A rounded number is less than a unit away.
nearest_close : (u p : ℕ) → 0 < u → (nearest u p < p + u) × (p < nearest u p + u)
unfolding nearest
nearest_close u p pos = ground (arith, mod-add-div' p u, mod-lt p pos, add-mul (p / u) 1 u)

pow_pos : (r : ℕ) → 0 < 2 ^ r
pow_pos zero = omega arith
pow_pos (suc r) = rw (two-pow-succ r) (omega (arith, pow_pos r))

-- Rounding changes a number by one part in 2^52 at most.
round_close : (p : ℕ) → (2 ^ 52 * round p ≤ (2 ^ 52 + 1) * p) × (2 ^ 52 * p ≤ 2 ^ 52 * round p + p)
unfolding round
round_close p = close (excess 64 0 p) (excess-IsFit 64 0 p)
  where
    close :
        (r : ℕ)
        → IsFit 0 p r
        → let q = nearest (2 ^ r) p in
          (2 ^ 52 * q ≤ (2 ^ 52 + 1) * p) × (2 ^ 52 * p ≤ 2 ^ 52 * q + p)
    close r (inl same) =
        let (up, down) = nearest_close (2 ^ 0) p (omega arith) in rw same (omega arith, omega arith)
    close r (inr more) =
        let (up, down) = nearest_close (2 ^ r) p (pow_pos r) in (omega arith, omega arith)

-- An index below a fraction of the length, with m / 2^53 at most 0.99, is in range.
pub scaled_index-lt : (m len : ℕ) → 0 < len → m ≤ 8_917_127_262_193_582 → scaled_index m len < len
unfolding scaled_index
scaled_index-lt m len pos h =
    let up = (round_close len).0 in
    let up' = (round_close (round len * m)).0 in
    let most = mul-le-mul_left (round len) h in
    let below : round (round len * m) < len * 2 ^ 53 = omega arith in omega (arith, below)

-- Where one fraction is below 0.99 of the other, so are the indices in order.
pub scaled_index_mono : (a b len : ℕ) → 100 * a ≤ 99 * b → scaled_index a len ≤ scaled_index b len
unfolding scaled_index
scaled_index_mono a b len h =
    let up = (round_close (round len * a)).0 in
    let down = (round_close (round len * b)).1 in
    let below : round (round len * a) ≤ round (round len * b) =
      let distribute = mul-le-mul_left (round len) h in omega (arith) in
    omega (arith, below)

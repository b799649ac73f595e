-- ===== src/Examples/Histogram/Bars.antt =====
-- The rows that the histogram of elgate-core/examples/latency_profile.rs prints.
use native.Mathlib.Nat.{
  mul-div_left, div-le_of_le-mul, mul_comm, zero-div, le-div_iff_mul-le, div-mul-le_self,
}
use elgate.Prelude.{
  ℕ, suc, ◌*◌, ◌/◌, ◌≤◌, ◌<◌, ◌≡◌, refl, ap, ◌∙◌, sym, subst, List, [], ◌∷◌, length, map, leb, All,
  arith, ok, lt→ltb, ne→==, if◌then◌else◌,
}
use elgate.Examples.Histogram.{
  Histogram, Row, width, i32_limit, micros_of, max_count, bar_of, rows, print_histogram,
}
use elgate.Examples.Histogram.Counts.{Counts, IsKeyed, total, count_all-Counts}

abbrev pub entries : List Row → Histogram
entries = map (λ r. (r.bucket, r.count))

-- The longest bar.
unfoldable pub longest : List Row → ℕ
longest [] = 0
longest (r ∷ rs) = let later = longest rs in if leb r.bar_length later then later else r.bar_length

bar_of_lem :
    (most c : ℕ)
    → 0 < most
    → c ≤ most
    → most * width < i32_limit
    → (bar_of most c ≡ ok (c * width / most)) × (c * width / most ≤ width)
unfolding bar_of
bar_of_lem most c pos le small = (
  rw (lt→ltb (c * width) i32_limit (omega arith), ne→== most 0 (λ e. absurd (omega (arith, e))))
      refl,
  div-le_of_le-mul most (omega arith),
)

scale_mono : (most : ℕ) {a b : ℕ} → 0 < most → a ≤ b → a * width / most ≤ b * width / most
scale_mono most {a} {b} pos h =
    (le-div_iff_mul-le pos).1 (omega (arith, div-mul-le_self (a * width) most, h))

-- Division keeps the greater of two numbers.
longer_div :
    (most a b : ℕ)
    → 0 < most
    → (if leb (a * width / most) (b * width / most) then b * width / most else a * width / most)
      ≡ (if leb a b then b else a) * width / most
longer_div most a b pos =
    ground (arith, λ (h : a ≤ b). scale_mono most pos h, λ (h : b ≤ a). scale_mono most pos h)

record IsDrawn (most : ℕ) (h : Histogram) (rs : List Row) : Type 0 where
  same : entries rs ≡ h
  bounded : All (λ r. r.bar_length ≤ width) rs
  longest : longest rs ≡ max_count h * width / most

rows-IsDrawn :
    (most : ℕ) (h : Histogram)
    → 0 < most
    → max_count h ≤ most
    → most * width < i32_limit
    → (rs : List Row) × (rows most h ≡ ok rs) × IsDrawn most h rs
unfolding rows max_count longest
rows-IsDrawn most [] pos le small =
    ([], refl, record { same = refl; bounded = tt; longest = sym (zero-div most) })
rows-IsDrawn most ((k, c) ∷ rest) pos le small =
    let here : c ≤ most = ground arith in
    let others : max_count rest ≤ most = ground arith in
    let (drawn, le50) = bar_of_lem most c pos here small in
    let (rs, e, d) = rows-IsDrawn most rest pos others small in
    (
      record { bucket = k; count = c; bar_length = c * width / most } ∷ rs,
      rw (drawn, e) refl,
      record {
        same = ap (◌∷◌ (k, c)) d.same;
        bounded = (le50, d.bounded);
        longest = rw d.longest (longer_div most c (max_count rest) pos);
      },
    )

-- What the rows show of the samples, in microseconds: a row for each bucket that a sample falls
-- into, in the order of the buckets, with the number of these samples, and bars of which the
-- longest takes the width.
pub record Shows (samples : List ℕ) (rs : List Row) : Type 0 where
  pub counts : Counts samples (entries rs)
  pub bounded : All (λ r. r.bar_length ≤ width) rs
  pub longest : longest rs ≡ width

max_count_pos : (h : Histogram) (low : ℕ) → 0 < total h → IsKeyed low h → 0 < max_count h
unfolding total max_count
max_count_pos [] low pos u = absurd (omega arith)
max_count_pos ((k, c) ∷ rest) low pos u = ground arith

max_count-le-total : (h : Histogram) → max_count h ≤ total h
unfolding total max_count
max_count-le-total [] = omega arith
max_count-le-total ((k, c) ∷ rest) = ground (arith, max_count-le-total rest)

length-map_micros : (samples : List ℕ) → length (map micros_of samples) ≡ length samples
length-map_micros [] = refl
length-map_micros (d ∷ ds) = ap suc (length-map_micros ds)

-- Of samples, one at least and so few that fifty times their number fits an i32, print_histogram
-- makes rows in ascending order of their buckets that count each sample once, in the bucket of its
-- microseconds; no bar is longer than fifty, and the longest has fifty.
pub print_histogram-Shows :
    (samples : List ℕ)
    → 0 < length samples
    → length samples * width < i32_limit
    → (rs : List Row) × (print_histogram samples ≡ ok rs) × Shows (map micros_of samples) rs
unfolding print_histogram
print_histogram-Shows samples pos small =
    let n = length-map_micros samples in
    let (h, counted, c) = count_all-Counts (map micros_of samples) (omega arith) in
    let most = max_count_pos h 0 (omega (arith, c.all)) c.keyed in
    let least = max_count-le-total h in
    let (rs, e, d) = rows-IsDrawn (max_count h) h most (omega arith) (omega (arith, c.all)) in
    (
      rs,
      rw counted e,
      record {
        counts = subst (Counts (map micros_of samples)) (sym d.same) c;
        bounded = d.bounded;
        longest =
            d.longest
            ∙ ap (λ t. t / max_count h) (mul_comm (max_count h) width)
            ∙ mul-div_left width most;
      },
    )

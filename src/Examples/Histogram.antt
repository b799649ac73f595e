-- ===== src/Examples/Histogram.antt =====
-- elgate-core/examples/latency_profile.rs: `print_histogram`. The tree map is the list of its
-- entries by key, the counts and the width are `i32`, and what is printed is the list of the rows,
-- each with the number of `#` in its bar. The least and the greatest latency that the loop keeps
-- are not used.
pub mod Counts
pub mod Bars
use elgate.Prelude.{
  ℕ, ◌+◌, ◌*◌, ◌/◌, ◌%◌, ◌^◌, List, [], ◌∷◌, map, ltb, leb, ◌==◌, if◌then◌else◌, Outcome, ok, panic,
  ◌>>=◌, checked_div, Infallible,
}

abbrev pub i32_limit : ℕ
i32_limit = 2 ^ 31

abbrev pub width : ℕ
width = 50

-- `d.as_micros() as u64`
abbrev pub micros_of : ℕ → ℕ
micros_of d = d / 1000 % 2 ^ 64

-- The logarithmic bucket of a number of microseconds.
unfoldable pub bucket_of : ℕ → ℕ
bucket_of us =
    if ltb us 10
    then us
    else if ltb us 100
    then us / 10 * 10
    else if ltb us 1000
    then us / 100 * 100
    else if ltb us 10000
    then us / 1000 * 1000
    else us / 10000 * 10000

abbrev pub Histogram : Type 0
Histogram = List (ℕ × ℕ)

-- `count + 1` on `i32`
abbrev pub add_one : ℕ → Outcome Infallible ℕ
add_one c = if ltb (c + 1) i32_limit then ok (c + 1) else panic

-- `*histogram.entry(bucket).or_insert(0) += 1`
unfoldable pub bump : ℕ → Histogram → Outcome Infallible Histogram
bump b [] = ok ((b, 1) ∷ [])
bump b ((k, c) ∷ rest) =
    let later = bump b rest in
    if ltb b k
    then ok ((b, 1) ∷ (k, c) ∷ rest)
    else if b == k
    then (do more ← add_one c; ok ((k, more) ∷ rest))
    else (do more ← later; ok ((k, c) ∷ more))

-- The loop over the samples.
unfoldable pub count_all : List ℕ → Histogram → Outcome Infallible Histogram
unfolding bump bucket_of
count_all [] h = ok h
count_all (us ∷ more) h = do h' ← bump (bucket_of us) h; count_all more h'

-- `histogram.values().cloned().max().unwrap_or(0)`
unfoldable pub max_count : Histogram → ℕ
max_count [] = 0
max_count ((k, c) ∷ rest) = let later = max_count rest in if leb c later then later else c

pub record Row : Type 0 where
  pub bucket : ℕ
  pub count : ℕ
  pub bar_length : ℕ

-- `(count * width) / max_count`
unfoldable pub bar_of : ℕ → ℕ → Outcome Infallible ℕ
bar_of most c = if ltb (c * width) i32_limit then checked_div (c * width) most else panic

unfoldable pub rows : ℕ → Histogram → Outcome Infallible (List Row)
unfolding bar_of
rows most [] = ok []
rows most ((k, c) ∷ rest) = do
  bar ← bar_of most c
  later ← rows most rest
  ok (record { bucket = k; count = c; bar_length = bar } ∷ later)

-- No samples give no row.
unfoldable pub print_histogram : List ℕ → Outcome Infallible (List Row)
unfolding count_all max_count rows
print_histogram samples = do h ← count_all (map micros_of samples) []; rows (max_count h) h

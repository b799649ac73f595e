-- ===== src/Examples/Latency.antt =====
-- elgate-core/examples/latency_profile.rs: the statistics of the measured latencies. A `Duration`
-- is its number of nanoseconds, below 2^64 seconds.
pub mod Order
pub mod Summary
use elgate.Prelude.{
  ℕ, suc, ◌+◌, ◌-◌, ◌*◌, ◌/◌, ◌%◌, ◌^◌, List, [], ◌∷◌, length, get_elem?, ltb, leb, ◌==◌,
  if◌then◌else◌, Outcome, ok, panic, ◌>>=◌, checked_sub, unwrap, Infallible,
}
use elgate.Examples.Float.{scaled_index}

pub record LatencyStats : Type 0 where
  pub min : ℕ
  pub max : ℕ
  pub total : ℕ
  pub count : ℕ
  pub p50 : ℕ
  pub p90 : ℕ
  pub p99 : ℕ

-- Where `x` goes in an ascending list.
unfoldable pub insert : ℕ → List ℕ → List ℕ
insert x [] = x ∷ []
insert x (y ∷ ys) = let rest = insert x ys in if leb x y then x ∷ y ∷ ys else y ∷ rest

-- `sorted.sort()`
unfoldable pub sort : List ℕ → List ℕ
unfolding insert
sort [] = []
sort (x ∷ xs) = insert x (sort xs)

-- A second past the longest duration, in nanoseconds.
abbrev pub duration_limit : ℕ
duration_limit = 2 ^ 64 * 1_000_000_000

-- `sorted.iter().sum()`, which panics when the seconds overflow.
unfoldable pub sum_from : ℕ → List ℕ → Outcome Infallible ℕ
sum_from total [] = ok total
sum_from total (d ∷ ds) =
    let rest = sum_from (total + d) ds in if ltb (total + d) duration_limit then rest else panic

-- 0.5, 0.9 and 0.99 as f64, in units of 2^-53.
abbrev pub half : ℕ
half = 4_503_599_627_370_496

abbrev pub nine_tenths : ℕ
nine_tenths = 8_106_479_329_266_893

abbrev pub most_of_all : ℕ
most_of_all = 8_917_127_262_193_582

-- `new` from the sorted samples on.
unfoldable pub summarize : List ℕ → ℕ → Outcome Infallible LatencyStats
unfolding sum_from scaled_index
summarize sorted count = do
  first ← unwrap (get_elem? sorted 0)
  end ← checked_sub (length sorted) 1
  last ← unwrap (get_elem? sorted end)
  total ← sum_from 0 sorted
  p50 ← unwrap (get_elem? sorted (scaled_index half (length sorted)))
  p90 ← unwrap (get_elem? sorted (scaled_index nine_tenths (length sorted)))
  p99 ← unwrap (get_elem? sorted (scaled_index most_of_all (length sorted)))
  ok (record {
    min = first;
    max = last;
    total = total;
    count = count;
    p50 = p50;
    p90 = p90;
    p99 = p99;
  })

unfoldable pub new : List ℕ → Outcome Infallible LatencyStats
unfolding sort summarize
new [] = ok (record { min = 0; max = 0; total = 0; count = 0; p50 = 0; p90 = 0; p99 = 0 })
new (x ∷ xs) = summarize (sort (x ∷ xs)) (length (x ∷ xs))

-- `(total.as_nanos() / count as u128) as u64`, and no duration where there is no sample.
unfoldable pub average : LatencyStats → ℕ
average s = if s.count == 0 then 0 else s.total / s.count % 2 ^ 64

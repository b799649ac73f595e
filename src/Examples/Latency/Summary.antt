-- ===== src/Examples/Latency/Summary.antt =====
-- What the statistics of elgate-core/examples/latency_profile.rs say of the samples.
use mathlib.Core.List.{Mem, Perm, mem-cons_self, mem-cons_of_mem, not-mem-nil, forall_mem-cons}
use mathlib.Core.List.Perm
use native.Mathlib.Nat.{le-div_iff_mul-le, mod-eq_of_lt, div-le_of_le-mul, mul_comm, zero-add}
use elgate.Prelude.{
  ℕ, ◌%◌, All, suc, ◌+◌, ◌-◌, ◌*◌, ◌/◌, ◌^◌, ◌≤◌, ◌<◌, ◌≡◌, refl, sym, ◌∙◌, ap, List, [], ◌∷◌, some,
  length, get_elem?, get_elem?-some, checked_sub-le, Infallible, lt→ltb, arith, ok, ne→==,
}
use elgate.Examples.Float.{scaled_index-lt, scaled_index_mono, scaled_index}
use elgate.Examples.Latency.{
  LatencyStats, summarize, insert, sort, sum_from, duration_limit, new, average, half, nine_tenths,
  most_of_all,
}
use elgate.Examples.Latency.Order.{
  IsAscending, sort-perm, sort-IsAscending, length-sort, get_elem?-Mem, get_elem?_mono, first_least,
  last_greatest, le_is_prop,
}

-- The sum of the samples.
abbrev pub total_of : List ℕ → ℕ
total_of [] = 0
total_of (x ∷ xs) = x + total_of xs

sum_from-total_of :
    (t : ℕ) (l : List ℕ) → t + total_of l < duration_limit → sum_from t l ≡ ok (t + total_of l)
unfolding sum_from
sum_from-total_of t [] h = ap ok (omega arith)
sum_from-total_of t (x ∷ xs) h =
    let fits : t + x < duration_limit = omega arith in
    let rest = sum_from-total_of (t + x) xs (omega arith) in
    rw (lt→ltb (t + x) duration_limit fits, rest) (ap ok (omega arith))

total_of-insert : (x : ℕ) (l : List ℕ) → total_of (insert x l) ≡ x + total_of l
unfolding insert
total_of-insert x [] = refl
total_of-insert x (y ∷ ys) = ground (arith, total_of-insert x ys)

total_of-sort : (l : List ℕ) → total_of (sort l) ≡ total_of l
unfolding sort
total_of-sort [] = refl
total_of-sort (x ∷ xs) = let ih = total_of-sort xs in total_of-insert x (sort xs) ∙ omega arith

-- Where each member lies between two bounds, so does the mean.
total_of-between :
    (low high : ℕ) (l : List ℕ)
    → ((x : ℕ) → Mem x l → (low ≤ x) × (x ≤ high))
    → (low * length l ≤ total_of l) × (total_of l ≤ high * length l)
total_of-between low high [] h = (omega arith, omega arith)
total_of-between low high (x ∷ xs) h =
    let ih = total_of-between low high xs (λ y m. h y (mem-cons_of_mem x m)) in
    let here = h x mem-cons_self in (omega arith, omega arith)

-- What `new` returns for samples: each statistic is a sample, they do not fall, and every sample
-- lies between the least and the greatest, as their mean does.
pub record IsSummary (samples : List ℕ) (s : LatencyStats) : Type 0 where
  pub total : s.total ≡ total_of samples
  pub count : s.count ≡ length samples
  pub between : (x : ℕ) → Mem x samples → (s.min ≤ x) × (x ≤ s.max)
  pub p50_measured : Mem s.p50 samples
  pub p90_measured : Mem s.p90 samples
  pub p99_measured : Mem s.p99 samples
  pub ordered : (s.p50 ≤ s.p90) × (s.p90 ≤ s.p99)
  pub mean : (s.min ≤ average s) × (average s ≤ s.max)

All-Mem : (l : List ℕ) {k : ℕ} → All (λ d. d < k) l → (y : ℕ) → Mem y l → y < k
All-Mem [] a = λ y m. absurd (not-mem-nil m)
All-Mem (x ∷ xs) {k} (h, a) = (forall_mem-cons (λ z. le_is_prop (suc z) k)).1 (h, All-Mem xs a)

mean-between :
    (low high total n : ℕ)
    → 0 < n
    → low * n ≤ total
    → total ≤ high * n
    → high < 2 ^ 64
    → (low ≤ total / n % 2 ^ 64) × (total / n % 2 ^ 64 ≤ high)
mean-between low high total n pos below above small =
    let most : total / n ≤ high = div-le_of_le-mul n (rw (mul_comm n high) above) in
    let least = (le-div_iff_mul-le pos).1 below in
    let lt : total / n < 2 ^ 64 = omega arith in rw (mod-eq_of_lt lt) (least, most)

module _ (sorted : List ℕ) (n : ℕ) (long : length sorted ≡ suc n) where
  abbrev index : ℕ → ℕ
  index m = scaled_index m (length sorted)

  -- Where the statistics stand in the sorted samples.
  record IsPlaced (s : LatencyStats) : Type 0 where
    least : get_elem? sorted 0 ≡ some s.min
    most : get_elem? sorted n ≡ some s.max
    sum : s.total ≡ total_of sorted
    counted : s.count ≡ suc n
    half_way : get_elem? sorted (index half) ≡ some s.p50
    higher : get_elem? sorted (index nine_tenths) ≡ some s.p90
    highest : get_elem? sorted (index most_of_all) ≡ some s.p99

  index-some : (m : ℕ) → m ≤ most_of_all → (a : ℕ) × (get_elem? sorted (index m) ≡ some a)
  index-some m le =
      get_elem?-some sorted (index m) (scaled_index-lt m (length sorted) (omega arith) le)

  summarize-at :
      (first last p50 p90 p99 : ℕ)
      → total_of sorted < duration_limit
      → get_elem? sorted 0 ≡ some first
      → get_elem? sorted n ≡ some last
      → get_elem? sorted (index half) ≡ some p50
      → get_elem? sorted (index nine_tenths) ≡ some p90
      → get_elem? sorted (index most_of_all) ≡ some p99
      → (s : LatencyStats) × (summarize sorted (suc n) ≡ ok s) × IsPlaced s
  unfolding summarize
  summarize-at first last p50 p90 p99 fits e0 e1 e2 e3 e4 =
      let last_index : length sorted - 1 ≡ n = omega arith in
      (
        record {
          min = first;
          max = last;
          total = total_of sorted;
          count = suc n;
          p50 = p50;
          p90 = p90;
          p99 = p99;
        },
        rw
            (
              e0,
              checked_sub-le {E = Infallible} (length sorted) 1 (omega arith),
              last_index,
              e1,
              sum_from-total_of 0 sorted (omega (arith, fits)),
              zero-add (total_of sorted),
              e2,
              e3,
              e4,
            )
            refl,
        record {
          least = e0;
          most = e1;
          sum = refl;
          counted = refl;
          half_way = e2;
          higher = e3;
          highest = e4;
        },
      )

  summarize-IsPlaced :
      total_of sorted < duration_limit
      → (s : LatencyStats) × (summarize sorted (suc n) ≡ ok s) × IsPlaced s
  summarize-IsPlaced fits =
      let (first, is_first) = get_elem?-some sorted 0 (omega arith) in
      let (last, is_last) = get_elem?-some sorted n (omega arith) in
      let (p50, is_p50) = index-some half (omega arith) in
      let (p90, is_p90) = index-some nine_tenths (omega arith) in
      let (p99, is_p99) = index-some most_of_all (omega arith) in
      summarize-at first last p50 p90 p99 fits is_first is_last is_p50 is_p90 is_p99

  IsPlaced→IsSummary :
      {samples : List ℕ} {s : LatencyStats}
      → IsAscending sorted
      → Perm sorted samples
      → length samples ≡ suc n
      → total_of sorted ≡ total_of samples
      → All (λ d. d < 2 ^ 64) samples
      → IsPlaced s
      → IsSummary samples s
  unfolding average
  IsPlaced→IsSummary {samples} {s} up perm same sum small p =
      let back : (y : ℕ) → Mem y sorted → Mem y samples = λ y. (Perm.mem_iff perm).0 in
      let between : (y : ℕ) → Mem y samples → (s.min ≤ y) × (y ≤ s.max) = λ y m.
        let there = (Perm.mem_iff perm).1 m in
        (first_least sorted up p.least y there, last_greatest sorted n up long p.most y there) in
      let (least, most) = total_of-between s.min s.max samples between in
      let last_small = All-Mem samples small s.max (back _ (get_elem?-Mem sorted n p.most)) in
      record {
        total = p.sum ∙ sum;
        count = p.counted ∙ sym same;
        between = between;
        p50_measured = back _ (get_elem?-Mem sorted _ p.half_way);
        p90_measured = back _ (get_elem?-Mem sorted _ p.higher);
        p99_measured = back _ (get_elem?-Mem sorted _ p.highest);
        ordered = (
          get_elem?_mono sorted _ _ up (scaled_index_mono half nine_tenths _ (omega arith))
              p.half_way p.higher,
          get_elem?_mono sorted _ _ up (scaled_index_mono nine_tenths most_of_all _ (omega arith))
              p.higher p.highest,
        );
        mean =
            rw (p.counted, p.sum ∙ sum, ne→== (suc n) 0 (λ e. absurd (omega (arith, e))))
              (mean-between s.min s.max (total_of samples) (suc n) (omega arith) (rw same at least)
                (rw same at most) last_small);
      }

-- Of samples, one at least, that last less than 2^64 nanoseconds each and less than 2^64 seconds
-- together, LatencyStats::new returns statistics, with no index out of range: count and total are
-- those of the samples, each percentile is a sample, p50, p90 and p99 do not fall, and every
-- sample lies between min and max, as the average does.
pub new-IsSummary :
    (samples : List ℕ)
    → 0 < length samples
    → All (λ d. d < 2 ^ 64) samples
    → total_of samples < duration_limit
    → (s : LatencyStats) × (new samples ≡ ok s) × IsSummary samples s
unfolding new
new-IsSummary [] pos small fits = absurd (omega arith)
new-IsSummary (x ∷ xs) pos small fits =
    let long = length-sort (x ∷ xs) in
    let sum = total_of-sort (x ∷ xs) in
    let (s, made, p) = summarize-IsPlaced (sort (x ∷ xs)) (length xs) long (omega arith) in
    (
      s,
      made,
      IsPlaced→IsSummary (sort (x ∷ xs)) (length xs) long (sort-IsAscending (x ∷ xs))
          (sort-perm (x ∷ xs)) refl sum small p,
    )

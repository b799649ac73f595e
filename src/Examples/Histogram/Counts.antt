-- ===== src/Examples/Histogram/Counts.antt =====
-- What the entries of the histogram of elgate-core/examples/latency_profile.rs count.
use elgate.Prelude.{
  ℕ, suc, ◌+◌, ◌*◌, ◌≤◌, ◌<◌, ◌≡◌, ◌≢◌, refl, List, [], ◌∷◌, length, ltb, ◌==◌, if◌then◌else◌,
  arith, ok, Bool-cases, inl, inr, lt→ltb, ltb→lt, ltb→le,
}
use elgate.Examples.Histogram.{Histogram, bucket_of, bump, count_all, i32_limit}

-- What an entry counts, all in all and for one bucket.
unfoldable pub total : Histogram → ℕ
total [] = 0
total ((k, c) ∷ rest) = c + total rest

abbrev pub one_if : ℕ → ℕ → ℕ → ℕ
one_if b k n = if b == k then n else 0

unfoldable pub count_at : ℕ → Histogram → ℕ
count_at b [] = 0
count_at b ((k, c) ∷ rest) = one_if b k c + count_at b rest

-- The samples that fall into a bucket.
unfoldable pub falling : ℕ → List ℕ → ℕ
falling b [] = 0
falling b (us ∷ more) = one_if b (bucket_of us) 1 + falling b more

-- The keys ascend, and each entry counts something.
abbrev pub IsKeyed : ℕ → Histogram → Type 0
IsKeyed low [] = Unit
IsKeyed low ((k, c) ∷ rest) = (low ≤ k) × (0 < c) × IsKeyed (suc k) rest

record IsBumped (b : ℕ) (h h' : Histogram) : Type 0 where
  more : total h' ≡ suc (total h)
  here : (k : ℕ) → count_at k h' ≡ one_if k b 1 + count_at k h
  keyed : (low : ℕ) → low ≤ b → IsKeyed low h → IsKeyed low h'

one_if-suc : (i k c r : ℕ) → one_if i k (c + 1) + r ≡ one_if i k 1 + (one_if i k c + r)
one_if-suc i k c r = ground arith

bump-IsBumped :
    (b : ℕ) (h : Histogram)
    → suc (total h) < i32_limit
    → (h' : Histogram) × (bump b h ≡ ok h') × IsBumped b h h'
unfolding bump total count_at
bump-IsBumped b [] small = (
  (b, 1) ∷ [],
  refl,
  record { more = refl; here = λ k. refl; keyed = λ low le u. (le, omega arith, tt) },
)
bump-IsBumped b ((k, c) ∷ rest) small = elim (Bool-cases (ltb b k)) [
  | inl below ↦ (
    (b, 1) ∷ (k, c) ∷ rest,
    rw below refl,
    record {
      more = omega arith;
      here = λ i. refl;
      keyed = λ low le u. (le, omega arith, (let lt = ltb→lt b k below in omega arith, u.1, u.2));
    },
  )
  | inr above ↦ elim (Bool-cases (b == k)) [
    | inl same ↦
        let eq : b ≡ k = ground arith in
        let ge = ltb→le b k above in
        (
          (k, c + 1) ∷ rest,
          rw (above, same, lt→ltb (c + 1) i32_limit (omega arith)) refl,
          record {
            more = omega arith;
            here = λ i. rw eq (one_if-suc i k c (count_at i rest));
            keyed = λ low le u. (u.0, omega arith, u.2);
          },
        )
    | inr other ↦
        let (h', e, p) = bump-IsBumped b rest (omega arith) in
        (
          (k, c) ∷ h',
          rw (above, other, e) refl,
          record {
            more = omega (arith, p.more);
            here = λ i. let there = p.here i in omega (arith, there);
            keyed = λ low le u. (
              u.0,
              u.1,
              p.keyed (suc k)
                  (let ge = ltb→le b k above in let ne : b ≢ k = ground arith in omega (arith, ne))
                  u.2,
            );
          },
        )
  ]
]

-- The entries count each sample once, in its bucket.
pub record Counts (samples : List ℕ) (h : Histogram) : Type 0 where
  pub all : total h ≡ length samples
  pub each : (b : ℕ) → count_at b h ≡ falling b samples
  pub keyed : IsKeyed 0 h

count_all_on :
    (samples : List ℕ) (h : Histogram)
    → length samples + total h < i32_limit
    → IsKeyed 0 h
    → (h' : Histogram) × (count_all samples h ≡ ok h')
      × (total h' ≡ length samples + total h)
      × ((b : ℕ) → count_at b h' ≡ falling b samples + count_at b h)
      × IsKeyed 0 h'
unfolding count_all falling
count_all_on [] h small u = (h, refl, omega arith, (λ b. omega arith), u)
count_all_on (us ∷ more) h small u =
    let (h1, e, p) = bump-IsBumped (bucket_of us) h (omega arith) in
    let (h2, e', sum, each, u') =
      count_all_on more h1 (omega (arith, p.more)) (p.keyed 0 (omega arith) u) in
    (
      h2,
      rw e e',
      omega (arith, sum, p.more),
      (λ b. let one = p.here b in let others = each b in omega (arith, one, others)),
      u',
    )

pub count_all-Counts :
    (samples : List ℕ)
    → length samples < i32_limit
    → (h : Histogram) × (count_all samples [] ≡ ok h) × Counts samples h
unfolding total count_at
count_all-Counts samples small =
    let (h, e, sum, each, u) = count_all_on samples [] (omega arith) tt in
    (
      h,
      e,
      record {
        all = omega (arith, sum);
        each = λ b. (let here = each b in omega (arith, here));
        keyed = u;
      },
    )

-- A bucket holds the numbers from itself on to less than twice as many.
pub bucket_of-near :
    (us : ℕ)
    → (bucket_of us ≤ us) × (us < 2 * bucket_of us + 1) × (bucket_of (bucket_of us) ≡ bucket_of us)
unfolding bucket_of
bucket_of-near us = ground arith

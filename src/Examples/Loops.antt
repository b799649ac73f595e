-- ===== src/Examples/Loops.antt =====
-- The loops of the programs of elgate-core/examples, round by round.
use elgate.Prelude.{
  ℕ, zero, suc, ◌+◌, ◌≤◌, ◌<◌, ◌≡◌, refl, List, [], ◌∷◌, arith, ap, ok, err, panic, Outcome,
  ℕ_discrete, sym, subst,
}
use elgate.Net.IoUring.{State}
use elgate.Examples.Process.{Process, ExampleError, and_then, or_panic, unwrapped, for_range}

-- What rounds give, and the sum of it, from the round `i` on.
abbrev pub values : {A : Type 0} → (ℕ → A) → ℕ → ℕ → List A
values f i zero = []
values f i (suc rounds) = f i ∷ values f (i + 1) rounds

abbrev pub sum : (ℕ → ℕ) → ℕ → ℕ → ℕ
sum f i zero = 0
sum f i (suc rounds) = f i + sum f (i + 1) rounds

-- Rounds that succeed and keep an invariant.
pub for_range_lem :
    {A : Type 0} (I : State → Type 0) (body : ℕ → Process A) (value : ℕ → A)
    → ((i : ℕ) (s : State) → I s → (s' : State) × (body i s ≡ (ok (value i), s')) × I s')
    → (rounds i : ℕ) (s : State) → I s
    → (s' : State) × (for_range i rounds body s ≡ (ok (values value i rounds), s')) × I s'
unfolding for_range
for_range_lem I body value round zero i s h = (s, refl, h)
for_range_lem I body value round (suc rounds) i s h =
    let (s1, went, h1) = round i s h in
    let (s2, rest, h2) = for_range_lem I body value round rounds (i + 1) s1 h1 in
    (s2, rw (went, rest) refl, h2)

-- `unwrap` of a call that returns, and of one that fails.
pub or_panic_ok :
    {A : Type 0} (call : Process A) (a : A) (s s' : State)
    → call s ≡ (ok a, s')
    → or_panic call s ≡ (ok a, s')
or_panic_ok call a s s' e = ap (λ d. (unwrapped d.0, d.1)) e

pub or_panic_err :
    {A : Type 0} (call : Process A) (e : ExampleError) (s s' : State)
    → call s ≡ (err e, s')
    → (or_panic call s).0 ≡ panic
or_panic_err call e s s' failed = ap (λ d. unwrapped d.0) failed

pub and_then_panic :
    {A B : Type 0} (d : Outcome ExampleError A × State) (f : A → Process B)
    → d.0 ≡ panic
    → (and_then d f).0 ≡ panic
and_then_panic (o, s) f e = rw e

-- Rounds of which those below `k` succeed, up to the first that does not.
module _ {A : Type 0} (I : State → Type 0) (body : ℕ → Process A) (value : ℕ → A) (k : ℕ)
    (round : (i : ℕ) (s : State)
      → i < k
      → I s
      → (s' : State) × (body i s ≡ (ok (value i), s')) × I s') where
  pub for_range_some :
      (rounds i : ℕ) (s : State)
      → i + rounds ≤ k
      → I s
      → (s' : State) × (for_range i rounds body s ≡ (ok (values value i rounds), s')) × I s'
  unfolding for_range
  for_range_some zero i s within h = (s, refl, h)
  for_range_some (suc rounds) i s within h =
      let (s1, went, h1) = round i s (omega arith) h in
      let (s2, rest, h2) = for_range_some rounds (i + 1) s1 (omega arith) h1 in
      (s2, rw (went, rest) refl, h2)

  pub for_range_panics :
      (rounds i : ℕ) (s : State)
      → i ≤ k
      → k < i + rounds
      → ((t : State) → I t → (body k t).0 ≡ panic)
      → I s
      → (for_range i rounds body s).0 ≡ panic
  unfolding for_range
  for_range_panics zero i s low high stops h = absurd (omega arith)
  for_range_panics (suc rounds) i s low high stops h = elim (ℕ_discrete i k) [
    | yes here ↦
        and_then_panic (body i s) _ (subst (λ j. (body j s).0 ≡ panic) (sym here) (stops s h))
    | no later ↦
        let (s1, went, h1) = round i s (omega arith) h in
        rw went (
          and_then_panic (for_range (i + 1) rounds body s1) _
            (for_range_panics rounds (i + 1) s1 (omega arith) (omega arith) stops h1))
  ]

-- Rounds of which the first panics.
pub for_range_panics_at_once :
    {A : Type 0} (rounds i : ℕ) (body : ℕ → Process A) (s : State)
    → 0 < rounds
    → (body i s).0 ≡ panic
    → (for_range i rounds body s).0 ≡ panic
unfolding for_range
for_range_panics_at_once zero i body s some_rounds e = absurd (omega arith)
for_range_panics_at_once (suc rounds) i body s some_rounds e = and_then_panic (body i s) _ e

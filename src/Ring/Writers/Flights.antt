-- ===== src/Ring/Writers/Flights.antt =====
-- Lists of writers, and the runs of slots that they own.
use mathlib.Core.List.{Perm, perm_middle, append-nil}
use mathlib.Core.List.Perm
use mathlib.Core.Option.{none-ne-some, some-injective}
use native.Mathlib.Nat.{mod-eq_of_lt, add-zero}
use elgate.Prelude.{
  ℕ, zero, suc, ◌+◌, ◌%◌, ◌<◌, ◌≡◌, ◌⊎◌, inl, inr, refl, sym, ap, ◌∙◌, List, [], ◌∷◌, ◌++◌, some,
  none, arith, length, get_elem?, set, subst, All, mod-add_step, mod_lt,
}
use elgate.Ring.Slot.{SlotMem}
use elgate.Ring.Chain.{Chain}
use elgate.Ring.Buffer.{RingBuffer}
use elgate.Ring.Writers.{Job, Flight, Phase, claimed, storing, pick}
use elgate.Ring.Writers.Invariant.{Fits, Numbered, jobs_of, work_of, all_work}

pub record IsPicked (rb : RingBuffer) (jobs : List Job) (job : Job) (rest : List Job) : Type 0 where
  pub same : Perm (job ∷ rest) jobs
  pub fewer : length jobs ≡ suc (length rest)
  pub fits : All (Fits rb) jobs → Fits rb job × All (Fits rb) rest

pub pick-IsPicked :
    (rb : RingBuffer) (k : ℕ) (jobs : List Job)
    → (pick k jobs ≡ none)
      ⊎ ((job : Job) × (rest : List Job) × (pick k jobs ≡ some (job, rest))
          × IsPicked rb jobs job rest)
unfolding pick
pick-IsPicked rb k [] = inl refl
pick-IsPicked rb zero (job ∷ jobs) =
    inr (job, jobs, refl, record { same = Perm.rfl; fewer = refl; fits = λ f. f })
pick-IsPicked rb (suc k) (first ∷ jobs) = elim (pick-IsPicked rb k jobs) [
  | inl e ↦ inl (rw e refl)
  | inr (job, rest, e, p) ↦ inr (
    job,
    first ∷ rest,
    rw e refl,
    record {
      same = Perm.trans (Perm.swap first job rest) (Perm.cons first p.same);
      fewer = ap suc p.fewer;
      fits = λ f. (let g = p.fits f.1 in (g.0, (f.0, g.1)));
    },
  )
]

pub map-append_one :
    (xs : List Flight) (x : Flight) → jobs_of (xs ++ (x ∷ [])) ≡ jobs_of xs ++ (x.job ∷ [])
map-append_one [] x = refl
map-append_one (y ∷ ys) x = ap (◌∷◌ y.job) (map-append_one ys x)

pub map-set_same :
    (xs : List Flight) (j : ℕ) (x y : Flight)
    → get_elem? xs j ≡ some x
    → y.job ≡ x.job
    → jobs_of (set xs j y) ≡ jobs_of xs
map-set_same [] j x y e same = refl
map-set_same (z ∷ zs) zero x y e same =
    ap (λ t. t ∷ jobs_of zs) (same ∙ ap (λ t. t.job) (sym (some-injective z x e)))
map-set_same (z ∷ zs) (suc j) x y e same = ap (◌∷◌ z.job) (map-set_same zs j x y e same)

pub all_work-set :
    (xs : List Flight) (j : ℕ) (x y : Flight)
    → get_elem? xs j ≡ some x
    → all_work xs + work_of y.phase ≡ all_work (set xs j y) + work_of x.phase
all_work-set [] j x y e = absurd (none-ne-some x e)
all_work-set (z ∷ zs) zero x y e =
    let same : work_of z.phase ≡ work_of x.phase =
      ap (λ t. work_of t.phase) (some-injective z x e) in
    omega arith
all_work-set (z ∷ zs) (suc j) x y e = let ih = all_work-set zs j x y e in omega arith

pub all_work-append :
    (xs : List Flight) (x : Flight) → all_work (xs ++ (x ∷ [])) ≡ all_work xs + work_of x.phase
all_work-append [] x = omega arith
all_work-append (y ∷ ys) x = let ih = all_work-append ys x in omega arith

-- Whether a turn of the writer does anything.
abbrev pub live : Phase → ℕ
live claimed = 1
live (storing []) = 0
live (storing (store ∷ more)) = 1

-- The slot of a member of the run.
pub Chain-find :
    {A : Type 0} (R : A → SlotMem → Type 0) (n : ℕ) (slots : List SlotMem) (h j : ℕ) (x : A)
    (xs : List A)
    → h < n
    → get_elem? xs j ≡ some x
    → Chain R n slots h xs
    → (s : SlotMem) × (get_elem? slots ((h + j) % n) ≡ some s) × R x s
Chain-find R n slots h j x [] hh e c = absurd (none-ne-some x e)
Chain-find R n slots h zero x (y ∷ ys) hh e (s, here, r, c) = (
  s,
  ap (get_elem? slots) (ap (λ t. t % n) (add-zero h) ∙ mod-eq_of_lt hh) ∙ here,
  subst (λ t. R t s) (some-injective y x e) r,
)
Chain-find R n slots h (suc j) x (y ∷ ys) hh e (s, here, r, c) =
    let (t, there, r') =
      Chain-find R n slots ((h + 1) % n) j x ys (mod_lt n (h + 1) (omega arith)) e c in
    (t, ap (get_elem? slots) (sym (mod-add_step n h j)) ∙ there, r')

-- Another view of a member whose slot stays.
pub Chain-relabel :
    {A : Type 0} (R : A → SlotMem → Type 0) (n : ℕ) (slots : List SlotMem) (h j : ℕ) (x y : A)
    (xs : List A)
    → get_elem? xs j ≡ some x
    → ((s : SlotMem) → R x s → R y s)
    → Chain R n slots h xs
    → Chain R n slots h (set xs j y)
Chain-relabel R n slots h j x y [] e f c = tt
Chain-relabel R n slots h zero x y (z ∷ zs) e f (s, here, r, c) =
    (s, here, f s (subst (λ t. R t s) (some-injective z x e) r), c)
Chain-relabel R n slots h (suc j) x y (z ∷ zs) e f (s, here, r, c) =
    (s, here, r, Chain-relabel R n slots ((h + 1) % n) j x y zs e f c)

pub Numbered-snoc :
    (n h : ℕ) (xs : List Flight) (x : Flight)
    → h < n
    → x.slot_idx ≡ (h + length xs) % n
    → Numbered n h xs
    → Numbered n h (xs ++ (x ∷ []))
Numbered-snoc n h [] x hh e u = (e ∙ ap (λ t. t % n) (add-zero h) ∙ mod-eq_of_lt hh, tt)
Numbered-snoc n h (y ∷ ys) x hh e (here, u) = (
  here,
  Numbered-snoc n ((h + 1) % n) ys x (mod_lt n (h + 1) (omega arith))
      (e ∙ sym (mod-add_step n h (length ys))) u,
)

pub Numbered-at :
    (n h j : ℕ) (x : Flight) (xs : List Flight)
    → h < n
    → get_elem? xs j ≡ some x
    → Numbered n h xs
    → x.slot_idx ≡ (h + j) % n
Numbered-at n h j x [] hh e u = absurd (none-ne-some x e)
Numbered-at n h zero x (y ∷ ys) hh e (here, u) =
    ap (λ t. t.slot_idx) (sym (some-injective y x e))
    ∙ here
    ∙ sym (ap (λ t. t % n) (add-zero h) ∙ mod-eq_of_lt hh)
Numbered-at n h (suc j) x (y ∷ ys) hh e (here, u) =
    Numbered-at n ((h + 1) % n) j x ys (mod_lt n (h + 1) (omega arith)) e u ∙ mod-add_step n h j

pub Numbered-set :
    (n h j : ℕ) (x y : Flight) (xs : List Flight)
    → get_elem? xs j ≡ some x
    → y.slot_idx ≡ x.slot_idx
    → Numbered n h xs
    → Numbered n h (set xs j y)
Numbered-set n h j x y [] e same u = tt
Numbered-set n h zero x y (z ∷ zs) e same (here, u) =
    (same ∙ ap (λ t. t.slot_idx) (sym (some-injective z x e)) ∙ here, u)
Numbered-set n h (suc j) x y (z ∷ zs) e same (here, u) =
    (here, Numbered-set n ((h + 1) % n) j x y zs e same u)

-- A job that moves from the front of one list to the end of the other.
pub moved-Perm :
    (job : Job) (rest ws fs jobs : List Job)
    → Perm (job ∷ rest) ws
    → Perm (ws ++ fs) jobs
    → Perm (rest ++ (fs ++ (job ∷ []))) jobs
moved-Perm job rest ws fs jobs picked same =
    Perm.trans (Perm.append_left rest (rw append-nil at (perm_middle {a = job} fs [])))
      (Perm.trans (perm_middle rest fs) (Perm.trans (Perm.append_right fs picked) same))

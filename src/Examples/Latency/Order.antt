-- ===== src/Examples/Latency/Order.antt =====
-- The order of the latencies: `sort` of elgate-core/examples/latency_profile.rs.
use mathlib.Core.List.{Mem, Perm, mem-cons_self, mem-cons_of_mem, not-mem-nil, forall_mem-cons}
use native.Mathlib.Bridge.{le_prop}
use mathlib.Core.Option.{none-ne-some, some-injective}
use mathlib.Core.List.Perm
use elgate.Prelude.{
  ℕ, Bool-cases, inl, inr, ◌∙◌, sym, ap, subst, zero, suc, ◌≤◌, ◌≡◌, refl, List, [], ◌∷◌, some,
  length, get_elem?, leb, arith,
}
use elgate.Examples.Latency.{insert, sort}

-- Each member is at most every later one.
abbrev pub IsAscending : List ℕ → Type 0
IsAscending [] = Unit
IsAscending (x ∷ xs) = ((y : ℕ) → Mem y xs → x ≤ y) × IsAscending xs

insert-perm : (x : ℕ) (l : List ℕ) → Perm (insert x l) (x ∷ l)
unfolding insert
insert-perm x [] = Perm.rfl
insert-perm x (y ∷ ys) = elim (Bool-cases (leb x y)) [
  | inl less ↦ rw less Perm.rfl
  | inr more ↦ rw more (Perm.trans (Perm.cons y (insert-perm x ys)) (Perm.swap x y ys))
]

length-insert : (x : ℕ) (l : List ℕ) → length (insert x l) ≡ suc (length l)
unfolding insert
length-insert x [] = refl
length-insert x (y ∷ ys) = ground (arith, length-insert x ys)

pub sort-perm : (l : List ℕ) → Perm (sort l) l
unfolding sort
sort-perm [] = Perm.rfl
sort-perm (x ∷ xs) = Perm.trans (insert-perm x (sort xs)) (Perm.cons x (sort-perm xs))

pub le_is_prop : (x y : ℕ) → IsProp (x ≤ y)
le_is_prop x y = le_prop

IsBelow-insert :
    {x y : ℕ} {ys : List ℕ}
    → y ≤ x
    → ((z : ℕ) → Mem z ys → y ≤ z)
    → (z : ℕ) → Mem z (insert x ys)
    → y ≤ z
IsBelow-insert {x} {ys = ys} le low z h =
    (forall_mem-cons (le_is_prop _)).1 (le, low) z ((Perm.mem_iff (insert-perm x ys)).0 h)

IsAscending-insert : (x : ℕ) (l : List ℕ) → IsAscending l → IsAscending (insert x l)
unfolding insert
IsAscending-insert x [] a = ((λ y h. absurd (not-mem-nil h)), tt)
IsAscending-insert x (y ∷ ys) (low, a) = elim (Bool-cases (leb x y)) [
  | inl less ↦
      let le : x ≤ y = ground arith in
      rw less (
        (forall_mem-cons (le_is_prop x)).1 (le, λ z h. let more = low z h in omega arith),
        (low, a),
      )
  | inr more ↦
      let le : y ≤ x = ground arith in rw more (IsBelow-insert le low, IsAscending-insert x ys a)
]

pub sort-IsAscending : (l : List ℕ) → IsAscending (sort l)
unfolding sort
sort-IsAscending [] = tt
sort-IsAscending (x ∷ xs) = IsAscending-insert x (sort xs) (sort-IsAscending xs)

pub get_elem?-Mem : (l : List ℕ) (i : ℕ) {a : ℕ} → get_elem? l i ≡ some a → Mem a l
get_elem?-Mem [] i e = absurd (none-ne-some _ e)
get_elem?-Mem (x ∷ xs) zero e = subst (λ t. Mem t (x ∷ xs)) (some-injective x _ e) mem-cons_self
get_elem?-Mem (x ∷ xs) (suc i) e = mem-cons_of_mem x (get_elem?-Mem xs i e)

-- Along an ascending list the elements do not fall.
pub get_elem?_mono :
    (l : List ℕ) (i j : ℕ) {a b : ℕ}
    → IsAscending l
    → i ≤ j
    → get_elem? l i ≡ some a
    → get_elem? l j ≡ some b
    → a ≤ b
get_elem?_mono [] i j s le e f = absurd (none-ne-some _ e)
get_elem?_mono (x ∷ xs) zero zero s le e f =
    let same = some-injective _ _ (sym e ∙ f) in omega arith
get_elem?_mono (x ∷ xs) zero (suc j) (low, s) le e f =
    let same = some-injective x _ e in let more = low _ (get_elem?-Mem xs j f) in omega arith
get_elem?_mono (x ∷ xs) (suc i) zero s le e f = absurd (omega arith)
get_elem?_mono (x ∷ xs) (suc i) (suc j) (low, s) le e f = get_elem?_mono xs i j s (omega arith) e f

pub length-sort : (l : List ℕ) → length (sort l) ≡ length l
unfolding sort
length-sort [] = refl
length-sort (x ∷ xs) = length-insert x (sort xs) ∙ ap suc (length-sort xs)

-- The first element is the least, and the last the greatest.
pub first_least :
    (l : List ℕ) {a : ℕ} → IsAscending l → get_elem? l 0 ≡ some a → (y : ℕ) → Mem y l → a ≤ y
first_least [] s e = λ y m. absurd (not-mem-nil m)
first_least (x ∷ xs) (low, s) e =
    let same = some-injective x _ e in
    (forall_mem-cons (le_is_prop _)).1 (omega arith, λ z m. let le = low z m in omega arith)

pub last_greatest :
    (l : List ℕ) (n : ℕ) {b : ℕ}
    → IsAscending l
    → length l ≡ suc n
    → get_elem? l n ≡ some b
    → (y : ℕ) → Mem y l
    → y ≤ b
last_greatest [] n s h e = λ y m. absurd (not-mem-nil m)
last_greatest (x ∷ xs) zero {b} s h e =
    let same = some-injective x _ e in
    (forall_mem-cons (λ z. le_is_prop z b)).1
      (omega arith, λ z m. absurd (nonempty xs m (omega arith)))
  where
    nonempty : (ys : List ℕ) {z : ℕ} → Mem z ys → ¬ (length ys ≡ 0)
    nonempty [] m z = not-mem-nil m
    nonempty (y ∷ ys) m z = absurd (omega arith)
last_greatest (x ∷ xs) (suc n) {b} (low, s) h e =
    (forall_mem-cons (λ z. le_is_prop z b)).1
      (low b (get_elem?-Mem xs n e), last_greatest xs n s (omega arith) e)

-- ===== src/Ring/Chain.antt =====
-- Runs of neighbouring slots, going round at the end: what each of them holds, by a list.
use elgate.Prelude.{
  ℕ, zero, suc, ◌+◌, ◌%◌, ◌≤◌, ◌<◌, ◌≡◌, sym, ap, ◌∙◌, List, [], ◌∷◌, ◌++◌, some, arith, length,
  get_elem?, get_elem?-set_ne, set, mod-add_step, add-mod-ne, mod_lt,
}
use native.Mathlib.Nat.{mod-eq_of_lt, add-zero}

module _ {A S : Type 0} (R : A → S → Type 0) (n : ℕ) where
  -- The slots from `h` on, `n` in all, hold what the list says.
  abbrev pub Chain : List S → ℕ → List A → Type 0
  Chain slots h [] = Unit {0}
  Chain slots h (x ∷ xs) =
      (s : S) × (get_elem? slots h ≡ some s) × R x s × Chain slots ((h + 1) % n) xs

  -- A store at a place outside the run.
  pub Chain-set :
      (slots : List S) (h k : ℕ) (v : S) (xs : List A)
      → h < n
      → length xs ≤ k
      → k < n
      → Chain slots h xs
      → Chain (set slots ((h + k) % n) v) h xs
  Chain-set slots h k v [] hh hl hk c = tt
  Chain-set slots h (suc k) v (x ∷ xs) hh hl hk (s, e, r, c) = (
    s,
    get_elem?-set_ne slots ((h + suc k) % n) h v (add-mod-ne n h (suc k) hh (omega arith) hk) ∙ e,
    r,
    subst_set (
        Chain-set slots ((h + 1) % n) k v xs (mod_lt n (h + 1) (omega arith)) (omega arith)
          (omega arith) c),
  )
    where
      subst_set :
          Chain (set slots (((h + 1) % n + k) % n) v) ((h + 1) % n) xs
          → Chain (set slots ((h + suc k) % n) v) ((h + 1) % n) xs
      subst_set t = rw (mod-add_step n h k) at t
  Chain-set slots h zero v (x ∷ xs) hh hl hk c = absurd (omega arith)

  -- One more slot at the end of the run.
  pub Chain-snoc :
      (slots : List S) (h : ℕ) (xs : List A) (x : A) (s : S)
      → h < n
      → get_elem? slots ((h + length xs) % n) ≡ some s
      → R x s
      → Chain slots h xs
      → Chain slots h (xs ++ (x ∷ []))
  Chain-snoc slots h [] x s hh e r c = (
    s,
    ap (get_elem? slots) (sym (mod-eq_of_lt hh) ∙ ap (λ t. t % n) (sym (add-zero h))) ∙ e,
    r,
    tt,
  )
  Chain-snoc slots h (y ∷ ys) x s hh e r (s', e', r', c) = (
    s',
    e',
    r',
    Chain-snoc slots ((h + 1) % n) ys x s (mod_lt n (h + 1) (omega arith))
        (ap (get_elem? slots) (mod-add_step n h (length ys)) ∙ e) r c,
  )

  -- A run whose every slot is known.
  pub Chain-all :
      (slots : List S) (h : ℕ) (xs : List A)
      → 0 < n
      → h < n
      → ((x : A) (i : ℕ) → i < n → (s : S) × (get_elem? slots i ≡ some s) × R x s)
      → Chain slots h xs
  Chain-all slots h [] p hh all = tt
  Chain-all slots h (x ∷ xs) p hh all =
      let (s, e, r) = all x h hh in
      (s, e, r, Chain-all slots ((h + 1) % n) xs p (mod_lt n (h + 1) p) all)

  -- The slot at a place of the run.
  pub Chain-at :
      (slots : List S) (h k : ℕ) (xs : List A)
      → h < n
      → k < length xs
      → Chain slots h xs
      → (x : A) × (s : S) × (get_elem? slots ((h + k) % n) ≡ some s) × R x s
  Chain-at slots h k [] hh hk c = absurd (omega arith)
  Chain-at slots h zero (x ∷ xs) hh hk (s, e, r, c) =
      (x, s, ap (get_elem? slots) (ap (λ t. t % n) (add-zero h) ∙ mod-eq_of_lt hh) ∙ e, r)
  Chain-at slots h (suc k) (x ∷ xs) hh hk (s, e, r, c) =
      let (y, t, e', r') =
        Chain-at slots ((h + 1) % n) k xs (mod_lt n (h + 1) (omega arith)) (omega arith) c in
      (y, t, ap (get_elem? slots) (sym (mod-add_step n h k)) ∙ e', r')

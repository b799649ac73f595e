-- ===== src/Arch/ThreadBuilder/Pinning.antt =====
-- Which core `pin_thread_to_core` of elgate-core/src/arch/thread_builder.rs sets a thread on.
use elgate.Prelude.{
  ℕ, zero, suc, ◌%◌, ◌≤◌, ◌<◌, ◌≡◌, refl, ap, sym, ◌∙◌, List, [], ◌∷◌, Option, some, none, arith,
  ltb, lt→ltb, le→ltb, dec_lt, if◌then◌else◌, length, get_elem?, get_elem?-some, mod_lt, ok,
}
use native.Mathlib.Nat.{mod-eq_of_lt}
use elgate.Arch.ThreadBuilder.{
  PinningResult, success, success_different_core, CoreAffinity, set_core, pin_among,
  pin_thread_to_core,
}

-- The result for a core that was set.
abbrev pub set_result : ℕ → ℕ → PinningResult
set_result core_id count =
    if ltb core_id count then success else success_different_core (core_id % count)

get_elem?-end : (xs : List ℕ) (i : ℕ) → length xs ≤ i → get_elem? xs i ≡ none
get_elem?-end [] i h = refl
get_elem?-end (x ∷ xs) zero h = absurd (omega arith)
get_elem?-end (x ∷ xs) (suc i) h = get_elem?-end xs i (omega arith)

module _ (api : CoreAffinity) (first : ℕ) (more : List ℕ) (core_id core : ℕ) (set : Option ℕ) where
  pin_among-listed :
      core_id < length (first ∷ more)
      → get_elem? (first ∷ more) (core_id % length (first ∷ more)) ≡ some core
      → pin_among api (first ∷ more) core_id (get_elem? (first ∷ more) core_id) set
        ≡ ok (set_core api core (set_result core_id (length (first ∷ more))) set)
  pin_among-listed h e =
      let at : get_elem? (first ∷ more) core_id ≡ some core =
        ap (get_elem? (first ∷ more)) (sym (mod-eq_of_lt h)) ∙ e in
      rw (at, lt→ltb core_id (length (first ∷ more)) h)

  pin_among-beyond :
      length (first ∷ more) ≤ core_id
      → get_elem? (first ∷ more) (core_id % length (first ∷ more)) ≡ some core
      → pin_among api (first ∷ more) core_id (get_elem? (first ∷ more) core_id) set
        ≡ ok (set_core api core (set_result core_id (length (first ∷ more))) set)
  pin_among-beyond h e =
      rw (get_elem?-end (first ∷ more) core_id h, e, le→ltb core_id (length (first ∷ more)) h)

-- Where the process may use a core, a thread that is to be pinned to core_id is set on the core at
-- place core_id, modulo their number, in the list of the cores that the process may use: the
-- result is success where the list has that place, success_different_core with the place
-- otherwise, and failed where the system refuses. The id of the core is not looked at.
pub pin_thread_to_core-get :
    (api : CoreAffinity) (first : ℕ) (more : List ℕ) (core_id : ℕ) (set : Option ℕ)
    → api.get_core_ids ≡ some (first ∷ more)
    → (core : ℕ) × (get_elem? (first ∷ more) (core_id % length (first ∷ more)) ≡ some core)
      × (pin_thread_to_core api core_id set
          ≡ ok (set_core api core (set_result core_id (length (first ∷ more))) set))
unfolding pin_thread_to_core
pin_thread_to_core-get api first more core_id set e =
    let ids = first ∷ more in
    let at =
      get_elem?-some ids (core_id % length ids) (mod_lt (length ids) core_id (omega arith)) in
    elim (dec_lt core_id (length ids)) [
      | yes h ↦ (at.0, at.1, rw e (pin_among-listed api first more core_id at.0 set h at.1))
      | no h ↦
          (at.0, at.1, rw e (pin_among-beyond api first more core_id at.0 set (omega arith) at.1))
    ]

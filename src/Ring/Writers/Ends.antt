-- ===== src/Ring/Writers/Ends.antt =====
-- Writers that take their turns come to their end.
use mathlib.Core.Option.{none-ne-some}
use elgate.Prelude.{
  ℕ, zero, suc, ◌+◌, ◌*◌, ◌≤◌, ◌<◌, ◌≡◌, ◌⊎◌, inl, inr, refl, sym, ap, ◌∙◌, List, [], ◌∷◌, arith,
  length, some, get_elem?, All, ok, ◌>>=◌,
}
use elgate.Ring.Slot.{UuidApi}
use elgate.Ring.Memory.{RingMem}
use elgate.Ring.Buffer.{RingBuffer, Entry}
use elgate.Ring.Buffer.Valid.{IsValid}
use elgate.Ring.Writers.{
  Job, Flight, Phase, claimed, storing, Pool, Turn, claim, go_on, run, advance, start, IsStored,
  pick, take_turn, take_index, count_reads,
}
use elgate.Ring.Writers.Invariant.{IsPool, Fits, work}
use elgate.Ring.Writers.Done.{reached}
use elgate.Ring.Writers.Flights.{pick-IsPicked, live}
use elgate.Ring.Writers.Turns.{turn-IsPool, claim_turn-IsPool}

-- A writer that has something left to do.
find_live :
    (xs : List Flight)
    → All IsStored xs
      ⊎ ((j : ℕ) × (x : Flight) × (get_elem? xs j ≡ some x) × (j < length xs) × (live x.phase ≡ 1))
find_live [] = inl tt
find_live (x ∷ xs) = go x.phase refl (find_live xs)
  where
    go :
        (phase : Phase)
        → x.phase ≡ phase
        → All IsStored xs
          ⊎ ((j : ℕ) × (y : Flight) × (get_elem? xs j ≡ some y)
              × (j < length xs)
              × (live y.phase ≡ 1))
        → All IsStored (x ∷ xs)
          ⊎ ((j : ℕ) × (y : Flight) × (get_elem? (x ∷ xs) j ≡ some y)
              × (j < length (x ∷ xs))
              × (live y.phase ≡ 1))
    go claimed e r = inr (0, x, refl, omega arith, ap live e)
    go (storing (store ∷ more)) e r = inr (0, x, refl, omega arith, ap live e)
    go (storing []) e (inl all) = inl (e, all)
    go (storing []) e (inr (j, y, found, lt, l)) = inr (suc j, y, found, omega arith, l)

module _ ⦃uuid : UuidApi⦄ (rb : RingBuffer) (q : List Entry) (jobs : List Job) (p c : ℕ) where
  -- Some turn is left, and it does one piece of the work, or all is done.
  progress :
      (pool : Pool)
      → IsPool rb q jobs p c pool
      → ((pool.waiting ≡ []) × All IsStored pool.flying)
        ⊎ ((t : Turn) × (pool' : Pool) × (advance rb t pool ≡ ok pool')
            × IsPool rb q jobs p c pool'
            × (work pool ≡ suc (work pool')))
  unfolding advance pick
  progress pool v = by_waiting pool.waiting refl
    where
      by_waiting :
          (ws : List Job)
          → pool.waiting ≡ ws
          → ((pool.waiting ≡ []) × All IsStored pool.flying)
            ⊎ ((t : Turn) × (pool' : Pool) × (advance rb t pool ≡ ok pool')
                × IsPool rb q jobs p c pool'
                × (work pool ≡ suc (work pool')))
      by_waiting [] e = elim (find_live pool.flying) [
        | inl stored ↦ inl (e, stored)
        | inr (j, x, found, lt, l) ↦
            let (pool', went, w, kept, less) = turn-IsPool rb q jobs p c pool x j v found lt in
            inr (go_on j, pool', ap (λ o. take_turn rb o j pool) found ∙ went, w, omega (arith, l))
      ]
      by_waiting (job ∷ rest) e = elim (pick-IsPicked rb 0 pool.waiting) [
        | inl absent ↦ absurd (none-ne-some (job, rest) (sym absent ∙ ap (pick 0) e))
        | inr (first, others, found, picked) ↦
            let (pool', went, w, kept, less) =
              claim_turn-IsPool rb q jobs p c pool first others v picked in
            inr (claim 0, pool', ap (λ o. take_index o pool) found ∙ went, w, less)
      ]

  -- As many turns as there is work left.
  completes :
      (left : ℕ) (pool : Pool)
      → IsPool rb q jobs p c pool
      → work pool ≡ left
      → (more : List Turn) × (pool' : Pool) × (run rb more pool ≡ ok pool')
        × (length more ≤ left)
        × (pool'.waiting ≡ [])
        × All IsStored pool'.flying
  unfolding run
  completes zero pool v e = elim (progress pool v) [
    | inl (none_waits, stored) ↦ ([], pool, refl, omega arith, none_waits, stored)
    | inr (t, pool1, went, w, less) ↦ absurd (omega arith)
  ]
  completes (suc left) pool v e = elim (progress pool v) [
    | inl (none_waits, stored) ↦ ([], pool, refl, omega arith, none_waits, stored)
    | inr (t, pool1, went, w, less) ↦
        let (more, pool2, ran, few, none_waits, stored) = completes left pool1 w (omega arith) in
        (t ∷ more, pool2, ap (λ o. o >>= run rb more) went ∙ ran, omega arith, none_waits, stored)
  ]

-- Writers of bytes that fit, no more of them than the ring has free slots, may take turns in any
-- order, with reads in between, no more of them than the ring held entries: no turn panics or
-- leaves the mapping, and wherever the writers then stand, at most fourteen more turns for each of
-- them bring all of them to their last store.
pub run-ends :
    ⦃uuid : UuidApi⦄ (rb : RingBuffer) (q : List Entry) (jobs : List Job) (m : RingMem)
    (turns : List Turn)
    → IsValid rb q m
    → length q + length jobs ≤ m.header.slot_count
    → All (Fits rb) jobs
    → count_reads turns ≤ length q
    → (pool : Pool) × (run rb turns (start jobs m) ≡ ok pool)
      × (more : List Turn) × (pool' : Pool) × (run rb more pool ≡ ok pool')
      × (length more ≤ 14 * length jobs)
      × (pool'.waiting ≡ [])
      × All IsStored pool'.flying
run-ends rb q jobs m turns v room fits few =
    let (rest, c, pool, ran, w, left) = reached rb q jobs m turns v room fits few in
    let (more, pool', ran', short, none_waits, stored) =
      completes rb rest jobs m.header.producer_idx c (work pool) pool w refl in
    (pool, ran, more, pool', ran', omega (arith, left.less), none_waits, stored)

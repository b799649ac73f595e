-- ===== src/Ring/Writers/Turns.antt =====
-- Each turn succeeds and keeps the invariant: none panics or leaves the mapping.

use mathlib.Core.Option.{none-ne-some}
use elgate.Prelude.{
  ℕ, zero, suc, ◌+◌, ◌%◌, ◌≤◌, ◌<◌, ◌≡◌, inl, inr, refl, ap, ◌∙◌, List, [], ◌∷◌, ◌++◌, some, arith,
  length, get_elem?, mod_lt, ok, Option-cases,
}
use elgate.Ring.Header.Claim.{next_producer_idx_lem}
use elgate.Ring.Slot.{UuidApi, SlotMem, status}
use elgate.Ring.Memory.{RingError}
use elgate.Ring.Buffer.{RingBuffer, Entry}
use elgate.Ring.Buffer.Write.{slot_of, get_slot_lem}
use elgate.Ring.Writers.{
  Job, Flight, Phase, claimed, storing, Pool, Turn, claim, go_on, read_next, count_reads, stores_of,
  take_index, take_turn, act, advance, in_phase,
}
use elgate.Ring.Writers.Invariant.{IsPool, IsOnWay, IsOwned, work, work_of}
use elgate.Ring.Writers.Flights.{
  IsPicked, pick-IsPicked, all_work-set, all_work-append, live, Chain-find, Numbered-at,
}
use elgate.Ring.Writers.Reads.{IsLeft, read_turn-IsPool}
use elgate.Ring.Writers.Steps.{
  claimed_pool, begun_pool, stored_pool, claim-IsPool, begin-IsPool, store-IsPool,
}

get_elem?-lt : {A : Type 0} (xs : List A) (j : ℕ) (x : A) → get_elem? xs j ≡ some x → j < length xs
get_elem?-lt [] j x e = absurd (none-ne-some x e)
get_elem?-lt (y ∷ ys) zero x e = omega arith
get_elem?-lt (y ∷ ys) (suc j) x e = let lt = get_elem?-lt ys j x e in omega arith

module _ ⦃uuid : UuidApi⦄ (rb : RingBuffer) (q : List Entry) (jobs : List Job) (p c : ℕ) where
  -- Whoever's turn it is, the step succeeds, and keeps the invariant.
  pub turn-IsPool :
      (pool : Pool) (x : Flight) (j : ℕ)
      → IsPool rb q jobs p c pool
      → get_elem? pool.flying j ≡ some x
      → j < length pool.flying
      → (pool' : Pool) × (take_turn rb (some x) j pool ≡ ok pool')
        × IsPool rb q jobs p c pool'
        × (pool'.got ≡ pool.got)
        × (work pool ≡ work pool' + live x.phase)
  unfolding act stores_of status
  turn-IsPool pool x j v e lt =
      let n = pool.mem.header.slot_count in
      let (s, here, own) =
        Chain-find (IsOwned rb) n pool.mem.slots p j x pool.flying v.tail e v.owned in
      let at : x.slot_idx ≡ (p + j) % n = Numbered-at n p j x pool.flying v.tail e v.numbered in
      let got =
        get_slot_lem rb x.slot_idx pool.mem s v.roomy
          (omega (arith, at, mod_lt n (p + j) (omega (arith, v.tail))))
          (ap (get_elem? pool.mem.slots) at ∙ here) in
      let (pool', acted, w, kept, less) = acted x.phase refl s own in
      (pool', rw got (ap ok acted), w, kept, less)
    where
      acted :
          (phase : Phase)
          → x.phase ≡ phase
          → (s : SlotMem) → IsOnWay rb x.job phase s
          → (pool' : Pool) × (act x phase (slot_of rb s) j pool ≡ pool')
            × IsPool rb q jobs p c pool'
            × (pool'.got ≡ pool.got)
            × (work pool ≡ work pool' + live phase)
      acted claimed e' s own = (
        begun_pool rb q jobs p c pool x j,
        rw (own.0.free) refl,
        begin-IsPool rb q jobs p c pool x j v e e',
        refl,
        omega (
          arith,
          all_work-set pool.flying j x (in_phase x (storing (stores_of x.job))) e,
          ap work_of e',
        ),
      )
      acted (storing []) e' s own = (pool, refl, v, refl, omega arith)
      acted (storing (store ∷ more)) e' s own = (
        stored_pool rb q jobs p c pool x j store more s,
        refl,
        store-IsPool rb q jobs p c pool x j store more s v e lt own,
        refl,
        omega (arith, all_work-set pool.flying j x (in_phase x (storing more)) e, ap work_of e'),
      )

  pub claim_turn-IsPool :
      (pool : Pool) (job : Job) (rest : List Job)
      → IsPool rb q jobs p c pool
      → IsPicked rb pool.waiting job rest
      → (pool' : Pool) × (take_index (some (job, rest)) pool ≡ ok pool')
        × IsPool rb q jobs p c pool'
        × (pool'.got ≡ pool.got)
        × (work pool ≡ suc (work pool'))
  claim_turn-IsPool pool job rest v picked =
      let n = pool.mem.header.slot_count in
      let in_range : pool.mem.header.producer_idx < n =
        omega (arith, v.producer, mod_lt n (p + length pool.flying) (omega (arith, v.tail))) in
      (
        claimed_pool rb q jobs p c pool job rest,
        rw (next_producer_idx_lem {E = RingError} pool.mem.header in_range v.small) refl,
        claim-IsPool rb q jobs p c pool job rest v picked,
        refl,
        omega (arith, picked.fewer, all_work-append pool.flying _),
      )

module _ ⦃uuid : UuidApi⦄ (rb : RingBuffer) (q : List Entry) (jobs : List Job) (p c : ℕ) where
  -- A turn that takes no entry.
  IsLeft-same :
      (pool pool' : Pool) → pool'.got ≡ pool.got → work pool' ≤ work pool → IsLeft pool pool' q q
  IsLeft-same pool pool' kept less = record { same = ap (λ g. g ++ q) kept; less = less }

  -- The invariant after a turn, for the entries that are left and the index of the first.
  pub advance-IsPool :
      (t : Turn) (pool : Pool)
      → IsPool rb q jobs p c pool
      → count_reads (t ∷ []) ≤ length q
      → (q' : List Entry) × (c' : ℕ) × (pool' : Pool) × (advance rb t pool ≡ ok pool')
        × IsPool rb q' jobs p c' pool'
        × IsLeft pool pool' q q'
        × (length q ≤ length q' + count_reads (t ∷ []))
  unfolding advance count_reads
  advance-IsPool (claim k) pool v few = elim (pick-IsPicked rb k pool.waiting) [
    | inl absent ↦
        (q, c, pool, rw absent refl, v, IsLeft-same pool pool refl (omega arith), omega arith)
    | inr (job, rest, found, picked) ↦
        let (pool', went, w, kept, less) = claim_turn-IsPool rb q jobs p c pool job rest v picked in
        (
          q,
          c,
          pool',
          ap (λ o. take_index o pool) found ∙ went,
          w,
          IsLeft-same pool pool' kept (omega (arith, less)),
          omega arith,
        )
  ]
  advance-IsPool (go_on j) pool v few = elim (Option-cases (get_elem? pool.flying j)) [
    | inl absent ↦
        (q, c, pool, rw absent refl, v, IsLeft-same pool pool refl (omega arith), omega arith)
    | inr (x, e) ↦
        let (pool', went, w, kept, less) =
          turn-IsPool rb q jobs p c pool x j v e (get_elem?-lt pool.flying j x e) in
        (
          q,
          c,
          pool',
          ap (λ o. take_turn rb o j pool) e ∙ went,
          w,
          IsLeft-same pool pool' kept (omega (arith, less)),
          omega arith,
        )
  ]
  advance-IsPool read_next pool v few = by_entries q v few
    where
      by_entries :
          (es : List Entry)
          → IsPool rb es jobs p c pool
          → 1 ≤ length es
          → (q' : List Entry) × (c' : ℕ) × (pool' : Pool) × (advance rb read_next pool ≡ ok pool')
            × IsPool rb q' jobs p c' pool'
            × IsLeft pool pool' es q'
            × (length es ≤ length q' + 1)
      by_entries [] v' one = absurd (omega arith)
      by_entries (e ∷ es) v' one =
          let (q', c', pool', went, w, left, fewer) = read_turn-IsPool rb jobs p c pool e es v' in
          (q', c', pool', went, w, left, omega (arith, fewer))

-- ===== src/Ring/Header/Claim.antt =====
-- The compare-exchange loops of header.rs.
use elgate.Prelude.{
  ℕ, ◌+◌, ◌%◌, ◌^◌, ◌<◌, ◌≡◌, refl, ap, List, [], ◌∷◌, ◌++◌, inl, inr, arith, ◌==◌, Bool-cases,
  Outcome, ok,
}
use elgate.Ring.Header.{
  RingHeader, Interference, moved, spurious, next_of, claim, next_producer_idx, next_consumer_idx,
}

-- What the counter holds after some interference.
abbrev pub cell_after : ℕ → List Interference → ℕ
cell_after cell [] = cell
cell_after cell (spurious ∷ events) = cell_after cell events
cell_after cell (moved v ∷ events) = cell_after v events

-- Every stored value stays an index.
abbrev pub AllIndices : ℕ → List Interference → Type 0
AllIndices n [] = Unit {0}
AllIndices n (spurious ∷ events) = AllIndices n events
AllIndices n (moved v ∷ events) = (v < n) × AllIndices n events

pub next_of_lem :
    {E : Type 0} (n i : ℕ) → i < n → n < 2 ^ 64 → next_of {E = E} n i ≡ ok ((i + 1) % n)
next_of_lem n i h b = ground arith

-- The loop won the index `i`: the counter held `i` when it was exchanged for the next one.
pub record Won {E : Type 0} (n cell : ℕ) (events : List Interference) (result : Outcome E (ℕ × ℕ))
    : Type 0 where
  pub index : ℕ
  pub before : List Interference
  pub later : List Interference
  pub split : events ≡ before ++ later
  pub held : index ≡ cell_after cell before
  pub exchanged : result ≡ ok (index, (index + 1) % n)

pub claim-Won :
    {E : Type 0} (n : ℕ) (events : List Interference) (cell current : ℕ)
    → cell < n
    → current < n
    → n < 2 ^ 64
    → AllIndices n events
    → Won {E = E} n cell events (claim n events cell current)
unfolding claim
claim-Won {E} n [] cell current hc hk b all = record {
  index = cell;
  before = [];
  later = [];
  split = refl;
  held = refl;
  exchanged =
      rw (next_of_lem {E = E} n current hk b, next_of_lem {E = E} n cell hc b) (ground arith);
}
claim-Won {E} n (spurious ∷ events) cell current hc hk b all =
    let w = claim-Won {E = E} n events cell cell hc hc b all in
    record {
      index = w.index;
      before = spurious ∷ w.before;
      later = w.later;
      split = ap (◌∷◌ spurious) w.split;
      held = w.held;
      exchanged = rw (next_of_lem {E = E} n current hk b) w.exchanged;
    }
claim-Won {E} n (moved v ∷ events) cell current hc hk b all = elim (Bool-cases (v == current)) [
  | inl same ↦ record {
    index = current;
    before = moved v ∷ [];
    later = events;
    split = refl;
    held = ground arith;
    exchanged = rw (next_of_lem {E = E} n current hk b, same) refl;
  }
  | inr other ↦
      let w = claim-Won {E = E} n events v v all.0 all.0 b all.1 in
      record {
        index = w.index;
        before = moved v ∷ w.before;
        later = w.later;
        split = ap (◌∷◌ (moved v)) w.split;
        held = w.held;
        exchanged = rw (next_of_lem {E = E} n current hk b, other) w.exchanged;
      }
]

-- `next_producer_idx` returns the index that the counter held and advances it by one round the
-- ring, whatever the other producers do in between.
pub next_producer_idx_atomic :
    {E : Type 0} (events : List Interference) (h : RingHeader)
    → h.producer_idx < h.slot_count
    → h.slot_count < 2 ^ 64
    → AllIndices h.slot_count events
    → (i : ℕ) × (before later : List Interference) × (events ≡ before ++ later)
      × (i ≡ cell_after h.producer_idx before)
      × (next_producer_idx {E = E} events h
          ≡ ok (i, record h { producer_idx = (i + 1) % h.slot_count }))
unfolding next_producer_idx
next_producer_idx_atomic {E} events h hp b all =
    (w.index, w.before, w.later, w.split, w.held, rw w.exchanged)
  where
    w :
        Won {E = E} h.slot_count h.producer_idx events
          (claim h.slot_count events h.producer_idx h.producer_idx)
    w = claim-Won {E = E} h.slot_count events h.producer_idx h.producer_idx hp hp b all

-- Undisturbed, both methods return their counter and move it on.
pub next_producer_idx_lem :
    {E : Type 0} (h : RingHeader)
    → h.producer_idx < h.slot_count
    → h.slot_count < 2 ^ 64
    → next_producer_idx {E = E} [] h
      ≡ ok (h.producer_idx, record h { producer_idx = (h.producer_idx + 1) % h.slot_count })
unfolding next_producer_idx claim
next_producer_idx_lem {E} h hp b =
    rw (next_of_lem {E = E} h.slot_count h.producer_idx hp b) (ground arith)

pub next_consumer_idx_lem :
    {E : Type 0} (h : RingHeader)
    → h.consumer_idx < h.slot_count
    → h.slot_count < 2 ^ 64
    → next_consumer_idx {E = E} [] h
      ≡ ok (h.consumer_idx, record h { consumer_idx = (h.consumer_idx + 1) % h.slot_count })
unfolding next_consumer_idx claim
next_consumer_idx_lem {E} h hp b =
    rw (next_of_lem {E = E} h.slot_count h.consumer_idx hp b) (ground arith)

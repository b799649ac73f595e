-- ===== src/Ring/Writers.antt =====
-- Several writers and readers at one ring: each writer is in the middle of its own `write` of
-- elgate-core/src/ring/buffer.rs, and a `read` comes between any two of their steps. A writer claims an index by one exchange, loads the status of its slot and then makes
-- one store after the other; a schedule says whose turn it is. The count of free slots that comes
-- before the claim holds no writer back, as it is positive for any two indices. A writer that finds
-- its slot taken waits again.
pub mod Stores
pub mod Invariant
pub mod Flights
pub mod Steps
pub mod Reads
pub mod Turns
pub mod Done
pub mod Ends
mod Tests
use elgate.Prelude.{
  ℕ, ◌≡◌, zero, suc, List, [], ◌∷◌, ◌++◌, Option, some, none, get_elem?, set, length, map,
  if◌then◌else◌, Outcome, ok, ◌>>=◌,
}
use elgate.Ring.Header
use elgate.Ring.Header.{RingHeader}
use elgate.Ring.Slot.{
  UuidApi, Slot, SlotMem, SlotStatus, OperationKind, status, set_status, set_operation, set_size,
  set_id, set_timestamp, copy_in,
}
use elgate.Ring.Memory.{RingMem, RingError, get_slot}
use elgate.Ring.Buffer.{RingBuffer, Entry, is_available, read}

-- A call of `write`, with the id and the time that it takes.
pub record Job : Type 0 where
  pub kind : OperationKind
  pub bytes : List ℕ
  pub fresh_id : List ℕ
  pub now : ℕ

abbrev pub entry_of : Job → Entry
entry_of job = (job.kind, job.bytes)

-- A writer that has claimed its slot: before it looks at the status, or with stores to go.
pub data Phase : Type 0 where
  claimed : Phase
  storing : List (Slot → Slot) → Phase

pub record Flight : Type 0 where
  pub job : Job
  pub slot_idx : ℕ
  pub phase : Phase

-- The mapping, the writers that have no slot, those that have claimed one, in the order of their
-- claims, and what the reads have returned.
pub record Pool : Type 0 where
  pub mem : RingMem
  pub waiting : List Job
  pub flying : List Flight
  pub got : List Entry

-- Whose turn it is: a waiting writer's, one's that has a slot, or a reader's, for a whole `read`.
pub data Turn : Type 0 where
  claim : ℕ → Turn
  go_on : ℕ → Turn
  read_next : Turn

-- The reads of a schedule.
unfoldable pub count_reads : List Turn → ℕ
count_reads [] = 0
count_reads (claim k ∷ ts) = count_reads ts
count_reads (go_on j ∷ ts) = count_reads ts
count_reads (read_next ∷ ts) = suc (count_reads ts)

-- The `k`th of a list, and the others.
unfoldable pub pick : ℕ → List Job → Option (Job × List Job)
pick k [] = none
pick zero (job ∷ jobs) = some (job, jobs)
pick (suc k) (job ∷ jobs) = elim (pick k jobs) [ none ↦ none | some r ↦ some (r.0, job ∷ r.1) ]

unfoldable pub remove : ℕ → List Flight → List Flight
remove k [] = []
remove zero (x ∷ xs) = xs
remove (suc k) (x ∷ xs) = x ∷ remove k xs

module _ ⦃uuid : UuidApi⦄ where
  -- The stores of `reset`, of `write` and of `write_data`, one by one.
  unfoldable pub stores_of : Job → List (Slot → Slot)
  stores_of job =
      set_status SlotStatus.empty
      ∷ set_operation OperationKind.none
      ∷ set_size 0
      ∷ set_id uuid.nil
      ∷ set_timestamp 0
      ∷ set_operation job.kind
      ∷ set_id job.fresh_id
      ∷ set_status SlotStatus.writing
      ∷ set_size (length job.bytes)
      ∷ set_timestamp job.now
      ∷ copy_in job.bytes
      ∷ set_status SlotStatus.ready
      ∷ []

  abbrev pub in_phase : Flight → Phase → Flight
  in_phase x phase = record x { phase = phase }

  -- What a writer does with its slot at its turn.
  unfoldable pub act : Flight → Phase → Slot → ℕ → Pool → Pool
  act x claimed slot j pool =
      if is_available (status slot)
      then record pool { flying = set pool.flying j (in_phase x (storing (stores_of x.job))) }
      else record pool { waiting = pool.waiting ++ (x.job ∷ []); flying = remove j pool.flying }
  act x (storing []) slot j pool = pool
  act x (storing (store ∷ more)) slot j pool = record pool {
    mem = record (pool.mem) { slots = set pool.mem.slots x.slot_idx (store slot).mem };
    flying = set pool.flying j (in_phase x (storing more));
  }

  abbrev pub take_index : Option (Job × List Job) → Pool → Outcome RingError Pool
  take_index none pool = ok pool
  take_index (some (job, rest)) pool = Header.next_producer_idx [] pool.mem.header >>= λ won.
      ok (record {
        mem = record (pool.mem) { header = won.1 };
        waiting = rest;
        got = pool.got;
        flying = pool.flying ++ (record { job = job; slot_idx = won.0; phase = claimed } ∷ []);
      })

  abbrev pub take_turn : RingBuffer → Option Flight → ℕ → Pool → Outcome RingError Pool
  take_turn rb none j pool = ok pool
  take_turn rb (some x) j pool =
      (get_slot rb.slot_size x.slot_idx pool.mem).0 >>= λ slot. ok (act x x.phase slot j pool)

  abbrev pub found : Option Entry → List Entry
  found none = []
  found (some e) = e ∷ []

  abbrev pub take_entry : Pool → Outcome RingError (Option Entry) × RingMem → Outcome RingError Pool
  take_entry pool (r, m) = r >>= λ e. ok (record pool { mem = m; got = pool.got ++ found e })

  unfoldable pub advance : RingBuffer → Turn → Pool → Outcome RingError Pool
  unfolding act pick
  advance rb (claim k) pool = take_index (pick k pool.waiting) pool
  advance rb (go_on j) pool = take_turn rb (get_elem? pool.flying j) j pool
  advance rb read_next pool = take_entry pool (read rb pool.mem)

  unfoldable pub run : RingBuffer → List Turn → Pool → Outcome RingError Pool
  unfolding advance
  run rb [] pool = ok pool
  run rb (t ∷ ts) pool = advance rb t pool >>= run rb ts

-- The writers of `jobs`, before any of them has begun.
abbrev pub start : List Job → RingMem → Pool
start jobs m = record { mem = m; waiting = jobs; flying = []; got = [] }

-- No store is left.
abbrev pub IsStored : Flight → Type 0
IsStored x = x.phase ≡ storing []

-- ===== src/Ring/Writers/Invariant.antt =====
-- What holds between any two steps of the writers.
use mathlib.Core.List.{Perm}
use elgate.Prelude.{
  ℕ, ◌+◌, ◌-◌, ◌*◌, ◌%◌, ◌^◌, ◌≤◌, ◌<◌, ◌≡◌, List, [], ◌∷◌, ◌++◌, length, map, All,
}
use elgate.Ring.Layout.{IsRoomy}
use elgate.Ring.Slot.{SlotMem}
use elgate.Ring.Chain.{Chain}
use elgate.Ring.Buffer.{RingBuffer, Entry}
use elgate.Ring.Buffer.Valid.{Holds, IsFree, units, area}
use elgate.Ring.Writers.{Job, Flight, Phase, claimed, storing, Pool, entry_of}
use elgate.Ring.Writers.Stores.{finish}

abbrev pub Fits : RingBuffer → Job → Type 0
Fits rb job = length job.bytes ≤ area rb

-- A slot that its writer has not touched is free; another will hold the entry.
abbrev pub IsOnWay : RingBuffer → Job → Phase → SlotMem → Type 0
IsOnWay rb job claimed s = IsFree tt s × Fits rb job
IsOnWay rb job (storing todo) s = Holds (area rb) (entry_of job) (finish rb todo s)

abbrev pub IsOwned : RingBuffer → Flight → SlotMem → Type 0
IsOwned rb x s = IsOnWay rb x.job x.phase s

abbrev pub jobs_of : List Flight → List Job
jobs_of = map (λ x. x.job)

-- The turns that a writer needs for its stores, and those of all: a waiting writer has to claim its
-- slot first.
abbrev pub work_of : Phase → ℕ
work_of claimed = 13
work_of (storing todo) = length todo

abbrev pub all_work : List Flight → ℕ
all_work [] = 0
all_work (x ∷ xs) = work_of x.phase + all_work xs

abbrev pub work : Pool → ℕ
work pool = 14 * length pool.waiting + all_work pool.flying

-- The slots of the writers, one after the other from `h` on.
abbrev pub Numbered : ℕ → ℕ → List Flight → Type 0
Numbered n h [] = Unit
Numbered n h (x ∷ xs) = (x.slot_idx ≡ h) × Numbered n ((h + 1) % n) xs

-- Behind the entries `q` from the index `c` on, the slots of the writers follow from the index `p`
-- on in the order of their claims, and then free ones.
pub record IsPool (rb : RingBuffer) (q : List Entry) (jobs : List Job) (p c : ℕ) (pool : Pool)
    : Type 0 where
  pub roomy : IsRoomy rb.slot_size
  pub small : pool.mem.header.slot_count < 2 ^ 64
  pub mapped : length pool.mem.slots ≡ pool.mem.header.slot_count
  pub head : c < pool.mem.header.slot_count
  pub tail : p < pool.mem.header.slot_count
  pub ahead : p ≡ (c + length q) % pool.mem.header.slot_count
  pub consumer : pool.mem.header.consumer_idx ≡ c
  pub producer :
      pool.mem.header.producer_idx ≡ (p + length pool.flying) % pool.mem.header.slot_count
  pub room : length q + length pool.flying + length pool.waiting ≤ pool.mem.header.slot_count
  pub fits : All (Fits rb) pool.waiting
  pub numbered : Numbered pool.mem.header.slot_count p pool.flying
  pub same : Perm (pool.waiting ++ jobs_of pool.flying) jobs
  pub pending : Chain (Holds (area rb)) pool.mem.header.slot_count pool.mem.slots c q
  pub owned : Chain (IsOwned rb) pool.mem.header.slot_count pool.mem.slots p pool.flying
  pub free :
      Chain IsFree pool.mem.header.slot_count pool.mem.slots
        ((p + length pool.flying) % pool.mem.header.slot_count)
        (units (pool.mem.header.slot_count - (length q + length pool.flying)))

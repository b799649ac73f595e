-- ===== src/Ring/Writers/Tests.antt =====
-- Two writers whose stores alternate, on a ring of three slots with one entry, which is read between
-- the claims.
use mathlib.Core.List.{Perm}
use elgate.Prelude.{
  ℕ, zero, suc, ◌*◌, ◌≤◌, ◌≡◌, refl, List, [], ◌∷◌, ◌++◌, replicate, arith, length, map, All,
  Outcome, ok, err, panic, fault,
}
use elgate.Ring.Header
use elgate.Ring.Slot.{disk_write, network_send, from_ptr, status, read_data, operation}
use elgate.Ring.Memory.{RingError, get_slot}
use elgate.Ring.Buffer.Valid.{IsValid}
use elgate.Ring.Samples.{uuid_bytes, handle, first, one_entry, one_entry-IsValid}
use elgate.Ring.Buffer.{Entry, read, read_slot}
use elgate.Ring.Writers.{
  Job, Pool, Turn, claim, go_on, read_next, count_reads, entry_of, start, run, stores_of, IsStored,
}
use elgate.Ring.Writers.Invariant.{jobs_of}
use elgate.Ring.Writers.Done.{run-stores}
use elgate.Ring.Writers.Ends.{run-ends}

abbrev job_a : Job
job_a = record { kind = disk_write; bytes = 3 ∷ 4 ∷ []; fresh_id = replicate 16 1; now = 1001 }

abbrev job_b : Job
job_b = record { kind = network_send; bytes = 5 ∷ []; fresh_id = replicate 16 2; now = 1002 }

abbrev jobs : List Job
jobs = job_a ∷ job_b ∷ []

-- The two of them, one store after the other.
abbrev in_turn : ℕ → List Turn
in_turn zero = []
in_turn (suc k) = go_on 0 ∷ go_on 1 ∷ in_turn k

-- The second writer claims its slot first, and the entry is read before the other claims.
abbrev turns : List Turn
turns = claim 1 ∷ read_next ∷ claim 0 ∷ in_turn 13

abbrev value_or : Pool → Outcome RingError Pool → Pool
value_or d (ok pool) = pool
value_or d (err e) = d
value_or d panic = d
value_or d fault = d

abbrev last_pool : Pool
last_pool = value_or (start jobs one_entry) (run handle turns (start jobs one_entry))

schedule_done :
    (run handle turns (start jobs one_entry) ≡ ok last_pool)
    × (last_pool.waiting ≡ [])
    × (jobs_of last_pool.flying ≡ job_b ∷ job_a ∷ [])
    × (last_pool.got ≡ first ∷ [])
unfolding run stores_of Header.next_producer_idx Header.claim get_slot from_ptr status read
    Header.increment_completed Header.next_consumer_idx read_slot read_data operation
schedule_done = (refl, refl, refl, refl)

last_pool-IsStored : All IsStored last_pool.flying
unfolding run stores_of Header.next_producer_idx Header.claim get_slot from_ptr status read
    Header.increment_completed Header.next_consumer_idx read_slot read_data operation
last_pool-IsStored = (refl, (refl, tt))

one_read : count_reads turns ≤ 1
unfolding count_reads
one_read = omega arith

run-stores_example :
    (rest : List Entry) × (last_pool.got ++ rest ≡ first ∷ [])
    × IsValid handle (rest ++ map entry_of (jobs_of last_pool.flying)) last_pool.mem
    × Perm (jobs_of last_pool.flying) jobs
run-stores_example =
    run-stores handle (first ∷ []) jobs one_entry turns last_pool one_entry-IsValid (omega arith)
      (omega arith, (omega arith, tt)) one_read schedule_done.0 schedule_done.1 last_pool-IsStored

run-ends_example :
    (pool : Pool) × (run handle turns (start jobs one_entry) ≡ ok pool)
    × (more : List Turn) × (pool' : Pool) × (run handle more pool ≡ ok pool')
    × (length more ≤ 14 * length jobs)
    × (pool'.waiting ≡ [])
    × All IsStored pool'.flying
run-ends_example =
    run-ends handle (first ∷ []) jobs one_entry turns one_entry-IsValid (omega arith)
      (omega arith, (omega arith, tt)) one_read

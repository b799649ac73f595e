-- ===== src/Examples/Optimization/Tests.antt =====
-- Two writers and a reader of numa_optimization.rs on a ring of three slots, which the writers fill.
use elgate.Prelude.{ℕ, ◌≤◌, ◌+◌, ◌≡◌, refl, true, List, [], ◌∷◌, some, get_elem?}
use elgate.Ring.Samples.{uuid_bytes, quiet, handle, no_entry, no_entry-IsMapped, quiet-IsAlone}
use elgate.Ring.Buffer.{
  write, max_payload_size, wait_for_slot, wait_loop, try_slot, take_slot, available_slots, read,
  read_slot,
}
use elgate.Ring.Header.{next_producer_idx, next_consumer_idx, claim}
use elgate.Ring.Memory.{get_slot}
use elgate.Ring.Slot.{
  from_ptr, status, reset, set_status, set_operation, set_size, set_id, set_timestamp, write_data,
  copy_in, read_data,
}
use elgate.Examples.Optimization.{turn, Turn, writer, reader, Writer, total_expected, run_benchmark}
use elgate.Examples.Optimization.Waits.{run_benchmark-waits}
use elgate.Examples.Optimization.Counts.{total_completed, total_failed}

-- The first writer fails at its fourth write, and the reader has read one entry.
abbrev schedule : List Turn
schedule =
    writer 0 quiet ∷ writer 0 quiet ∷ writer 1 quiet ∷ writer 0 quiet ∷ reader ∷ writer 1 quiet ∷ []

abbrev data_bytes : List ℕ
data_bytes = 1 ∷ 2 ∷ []

abbrev stopped : Writer
stopped = record { completed = 2; failed = true }

-- The fourth write has failed.
has_failed :
    get_elem? (run_benchmark handle data_bytes 2 schedule no_entry).writers 0 ≡ some stopped
unfolding run_benchmark turn write max_payload_size wait_for_slot wait_loop try_slot take_slot
    available_slots next_producer_idx claim get_slot from_ptr status reset set_status set_operation
    set_size set_id set_timestamp write_data copy_in read next_consumer_idx read_slot read_data
has_failed = refl

run_benchmark-waits_example :
    let t = run_benchmark handle data_bytes 2 schedule no_entry in
    (t.read_count ≤ total_completed t.writers)
    × (total_completed t.writers + total_failed t.writers ≤ total_expected 2)
run_benchmark-waits_example =
    run_benchmark-waits handle data_bytes 2 schedule no_entry
      (quiet-IsAlone, (quiet-IsAlone, (quiet-IsAlone, (quiet-IsAlone, (quiet-IsAlone, tt)))))
      no_entry-IsMapped refl

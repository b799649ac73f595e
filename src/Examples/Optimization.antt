-- ===== src/Examples/Optimization.antt =====
-- elgate-core/examples/numa_optimization.rs: the threads of run_benchmark, which write to one ring while
-- another reads it. A turn of a thread is one call of the ring, and the turns come in any order.
pub mod Counts
pub mod Waits
mod Tests
use elgate.Prelude.{
  ℕ, ◌+◌, ◌*◌, Bool, true, false, List, [], ◌∷◌, Option, ltb, ◌||◌, not, if◌then◌else◌, get_elem?,
  set, replicate, Outcome, ok, err, panic, fault,
}
use elgate.Ring.Slot.{UuidApi, custom}
use elgate.Ring.Memory.{RingMem, RingError}
use elgate.Ring.Buffer.{RingBuffer, World, Entry, write, read}

abbrev pub operations_per_thread : ℕ
operations_per_thread = 100_000

-- A thread that writes: how often its writes have returned, and whether one has failed, which ends it.
pub record Writer : Type 0 where
  pub completed : ℕ
  pub failed : Bool

-- The threads, and the mapping between their turns. The reader ends at an error too.
pub record Threads : Type 0 where
  pub writers : List Writer
  pub read_count : ℕ
  pub read_failed : Bool
  pub ring : RingMem

-- The next turn: that of a writer, with what its call meets, or the reader's.
pub data Turn : Type 0 where
  writer : ℕ → World → Turn
  reader : Turn

abbrev pub after_write : Outcome RingError ℕ → Writer → Writer
after_write (ok i) x = record x { completed = x.completed + 1 }
after_write (err e) x = record x { failed = true }
after_write panic x = record x { failed = true }
after_write fault x = record x { failed = true }

abbrev pub after_read : Outcome RingError (Option Entry) → Threads → Threads
after_read (ok (Option.some e)) t = record t { read_count = t.read_count + 1 }
after_read (ok Option.none) t = t
after_read (err e) t = record t { read_failed = true }
after_read panic t = record t { read_failed = true }
after_read fault t = record t { read_failed = true }

-- What the reader waits for.
abbrev pub total_expected : ℕ → ℕ
total_expected num_threads = operations_per_thread * num_threads

-- Whether a writer has neither failed nor come to its end.
abbrev pub writes_on : Writer → Bool
writes_on x = if x.failed then false else ltb x.completed operations_per_thread

module _ ⦃uuid : UuidApi⦄ (rb : RingBuffer) (test_data : List ℕ) (num_threads : ℕ) where
  abbrev pub write_turn : ℕ → World → Writer → Threads → Threads
  write_turn i w x t =
      if writes_on x
      then (let (r, m) = write rb w custom test_data t.ring in
          record t { writers = set t.writers i (after_write r x); ring = m })
      else t

  abbrev pub read_turn : Threads → Threads
  read_turn t =
      if t.read_failed
      then t
      else if ltb t.read_count (total_expected num_threads)
      then (let (r, m) = read rb t.ring in after_read r (record t { ring = m }))
      else t

  abbrev pub writer_turn : ℕ → World → Option Writer → Threads → Threads
  writer_turn i w Option.none t = t
  writer_turn i w (Option.some x) t = write_turn i w x t

  unfoldable pub turn : Turn → Threads → Threads
  turn (writer i w) t = writer_turn i w (get_elem? t.writers i) t
  turn reader t = read_turn t

  -- What the threads come to by some turns.
  unfoldable pub turns : List Turn → Threads → Threads
  turns [] t = t
  turns (next ∷ more) t = turns more (turn next t)

  -- `run_benchmark`, from the threads' start.
  abbrev pub spawned : RingMem → Threads
  spawned m = record {
    writers = replicate num_threads (record { completed = 0; failed = false });
    read_count = 0;
    read_failed = false;
    ring = m;
  }

  unfoldable pub run_benchmark : List Turn → RingMem → Threads
  unfolding turns
  run_benchmark schedule m = turns schedule (spawned m)

-- ===== src/Examples/Optimization/Waits.antt =====
-- The reader of run_benchmark in elgate-core/examples/numa_optimization.rs against its writers.
use elgate.Prelude.{
  ℕ, zero, suc, ◌+◌, ◌*◌, ◌≤◌, ◌≡◌, refl, ap, ◌∙◌, Bool, true, false, List, [], ◌∷◌, Option, some,
  none, All, Bool-cases, inl, inr, ltb, arith, if◌then◌else◌, get_elem?, replicate, Outcome, ok,
  length, length-set, length-replicate,
}
use elgate.Ring.Slot.{UuidApi, custom}
use elgate.Ring.Memory.{RingMem, RingError}
use elgate.Ring.Buffer.{RingBuffer, World, Entry, write, read}
use elgate.Ring.Buffer.Valid.{area}
use elgate.Ring.Buffer.Full.{IsAlone}
use elgate.Ring.Pending.{any_entry, IsMapped, pending, count}
use elgate.Ring.Pending.Writes.{write-Adds}
use elgate.Ring.Pending.Reads.{received, Removes, read-Removes}
use elgate.Examples.Optimization.Counts.{
  total_completed, IsWithin, total_completed-set, All-set, total_completed_bound, total_failed,
  after_write_lem,
}
use elgate.Examples.Optimization.{
  operations_per_thread, Writer, Threads, Turn, writer, reader, after_write, after_read,
  total_expected, writes_on, write_turn, read_turn, writer_turn, spawned, turn, turns,
  run_benchmark,
}

-- The calls of the turns do not overlap.
abbrev pub AllApart : List Turn → Type 0
AllApart [] = Unit {0}
AllApart (writer i w ∷ more) = IsAlone w × AllApart more
AllApart (reader ∷ more) = AllApart more

module _ ⦃uuid : UuidApi⦄ (rb : RingBuffer) (bytes : List ℕ) (num_threads : ℕ) where
  -- The entries read and those that wait are those whose writes have returned.
  record Balances (t : Threads) : Type 0 where
    mapping : IsMapped rb t.ring
    within : All IsWithin t.writers
    threads : length t.writers ≡ num_threads
    law :
        t.read_count + count any_entry (pending (area rb) t.ring.slots) ≡ total_completed t.writers

  write_turn-Balances :
      (i : ℕ) (w : World) (x : Writer) (t : Threads)
      → get_elem? t.writers i ≡ some x
      → IsAlone w
      → Balances t
      → Balances (write_turn rb bytes num_threads i w x t)
  write_turn-Balances i w x t here alone b = elim (Bool-cases (writes_on x)) [
    | inl on ↦
        let a = write-Adds any_entry rb w custom bytes t.ring alone b.mapping in
        let r = (write rb w custom bytes t.ring).0 in
        let (within, counted) = after_write_lem bytes r x on in
        rw on (record {
          mapping = a.mapping;
          within = All-set IsWithin t.writers i (after_write r x) b.within within;
          threads = length-set t.writers i (after_write r x) ∙ b.threads;
          law = omega (
            arith,
            b.law,
            a.entries,
            counted,
            total_completed-set t.writers i x (after_write r x) here,
          );
        })
    | inr off ↦ rw off b
  ]

  after_read-Balances :
      (t : Threads) (d : Outcome RingError (Option Entry) × RingMem)
      → Balances t
      → Removes any_entry rb t.ring d
      → Balances (after_read d.0 (record t { ring = d.1 }))
  after_read-Balances t d b r = by_entry r.entry r.returned r.entries
    where
      by_entry :
          (found : Option Entry)
          → d.0 ≡ ok found
          → count any_entry (pending (area rb) d.1.slots) + count any_entry (received found)
            ≡ count any_entry (pending (area rb) t.ring.slots)
          → Balances (after_read d.0 (record t { ring = d.1 }))
      by_entry none e counted = rw e (record {
        mapping = r.mapping;
        within = b.within;
        threads = b.threads;
        law = omega (arith, b.law, counted);
      })
      by_entry (some x) e counted = rw e (record {
        mapping = r.mapping;
        within = b.within;
        threads = b.threads;
        law = omega (arith, b.law, counted);
      })

  either-Balances :
      (stopped more : Bool) (t u : Threads)
      → Balances t
      → Balances u
      → Balances (if stopped then t else if more then u else t)
  either-Balances true more t u b c = b
  either-Balances false true t u b c = c
  either-Balances false false t u b c = b

  read_turn-Balances : (t : Threads) → Balances t → Balances (read_turn rb bytes num_threads t)
  read_turn-Balances t b =
      either-Balances t.read_failed (ltb t.read_count (total_expected num_threads)) t _ b
        (after_read-Balances t (read rb t.ring) b (read-Removes any_entry rb t.ring b.mapping))

  turn-Balances :
      (next : Turn) (t : Threads)
      → AllApart (next ∷ [])
      → Balances t
      → Balances (turn rb bytes num_threads next t)
  unfolding turn
  turn-Balances (writer i w) t apart b = by_writer (get_elem? t.writers i) refl
    where
      by_writer :
          (x : Option Writer)
          → get_elem? t.writers i ≡ x
          → Balances (writer_turn rb bytes num_threads i w x t)
      by_writer none e = b
      by_writer (some x) e = write_turn-Balances i w x t e apart.0 b
  turn-Balances reader t apart b = read_turn-Balances t b

  turns-Balances :
      (schedule : List Turn) (t : Threads)
      → AllApart schedule
      → Balances t
      → Balances (turns rb bytes num_threads schedule t)
  unfolding turns
  turns-Balances [] t apart b = b
  turns-Balances (writer i w ∷ more) t apart b =
      turns-Balances more _ apart.1 (turn-Balances (writer i w) t (apart.0, tt) b)
  turns-Balances (reader ∷ more) t apart b =
      turns-Balances more _ apart (turn-Balances reader t tt b)

  spawned-Balances :
      (m : RingMem)
      → IsMapped rb m
      → pending (area rb) m.slots ≡ []
      → Balances (spawned rb bytes num_threads m)
  spawned-Balances m h bare = record {
    mapping = h;
    within = fresh_within num_threads;
    threads = length-replicate num_threads _;
    law = omega (arith, ap (count any_entry) bare, fresh_completed num_threads);
  }
    where
      fresh_within : (n : ℕ) → All IsWithin (replicate n (record { completed = 0; failed = false }))
      fresh_within zero = tt
      fresh_within (suc n) = (omega arith, fresh_within n)

      fresh_completed :
          (n : ℕ) → total_completed (replicate n (record { completed = 0; failed = false })) ≡ 0
      fresh_completed zero = refl
      fresh_completed (suc n) = omega (arith, fresh_completed n)

  -- In every order of calls that do not overlap, on a ring in which nothing waits: the reader has
  -- read no more than the writes that have returned, and these are fewer than what it waits for by
  -- one at least for each writer that has failed; so once a write has failed, it does not come to
  -- its end.
  pub run_benchmark-waits :
      (schedule : List Turn) (m : RingMem)
      → AllApart schedule
      → IsMapped rb m
      → pending (area rb) m.slots ≡ []
      → let t = run_benchmark rb bytes num_threads schedule m in
        (t.read_count ≤ total_completed t.writers)
        × (total_completed t.writers + total_failed t.writers ≤ total_expected num_threads)
  unfolding run_benchmark
  run_benchmark-waits schedule m apart h bare =
      let b =
        turns-Balances schedule (spawned rb bytes num_threads m) apart
          (spawned-Balances m h bare) in
      (
        omega (arith, b.law),
        omega (
          arith,
          total_completed_bound _ b.within,
          ap (λ n. operations_per_thread * n) b.threads,
        ),
      )

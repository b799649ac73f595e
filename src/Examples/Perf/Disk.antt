-- ===== src/Examples/Perf/Disk.antt =====
-- The benchmark of the disk of elgate-core/examples/perf_benchmark.rs, on a ring that nobody reads.
use elgate.Prelude.{
  ℕ, ◌*◌, ◌<◌, ◌≡◌, ◌⊎◌, refl, inl, inr, true, List, [], ltb, lt→ltb, le→ltb, if◌then◌else◌, arith,
  IoError, io_err, ok, panic,
}
use elgate.Ring.Slot.{UuidApi}
use elgate.Ring.Memory.{RingMem}
use elgate.Ring.Buffer.{RingBuffer, RingBufferOptions}
use elgate.Ring.Create.{FileIo, create}
use elgate.Ring.Create.Fresh.{create-Created}
use elgate.Net.IoUring.{State}
use elgate.Examples.Throughput.{kb, mb, iterations, data_size, bench_data}
use elgate.Examples.Process.{
  tokio, tokio_uring, of_disk, for_range, disk_read_call, disk_write_call,
}
use elgate.Examples.Grants.{IsIdle, GrantsRead, GrantsWrite, read_granted, write_granted}
use elgate.Examples.Calls.{write_file_refused}
use elgate.Examples.Loops.{
  for_range_lem, for_range_some, for_range_panics, for_range_panics_at_once, and_then_panic,
  or_panic_ok, or_panic_err,
}
use elgate.Disk.IoUring.{open_failed}
use elgate.Examples.Perf.{
  DiskBenchmark, disk_options, disk_engine, started, write_round, read_round, disk_loops,
  benchmark_disk_io,
}

-- The ring's file can be opened, resized and mapped.
pub record MakesRing (io : FileIo) : Type 0 where
  pub opened : io.opened ≡ true
  pub resized : io.resized ≡ true
  pub mapped : io.mapped ≡ true

-- A new ring of 16 MiB is one that nobody reads.
pub new_ring-IsIdle :
    ⦃uuid : UuidApi⦄ (io : FileIo) (o : RingBufferOptions) (now : ℕ)
    → MakesRing io
    → o.size ≡ 16 * mb
    → o.slot_size ≡ 8 * kb
    → (r : RingBuffer × RingMem) × (create io o now ≡ ok r) × IsIdle r.0 (started r.1)
new_ring-IsIdle io o now h size slot_size =
    let (r, made, c) =
      create-Created io o now h.opened h.resized h.mapped (omega (arith, slot_size))
        (omega (arith, size, slot_size)) (omega (arith, size)) in
    (
      r,
      made,
      (refl, ([], record { place = r.1.header.producer_idx; valid = c.valid; stands = inl refl })),
    )

-- What the write behind the first `k` meets: it is not there, and the system grants every read, or
-- its file does not open.
abbrev pub GoesOn : DiskBenchmark → ℕ → ℕ → Type 0
GoesOn a path k =
    ((k ≡ iterations) × ((i : ℕ) → GrantsRead (128 * kb) path (a.reading i)))
    ⊎ ((k < iterations) × (e : IoError) × ((a.writing k).files.open_or_create path ≡ io_err e))

module _ ⦃uuid : UuidApi⦄ (text : ℕ → List ℕ) (a : DiskBenchmark) (path : ℕ) (rb : RingBuffer) where
  write_round_lem :
      (i : ℕ) (s : State)
      → GrantsWrite path bench_data (a.writing i)
      → IsIdle rb s
      → (s' : State) × (write_round tokio_uring text a path rb i s ≡ (ok tt, s')) × IsIdle rb s'
  write_round_lem i s g h =
      let (s', done, h') =
        write_granted (disk_engine text rb) path (a.writing i) (i * data_size) bench_data s g h in
      (
        s',
        or_panic_ok
            (disk_write_call tokio_uring (disk_engine text rb) (a.writing i) path (i * data_size)
              bench_data)
            tt s s' done,
        h',
      )

  module _ (k : ℕ) (writes : (i : ℕ) → i < k → GrantsWrite path bench_data (a.writing i)) where
    disk_loops_end :
        (s : State)
        → k ≡ iterations
        → ((i : ℕ) → GrantsRead (128 * kb) path (a.reading i))
        → IsIdle rb s
        → (disk_loops tokio_uring text a path rb s).0 ≡ ok tt
    disk_loops_end s all reads h =
        let (s1, written, h1) =
          for_range_some (IsIdle rb) (write_round tokio_uring text a path rb) (λ i. tt) k
            (λ i t lt. write_round_lem i t (writes i lt)) iterations 0 s (omega (arith, all)) h in
        let (s2, read, h2) =
          for_range_lem (IsIdle rb) (read_round tokio_uring text a path rb)
            (λ i. (reads i).bytes (i * data_size))
            (λ i t idle.
              let (t', done, idle') =
                read_granted (disk_engine text rb) path (a.reading i) (i * data_size) t (reads i)
                  idle in
              (
                t',
                or_panic_ok
                    (disk_read_call tokio_uring (disk_engine text rb) (a.reading i) path
                      (i * data_size))
                    ((reads i).bytes (i * data_size)) t t' done,
                idle',
              ))
            iterations 0 s1 h1 in
        rw (written, read) refl

    disk_loops_panic :
        (s : State) (e : IoError)
        → k < iterations
        → (a.writing k).files.open_or_create path ≡ io_err e
        → IsIdle rb s
        → (disk_loops tokio_uring text a path rb s).0 ≡ panic
    disk_loops_panic s e within refused h =
        and_then_panic (for_range 0 iterations (write_round tokio_uring text a path rb) s) _ (
          for_range_panics (IsIdle rb) (write_round tokio_uring text a path rb) (λ i. tt) k
            (λ i t lt. write_round_lem i t (writes i lt)) iterations 0 s (omega arith) within
            (λ t idle.
              or_panic_err
                (disk_write_call tokio_uring (disk_engine text rb) (a.writing k) path
                  (k * data_size) bench_data)
                (of_disk (open_failed e)) t t
                (write_file_refused (disk_engine text rb) (a.writing k) t path (k * data_size)
                  bench_data e refused))
            h)

-- On a ring that is made: under tokio::main, by which the program runs, the benchmark of the disk
-- panics. Inside of tokio_uring::start, with its first `k` writes granted, it comes to its end
-- where these are all 10,000 and every read is granted, though its ring has no slots for most of
-- the notifications, and panics where the next write cannot open its file.
pub benchmark_disk_io-outcome :
    ⦃uuid : UuidApi⦄ (text : ℕ → List ℕ) (a : DiskBenchmark) (path : ℕ) (io : FileIo) (now k : ℕ)
    → MakesRing io
    → ((i : ℕ) → i < k → GrantsWrite path bench_data (a.writing i))
    → GoesOn a path k
    → (benchmark_disk_io tokio text io now a path ≡ panic)
      × (benchmark_disk_io tokio_uring text io now a path
          ≡ (if ltb k iterations then panic else ok tt))
unfolding benchmark_disk_io
benchmark_disk_io-outcome text a path io now k h writes goes =
    let (r, made, idle) = new_ring-IsIdle io disk_options now h refl refl in
    (
      rw made (
          and_then_panic (for_range 0 iterations (write_round tokio text a path r.0) (started r.1))
            _ (for_range_panics_at_once iterations 0 _ (started r.1) (omega arith) refl)),
      rw made (elim goes [
        | inl (all, reads) ↦
            rw (le→ltb k iterations (omega (arith, all)))
              (disk_loops_end text a path r.0 k writes (started r.1) all reads idle)
        | inr (within, e, refused) ↦
            rw (lt→ltb k iterations within)
              (disk_loops_panic text a path r.0 k writes (started r.1) e within refused idle)
      ]),
    )

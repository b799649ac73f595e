-- ===== src/Examples/Perf/Tests.antt =====
-- The benchmark of the disk of elgate-core/examples/perf_benchmark.rs, whose 3,001st write fails.
use elgate.Prelude.{
  ℕ, ◌<◌, ◌≡◌, refl, lt→ltb, inr, true, [], ◌∷◌, ltb, if◌then◌else◌, arith, io_error, io_err, panic,
}
use elgate.Ring.Samples.{uuid_bytes}
use elgate.Ring.Create.{FileIo}
use elgate.Examples.Process.{tokio, tokio_uring, Answers}
use elgate.Examples.Grants.{GrantsWrite}
use elgate.Examples.Throughput.{bench_data}
use elgate.Examples.Perf.{DiskBenchmark, benchmark_disk_io}
use elgate.Examples.Perf.Disk.{MakesRing, benchmark_disk_io-outcome}
use elgate.Examples.Profile.Samples.{grants_all, grants_write}

abbrev file_ok : FileIo
file_ok = record { opened = true; resized = true; mapped = true }

ring_made : MakesRing file_ok
ring_made = record { opened = refl; resized = refl; mapped = refl }

-- The file cannot be opened for the 3,001st write.
abbrev refuses : Answers
refuses = record grants_all {
  files = record (grants_all.files) { open_or_create = λ path. io_err (io_error 28) };
}

abbrev disk_benchmark : DiskBenchmark
disk_benchmark = record {
  writing = λ i. if ltb i 3_000 then grants_all else refuses;
  reading = λ i. grants_all;
}

granted_below : (i : ℕ) → i < 3_000 → GrantsWrite 4 bench_data (disk_benchmark.writing i)
granted_below i lt = rw (lt→ltb i 3_000 lt) (grants_write 4 bench_data)

benchmark_disk_io-outcome_example :
    (benchmark_disk_io tokio (λ path. path ∷ []) file_ok 900 disk_benchmark 4 ≡ panic)
    × (benchmark_disk_io tokio_uring (λ path. path ∷ []) file_ok 900 disk_benchmark 4 ≡ panic)
benchmark_disk_io-outcome_example =
    benchmark_disk_io-outcome (λ path. path ∷ []) disk_benchmark 4 file_ok 900 3_000 ring_made
      granted_below (inr (omega arith, io_error 28, refl))

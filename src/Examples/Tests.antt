-- ===== src/Examples/Tests.antt =====
-- Runs of the programs of elgate-core/examples, and their theorems at concrete inputs.
use elgate.Prelude.{ℕ, ◌≡◌, refl, List, [], ◌∷◌, drop, map, leb, arith, true, false, ok, none}
use elgate.Arch.CpuInfo.{CpuInfo}
use elgate.Ring.Buffer.Valid.{IsValid}
use elgate.Ring.Samples.{
  uuid_bytes, quiet, handle, one_entry, one_entry-IsValid, first, no_entry, no_entry-IsValid,
}
use elgate.Ring.Create.{FileIo}
use elgate.Examples.Float.{scaled_index}
use elgate.Examples.Latency
use elgate.Examples.Latency.{LatencyStats, half, nine_tenths, most_of_all}
use elgate.Examples.Latency.Summary.{IsSummary, new-IsSummary}
use elgate.Examples.Histogram.{Row, micros_of, bucket_of, print_histogram}
use elgate.Examples.Histogram.Bars.{Shows, print_histogram-Shows}
use elgate.Examples.Throughput.{consume, fill_and_drain}
use elgate.Examples.Throughput.Drain.{consume-ends}
use elgate.Examples.Throughput.Runs.{outcome_of, fill_and_drain-outcome}

-- In 0.9 and 0.99 as f64 one rounds up and one down; the products with round lengths are exact.
indices_runs :
    (scaled_index half 7 ≡ 3)
    × (scaled_index nine_tenths 10 ≡ 9)
    × (scaled_index most_of_all 100 ≡ 99)
    × (scaled_index most_of_all 1000 ≡ 990)
unfolding scaled_index
indices_runs = (refl, refl, refl, refl)

abbrev samples : List ℕ
samples = 12_000 ∷ 3_000 ∷ 250_000 ∷ 14_000 ∷ []

abbrev stats : LatencyStats
stats = record {
  min = 3_000;
  max = 250_000;
  total = 279_000;
  count = 4;
  p50 = 14_000;
  p90 = 250_000;
  p99 = 250_000;
}

stats_runs : (Latency.new samples ≡ ok stats) × (Latency.average stats ≡ 69_750)
unfolding Latency.new Latency.average
stats_runs = (refl, refl)

new-IsSummary_example : (s : LatencyStats) × (Latency.new samples ≡ ok s) × IsSummary samples s
new-IsSummary_example =
    new-IsSummary samples (omega arith)
      (omega arith, (omega arith, (omega arith, (omega arith, tt)))) (omega arith)

buckets_runs :
    (bucket_of 7 ≡ 7) × (bucket_of 57 ≡ 50) × (bucket_of 999 ≡ 900) × (bucket_of 123_456 ≡ 120_000)
unfolding bucket_of
buckets_runs = (refl, refl, refl, refl)

-- Two samples in one bucket.
rows_runs :
    print_histogram samples
    ≡ ok (
        record { bucket = 3; count = 1; bar_length = 25 }
        ∷ record { bucket = 10; count = 2; bar_length = 50 }
        ∷ record { bucket = 200; count = 1; bar_length = 25 }
        ∷ [])
unfolding print_histogram
rows_runs = refl

print_histogram-Shows_example :
    (rs : List Row) × (print_histogram samples ≡ ok rs) × Shows (map micros_of samples) rs
print_histogram-Shows_example = print_histogram-Shows samples (omega arith) (omega arith)

-- The loop that wants two entries of a ring with one does not come to its end.
consume-ends_example :
    let (r, m') = consume handle 5 2 0 one_entry in
    (r ≡ ok (leb 2 1)) × IsValid handle (drop 2 (first ∷ [])) m'
consume-ends_example =
    consume-ends handle 5 2 (first ∷ []) one_entry one_entry-IsValid (omega arith) (omega arith)

fill_and_drain-outcome_example :
    (fill_and_drain handle quiet (7 ∷ []) 3 no_entry).0 ≡ outcome_of 3 3
fill_and_drain-outcome_example =
    fill_and_drain-outcome handle quiet (7 ∷ []) 3 no_entry (λ ms m. refl) no_entry-IsValid
      (omega arith)

abbrev sound : FileIo
sound = record { opened = true; resized = true; mapped = true }

abbrev flat : CpuInfo
flat = record { logical_cores = 4; physical_cores = none; numa_nodes = []; numa_available = false }

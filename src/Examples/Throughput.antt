-- ===== src/Examples/Throughput.antt =====
-- elgate-core/examples/perf_benchmark.rs and numa_ring_buffer.rs: one process fills a ring and then
-- drains it. Times and rates are only printed.
pub mod Fill
pub mod Drain
pub mod Runs
pub mod Compare
use elgate.Prelude.{
  ℕ, zero, suc, ◌+◌, ◌*◌, Bool, true, false, List, Option, replicate, ltb, if◌then◌else◌, Outcome,
  ok, err, panic, fault,
}
use elgate.Ring.Slot.{UuidApi, OperationKind, disk_write}
use elgate.Ring.Memory.{RingMem, RingError, M, pure, ◌>>=◌, ◌>>◌, lift}
use elgate.Ring.Buffer.{RingBuffer, RingBufferOptions, World, Entry, write, read}
use elgate.Ring.Create.{FileIo, create, open_ring}

abbrev pub kb : ℕ
kb = 1024

abbrev pub mb : ℕ
mb = 1024 * kb

abbrev pub iterations : ℕ
iterations = 10_000

-- `DATA_SIZE`
abbrev pub data_size : ℕ
data_size = 4 * kb

-- The benchmark's data: bytes of 0x42.
abbrev pub bench_data : List ℕ
bench_data = replicate data_size 0x42

abbrev pub bench_options : RingBufferOptions
bench_options = record { path = "/tmp/elgate_bench_ring"; size = 16 * mb; slot_size = 8 * kb }

-- `.unwrap()` of a call's result
abbrev pub unwrapped : {A : Type 0} → Outcome RingError A → Outcome RingError A
unwrapped (ok a) = ok a
unwrapped (err e) = panic
unwrapped panic = panic
unwrapped fault = fault

abbrev pub or_panic : {A : Type 0} → M A → M A
or_panic call m = let (r, m') = call m in (unwrapped r, m')

module _ ⦃uuid : UuidApi⦄ (rb : RingBuffer) where
  -- `for _ in 0..n { ring.write(DiskWrite, &data)?; }`
  unfoldable pub send_each : World → List ℕ → ℕ → M (Unit {0})
  send_each w bytes zero = pure tt
  send_each w bytes (suc n) = do sent ← write rb w disk_write bytes; send_each w bytes n

  -- `assert!(result.is_some())`
  abbrev pub assert_some : Option Entry → M (Unit {0})
  assert_some (Option.some e) = pure tt
  assert_some Option.none = lift panic

  -- `for _ in 0..n { let result = ring.read()?; assert!(result.is_some()); }`
  unfoldable pub read_each : ℕ → M (Unit {0})
  read_each zero = pure tt
  read_each (suc n) = do result ← read rb; assert_some result; read_each n

  -- One comparison of numa_ring_buffer.rs: `n` writes, then `n` reads.
  unfoldable pub fill_and_drain : World → List ℕ → ℕ → M (Unit {0})
  unfolding send_each read_each
  fill_and_drain w bytes n = do send_each w bytes n; read_each n

  -- `while read_count < target { if let Some(_) = ring.read().unwrap() { read_count += 1 } }`, for
  -- at most `fuel` rounds: whether it came to its end.
  unfoldable pub consume : ℕ → ℕ → ℕ → M Bool
  consume zero target read_count = pure (if ltb read_count target then false else true)
  consume (suc fuel) target read_count =
      if ltb read_count target
      then (do
        got ← or_panic (read rb)
        elim got [
          | Option.some e ↦ consume fuel target (read_count + 1)
          | Option.none ↦ consume fuel target read_count
        ])
      else pure true

module _ ⦃uuid : UuidApi⦄ where
  -- `benchmark_ring_buffer` from the first handle on. An `unwrap` of each write panics where the
  -- first of them fails.
  unfoldable pub bench_on : FileIo → World → ℕ → RingBuffer → M Bool
  unfolding send_each consume
  bench_on io w fuel rb = do
    reader ← or_panic (open_ring io bench_options)
    or_panic (send_each rb w bench_data iterations)
    consume reader fuel iterations 0

  -- What it goes on with, `create(...).unwrap()`.
  abbrev pub bench_from :
      FileIo → World → ℕ → Outcome RingError (RingBuffer × RingMem) → Outcome RingError Bool
  bench_from io w fuel (ok r) = (bench_on io w fuel r.0 r.1).0
  bench_from io w fuel (err e) = panic
  bench_from io w fuel panic = panic
  bench_from io w fuel fault = fault

  -- `benchmark_ring_buffer`, its consumer's loop for at most `fuel` rounds.
  unfoldable pub benchmark_ring_buffer : FileIo → FileIo → ℕ → World → ℕ → Outcome RingError Bool
  benchmark_ring_buffer io io' now w fuel = bench_from io' w fuel (create io bench_options now)

-- ===== src/Examples/Profile.antt =====
-- elgate-core/examples/latency_profile.rs: the loops that measure the engines, and main around them.
-- What the clock says between the two ends of an operation is an argument, in nanoseconds.
pub mod Reads
pub mod Writes
pub mod Network
pub mod Whole
pub mod Samples
mod Tests
use elgate.Prelude.{
  ℕ, ◌+◌, ◌*◌, ◌/◌, ◌%◌, List, ◌==◌, if◌then◌else◌, replicate, IoResult, Outcome, ok, panic,
  checked_rem, Infallible,
}
use elgate.Ring.Slot.{UuidApi}
use elgate.Disk.IoUring.{DiskEngine}
use elgate.Net.Sockets.{Addr}
use elgate.Net.IoUring.{NetworkEngine}
use elgate.Examples.Latency
use elgate.Examples.Latency.{LatencyStats}
use elgate.Examples.Process.{
  Runtime, Answers, ExampleError, Process, pure, ◌>>=◌, and_then, try_io, lift, map_err, for_range,
  disk_read_call, disk_write_call, disk_sync_call, net_connect_call, net_send_call,
  net_receive_call, net_close_call,
}

abbrev pub num_operations : ℕ
num_operations = 1000

abbrev pub disk_bytes : List ℕ
disk_bytes = replicate 4096 0x42

abbrev pub net_bytes : List ℕ
net_bytes = replicate 1024 0x42

abbrev pub max_offset : ℕ
max_offset = 1024 * 1024 * 1024

-- What the operations of a profile meet: the warm-up's, and those that are measured, each with the
-- number drawn for it and its latency.
pub record ReadProfile : Type 0 where
  pub warm : ℕ → Answers
  pub metadata : ℕ → IoResult ℕ
  pub draw : ℕ → ℕ
  pub call : ℕ → Answers
  pub elapsed : ℕ → ℕ

pub record WriteProfile : Type 0 where
  pub warm : ℕ → Answers
  pub draw : ℕ → ℕ
  pub call : ℕ → Answers
  pub elapsed : ℕ → ℕ
  pub syncing : ℕ → Answers
  pub last_sync : Answers

pub record NetProfile : Type 0 where
  pub addr : Addr
  pub connecting : Answers
  pub warm_write : ℕ → Answers
  pub warm_read : ℕ → Answers
  pub writing : ℕ → Answers
  pub reading : ℕ → Answers
  pub elapsed : ℕ → ℕ
  pub closing : Answers

module _ ⦃uuid : UuidApi⦄ (rt : Runtime) (engine : DiskEngine) where
  -- One measured read, at an offset within the file.
  abbrev pub measured_read : ReadProfile → ℕ → ℕ → Process ℕ
  measured_read a path i = do
    file_size ← try_io (a.metadata i)
    offset ← lift (checked_rem (a.draw i) file_size)
    bytes ← disk_read_call rt engine (a.call i) path offset
    pure (a.elapsed i)

  unfoldable pub profile_disk_read : ReadProfile → ℕ → ℕ → Process (List ℕ)
  profile_disk_read a path count = do
    warm ← for_range 0 10 (λ i. disk_read_call rt engine (a.warm i) path 0)
    for_range 0 count (measured_read a path)

  -- One measured write; every hundredth is followed by a sync.
  abbrev pub measured_write : WriteProfile → ℕ → ℕ → Process ℕ
  measured_write a test_path i = do
    written ← disk_write_call rt engine (a.call i) test_path (a.draw i % max_offset) disk_bytes
    synced ←
        (if (i + 1) % 100 == 0 then disk_sync_call rt engine (a.syncing i) test_path else pure tt)
    pure (a.elapsed i)

  -- `test_path` is the path with `.write` behind it.
  unfoldable pub profile_disk_write : WriteProfile → ℕ → ℕ → Process (List ℕ)
  profile_disk_write a test_path count = do
    warm ← for_range 0 10 (λ i. disk_write_call rt engine (a.warm i) test_path 0 disk_bytes)
    latencies ← for_range 0 count (measured_write a test_path)
    synced ← disk_sync_call rt engine a.last_sync test_path
    pure latencies

module _ ⦃uuid : UuidApi⦄ (rt : Runtime) (engine : NetworkEngine) where
  -- A write and a read of the response.
  abbrev pub roundtrip : Answers → Answers → ℕ → Process (Unit {0})
  roundtrip w r fd = do
    bytes_written ← net_send_call rt engine w fd net_bytes
    response ← net_receive_call rt engine r fd
    pure tt

  -- A response of another length than what was sent is a warning only.
  abbrev pub measured_roundtrip : NetProfile → ℕ → ℕ → Process ℕ
  measured_roundtrip a fd i = do done ← roundtrip (a.writing i) (a.reading i) fd; pure (a.elapsed i)

  unfoldable pub profile_network : NetProfile → ℕ → Process (List ℕ)
  profile_network a count = do
    fd ← net_connect_call rt engine a.connecting a.addr
    warm ← for_range 0 5 (λ i. roundtrip (a.warm_write i) (a.warm_read i) fd)
    latencies ← for_range 0 count (measured_roundtrip a fd)
    closed ← net_close_call engine a.closing fd
    pure latencies

-- `LatencyStats::new`, which returns or panics.
abbrev pub stats_of : List ℕ → Process LatencyStats
stats_of latencies = lift (map_err (λ e. absurd e) (Latency.new latencies))

-- The three profiles of main, with their statistics. Both engines have the same ring.
unfoldable pub profile_all :
    ⦃uuid : UuidApi⦄
    → Runtime
    → DiskEngine
    → NetworkEngine
    → ReadProfile
    → WriteProfile
    → NetProfile
    → ℕ
    → ℕ
    → Process (LatencyStats × LatencyStats × LatencyStats)
unfolding profile_disk_read profile_disk_write profile_network
profile_all rt disk_engine net_engine reads writes net path test_path = do
  read_latencies ← profile_disk_read rt disk_engine reads path num_operations
  read_stats ← stats_of read_latencies
  write_latencies ← profile_disk_write rt disk_engine writes test_path num_operations
  write_stats ← stats_of write_latencies
  network_latencies ← profile_network rt net_engine net (num_operations / 10)
  network_stats ← stats_of network_latencies
  pure (read_stats, write_stats, network_stats)

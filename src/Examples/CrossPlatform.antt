-- ===== src/Examples/CrossPlatform.antt =====
-- elgate-core/examples/cross_platform_benchmark.rs: what the benchmarks of the engines transfer in one
-- iteration, and in all of them. Times, rates and the benchmarks without the engines have no model.
pub mod Network
pub mod Reads
pub mod Writes
pub mod Random
mod Tests
use elgate.Prelude.{
  ℕ, zero, suc, ◌+◌, ◌-◌, ◌*◌, ◌/◌, ◌%◌, min, Bool, true, false, List, [], ◌∷◌, Option,
  if◌then◌else◌, length, replicate, IoResult, Outcome, ok, err, panic, fault, checked_add,
  checked_sub, checked_div, checked_rem,
}
use elgate.Prelude
use elgate.Ring.Slot.{UuidApi}
use elgate.Disk.IoUring.{DiskEngine, read_file, write_file, sync_file}
use elgate.Net.Sockets.{Addr}
use elgate.Net.IoUring
use elgate.Net.IoUring.{NetworkEngine}
use elgate.Examples.Process.{
  Answers, ExampleError, Process, pure, ◌>>=◌, and_then, net, disk, try_io, lift, timeout, attempt,
  for_range,
}

abbrev pub chunk_size : ℕ
chunk_size = 128 * 1024

abbrev pub mib : ℕ
mib = 1024 * 1024

abbrev pub data_size : ℕ
data_size = 5 * mib

abbrev pub net_chunk_size : ℕ
net_chunk_size = 64 * 1024

-- `(file_size + chunk_size - 1) / chunk_size`
abbrev pub total_chunks : ℕ → ℕ → Outcome ExampleError ℕ
total_chunks file_size chunk =
    Prelude.◌>>=◌ (checked_add file_size chunk)
      (λ sum. Prelude.◌>>=◌ (checked_sub sum 1) (λ top. checked_div top chunk))

-- The number of items of `(0..n).step_by(step)`.
abbrev pub step_count : ℕ → ℕ → ℕ
step_count n step = (n + (step - 1)) / step

-- What one iteration of the benchmark of reads meets, and which calls are late.
pub record ReadAnswers : Type 0 where
  pub metadata : IoResult ℕ
  pub whole : Answers
  pub whole_late : Bool
  pub chunk : ℕ → Answers
  pub chunk_late : ℕ → Bool

pub record WriteAnswers : Type 0 where
  pub metadata : IoResult ℕ
  pub chunk : ℕ → Answers
  pub chunk_late : ℕ → Bool
  pub syncing : Answers
  pub sync_late : Bool

-- The draws of an iteration are a hundred. Where the time of all reads together is up, some have not
-- finished.
pub record RandomAnswers : Type 0 where
  pub metadata : IoResult ℕ
  pub draws : List ℕ
  pub read : ℕ → Answers
  pub unfinished : ℕ → Bool
  pub late : Bool

pub record NetAnswers : Type 0 where
  pub bound : IoResult (Unit {0})
  pub local_addr : IoResult Addr
  pub connecting : Answers
  pub writing : ℕ → Answers
  pub reading : ℕ → Answers
  pub closing : Answers

module _ ⦃uuid : UuidApi⦄ (engine : DiskEngine) where
  abbrev pub go_on : (ℕ → Process ℕ) → ℕ → Option (List ℕ) → Process ℕ
  go_on rest total_read Option.none = pure total_read
  go_on rest total_read (Option.some bytes) = rest (total_read + length bytes)

  -- The chunks from `k` on, up to the first that is late.
  unfoldable pub read_chunks : ReadAnswers → ℕ → ℕ → ℕ → ℕ → Process ℕ
  read_chunks a path k zero total_read = pure total_read
  read_chunks a path k (suc left) total_read =
      let c = a.chunk k in
      timeout (a.chunk_late k) (disk (read_file engine c.world c.files path (k * chunk_size)))
      >>= go_on (read_chunks a path (k + 1) left) total_read

  abbrev pub or_chunks : ReadAnswers → ℕ → ℕ → Option (List ℕ) → Process ℕ
  or_chunks a path file_size Option.none = read_chunks a path 0 (step_count file_size chunk_size) 0
  or_chunks a path file_size (Option.some bytes) = pure (length bytes)

  -- One iteration of `run_read_benchmark`: the bytes that it has read.
  unfoldable pub read_iteration : ReadAnswers → ℕ → Process ℕ
  unfolding read_chunks
  read_iteration a path = do
    len ← try_io a.metadata
    let file_size = min len (1 * mib)
    total ← lift (total_chunks file_size chunk_size)
    let w = a.whole
    bytes ← timeout a.whole_late (disk (read_file engine w.world w.files path 0))
    or_chunks a path file_size bytes

  unfoldable pub run_read_benchmark : (ℕ → ReadAnswers) → ℕ → ℕ → Process (List ℕ)
  unfolding read_iteration
  run_read_benchmark answers path iterations =
      for_range 0 iterations (λ i. read_iteration (answers i) path)

  -- A chunk counts whatever number of its bytes was written.
  abbrev pub counted : ℕ → Option (Unit {0}) → ℕ
  counted total_written Option.none = total_written
  counted total_written (Option.some u) = total_written + chunk_size

  unfoldable pub write_chunks : WriteAnswers → ℕ → ℕ → ℕ → ℕ → Process ℕ
  write_chunks a iter_path k zero total_written = pure total_written
  write_chunks a iter_path k (suc left) total_written = do
    let c = a.chunk k
    let bytes = replicate chunk_size 0x42
    r ←
        timeout (a.chunk_late k)
          (disk (write_file engine c.world c.files iter_path (k * chunk_size) bytes))
    write_chunks a iter_path (k + 1) left (counted total_written r)

  -- One iteration of `run_write_benchmark`: the bytes that it counts.
  unfoldable pub write_iteration : WriteAnswers → ℕ → Process ℕ
  unfolding write_chunks
  write_iteration a iter_path = do
    file_size ← try_io a.metadata
    total ← lift (total_chunks file_size chunk_size)
    total_written ← write_chunks a iter_path 0 (step_count file_size chunk_size) 0
    let y = a.syncing
    r ← timeout a.sync_late (disk (sync_file engine y.world y.files iter_path))
    pure total_written

  unfoldable pub run_write_benchmark : (ℕ → WriteAnswers) → (ℕ → ℕ) → ℕ → Process (List ℕ)
  unfolding write_iteration
  run_write_benchmark answers iter_path iterations =
      for_range 0 iterations (λ i. write_iteration (answers i) (iter_path i))

  -- The offsets of the reads: each draw modulo the greatest offset.
  unfoldable pub draw_offsets : List ℕ → ℕ → Outcome ExampleError (List ℕ)
  draw_offsets [] max_offset = ok []
  draw_offsets (r ∷ draws) max_offset =
      Prelude.◌>>=◌ (checked_rem r max_offset)
        (λ offset. Prelude.◌>>=◌ (draw_offsets draws max_offset) (λ offsets. ok (offset ∷ offsets)))

  -- `join_all` of the reads, in their order: the bytes of those that succeed. A read that has not
  -- finished is one that has not notified the ring.
  abbrev pub got_bytes : Option (Option (List ℕ)) → ℕ
  got_bytes (Option.some (Option.some bytes)) = length bytes
  got_bytes (Option.some Option.none) = 0
  got_bytes Option.none = 0

  unfoldable pub read_all : RandomAnswers → ℕ → ℕ → List ℕ → Process ℕ
  read_all a path i [] = pure 0
  read_all a path i (offset ∷ offsets) = do
    let c = a.read i
    r ← timeout (a.unfinished i) (attempt (disk (read_file engine c.world c.files path offset)))
    total ← read_all a path (i + 1) offsets
    pure (got_bytes r + total)

  -- One iteration of `run_random_access_benchmark`: the bytes that it has read, none where its time
  -- was up.
  unfoldable pub random_iteration : RandomAnswers → ℕ → Process ℕ
  unfolding draw_offsets read_all
  random_iteration a path = do
    file_size ← try_io a.metadata
    offsets ← lift (draw_offsets a.draws (file_size - chunk_size))
    total_read ← read_all a path 0 offsets
    pure (if a.late then 0 else total_read)

module _ ⦃uuid : UuidApi⦄ (engine : NetworkEngine) where
  -- The rounds from `k` on: a write of a chunk, then a read of its echo.
  unfoldable pub exchange : NetAnswers → ℕ → ℕ → ℕ → ℕ → ℕ → Process (ℕ × ℕ)
  exchange a socket_fd k zero total_sent total_received = pure (total_sent, total_received)
  exchange a socket_fd k (suc left) total_sent total_received = do
    let w = a.writing k
    bytes_written ←
        net (IoUring.write engine w.world w.sockets socket_fd (replicate net_chunk_size 0x42))
    let r = a.reading k
    bytes ← net (IoUring.read engine r.world r.sockets socket_fd)
    exchange a socket_fd (k + 1) left (total_sent + bytes_written) (total_received + length bytes)

  -- One iteration of `run_network_throughput_benchmark`: the bytes sent and received.
  unfoldable pub network_iteration : NetAnswers → Process (ℕ × ℕ)
  unfolding exchange
  network_iteration a = do
    u ← try_io a.bound
    server_addr ← try_io a.local_addr
    let c = a.connecting
    socket_fd ← net (IoUring.connect engine c.world c.sockets server_addr)
    totals ← exchange a socket_fd 0 (data_size / net_chunk_size) 0 0
    let e = a.closing
    v ← net (IoUring.close engine e.world e.sockets socket_fd)
    pure totals

  unfoldable pub run_network_throughput_benchmark : (ℕ → NetAnswers) → ℕ → Process (List (ℕ × ℕ))
  unfolding network_iteration
  run_network_throughput_benchmark answers iterations =
      for_range 0 iterations (λ i. network_iteration (answers i))

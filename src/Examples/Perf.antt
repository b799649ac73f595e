-- ===== src/Examples/Perf.antt =====
-- elgate-core/examples/perf_benchmark.rs: the benchmarks of the disk and the network, each on a ring that
-- it creates and that nobody reads. Times and rates are only printed.
pub mod Disk
pub mod Network
mod Tests
use elgate.Prelude.{ℕ, ◌*◌, List, [], Outcome, ok, err, panic, fault}
use elgate.Ring.Slot.{UuidApi}
use elgate.Ring.Memory.{RingMem, RingError}
use elgate.Ring.Buffer.{RingBuffer, RingBufferOptions}
use elgate.Ring.Create.{FileIo, create}
use elgate.Disk.IoUring.{DiskEngine}
use elgate.Net.Sockets.{Addr}
use elgate.Net.IoUring.{NetworkEngine, State}
use elgate.Examples.Throughput.{kb, mb, iterations, data_size, bench_data}
use elgate.Examples.Process.{
  Runtime, Answers, ExampleError, Process, pure, ◌>>=◌, and_then, or_panic, for_range,
  disk_read_call, disk_write_call, net_connect_call, net_send_call, net_receive_call,
  net_close_call,
}

abbrev pub disk_options : RingBufferOptions
disk_options = record { path = "/tmp/elgate_bench_disk_ring"; size = 16 * mb; slot_size = 8 * kb }

abbrev pub net_options : RingBufferOptions
net_options = record { path = "/tmp/elgate_bench_net_ring"; size = 16 * mb; slot_size = 8 * kb }

-- An engine on a ring; `text` is what it tells the ring of a path or an address.
abbrev pub disk_engine : (ℕ → List ℕ) → RingBuffer → DiskEngine
disk_engine text rb = record {
  config = record { queue_depth = 128; buffer_size = 128 * kb };
  ring_buffer = rb;
  to_string_lossy = text;
}

abbrev pub net_engine : (Addr → List ℕ) → RingBuffer → NetworkEngine
net_engine text rb = record {
  config = record { queue_depth = 128; buffer_size = 128 * kb };
  ring_buffer = rb;
  to_string = text;
}

-- What the engine of a new ring starts from.
abbrev pub started : RingMem → State
started m = record { connections = []; fds = []; ring = m }

-- `RingBuffer::create(…).unwrap()`, and the program on that ring.
abbrev pub on_new_ring :
    {A : Type 0}
    → Outcome RingError (RingBuffer × RingMem)
    → (RingBuffer → Process A)
    → Outcome ExampleError A
on_new_ring (ok r) program = (program r.0 (started r.1)).0
on_new_ring (err e) program = panic
on_new_ring panic program = panic
on_new_ring fault program = fault

-- What the calls of a benchmark meet, round by round.
pub record DiskBenchmark : Type 0 where
  pub writing : ℕ → Answers
  pub reading : ℕ → Answers

pub record NetBenchmark : Type 0 where
  pub addr : Addr
  pub connecting : Answers
  pub writing : ℕ → Answers
  pub reading : ℕ → Answers
  pub closing : Answers

module _ ⦃uuid : UuidApi⦄ (rt : Runtime) (text : ℕ → List ℕ) where
  abbrev pub write_round : DiskBenchmark → ℕ → RingBuffer → ℕ → Process (Unit {0})
  write_round a path rb i =
      or_panic
        (disk_write_call rt (disk_engine text rb) (a.writing i) path (i * data_size) bench_data)

  abbrev pub read_round : DiskBenchmark → ℕ → RingBuffer → ℕ → Process (List ℕ)
  read_round a path rb i =
      or_panic (disk_read_call rt (disk_engine text rb) (a.reading i) path (i * data_size))

  -- The two loops.
  abbrev pub disk_loops : DiskBenchmark → ℕ → RingBuffer → Process (Unit {0})
  disk_loops a path rb = do
    written ← for_range 0 iterations (write_round a path rb)
    read ← for_range 0 iterations (read_round a path rb)
    pure tt

  unfoldable pub benchmark_disk_io :
      FileIo → ℕ → DiskBenchmark → ℕ → Outcome ExampleError (Unit {0})
  benchmark_disk_io io now a path = on_new_ring (create io disk_options now) (disk_loops a path)

  -- A write and a read of the echo.
  abbrev pub echo_round : NetBenchmark → ℕ → RingBuffer → ℕ → Process (Unit {0})
  echo_round a fd rb i = do
    bytes_written ← or_panic (net_send_call rt (net_engine text rb) (a.writing i) fd bench_data)
    read_data ← or_panic (net_receive_call rt (net_engine text rb) (a.reading i) fd)
    pure tt

  abbrev pub net_loop : NetBenchmark → RingBuffer → Process (Unit {0})
  net_loop a rb = do
    socket_fd ← or_panic (net_connect_call rt (net_engine text rb) a.connecting a.addr)
    rounds ← for_range 0 iterations (echo_round a socket_fd rb)
    or_panic (net_close_call (net_engine text rb) a.closing socket_fd)

  -- `benchmark_network_io` but for its echo server, whose answers are arguments.
  unfoldable pub benchmark_network_io : FileIo → ℕ → NetBenchmark → Outcome ExampleError (Unit {0})
  benchmark_network_io io now a = on_new_ring (create io net_options now) (net_loop a)

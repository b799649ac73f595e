-- ===== src/Lib.antt =====
-- elgate: a ring buffer in shared memory, and the engines and threads around it.
--
-- Ring models elgate-core/src/ring. Header is header.rs: the fields of RingHeader as numbers, each
-- method a function to the new header; the compare-exchange loops take what other threads do
-- between two attempts. Slot is slot.rs: what the two pointers of a Slot reach, as a record, each
-- method a function to the new slot. Memory is the mapping that the processes share, with the
-- monad of the calls on it. Buffer is write, read and wait_for_slot of buffer.rs; Create is
-- create, open, the accessors, registration and drop, with create_numa_aware in Create.Numa. Queue
-- is the bounded queue that Refine compares the ring with; Writers has any number of writers, each
-- in the middle of its call, with a schedule that gives the turns to them and to reads; Race puts
-- a read between the two halves of a write; Pending has the entries that wait in the slots,
-- wherever the indices stand. Layout computes the sizes and offsets of the slots. Prelude holds
-- the lists, tests, outcomes and positions on a ring that the parts share.
--
-- Arch models elgate-core/src/arch. CpuList is parse_cpu_list of cpu_info.rs with what it uses of
-- str and usize, on lists of code points; Text and Grammar hold the lemmas. CpuInfo is the rest of
-- cpu_info.rs, RuntimeMode is runtime_mode.rs, ThreadBuilder is thread_builder.rs. The answers of
-- the crates num_cpus and core_affinity, and of the directory of nodes in sysfs, are arguments.
--
-- Net models elgate-core/src/net. Sockets holds the open descriptors and the answers of the system
-- to a call on a socket. Fallback is fallback.rs: what the worker does with an operation, and the
-- calls with their callbacks. IoUring is io_uring.rs: the map of the streams and the calls, which
-- tell the ring of themselves by Notify; Sound and Session have the map beside the open
-- descriptors.
--
-- Disk models elgate-core/src/disk. Files holds the answers of the system to the calls of one
-- operation. Fallback is fallback.rs and IoUring is io_uring.rs: each operation as the calls that
-- it makes, with the notifications of the latter. A file's content is no part of the state: what a
-- call reads or takes is the system's answer.
--
-- Examples models what programs of elgate-core/examples compute and how they drive the ring. Float
-- is the rounding of f64, Latency is LatencyStats of latency_profile.rs, Histogram is its
-- print_histogram. Throughput is the benchmark of the ring in perf_benchmark.rs and the comparison
-- of two rings in numa_ring_buffer.rs: loops over the operations of Ring. The consumer's loop has
-- no bound in the source; its model takes the number of rounds and says whether it came to its
-- end. EndToEnd is end_to_end.rs: a client and a server, each a Process on a ring of its own that
-- calls the engines of Disk.IoUring and Net.IoUring; Chunks cuts the file, TestFile makes it and
-- compares it with the copy. The server's loop takes the number of its reads, and Server shows how
-- many are enough. end_to_end.rs, latency_profile.rs and perf_benchmark.rs run by tokio::main, and
-- the operations of the crate tokio_uring panic outside of its own runtime: their definitions take
-- the runtime (Process.Runtime, Process.within, Process.on_stream), and their theorems say what
-- they come to by both. CrossPlatform is the benchmarks of the engines in
-- cross_platform_benchmark.rs, where a call that is late is dropped before it notifies the ring.
-- Profile is the measuring loops of latency_profile.rs with the statistics of their latencies,
-- Perf the benchmarks of the engines in perf_benchmark.rs; their calls that the system grants are
-- in Grants. Optimization is the writers and the reader of numa_optimization.rs, whose turns are
-- whole calls of the ring in any order. Calls has the calls of the engines for any ring on which a
-- notification comes back, which Tells states and rings with room and rings that nobody reads
-- satisfy, and Loops their rounds.
--
-- Arithmetic on usize is that of the development profile: an overflow, a division by zero and a
-- failed assertion are panics (Outcome.panic); atomic additions wrap. An access that the mapping
-- does not have is Outcome.fault, as is that of a slot whose offset is no multiple of 64, to which
-- the metadata of a slot is aligned. Each operation of a handle runs without interleaving but for
-- four places: between two attempts of wait_for_slot the other processes may do anything to the
-- mapping, the compare-exchange loops meet any interference, in Writers a turn is one exchange,
-- one load or one store of a writer or a whole read, and Race has its read in the middle of a
-- write. The operations of the engines do not interleave, so their mutexes are free. wait_for_slot
-- recurs on the attempts that are left, which max_attempts bounds, so it needs no fuel. The clock,
-- a new id, and whether the calls on the file and the map succeed are arguments. The crate uuid is
-- a parameter (UuidApi), and ids are known by their bytes; a path and a socket address are known
-- by their bytes, read as a number. The channels of tokio hand each operation and each result
-- over. Recursion is on the lists and counts of the source's loops. Not modelled are the Debug and
-- description texts, what tracing and println! print, the names and join handles of threads, the
-- clocks and rates of the benchmarks, the pauses and spawned tasks of the examples, and the other
-- examples.
pub mod Prelude
pub mod Arch
pub mod Disk
pub mod Examples
pub mod Net
pub mod Notify
pub mod Ring

-- ===== src/Examples/CrossPlatform/Network.antt =====
-- The benchmark of the network of elgate-core/examples/cross_platform_benchmark.rs, on a ring that
-- nobody reads.
use elgate.Prelude.{
  ℕ, zero, suc, ◌+◌, ◌≡◌, refl, ap₂, ◌∙◌, List, [], arith, length, replicate, io_ok, ok,
}
use elgate.Ring.Slot.{UuidApi}
use elgate.Ring.Buffer.Full.{IsAlone}
use elgate.Net.Sockets.{Addr}
use elgate.Net.IoUring.{NetworkEngine, State}
use elgate.Examples.Tells.{NobodyReads, NobodyReads-Tells}
use elgate.Examples.Calls.{IsLinked, connect_lem, write_lem, read_lem, close_lem}
use elgate.Examples.Loops.{values, sum, for_range_lem}
use elgate.Examples.CrossPlatform.{
  NetAnswers, net_chunk_size, exchange, network_iteration, run_network_throughput_benchmark,
}

-- The system grants the calls of an iteration: the writes take these numbers of bytes, and the reads
-- give these pieces.
pub record Grants (buffer_size : ℕ) (a : NetAnswers) (taken : ℕ → ℕ) (pieces : ℕ → List ℕ)
    : Type 0 where
  pub addr : Addr
  pub fd : ℕ
  pub listens : a.bound ≡ io_ok tt
  pub named : a.local_addr ≡ io_ok addr
  pub connected : a.connecting.sockets.connect_to addr ≡ io_ok fd
  pub takes :
      (k : ℕ) → (a.writing k).sockets.write_to fd (replicate net_chunk_size 0x42) ≡ io_ok (taken k)
  pub gives : (k : ℕ) → (a.reading k).sockets.read_from fd buffer_size ≡ io_ok (pieces k)

-- Nobody touches the ring during the calls.
pub record Undisturbed (a : NetAnswers) : Type 0 where
  pub connecting : IsAlone a.connecting.world
  pub writing : (k : ℕ) → IsAlone (a.writing k).world
  pub reading : (k : ℕ) → IsAlone (a.reading k).world
  pub closing : IsAlone a.closing.world

module _ ⦃uuid : UuidApi⦄ (engine : NetworkEngine) where
  -- The engine has no stream, and nobody reads its ring.
  abbrev pub IsIdle : State → Type 0
  IsIdle s = (s.connections ≡ []) × NobodyReads engine.ring_buffer s.ring

  module _ (a : NetAnswers) (taken : ℕ → ℕ) (pieces : ℕ → List ℕ)
      (g : Grants engine.config.buffer_size a taken pieces) (u : Undisturbed a) where
    exchange_lem :
        (left k sent received : ℕ) (s : State)
        → IsLinked (NobodyReads engine.ring_buffer) g.addr g.fd s
        → (s' : State) × (exchange engine a g.fd k left sent received s
            ≡ (ok (sent + sum taken k left, received + sum (λ i. length (pieces i)) k left), s'))
          × IsLinked (NobodyReads engine.ring_buffer) g.addr g.fd s'
    unfolding exchange
    exchange_lem zero k sent received s linked =
        (s, ap₂ (λ x y. (ok (x, y), s)) (omega arith) (omega arith), linked)
    exchange_lem (suc left) k sent received s linked =
        let (s1, wrote, linked1) =
          write_lem engine (a.writing k) (NobodyReads-Tells engine.ring_buffer _ (u.writing k)) s
            g.addr g.fd linked (replicate net_chunk_size 0x42) (taken k) (g.takes k) in
        let (s2, got, linked2) =
          read_lem engine (a.reading k) (NobodyReads-Tells engine.ring_buffer _ (u.reading k)) s1
            g.addr g.fd linked1 (pieces k) (g.gives k) in
        let (s3, rest, linked3) =
          exchange_lem left (k + 1) (sent + taken k) (received + length (pieces k)) s2 linked2 in
        (
          s3,
          rw (wrote, got) (rest ∙ ap₂ (λ x y. (ok (x, y), s3)) (omega arith) (omega arith)),
          linked3,
        )

    network_iteration_lem :
        (s : State)
        → IsIdle s
        → (s' : State) × (network_iteration engine a s
            ≡ (ok (sum taken 0 80, sum (λ k. length (pieces k)) 0 80), s'))
          × IsIdle s'
    unfolding network_iteration
    network_iteration_lem s (none_yet, h) =
        let rb = engine.ring_buffer in
        let (s1, met, linked1) =
          connect_lem engine a.connecting (NobodyReads-Tells rb _ u.connecting) s g.addr g.fd
            g.connected none_yet h in
        let (s2, went, linked2) = exchange_lem 80 0 0 0 s1 linked1 in
        let (s3, left, none_left, h3) =
          close_lem engine a.closing (NobodyReads-Tells rb _ u.closing) s2 g.addr g.fd linked2 in
        (
          s3,
          rw (g.listens, g.named, met, went, left)
              (ap₂ (λ x y. (ok (x, y), s3)) (omega arith) (omega arith)),
          (none_left, h3),
        )

  -- On a ring that nobody reads, where the system grants every call, the benchmark of the network
  -- comes to the end of all its iterations, each of 80 rounds, whether the ring has slots to spare
  -- for their notifications or not: it adds up what the writes have taken and the reads have
  -- given, and leaves no stream.
  pub run_network-totals :
      (answers : ℕ → NetAnswers) (taken : ℕ → ℕ → ℕ) (pieces : ℕ → ℕ → List ℕ) (iterations : ℕ)
      (s : State)
      → ((i : ℕ) → Grants engine.config.buffer_size (answers i) (taken i) (pieces i))
      → ((i : ℕ) → Undisturbed (answers i))
      → s.connections ≡ []
      → NobodyReads engine.ring_buffer s.ring
      → let totals : ℕ → ℕ × ℕ = λ i. (sum (taken i) 0 80, sum (λ k. length (pieces i k)) 0 80) in
        let (r, s') = run_network_throughput_benchmark engine answers iterations s in
        (r ≡ ok (values totals 0 iterations))
        × (s'.connections ≡ [])
        × NobodyReads engine.ring_buffer s'.ring
  unfolding run_network_throughput_benchmark
  run_network-totals answers taken pieces iterations s g u none_yet h =
      let (s', went, idle) =
        for_range_lem IsIdle (λ i. network_iteration engine (answers i))
          (λ i. (sum (taken i) 0 80, sum (λ k. length (pieces i k)) 0 80))
          (λ i t idle. network_iteration_lem (answers i) (taken i) (pieces i) (g i) (u i) t idle)
          iterations 0 s (none_yet, h) in
      rw went (refl, idle.0, idle.1)

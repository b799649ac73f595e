-- ===== src/Examples/Perf/Network.antt =====
-- The benchmark of the network of elgate-core/examples/perf_benchmark.rs, on a ring that nobody reads.
use elgate.Prelude.{ℕ, ◌*◌, ◌≡◌, refl, ap, List, io_ok, ok}
use elgate.Ring.Slot.{UuidApi}
use elgate.Ring.Buffer.{RingBuffer}
use elgate.Ring.Buffer.Full.{IsAlone}
use elgate.Ring.Create.{FileIo}
use elgate.Net.IoUring.{State}
use elgate.Examples.Throughput.{kb, iterations, bench_data}
use elgate.Examples.Process.{
  tokio_uring, net_connect_call, net_send_call, net_receive_call, net_close_call,
}
use elgate.Examples.Tells.{NobodyReads-Tells}
use elgate.Examples.Calls.{connect_lem, close_lem}
use elgate.Examples.Grants.{IsIdle, IsConnected, GrantsRoundtrip, roundtrip_granted}
use elgate.Examples.Loops.{for_range_lem, or_panic_ok}
use elgate.Examples.Perf.{
  NetBenchmark, net_options, net_engine, started, echo_round, net_loop, benchmark_network_io,
}
use elgate.Examples.Perf.Disk.{MakesRing, new_ring-IsIdle}

-- The system grants every call of the benchmark: the writes take, and the reads give, any numbers of
-- bytes.
pub record GrantsEcho (a : NetBenchmark) : Type 0 where
  pub fd : ℕ
  pub connecting : IsAlone a.connecting.world
  pub connected : a.connecting.sockets.connect_to a.addr ≡ io_ok fd
  pub call : (i : ℕ) → GrantsRoundtrip (128 * kb) fd bench_data (a.writing i) (a.reading i)
  pub closing : IsAlone a.closing.world

module _ ⦃uuid : UuidApi⦄ (text : ℕ → List ℕ) (a : NetBenchmark) where
  module _ (g : GrantsEcho a) (rb : RingBuffer) where
    echo_round_lem :
        (i : ℕ) (s : State)
        → IsConnected (net_engine text rb) a.addr g.fd s
        → (s' : State) × (echo_round tokio_uring text a g.fd rb i s ≡ (ok tt, s'))
          × IsConnected (net_engine text rb) a.addr g.fd s'
    echo_round_lem i s linked =
        let engine = net_engine text rb in
        let (s1, s2, wrote, got, linked2) =
          roundtrip_granted engine a.addr g.fd bench_data (a.writing i) (a.reading i) s (g.call i)
            linked in
        (
          s2,
          rw
              (
                or_panic_ok (net_send_call tokio_uring engine (a.writing i) g.fd bench_data)
                    (g.call i).taken s s1 wrote,
                or_panic_ok (net_receive_call tokio_uring engine (a.reading i) g.fd)
                    (g.call i).response s1 s2 got,
              )
              refl,
          linked2,
        )

    net_loop_ends : (s : State) → IsIdle rb s → (net_loop tokio_uring text a rb s).0 ≡ ok tt
    net_loop_ends s (none_yet, h) =
        let engine = net_engine text rb in
        let (s1, met, linked1) =
          connect_lem engine a.connecting (NobodyReads-Tells rb _ g.connecting) s a.addr g.fd
            g.connected none_yet h in
        let (s2, went, linked2) =
          for_range_lem (IsConnected engine a.addr g.fd) (echo_round tokio_uring text a g.fd rb)
            (λ i. tt) echo_round_lem iterations 0 s1 linked1 in
        let (s3, left, _, _) =
          close_lem engine a.closing (NobodyReads-Tells rb _ g.closing) s2 a.addr g.fd linked2 in
        rw
          (
            or_panic_ok (net_connect_call tokio_uring engine a.connecting a.addr) g.fd s s1 met,
            went,
          )
          (ap (λ d. d.0) (or_panic_ok (net_close_call engine a.closing g.fd) tt s2 s3 left))

  -- Inside of tokio_uring::start, the benchmark of the network, its ring's file and all its calls granted, comes to its end,
  -- whatever numbers of bytes the 10,000 writes take and the reads of the echo give, though its ring
  -- has no slots for most of the notifications.
  pub benchmark_network_io-ends :
      (io : FileIo) (now : ℕ)
      → MakesRing io
      → GrantsEcho a
      → benchmark_network_io tokio_uring text io now a ≡ ok tt
  unfolding benchmark_network_io
  benchmark_network_io-ends io now h g =
      let (r, made, idle) = new_ring-IsIdle io net_options now h refl refl in
      rw made (net_loop_ends g r.0 (started r.1) idle)

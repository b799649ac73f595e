-- ===== src/Examples/Profile/Whole.antt =====
-- The three profiles of main of elgate-core/examples/latency_profile.rs, with their statistics.
use elgate.Prelude.{
  ℕ, zero, suc, ◌+◌, ◌*◌, ◌^◌, ◌≤◌, ◌<◌, ◌≡◌, refl, sym, ap, subst, [], arith, length, All, ok,
  panic,
}
use elgate.Ring.Slot.{UuidApi}
use elgate.Disk.IoUring.{DiskEngine}
use elgate.Net.IoUring.{NetworkEngine, State}
use elgate.Examples.Latency.{LatencyStats}
use elgate.Examples.Latency.Summary.{IsSummary, total_of, new-IsSummary}
use elgate.Examples.Process.{tokio, tokio_uring, for_range, disk_read_call}
use elgate.Examples.Tells.{NobodyReads}
use elgate.Examples.Grants.{IsIdle}
use elgate.Examples.Loops.{values, and_then_panic, for_range_panics_at_once}
use elgate.Examples.Profile.{
  profile_disk_read, ReadProfile, WriteProfile, NetProfile, stats_of, profile_all,
}
use elgate.Examples.Profile.Reads.{GrantsReads, profile_disk_read_lem}
use elgate.Examples.Profile.Writes.{GrantsWrites, profile_disk_write_lem}
use elgate.Examples.Profile.Network.{GrantsNetwork, profile_network_lem}

-- Every latency is less than 2^64 nanoseconds.
abbrev pub AllShort : (ℕ → ℕ) → Type 0
AllShort elapsed = (i : ℕ) → elapsed i < 2 ^ 64

-- The latencies from the `i`-th on.
length-values : (f : ℕ → ℕ) (i n : ℕ) → length (values f i n) ≡ n
length-values f i zero = refl
length-values f i (suc n) = ap suc (length-values f (i + 1) n)

values-All : (f : ℕ → ℕ) (i n : ℕ) → AllShort f → All (λ d. d < 2 ^ 64) (values f i n)
values-All f i zero short = tt
values-All f i (suc n) short = (short i, values-All f (i + 1) n short)

total_of-values : (f : ℕ → ℕ) (i n : ℕ) → AllShort f → total_of (values f i n) ≤ n * 2 ^ 64
total_of-values f i zero short = omega arith
total_of-values f i (suc n) short = omega (arith, short i, total_of-values f (i + 1) n short)

-- Up to 1000 latencies, one at least, have statistics.
stats_of_lem :
    (f : ℕ → ℕ) (n : ℕ) (s : State)
    → AllShort f
    → 0 < n
    → n ≤ 1000
    → (stats : LatencyStats) × (stats_of (values f 0 n) s ≡ (ok stats, s))
      × IsSummary (values f 0 n) stats
stats_of_lem f n s short pos few =
    let (stats, made, summary) =
      new-IsSummary (values f 0 n) (omega (arith, length-values f 0 n, pos))
        (values-All f 0 n short) (omega (arith, total_of-values f 0 n short, few)) in
    (stats, rw made refl, summary)

-- Under `tokio::main`, the first call of an engine panics.
profile_all_panics :
    ⦃uuid : UuidApi⦄ (disk_engine : DiskEngine) (net_engine : NetworkEngine) (reads : ReadProfile)
    (writes : WriteProfile) (net : NetProfile) (path test_path : ℕ) (s : State)
    → (profile_all tokio disk_engine net_engine reads writes net path test_path s).0 ≡ panic
unfolding profile_all profile_disk_read
profile_all_panics disk_engine net_engine reads writes net path test_path s =
    and_then_panic (profile_disk_read tokio disk_engine reads path 1000 s) _ (
      and_then_panic
        (for_range 0 10 (λ i. disk_read_call tokio disk_engine (reads.warm i) path 0) s) _
        (for_range_panics_at_once 10 0 _ s (omega arith) refl))

-- Under tokio::main, by which the program runs, the profiles of main panic. Inside of
-- tokio_uring::start, on a ring that nobody reads, where the system grants every call on a file
-- that is not empty, and every latency is below 2^64 nanoseconds, they come to their ends and have
-- the statistics of just the latencies of the 1000 reads, 1000 writes and 100 roundtrips that were
-- measured, without those of the warm-up; whatever the lengths of the responses are.
pub profile_all-IsSummary :
    ⦃uuid : UuidApi⦄ (disk_engine : DiskEngine) (net_engine : NetworkEngine) (reads : ReadProfile)
    (writes : WriteProfile) (net : NetProfile) (path test_path : ℕ) (s : State)
    → net_engine.ring_buffer ≡ disk_engine.ring_buffer
    → GrantsReads disk_engine.config.buffer_size path reads
    → GrantsWrites test_path writes
    → GrantsNetwork net_engine.config.buffer_size net
    → AllShort reads.elapsed
    → AllShort writes.elapsed
    → AllShort net.elapsed
    → s.connections ≡ []
    → NobodyReads disk_engine.ring_buffer s.ring
    → ((profile_all tokio disk_engine net_engine reads writes net path test_path s).0 ≡ panic)
      × (r w n : LatencyStats) × (s' : State) × (profile_all tokio_uring disk_engine net_engine
            reads writes net path test_path s
          ≡ (ok (r, w, n), s'))
      × IsSummary (values reads.elapsed 0 1000) r
      × IsSummary (values writes.elapsed 0 1000) w
      × IsSummary (values net.elapsed 0 100) n
unfolding profile_all
profile_all-IsSummary disk_engine net_engine reads writes net path test_path s same gr gw gn short_r
      short_w short_n none_yet h =
    let (s1, read, h1) = profile_disk_read_lem disk_engine path reads gr 1000 s (none_yet, h) in
    let (r, stats_r, sum_r) =
      stats_of_lem reads.elapsed 1000 s1 short_r (omega arith) (omega arith) in
    let (s2, wrote, h2) = profile_disk_write_lem disk_engine test_path writes gw 1000 s1 h1 in
    let (w, stats_w, sum_w) =
      stats_of_lem writes.elapsed 1000 s2 short_w (omega arith) (omega arith) in
    let (s3, went, h3) =
      profile_network_lem net_engine net gn 100 s2 (subst (λ rb. IsIdle rb s2) (sym same) h2) in
    let (n, stats_n, sum_n) = stats_of_lem net.elapsed 100 s3 short_n (omega arith) (omega arith) in
    (
      profile_all_panics disk_engine net_engine reads writes net path test_path s,
      r,
      w,
      n,
      s3,
      rw (read, stats_r, wrote, stats_w, went, stats_n) refl,
      sum_r,
      sum_w,
      sum_n,
    )

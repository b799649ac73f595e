-- ===== src/Examples/Profile/Tests.antt =====
-- The latency profile on a ring of three slots, one of them taken.
use elgate.Prelude.{ℕ, ◌*◌, ◌^◌, ◌<◌, ◌≡◌, refl, inl, [], ◌∷◌, arith, io_ok, ok, panic}
use elgate.Ring.Samples.{uuid_bytes, handle, one_entry, first, one_entry-IsValid}
use elgate.Disk.IoUring.{DiskEngine}
use elgate.Net.IoUring.{NetworkEngine, State}
use elgate.Examples.Latency.{LatencyStats}
use elgate.Examples.Latency.Summary.{IsSummary}
use elgate.Examples.Profile.Samples.{
  grants_all, grants_read, grants_write, grants_sync, grants_roundtrip,
}
use elgate.Examples.Process.{tokio, tokio_uring}
use elgate.Examples.Loops.{values}
use elgate.Examples.Profile.{
  ReadProfile, WriteProfile, NetProfile, net_bytes, disk_bytes, profile_all,
}
use elgate.Examples.Profile.Whole.{profile_all-IsSummary}

abbrev test_network : NetworkEngine
test_network = record {
  config = record { queue_depth = 64; buffer_size = 64 * 1024 };
  ring_buffer = handle;
  to_string = λ addr. addr ∷ [];
}

abbrev test_storage : DiskEngine
test_storage = record {
  config = record { queue_depth = 64; buffer_size = 64 * 1024 };
  ring_buffer = handle;
  to_string_lossy = λ path. path ∷ [];
}

abbrev latency : ℕ → ℕ
latency i = 5_000

abbrev reads : ReadProfile
reads = record {
  warm = λ i. grants_all;
  metadata = λ i. io_ok 10_485_760;
  draw = λ i. i * 77_777;
  call = λ i. grants_all;
  elapsed = latency;
}

abbrev writes : WriteProfile
writes = record {
  warm = λ i. grants_all;
  draw = λ i. i * 77_777;
  call = λ i. grants_all;
  elapsed = latency;
  syncing = λ i. grants_all;
  last_sync = grants_all;
}

abbrev net : NetProfile
net = record {
  addr = 70;
  connecting = grants_all;
  warm_write = λ i. grants_all;
  warm_read = λ i. grants_all;
  writing = λ i. grants_all;
  reading = λ i. grants_all;
  elapsed = latency;
  closing = grants_all;
}

abbrev idle : State
idle = record { connections = []; fds = 3 ∷ []; ring = one_entry }

short_latency : (i : ℕ) → latency i < 2 ^ 64
short_latency i = omega arith

profile_all-IsSummary_example :
    ((profile_all tokio test_storage test_network reads writes net 1 2 idle).0 ≡ panic)
    × (r w n : LatencyStats) × (s' : State) × (profile_all tokio_uring test_storage test_network
          reads writes net 1 2 idle
        ≡ (ok (r, w, n), s'))
    × IsSummary (values latency 0 1000) r
    × IsSummary (values latency 0 1000) w
    × IsSummary (values latency 0 100) n
profile_all-IsSummary_example =
    profile_all-IsSummary test_storage test_network reads writes net 1 2 idle refl
      (record {
        warm = λ i. grants_read (64 * 1024) 1;
        size = λ i. 10_485_760;
        sized = λ i. refl;
        some_bytes = λ i. omega arith;
        call = λ i. grants_read (64 * 1024) 1;
      })
      (record {
        warm = λ i. grants_write 2 disk_bytes;
        call = λ i. grants_write 2 disk_bytes;
        syncing = λ i. grants_sync 2;
        last_sync = grants_sync 2;
      })
      (record {
        fd = 8;
        connecting = λ ms other. refl;
        connected = refl;
        warm = λ i. grants_roundtrip (64 * 1024) net_bytes;
        call = λ i. grants_roundtrip (64 * 1024) net_bytes;
        closing = λ ms other. refl;
      })
      short_latency short_latency short_latency refl
      (first ∷ [], record { place = 0; valid = one_entry-IsValid; stands = inl refl })

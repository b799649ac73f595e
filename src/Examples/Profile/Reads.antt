-- ===== src/Examples/Profile/Reads.antt =====
-- The profile of reads of elgate-core/examples/latency_profile.rs, on a ring that nobody reads.
use elgate.Prelude.{ℕ, ◌%◌, ◌<◌, ◌≡◌, refl, io_ok, ok, checked_rem-pos}
use elgate.Ring.Slot.{UuidApi}
use elgate.Disk.IoUring.{DiskEngine}
use elgate.Net.IoUring.{State}
use elgate.Examples.Process.{tokio_uring, disk_read_call, ExampleError}
use elgate.Examples.Grants.{IsIdle, GrantsRead, read_granted}
use elgate.Examples.Loops.{values, for_range_lem}
use elgate.Examples.Profile.{ReadProfile, measured_read, profile_disk_read}

-- It grants all of a profile, of a file that is not empty.
pub record GrantsReads (buffer_size path : ℕ) (a : ReadProfile) : Type 0 where
  pub warm : (i : ℕ) → GrantsRead buffer_size path (a.warm i)
  pub size : ℕ → ℕ
  pub sized : (i : ℕ) → a.metadata i ≡ io_ok (size i)
  pub some_bytes : (i : ℕ) → 0 < size i
  pub call : (i : ℕ) → GrantsRead buffer_size path (a.call i)

module _ ⦃uuid : UuidApi⦄ (engine : DiskEngine) (path : ℕ) where
  module _ (a : ReadProfile) (g : GrantsReads engine.config.buffer_size path a) where
    measured_read_lem :
        (i : ℕ) (s : State)
        → IsIdle engine.ring_buffer s
        → (s' : State) × (measured_read tokio_uring engine a path i s ≡ (ok (a.elapsed i), s'))
          × IsIdle engine.ring_buffer s'
    measured_read_lem i s h =
        let (s', done, h') =
          read_granted engine path (a.call i) (a.draw i % g.size i) s (g.call i) h in
        (
          s',
          rw
              (
                g.sized i,
                checked_rem-pos {E = ExampleError} (a.draw i) (g.size i) (g.some_bytes i),
                done,
              )
              refl,
          h',
        )

    -- Each measured operation gives its latency.
    pub profile_disk_read_lem :
        (count : ℕ) (s : State)
        → IsIdle engine.ring_buffer s
        → (s' : State) × (profile_disk_read tokio_uring engine a path count s
            ≡ (ok (values a.elapsed 0 count), s'))
          × IsIdle engine.ring_buffer s'
    unfolding profile_disk_read
    profile_disk_read_lem count s h =
        let (s1, warmed, h1) =
          for_range_lem (IsIdle engine.ring_buffer)
            (λ i. disk_read_call tokio_uring engine (a.warm i) path 0) (λ i. (g.warm i).bytes 0)
            (λ i t. read_granted engine path (a.warm i) 0 t (g.warm i)) 10 0 s h in
        let (s2, measured, h2) =
          for_range_lem (IsIdle engine.ring_buffer) (measured_read tokio_uring engine a path)
            a.elapsed measured_read_lem count 0 s1 h1 in
        (s2, rw (warmed, measured) refl, h2)

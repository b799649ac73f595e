-- ===== src/Examples/Profile/Writes.antt =====
-- The profile of writes of elgate-core/examples/latency_profile.rs, on a ring that nobody reads.
use elgate.Prelude.{ℕ, ◌+◌, ◌%◌, ◌≡◌, refl, ◌==◌, Bool-cases, inl, inr, ok}
use elgate.Ring.Slot.{UuidApi}
use elgate.Disk.IoUring.{DiskEngine}
use elgate.Net.IoUring.{State}
use elgate.Examples.Process.{tokio_uring, disk_write_call}
use elgate.Examples.Grants.{IsIdle, GrantsWrite, GrantsSync, write_granted, sync_granted}
use elgate.Examples.Loops.{values, for_range_lem}
use elgate.Examples.Profile.{
  WriteProfile, disk_bytes, max_offset, measured_write, profile_disk_write,
}

pub record GrantsWrites (path : ℕ) (a : WriteProfile) : Type 0 where
  pub warm : (i : ℕ) → GrantsWrite path disk_bytes (a.warm i)
  pub call : (i : ℕ) → GrantsWrite path disk_bytes (a.call i)
  pub syncing : (i : ℕ) → GrantsSync path (a.syncing i)
  pub last_sync : GrantsSync path a.last_sync

module _ ⦃uuid : UuidApi⦄ (engine : DiskEngine) (path : ℕ) where
  module _ (a : WriteProfile) (g : GrantsWrites path a) where
    measured_write_lem :
        (i : ℕ) (s : State)
        → IsIdle engine.ring_buffer s
        → (s' : State) × (measured_write tokio_uring engine a path i s ≡ (ok (a.elapsed i), s'))
          × IsIdle engine.ring_buffer s'
    measured_write_lem i s h =
        let (s1, wrote, h1) =
          write_granted engine path (a.call i) (a.draw i % max_offset) disk_bytes s (g.call i) h in
        elim (Bool-cases ((i + 1) % 100 == 0)) [
          | inl hundredth ↦
              let (s2, synced, h2) = sync_granted engine path (a.syncing i) s1 (g.syncing i) h1 in
              (s2, rw (wrote, hundredth, synced) refl, h2)
          | inr other ↦ (s1, rw (wrote, other) refl, h1)
        ]

    -- Each measured operation gives its latency.
    pub profile_disk_write_lem :
        (count : ℕ) (s : State)
        → IsIdle engine.ring_buffer s
        → (s' : State) × (profile_disk_write tokio_uring engine a path count s
            ≡ (ok (values a.elapsed 0 count), s'))
          × IsIdle engine.ring_buffer s'
    unfolding profile_disk_write
    profile_disk_write_lem count s h =
        let (s1, warmed, h1) =
          for_range_lem (IsIdle engine.ring_buffer)
            (λ i. disk_write_call tokio_uring engine (a.warm i) path 0 disk_bytes) (λ i. tt)
            (λ i t. write_granted engine path (a.warm i) 0 disk_bytes t (g.warm i)) 10 0 s h in
        let (s2, measured, h2) =
          for_range_lem (IsIdle engine.ring_buffer) (measured_write tokio_uring engine a path)
            a.elapsed measured_write_lem count 0 s1 h1 in
        let (s3, synced, h3) = sync_granted engine path a.last_sync s2 g.last_sync h2 in
        (s3, rw (warmed, measured, synced) refl, h3)

-- ===== src/Examples/CrossPlatform/Writes.antt =====
-- The benchmark of writes of elgate-core/examples/cross_platform_benchmark.rs, on a ring that nobody
-- reads.
use elgate.Prelude.{
  ℕ, zero, suc, ◌+◌, ◌*◌, ◌^◌, ◌≤◌, ◌<◌, ◌≡◌, ap, ◌∙◌, Bool-cases, inl, inr, if◌then◌else◌, arith,
  replicate, io_ok, ok,
}
use elgate.Ring.Slot.{UuidApi}
use elgate.Ring.Buffer.Full.{IsAlone}
use elgate.Disk.IoUring.{DiskEngine}
use elgate.Net.IoUring.{State}
use elgate.Examples.Tells.{NobodyReads, NobodyReads-Tells}
use elgate.Examples.Calls.{write_file_lem, sync_file_lem}
use elgate.Examples.Loops.{sum}
use elgate.Examples.CrossPlatform.{
  WriteAnswers, chunk_size, step_count, write_chunks, write_iteration,
}
use elgate.Examples.CrossPlatform.Reads.{total_chunks_lem, steps_cover}

-- The system opens the file for each write and takes these numbers of its bytes, and syncs it, while
-- nobody touches the ring.
pub record WritesTo (a : WriteAnswers) (path : ℕ) (taken : ℕ → ℕ) : Type 0 where
  pub alone : (k : ℕ) → IsAlone (a.chunk k).world
  pub opened : (k : ℕ) → (a.chunk k).files.open_or_create path ≡ io_ok tt
  pub takes :
      (k : ℕ)
      → (a.chunk k).files.write_at path (k * chunk_size) (replicate chunk_size 0x42)
        ≡ io_ok (taken k)
  pub sync_alone : IsAlone a.syncing.world
  pub sync_opened : a.syncing.files.open_for_write path ≡ io_ok tt
  pub synced : a.syncing.files.sync_all path ≡ io_ok tt

-- The chunks that an iteration counts, and those that it gives up.
abbrev pub in_time : WriteAnswers → ℕ → ℕ
in_time a k = if a.chunk_late k then 0 else chunk_size

abbrev pub given_up : WriteAnswers → ℕ → ℕ
given_up a k = if a.chunk_late k then chunk_size else 0

all_counted :
    (a : WriteAnswers) (k n : ℕ) → sum (in_time a) k n + sum (given_up a) k n ≡ n * chunk_size
all_counted a k zero = omega arith
all_counted a k (suc n) = elim (Bool-cases (a.chunk_late k)) [
  | inl late ↦ rw late (omega (arith, all_counted a (k + 1) n))
  | inr early ↦ rw early (omega (arith, all_counted a (k + 1) n))
]

module _ ⦃uuid : UuidApi⦄ (engine : DiskEngine) (a : WriteAnswers) (path : ℕ) (taken : ℕ → ℕ)
    (writes : WritesTo a path taken) where
  write_chunks_lem :
      (left k total : ℕ) (s : State)
      → NobodyReads engine.ring_buffer s.ring
      → (s' : State) × (write_chunks engine a path k left total s
          ≡ (ok (total + sum (in_time a) k left), s'))
        × NobodyReads engine.ring_buffer s'.ring
  unfolding write_chunks
  write_chunks_lem zero k total s h = (s, ap (λ t. (ok t, s)) (omega arith), h)
  write_chunks_lem (suc left) k total s h = elim (Bool-cases (a.chunk_late k)) [
    | inl late ↦
        let (s2, rest, h2) = write_chunks_lem left (k + 1) total s h in
        (s2, rw late (rest ∙ ap (λ t. (ok t, s2)) (omega arith)), h2)
    | inr early ↦
        let (m1, wrote, h1) =
          write_file_lem engine (a.chunk k)
            (NobodyReads-Tells engine.ring_buffer _ (writes.alone k)) s h path (k * chunk_size)
            (taken k) (replicate chunk_size 0x42) (writes.opened k) (writes.takes k) in
        let (s2, rest, h2) =
          write_chunks_lem left (k + 1) (total + chunk_size) (record s { ring = m1 }) h1 in
        (s2, rw (early, wrote) (rest ∙ ap (λ t. (ok t, s2)) (omega arith)), h2)
  ]

  -- On a ring that nobody reads, where the system opens and syncs the file, one iteration of the
  -- benchmark of writes counts a whole chunk for each write in time, whatever number of its bytes
  -- was written, and none for a late one: with those given up it counts less than one chunk more
  -- than the file has, and no less than the file.
  pub write_iteration-counts :
      (len : ℕ) (s : State)
      → a.metadata ≡ io_ok len
      → len + chunk_size < 2 ^ 64
      → NobodyReads engine.ring_buffer s.ring
      → let n = step_count len chunk_size in
        let (r, s') = write_iteration engine a path s in
        (r ≡ ok (sum (in_time a) 0 n))
        × (len ≤ sum (in_time a) 0 n + sum (given_up a) 0 n)
        × (sum (in_time a) 0 n + sum (given_up a) 0 n < len + chunk_size)
        × NobodyReads engine.ring_buffer s'.ring
  unfolding write_iteration
  write_iteration-counts len s sized small h =
      let n = step_count len chunk_size in
      let counted = total_chunks_lem len small in
      let (s1, went, h1) = write_chunks_lem n 0 0 s h in
      let all = all_counted a 0 n in
      let covers = steps_cover len in
      elim (Bool-cases a.sync_late) [
        | inl late ↦
            rw (sized, counted, went, late)
              (ap ok (omega arith), omega (arith, all, covers.0), omega (arith, all, covers.1), h1)
        | inr early ↦
            let (m2, done, h2) =
              sync_file_lem engine a.syncing
                (NobodyReads-Tells engine.ring_buffer _ writes.sync_alone) s1 h1 path
                writes.sync_opened writes.synced in
            rw (sized, counted, went, early, done)
              (ap ok (omega arith), omega (arith, all, covers.0), omega (arith, all, covers.1), h2)
      ]

-- ===== src/Examples/CrossPlatform/Reads.antt =====
-- The benchmarks of reads of elgate-core/examples/cross_platform_benchmark.rs, on a ring
-- that nobody reads.
use elgate.Prelude.{
  ℕ, zero, suc, ◌+◌, ◌-◌, ◌*◌, ◌/◌, ◌^◌, ◌≤◌, ◌<◌, ◌≡◌, refl, ap, ◌∙◌, min, false, List, [], ◌∷◌,
  Bool-cases, inl, inr, if◌then◌else◌, arith, length, take, drop, length-drop, io_ok, ok,
  checked_add-fits, checked_sub-le,
}
use elgate.Ring.Slot.{UuidApi}
use elgate.Ring.Buffer.Full.{IsAlone}
use elgate.Disk.IoUring.{DiskEngine}
use elgate.Net.IoUring.{State}
use elgate.Examples.Process.{Answers, ExampleError}
use elgate.Examples.Tells.{NobodyReads, NobodyReads-Tells}
use elgate.Examples.Calls.{read_file_lem}
use elgate.Examples.CrossPlatform.{
  ReadAnswers, chunk_size, mib, total_chunks, step_count, read_chunks, read_iteration,
}

pub total_chunks_lem :
    (n : ℕ)
    → n + chunk_size < 2 ^ 64
    → total_chunks n chunk_size ≡ ok ((n + chunk_size - 1) / chunk_size)
total_chunks_lem n small =
    rw
      (
        checked_add-fits {E = ExampleError} n chunk_size small,
        checked_sub-le {E = ExampleError} (n + chunk_size) 1 (omega arith),
      )
      refl

-- The steps reach the end, and go no step beyond it.
pub steps_cover :
    (n : ℕ)
    → (n ≤ step_count n chunk_size * chunk_size)
      × (step_count n chunk_size * chunk_size < n + chunk_size)
steps_cover n = (omega arith, omega arith)

length-take_min : {A : Type 0} (k : ℕ) (xs : List A) → length (take k xs) ≡ min k (length xs)
length-take_min zero xs = omega arith
length-take_min (suc k) [] = omega arith
length-take_min (suc k) (x ∷ xs) = omega (arith, length-take_min k xs)

-- A call that reads a file of these bytes at an offset, while nobody touches the ring.
pub record ReadsAt (a : Answers) (path offset buffer_size : ℕ) (bytes : List ℕ) : Type 0 where
  pub alone : IsAlone a.world
  pub opened : a.files.open_for_read path ≡ io_ok tt
  pub given : a.files.read_at path offset buffer_size ≡ io_ok (take buffer_size (drop offset bytes))

module _ ⦃uuid : UuidApi⦄ (engine : DiskEngine) (a : ReadAnswers) (path : ℕ) (bytes : List ℕ)
    (on_time : (k : ℕ) → a.chunk_late k ≡ false)
    (reads : (k : ℕ) → ReadsAt (a.chunk k) path (k * chunk_size) engine.config.buffer_size bytes)
    (buffer : engine.config.buffer_size ≡ chunk_size) where
  read_chunks_lem :
      (left k total : ℕ) (s : State)
      → length bytes ≤ (k + left) * chunk_size
      → NobodyReads engine.ring_buffer s.ring
      → (s' : State) × (read_chunks engine a path k left total s
          ≡ (ok (total + (length bytes - k * chunk_size)), s'))
        × NobodyReads engine.ring_buffer s'.ring
  unfolding read_chunks
  read_chunks_lem zero k total s enough h = (s, ap (λ t. (ok t, s)) (omega arith), h)
  read_chunks_lem (suc left) k total s enough h =
      let piece : List ℕ = take engine.config.buffer_size (drop (k * chunk_size) bytes) in
      let (m1, got, h1) =
        read_file_lem engine (a.chunk k) (NobodyReads-Tells engine.ring_buffer _ (reads k).alone) s
          h path (k * chunk_size) piece (reads k).opened (reads k).given in
      let (s2, rest, h2) =
        read_chunks_lem left (k + 1) (total + length piece) (record s { ring = m1 }) (omega arith)
          h1 in
      (
        s2,
        rw (on_time k, got)
            (rest
              ∙ ap (λ t. (ok t, s2))
                  (omega (
                    arith,
                    length-take_min engine.config.buffer_size (drop (k * chunk_size) bytes),
                    length-drop (k * chunk_size) bytes,
                    buffer,
                  ))),
        h2,
      )

  -- On a ring that nobody reads, one iteration of the benchmark of reads, on a file of at most 1
  -- MiB that the system gives as it is asked, counts the first 128 KiB of the file, where its
  -- first read is in time; where that is late and no other is, it counts the whole file.
  pub read_iteration-counts :
      (s : State)
      → a.metadata ≡ io_ok (length bytes)
      → length bytes ≤ mib
      → ReadsAt a.whole path 0 engine.config.buffer_size bytes
      → NobodyReads engine.ring_buffer s.ring
      → let (r, s') = read_iteration engine a path s in
        (r ≡ ok (if a.whole_late then length bytes else min chunk_size (length bytes)))
        × NobodyReads engine.ring_buffer s'.ring
  unfolding read_iteration
  read_iteration-counts s sized small first h =
      let limited : min (length bytes) (1 * mib) ≡ length bytes = omega arith in
      let counted = total_chunks_lem (length bytes) (omega arith) in
      elim (Bool-cases a.whole_late) [
        | inl late ↦
            let (s1, went, h1) =
              read_chunks_lem (step_count (length bytes) chunk_size) 0 0 s
                (omega (arith, (steps_cover (length bytes)).0)) h in
            rw (sized, limited, counted, late, went) (ap ok (omega arith), h1)
        | inr in_time ↦
            let (m1, got, h1) =
              read_file_lem engine a.whole (NobodyReads-Tells engine.ring_buffer _ first.alone) s h
                path 0 (take engine.config.buffer_size bytes) first.opened first.given in
            rw (sized, limited, counted, in_time, got)
              (
                ap ok (
                    length-take_min engine.config.buffer_size bytes
                    ∙ ap (λ k. min k (length bytes)) buffer),
                h1,
              )
      ]

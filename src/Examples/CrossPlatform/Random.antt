-- ===== src/Examples/CrossPlatform/Random.antt =====
-- The benchmark of random reads of elgate-core/examples/cross_platform_benchmark.rs.
use elgate.Prelude.{
  ℕ, ◌+◌, ◌-◌, ◌%◌, ◌≤◌, ◌<◌, ◌≡◌, refl, ap, Bool, true, false, if◌then◌else◌, List, [], ◌∷◌,
  Option, map, arith, length, IoResult, io_ok, io_err, ok, panic, checked_rem-pos,
}
use elgate.Ring.Slot.{UuidApi}
use elgate.Ring.Buffer.Full.{IsAlone}
use elgate.Disk.Files.{FileApi}
use elgate.Disk.IoUring.{DiskEngine, read_file, new_state}
use elgate.Net.IoUring.{State}
use elgate.Ring.Memory.{RingMem}
use elgate.Examples.Process.{Answers, ExampleError, attempt, disk, timeout, and_then, tried, pure}
use elgate.Examples.Tells.{NobodyReads, NobodyReads-Tells}
use elgate.Examples.Calls.{read_file_lem}
use elgate.Examples.CrossPlatform.{
  RandomAnswers, chunk_size, draw_offsets, got_bytes, read_all, random_iteration,
}

-- Where the file has no more than a chunk, there is no offset to draw, and an iteration panics.
pub random_iteration-panics :
    ⦃uuid : UuidApi⦄ (engine : DiskEngine) (a : RandomAnswers) (path len r : ℕ) (draws : List ℕ)
    (s : State)
    → a.metadata ≡ io_ok len
    → len ≤ chunk_size
    → a.draws ≡ r ∷ draws
    → random_iteration engine a path s ≡ (panic, s)
unfolding random_iteration draw_offsets
random_iteration-panics engine a path len r draws s sized small drawn =
    let none_left : len - chunk_size ≡ 0 = omega arith in rw (sized, drawn, none_left) refl

-- The offsets are the draws modulo the greatest offset.
draw_offsets_lem :
    ⦃uuid : UuidApi⦄ (engine : DiskEngine) (draws : List ℕ) (max_offset : ℕ)
    → 0 < max_offset
    → draw_offsets engine draws max_offset ≡ ok (map (λ r. r % max_offset) draws)
unfolding draw_offsets
draw_offsets_lem engine [] max_offset pos = refl
draw_offsets_lem engine (r ∷ draws) max_offset pos =
    rw
      (
        checked_rem-pos {E = ExampleError} r max_offset pos,
        draw_offsets_lem engine draws max_offset pos,
      )
      refl

abbrev pub length_of : IoResult (List ℕ) → ℕ
length_of (io_ok bytes) = length bytes
length_of (io_err e) = 0

-- The number of bytes that the system gives for a read at an offset, none where the file does not open.
abbrev pub given_at : FileApi → ℕ → ℕ → ℕ → IoResult (Unit {0}) → ℕ
given_at files path buffer_size offset (io_ok u) = length_of (files.read_at path offset buffer_size)
given_at files path buffer_size offset (io_err e) = 0

-- What the reads from the `i`-th on give at these offsets, those that have finished.
abbrev pub given_in_all : RandomAnswers → ℕ → ℕ → ℕ → List ℕ → ℕ
given_in_all a path buffer_size i [] = 0
given_in_all a path buffer_size i (offset ∷ offsets) =
    let files = (a.read i).files in
    (if a.unfinished i
      then 0
      else given_at files path buffer_size offset (files.open_for_read path))
    + given_in_all a path buffer_size (i + 1) offsets

module _ ⦃uuid : UuidApi⦄ (engine : DiskEngine) (path : ℕ) where
  abbrev buffer : ℕ
  buffer = engine.config.buffer_size

  -- A read that succeeds or fails, or does not finish, gives so many bytes, and the program goes on.
  record GoesOn (late : Bool) (a : Answers) (offset : ℕ) (s : State) (n : ℕ) : Type 0 where
    result : Option (Option (List ℕ))
    ring : RingMem
    came :
        timeout late (attempt (disk (read_file engine a.world a.files path offset))) s
        ≡ (ok result, record s { ring = ring })
    unread : NobodyReads engine.ring_buffer ring
    counted : got_bytes engine result ≡ n

  read_any :
      (a : Answers) (offset : ℕ) (s : State)
      → IsAlone a.world
      → NobodyReads engine.ring_buffer s.ring
      → GoesOn false a offset s (given_at a.files path buffer offset (a.files.open_for_read path))
  unfolding read_file new_state
  read_any a offset s alone h = by_open (a.files.open_for_read path) refl
    where
      by_read :
          (t : IoResult (List ℕ))
          → a.files.open_for_read path ≡ io_ok tt
          → a.files.read_at path offset buffer ≡ t
          → GoesOn false a offset s (length_of t)
      by_read (io_ok bytes) opened given =
          let (m, got, h1) =
            read_file_lem engine a (NobodyReads-Tells engine.ring_buffer _ alone) s h path offset
              bytes opened given in
          record {
            result = Option.some (Option.some bytes);
            ring = m;
            came = ap (λ d. and_then (tried d.0, d.1) (λ r. pure (Option.some r))) got;
            unread = h1;
            counted = refl;
          }
      by_read (io_err e) opened failed = record {
        result = Option.some Option.none;
        ring = s.ring;
        came = rw (opened, failed) refl;
        unread = h;
        counted = refl;
      }

      by_open :
          (t : IoResult (Unit {0}))
          → a.files.open_for_read path ≡ t
          → GoesOn false a offset s (given_at a.files path buffer offset t)
      by_open (io_ok u) opened = by_read (a.files.read_at path offset buffer) opened refl
      by_open (io_err e) failed = record {
        result = Option.some Option.none;
        ring = s.ring;
        came = rw failed refl;
        unread = h;
        counted = refl;
      }

  read_or_late :
      (late : Bool) (a : Answers) (offset : ℕ) (s : State)
      → IsAlone a.world
      → NobodyReads engine.ring_buffer s.ring
      → GoesOn late a offset s
          (if late then 0 else given_at a.files path buffer offset (a.files.open_for_read path))
  read_or_late true a offset s alone h = record {
    result = Option.none;
    ring = s.ring;
    came = refl;
    unread = h;
    counted = refl;
  }
  read_or_late false a offset s alone h = read_any a offset s alone h

  read_all_lem :
      (a : RandomAnswers) (i : ℕ) (offsets : List ℕ) (s : State)
      → ((k : ℕ) → IsAlone (a.read k).world)
      → NobodyReads engine.ring_buffer s.ring
      → (s' : State) × (read_all engine a path i offsets s
          ≡ (ok (given_in_all a path buffer i offsets), s'))
        × NobodyReads engine.ring_buffer s'.ring
  unfolding read_all
  read_all_lem a i [] s alone h = (s, refl, h)
  read_all_lem a i (offset ∷ offsets) s alone h =
      let one = read_or_late (a.unfinished i) (a.read i) offset s (alone i) h in
      let (s2, rest, h2) =
        read_all_lem a (i + 1) offsets (record s { ring = one.ring }) alone one.unread in
      (
        s2,
        rw (one.came, rest)
            (ap (λ n. (ok (n + given_in_all a path buffer (i + 1) offsets), s2)) one.counted),
        h2,
      )

  -- On a ring that nobody reads, and a file of more than a chunk, one iteration of the benchmark
  -- of random reads succeeds, whichever of them fail or do not finish. Unless its time is up, it
  -- counts just the bytes that the finished reads give, each at its draw modulo the length of the
  -- file less a chunk; where its time is up it counts none.
  pub random_iteration-counts :
      (a : RandomAnswers) (len : ℕ) (s : State)
      → a.metadata ≡ io_ok len
      → chunk_size < len
      → ((k : ℕ) → IsAlone (a.read k).world)
      → NobodyReads engine.ring_buffer s.ring
      → let offsets = map (λ r. r % (len - chunk_size)) a.draws in
        let (r, s') = random_iteration engine a path s in
        (r ≡ ok (if a.late then 0 else given_in_all a path engine.config.buffer_size 0 offsets))
        × NobodyReads engine.ring_buffer s'.ring
  unfolding random_iteration
  random_iteration-counts a len s sized big alone h =
      let offsets = map (λ r. r % (len - chunk_size)) a.draws in
      let drawn = draw_offsets_lem engine a.draws (len - chunk_size) (omega arith) in
      let (s2, went, h2) = read_all_lem a 0 offsets s alone h in
      simp (sized, drawn, went) (refl, h2)

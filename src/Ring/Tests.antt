-- ===== src/Ring/Tests.antt =====
-- Runs of the ring on small mappings, and its theorems at concrete inputs.
use elgate.Prelude.{
  ℕ, ◌+◌, ◌%◌, ◌≤◌, ◌<◌, ◌≡◌, refl, ◌⊎◌, true, List, [], ◌∷◌, ◌++◌, some, none, arith, ok, err,
  replicate,
}
use elgate.Ring.Layout.{header_size, slot_offset}
use elgate.Ring.Layout.Bounds.{new_slots_disjoint}
use elgate.Ring.Header
use elgate.Ring.Header.{RingHeader, Interference, moved, spurious}
use elgate.Ring.Header.Claim.{next_producer_idx_atomic, cell_after}
use elgate.Ring.Slot.{Slot, disk_write, disk_read, write_data, read_data, data_too_large}
use elgate.Ring.Slot.Transfer.{consumed, filled, read_data-write_data}
use elgate.Ring.Memory.{RingMem, RingError, ring_full}
use elgate.Ring.Buffer.{RingBuffer, RingBufferOptions, Entry, write, read}
use elgate.Ring.Buffer.Valid.{IsValid}
use elgate.Ring.Buffer.Full.{read-write_last, write_full}
use elgate.Ring.Create.{FileIo, create, open_ring, drop_ring, active_producers}
use elgate.Ring.Create.Fresh.{Created, create-Created}
use elgate.Ring.Create.Sharing.{opened_reads_written}
use elgate.Ring.Create.Producers.{
  Role, register, unregister, change_roles, share_of, producers_balanced,
}
use elgate.Ring.Queue.{Op, put, get, accepted, too_large, nothing, found}
use elgate.Ring.Refine.{run, run_refines}
use elgate.Ring.Samples.{
  uuid_bytes, quiet, handle, header_at, slot_with, one_entry, first, one_entry-IsValid,
}

-- Three entries in three slots.
abbrev all_taken : RingMem
all_taken = record {
  header = header_at 1 1;
  slots = slot_with 2 1 (3 ∷ []) ∷ slot_with 2 1 (1 ∷ []) ∷ slot_with 2 1 (2 ∷ []) ∷ [];
}

abbrev three : List Entry
three = (disk_write, 1 ∷ []) ∷ (disk_write, 2 ∷ []) ∷ (disk_write, 3 ∷ []) ∷ []

all_taken-IsValid : IsValid handle three all_taken
all_taken-IsValid = record {
  roomy = record { holds = omega arith; aligned = refl };
  small = omega arith;
  mapped = refl;
  producer = omega arith;
  consumer = omega arith;
  ahead = refl;
  short = omega arith;
  pending = (
    _,
    refl,
    record { ready = refl; kind = refl; sized = refl; fits = omega arith; bytes = refl },
    (
      _,
      refl,
      record { ready = refl; kind = refl; sized = refl; fits = omega arith; bytes = refl },
      (
        _,
        refl,
        record { ready = refl; kind = refl; sized = refl; fits = omega arith; bytes = refl },
        tt,
      ),
    ),
  );
  free = tt;
}

-- Two entries in three slots.
abbrev one_left : RingMem
one_left = record {
  header = header_at 1 2;
  slots = slot_with 2 1 (2 ∷ []) ∷ slot_with 0 0 [] ∷ slot_with 2 1 (1 ∷ []) ∷ [];
}

abbrev two : List Entry
two = (disk_write, 1 ∷ []) ∷ (disk_write, 2 ∷ []) ∷ []

one_left-IsValid : IsValid handle two one_left
one_left-IsValid = record {
  roomy = record { holds = omega arith; aligned = refl };
  small = omega arith;
  mapped = refl;
  producer = omega arith;
  consumer = omega arith;
  ahead = refl;
  short = omega arith;
  pending = (
    _,
    refl,
    record { ready = refl; kind = refl; sized = refl; fits = omega arith; bytes = refl },
    (
      _,
      refl,
      record { ready = refl; kind = refl; sized = refl; fits = omega arith; bytes = refl },
      tt,
    ),
  );
  free = (slot_with 0 0 [], refl, record { free = refl }, tt);
}

abbrev file_ok : FileIo
file_ok = record { opened = true; resized = true; mapped = true }

abbrev small_options : RingBufferOptions
small_options = record { path = "/dev/shm/ring"; size = 580; slot_size = 128 }

abbrev other_options : RingBufferOptions
other_options = record { path = "/dev/shm/ring"; size = 1; slot_size = 1 }

new_slots_disjoint_example :
    (header_size ≤ slot_offset 128 2)
    × (slot_offset 128 2 + 128 ≤ 580)
    × ((◌≡◌ {A = ℕ} 2 0)
        ⊎ ((slot_offset 128 2 + 128 ≤ slot_offset 128 0)
            ⊎ (slot_offset 128 0 + 128 ≤ slot_offset 128 2)))
unfolding Header.new
new_slots_disjoint_example =
    new_slots_disjoint {E = RingError} 580 128 900
      (record (header_at 0 0) { size = 580; active_producers = 0; padding = replicate 64 0 }) 2 0
      refl (omega arith) (omega arith)

next_producer_idx_atomic_example :
    (i : ℕ) × (before later : List Interference) × (moved 2 ∷ spurious ∷ [] ≡ before ++ later)
    × (i ≡ cell_after 0 before)
    × (Header.next_producer_idx {E = RingError} (moved 2 ∷ spurious ∷ []) (header_at 0 2)
        ≡ ok (i, header_at ((i + 1) % 3) 2))
next_producer_idx_atomic_example =
    next_producer_idx_atomic {E = RingError} (moved 2 ∷ spurious ∷ []) (header_at 0 2) (omega arith)
      (omega arith) (omega arith)

abbrev small_slot : Slot
small_slot = record { mem = slot_with 0 0 (1 ∷ 2 ∷ 3 ∷ 4 ∷ []); data_size = 4 }

read_data-write_data_example :
    ((2 ≤ 4)
      × ((write_data (7 ∷ 8 ∷ []) 5 small_slot).0 ≡ ok tt)
      × (read_data (write_data (7 ∷ 8 ∷ []) 5 small_slot).1
          ≡ (some (7 ∷ 8 ∷ []), consumed (filled (7 ∷ 8 ∷ []) 5 small_slot))))
    ⊎ ((4 < 2) × (write_data (7 ∷ 8 ∷ []) 5 small_slot ≡ (err data_too_large, small_slot)))
read_data-write_data_example = read_data-write_data (7 ∷ 8 ∷ []) 5 small_slot

abbrev wide_slot : Slot
wide_slot = record { mem = slot_with 2 1 (1 ∷ 2 ∷ 3 ∷ []); data_size = 2 }

abbrev some_id : List ℕ
some_id = 1 ∷ 2 ∷ 3 ∷ 4 ∷ 5 ∷ 6 ∷ 7 ∷ 8 ∷ 9 ∷ 10 ∷ 11 ∷ 12 ∷ 13 ∷ 14 ∷ 15 ∷ 255 ∷ []

read-write_last_example :
    let (r, m) = write handle quiet disk_write (3 ∷ []) one_left in
    (r ≡ ok 1) × IsValid handle three m × (read handle m ≡ (ok none, m))
read-write_last_example =
    read-write_last handle quiet disk_write (3 ∷ []) two one_left one_left-IsValid refl
      (omega arith)

write_full_example :
    write handle quiet disk_write (4 ∷ []) all_taken
    ≡ (err ring_full, record all_taken { header = header_at 0 1 })
write_full_example =
    write_full handle quiet disk_write (4 ∷ []) three all_taken (λ ms m. refl) all_taken-IsValid
      refl (omega arith)

create-Created_example :
    (r : RingBuffer × RingMem) × (create file_ok small_options 900 ≡ ok r)
    × Created small_options 900 r
create-Created_example =
    create-Created file_ok small_options 900 refl refl refl
      (record { holds = omega arith; aligned = refl }) (omega arith) (omega arith)

opened_reads_written_example :
    (r : RingBuffer × RingMem) × (create file_ok small_options 900 ≡ ok r)
    × (other : RingBuffer) × (open_ring file_ok other_options
          (write r.0 quiet disk_write (1 ∷ 2 ∷ []) r.1).1
        ≡ (ok other, (write r.0 quiet disk_write (1 ∷ 2 ∷ []) r.1).1))
    × ((read other (write r.0 quiet disk_write (1 ∷ 2 ∷ []) r.1).1).0
        ≡ ok (some (disk_write, 1 ∷ 2 ∷ [])))
opened_reads_written_example =
    opened_reads_written file_ok file_ok small_options other_options 900 quiet disk_write
      (1 ∷ 2 ∷ []) refl refl refl refl refl (record { holds = omega arith; aligned = refl })
      (omega arith) (omega arith) (omega arith)

abbrev changes : List Role
changes = register ∷ unregister ∷ unregister ∷ register ∷ []

producers_balanced_example :
    let (rb, m) = change_roles changes handle one_entry in
    (active_producers m + 1 ≡ active_producers one_entry + share_of rb.is_producer)
    × (active_producers (drop_ring rb m) + 1 ≡ active_producers one_entry)
unfolding active_producers
producers_balanced_example = producers_balanced changes handle one_entry (omega arith) (omega arith)

abbrev script : List Op
script = put quiet disk_write (9 ∷ []) ∷ get ∷ put quiet disk_read (replicate 65 7) ∷ get ∷ get ∷ []

run_refines_example :
    let (replies, m) = run handle script one_entry in
    (replies ≡ accepted ∷ found first ∷ too_large ∷ found (disk_write, 9 ∷ []) ∷ nothing ∷ [])
    × IsValid handle [] m
run_refines_example =
    run_refines handle script (first ∷ []) one_entry one_entry-IsValid (omega arith) (omega arith)

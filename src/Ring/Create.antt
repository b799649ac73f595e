-- ===== src/Ring/Create.antt =====
-- elgate-core/src/ring/buffer.rs and mod.rs: `create`, `open`, the accessors, and who counts as a
-- producer. The calls on the file and the map are the operating system's: whether each succeeds is
-- an argument, and a new file of `size` bytes reads as zeros.
pub mod Fresh
pub mod Sharing
pub mod Producers
pub mod Numa
mod Tests
use Prim.Native.String.{String}
use elgate.Prelude.{
  ℕ, ◌+◌, ◌-◌, ◌*◌, zero, suc, Bool, true, false, not, if◌then◌else◌, replicate, Outcome, ok, err,
  panic, fault,
}
use elgate.Ring.Layout.{metadata_size}
use elgate.Ring.Header
use elgate.Ring.Header.{RingHeader}
use elgate.Ring.Slot.{UuidApi, SlotMem, reset}
use elgate.Ring.Memory.{
  RingMem, RingError, create_failed, resize_failed, map_failed, open_failed, invalid_header, M,
  pure, ◌>>=◌, ◌>>◌, fail_if, change_header, get_slot, put_slot,
}
use elgate.Ring.Buffer.{RingBuffer, RingBufferOptions}

abbrev pub default_ring_path : String
default_ring_path = "/dev/shm/elgate_ring"

abbrev pub default_ring_size : ℕ
default_ring_size = 4 * 1024 * 1024

abbrev pub default_slot_size : ℕ
default_slot_size = 4 * 1024

abbrev pub default_options : RingBufferOptions
default_options = record {
  path = default_ring_path;
  size = default_ring_size;
  slot_size = default_slot_size;
}

-- Which of `open`, `set_len` and `map_mut` succeed.
pub record FileIo : Type 0 where
  pub opened : Bool
  pub resized : Bool
  pub mapped : Bool

-- A slot of a file that has just been given its length.
abbrev pub zero_slot : ℕ → SlotMem
zero_slot slot_size = record {
  metadata = record {
    status_word = 0;
    operation_word = 0;
    size_word = 0;
    id0 = 0;
    id1 = 0;
    id2 = 0;
    id3 = 0;
    timestamp_word = 0;
    reserved0 = 0;
    reserved1 = 0;
  };
  payload = replicate (slot_size - metadata_size) 0;
}

abbrev pub map_zeros : RingBufferOptions → RingHeader → RingMem
map_zeros o h = record { header = h; slots = replicate h.slot_count (zero_slot o.slot_size) }

-- A handle and its mapping, if the call came to a handle.
abbrev pub both : Outcome RingError RingBuffer × RingMem → Outcome RingError (RingBuffer × RingMem)
both (ok rb, m) = ok (rb, m)
both (err e, m) = err e
both (panic, m) = panic
both (fault, m) = fault

module _ ⦃uuid : UuidApi⦄ where
  -- `for i in 0..slot_count`, from `i` on, with `rounds` to go.
  unfoldable pub init_slots : ℕ → ℕ → ℕ → M (Unit {0})
  init_slots slot_size zero i = pure tt
  init_slots slot_size (suc rounds) i = do
    slot ← get_slot slot_size i
    put_slot i (reset slot)
    init_slots slot_size rounds (i + 1)

  -- The part of `create` that follows the mapping, over the header that was written.
  unfoldable pub create_mapped : RingBufferOptions → M RingBuffer
  create_mapped o = do
    change_header Header.register_producer
    (λ m. init_slots o.slot_size m.header.slot_count 0 m)
    pure (record { path = o.path; size = o.size; slot_size = o.slot_size; is_producer = true })

  abbrev pub with_header :
      RingBufferOptions → Outcome RingError RingHeader → Outcome RingError (RingBuffer × RingMem)
  with_header o (ok h) = both (create_mapped o (map_zeros o h))
  with_header o (err e) = err e
  with_header o panic = panic
  with_header o fault = fault

  -- `RingBuffer::create`: the handle and the new mapping, or neither.
  unfoldable pub create : FileIo → RingBufferOptions → ℕ → Outcome RingError (RingBuffer × RingMem)
  create io o now =
      if not io.opened
      then err create_failed
      else if not io.resized
      then err resize_failed
      else if not io.mapped
      then err map_failed
      else with_header o (Header.new o.size o.slot_size now)

  -- `create_ring_buffer`
  unfoldable pub create_ring_buffer : FileIo → ℕ → Outcome RingError (RingBuffer × RingMem)
  create_ring_buffer io now = create io default_options now

-- `RingBuffer::open` on what the file holds. Other sizes than those asked for are only reported.
unfoldable pub open_ring : FileIo → RingBufferOptions → M RingBuffer
open_ring io o = do
  fail_if (not io.opened) open_failed
  fail_if (not io.mapped) map_failed
  (λ m. fail_if (not (Header.validate m.header)) invalid_header m)
  (λ m. (
    ok (record {
      path = o.path;
      size = m.header.size;
      slot_size = m.header.slot_size;
      is_producer = false;
    }),
    m,
  ))

-- `open_ring_buffer`
unfoldable pub open_ring_buffer : FileIo → M RingBuffer
open_ring_buffer io = open_ring io default_options

-- The accessors that read the header.
unfoldable pub slot_count : RingMem → ℕ
slot_count m = m.header.slot_count

unfoldable pub active_producers : RingMem → ℕ
active_producers m = m.header.active_producers

unfoldable pub operations_completed : RingMem → ℕ
operations_completed m = m.header.operations_completed

unfoldable pub created_at : RingMem → ℕ
created_at m = m.header.created_at

-- Both return the handle beside the mapping.
unfoldable pub register_as_producer : RingBuffer → RingMem → RingBuffer × RingMem
register_as_producer rb m =
    if not rb.is_producer
    then (record rb { is_producer = true }, record m { header = Header.register_producer m.header })
    else (rb, m)

unfoldable pub unregister_as_producer : RingBuffer → RingMem → RingBuffer × RingMem
unregister_as_producer rb m =
    if rb.is_producer
    then (
      record rb { is_producer = false },
      record m { header = Header.unregister_producer m.header },
    )
    else (rb, m)

-- `Drop::drop`, after which the handle is gone.
unfoldable pub drop_ring : RingBuffer → RingMem → RingMem
unfolding unregister_as_producer
drop_ring rb m = if rb.is_producer then (unregister_as_producer rb m).1 else m

-- ===== src/Ring/Buffer.antt =====
-- elgate-core/src/ring/buffer.rs: the operations of a `RingBuffer` on the shared mapping.
-- Between two attempts of `wait_for_slot` the other processes may do anything to the mapping;
-- within an operation each load and store follows the one before it.
pub mod Valid
pub mod Write
pub mod Read
pub mod Full
use Prim.Native.String.{String}
use elgate.Prelude.{
  ℕ, ◌-◌, ◌*◌, zero, suc, min, Bool, true, false, List, [], Option, ltb, leb, ◌==◌, if◌then◌else◌,
  length, Outcome, ok, err, panic, fault, checked_sub,
}
use elgate.Ring.Layout.{metadata_size}
use elgate.Ring.Header
use elgate.Ring.Header.{RingHeader}
use elgate.Ring.Slot.{
  UuidApi, Slot, SlotStatus, OperationKind, SlotError, status, set_operation, set_id, write_data,
  read_data, reset, operation,
}
use elgate.Ring.Memory.{
  RingMem, RingError, payload_too_large, ring_full, slot_error, M, pure, ◌>>=◌, ◌>>◌, lift, fail_if,
  on_header, change_header, get_slot, put_slot,
}

pub record RingBufferOptions : Type 0 where
  pub path : String
  pub size : ℕ
  pub slot_size : ℕ

-- A handle; its two pointers are the mapping that a call is given.
pub record RingBuffer : Type 0 where
  pub path : String
  pub size : ℕ
  pub slot_size : ℕ
  pub is_producer : Bool

-- An operation and its data, as they go in and come out.
abbrev pub Entry : Type 0
Entry = OperationKind × List ℕ

-- What a `write` takes from outside: what the other processes do to the mapping while it sleeps
-- for so many milliseconds, the new id and the clock in seconds.
pub record World : Type 0 where
  pub others : ℕ → RingMem → RingMem
  pub fresh_id : List ℕ
  pub now : ℕ

abbrev pub max_attempts : ℕ
max_attempts = 10

unfoldable pub max_payload_size : RingBuffer → Outcome RingError ℕ
max_payload_size rb = checked_sub rb.slot_size metadata_size

-- The free slots as `wait_for_slot` counts them.
unfoldable pub available_slots : ℕ → RingHeader → Outcome RingError ℕ
available_slots slot_count h =
    if leb h.consumer_idx h.producer_idx
    then checked_sub slot_count (h.producer_idx - h.consumer_idx)
    else ok (h.consumer_idx - h.producer_idx)

abbrev pub is_available : SlotStatus → Bool
is_available SlotStatus.empty = true
is_available SlotStatus.complete = true
is_available _ = false

-- `map_err(|e| anyhow!(e))`
abbrev pub as_ring_error : {A : Type 0} → Outcome SlotError A → Outcome RingError A
as_ring_error (ok a) = ok a
as_ring_error (err e) = err (slot_error e)
as_ring_error panic = panic
as_ring_error fault = fault

module _ ⦃uuid : UuidApi⦄ where
  -- The slot at a claimed index: taken if it is free.
  unfoldable pub take_slot : RingBuffer → ℕ → Slot → M (Option ℕ)
  take_slot rb slot_idx slot =
      if is_available (status slot)
      then (do put_slot slot_idx (reset slot); pure (Option.some slot_idx))
      else pure Option.none

  -- One round of the loop of `wait_for_slot`.
  unfoldable pub try_slot : RingBuffer → ℕ → M (Option ℕ)
  unfolding take_slot
  try_slot rb slot_count = do
    free ← (λ m. (available_slots slot_count m.header, m))
    if ltb 0 free
        then (do
          slot_idx ← on_header (Header.next_producer_idx [])
          slot ← get_slot rb.slot_size slot_idx
          take_slot rb slot_idx slot)
        else pure Option.none

  -- The loop, `left` attempts before the one that gives up.
  unfoldable pub wait_loop : RingBuffer → World → ℕ → ℕ → ℕ → M ℕ
  wait_loop rb w slot_count zero backoff_ms = do
    got ← try_slot rb slot_count
    elim got [ Option.some i ↦ pure i | Option.none ↦ lift (err ring_full) ]
  wait_loop rb w slot_count (suc left) backoff_ms = do
    got ← try_slot rb slot_count
    elim got [
      | Option.some i ↦ pure i
      | Option.none ↦ (do
        (λ m. (ok tt, w.others backoff_ms m))
        wait_loop rb w slot_count left (min (backoff_ms * 2) 100))
    ]

  unfoldable pub wait_for_slot : RingBuffer → World → M ℕ
  wait_for_slot rb w m = wait_loop rb w m.header.slot_count max_attempts 1 m

  -- `write` from its slot on: the data goes in and the slot becomes ready.
  abbrev pub publish : RingBuffer → World → OperationKind → List ℕ → ℕ → M ℕ
  publish rb w kind bytes slot_idx = do
    slot ← get_slot rb.slot_size slot_idx
    let (done, slot') = write_data bytes w.now (set_id w.fresh_id (set_operation kind slot))
    put_slot slot_idx slot'
    lift (as_ring_error done)
    pure slot_idx

  unfoldable pub write : RingBuffer → World → OperationKind → List ℕ → M ℕ
  write rb w kind bytes = do
    most ← lift (max_payload_size rb)
    fail_if (ltb most (length bytes)) payload_too_large
    slot_idx ← wait_for_slot rb w
    publish rb w kind bytes slot_idx

  -- The end of `read`: `reset` for reuse.
  unfoldable pub give_up : ℕ → Slot → M (Option Entry)
  give_up slot_idx slot = do put_slot slot_idx (reset slot); pure Option.none

  -- `read` from the slot on.
  unfoldable pub read_slot : ℕ → Slot → M (Option Entry)
  unfolding give_up
  read_slot slot_idx slot = elim (status slot) [
    | SlotStatus.ready ↦
        let kind = operation slot in
        let (data_read, slot') = read_data slot in
        (do
          put_slot slot_idx slot'
          elim data_read [
            | Option.some bytes ↦ (do
              change_header Header.increment_completed
              pure (Option.some (kind, bytes)))
            | Option.none ↦ give_up slot_idx slot'
          ])
    | _ ↦ give_up slot_idx slot
  ]

  unfoldable pub read : RingBuffer → M (Option Entry)
  read rb m =
      if m.header.producer_idx == m.header.consumer_idx
      then (ok Option.none, m)
      else (do
        slot_idx ← on_header (Header.next_consumer_idx [])
        slot ← get_slot rb.slot_size slot_idx
        read_slot slot_idx slot)
          m

-- ===== src/Ring/Slot.antt =====
-- elgate-core/src/ring/slot.rs: one slot of the mapping. A `Slot` of the code is two pointers and a
-- size; here it is what the pointers reach, and a method that stores returns the new slot.
pub mod Transfer
use elgate.Prelude.{
  ℕ, ◌+◌, ◌*◌, ◌/◌, ◌%◌, ◌^◌, List, [], ◌∷◌, ◌++◌, Option, some, ltb, ◌==◌, if◌then◌else◌, length,
  get_or, take, drop, Outcome, ok, err, checked_sub, ◌>>=◌,
}
use elgate.Ring.Layout.{metadata_size}

pub data SlotStatus : Type 0 where
  empty writing ready reading complete : SlotStatus

pub data OperationKind : Type 0 where
  none disk_write disk_read network_send network_receive network_close custom : OperationKind

-- `status as u32`
abbrev pub status_code : SlotStatus → ℕ
status_code empty = 0
status_code writing = 1
status_code ready = 2
status_code reading = 3
status_code complete = 4

-- `operation as u32`
abbrev pub operation_code : OperationKind → ℕ
operation_code OperationKind.none = 0
operation_code disk_write = 1
operation_code disk_read = 2
operation_code network_send = 3
operation_code network_receive = 4
operation_code network_close = 5
operation_code custom = 100

pub record SlotMetadata : Type 0 where
  pub status_word : ℕ
  pub operation_word : ℕ
  pub size_word : ℕ
  pub id0 : ℕ
  pub id1 : ℕ
  pub id2 : ℕ
  pub id3 : ℕ
  pub timestamp_word : ℕ
  pub reserved0 : ℕ
  pub reserved1 : ℕ

-- What the mapping holds from a slot's offset on: the metadata and the payload bytes.
pub record SlotMem : Type 0 where
  pub metadata : SlotMetadata
  pub payload : List ℕ

pub record Slot : Type 0 where
  pub mem : SlotMem
  pub data_size : ℕ

-- What the code uses of the crate `uuid`: a `Uuid` is known by its `as_bytes`.
pub record UuidApi : Type 0 where
  pub nil : List ℕ
  pub from_slice : List ℕ → Option (List ℕ)

-- The message of `write_data`.
pub data SlotError : Type 0 where
  data_too_large : SlotError

unfoldable pub from_ptr : {E : Type 0} → SlotMem → ℕ → Outcome E Slot
from_ptr mem slot_size = do
  size ← checked_sub slot_size metadata_size
  ok (record { mem = mem; data_size = size })

-- A store to the metadata.
abbrev pub with_metadata : Slot → SlotMetadata → Slot
with_metadata s md = record {
  mem = record { metadata = md; payload = s.mem.payload };
  data_size = s.data_size;
}

abbrev pub decode_status : ℕ → SlotStatus
decode_status w =
    if w == 0
    then empty
    else if w == 1
    then writing
    else if w == 2
    then ready
    else if w == 3
    then reading
    else if w == 4
    then complete
    else empty

unfoldable pub status : Slot → SlotStatus
status s = decode_status s.mem.metadata.status_word

unfoldable pub set_status : SlotStatus → Slot → Slot
set_status st s = with_metadata s (record (s.mem.metadata) { status_word = status_code st })

abbrev pub decode_operation : ℕ → OperationKind
decode_operation w =
    if w == 0
    then OperationKind.none
    else if w == 1
    then disk_write
    else if w == 2
    then disk_read
    else if w == 3
    then network_send
    else if w == 4
    then network_receive
    else if w == 5
    then network_close
    else if w == 100
    then custom
    else OperationKind.none

unfoldable pub operation : Slot → OperationKind
operation s = decode_operation s.mem.metadata.operation_word

unfoldable pub set_operation : OperationKind → Slot → Slot
set_operation op s =
    with_metadata s (record (s.mem.metadata) { operation_word = operation_code op })

unfoldable pub size : Slot → ℕ
size s = s.mem.metadata.size_word

unfoldable pub set_size : ℕ → Slot → Slot
set_size n s = with_metadata s (record (s.mem.metadata) { size_word = n })

unfoldable pub timestamp : Slot → ℕ
timestamp s = s.mem.metadata.timestamp_word

unfoldable pub set_timestamp : ℕ → Slot → Slot
set_timestamp t s = with_metadata s (record (s.mem.metadata) { timestamp_word = t })

abbrev pub from_be_bytes : ℕ → ℕ → ℕ → ℕ → ℕ
from_be_bytes b0 b1 b2 b3 = b0 * 2 ^ 24 + b1 * 2 ^ 16 + b2 * 2 ^ 8 + b3

abbrev pub to_be_bytes : ℕ → List ℕ
to_be_bytes w = (w / 2 ^ 24 % 256) ∷ (w / 2 ^ 16 % 256) ∷ (w / 2 ^ 8 % 256) ∷ (w % 256) ∷ []

-- The four words at `bytes[at ..]`; an array of 16 bytes has them all.
abbrev pub word_at : List ℕ → ℕ → ℕ
word_at b at =
    from_be_bytes (get_or b at 0) (get_or b (at + 1) 0) (get_or b (at + 2) 0) (get_or b (at + 3) 0)

unfoldable pub set_id : List ℕ → Slot → Slot
set_id b s = with_metadata s (record (s.mem.metadata) {
  id0 = word_at b 0;
  id1 = word_at b 4;
  id2 = word_at b 8;
  id3 = word_at b 12;
})

unfoldable pub data_slice : ℕ → Slot → List ℕ
data_slice len s = take len s.mem.payload

-- `copy_nonoverlapping` of `bytes` to the payload area.
unfoldable pub copy_in : List ℕ → Slot → Slot
copy_in bytes s = record {
  mem = record { metadata = s.mem.metadata; payload = bytes ++ drop (length bytes) s.mem.payload };
  data_size = s.data_size;
}

-- `write_data`; `now` is the clock in seconds.
unfoldable pub write_data : List ℕ → ℕ → Slot → Outcome SlotError (Unit {0}) × Slot
unfolding set_status set_size set_timestamp copy_in
write_data bytes now s =
    if ltb s.data_size (length bytes)
    then (err data_too_large, s)
    else let s1 = set_status writing s in
      let s2 = set_size (length bytes) s1 in
      let s3 = set_timestamp now s2 in let s4 = copy_in bytes s3 in (ok tt, set_status ready s4)

-- The part of `read_data` behind its first test.
unfoldable pub take_data : Slot → Option (List ℕ) × Slot
unfolding set_status size data_slice
take_data s =
    let s1 = set_status reading s in
    let n = size s1 in
    if ltb s1.data_size n
    then (Option.none, set_status complete s1)
    else let buffer = data_slice n s1 in (some buffer, set_status complete s1)

unfoldable pub read_data : Slot → Option (List ℕ) × Slot
unfolding status take_data
read_data s = elim (status s) [ ready ↦ take_data s | _ ↦ (Option.none, s) ]

-- `unwrap_or_else(|_| Uuid::nil())`
abbrev pub unwrap_or {ℓ} : {A : Type ℓ} → Option A → A → A
unwrap_or (some a) d = a
unwrap_or Option.none d = d

module _ ⦃uuid : UuidApi⦄ where
  -- `id`: the four words, big-endian, as a `Uuid`.
  unfoldable pub id : Slot → List ℕ
  id s =
      let md = s.mem.metadata in
      let bytes =
        to_be_bytes md.id0 ++ (to_be_bytes md.id1 ++ (to_be_bytes md.id2 ++ to_be_bytes md.id3)) in
      unwrap_or (uuid.from_slice bytes) uuid.nil

  unfoldable pub reset : Slot → Slot
  unfolding set_status set_operation set_size set_id set_timestamp
  reset s =
      let s1 = set_status empty s in
      let s2 = set_operation OperationKind.none s1 in
      let s3 = set_size 0 s2 in let s4 = set_id uuid.nil s3 in set_timestamp 0 s4

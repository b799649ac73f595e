-- ===== src/Ring/Samples.antt =====
-- A small ring with one entry, for tests.
use elgate.Prelude.{ℕ, refl, true, List, [], ◌∷◌, some, arith, length, replicate}
use elgate.Ring.Header
use elgate.Ring.Header.{RingHeader, Interference, moved, spurious}
use elgate.Ring.Slot.{UuidApi, SlotMem, disk_read}
use elgate.Ring.Memory.{RingMem}
use elgate.Ring.Buffer.{RingBuffer, World, Entry}
use elgate.Ring.Buffer.Valid.{IsValid}
use elgate.Ring.Buffer.Full.{IsAlone}
use elgate.Ring.Pending.{IsMapped}

abbrev pub nil_bytes : List ℕ
nil_bytes = replicate 16 0

-- The crate's answers, for ids known by their bytes.
instance abbrev pub uuid_bytes : UuidApi
uuid_bytes = record { nil = nil_bytes; from_slice = λ b. some b }

abbrev pub quiet : World
quiet = record { others = λ ms m. m; fresh_id = replicate 16 9; now = 1000 }

abbrev pub handle : RingBuffer
handle = record { path = "/dev/shm/ring"; size = 576; slot_size = 128; is_producer = true }

abbrev pub header_at : ℕ → ℕ → RingHeader
header_at p c = record {
  magic = Header.magic_value;
  version = 1;
  size = 576;
  slot_size = 128;
  slot_count = 3;
  producer_idx = p;
  consumer_idx = c;
  active_producers = 1;
  operations_completed = 0;
  created_at = 900;
  numa_node = 0;
  padding = [];
}

abbrev pub slot_with : ℕ → ℕ → List ℕ → SlotMem
slot_with status kind bytes = record {
  metadata = record {
    status_word = status;
    operation_word = kind;
    size_word = length bytes;
    id0 = 0;
    id1 = 0;
    id2 = 0;
    id3 = 0;
    timestamp_word = 0;
    reserved0 = 0;
    reserved1 = 0;
  };
  payload = bytes;
}

-- One entry, at index 2, and the producer about to wrap.
abbrev pub one_entry : RingMem
one_entry = record {
  header = header_at 0 2;
  slots = slot_with 0 0 [] ∷ slot_with 4 1 (5 ∷ []) ∷ slot_with 2 2 (7 ∷ 8 ∷ []) ∷ [];
}

abbrev pub first : Entry
first = (disk_read, 7 ∷ 8 ∷ [])

pub one_entry-IsValid : IsValid handle (first ∷ []) one_entry
one_entry-IsValid = record {
  roomy = record { holds = omega arith; aligned = refl };
  small = omega arith;
  mapped = refl;
  producer = omega arith;
  consumer = omega arith;
  ahead = refl;
  short = omega arith;
  pending = (
    slot_with 2 2 (7 ∷ 8 ∷ []),
    refl,
    record { ready = refl; kind = refl; sized = refl; fits = omega arith; bytes = refl },
    tt,
  );
  free = (
    slot_with 0 0 [],
    refl,
    record { free = refl },
    (slot_with 4 1 (5 ∷ []), refl, record { free = refl }, tt),
  );
}

-- No entry, and both indices at 2.
abbrev pub no_entry : RingMem
no_entry = record {
  header = header_at 2 2;
  slots = slot_with 0 0 [] ∷ slot_with 0 0 [] ∷ slot_with 4 1 (5 ∷ []) ∷ [];
}

pub no_entry-IsValid : IsValid handle [] no_entry
no_entry-IsValid = record {
  roomy = record { holds = omega arith; aligned = refl };
  small = omega arith;
  mapped = refl;
  producer = omega arith;
  consumer = omega arith;
  ahead = refl;
  short = omega arith;
  pending = tt;
  free = (
    _,
    refl,
    record { free = refl },
    (_, refl, record { free = refl }, (_, refl, record { free = refl }, tt)),
  );
}

pub no_entry-IsMapped : IsMapped handle no_entry
no_entry-IsMapped = record {
  roomy = record { holds = omega arith; aligned = refl };
  small = omega arith;
  mapped = refl;
  producer = omega arith;
  consumer = omega arith;
}

pub quiet-IsAlone : IsAlone quiet
quiet-IsAlone ms other = refl

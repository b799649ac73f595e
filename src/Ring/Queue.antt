-- ===== src/Ring/Queue.antt =====
-- What a client may expect of the ring: a bounded queue of entries, oldest first.
use elgate.Prelude.{ℕ, ◌<◌, List, [], ◌∷◌, ◌++◌, ltb, if◌then◌else◌, length}
use elgate.Ring.Slot.{OperationKind}
use elgate.Ring.Buffer.{Entry, World}

-- The calls of a client, and what it sees of each.
pub data Op : Type 0 where
  put : World → OperationKind → List ℕ → Op
  get : Op

pub data Reply : Type 0 where
  accepted too_large full nothing broken : Reply
  found : Entry → Reply

abbrev pub Queue : Type 0
Queue = List Entry

module _ (capacity most : ℕ) where
  abbrev pub push : Queue → OperationKind → List ℕ → Reply × Queue
  push q kind bytes =
      if ltb most (length bytes)
      then (too_large, q)
      else if ltb (length q) capacity
      then (accepted, q ++ ((kind, bytes) ∷ []))
      else (full, q)

  abbrev pub pop : Queue → Reply × Queue
  pop [] = (nothing, [])
  pop (e ∷ q) = (found e, q)

  abbrev pub step : Queue → Op → Reply × Queue
  step q (put w kind bytes) = push q kind bytes
  step q get = pop q

  abbrev pub run : Queue → List Op → List Reply × Queue
  run q [] = ([], q)
  run q (op ∷ ops) = let (r, q') = step q op in let (rs, q'') = run q' ops in (r ∷ rs, q'')

  -- No `put` meets a full queue.
  abbrev pub Accepts : Queue → Op → Type 0
  Accepts q (put w kind bytes) = length q < capacity
  Accepts q get = Unit {0}

  abbrev pub Fits : Queue → List Op → Type 0
  Fits q [] = Unit {0}
  Fits q (op ∷ ops) = Accepts q op × Fits (step q op).1 ops

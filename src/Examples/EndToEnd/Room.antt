-- ===== src/Examples/EndToEnd/Room.antt =====
-- A process of elgate-core/examples/end_to_end.rs on a ring with room for its notifications.
use elgate.Prelude.{ℕ, ◌≤◌, arith}
use elgate.Ring.Buffer.{RingBuffer}
use elgate.Net.Sockets.{Addr}
use elgate.Net.IoUring.{State}
use elgate.Examples.Tells.{HasRoom}
use elgate.Examples.Calls.{IsLinked}

pub IsLinked-le :
    (rb : RingBuffer) (j k : ℕ) (addr : Addr) (fd : ℕ) (s : State)
    → k ≤ j
    → IsLinked (HasRoom rb j) addr fd s
    → IsLinked (HasRoom rb k) addr fd s
IsLinked-le rb j k addr fd s h linked = record {
  alone = linked.alone;
  roomy = record {
    entries = linked.roomy.entries;
    valid = linked.roomy.valid;
    room = omega (arith, linked.roomy.room);
  };
}

-- ===== src/Ring/Create/Producers.antt =====
-- The count of active producers.
use elgate.Prelude.{ℕ, ◌+◌, ◌^◌, ◌≤◌, ◌<◌, ◌≡◌, refl, Bool, true, false, List, [], ◌∷◌, arith}
use elgate.Ring.Header.{register_producer, unregister_producer}
use elgate.Ring.Memory.{RingMem}
use elgate.Ring.Buffer.{RingBuffer}
use elgate.Ring.Create.{register_as_producer, unregister_as_producer, drop_ring, active_producers}

-- What a handle adds to the count.
abbrev pub share_of : Bool → ℕ
share_of true = 1
share_of false = 0

pub data Role : Type 0 where
  register unregister : Role

unfoldable pub change_role : Role → RingBuffer → RingMem → RingBuffer × RingMem
change_role register rb m = register_as_producer rb m
change_role unregister rb m = unregister_as_producer rb m

unfoldable pub change_roles : List Role → RingBuffer → RingMem → RingBuffer × RingMem
change_roles [] rb m = (rb, m)
change_roles (r ∷ rs) rb m = let (rb', m') = change_role r rb m in change_roles rs rb' m'

-- One change moves the count and the handle's share of it alike.
record Balanced (rb : RingBuffer) (m : RingMem) (next : RingBuffer × RingMem) : Type 0 where
  moved :
      next.1.header.active_producers + share_of rb.is_producer
      ≡ m.header.active_producers + share_of (next.0).is_producer
  counted : share_of (next.0).is_producer ≤ next.1.header.active_producers

change_role-Balanced :
    (r : Role) (rb : RingBuffer) (m : RingMem)
    → share_of rb.is_producer ≤ m.header.active_producers
    → m.header.active_producers + 1 < 2 ^ 64 + share_of rb.is_producer
    → Balanced rb m (change_role r rb m)
unfolding change_role register_as_producer unregister_as_producer register_producer
    unregister_producer
change_role-Balanced register rb m h b = ground arith
change_role-Balanced unregister rb m h b = ground arith

drop_lem :
    (rb : RingBuffer) (m : RingMem)
    → share_of rb.is_producer ≤ m.header.active_producers
    → m.header.active_producers + 1 < 2 ^ 64 + share_of rb.is_producer
    → (drop_ring rb m).header.active_producers + share_of rb.is_producer ≡ m.header.active_producers
unfolding drop_ring unregister_producer
drop_lem rb m h b = ground arith

change_roles-Balanced :
    (rs : List Role) (rb : RingBuffer) (m : RingMem)
    → share_of rb.is_producer ≤ m.header.active_producers
    → m.header.active_producers + 1 < 2 ^ 64 + share_of rb.is_producer
    → Balanced rb m (change_roles rs rb m)
unfolding change_roles
change_roles-Balanced [] rb m h b = record { moved = refl; counted = h }
change_roles-Balanced (r ∷ rs) rb m h b =
    let now = change_role-Balanced r rb m h b in
    let later =
      change_roles-Balanced rs (change_role r rb m).0 (change_role r rb m).1 now.counted
        (omega (arith, now.moved, b)) in
    record { moved = omega (arith, now.moved, later.moved); counted = later.counted }

-- However often a handle registers and unregisters, it counts once at most, and once it is dropped
-- the count is what the other handles make it. The count stands for this handle too at the start,
-- if it is a producer, and stays below 2 ^ 64.
pub producers_balanced :
    (rs : List Role) (rb : RingBuffer) (m : RingMem)
    → share_of rb.is_producer ≤ active_producers m
    → active_producers m + 1 < 2 ^ 64 + share_of rb.is_producer
    → let (rb', m') = change_roles rs rb m in
      (active_producers m' + share_of rb.is_producer
        ≡ active_producers m + share_of rb'.is_producer)
      × (active_producers (drop_ring rb' m') + share_of rb.is_producer ≡ active_producers m)
unfolding active_producers
producers_balanced rs rb m h b =
    let all = change_roles-Balanced rs rb m h b in
    (
      all.moved,
      omega (
        arith,
        all.moved,
        drop_lem (change_roles rs rb m).0 (change_roles rs rb m).1 all.counted
            (omega (arith, all.moved, b)),
      ),
    )

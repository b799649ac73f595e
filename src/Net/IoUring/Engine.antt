-- ===== src/Net/IoUring/Engine.antt =====
-- What the calls of elgate-core/src/net/io_uring.rs do to the map, the descriptors and the ring.
use elgate.Prelude.{
  truncated, truncated_all, ℕ, ◌<◌, ◌≡◌, refl, sym, ap, ◌∙◌, subst, inl, inr, List, some, length,
  IoResult, io_ok, io_err, Outcome, ok, err, panic, fault,
}
use mathlib.Core.Option.{none-ne-some, some-injective}
use elgate.Ring.Slot.{UuidApi, OperationKind, network_send, network_receive}
use elgate.Ring.Memory.{RingMem}
use elgate.Ring.Buffer.{RingBuffer, World, Entry}
use elgate.Ring.Buffer.Valid.{IsValid}
use elgate.Notify.{notify, notified, notify-IsValid}
use elgate.Net.Sockets.{Addr, SocketApi}
use elgate.Net.IoUring.{
  NetworkError, read_failed, write_failed, Connections, get_stream, find_addr, State, NetworkEngine,
  then_return, notify_and_return, read, read_answer, write_answer, write,
}
use elgate.Net.IoUring.Cache.{IsCache, find_addr_cases}

pub then_return-connections :
    {A : Type 0} (a : A) (s : State) (x : Outcome NetworkError (Unit {0}) × RingMem)
    → (then_return a s x).1.connections ≡ s.connections
then_return-connections a s (ok u, m) = refl
then_return-connections a s (err e, m) = refl
then_return-connections a s (panic, m) = refl
then_return-connections a s (fault, m) = refl

pub then_return-fds :
    {A : Type 0} (a : A) (s : State) (x : Outcome NetworkError (Unit {0}) × RingMem)
    → (then_return a s x).1.fds ≡ s.fds
then_return-fds a s (ok u, m) = refl
then_return-fds a s (err e, m) = refl
then_return-fds a s (panic, m) = refl
then_return-fds a s (fault, m) = refl

module _ ⦃uuid : UuidApi⦄ (engine : NetworkEngine) where
  abbrev rb : RingBuffer
  rb = engine.ring_buffer

  -- The ring holds `q` and has a slot to spare.
  abbrev pub IsReady : List Entry → State → Type 0
  IsReady q s = IsValid rb q s.ring × (length q < s.ring.header.slot_count)

  -- Where the ring has a slot to spare, the call returns its result, and the ring has the
  -- notification behind its entries.
  pub notify_and_return-ok :
      {A : Type 0} (w : World) (api : SocketApi) (kind : OperationKind) (addr : Addr) (a : A)
      (s : State) (q : List Entry)
      → IsReady q s
      → (notify_and_return engine w api kind addr a s ≡ (
        ok a,
        record s { ring = (notify {E = NetworkError} rb w kind (engine.to_string addr) s.ring).1 },
      ))
        × IsValid rb
            (notified rb kind (engine.to_string addr) q)
            (notify {E = NetworkError} rb w kind (engine.to_string addr) s.ring).1
  unfolding notify_and_return
  notify_and_return-ok w api kind addr a s q ready =
      let told = notify {E = NetworkError} rb w kind (engine.to_string addr) s.ring in
      let sent =
        notify-IsValid {E = NetworkError} rb w kind (engine.to_string addr) q s.ring ready.0
          ready.1 in
      (ap (λ o. then_return a s (o, told.1)) sent.0, sent.1)

  -- The answer to a read, as the caller is to see it, and the entries of the ring then.
  abbrev pub read_reply : IoResult (List ℕ) → Outcome NetworkError (List ℕ)
  read_reply (io_ok bytes) = ok bytes
  read_reply (io_err e) = err (read_failed e)

  abbrev pub write_reply : IoResult ℕ → Outcome NetworkError ℕ
  write_reply (io_ok n) = ok n
  write_reply (io_err e) = err (write_failed e)

  abbrev pub told_of : {A : Type 0} → IoResult A → OperationKind → Addr → List Entry → List Entry
  told_of (io_ok a) kind addr q = notified rb kind (engine.to_string addr) q
  told_of (io_err e) kind addr q = q

  found_stream :
      (fd : ℕ) (a : Addr) (conns : Connections)
      → IsCache conns
      → find_addr fd conns ≡ some a
      → get_stream a conns ≡ some fd
  found_stream fd a conns h e = elim (find_addr_cases fd conns h) [
    | inl (missing, closed) ↦ absurd (none-ne-some a (sym missing ∙ e))
    | inr (b, found, stored, gone) ↦
        subst (λ c. get_stream c conns ≡ some fd) (some-injective b a (sym found ∙ e)) stored
  ]

  module _ (w : World) (api : SocketApi) (fd : ℕ) (a : Addr) (s : State) (q : List Entry) where
    read_answered :
        (r : IoResult (List ℕ))
        → IsReady q s
        → ((read_answer engine w api a r s).0 ≡ read_reply r)
          × ((read_answer engine w api a r s).1.connections ≡ s.connections)
          × ((read_answer engine w api a r s).1.fds ≡ s.fds)
          × IsValid rb (told_of r network_receive a q) (read_answer engine w api a r s).1.ring
    read_answered (io_ok bytes) ready =
        let done =
          notify_and_return-ok w api network_receive a (truncated engine.config.buffer_size bytes) s
            q ready in
        rw (done.0, truncated_all engine.config.buffer_size bytes) (refl, refl, refl, done.1)
    read_answered (io_err e) ready = (refl, refl, refl, ready.0)

    -- Where every stream in the map has an address and a descriptor of its own, a read of a
    -- descriptor that the map finds an address for answers what the system answers for that
    -- descriptor, leaves the map and the descriptors as they are, and after a success notifies the
    -- ring, where that has a slot to spare.
    pub read_found :
        IsCache s.connections
        → find_addr fd s.connections ≡ some a
        → IsReady q s
        → let r = api.read_from fd engine.config.buffer_size in
          let (reply, s') = read engine w api fd s in
          (reply ≡ read_reply r)
          × (s'.connections ≡ s.connections)
          × (s'.fds ≡ s.fds)
          × IsValid rb (told_of r network_receive a q) s'.ring
    unfolding read
    read_found h e ready =
        rw (e, found_stream fd a s.connections h e)
          (read_answered (api.read_from fd engine.config.buffer_size) ready)

    write_answered :
        (r : IoResult ℕ)
        → IsReady q s
        → ((write_answer engine w api a r s).0 ≡ write_reply r)
          × ((write_answer engine w api a r s).1.connections ≡ s.connections)
          × ((write_answer engine w api a r s).1.fds ≡ s.fds)
          × IsValid rb (told_of r network_send a q) (write_answer engine w api a r s).1.ring
    write_answered (io_ok n) ready =
        let done = notify_and_return-ok w api network_send a n s q ready in
        rw done.0 (refl, refl, refl, done.1)
    write_answered (io_err e) ready = (refl, refl, refl, ready.0)

    -- Where every stream in the map has an address and a descriptor of its own, a write to a
    -- descriptor that the map finds an address for answers what the system answers for that
    -- descriptor, leaves the map and the descriptors as they are, and after a success notifies the
    -- ring, where that has a slot to spare.
    pub write_found :
        (bytes : List ℕ)
        → IsCache s.connections
        → find_addr fd s.connections ≡ some a
        → IsReady q s
        → let r = api.write_to fd bytes in
          let (reply, s') = write engine w api fd bytes s in
          (reply ≡ write_reply r)
          × (s'.connections ≡ s.connections)
          × (s'.fds ≡ s.fds)
          × IsValid rb (told_of r network_send a q) s'.ring
    unfolding write
    write_found bytes h e ready =
        rw (e, found_stream fd a s.connections h e) (write_answered (api.write_to fd bytes) ready)

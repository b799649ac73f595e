-- ===== src/Net/IoUring/Streams.antt =====
-- How streams of elgate-core/src/net/io_uring.rs come into the map and leave it.
use elgate.Prelude.{ℕ, ◌≡◌, ◌≢◌, refl, ap, ◌⊎◌, inl, inr, List, ◌∷◌, some, none, io_ok, ok}
use elgate.Ring.Slot.{UuidApi, network_send, network_receive, network_close}
use elgate.Ring.Buffer.{RingBuffer, World, Entry}
use elgate.Ring.Buffer.Valid.{IsValid}
use elgate.Notify.{notify, notified}
use elgate.Net.Sockets.{Addr, close_fd, SocketApi, IsClosed}
use elgate.Net.Sockets.Table.{close_fd-IsClosed}
use elgate.Net.IoUring.{
  NetworkError, get_stream, find_addr, remove_stream, insert_stream, State, drop_stream,
  store_stream, NetworkEngine, ListenerApi, notify_and_return, accept, connect, close,
}
use elgate.Net.IoUring.Engine.{
  then_return-connections, then_return-fds, IsReady, notify_and_return-ok,
}
use elgate.Net.IoUring.Cache.{
  cached_fds, IsCache, find_addr-none, insert_stream-IsCache, insert_stream-found, find_addr_cases,
  remove_stream-IsCache, get_stream-gone,
}

module _ ⦃uuid : UuidApi⦄ (engine : NetworkEngine) where
  abbrev rb : RingBuffer
  rb = engine.ring_buffer

  -- Where every stream in the map has an address and a descriptor of its own, the system connects
  -- with a descriptor that is not in the map and the ring has a slot to spare, connect returns the
  -- descriptor, which the map then finds the address by and the address the descriptor; each
  -- stream in the map has an address and a descriptor of its own again; and the ring has a
  -- NetworkSend notification behind its entries, if it fits.
  pub connect-found :
      (w : World) (api : SocketApi) (addr : Addr) (fd : ℕ) (s : State) (q : List Entry)
      → api.connect_to addr ≡ io_ok fd
      → IsClosed fd (cached_fds s.connections)
      → IsCache s.connections
      → IsReady engine q s
      → let (r, s') = connect engine w api addr s in
        (r ≡ ok fd)
        × IsCache s'.connections
        × (find_addr fd s'.connections ≡ some addr)
        × (get_stream addr s'.connections ≡ some fd)
        × IsValid rb (notified rb network_send (engine.to_string addr) q) s'.ring
  unfolding connect store_stream
  connect-found w api addr fd s q e fresh h ready =
      let made : State = store_stream addr fd (record s { fds = fd ∷ s.fds }) in
      let done = notify_and_return-ok engine w api network_send addr fd made q ready in
      let found = insert_stream-found addr fd s.connections in
      rw (e, done.0)
        (refl, insert_stream-IsCache addr fd s.connections fresh h, found.0, found.1, done.1)

  connect-stored :
      (w : World) (api : SocketApi) (addr : Addr) (fd : ℕ) (s : State)
      → api.connect_to addr ≡ io_ok fd
      → ((connect engine w api addr s).1.connections ≡ insert_stream addr fd s.connections)
        × ((connect engine w api addr s).1.fds
            ≡ drop_stream (get_stream addr s.connections) (fd ∷ s.fds))
  unfolding connect store_stream notify_and_return
  connect-stored w api addr fd s e =
      let made : State = store_stream addr fd (record s { fds = fd ∷ s.fds }) in
      let told = notify {E = NetworkError} rb w network_send (engine.to_string addr) s.ring in
      rw e (then_return-connections fd made told, then_return-fds fd made told)

  -- Where every stream in the map has an address and a descriptor of its own and there is one for
  -- an address, a further connect to that address that succeeds with another descriptor closes the
  -- descriptor of the earlier stream, which the map no longer finds.
  pub connect_again-IsClosed :
      (w : World) (api : SocketApi) (addr : Addr) (old fd : ℕ) (s : State)
      → get_stream addr s.connections ≡ some old
      → api.connect_to addr ≡ io_ok fd
      → fd ≢ old
      → IsCache s.connections
      → let s' = (connect engine w api addr s).1 in
        IsClosed old s'.fds × (find_addr old s'.connections ≡ none)
  unfolding insert_stream
  connect_again-IsClosed w api addr old fd s stored e other h =
      let made = connect-stored w api addr fd s e in
      rw (made.0, made.1, stored)
        (
          close_fd-IsClosed old (fd ∷ s.fds),
          find_addr-none old (insert_stream addr fd s.connections)
              (other, get_stream-gone addr old s.connections h stored),
        )

  close_missing :
      (w : World) (api : SocketApi) (fd : ℕ) (s : State)
      → find_addr fd s.connections ≡ none
      → close engine w api fd s ≡ (ok tt, s)
  unfolding close
  close_missing w api fd s e = rw e

  close_found :
      (w : World) (api : SocketApi) (fd a : ℕ) (s : State) (q : List Entry)
      → find_addr fd s.connections ≡ some a
      → get_stream a s.connections ≡ some fd
      → IsReady engine q s
      → (close engine w api fd s ≡ (
        ok tt,
        record {
          connections = remove_stream a s.connections;
          fds = close_fd fd s.fds;
          ring = (notify {E = NetworkError} rb w network_close (engine.to_string a) s.ring).1;
        },
      ))
        × IsValid rb
            (notified rb network_close (engine.to_string a) q)
            (notify {E = NetworkError} rb w network_close (engine.to_string a) s.ring).1
  unfolding close
  close_found w api fd a s q found stored ready =
      let left : State = record s {
        connections = remove_stream a s.connections;
        fds = close_fd fd s.fds;
      } in
      let done = notify_and_return-ok engine w api network_close a tt left q ready in
      rw (found, stored) (done.0, done.1)

  -- Where every stream in the map has an address and a descriptor of its own and the ring a slot
  -- to spare, close of a descriptor that is not in the map changes nothing, and of one that is
  -- takes it out of the map, closes it and notifies the ring; both succeed.
  pub close_cases :
      (w : World) (api : SocketApi) (fd : ℕ) (s : State) (q : List Entry)
      → IsCache s.connections
      → IsReady engine q s
      → let (r, s') = close engine w api fd s in
        (IsClosed fd (cached_fds s.connections) × (r ≡ ok tt) × (s' ≡ s))
        ⊎ ((a : Addr) × (find_addr fd s.connections ≡ some a)
            × (r ≡ ok tt)
            × IsCache s'.connections
            × IsClosed fd (cached_fds s'.connections)
            × IsClosed fd s'.fds
            × IsValid rb (notified rb network_close (engine.to_string a) q) s'.ring)
  close_cases w api fd s q h ready = elim (find_addr_cases fd s.connections h) [
    | inl (missing, closed) ↦ inl (
      closed,
      ap (λ d. d.0) (close_missing w api fd s missing),
      ap (λ d. d.1) (close_missing w api fd s missing),
    )
    | inr (a, found, stored, gone) ↦
        let done = close_found w api fd a s q found stored ready in
        inr (
          rw done.0 (
            a,
            found,
            refl,
            remove_stream-IsCache a s.connections h,
            gone,
            close_fd-IsClosed fd s.fds,
            done.1,
          ))
  ]

  -- Where every stream in the map has an address and a descriptor of its own, the system names the
  -- listener's address, binds it and accepts with a descriptor that is not in the map, and the
  -- ring has a slot to spare, accept returns the descriptor and the peer; the map finds them by
  -- each other and has that form again, the ring has a NetworkReceive notification behind its
  -- entries, if it fits, and the caller's listener is closed.
  pub accept-found :
      (w : World) (api : SocketApi) (listeners : ListenerApi) (listener_fd bound_fd fd : ℕ)
      (local peer : Addr) (s : State) (q : List Entry)
      → listeners.local_addr listener_fd ≡ io_ok local
      → listeners.bind local ≡ io_ok bound_fd
      → api.accept_on bound_fd ≡ io_ok (fd, peer)
      → IsClosed fd (cached_fds s.connections)
      → IsCache s.connections
      → IsReady engine q s
      → let (r, s') = accept engine w api listeners listener_fd s in
        (r ≡ ok (fd, peer))
        × IsCache s'.connections
        × (find_addr fd s'.connections ≡ some peer)
        × (get_stream peer s'.connections ≡ some fd)
        × IsClosed listener_fd s'.fds
        × IsValid rb (notified rb network_receive (engine.to_string peer) q) s'.ring
  unfolding accept store_stream
  accept-found w api listeners listener_fd bound_fd fd local peer s q e b a fresh h ready =
      let made : State = store_stream peer fd (record s { fds = fd ∷ bound_fd ∷ s.fds }) in
      let new : ℕ × Addr = (fd, peer) in
      let done = notify_and_return-ok engine w api network_receive peer new made q ready in
      let found = insert_stream-found peer fd s.connections in
      rw (e, b, a, done.0)
        (
          refl,
          insert_stream-IsCache peer fd s.connections fresh h,
          found.0,
          found.1,
          close_fd-IsClosed listener_fd _,
          done.1,
        )

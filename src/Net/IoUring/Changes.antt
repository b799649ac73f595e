-- ===== src/Net/IoUring/Changes.antt =====
-- What each call of elgate-core/src/net/io_uring.rs makes of the map and the descriptors, whatever it
-- and its notification come to.
use elgate.Prelude.{
  ℕ, refl, sym, subst, inl, inr, List, ◌∷◌, Option, some, none, IoResult, io_ok, io_err,
}
use elgate.Ring.Slot.{UuidApi, OperationKind, network_send, network_receive, network_close}
use elgate.Ring.Buffer.{World}
use elgate.Notify.{notify}
use elgate.Net.Sockets.{Addr, Fds, SocketApi, IsClosed}
use elgate.Net.IoUring.{
  NetworkError, State, NetworkEngine, get_stream, insert_stream, drop_stream, store_stream,
  notify_and_return, accepted, bound, connected, read_at, read_stream, read_answer, write_at,
  write_stream, write_answer, close_at,
}
use elgate.Net.IoUring.Cache.{cached_fds, remove_stream-IsClosed}
use elgate.Net.IoUring.Engine.{then_return-connections, then_return-fds}
use elgate.Net.IoUring.Sound.{
  IsOpen, IsSound, open_apart, not_cached, opened-IsSound, closed-IsSound, removed-IsSound,
  stored-IsSound,
}

-- A new descriptor is not one that is open.
abbrev pub IsFreshSocket : IoResult ℕ → Fds → Type 0
IsFreshSocket (io_ok fd) fds = IsClosed fd fds
IsFreshSocket (io_err e) fds = Unit

abbrev pub IsFreshPeer : IoResult (ℕ × Addr) → Fds → Type 0
IsFreshPeer (io_ok (fd, peer)) fds = IsClosed fd fds
IsFreshPeer (io_err e) fds = Unit

abbrev pub IsFreshBound : SocketApi → IoResult ℕ → Fds → Type 0
IsFreshBound api (io_ok fd) fds = IsClosed fd fds × IsFreshPeer (api.accept_on fd) (fd ∷ fds)
IsFreshBound api (io_err e) fds = Unit

abbrev pub SoundState : State → Type 0
SoundState s = IsSound s.connections s.fds

module _ ⦃uuid : UuidApi⦄ (engine : NetworkEngine) where
  -- A notification changes neither the map nor the descriptors, whatever it comes to.
  told-IsSound :
      {A : Type 0} (w : World) (api : SocketApi) (kind : OperationKind) (addr : Addr) (a : A)
      (s : State)
      → SoundState s
      → SoundState (notify_and_return engine w api kind addr a s).1
  unfolding notify_and_return
  told-IsSound w api kind addr a s v =
      let told =
        notify {E = NetworkError} engine.ring_buffer w kind (engine.to_string addr) s.ring in
      rw (then_return-connections a s told, then_return-fds a s told) v

  module _ (w : World) (api : SocketApi) where
    stored :
        {A : Type 0} (kind : OperationKind) (addr : Addr) (fd : ℕ) (a : A) (s : State)
        → IsClosed fd s.fds
        → SoundState s
        → SoundState
            (notify_and_return engine w api kind addr a
              (store_stream addr fd (record s { fds = fd ∷ s.fds }))).1
    unfolding store_stream
    stored kind addr fd a s c v =
        told-IsSound w api kind addr a
          (record s {
            connections = insert_stream addr fd s.connections;
            fds = drop_stream (get_stream addr s.connections) (fd ∷ s.fds);
          })
          (stored-IsSound s.connections s.fds addr fd c v)

    pub connected-IsSound :
        (addr : Addr) (r : IoResult ℕ) (s : State)
        → IsFreshSocket r s.fds
        → SoundState s
        → SoundState (connected engine w api addr r s).1
    connected-IsSound addr (io_ok fd) s c v = stored network_send addr fd fd s c v
    connected-IsSound addr (io_err e) s c v = v

    read_answer-IsSound :
        (addr : Addr) (r : IoResult (List ℕ)) (s : State)
        → SoundState s
        → SoundState (read_answer engine w api addr r s).1
    read_answer-IsSound addr (io_ok bytes) s v = told-IsSound w api network_receive addr _ s v
    read_answer-IsSound addr (io_err e) s v = v

    write_answer-IsSound :
        (addr : Addr) (r : IoResult ℕ) (s : State)
        → SoundState s
        → SoundState (write_answer engine w api addr r s).1
    write_answer-IsSound addr (io_ok n) s v = told-IsSound w api network_send addr n s v
    write_answer-IsSound addr (io_err e) s v = v

    pub read_at-IsSound :
        (o : Option Addr) (s : State) → SoundState s → SoundState (read_at engine w api o s).1
    read_at-IsSound none s v = v
    read_at-IsSound (some addr) s v = by_stream (get_stream addr s.connections)
      where
        by_stream : (o : Option ℕ) → SoundState (read_stream engine w api addr o s).1
        by_stream none = v
        by_stream (some fd) =
            read_answer-IsSound addr (api.read_from fd engine.config.buffer_size) s v

    pub write_at-IsSound :
        (bytes : List ℕ) (o : Option Addr) (s : State)
        → SoundState s
        → SoundState (write_at engine w api bytes o s).1
    write_at-IsSound bytes none s v = v
    write_at-IsSound bytes (some addr) s v = by_stream (get_stream addr s.connections)
      where
        by_stream : (o : Option ℕ) → SoundState (write_stream engine w api bytes addr o s).1
        by_stream none = v
        by_stream (some fd) = write_answer-IsSound addr (api.write_to fd bytes) s v

    pub close_at-IsSound :
        (o : Option Addr) (s : State) → SoundState s → SoundState (close_at engine w api o s).1
    close_at-IsSound none s v = v
    close_at-IsSound (some addr) s v =
        told-IsSound w api network_close addr tt _ (removed-IsSound s.connections s.fds addr v)

    accepted-IsSound :
        (r : IoResult (ℕ × Addr)) (s : State)
        → IsFreshPeer r s.fds
        → SoundState s
        → SoundState (accepted engine w api r s).1
    accepted-IsSound (io_ok (fd, peer)) s c v = stored network_receive peer fd (fd, peer) s c v
    accepted-IsSound (io_err e) s c v = v

    -- A descriptor that is open and not in the map does not come into it.
    accepted-IsClosed :
        (g : ℕ) (r : IoResult (ℕ × Addr)) (s : State)
        → IsFreshPeer r s.fds
        → IsOpen g s.fds
        → IsClosed g (cached_fds s.connections)
        → IsClosed g (cached_fds (accepted engine w api r s).1.connections)
    unfolding notify_and_return store_stream insert_stream
    accepted-IsClosed g (io_ok (fd, peer)) s c o h =
        let made : State = store_stream peer fd (record s { fds = fd ∷ s.fds }) in
        let told =
          notify {E = NetworkError} engine.ring_buffer w network_receive (engine.to_string peer)
            s.ring in
        subst (λ conns. IsClosed g (cached_fds conns))
          (sym (then_return-connections {A = ℕ × Addr} (fd, peer) made told))
          (
            (λ same. open_apart g fd s.fds o c (sym same)),
            remove_stream-IsClosed peer g s.connections h,
          )
    accepted-IsClosed g (io_err e) s c o h = h

    module _ (l : ℕ) (s : State) (o : IsOpen l s.fds)
        (h : IsClosed l (cached_fds s.connections)) where
      pub bound-IsSound :
          (r : IoResult ℕ)
          → IsFreshBound api r s.fds
          → SoundState s
          → SoundState (bound engine w api r s).1
            × IsClosed l (cached_fds (bound engine w api r s).1.connections)
      bound-IsSound (io_ok b) (c, f) v =
          let s1 : State = record s { fds = b ∷ s.fds } in
          let r = api.accept_on b in
          (
            closed-IsSound (accepted engine w api r s1).1.connections
                (accepted engine w api r s1).1.fds b
                (accepted-IsClosed b r s1 f (inl refl) (not_cached s.connections s.fds b v c))
                (accepted-IsSound r s1 f (opened-IsSound s.connections s.fds b c v)),
            accepted-IsClosed l r s1 f (inr o) h,
          )
      bound-IsSound (io_err e) c v = (v, h)

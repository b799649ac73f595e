-- ===== src/Examples/Calls/NetCalls.antt =====
-- The calls of the engine for sockets that the programs of elgate-core/examples make.
use elgate.Prelude.{
  ℕ, ◌≡◌, refl, ap, eq→==, List, [], ◌∷◌, some, truncated_all, IoError, io_ok, io_err, ok, err,
}
use elgate.Ring.Slot.{UuidApi, OperationKind, network_send, network_receive, network_close}
use elgate.Ring.Memory.{RingMem}
use elgate.Notify.{notify}
use elgate.Net.Sockets.{Addr}
use elgate.Net.IoUring
use elgate.Net.IoUring.{
  NetworkError, NetworkEngine, read_failed, Connections, State, find_addr, get_stream, ListenerApi,
  store_stream,
}
use elgate.Examples.Process.{Answers, net, map_err, of_net}
use elgate.Examples.Tells.{Tells}

found_alone :
    (conns : Connections) (addr : Addr) (fd : ℕ)
    → conns ≡ (addr, fd) ∷ []
    → (find_addr fd conns ≡ some addr) × (get_stream addr conns ≡ some fd)
unfolding find_addr get_stream
found_alone conns addr fd e = rw (e, eq→== fd fd refl, eq→== addr addr refl) (refl, refl)

-- The map has just the stream of an address, and the ring is `P`.
pub record IsLinked (P : RingMem → Type 0) (addr : Addr) (fd : ℕ) (s : State) : Type 0 where
  pub alone : s.connections ≡ (addr, fd) ∷ []
  pub roomy : P s.ring

module _ ⦃uuid : UuidApi⦄ (engine : NetworkEngine) {P P' : RingMem → Type 0} (a : Answers)
    (tells : Tells engine.ring_buffer a.world P P') where
  -- The end of a call.
  net_returns :
      {A : Type 0} (kind : OperationKind) (addr : Addr) (value : A) (s : State)
      → P s.ring
      → (m : RingMem) × (IoUring.notify_and_return engine a.world a.sockets kind addr value s
          ≡ (ok value, record s { ring = m }))
        × P' m
  unfolding IoUring.notify_and_return
  net_returns kind addr value s h =
      let text = engine.to_string addr in
      let (sent, after) = tells.told {E = NetworkError} kind text s.ring h in
      let m = (notify {E = NetworkError} engine.ring_buffer a.world kind text s.ring).1 in
      (m, ap (λ o. IoUring.then_return value s (o, m)) sent, after)

  module _ (s : State) where
    pub connect_lem :
        (addr : Addr) (fd : ℕ)
        → a.sockets.connect_to addr ≡ io_ok fd
        → s.connections ≡ []
        → P s.ring
        → (s' : State) × (net (IoUring.connect engine a.world a.sockets addr) s ≡ (ok fd, s'))
          × IsLinked P' addr fd s'
    unfolding IoUring.connect store_stream IoUring.insert_stream IoUring.remove_stream get_stream
    connect_lem addr fd e none_yet h =
        let made : State = record s { connections = (addr, fd) ∷ []; fds = fd ∷ s.fds } in
        let (m, done, roomy) = net_returns network_send addr fd made h in
        (
          record made { ring = m },
          rw (e, none_yet) (ap (λ d. (map_err of_net d.0, d.1)) done),
          record { alone = refl; roomy = roomy },
        )

    module _ (addr : Addr) (fd : ℕ) (linked : IsLinked P addr fd s) where
      pub write_lem :
          (bytes : List ℕ) (n : ℕ)
          → a.sockets.write_to fd bytes ≡ io_ok n
          → (s' : State) × (net (IoUring.write engine a.world a.sockets fd bytes) s ≡ (ok n, s'))
            × IsLinked P' addr fd s'
      unfolding IoUring.write
      write_lem bytes n e =
          let found = found_alone s.connections addr fd linked.alone in
          let (m, done, roomy) = net_returns network_send addr n s linked.roomy in
          (
            record s { ring = m },
            rw (found.0, found.1, e) (ap (λ d. (map_err of_net d.0, d.1)) done),
            record { alone = linked.alone; roomy = roomy },
          )

      pub read_lem :
          (bytes : List ℕ)
          → a.sockets.read_from fd engine.config.buffer_size ≡ io_ok bytes
          → (s' : State) × (IoUring.read engine a.world a.sockets fd s ≡ (ok bytes, s'))
            × IsLinked P' addr fd s'
      unfolding IoUring.read
      read_lem bytes e =
          let found = found_alone s.connections addr fd linked.alone in
          let (m, done, roomy) = net_returns network_receive addr bytes s linked.roomy in
          (
            record s { ring = m },
            rw (found.0, found.1, e, truncated_all engine.config.buffer_size bytes) done,
            record { alone = linked.alone; roomy = roomy },
          )

      pub read_failed_lem :
          (e : IoError)
          → a.sockets.read_from fd engine.config.buffer_size ≡ io_err e
          → IoUring.read engine a.world a.sockets fd s ≡ (err (read_failed e), s)
      unfolding IoUring.read
      read_failed_lem e failed =
          let found = found_alone s.connections addr fd linked.alone in
          rw (found.0, found.1, failed) refl

      pub close_lem :
          (s' : State) × (net (IoUring.close engine a.world a.sockets fd) s ≡ (ok tt, s'))
          × (s'.connections ≡ [])
          × P' s'.ring
      unfolding IoUring.close IoUring.remove_stream
      close_lem =
          let found = found_alone s.connections addr fd linked.alone in
          let left : State = record s {
            connections = IoUring.remove_stream addr s.connections;
            fds = IoUring.drop_stream (some fd) s.fds;
          } in
          let (m, done, after) = net_returns network_close addr tt left linked.roomy in
          (
            record left { ring = m },
            rw (found.0, found.1) (ap (λ d. (map_err of_net d.0, d.1)) done),
            rw (linked.alone, eq→== addr addr refl) refl,
            after,
          )

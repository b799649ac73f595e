-- ===== src/Examples/Profile/Network.antt =====
-- The profile of the network of elgate-core/examples/latency_profile.rs, on a ring that nobody reads.
use elgate.Prelude.{ℕ, ◌≡◌, refl, io_ok, ok}
use elgate.Ring.Slot.{UuidApi}
use elgate.Ring.Buffer.Full.{IsAlone}
use elgate.Net.IoUring.{NetworkEngine, State}
use elgate.Examples.Process.{tokio_uring, Answers}
use elgate.Examples.Tells.{NobodyReads-Tells}
use elgate.Examples.Calls.{connect_lem, close_lem}
use elgate.Examples.Grants.{IsIdle, IsConnected, GrantsRoundtrip, roundtrip_granted}
use elgate.Examples.Loops.{values, for_range_lem}
use elgate.Examples.Profile.{NetProfile, net_bytes, roundtrip, measured_roundtrip, profile_network}

pub record GrantsNetwork (buffer_size : ℕ) (a : NetProfile) : Type 0 where
  pub fd : ℕ
  pub connecting : IsAlone a.connecting.world
  pub connected : a.connecting.sockets.connect_to a.addr ≡ io_ok fd
  pub warm : (i : ℕ) → GrantsRoundtrip buffer_size fd net_bytes (a.warm_write i) (a.warm_read i)
  pub call : (i : ℕ) → GrantsRoundtrip buffer_size fd net_bytes (a.writing i) (a.reading i)
  pub closing : IsAlone a.closing.world

module _ ⦃uuid : UuidApi⦄ (engine : NetworkEngine) (a : NetProfile)
    (g : GrantsNetwork engine.config.buffer_size a) where
  roundtrip_lem :
      (w r : Answers) (s : State)
      → GrantsRoundtrip engine.config.buffer_size g.fd net_bytes w r
      → IsConnected engine a.addr g.fd s
      → (s' : State) × (roundtrip tokio_uring engine w r g.fd s ≡ (ok tt, s'))
        × IsConnected engine a.addr g.fd s'
  roundtrip_lem w r s t linked =
      let (s1, s2, wrote, got, linked2) =
        roundtrip_granted engine a.addr g.fd net_bytes w r s t linked in
      (s2, rw (wrote, got) refl, linked2)

  -- Each measured roundtrip gives its latency, and the stream is closed.
  pub profile_network_lem :
      (count : ℕ) (s : State)
      → IsIdle engine.ring_buffer s
      → (s' : State) × (profile_network tokio_uring engine a count s
          ≡ (ok (values a.elapsed 0 count), s'))
        × IsIdle engine.ring_buffer s'
  unfolding profile_network
  profile_network_lem count s (none_yet, h) =
      let rb = engine.ring_buffer in
      let (s1, met, linked1) =
        connect_lem engine a.connecting (NobodyReads-Tells rb _ g.connecting) s a.addr g.fd
          g.connected none_yet h in
      let (s2, warmed, linked2) =
        for_range_lem (IsConnected engine a.addr g.fd)
          (λ i. roundtrip tokio_uring engine (a.warm_write i) (a.warm_read i) g.fd) (λ i. tt)
          (λ i t. roundtrip_lem (a.warm_write i) (a.warm_read i) t (g.warm i)) 5 0 s1 linked1 in
      let (s3, measured, linked3) =
        for_range_lem (IsConnected engine a.addr g.fd)
          (measured_roundtrip tokio_uring engine a g.fd) a.elapsed
          (λ i t linked.
            let (t', done, linked') =
              roundtrip_lem (a.writing i) (a.reading i) t (g.call i) linked in
            (t', rw done refl, linked'))
          count 0 s2 linked2 in
      let (s4, left, none_left, h4) =
        close_lem engine a.closing (NobodyReads-Tells rb _ g.closing) s3 a.addr g.fd linked3 in
      (s4, rw (met, warmed, measured, left) refl, (none_left, h4))

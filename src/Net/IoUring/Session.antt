-- ===== src/Net/IoUring/Session.antt =====
-- Any sequence of calls on an engine of elgate-core/src/net/io_uring.rs.
use elgate.Prelude.{ℕ, List, [], ◌∷◌, IoResult, io_ok, io_err}
use elgate.Ring.Slot.{UuidApi}
use elgate.Ring.Buffer.{World}
use elgate.Net.Sockets.{Addr, Fds, SocketApi, IsClosed}
use elgate.Net.IoUring.{
  State, NetworkEngine, ListenerApi, find_addr, accept, listening, connect, read, write, close,
}
use elgate.Net.IoUring.Cache.{cached_fds}
use elgate.Net.IoUring.Changes.{
  IsFreshSocket, IsFreshBound, SoundState, connected-IsSound, read_at-IsSound, write_at-IsSound,
  close_at-IsSound, bound-IsSound,
}
use elgate.Net.IoUring.Sound.{IsOpen, IsSound, closed-IsSound}

pub data Call : Type 0 where
  accepts : ℕ → Call
  connects : Addr → Call
  reads : ℕ → Call
  writes : ℕ → List ℕ → Call
  closes : ℕ → Call

-- What a call meets.
pub record Meeting : Type 0 where
  pub world : World
  pub sockets : SocketApi
  pub listeners : ListenerApi

abbrev pub IsFreshListener : Meeting → IoResult Addr → Fds → Type 0
IsFreshListener m (io_ok addr) fds = IsFreshBound m.sockets (m.listeners.bind addr) fds
IsFreshListener m (io_err e) fds = Unit

-- The listener that the caller gives to `accept` is open, and is not one of the streams.
abbrev pub IsFair : Meeting → Call → State → Type 0
IsFair m (accepts fd) s =
    IsOpen fd s.fds
    × IsClosed fd (cached_fds s.connections)
    × IsFreshListener m (m.listeners.local_addr fd) s.fds
IsFair m (connects addr) s = IsFreshSocket (m.sockets.connect_to addr) s.fds
IsFair m _ s = Unit

module _ ⦃uuid : UuidApi⦄ (engine : NetworkEngine) where
  -- The state after one call, whatever it has returned.
  unfoldable pub state_after : Meeting → Call → State → State
  state_after m (accepts fd) s = (accept engine m.world m.sockets m.listeners fd s).1
  state_after m (connects addr) s = (connect engine m.world m.sockets addr s).1
  state_after m (reads fd) s = (read engine m.world m.sockets fd s).1
  state_after m (writes fd bytes) s = (write engine m.world m.sockets fd bytes s).1
  state_after m (closes fd) s = (close engine m.world m.sockets fd s).1

  unfoldable pub serve : List (Meeting × Call) → State → State
  serve [] s = s
  serve ((m, c) ∷ cs) s = serve cs (state_after m c s)

  abbrev pub AllFair : List (Meeting × Call) → State → Type 0
  AllFair [] s = Unit
  AllFair ((m, c) ∷ cs) s = IsFair m c s × AllFair cs (state_after m c s)

  listening-IsSound :
      (m : Meeting) (l : ℕ) (s : State)
      → IsOpen l s.fds
      → IsClosed l (cached_fds s.connections)
      → (r : IoResult Addr) → IsFreshListener m r s.fds
      → SoundState s
      → SoundState (listening engine m.world m.sockets m.listeners r s).1
        × IsClosed l (cached_fds (listening engine m.world m.sockets m.listeners r s).1.connections)
  listening-IsSound m l s o h (io_ok addr) f v =
      bound-IsSound engine m.world m.sockets l s o h (m.listeners.bind addr) f v
  listening-IsSound m l s o h (io_err e) f v = (v, h)

  state_after-IsSound :
      (m : Meeting) (c : Call) (s : State)
      → IsFair m c s
      → SoundState s
      → SoundState (state_after m c s)
  unfolding state_after accept connect read write close
  state_after-IsSound m (accepts l) s (o, h, f) v =
      let r = m.listeners.local_addr l in
      let (w, apart) = listening-IsSound m l s o h r f v in
      closed-IsSound (listening engine m.world m.sockets m.listeners r s).1.connections
        (listening engine m.world m.sockets m.listeners r s).1.fds l apart w
  state_after-IsSound m (connects addr) s f v =
      connected-IsSound engine m.world m.sockets addr (m.sockets.connect_to addr) s f v
  state_after-IsSound m (reads fd) s f v =
      read_at-IsSound engine m.world m.sockets (find_addr fd s.connections) s v
  state_after-IsSound m (writes fd bytes) s f v =
      write_at-IsSound engine m.world m.sockets bytes (find_addr fd s.connections) s v
  state_after-IsSound m (closes fd) s f v =
      close_at-IsSound engine m.world m.sockets (find_addr fd s.connections) s v

  -- Over any sequence of calls on the io_uring engine, whatever each of them and its notification
  -- comes to, where each new descriptor is one that is not open and accept is given an open
  -- listener that is not one of the streams, every stream in the map keeps an address and an open
  -- descriptor of its own, and no descriptor is in the table twice.
  pub serve-IsSound :
      (cs : List (Meeting × Call)) (s : State)
      → AllFair cs s
      → IsSound s.connections s.fds
      → IsSound (serve cs s).connections (serve cs s).fds
  unfolding serve
  serve-IsSound [] s f v = v
  serve-IsSound ((m, c) ∷ cs) s f v =
      serve-IsSound cs (state_after m c s) f.1 (state_after-IsSound m c s f.0 v)

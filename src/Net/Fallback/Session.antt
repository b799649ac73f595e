-- ===== src/Net/Fallback/Session.antt =====
-- Any sequence of calls on an engine of elgate-core/src/net/fallback.rs.
use elgate.Prelude.{ℕ, Bool, true, false, List, [], ◌∷◌, IoResult, io_ok, io_err}
use elgate.Net.Sockets.{Addr, Fds, SocketApi, IsClosed, IsTable}
use elgate.Net.Sockets.Table.{close_fd-IsTable}
use elgate.Net.Fallback.{
  NetworkConfig, NetworkEngine, accept_result, connect_result, read_result, write_result, perform,
  submit, accept_call, connect_call, read_call, write_call, close_call,
}

pub data Call : Type 0 where
  accepts : ℕ → Call
  connects : Addr → Call
  reads : ℕ → Call
  writes : ℕ → List ℕ → Call
  closes : ℕ → Call

-- A new descriptor is not one that is open.
abbrev pub IsFreshSocket : IoResult ℕ → Fds → Type 0
IsFreshSocket (io_ok new) fds = IsClosed new fds
IsFreshSocket (io_err e) fds = Unit

abbrev pub IsFreshPeer : IoResult (ℕ × Addr) → Fds → Type 0
IsFreshPeer (io_ok (new, peer)) fds = IsClosed new fds
IsFreshPeer (io_err e) fds = Unit

abbrev pub IsFresh : SocketApi → Call → Fds → Type 0
IsFresh api (accepts fd) fds = IsFreshPeer (api.accept_on fd) fds
IsFresh api (connects peer) fds = IsFreshSocket (api.connect_to peer) fds
IsFresh api _ fds = Unit

module _ (engine : NetworkEngine) where
  -- The open descriptors after one call.
  unfoldable pub fds_after : SocketApi → Call → Fds → Fds
  fds_after api (accepts fd) fds = (accept_call api engine fd fds).1
  fds_after api (connects peer) fds = (connect_call api engine peer fds).1
  fds_after api (reads fd) fds = (read_call api engine fd fds).1
  fds_after api (writes fd bytes) fds = (write_call api engine fd bytes fds).1
  fds_after api (closes fd) fds = (close_call api engine fd fds).1

  unfoldable pub serve : List (SocketApi × Call) → Fds → Fds
  serve [] fds = fds
  serve ((api, c) ∷ cs) fds = serve cs (fds_after api c fds)

  abbrev pub AllFresh : List (SocketApi × Call) → Fds → Type 0
  AllFresh [] fds = Unit
  AllFresh ((api, c) ∷ cs) fds = IsFresh api c fds × AllFresh cs (fds_after api c fds)

accept_result-IsTable :
    (fd : ℕ) (fds : Fds) (r : IoResult (ℕ × Addr))
    → IsFreshPeer r fds
    → IsTable fds
    → IsTable (accept_result fd fds r).1
accept_result-IsTable fd fds (io_ok (new, peer)) f t = close_fd-IsTable fd (new ∷ fds) (f, t)
accept_result-IsTable fd fds (io_err e) f t = close_fd-IsTable fd fds t

connect_result-IsTable :
    (fds : Fds) (r : IoResult ℕ)
    → IsFreshSocket r fds
    → IsTable fds
    → IsTable (connect_result fds r).1
connect_result-IsTable fds (io_ok new) f t = (f, t)
connect_result-IsTable fds (io_err e) f t = t

read_result-IsTable :
    (size fd : ℕ) (fds : Fds) (r : IoResult (List ℕ))
    → IsTable fds
    → IsTable (read_result size fd fds r).1
read_result-IsTable size fd fds (io_ok bytes) t = t
read_result-IsTable size fd fds (io_err e) t = close_fd-IsTable fd fds t

write_result-IsTable :
    (fd : ℕ) (fds : Fds) (r : IoResult ℕ) → IsTable fds → IsTable (write_result fd fds r).1
write_result-IsTable fd fds (io_ok n) t = t
write_result-IsTable fd fds (io_err e) t = close_fd-IsTable fd fds t

fds_after-IsTable :
    (config : NetworkConfig) (on : Bool) (api : SocketApi) (c : Call) (fds : Fds)
    → IsFresh api c fds
    → IsTable fds
    → IsTable (fds_after (record { config = config; running = on }) api c fds)
unfolding fds_after accept_call connect_call read_call write_call close_call submit perform
fds_after-IsTable config false api (accepts fd) fds f t = t
fds_after-IsTable config false api (connects peer) fds f t = t
fds_after-IsTable config false api (reads fd) fds f t = t
fds_after-IsTable config false api (writes fd bytes) fds f t = t
fds_after-IsTable config false api (closes fd) fds f t = t
fds_after-IsTable config true api (accepts fd) fds f t =
    accept_result-IsTable fd fds (api.accept_on fd) f t
fds_after-IsTable config true api (connects peer) fds f t =
    connect_result-IsTable fds (api.connect_to peer) f t
fds_after-IsTable config true api (reads fd) fds f t =
    read_result-IsTable config.buffer_size fd fds (api.read_from fd config.buffer_size) t
fds_after-IsTable config true api (writes fd bytes) fds f t =
    write_result-IsTable fd fds (api.write_to fd bytes) t
fds_after-IsTable config true api (closes fd) fds f t = close_fd-IsTable fd fds t

-- Over any sequence of calls on the fallback engine, where each new descriptor is one that is not
-- open, no descriptor is in the table twice.
pub serve-IsTable :
    (engine : NetworkEngine) (cs : List (SocketApi × Call)) (fds : Fds)
    → AllFresh engine cs fds
    → IsTable fds
    → IsTable (serve engine cs fds)
unfolding serve
serve-IsTable engine [] fds f t = t
serve-IsTable engine ((api, c) ∷ cs) fds f t =
    serve-IsTable engine cs (fds_after engine api c fds) f.1
      (fds_after-IsTable engine.config engine.running api c fds f.0 t)

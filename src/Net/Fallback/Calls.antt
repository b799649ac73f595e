-- ===== src/Net/Fallback/Calls.antt =====
-- What the callers of elgate-core/src/net/fallback.rs get, and which descriptors stay open.
use elgate.Prelude.{
  truncated_all, ℕ, ◌≡◌, ◌≢◌, refl, ap, true, List, ◌∷◌, ne→==, IoResult, io_ok, io_err, IoError,
  Outcome, ok, err,
}
use elgate.Net.Sockets.{Addr, Fds, close_fd, SocketApi, IsClosed}
use elgate.Net.Sockets.Table.{close_fd-IsClosed}
use elgate.Net.Fallback.{
  NetworkOperationType, accept, connect, read, write, NetworkError, failed, accept_result,
  connect_result, read_result, write_result, callback, as_accepted, as_connected, as_received,
  as_written, perform, NetworkEngine, submit, accept_call, connect_call, read_call, write_call,
  close_call,
}

-- The answer of the system, as the caller of that operation is to see it.
abbrev pub answered : {A : Type 0} → NetworkOperationType → IoResult A → Outcome NetworkError A
answered op (io_ok a) = ok a
answered op (io_err e) = err (failed op e)

accept-answered :
    (fd : ℕ) (fds : Fds) (r : IoResult (ℕ × Addr))
    → callback as_accepted (accept_result fd fds r).0 ≡ answered accept r
accept-answered fd fds (io_ok a) = refl
accept-answered fd fds (io_err e) = refl

connect-answered :
    (fds : Fds) (r : IoResult ℕ)
    → callback as_connected (connect_result fds r).0 ≡ answered connect r
connect-answered fds (io_ok a) = refl
connect-answered fds (io_err e) = refl

read-answered :
    (size fd : ℕ) (fds : Fds) (r : IoResult (List ℕ))
    → callback as_received (read_result size fd fds r).0 ≡ answered read r
read-answered size fd fds (io_ok bytes) = ap ok (truncated_all size bytes)
read-answered size fd fds (io_err e) = refl

write-answered :
    (fd : ℕ) (fds : Fds) (r : IoResult ℕ)
    → callback as_written (write_result fd fds r).0 ≡ answered write r
write-answered fd fds (io_ok n) = refl
write-answered fd fds (io_err e) = refl

module _ (api : SocketApi) (engine : NetworkEngine) where
  -- While the worker runs, each call of the fallback engine returns what the system answers to the
  -- call that it stands for: no callback meets a result of another type, and a close succeeds.
  pub calls_answered :
      (fd : ℕ) (peer : Addr) (bytes : List ℕ) (fds : Fds)
      → engine.running ≡ true
      → ((accept_call api engine fd fds).0 ≡ answered accept (api.accept_on fd))
        × ((connect_call api engine peer fds).0 ≡ answered connect (api.connect_to peer))
        × ((read_call api engine fd fds).0
            ≡ answered read (api.read_from fd engine.config.buffer_size))
        × ((write_call api engine fd bytes fds).0 ≡ answered write (api.write_to fd bytes))
        × ((close_call api engine fd fds).0 ≡ ok tt)
  unfolding accept_call connect_call read_call write_call close_call submit perform
  calls_answered fd peer bytes fds on = rw on (
    accept-answered fd fds (api.accept_on fd),
    connect-answered fds (api.connect_to peer),
    read-answered engine.config.buffer_size fd fds (api.read_from fd engine.config.buffer_size),
    write-answered fd fds (api.write_to fd bytes),
    refl,
  )

  -- After an accept of the fallback engine that succeeds with another descriptor, the new
  -- descriptor is open and the listener is closed.
  pub accept_call-IsClosed :
      (fd new : ℕ) (peer : Addr) (fds : Fds)
      → engine.running ≡ true
      → api.accept_on fd ≡ io_ok (new, peer)
      → new ≢ fd
      → (accept_call api engine fd fds ≡ (ok (new, peer), new ∷ close_fd fd fds))
        × IsClosed fd (accept_call api engine fd fds).1
  unfolding accept_call submit perform close_fd
  accept_call-IsClosed fd new peer fds on here other =
      rw (on, here, ne→== new fd other) (refl, (other, close_fd-IsClosed fd fds))

  -- A read or a write of the fallback engine that the system fails returns its error and closes
  -- the descriptor of the caller.
  pub failed_call-IsClosed :
      (fd : ℕ) (bytes : List ℕ) (e f : IoError) (fds : Fds)
      → engine.running ≡ true
      → api.read_from fd engine.config.buffer_size ≡ io_err e
      → api.write_to fd bytes ≡ io_err f
      → (read_call api engine fd fds ≡ (err (failed read e), close_fd fd fds))
        × (write_call api engine fd bytes fds ≡ (err (failed write f), close_fd fd fds))
        × IsClosed fd (close_fd fd fds)
  unfolding read_call write_call submit perform
  failed_call-IsClosed fd bytes e f fds on bad worse =
      rw (on, bad, worse) (refl, refl, close_fd-IsClosed fd fds)

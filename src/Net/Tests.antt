-- ===== src/Net/Tests.antt =====
-- The engines for sockets on concrete tables, maps and answers.
use elgate.Prelude.{
  ◌≡◌, inl, inr, refl, ◌⊎◌, true, List, [], ◌∷◌, some, arith, length, io_ok, io_err, io_error, ok,
}
use elgate.Ring.Slot.{network_send, network_close}
use elgate.Ring.Buffer.Valid.{IsValid}
use elgate.Ring.Samples.{uuid_bytes, quiet, handle, one_entry, first, one_entry-IsValid}
use elgate.Notify.{notified}
use elgate.Net.Sockets.{Addr, SocketApi, IsClosed}
use elgate.Net.Fallback
use elgate.Net.Fallback.{
  accept_call, connect_call, read_call, write_call, close_call, failed, send_failed, drop_engine,
}
use elgate.Net.Fallback.Calls.{answered, calls_answered}
use elgate.Net.IoUring
use elgate.Net.IoUring.{State, Connections, ListenerApi, find_addr, get_stream}
use elgate.Net.IoUring.Cache.{cached_fds, IsCache}
use elgate.Net.IoUring.Engine.{IsReady}
use elgate.Net.IoUring.Session
use elgate.Net.IoUring.Sound.{IsSound}
use elgate.Net.IoUring.Streams.{connect-found, close_cases}

-- A system whose next descriptor is 8, and whose peer is 90.
abbrev next_eight : SocketApi
next_eight = record {
  accept_on = λ fd. io_ok (8, 90);
  connect_to = λ addr. io_ok 8;
  read_from = λ fd size. io_ok (1 ∷ 2 ∷ []);
  write_to = λ fd bytes. io_ok (length bytes);
}

abbrev unreachable : SocketApi
unreachable = record {
  accept_on = λ fd. io_err (io_error 9);
  connect_to = λ addr. io_err (io_error 111);
  read_from = λ fd size. io_err (io_error 104);
  write_to = λ fd bytes. io_err (io_error 32);
}

abbrev worker : Fallback.NetworkEngine
worker = record { config = Fallback.default_config; running = true }

calls_answered_example :
    ((accept_call next_eight worker 3 (3 ∷ [])).0 ≡ answered Fallback.accept (io_ok (8, 90)))
    × ((connect_call next_eight worker 90 (3 ∷ [])).0 ≡ answered Fallback.connect (io_ok 8))
    × ((read_call next_eight worker 3 (3 ∷ [])).0 ≡ answered Fallback.read (io_ok (1 ∷ 2 ∷ [])))
    × ((write_call next_eight worker 3 (5 ∷ []) (3 ∷ [])).0 ≡ answered Fallback.write (io_ok 1))
    × ((close_call next_eight worker 3 (3 ∷ [])).0 ≡ ok tt)
calls_answered_example = calls_answered next_eight worker 3 90 (5 ∷ []) (3 ∷ []) refl

abbrev engine : IoUring.NetworkEngine
engine = record {
  config = IoUring.default_config;
  ring_buffer = handle;
  to_string = λ addr. addr ∷ [];
}

-- One stream in the map, to address 80 by descriptor 5.
abbrev one_stream : State
one_stream = record { connections = (80, 5) ∷ []; fds = 5 ∷ 3 ∷ []; ring = one_entry }

one_stream-IsReady : IsReady engine (first ∷ []) one_stream
one_stream-IsReady = (one_entry-IsValid, omega arith)

connect-found_example :
    let (r, s') = IoUring.connect engine quiet next_eight 90 one_stream in
    (r ≡ ok 8)
    × IsCache s'.connections
    × (find_addr 8 s'.connections ≡ some 90)
    × (get_stream 90 s'.connections ≡ some 8)
    × IsValid handle (notified handle network_send (90 ∷ []) (first ∷ [])) s'.ring
connect-found_example =
    connect-found engine quiet next_eight 90 8 one_stream (first ∷ []) refl
      ((λ e. absurd (omega (arith, e))), tt) (tt, tt, tt) one_stream-IsReady

close_cases_example :
    let (r, s') = IoUring.close engine quiet next_eight 5 one_stream in
    (IsClosed 5 (5 ∷ []) × (r ≡ ok tt) × (s' ≡ one_stream))
    ⊎ ((a : Addr) × (find_addr 5 ((80, 5) ∷ []) ≡ some a)
        × (r ≡ ok tt)
        × IsCache s'.connections
        × IsClosed 5 (cached_fds s'.connections)
        × IsClosed 5 s'.fds
        × IsValid handle (notified handle network_close (a ∷ []) (first ∷ [])) s'.ring)
close_cases_example =
    close_cases engine quiet next_eight 5 one_stream (first ∷ []) (tt, tt, tt) one_stream-IsReady

abbrev listeners : ListenerApi
listeners = record { local_addr = λ fd. io_ok 70; bind = λ addr. io_ok 9 }

abbrev meeting : Session.Meeting
meeting = record { world = quiet; sockets = next_eight; listeners = listeners }

-- One accepts a peer on the listener 3, writes to it, and closes the stream of descriptor 5.
abbrev calls : List (Session.Meeting × Session.Call)
calls =
    (meeting, Session.accepts 3)
    ∷ (meeting, Session.writes 8 (7 ∷ []))
    ∷ (meeting, Session.closes 5)
    ∷ []

calls_fair : Session.AllFair engine calls one_stream
calls_fair = (
  (
    inr (inl refl),
    ((λ e. absurd (omega (arith, e))), tt),
    (
      ((λ e. absurd (omega (arith, e))), ((λ e. absurd (omega (arith, e))), tt)),
      (
        (λ e. absurd (omega (arith, e))),
        ((λ e. absurd (omega (arith, e))), ((λ e. absurd (omega (arith, e))), tt)),
      ),
    ),
  ),
  (tt, (tt, tt)),
)

serve-IsSound_example : let s = Session.serve engine calls one_stream in IsSound s.connections s.fds
serve-IsSound_example = Session.serve-IsSound engine calls one_stream calls_fair (record {
  cache = (tt, tt, tt);
  live = (inl refl, tt);
  table = (((λ e. absurd (omega (arith, e))), tt), (tt, tt));
})

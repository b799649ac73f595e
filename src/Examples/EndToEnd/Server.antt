-- ===== src/Examples/EndToEnd/Server.antt =====
-- What the server of elgate-core/examples/end_to_end.rs comes to, and what its loop gathers.
use mathlib.Core.List.{append-nil, append_assoc}
use elgate.Prelude.{
  ℕ, zero, suc, ◌<◌, ◌≡◌, ◌⊎◌, inl, inr, refl, ap, ◌∙◌, true, List, [], ◌∷◌, ◌++◌, some, arith,
  length, IoError, IoResult, io_ok, io_err, Option, Outcome, ok, err, panic,
}
use elgate.Ring.Slot.{UuidApi}
use elgate.Ring.Buffer.{RingBuffer}
use elgate.Ring.Buffer.Full.{IsAlone}
use elgate.Ring.Create.Fresh.{create-Created}
use elgate.Net.Sockets.{Addr, close_fd}
use elgate.Net.IoUring
use elgate.Net.IoUring.{State, NetworkEngine, ListenerApi, io_failed}
use elgate.Examples.Chunks.{joined}
use elgate.Examples.Process.{Answers, ExampleError, tokio, tokio_uring, of_net, net}
use elgate.Examples.EndToEnd.{
  Places, Machine, ServerAnswers, buffer_size, network, receive, serve_on, server_on, run_server,
  on_ring, ring_options,
}
use elgate.Examples.Tells.{NobodyReads, NobodyReads-Tells}
use elgate.Examples.Calls.{IsLinked, read_lem, read_failed_lem}

-- The reads give these pieces, none of them empty, and then nothing or an error.
abbrev pub Gives : (ℕ → Answers) → ℕ → List (List ℕ) → Type 0
Gives answers fd [] =
    IsAlone (answers 0).world
    × (((answers 0).sockets.read_from fd buffer_size ≡ io_ok [])
        ⊎ ((e : IoError) × ((answers 0).sockets.read_from fd buffer_size ≡ io_err e)))
Gives answers fd (c ∷ cs) =
    IsAlone (answers 0).world
    × (0 < length c)
    × ((answers 0).sockets.read_from fd buffer_size ≡ io_ok c)
    × Gives (λ i. answers (suc i)) fd cs

-- What the server comes to when the address of its listener is bound once more.
abbrev pub unserved : IoResult ℕ → Outcome ExampleError (Option (List ℕ))
unserved (io_ok own_fd) = panic
unserved (io_err e) = err (of_net (io_failed e))

module _ ⦃uuid : UuidApi⦄ (places : Places) where
  -- Inside of tokio_uring::start, on a ring that nobody reads, full or not, and for an accepted
  -- stream whose reads give pieces, none of them empty, up to an empty read or an error, the
  -- server's loop ends with the read behind the last piece, has gathered all of the pieces in
  -- their order behind what it had, and leaves the stream open.
  pub receive-gathers :
      (rb : RingBuffer) (answers : ℕ → Answers) (addr : Addr) (fd : ℕ) (cs : List (List ℕ))
      (fuel : ℕ) (all_data : List ℕ) (s : State)
      → Gives answers fd cs
      → IsLinked (NobodyReads rb) addr fd s
      → length cs < fuel
      → (s' : State) × (receive tokio_uring places rb answers fuel fd all_data s
          ≡ (ok (some (all_data ++ joined cs)), s'))
        × IsLinked (NobodyReads rb) addr fd s'
  unfolding receive
  receive-gathers rb answers addr fd cs zero all_data s g linked more = absurd (omega arith)
  receive-gathers rb answers addr fd [] (suc fuel) all_data s (alone, inl nothing) linked more =
      let (s1, got, linked1) =
        read_lem (network places rb) (answers 0) (NobodyReads-Tells rb (answers 0).world alone) s
          addr fd linked [] nothing in
      (s1, rw (got, append-nil all_data) refl, linked1)
  receive-gathers rb answers addr fd [] (suc fuel) all_data s (alone, inr (e, failed)) linked more =
      let got =
        read_failed_lem (network places rb) (answers 0)
          (NobodyReads-Tells rb (answers 0).world alone) s addr fd linked e failed in
      (s, rw (got, append-nil all_data) refl, linked)
  receive-gathers rb answers addr fd ([] ∷ cs) (suc fuel) all_data s (alone, pos, given, g) linked
        more =
      absurd (omega arith)
  receive-gathers rb answers addr fd ((b ∷ bs) ∷ cs) (suc fuel) all_data s (alone, pos, given, g)
        linked more =
      let (s1, got, linked1) =
        read_lem (network places rb) (answers 0) (NobodyReads-Tells rb (answers 0).world alone) s
          addr fd linked (b ∷ bs) given in
      let (s2, rest, linked2) =
        receive-gathers rb (λ i. answers (suc i)) addr fd cs fuel (all_data ++ (b ∷ bs)) s1 g
          linked1 (omega arith) in
      (
        s2,
        rw got (rest ∙ ap (λ d. (ok (some d), s2)) (append_assoc all_data (b ∷ bs) (joined cs))),
        linked2,
      )

  accept_refused :
      (engine : NetworkEngine) (c : Answers) (listeners : ListenerApi) (listener_fd : ℕ)
      (local : Addr) (e : IoError) (s : State)
      → listeners.local_addr listener_fd ≡ io_ok local
      → listeners.bind local ≡ io_err e
      → net (IoUring.accept engine c.world c.sockets listeners listener_fd) s
        ≡ (err (of_net (io_failed e)), record s { fds = close_fd listener_fd s.fds })
  unfolding IoUring.accept
  accept_refused engine c listeners listener_fd local e s named bound = rw (named, bound) refl

  unserved_lem :
      (a : ServerAnswers) (fuel : ℕ) (rb : RingBuffer) (listener_fd : ℕ) (local : Addr)
      (again : IoResult ℕ) (s : State)
      → a.bound ≡ io_ok listener_fd
      → a.nonblocking ≡ io_ok tt
      → a.listeners.local_addr listener_fd ≡ io_ok local
      → a.listeners.bind local ≡ again
      → (server_on tokio places a fuel rb s).0 ≡ unserved again
  unfolding server_on serve_on
  unserved_lem a fuel rb listener_fd local (io_ok own_fd) s listens nonblocking named bound =
      rw (listens, nonblocking, named, bound) refl
  unserved_lem a fuel rb listener_fd local (io_err e) s listens nonblocking named bound =
      let refused =
        accept_refused (network places rb) a.accepting a.listeners listener_fd local e
          (record s { fds = listener_fd ∷ s.fds }) named bound in
      rw (listens, nonblocking, named, bound, refused) refl

  -- Where the ring is made and the listener listens, the server does not serve under tokio::main,
  -- by which the program runs: accept binds the listener's address once more, and the server ends
  -- with the error of that, or panics where the system grants it.
  pub run_server-unserved :
      (here : Machine) (a : ServerAnswers) (fuel listener_fd : ℕ) (local : Addr)
      → here.io ≡ record { opened = true; resized = true; mapped = true }
      → a.bound ≡ io_ok listener_fd
      → a.nonblocking ≡ io_ok tt
      → a.listeners.local_addr listener_fd ≡ io_ok local
      → run_server tokio places here a fuel ≡ unserved (a.listeners.bind local)
  unfolding run_server
  run_server-unserved here a fuel listener_fd local works listens nonblocking named =
      let (r, made, c) =
        create-Created here.io (ring_options "/tmp/elgate_server_ring") here.now
          (ap (λ io. io.opened) works) (ap (λ io. io.resized) works) (ap (λ io. io.mapped) works)
          (record { holds = omega arith; aligned = omega arith }) (omega arith) (omega arith) in
      ap (on_ring here.fds (server_on tokio places a fuel)) made
      ∙ unserved_lem a fuel r.0 listener_fd local (a.listeners.bind local)
          (record { connections = []; fds = here.fds; ring = r.1 }) listens nonblocking named refl

-- ===== src/Examples/EndToEnd/Client.antt =====
-- What the client of elgate-core/examples/end_to_end.rs sends.
use elgate.Prelude.{
  ℕ, suc, ◌+◌, ◌≤◌, ◌≡◌, refl, ap, ◌∙◌, true, List, [], ◌∷◌, arith, length, io_ok, ok, panic,
}
use elgate.Ring.Slot.{UuidApi}
use elgate.Ring.Buffer.{RingBuffer}
use elgate.Ring.Create.Fresh.{create-Created}
use elgate.Net.Sockets.{Addr}
use elgate.Net.IoUring.{State}
use elgate.Examples.Chunks.{chunks, few_chunks, joined, joined-chunks}
use elgate.Examples.Process.{Answers, tokio, tokio_uring}
use elgate.Examples.EndToEnd.{
  Places, Machine, ClientAnswers, buffer_size, chunk_size, network, storage, send_each, client_on,
  run_client, on_ring, ring_options,
}
use elgate.Examples.Tells.{HasRoom, HasRoom-Tells}
use elgate.Examples.EndToEnd.Room.{IsLinked-le}
use elgate.Examples.Calls.{IsLinked, connect_lem, read_file_lem, write_lem, close_lem}

-- The system answers the writes of the chunks with these numbers of bytes.
abbrev pub Takes : (ℕ → Answers) → ℕ → List (List ℕ) → List ℕ → Type 0
Takes answers fd [] [] = Unit
Takes answers fd [] (n ∷ ns) = ⊥
Takes answers fd (c ∷ cs) [] = ⊥
Takes answers fd (c ∷ cs) (n ∷ ns) =
    ((answers 0).sockets.write_to fd c ≡ io_ok n) × Takes (λ i. answers (suc i)) fd cs ns

module _ ⦃uuid : UuidApi⦄ (places : Places) where
  send_each_lem :
      (rb : RingBuffer) (answers : ℕ → Answers) (addr : Addr) (fd : ℕ) (cs : List (List ℕ))
      (ns : List ℕ) (k : ℕ) (s : State)
      → Takes answers fd cs ns
      → IsLinked (HasRoom rb (length cs + k)) addr fd s
      → (s' : State) × (send_each tokio_uring places rb answers fd cs s ≡ (ok ns, s'))
        × IsLinked (HasRoom rb k) addr fd s'
  unfolding send_each
  send_each_lem rb answers addr fd [] [] k s t linked =
      (s, refl, IsLinked-le rb (0 + k) k addr fd s (omega arith) linked)
  send_each_lem rb answers addr fd [] (n ∷ ns) k s t linked = absurd t
  send_each_lem rb answers addr fd (c ∷ cs) [] k s t linked = absurd t
  send_each_lem rb answers addr fd (c ∷ cs) (n ∷ ns) k s (given, t) linked =
      let (s1, sent, linked1) =
        write_lem (network places rb) (answers 0)
          (HasRoom-Tells rb (answers 0).world (length cs + k)) s addr fd
          (IsLinked-le rb (suc (length cs) + k) (suc (length cs + k)) addr fd s (omega arith)
            linked)
          c n given in
      let (s2, rest, linked2) =
        send_each_lem rb (λ i. answers (suc i)) addr fd cs ns k s1 t linked1 in
      (s2, rw (sent, rest) refl, linked2)

  client_on_lem :
      (a : ClientAnswers) (rb : RingBuffer) (fd : ℕ) (bytes ns : List ℕ) (s : State)
      → a.connecting.sockets.connect_to places.server_addr ≡ io_ok fd
      → a.reading.files.open_for_read places.test_file ≡ io_ok tt
      → a.reading.files.read_at places.test_file 0 buffer_size ≡ io_ok bytes
      → length bytes ≤ buffer_size
      → Takes a.sending fd (chunks chunk_size bytes) ns
      → s.connections ≡ []
      → HasRoom rb 11 s.ring
      → (client_on tokio_uring places a rb s).0 ≡ ok ns
  unfolding client_on
  client_on_lem a rb fd bytes ns s connected opened given short t none_yet h =
      let addr = places.server_addr in
      let cs = chunks chunk_size bytes in
      let few : length cs ≤ 8 = few_chunks chunk_size 8 bytes (omega arith) (omega arith) in
      let (s1, joined, linked1) =
        connect_lem (network places rb) a.connecting (HasRoom-Tells rb a.connecting.world 10) s addr
          fd connected none_yet h in
      let (m2, got, roomy2) =
        read_file_lem (storage places rb) a.reading (HasRoom-Tells rb a.reading.world 9) s1
          linked1.roomy places.test_file 0 bytes opened given in
      let s2 : State = record s1 { ring = m2 } in
      let (s3, sent, linked3) = send_each_lem rb a.sending addr fd cs ns 1 s2 t (
        IsLinked-le rb 9 (length cs + 1) addr fd s2 (omega arith)
          (record { alone = linked1.alone; roomy = roomy2 })) in
      let (s4, left, gone, after) =
        close_lem (network places rb) a.closing (HasRoom-Tells rb a.closing.world 0) s3 addr fd
          linked3 in
      rw (joined, got, sent, left) refl

  -- Where the ring is made, the client panics under tokio::main, by which the program runs. Inside
  -- of tokio_uring::start, with a connection and a file that is read, it succeeds, whatever
  -- numbers of bytes the writes of its chunks have taken, and the chunks are together just the
  -- bytes that one read has given, at most 64 KiB.
  pub run_client-sends :
      (here : Machine) (a : ClientAnswers) (fd : ℕ) (bytes ns : List ℕ)
      → here.io ≡ record { opened = true; resized = true; mapped = true }
      → a.connecting.sockets.connect_to places.server_addr ≡ io_ok fd
      → a.reading.files.open_for_read places.test_file ≡ io_ok tt
      → a.reading.files.read_at places.test_file 0 buffer_size ≡ io_ok bytes
      → length bytes ≤ buffer_size
      → Takes a.sending fd (chunks chunk_size bytes) ns
      → (run_client tokio places here a ≡ panic)
        × (run_client tokio_uring places here a ≡ ok ns)
        × (joined (chunks chunk_size bytes) ≡ bytes)
  unfolding run_client client_on
  run_client-sends here a fd bytes ns works connected opened given short t =
      let (r, made, c) =
        create-Created here.io (ring_options "/tmp/elgate_client_ring") here.now
          (ap (λ io. io.opened) works) (ap (λ io. io.resized) works) (ap (λ io. io.mapped) works)
          (record { holds = omega arith; aligned = omega arith }) (omega arith) (omega arith) in
      (
        ap (on_ring here.fds (client_on tokio places a)) made,
        ap (on_ring here.fds (client_on tokio_uring places a)) made
            ∙ client_on_lem a r.0 fd bytes ns
                (record { connections = []; fds = here.fds; ring = r.1 }) connected opened given
                short t refl
                (record { entries = []; valid = c.valid; room = omega (arith, c.count) }),
        joined-chunks chunk_size bytes (omega arith),
      )

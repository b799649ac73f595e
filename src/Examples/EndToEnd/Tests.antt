-- ===== src/Examples/EndToEnd/Tests.antt =====
-- The client of elgate-core/examples/end_to_end.rs on its test file, and its server on three pieces.
use elgate.Prelude.{
  ℕ, ◌<◌, ◌≡◌, refl, inl, true, List, [], ◌∷◌, some, arith, get_or, length, take, map, All, io_ok,
  io_error, io_err, ok, err, panic, IoError,
}
use elgate.Ring.Samples.{
  uuid_bytes, quiet, handle, one_entry, first, one_entry-IsValid, quiet-IsAlone,
}
use elgate.Examples.Chunks.{chunks, joined, length-take}
use elgate.Examples.TestFile.{create_test_file}
use elgate.Examples.Process.{Answers, tokio, tokio_uring, of_net}
use elgate.Examples.Tells.{NobodyReads}
use elgate.Examples.Calls.{IsLinked}
use elgate.Net.IoUring.{State, io_failed}
use elgate.Examples.EndToEnd.{
  Places, Machine, ClientAnswers, ServerAnswers, file_size, buffer_size, chunk_size, receive,
  run_client, run_server,
}
use elgate.Examples.EndToEnd.Client.{Takes, run_client-sends}
use elgate.Examples.EndToEnd.Server.{Gives, receive-gathers, run_server-unserved}

abbrev places : Places
places = record {
  test_file = 1;
  output_file = 2;
  server_addr = 9876;
  to_string = λ addr. addr ∷ [];
  to_string_lossy = λ path. path ∷ [];
}

abbrev machine : Machine
machine = record {
  io = record { opened = true; resized = true; mapped = true };
  now = 1000;
  fds = 3 ∷ [];
}

-- Sockets whose writes take all and whose reads give a piece, beside a file.
abbrev meets : List ℕ → List ℕ → Answers
meets original piece = record {
  world = quiet;
  sockets = record {
    accept_on = λ fd. io_ok (9, 90);
    connect_to = λ addr. io_ok 8;
    read_from = λ fd size. io_ok piece;
    write_to = λ fd bytes. io_ok (length bytes);
  };
  files = record {
    open_for_read = λ path. io_ok tt;
    open_for_write = λ path. io_ok tt;
    open_or_create = λ path. io_ok tt;
    seek = λ path offset. io_ok tt;
    read_at = λ path offset size. io_ok (take size original);
    write_at = λ path offset bytes. io_ok (length bytes);
    write_all = λ path offset bytes. io_ok tt;
    sync_all = λ path. io_ok tt;
  };
}

abbrev client_meets : List ℕ → ClientAnswers
client_meets original = record {
  connecting = meets original [];
  reading = meets original [];
  sending = λ i. meets original [];
  closing = meets original [];
}

-- The address of a socket that listens.
abbrev in_use : IoError
in_use = io_error 98

abbrev server_meets : List (List ℕ) → ServerAnswers
server_meets pieces = record {
  bound = io_ok 4;
  nonblocking = io_ok tt;
  listeners = record { local_addr = λ fd. io_ok 9876; bind = λ addr. io_err in_use };
  accepting = meets [] [];
  receiving = λ i. meets [] (get_or pieces i []);
  writing = meets [] [];
  closing = meets [] [];
}

Takes-all :
    (original : List ℕ) (cs : List (List ℕ)) → Takes (λ i. meets original []) 8 cs (map length cs)
Takes-all original [] = tt
Takes-all original (c ∷ cs) = (refl, Takes-all original cs)

Gives-All :
    (cs : List (List ℕ)) → All (λ c. 0 < length c) cs → Gives (λ i. meets [] (get_or cs i [])) 9 cs
Gives-All [] pos = (quiet-IsAlone, inl refl)
Gives-All (c ∷ cs) pos = (quiet-IsAlone, pos.0, refl, Gives-All cs pos.1)

abbrev test_file : List ℕ
test_file = create_test_file file_size

-- What one read gives of it, and its chunks.
abbrev first_bytes : List ℕ
first_bytes = take buffer_size test_file

abbrev pieces : List (List ℕ)
pieces = chunks chunk_size first_bytes

run_client-sends_example :
    (run_client tokio places machine (client_meets test_file) ≡ panic)
    × (run_client tokio_uring places machine (client_meets test_file) ≡ ok (map length pieces))
    × (joined pieces ≡ first_bytes)
run_client-sends_example =
    run_client-sends places machine (client_meets test_file) 8 first_bytes (map length pieces) refl
      refl refl refl (length-take buffer_size test_file) (Takes-all test_file pieces)

run_server-unserved_example :
    run_server tokio places machine (server_meets ((1 ∷ 2 ∷ []) ∷ [])) 3
    ≡ err (of_net (io_failed in_use))
run_server-unserved_example =
    run_server-unserved places machine (server_meets ((1 ∷ 2 ∷ []) ∷ [])) 3 4 9876 refl refl refl
      refl

-- An accepted stream, beside a ring with an entry of three.
abbrev accepted : State
accepted = record { connections = (90, 9) ∷ []; fds = 3 ∷ 9 ∷ []; ring = one_entry }

accepted-IsLinked : IsLinked (NobodyReads handle) 90 9 accepted
accepted-IsLinked = record {
  alone = refl;
  roomy = (first ∷ [], record { place = 0; valid = one_entry-IsValid; stands = inl refl });
}

abbrev three : List (List ℕ)
three = (1 ∷ 2 ∷ []) ∷ (3 ∷ []) ∷ (4 ∷ []) ∷ []

receive-gathers_example :
    (s' : State) × (receive tokio_uring places handle
        (λ i. meets [] (get_or three i []))
        4
        9
        []
        accepted
      ≡ (ok (some (1 ∷ 2 ∷ 3 ∷ 4 ∷ [])), s'))
    × IsLinked (NobodyReads handle) 90 9 s'
receive-gathers_example =
    receive-gathers places handle (λ i. meets [] (get_or three i [])) 90 9 three 4 [] accepted
      (Gives-All three (omega arith, (omega arith, (omega arith, tt)))) accepted-IsLinked
      (omega arith)

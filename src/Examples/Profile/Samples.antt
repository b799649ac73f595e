-- ===== src/Examples/Profile/Samples.antt =====
-- A system that grants every call of an engine, for tests.
use elgate.Prelude.{ℕ, refl, List, [], ◌∷◌, io_ok}
use elgate.Ring.Samples.{quiet}
use elgate.Examples.Process.{Answers}
use elgate.Examples.Grants.{GrantsRead, GrantsWrite, GrantsSync, GrantsRoundtrip}

-- A system that grants every call.
abbrev pub grants_all : Answers
grants_all = record {
  world = quiet;
  sockets = record {
    accept_on = λ fd. io_ok (9, 90);
    connect_to = λ addr. io_ok 8;
    read_from = λ fd size. io_ok (1 ∷ 2 ∷ []);
    write_to = λ fd bytes. io_ok 2;
  };
  files = record {
    open_for_read = λ path. io_ok tt;
    open_for_write = λ path. io_ok tt;
    open_or_create = λ path. io_ok tt;
    seek = λ path offset. io_ok tt;
    read_at = λ path offset size. io_ok (offset ∷ []);
    write_at = λ path offset bytes. io_ok 7;
    write_all = λ path offset bytes. io_ok tt;
    sync_all = λ path. io_ok tt;
  };
}

pub grants_read : (buffer_size path : ℕ) → GrantsRead buffer_size path grants_all
grants_read buffer_size path = record {
  alone = λ ms other. refl;
  opened = refl;
  bytes = λ offset. offset ∷ [];
  given = λ offset. refl;
}

pub grants_write : (path : ℕ) (bytes : List ℕ) → GrantsWrite path bytes grants_all
grants_write path bytes = record {
  alone = λ ms other. refl;
  opened = refl;
  taken = λ offset. 7;
  takes = λ offset. refl;
}

pub grants_sync : (path : ℕ) → GrantsSync path grants_all
grants_sync path = record { alone = λ ms other. refl; opened = refl; synced = refl }

pub grants_roundtrip :
    (buffer_size : ℕ) (bytes : List ℕ) → GrantsRoundtrip buffer_size 8 bytes grants_all grants_all
grants_roundtrip buffer_size bytes = record {
  write_alone = λ ms other. refl;
  taken = 2;
  takes = refl;
  read_alone = λ ms other. refl;
  response = 1 ∷ 2 ∷ [];
  gives = refl;
}

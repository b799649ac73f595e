-- ===== src/Disk/Files.antt =====
-- What both engines of elgate-core/src/disk see of the operating system: the answers to the calls of
-- one operation. A path is known by its bytes, read as a number.
use elgate.Prelude.{ℕ, List, IoResult}

-- Each call by its file. A read gives the bytes that it put into a buffer of the size that it is told,
-- and a write the number of bytes that it took.
pub record FileApi : Type 0 where
  pub open_for_read : ℕ → IoResult (Unit {0})
  pub open_for_write : ℕ → IoResult (Unit {0})
  pub open_or_create : ℕ → IoResult (Unit {0})
  pub seek : ℕ → ℕ → IoResult (Unit {0})
  pub read_at : ℕ → ℕ → ℕ → IoResult (List ℕ)
  pub write_at : ℕ → ℕ → List ℕ → IoResult ℕ
  pub write_all : ℕ → ℕ → List ℕ → IoResult (Unit {0})
  pub sync_all : ℕ → IoResult (Unit {0})

-- ===== src/Net/Sockets.antt =====
-- What both engines of elgate-core/src/net see of the operating system: the descriptors that the
-- process has open, and the answer to one call. An address is known by its bytes,
-- read as a number.
pub mod Table
use elgate.Prelude.{
  ℕ, ◌-◌, ◌≤◌, ◌≡◌, ◌≢◌, Bool, true, false, List, [], ◌∷◌, ◌++◌, Option, ◌==◌, if◌then◌else◌,
  length, take, replicate, All, IoResult,
}

abbrev pub Addr : Type 0
Addr = ℕ

-- The open descriptors.
abbrev pub Fds : Type 0
Fds = List ℕ

-- Dropping a socket closes its descriptor.
unfoldable pub close_fd : ℕ → Fds → Fds
close_fd fd [] = []
close_fd fd (f ∷ fds) = let rest = close_fd fd fds in if f == fd then rest else f ∷ rest

-- The answers to the calls on sockets. A read gives the bytes that it put into the buffer, of the size
-- that it is told.
pub record SocketApi : Type 0 where
  pub accept_on : ℕ → IoResult (ℕ × Addr)
  pub connect_to : Addr → IoResult ℕ
  pub read_from : ℕ → ℕ → IoResult (List ℕ)
  pub write_to : ℕ → List ℕ → IoResult ℕ

-- `fd` is not among the descriptors.
abbrev pub IsClosed : ℕ → Fds → Type 0
IsClosed fd fds = All (λ f. f ≢ fd) fds

-- No descriptor occurs twice.
abbrev pub IsTable : Fds → Type 0
IsTable [] = Unit
IsTable (f ∷ fds) = IsClosed f fds × IsTable fds

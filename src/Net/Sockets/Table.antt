-- ===== src/Net/Sockets/Table.antt =====
-- The open descriptors when one is closed.
use elgate.Prelude.{ℕ, [], ◌∷◌, eq→==, ne→==, ℕ_discrete}
use elgate.Net.Sockets.{Fds, close_fd, IsClosed, IsTable}

pub close_fd-IsClosed : (fd : ℕ) (fds : Fds) → IsClosed fd (close_fd fd fds)
unfolding close_fd
close_fd-IsClosed fd [] = tt
close_fd-IsClosed fd (f ∷ fds) = elim (ℕ_discrete f fd) [
  | yes e ↦ rw (eq→== f fd e) (close_fd-IsClosed fd fds)
  | no n ↦ rw (ne→== f fd n) (n, close_fd-IsClosed fd fds)
]

pub close_fd-IsClosed_other : (fd f : ℕ) (fds : Fds) → IsClosed f fds → IsClosed f (close_fd fd fds)
unfolding close_fd
close_fd-IsClosed_other fd f [] h = tt
close_fd-IsClosed_other fd f (g ∷ fds) h = elim (ℕ_discrete g fd) [
  | yes e ↦ rw (eq→== g fd e) (close_fd-IsClosed_other fd f fds h.1)
  | no n ↦ rw (ne→== g fd n) (h.0, close_fd-IsClosed_other fd f fds h.1)
]

pub close_fd-IsTable : (fd : ℕ) (fds : Fds) → IsTable fds → IsTable (close_fd fd fds)
unfolding close_fd
close_fd-IsTable fd [] h = tt
close_fd-IsTable fd (g ∷ fds) h = elim (ℕ_discrete g fd) [
  | yes e ↦ rw (eq→== g fd e) (close_fd-IsTable fd fds h.1)
  | no n ↦ rw (ne→== g fd n) (close_fd-IsClosed_other fd g fds h.0, close_fd-IsTable fd fds h.1)
]

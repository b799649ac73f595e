-- ===== src/Net/IoUring/Cache.antt =====
-- The map of the streams of elgate-core/src/net/io_uring.rs, searched by descriptor and by address.
use elgate.Prelude.{
  ℕ, ◌≡◌, ◌≢◌, refl, sym, ap, ◌∙◌, subst, ◌⊎◌, inl, inr, List, [], ◌∷◌, some, none, eq→==, ne→==,
  ℕ_discrete,
}
use mathlib.Core.Option.{none-ne-some, some-injective}
use elgate.Net.Sockets.{Addr, IsClosed}
use elgate.Net.IoUring.{Connections, get_stream, find_addr, remove_stream, insert_stream}

abbrev pub cached_addrs : Connections → List Addr
cached_addrs [] = []
cached_addrs ((a, fd) ∷ conns) = a ∷ cached_addrs conns

abbrev pub cached_fds : Connections → List ℕ
cached_fds [] = []
cached_fds ((a, fd) ∷ conns) = fd ∷ cached_fds conns

-- A map from addresses to streams of their own.
abbrev pub IsCache : Connections → Type 0
IsCache [] = Unit
IsCache ((a, fd) ∷ conns) =
    IsClosed a (cached_addrs conns) × IsClosed fd (cached_fds conns) × IsCache conns

get_stream-none :
    (a : Addr) (conns : Connections) → IsClosed a (cached_addrs conns) → get_stream a conns ≡ none
unfolding get_stream
get_stream-none a [] h = refl
get_stream-none a ((b, fd) ∷ conns) h = rw (ne→== b a h.0, get_stream-none a conns h.1)

pub find_addr-none :
    (fd : ℕ) (conns : Connections) → IsClosed fd (cached_fds conns) → find_addr fd conns ≡ none
unfolding find_addr
find_addr-none fd [] h = refl
find_addr-none fd ((a, f) ∷ conns) h = rw (ne→== f fd h.0, find_addr-none fd conns h.1)

pub remove_stream-IsClosed :
    (a : Addr) (fd : ℕ) (conns : Connections)
    → IsClosed fd (cached_fds conns)
    → IsClosed fd (cached_fds (remove_stream a conns))
unfolding remove_stream
remove_stream-IsClosed a fd [] h = tt
remove_stream-IsClosed a fd ((b, f) ∷ conns) h = elim (ℕ_discrete b a) [
  | yes e ↦ rw (eq→== b a e) (remove_stream-IsClosed a fd conns h.1)
  | no n ↦ rw (ne→== b a n) (h.0, remove_stream-IsClosed a fd conns h.1)
]

remove_stream-IsClosed_addr :
    (a b : Addr) (conns : Connections)
    → IsClosed b (cached_addrs conns)
    → IsClosed b (cached_addrs (remove_stream a conns))
unfolding remove_stream
remove_stream-IsClosed_addr a b [] h = tt
remove_stream-IsClosed_addr a b ((c, f) ∷ conns) h = elim (ℕ_discrete c a) [
  | yes e ↦ rw (eq→== c a e) (remove_stream-IsClosed_addr a b conns h.1)
  | no n ↦ rw (ne→== c a n) (h.0, remove_stream-IsClosed_addr a b conns h.1)
]

-- The address is no longer in the map.
remove_stream-IsClosed_self :
    (a : Addr) (conns : Connections) → IsClosed a (cached_addrs (remove_stream a conns))
unfolding remove_stream
remove_stream-IsClosed_self a [] = tt
remove_stream-IsClosed_self a ((c, f) ∷ conns) = elim (ℕ_discrete c a) [
  | yes e ↦ rw (eq→== c a e) (remove_stream-IsClosed_self a conns)
  | no n ↦ rw (ne→== c a n) (n, remove_stream-IsClosed_self a conns)
]

pub remove_stream-IsCache :
    (a : Addr) (conns : Connections) → IsCache conns → IsCache (remove_stream a conns)
unfolding remove_stream
remove_stream-IsCache a [] h = tt
remove_stream-IsCache a ((c, f) ∷ conns) h = elim (ℕ_discrete c a) [
  | yes e ↦ rw (eq→== c a e) (remove_stream-IsCache a conns h.2)
  | no n ↦ rw (ne→== c a n) (
    remove_stream-IsClosed_addr a c conns h.0,
    remove_stream-IsClosed a f conns h.1,
    remove_stream-IsCache a conns h.2,
  )
]

pub insert_stream-IsCache :
    (a : Addr) (fd : ℕ) (conns : Connections)
    → IsClosed fd (cached_fds conns)
    → IsCache conns
    → IsCache (insert_stream a fd conns)
unfolding insert_stream
insert_stream-IsCache a fd conns f h = (
  remove_stream-IsClosed_self a conns,
  remove_stream-IsClosed a fd conns f,
  remove_stream-IsCache a conns h,
)

-- The new stream is found by its descriptor and by its address.
pub insert_stream-found :
    (a : Addr) (fd : ℕ) (conns : Connections)
    → (find_addr fd (insert_stream a fd conns) ≡ some a)
      × (get_stream a (insert_stream a fd conns) ≡ some fd)
unfolding insert_stream find_addr get_stream
insert_stream-found a fd conns = (rw (eq→== fd fd refl), rw (eq→== a a refl))

-- What `find_addr` finds is the address of the descriptor's stream, which it has no other of; and it
-- finds nothing only for a descriptor that is not in the map.
pub find_addr_cases :
    (fd : ℕ) (conns : Connections)
    → IsCache conns
    → ((find_addr fd conns ≡ none) × IsClosed fd (cached_fds conns))
      ⊎ ((a : Addr) × (find_addr fd conns ≡ some a)
          × (get_stream a conns ≡ some fd)
          × IsClosed fd (cached_fds (remove_stream a conns)))
unfolding find_addr get_stream remove_stream
find_addr_cases fd [] h = inl (refl, tt)
find_addr_cases fd ((a, f) ∷ conns) h = elim (ℕ_discrete f fd) [
  | yes e ↦ inr (
    a,
    rw (eq→== f fd e),
    rw (eq→== a a refl) (ap some e),
    rw (eq→== a a refl)
        (remove_stream-IsClosed a fd conns (subst (λ g. IsClosed g (cached_fds conns)) e h.1)),
  )
  | no n ↦ elim (find_addr_cases fd conns h.2) [
    | inl (missing, closed) ↦ inl (rw (ne→== f fd n, missing), (n, closed))
    | inr (b, found, stored, gone) ↦
        let apart : a ≢ b = λ e.
          none-ne-some fd
            (sym (get_stream-none a conns h.0) ∙ ap (λ c. get_stream c conns) e ∙ stored) in
        inr
          (b, rw (ne→== f fd n, found), rw (ne→== a b apart) stored, rw (ne→== a b apart) (n, gone))
  ]
]

pub get_stream-ne :
    (a : Addr) (fd f : ℕ) (conns : Connections)
    → IsClosed f (cached_fds conns)
    → get_stream a conns ≡ some fd
    → fd ≢ f
unfolding get_stream
get_stream-ne a fd f [] h e = λ same. absurd (none-ne-some fd e)
get_stream-ne a fd f ((b, g) ∷ conns) h e = elim (ℕ_discrete b a) [
  | yes k ↦ λ same. h.0 (some-injective g fd (rw (eq→== b a k) at e) ∙ same)
  | no n ↦ get_stream-ne a fd f conns h.1 (rw (ne→== b a n) at e)
]

-- The stream of an address goes with the address.
pub get_stream-gone :
    (a : Addr) (fd : ℕ) (conns : Connections)
    → IsCache conns
    → get_stream a conns ≡ some fd
    → IsClosed fd (cached_fds (remove_stream a conns))
unfolding get_stream remove_stream
get_stream-gone a fd [] h e = tt
get_stream-gone a fd ((b, g) ∷ conns) h e = elim (ℕ_discrete b a) [
  | yes k ↦ rw (eq→== b a k) (
      remove_stream-IsClosed a fd conns (
        subst (λ f. IsClosed f (cached_fds conns)) (some-injective g fd (rw (eq→== b a k) at e))
          h.1))
  | no n ↦
      let there : get_stream a conns ≡ some fd = rw (ne→== b a n) at e in
      rw (ne→== b a n) (
        (λ same. get_stream-ne a fd g conns h.1 there (sym same)),
        get_stream-gone a fd conns h.2 there,
      )
]

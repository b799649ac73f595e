-- ===== src/Net/IoUring/Sound.antt =====
-- The map of the streams of elgate-core/src/net/io_uring.rs beside the open descriptors of the process.
use elgate.Prelude.{
  ℕ, ◌≡◌, ◌≢◌, ◌⊎◌, inl, inr, refl, sym, ◌∙◌, List, [], ◌∷◌, Option, some, none, All, eq→==, ne→==,
  ℕ_discrete,
}
use elgate.Net.Sockets.{Addr, Fds, close_fd, IsClosed, IsTable}
use elgate.Net.Sockets.Table.{close_fd-IsTable}
use elgate.Net.IoUring.{Connections, get_stream, remove_stream, insert_stream, drop_stream}
use elgate.Net.IoUring.Cache.{
  cached_fds, IsCache, insert_stream-IsCache, remove_stream-IsCache, get_stream-gone, get_stream-ne,
}

-- `fd` is among the descriptors.
abbrev pub IsOpen : ℕ → Fds → Type 0
IsOpen fd [] = ⊥
IsOpen fd (f ∷ fds) = (f ≡ fd) ⊎ IsOpen fd fds

-- Every stream in the map has an address and an open descriptor of its own, and no descriptor is in
-- the table twice.
pub record IsSound (conns : Connections) (fds : Fds) : Type 0 where
  pub cache : IsCache conns
  pub live : All (λ fd. IsOpen fd fds) (cached_fds conns)
  pub table : IsTable fds

pub open_apart : (fd g : ℕ) (fds : Fds) → IsOpen fd fds → IsClosed g fds → fd ≢ g
open_apart fd g [] o c = absurd o
open_apart fd g (f ∷ fds) (inl e) c = λ same. c.0 (e ∙ same)
open_apart fd g (f ∷ fds) (inr o) c = open_apart fd g fds o c.1

close_fd-IsOpen : (fd g : ℕ) (fds : Fds) → IsOpen fd fds → fd ≢ g → IsOpen fd (close_fd g fds)
unfolding close_fd
close_fd-IsOpen fd g [] o apart = absurd o
close_fd-IsOpen fd g (f ∷ fds) (inl here) apart =
    rw (ne→== f g (λ e. absurd (apart (sym here ∙ e)))) (inl here)
close_fd-IsOpen fd g (f ∷ fds) (inr there) apart = elim (ℕ_discrete f g) [
  | yes e ↦ rw (eq→== f g e) (close_fd-IsOpen fd g fds there apart)
  | no n ↦ rw (ne→== f g n) (inr (close_fd-IsOpen fd g fds there apart))
]

still_open :
    (xs : List ℕ) (g : ℕ) (fds : Fds)
    → IsClosed g xs
    → All (λ fd. IsOpen fd fds) xs
    → All (λ fd. IsOpen fd (close_fd g fds)) xs
still_open [] g fds c o = tt
still_open (x ∷ xs) g fds c o = (close_fd-IsOpen x g fds o.0 c.0, still_open xs g fds c.1 o.1)

cached_apart :
    (xs : List ℕ) (g : ℕ) (fds : Fds)
    → IsClosed g fds
    → All (λ fd. IsOpen fd fds) xs
    → IsClosed g xs
cached_apart [] g fds c o = tt
cached_apart (x ∷ xs) g fds c o = (open_apart x g fds o.0 c, cached_apart xs g fds c o.1)

fewer_open :
    (P : ℕ → Type 0) (a : Addr) (conns : Connections)
    → All P (cached_fds conns)
    → All P (cached_fds (remove_stream a conns))
unfolding remove_stream
fewer_open P a [] h = tt
fewer_open P a ((b, f) ∷ conns) h = elim (ℕ_discrete b a) [
  | yes e ↦ rw (eq→== b a e) (fewer_open P a conns h.1)
  | no n ↦ rw (ne→== b a n) (h.0, fewer_open P a conns h.1)
]

more_open :
    (xs : List ℕ) (g : ℕ) (fds : Fds)
    → All (λ fd. IsOpen fd fds) xs
    → All (λ fd. IsOpen fd (g ∷ fds)) xs
more_open [] g fds o = tt
more_open (x ∷ xs) g fds o = (inr o.0, more_open xs g fds o.1)

-- A descriptor that is not open is not in the map.
pub not_cached :
    (conns : Connections) (fds : Fds) (g : ℕ)
    → IsSound conns fds
    → IsClosed g fds
    → IsClosed g (cached_fds conns)
not_cached conns fds g v c = cached_apart (cached_fds conns) g fds c v.live

-- A descriptor that the map does not have comes and goes.
pub opened-IsSound :
    (conns : Connections) (fds : Fds) (g : ℕ)
    → IsClosed g fds
    → IsSound conns fds
    → IsSound conns (g ∷ fds)
opened-IsSound conns fds g c v = record {
  cache = v.cache;
  live = more_open (cached_fds conns) g fds v.live;
  table = (c, v.table);
}

pub closed-IsSound :
    (conns : Connections) (fds : Fds) (g : ℕ)
    → IsClosed g (cached_fds conns)
    → IsSound conns fds
    → IsSound conns (close_fd g fds)
closed-IsSound conns fds g c v = record {
  cache = v.cache;
  live = still_open (cached_fds conns) g fds c v.live;
  table = close_fd-IsTable g fds v.table;
}

-- A stream leaves the map, and its descriptor the table.
pub removed-IsSound :
    (conns : Connections) (fds : Fds) (a : Addr)
    → IsSound conns fds
    → IsSound (remove_stream a conns) (drop_stream (get_stream a conns) fds)
removed-IsSound conns fds a v = by_stream (get_stream a conns) refl
  where
    bare : IsSound (remove_stream a conns) fds
    bare = record {
      cache = remove_stream-IsCache a conns v.cache;
      live = fewer_open (λ fd. IsOpen fd fds) a conns v.live;
      table = v.table;
    }

    by_stream :
        (o : Option ℕ)
        → get_stream a conns ≡ o
        → IsSound (remove_stream a conns) (drop_stream o fds)
    by_stream none e = bare
    by_stream (some old) e =
        closed-IsSound (remove_stream a conns) fds old (get_stream-gone a old conns v.cache e) bare

-- A stream comes into the map, in the place of another to its address.
pub stored-IsSound :
    (conns : Connections) (fds : Fds) (a : Addr) (fd : ℕ)
    → IsClosed fd fds
    → IsSound conns fds
    → IsSound (insert_stream a fd conns) (drop_stream (get_stream a conns) (fd ∷ fds))
unfolding insert_stream
stored-IsSound conns fds a fd c v =
    let w = removed-IsSound conns (fd ∷ fds) a (opened-IsSound conns fds fd c v) in
    record {
      cache = insert_stream-IsCache a fd conns (not_cached conns fds fd v c) v.cache;
      live = (by_stream (get_stream a conns) refl, w.live);
      table = w.table;
    }
  where
    apart : (old : ℕ) → get_stream a conns ≡ some old → old ≢ fd
    apart old e = get_stream-ne a old fd conns (not_cached conns fds fd v c) e

    by_stream : (o : Option ℕ) → get_stream a conns ≡ o → IsOpen fd (drop_stream o (fd ∷ fds))
    by_stream none e = inl refl
    by_stream (some old) e =
        close_fd-IsOpen fd old (fd ∷ fds) (inl refl) (λ same. absurd (apart old e (sym same)))

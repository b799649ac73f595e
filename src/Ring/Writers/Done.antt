-- ===== src/Ring/Writers/Done.antt =====
-- Once every writer has made its last store.
use mathlib.Core.List.{Perm, append-nil}
use mathlib.Core.List.Perm
use native.Mathlib.Nat.{mod-add-mod, mod-eq_of_lt, add-zero}
use elgate.Prelude.{
  ℕ, suc, ◌+◌, ◌-◌, ◌%◌, ◌≤◌, ◌<◌, ◌≡◌, refl, sym, ap, ◌∙◌, List, [], ◌∷◌, ◌++◌, arith, length, map,
  subst, All, mod-add_step, mod_lt, length-append, Outcome, ok, err, panic, fault, ◌>>=◌,
}
use elgate.Ring.Slot.{UuidApi, SlotMem}
use elgate.Ring.Memory.{RingMem, RingError}
use elgate.Ring.Chain.{Chain}
use elgate.Ring.Buffer.{RingBuffer, Entry}
use elgate.Ring.Buffer.Valid.{IsValid, Holds, IsFree, units, area}
use elgate.Ring.Writers.{
  Job, Flight, Pool, Turn, claim, go_on, read_next, count_reads, entry_of, run, start, IsStored,
}
use elgate.Ring.Writers.Reads.{IsLeft}
use elgate.Ring.Writers.Invariant.{IsPool, IsOnWay, IsOwned, Fits, jobs_of}
use elgate.Ring.Writers.Turns.{advance-IsPool}

abbrev value_or : Pool → Outcome RingError Pool → Pool
value_or d (ok pool) = pool
value_or d (err e) = d
value_or d panic = d
value_or d fault = d

ok-injective : {a b : Pool} → ◌≡◌ {A = Outcome RingError Pool} (ok a) (ok b) → a ≡ b
ok-injective {a} e = ap (value_or a) e

Chain-append :
    {A : Type 0} (R : A → SlotMem → Type 0) (n : ℕ) (slots : List SlotMem) (h : ℕ) (xs ys : List A)
    → h < n
    → Chain R n slots h xs
    → Chain R n slots ((h + length xs) % n) ys
    → Chain R n slots h (xs ++ ys)
Chain-append R n slots h [] ys hh c d =
    subst (λ i. Chain R n slots i ys) (ap (λ t. t % n) (add-zero h) ∙ mod-eq_of_lt hh) d
Chain-append R n slots h (x ∷ xs) ys hh (s, e, r, c) d = (
  s,
  e,
  r,
  Chain-append R n slots ((h + 1) % n) xs ys (mod_lt n (h + 1) (omega arith)) c
      (subst (λ i. Chain R n slots i ys) (sym (mod-add_step n h (length xs))) d),
)

count_reads-cons :
    (t : Turn) (ts : List Turn) → count_reads (t ∷ ts) ≡ count_reads (t ∷ []) + count_reads ts
unfolding count_reads
count_reads-cons (claim k) ts = omega arith
count_reads-cons (go_on j) ts = omega arith
count_reads-cons read_next ts = omega arith

module _ ⦃uuid : UuidApi⦄ (rb : RingBuffer) where
  Chain-stored :
      (n : ℕ) (slots : List SlotMem) (h : ℕ) (xs : List Flight)
      → All IsStored xs
      → Chain (IsOwned rb) n slots h xs
      → Chain (Holds (area rb)) n slots h (map entry_of (jobs_of xs))
  Chain-stored n slots h [] all c = tt
  Chain-stored n slots h (x ∷ xs) (stored, all) (s, e, own, c) = (
    s,
    e,
    subst (λ phase. IsOnWay rb x.job phase s) stored own,
    Chain-stored n slots ((h + 1) % n) xs all c,
  )

  length-entries : (xs : List Flight) → length (map entry_of (jobs_of xs)) ≡ length xs
  length-entries [] = refl
  length-entries (x ∷ xs) = ap suc (length-entries xs)

  start-IsPool :
      (jobs : List Job) (q : List Entry) (m : RingMem)
      → IsValid rb q m
      → length q + length jobs ≤ m.header.slot_count
      → All (Fits rb) jobs
      → IsPool rb q jobs m.header.producer_idx m.header.consumer_idx (start jobs m)
  start-IsPool jobs q m v room fits =
      let n = m.header.slot_count in
      let here : m.header.producer_idx ≡ (m.header.producer_idx + 0) % n =
        sym (ap (λ t. t % n) (add-zero m.header.producer_idx) ∙ mod-eq_of_lt v.producer) in
      record {
        roomy = v.roomy;
        small = v.small;
        mapped = v.mapped;
        head = v.consumer;
        tail = v.producer;
        ahead = v.ahead;
        consumer = refl;
        producer = here;
        room = omega arith;
        fits = fits;
        numbered = tt;
        same = rw (append-nil jobs) Perm.rfl;
        pending = v.pending;
        owned = tt;
        free =
            subst (λ i. Chain IsFree n m.slots i (units (n - (length q + 0)))) here
              (subst (λ k. Chain IsFree n m.slots m.header.producer_idx (units (n - k)))
                (sym (add-zero (length q))) v.free);
      }

  -- What turns leave, from the ring of the start to the one they reach.
  run-IsPool :
      (turns : List Turn) (q : List Entry) (jobs : List Job) (p c : ℕ) (pool : Pool)
      → IsPool rb q jobs p c pool
      → count_reads turns ≤ length q
      → (q' : List Entry) × (c' : ℕ) × (pool' : Pool) × (run rb turns pool ≡ ok pool')
        × IsPool rb q' jobs p c' pool'
        × IsLeft pool pool' q q'
  unfolding run count_reads
  run-IsPool [] q jobs p c pool v few =
      (q, c, pool, refl, v, record { same = refl; less = omega arith })
  run-IsPool (t ∷ turns) q jobs p c pool v few =
      let split = count_reads-cons t turns in
      let (q1, c1, pool1, went, v1, left, taken) =
        advance-IsPool rb q jobs p c t pool v (omega (arith, split)) in
      let (q2, c2, pool2, ran, v2, left') =
        run-IsPool turns q1 jobs p c1 pool1 v1 (omega (arith, taken, split)) in
      (
        q2,
        c2,
        pool2,
        ap (λ o. o >>= run rb turns) went ∙ ran,
        v2,
        record { same = left'.same ∙ left.same; less = omega (arith, left.less, left'.less) },
      )

  IsPool→IsValid :
      (q : List Entry) (jobs : List Job) (p c : ℕ) (pool : Pool)
      → IsPool rb q jobs p c pool
      → pool.waiting ≡ []
      → All IsStored pool.flying
      → IsValid rb (q ++ map entry_of (jobs_of pool.flying)) pool.mem
  IsPool→IsValid q jobs p c pool v none_waits stored =
      let n = pool.mem.header.slot_count in
      let new : List Entry = map entry_of (jobs_of pool.flying) in
      let longer : length (q ++ new) ≡ length q + length pool.flying =
        length-append q new ∙ ap (λ k. length q + k) (length-entries pool.flying) in
      record {
        roomy = v.roomy;
        small = v.small;
        mapped = v.mapped;
        producer =
            omega (arith, v.producer, mod_lt n (p + length pool.flying) (omega (arith, v.tail)));
        consumer = omega (arith, v.consumer, v.head);
        ahead =
            v.producer
            ∙ ap (λ t. (t + length pool.flying) % n) v.ahead
            ∙ mod-add-mod (c + length q) n (length pool.flying)
            ∙ ap (λ t. t % n) (omega (arith, longer, v.consumer));
        short = omega (arith, longer, v.room);
        pending =
            subst (λ i. Chain (Holds (area rb)) n pool.mem.slots i (q ++ new)) (sym v.consumer)
              (Chain-append (Holds (area rb)) n pool.mem.slots c q new v.head v.pending (
                subst (λ i. Chain (Holds (area rb)) n pool.mem.slots i new) v.ahead
                  (Chain-stored n pool.mem.slots p pool.flying stored v.owned)));
        free =
            subst (λ i. Chain IsFree n pool.mem.slots i (units (n - length (q ++ new))))
              (sym v.producer)
              (subst
                (λ k. Chain IsFree n pool.mem.slots ((p + length pool.flying) % n) (units (n - k)))
                (sym longer) v.free);
      }

  -- Where the writers and the readers stand after these turns.
  pub reached :
      (q : List Entry) (jobs : List Job) (m : RingMem) (turns : List Turn)
      → IsValid rb q m
      → length q + length jobs ≤ m.header.slot_count
      → All (Fits rb) jobs
      → count_reads turns ≤ length q
      → (rest : List Entry) × (c : ℕ) × (pool : Pool) × (run rb turns (start jobs m) ≡ ok pool)
        × IsPool rb rest jobs m.header.producer_idx c pool
        × IsLeft (start jobs m) pool q rest
  reached q jobs m turns v room fits few =
      run-IsPool turns q jobs m.header.producer_idx m.header.consumer_idx (start jobs m)
        (start-IsPool jobs q m v room fits) few

  -- Writers of bytes that fit, no more of them than the ring has free slots, may interleave
  -- between any two of their stores, with reads in between, no more of them than the ring held
  -- entries: once all of the writers have claimed a slot and made their last store, the reads have
  -- returned entries that the ring held, oldest first, and the ring holds the others of those and
  -- behind them the writers' entries, each once, in the order of the claims.
  pub run-stores :
      (q : List Entry) (jobs : List Job) (m : RingMem) (turns : List Turn) (pool : Pool)
      → IsValid rb q m
      → length q + length jobs ≤ m.header.slot_count
      → All (Fits rb) jobs
      → count_reads turns ≤ length q
      → run rb turns (start jobs m) ≡ ok pool
      → pool.waiting ≡ []
      → All IsStored pool.flying
      → (rest : List Entry) × (pool.got ++ rest ≡ q)
        × IsValid rb (rest ++ map entry_of (jobs_of pool.flying)) pool.mem
        × Perm (jobs_of pool.flying) jobs
  run-stores q jobs m turns pool v room fits few ran none_waits stored =
      let p = m.header.producer_idx in
      let (rest, c, pool', ran', w, left) = reached q jobs m turns v room fits few in
      let same : pool' ≡ pool = ok-injective (sym ran' ∙ ran) in
      let w' : IsPool rb rest jobs p c pool = subst (IsPool rb rest jobs p c) same w in
      (
        rest,
        ap (λ o. o.got ++ rest) (sym same) ∙ left.same,
        IsPool→IsValid rest jobs p c pool w' none_waits stored,
        subst (λ ws. Perm (ws ++ jobs_of pool.flying) jobs) none_waits w'.same,
      )

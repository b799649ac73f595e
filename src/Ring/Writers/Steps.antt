-- ===== src/Ring/Writers/Steps.antt =====
-- What one step of a writer makes of the invariant.

use native.Mathlib.Nat.{mod-add-mod}
use elgate.Prelude.{
  ℕ, suc, ◌+◌, ◌-◌, ◌%◌, ◌<◌, ◌≡◌, refl, sym, ap, ◌∙◌, List, [], ◌∷◌, ◌++◌, some, arith, length,
  get_elem?, set, subst, mod_lt, add-mod_round, length-append, length-set,
}
use elgate.Ring.Slot.{UuidApi, Slot, SlotMem}
use elgate.Ring.Chain.{Chain, Chain-set, Chain-snoc}
use elgate.Ring.Buffer.{RingBuffer, Entry}
use elgate.Ring.Buffer.Valid.{Holds, IsFree, units, area, length-units}
use elgate.Ring.Buffer.Write.{slot_of}
use elgate.Ring.Writers.{Job, Flight, claimed, storing, Pool, entry_of, stores_of, in_phase}
use elgate.Ring.Writers.Stores.{finish, finish-Holds, Chain-update}
use elgate.Ring.Writers.Invariant.{IsPool, IsOnWay, IsOwned, jobs_of}
use elgate.Ring.Writers.Flights.{
  IsPicked, map-append_one, map-set_same, Chain-relabel, Numbered-snoc, Numbered-at, Numbered-set,
  moved-Perm,
}

module _ ⦃uuid : UuidApi⦄ (rb : RingBuffer) (q : List Entry) (jobs : List Job) (p c : ℕ) where
  -- A writer claims the next index.
  abbrev pub claimed_pool : Pool → Job → List Job → Pool
  claimed_pool pool job rest = record {
    mem = record (pool.mem) {
      header = record (pool.mem.header) {
        producer_idx = (pool.mem.header.producer_idx + 1) % pool.mem.header.slot_count;
      };
    };
    waiting = rest;
    got = pool.got;
    flying =
        pool.flying
        ++ (record { job = job; slot_idx = pool.mem.header.producer_idx; phase = claimed } ∷ []);
  }

  pub claim-IsPool :
      (pool : Pool) (job : Job) (rest : List Job)
      → IsPool rb q jobs p c pool
      → IsPicked rb pool.waiting job rest
      → IsPool rb q jobs p c (claimed_pool pool job rest)
  claim-IsPool pool job rest v picked =
      let n = pool.mem.header.slot_count in
      let x : Flight = record {
        job = job;
        slot_idx = pool.mem.header.producer_idx;
        phase = claimed;
      } in
      let longer = length-append pool.flying (x ∷ []) in
      let fits = picked.fits v.fits in
      let (s, here, isfree, others) =
        subst (λ k. Chain IsFree n pool.mem.slots ((p + length pool.flying) % n) (units k))
          {y = suc (n - (length q + length pool.flying + 1))} (omega (arith, v.room, picked.fewer))
          v.free in
      let next : ((p + length pool.flying) % n + 1) % n
          ≡ (p + length (pool.flying ++ (x ∷ []))) % n =
        mod-add-mod (p + length pool.flying) n 1 ∙ ap (λ t. t % n) (omega (arith, longer)) in
      record {
        roomy = v.roomy;
        small = v.small;
        mapped = v.mapped;
        head = v.head;
        tail = v.tail;
        ahead = v.ahead;
        consumer = v.consumer;
        producer = ap (λ t. (t + 1) % n) v.producer ∙ next;
        room = omega (arith, v.room, picked.fewer, longer);
        fits = fits.1;
        numbered = Numbered-snoc n p pool.flying x v.tail v.producer v.numbered;
        same =
            rw (map-append_one pool.flying x)
              (moved-Perm job rest pool.waiting (jobs_of pool.flying) jobs picked.same v.same);
        pending = v.pending;
        owned =
            Chain-snoc (IsOwned rb) n pool.mem.slots p pool.flying x s v.tail here (isfree, fits.0)
              v.owned;
        free =
            subst
              (λ i.
                Chain IsFree n pool.mem.slots i
                  (units (n - (length q + length (pool.flying ++ (x ∷ []))))))
              next
              (subst
                (λ k.
                  Chain IsFree n pool.mem.slots (((p + length pool.flying) % n + 1) % n) (units k))
                (omega (arith, longer)) others);
      }

  -- A writer whose slot is free goes on to its stores.
  abbrev pub begun_pool : Pool → Flight → ℕ → Pool
  begun_pool pool x j = record pool {
    flying = set pool.flying j (in_phase x (storing (stores_of x.job)));
  }

  pub begin-IsPool :
      (pool : Pool) (x : Flight) (j : ℕ)
      → IsPool rb q jobs p c pool
      → get_elem? pool.flying j ≡ some x
      → x.phase ≡ claimed
      → IsPool rb q jobs p c (begun_pool pool x j)
  begin-IsPool pool x j v e first =
      let n = pool.mem.header.slot_count in
      let y : Flight = in_phase x (storing (stores_of x.job)) in
      let long : length (set pool.flying j y) ≡ length pool.flying = length-set pool.flying j y in
      record {
        roomy = v.roomy;
        small = v.small;
        mapped = v.mapped;
        head = v.head;
        tail = v.tail;
        ahead = v.ahead;
        consumer = v.consumer;
        producer = v.producer ∙ ap (λ k. (p + k) % n) (sym long);
        room = omega (arith, v.room, long);
        fits = v.fits;
        numbered = Numbered-set n p j x y pool.flying e refl v.numbered;
        same = rw (map-set_same pool.flying j x y e refl) v.same;
        pending = v.pending;
        owned =
            Chain-relabel (IsOwned rb) n pool.mem.slots p j x y pool.flying e
              (λ s o. finish-Holds rb x.job s (subst (λ phase. IsOnWay rb x.job phase s) first o).1)
              v.owned;
        free =
            subst (λ k. Chain IsFree n pool.mem.slots ((p + k) % n) (units (n - (length q + k))))
              (sym long) v.free;
      }

  -- A writer makes its next store.
  abbrev pub stored_pool : Pool → Flight → ℕ → (Slot → Slot) → List (Slot → Slot) → SlotMem → Pool
  stored_pool pool x j store more s = record {
    mem = record (pool.mem) { slots = set pool.mem.slots x.slot_idx (store (slot_of rb s)).mem };
    waiting = pool.waiting;
    got = pool.got;
    flying = set pool.flying j (in_phase x (storing more));
  }

  pub store-IsPool :
      (pool : Pool) (x : Flight) (j : ℕ) (store : Slot → Slot) (more : List (Slot → Slot))
      (s : SlotMem)
      → IsPool rb q jobs p c pool
      → get_elem? pool.flying j ≡ some x
      → j < length pool.flying
      → Holds (area rb) (entry_of x.job) (finish rb more (store (slot_of rb s)).mem)
      → IsPool rb q jobs p c (stored_pool pool x j store more s)
  store-IsPool pool x j store more s v e lt holds =
      let n = pool.mem.header.slot_count in
      let y : Flight = in_phase x (storing more) in
      let t : SlotMem = (store (slot_of rb s)).mem in
      let long : length (set pool.flying j y) ≡ length pool.flying = length-set pool.flying j y in
      let at : x.slot_idx ≡ (p + j) % n = Numbered-at n p j x pool.flying v.tail e v.numbered in
      let behind : (c + (length q + j)) % n ≡ x.slot_idx =
        ap (λ t. t % n) (omega arith)
        ∙ sym (mod-add-mod (c + length q) n j)
        ∙ ap (λ t. (t + j) % n) (sym v.ahead)
        ∙ sym at in
      let before : ((p + length pool.flying) % n + (n - length pool.flying + j)) % n ≡ x.slot_idx =
        mod-add-mod (p + length pool.flying) n (n - length pool.flying + j)
        ∙ ap (λ t. t % n) {y = p + j + n} (omega (arith, v.room))
        ∙ sym (mod-add-mod (p + j) n n)
        ∙ add-mod_round n ((p + j) % n) (mod_lt n (p + j) (omega (arith, v.tail)))
        ∙ sym at in
      record {
        roomy = v.roomy;
        small = v.small;
        mapped = length-set pool.mem.slots x.slot_idx t ∙ v.mapped;
        head = v.head;
        tail = v.tail;
        ahead = v.ahead;
        consumer = v.consumer;
        producer = v.producer ∙ ap (λ k. (p + k) % n) (sym long);
        room = omega (arith, v.room, long);
        fits = v.fits;
        numbered = Numbered-set n p j x y pool.flying e refl v.numbered;
        same = rw (map-set_same pool.flying j x y e refl) v.same;
        pending =
            subst (λ i. Chain (Holds (area rb)) n (set pool.mem.slots i t) c q) behind
              (Chain-set (Holds (area rb)) n pool.mem.slots c (length q + j) t q v.head
                (omega arith) (omega (arith, v.room)) v.pending);
        owned =
            subst (λ i. Chain (IsOwned rb) n (set pool.mem.slots i t) p (set pool.flying j y))
              (sym at)
              (Chain-update (IsOwned rb) n pool.mem.slots p j t y pool.flying v.tail
                (omega (arith, v.room)) v.mapped lt holds v.owned);
        free =
            subst
              (λ k.
                Chain IsFree n (set pool.mem.slots x.slot_idx t) ((p + k) % n)
                  (units (n - (length q + k))))
              (sym long)
              (subst
                (λ i.
                  Chain IsFree n (set pool.mem.slots i t) ((p + length pool.flying) % n)
                    (units (n - (length q + length pool.flying))))
                before
                (Chain-set IsFree n pool.mem.slots ((p + length pool.flying) % n)
                  (n - length pool.flying + j) t (units (n - (length q + length pool.flying)))
                  (mod_lt n (p + length pool.flying) (omega (arith, v.tail)))
                  (omega (arith, length-units (n - (length q + length pool.flying))))
                  (omega (arith, v.room)) v.free));
      }

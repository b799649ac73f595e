-- ===== src/Ring/Writers/Reads.antt =====
-- A read between two steps of the writers takes the oldest entry, if the ring held it from the start.
use mathlib.Core.List.{append-nil, append_assoc}
use native.Mathlib.Nat.{mod-add-mod}
use elgate.Prelude.{
  ℕ, suc, ◌+◌, ◌-◌, ◌%◌, ◌≤◌, ◌≡◌, ◌≢◌, refl, sym, ap, ◌∙◌, List, [], ◌∷◌, ◌++◌, arith, length,
  get_elem?, get_elem?-set_self, set, subst, mod_lt, mod-add_step, add-mod_round, add-mod-ne,
  length-set, ok, dec_lt,
}
use elgate.Ring.Header
use elgate.Ring.Slot.{UuidApi, SlotMem}
use elgate.Ring.Slot.Transfer.{consumed}
use elgate.Ring.Chain.{Chain, Chain-set, Chain-snoc}
use elgate.Ring.Buffer.{RingBuffer, Entry}
use elgate.Ring.Buffer.Valid.{
  Holds, IsFree, units, area, length-units, units-snoc, Chain-set_before,
}
use elgate.Ring.Buffer.Read.{read_out, read_ready, read_of_eq}
use elgate.Ring.Buffer.Write.{slot_of}
use elgate.Ring.Writers.{Job, Pool, read_next, advance, take_entry}
use elgate.Ring.Writers.Invariant.{IsPool, IsOwned, work}

-- What a turn leaves: the entries that the reads have returned and those that are left are the
-- same all together.
pub record IsLeft (pool pool' : Pool) (q q' : List Entry) : Type 0 where
  pub same : pool'.got ++ q' ≡ pool.got ++ q
  pub less : work pool' ≤ work pool

module _ ⦃uuid : UuidApi⦄ (rb : RingBuffer) (jobs : List Job) (p c : ℕ) where
  abbrev pub read_pool : Pool → Entry → SlotMem → Pool
  read_pool pool e s = record pool { mem = read_out rb pool.mem s; got = pool.got ++ (e ∷ []) }

  read-IsPool :
      (pool : Pool) (e : Entry) (q : List Entry)
      → (v : IsPool rb (e ∷ q) jobs p c pool)
      → IsPool rb q jobs p ((c + 1) % pool.mem.header.slot_count) (read_pool pool e v.pending.0)
  unfolding Header.increment_completed
  read-IsPool pool e q v =
      let n = pool.mem.header.slot_count in
      let b : SlotMem = (consumed (slot_of rb v.pending.0)).mem in
      let f = length pool.flying in
      let left = n - (suc (length q) + f) in
      let behind : (p + (n - suc (length q))) % n ≡ c =
        ap (λ t. (t + (n - suc (length q))) % n) v.ahead
        ∙ mod-add-mod (c + suc (length q)) n (n - suc (length q))
        ∙ ap (λ t. t % n) {y = c + n} (omega (arith, v.room))
        ∙ add-mod_round n c v.head in
      let beyond : ((p + f) % n + left) % n ≡ c =
        mod-add-mod (p + f) n left
        ∙ ap (λ t. t % n) {y = p + (n - suc (length q))} (omega (arith, v.room))
        ∙ behind in
      let few = length-units left in
      record {
        roomy = v.roomy;
        small = v.small;
        mapped = length-set pool.mem.slots pool.mem.header.consumer_idx b ∙ v.mapped;
        head = mod_lt n (c + 1) (omega (arith, v.head));
        tail = v.tail;
        ahead = v.ahead ∙ sym (mod-add_step n c (length q));
        consumer = ap (λ t. (t + 1) % n) v.consumer;
        producer = v.producer;
        room = omega (arith, v.room);
        fits = v.fits;
        numbered = v.numbered;
        same = v.same;
        pending =
            subst (λ i. Chain (Holds (area rb)) n (set pool.mem.slots i b) ((c + 1) % n) q)
              (sym v.consumer)
              (Chain-set_before (Holds (area rb)) n c pool.mem.slots b q v.head
                (omega (arith, v.room)) v.pending.3);
        owned =
            subst (λ i. Chain (IsOwned rb) n (set pool.mem.slots i b) p pool.flying)
              (behind ∙ sym v.consumer)
              (Chain-set (IsOwned rb) n pool.mem.slots p (n - suc (length q)) b pool.flying v.tail
                (omega (arith, v.room)) (omega (arith, v.head)) v.owned);
        free =
            subst
              (λ i.
                Chain IsFree n (set pool.mem.slots i b) ((p + f) % n) (units (n - (length q + f))))
              (sym v.consumer)
              (subst (λ us. Chain IsFree n (set pool.mem.slots c b) ((p + f) % n) us)
                (units-snoc left ∙ ap units {x = suc left} (omega (arith, v.room)))
                (Chain-snoc IsFree n (set pool.mem.slots c b) ((p + f) % n) (units left) tt b
                  (mod_lt n (p + f) (omega (arith, v.tail)))
                  (ap (get_elem? (set pool.mem.slots c b))
                      (ap (λ k. ((p + f) % n + k) % n) few ∙ beyond)
                    ∙ get_elem?-set_self pool.mem.slots c b (omega (arith, v.mapped, v.head)))
                  (record { free = refl })
                  (subst (λ i. Chain IsFree n (set pool.mem.slots i b) ((p + f) % n) (units left))
                    beyond
                    (Chain-set IsFree n pool.mem.slots ((p + f) % n) left b (units left)
                      (mod_lt n (p + f) (omega (arith, v.tail))) (omega (arith, few))
                      (omega (arith, v.head)) v.free))));
      }

  pub read_turn-IsPool :
      (pool : Pool) (e : Entry) (q : List Entry)
      → IsPool rb (e ∷ q) jobs p c pool
      → (q' : List Entry) × (c' : ℕ) × (pool' : Pool) × (advance rb read_next pool ≡ ok pool')
        × IsPool rb q' jobs p c' pool'
        × IsLeft pool pool' (e ∷ q) q'
        × (length q ≤ length q')
  unfolding advance
  read_turn-IsPool pool e q v =
      let n = pool.mem.header.slot_count in
      let f = length pool.flying in
      elim (dec_lt (suc (length q) + f) n) [
        | yes room ↦
            let apart : pool.mem.header.producer_idx ≢ pool.mem.header.consumer_idx = λ same.
              add-mod-ne n c (suc (length q) + f) v.head (omega arith) room
                (sym (indices v) ∙ same ∙ v.consumer) in
            let done =
              read_ready rb pool.mem e v.pending.0 v.roomy v.small
                (omega (arith, v.consumer, v.head)) apart
                (ap (get_elem? pool.mem.slots) v.consumer ∙ v.pending.1) v.pending.2 in
            (
              q,
              (c + 1) % n,
              read_pool pool e v.pending.0,
              ap (take_entry pool) done,
              read-IsPool pool e q v,
              record { same = append_assoc pool.got (e ∷ []) q; less = omega arith },
              omega arith,
            )
        | no full ↦
            let meet : pool.mem.header.producer_idx ≡ pool.mem.header.consumer_idx =
              indices v
              ∙ ap (λ k. (c + k) % n) {y = n} (omega (arith, v.room))
              ∙ add-mod_round n c v.head
              ∙ sym v.consumer in
            (
              e ∷ q,
              c,
              record pool { got = pool.got ++ [] },
              ap (take_entry pool) (read_of_eq rb pool.mem meet),
              subst (λ g. IsPool rb (e ∷ q) jobs p c (record pool { got = g }))
                  (sym (append-nil pool.got)) v,
              record { same = ap (λ g. g ++ (e ∷ q)) (append-nil pool.got); less = omega arith },
              omega arith,
            )
      ]
    where
      indices :
          IsPool rb (e ∷ q) jobs p c pool
          → pool.mem.header.producer_idx
            ≡ (c + (suc (length q) + length pool.flying)) % pool.mem.header.slot_count
      indices v =
          v.producer
          ∙ ap (λ t. (t + length pool.flying) % pool.mem.header.slot_count) v.ahead
          ∙ mod-add-mod (c + suc (length q)) pool.mem.header.slot_count (length pool.flying)
          ∙ ap (λ t. t % pool.mem.header.slot_count) (omega arith)

-- ===== src/Ring/Buffer/Valid.antt =====
-- What a ring that holds a queue of entries looks like in the mapping.
use elgate.Prelude.{
  ℕ, zero, suc, ◌+◌, ◌-◌, ◌%◌, ◌^◌, ◌≤◌, ◌<◌, ◌≡◌, refl, sym, ap, ◌∙◌, true, List, [], ◌∷◌, arith,
  ◌++◌, subst, length-append, mod_lt, mod-add_step, add-mod_round, length, take, get_elem?,
  replicate, set, some, length-set, get_elem?-set_self,
}
use elgate.Ring.Layout.{IsRoomy, metadata_size}
use elgate.Ring.Slot.{SlotMem, decode_status, operation_code}
use elgate.Ring.Memory.{RingMem}
use elgate.Ring.Buffer.{RingBuffer, Entry, is_available}
use elgate.Ring.Chain.{Chain, Chain-set, Chain-snoc}
use native.Mathlib.Nat.{mod-add-mod}

-- A slot with room for `d` bytes that is ready with this entry.
pub record Holds (d : ℕ) (e : Entry) (s : SlotMem) : Type 0 where
  pub ready : s.metadata.status_word ≡ 2
  pub kind : s.metadata.operation_word ≡ operation_code e.0
  pub sized : s.metadata.size_word ≡ length e.1
  pub fits : length e.1 ≤ d
  pub bytes : take (length e.1) s.payload ≡ e.1

-- A slot that `wait_for_slot` accepts.
pub record IsFree (_ : Unit {0}) (s : SlotMem) : Type 0 where
  pub free : is_available (decode_status s.metadata.status_word) ≡ true

abbrev pub units : ℕ → List (Unit {0})
units n = replicate n tt

pub length-units : (n : ℕ) → length (units n) ≡ n
length-units zero = refl
length-units (suc n) = ap suc (length-units n)

-- The payload bytes of a slot.
abbrev pub area : RingBuffer → ℕ
area rb = rb.slot_size - metadata_size

-- `n` slots hold the entries `q`, oldest first, from the consumer's index `c` up to the producer's
-- index `p`, and the others are free. With as many entries as slots the two indices meet, as they
-- do in the empty ring.
pub record IsRing (rb : RingBuffer) (q : List Entry) (n p c : ℕ) (slots : List SlotMem)
    : Type 0 where
  pub roomy : IsRoomy rb.slot_size
  pub small : n < 2 ^ 64
  pub mapped : length slots ≡ n
  pub producer : p < n
  pub consumer : c < n
  pub ahead : p ≡ (c + length q) % n
  pub short : length q ≤ n
  pub pending : Chain (Holds (area rb)) n slots c q
  pub free : Chain IsFree n slots p (units (n - length q))

abbrev pub IsValid : RingBuffer → List Entry → RingMem → Type 0
IsValid rb q m = IsRing rb q m.header.slot_count m.header.producer_idx m.header.consumer_idx m.slots

-- The slot just before a run of at most `n - 1` slots lies outside it.
pub Chain-set_before :
    {A : Type 0} (R : A → SlotMem → Type 0) (n i : ℕ) (slots : List SlotMem) (v : SlotMem)
    (xs : List A)
    → i < n
    → length xs < n
    → Chain R n slots ((i + 1) % n) xs
    → Chain R n (set slots i v) ((i + 1) % n) xs
Chain-set_before R n i slots v xs hi hl c =
    subst (λ j. Chain R n (set slots j v) ((i + 1) % n) xs) round
      (Chain-set R n slots ((i + 1) % n) (n - 1) v xs (mod_lt n (i + 1) (omega arith)) (omega arith)
        (omega arith) c)
  where
    round : ((i + 1) % n + (n - 1)) % n ≡ i
    round = mod-add_step n i (n - 1) ∙ ap (λ t. (i + t) % n) (omega arith) ∙ add-mod_round n i hi

-- The slot just behind a run of at most `n - 1` slots lies outside it.
Chain-set_behind :
    {A : Type 0} (R : A → SlotMem → Type 0) (n h i : ℕ) (slots : List SlotMem) (v : SlotMem)
    (xs : List A)
    → h < n
    → length xs < n
    → i ≡ (h + length xs) % n
    → Chain R n slots h xs
    → Chain R n (set slots i v) h xs
Chain-set_behind R n h i slots v xs hh hl e c =
    subst (λ j. Chain R n (set slots j v) h xs) (sym e)
      (Chain-set R n slots h (length xs) v xs hh (omega arith) hl c)

-- The slot at the producer's index, and the free ones behind it.
pub head_slot :
    {rb : RingBuffer} {q : List Entry} {n p c : ℕ} {slots : List SlotMem}
    → IsRing rb q n p c slots
    → length q < n
    → (s : SlotMem) × (get_elem? slots p ≡ some s)
      × IsFree tt s
      × Chain IsFree n slots ((p + 1) % n) (units (n - suc (length q)))
head_slot {q} {n} {p} {slots} v h =
    subst (λ k. Chain IsFree n slots p (units k)) {y = suc (n - suc (length q))} (omega arith)
      v.free

-- An entry is stored at the producer's index, by two stores, and the index moves on.
pub push-IsRing :
    {rb : RingBuffer} {q : List Entry} {n p c : ℕ} {slots : List SlotMem}
    → IsRing rb q n p c slots
    → length q < n
    → (e : Entry) (a b : SlotMem) → Holds (area rb) e b
    → IsRing rb (q ++ (e ∷ [])) n ((p + 1) % n) c (set (set slots p a) p b)
push-IsRing {rb} {q} {n} {p} {c} {slots} v h e a b holds = record {
  roomy = v.roomy;
  small = v.small;
  mapped = length-set (set slots p a) p b ∙ length-set slots p a ∙ v.mapped;
  producer = mod_lt n (p + 1) (omega arith);
  consumer = v.consumer;
  ahead =
      ap (λ t. (t + 1) % n) v.ahead
      ∙ mod-add-mod (c + length q) n 1
      ∙ ap (λ t. t % n) (omega (arith, longer));
  short = omega (arith, longer);
  pending =
      Chain-snoc (Holds (area rb)) n (set (set slots p a) p b) c q e b v.consumer
        (ap (get_elem? (set (set slots p a) p b)) (sym v.ahead)
          ∙ get_elem?-set_self (set slots p a) p b
              (omega (arith, v.mapped, length-set slots p a, v.producer)))
        holds
        (Chain-set_behind (Holds (area rb)) n c p (set slots p a) b q v.consumer h v.ahead
          (Chain-set_behind (Holds (area rb)) n c p slots a q v.consumer h v.ahead v.pending));
  free =
      subst (λ k. Chain IsFree n (set (set slots p a) p b) ((p + 1) % n) (units k))
        {x = n - suc (length q)} (omega (arith, longer))
        (Chain-set_before IsFree n p (set slots p a) b (units (n - suc (length q))) v.producer few (
          Chain-set_before IsFree n p slots a (units (n - suc (length q))) v.producer few
            (head_slot v h).3));
}
  where
    longer : length (q ++ (e ∷ [])) ≡ length q + 1
    longer = length-append q (e ∷ [])

    few : length (units (n - suc (length q))) < n
    few = omega (arith, length-units (n - suc (length q)))

pub units-snoc : (k : ℕ) → units k ++ (tt ∷ []) ≡ units (suc k)
units-snoc zero = refl
units-snoc (suc k) = ap (◌∷◌ tt) (units-snoc k)

-- The entry at the consumer's index is taken, the slot is free again, and the index moves on.
pub pop-IsRing :
    {rb : RingBuffer} {e : Entry} {q : List Entry} {n p c : ℕ} {slots : List SlotMem}
    → IsRing rb (e ∷ q) n p c slots
    → (b : SlotMem) → IsFree tt b
    → IsRing rb q n p ((c + 1) % n) (set slots c b)
pop-IsRing {rb} {e} {q} {n} {p} {c} {slots} v b freed = record {
  roomy = v.roomy;
  small = v.small;
  mapped = length-set slots c b ∙ v.mapped;
  producer = v.producer;
  consumer = mod_lt n (c + 1) (omega arith);
  ahead = v.ahead ∙ sym (mod-add_step n c (length q));
  short = omega arith;
  pending = Chain-set_before (Holds (area rb)) n c slots b q v.consumer (omega arith) v.pending.3;
  free =
      subst (λ us. Chain IsFree n (set slots c b) p us)
        (units-snoc left ∙ ap units {x = suc left} (omega arith))
        (Chain-snoc IsFree n (set slots c b) p (units left) tt b v.producer
          (ap (get_elem? (set slots c b)) (sym behind)
            ∙ get_elem?-set_self slots c b (omega (arith, v.mapped, v.consumer)))
          freed
          (Chain-set_behind IsFree n p c slots b (units left) v.producer
            (omega (arith, length-units left)) behind v.free));
}
  where
    left : ℕ
    left = n - suc (length q)

    behind : c ≡ (p + length (units left)) % n
    behind = sym (
        ap (λ t. (t + length (units left)) % n) v.ahead
        ∙ mod-add-mod (c + suc (length q)) n (length (units left))
        ∙ ap (λ t. t % n) (omega (arith, length-units left, v.short))
        ∙ add-mod_round n c v.consumer)

-- The ring does not depend on the handle but for its slot size.
pub IsRing-handle :
    {rb : RingBuffer} {q : List Entry} {n p c : ℕ} {slots : List SlotMem} (other : RingBuffer)
    → other.slot_size ≡ rb.slot_size
    → IsRing rb q n p c slots
    → IsRing other q n p c slots
IsRing-handle {rb} {q} {n} {p} {c} {slots} other e v = record {
  roomy = subst IsRoomy (sym e) v.roomy;
  small = v.small;
  mapped = v.mapped;
  producer = v.producer;
  consumer = v.consumer;
  ahead = v.ahead;
  short = v.short;
  pending = subst (λ k. Chain (Holds (k - metadata_size)) n slots c q) (sym e) v.pending;
  free = v.free;
}

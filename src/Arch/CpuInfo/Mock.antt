-- ===== src/Arch/CpuInfo/Mock.antt =====
-- `mock` of elgate-core/src/arch/cpu_info.rs: how it shares the cores out over the nodes.
use native.Mathlib.Nat.{div-add-mod', mod-lt, mod-eq_of_lt, suc-mul, mul_comm}
use elgate.Prelude.{
  ℕ, zero, suc, ◌+◌, ◌-◌, ◌*◌, ◌/◌, ◌%◌, ◌^◌, ◌≤◌, ◌<◌, ◌≡◌, refl, ap, ap₂, ◌∙◌, Bool, true, false,
  ◌∷◌, ◌++◌, some, none, arith, ltb, min, if◌then◌else◌, dec_lt, lt→ltb, length, get_elem?, All, ok,
  checked_rem-pos,
}
use mathlib.Core.List.{append-nil}
use elgate.Arch.CpuList.{range_from}
use elgate.Arch.CpuInfo.{core_count, CpuInfo, get_core_for_worker, mock_nodes, mock}
use elgate.Arch.CpuInfo.Workers.{
  all_cores, core_or_rem, place, get_core_for_worker-core_or_rem, IsTopology,
}

range_from-append : (a m n : ℕ) → range_from a m ++ range_from (a + m) n ≡ range_from a (m + n)
range_from-append a zero n = ap₂ range_from (omega arith) (omega arith)
range_from-append a (suc m) n =
    ap (λ t. a ∷ t)
      (ap (λ j. range_from (a + 1) m ++ range_from j n) (omega arith)
        ∙ range_from-append (a + 1) m n)
    ∙ ap (range_from a) {x = suc (m + n)} (omega arith)

length-range_from : (a n : ℕ) → length (range_from a n) ≡ n
length-range_from a zero = refl
length-range_from a (suc n) = ap suc (length-range_from (a + 1) n)

get_elem?-range_from : (a n i : ℕ) → i < n → get_elem? (range_from a n) i ≡ some (a + i)
get_elem?-range_from a zero i h = absurd (omega arith)
get_elem?-range_from a (suc n) zero h = ap some (omega arith)
get_elem?-range_from a (suc n) (suc i) h =
    get_elem?-range_from (a + 1) n i (omega arith) ∙ ap some (omega arith)

get_elem?-range_from_end : (a n i : ℕ) → n ≤ i → get_elem? (range_from a n) i ≡ none
get_elem?-range_from_end a zero i h = refl
get_elem?-range_from_end a (suc n) zero h = absurd (omega arith)
get_elem?-range_from_end a (suc n) (suc i) h = get_elem?-range_from_end (a + 1) n i (omega arith)

All-range_from : (a n b : ℕ) → a + n ≤ b → All (λ c. c < b) (range_from a n)
All-range_from a zero b h = tt
All-range_from a (suc n) b h = (omega arith, All-range_from (a + 1) n b (omega arith))

share :
    (k per r : ℕ)
    → per + (if ltb 0 r then 1 else 0) + (k * per + min (r - 1) k) ≡ suc k * per + min r (suc k)
share k per r = rw (suc-mul k per) (go (k * per))
  where
    go : (q : ℕ) → per + (if ltb 0 r then 1 else 0) + (q + min (r - 1) k) ≡ q + per + min r (suc k)
    go q = ground arith

-- The loop deals out the cores from `idx` on, one node after the other.
mock_nodes-all_cores :
    (k i per remaining idx : ℕ)
    → all_cores (mock_nodes k i per remaining idx) ≡ range_from idx (k * per + min remaining k)
unfolding mock_nodes
mock_nodes-all_cores zero i per remaining idx = ap (range_from idx) {x = 0} (ground arith)
mock_nodes-all_cores (suc k) i per remaining idx =
    let extra = if ltb 0 remaining then 1 else 0 in
    ap (λ t. range_from idx (per + extra) ++ t)
      (mock_nodes-all_cores k (i + 1) per (remaining - 1) (idx + (per + extra)))
    ∙ range_from-append idx (per + extra) (k * per + min (remaining - 1) k)
    ∙ ap (range_from idx) (share k per remaining)

shares-total : (q r k n : ℕ) → r < suc k → q + r ≡ n → q + min r (suc k) ≡ n
shares-total q r k n h e = ground arith

-- Whatever the number of nodes, the nodes of `mock` have the logical cores in order.
mock-all_cores : (n k : ℕ) → all_cores (mock n k).numa_nodes ≡ range_from 0 n
unfolding mock
mock-all_cores n zero = append-nil (range_from 0 n)
mock-all_cores n (suc k) = rw (lt→ltb 0 (suc k) (omega arith)) (
    mock_nodes-all_cores (suc k) 0 (n / suc k) (n % suc k) 0
    ∙ ap (range_from 0) (
        shares-total (suc k * (n / suc k)) (n % suc k) k n (mod-lt n (omega arith))
          (ap (λ t. t + n % suc k) (mul_comm (suc k) (n / suc k)) ∙ div-add-mod' n (suc k))))

-- The topology of `mock` is one that the bounds of `get_core_for_worker` ask for.
mock-IsTopology : (n k : ℕ) → 0 < n → n < 2 ^ 64 → IsTopology (mock n k)
unfolding mock
mock-IsTopology n k p b =
    rw (mock-all_cores n k, length-range_from 0 n) (p, All-range_from 0 n n (omega arith), b)

in_order :
    (available : Bool) (n w : ℕ)
    → 0 < n
    → core_or_rem (if available then get_elem? (range_from 0 n) w else none) w n ≡ ok (w % n)
in_order false n w p = checked_rem-pos w n p
in_order true n w p = elim (dec_lt w n) [
  | yes h ↦
      ap (λ o. core_or_rem o w n) (get_elem?-range_from 0 n w h)
      ∙ ap ok (omega (arith, mod-eq_of_lt h))
  | no h ↦
      ap (λ o. core_or_rem o w n) (get_elem?-range_from_end 0 n w (omega arith))
      ∙ checked_rem-pos w n p
]

in_order-place :
    (info : CpuInfo) (w : ℕ)
    → 0 < info.logical_cores
    → all_cores info.numa_nodes ≡ range_from 0 info.logical_cores
    → core_or_rem (place info w) w info.logical_cores ≡ ok (w % info.logical_cores)
unfolding place
in_order-place info w p e = rw e (in_order info.numa_available info.logical_cores w p)

-- Under the topology of mock with n cores, 0 < n < 2^64, shared out over any number of nodes,
-- worker w gets core w % n.
pub get_core_for_worker-mock :
    (n k w : ℕ) → 0 < n → n < 2 ^ 64 → get_core_for_worker (mock n k) w ≡ ok (w % n)
unfolding mock
get_core_for_worker-mock n k w p b =
    get_core_for_worker-core_or_rem (mock n k) w (mock-IsTopology n k p b).2
    ∙ in_order-place (mock n k) w p (mock-all_cores n k)

nodes_balanced :
    (k i per r idx : ℕ)
    → (length (mock_nodes k i per r idx) ≡ k)
      × All
          (λ node. (per ≤ core_count node) × (core_count node ≤ per + 1))
          (mock_nodes k i per r idx)
unfolding mock_nodes core_count
nodes_balanced zero i per r idx = (refl, tt)
nodes_balanced (suc k) i per r idx =
    let extra = if ltb 0 r then 1 else 0 in
    let rest = nodes_balanced k (i + 1) per (r - 1) (idx + (per + extra)) in
    (ap suc rest.0, rw (length-range_from idx (per + extra)) ((ground arith, ground arith), rest.1))

-- mock makes as many nodes as it is asked for, if any, with numbers of cores that differ by one at
-- most.
pub mock_balanced :
    (n k : ℕ)
    → 0 < k
    → (length (mock n k).numa_nodes ≡ k)
      × All
          (λ node. (n / k ≤ core_count node) × (core_count node ≤ n / k + 1))
          (mock n k).numa_nodes
unfolding mock
mock_balanced n k p = rw (lt→ltb 0 k p) (nodes_balanced k 0 (n / k) (n % k) 0)

-- ===== src/Arch/CpuInfo/Workers.antt =====
-- `get_core_for_worker` of elgate-core/src/arch/cpu_info.rs, against the list of all cores.
use elgate.Prelude.{
  ℕ, ◌+◌, ◌-◌, ◌%◌, ◌^◌, ◌≤◌, ◌<◌, ◌≡◌, refl, ap, ◌∙◌, List, [], ◌∷◌, ◌++◌, Option, some, none,
  arith, if◌then◌else◌, dec_lt, lt→ltb, le→ltb, length, get_elem?, get_elem?-append_left,
  get_elem?-append_right, get_elem?-some, length-append, Infallible, Outcome, ok, ◌>>=◌,
  checked_add-fits, checked_sub-le, checked_rem-pos, checked_sub, checked_rem, unwrap, Bool, true,
  false, not, ◌||◌, All, Option-cases, All-get, inl, inr, mod_lt,
}
use mathlib.Core.Option.{none-ne-some}
use native.Mathlib.Nat.{mod-eq_of_lt}
use elgate.Arch.CpuInfo.{NumaNode, core_count, CpuInfo, scan_nodes, is_empty, get_core_for_worker}

abbrev pub all_cores : List NumaNode → List ℕ
all_cores [] = []
all_cores (node ∷ nodes) = node.cores ++ all_cores nodes

-- The core found, else the worker's number modulo the number of logical cores.
abbrev pub core_or_rem : Option ℕ → ℕ → ℕ → Outcome Infallible ℕ
core_or_rem (some core) worker_idx logical_cores = ok core
core_or_rem none worker_idx logical_cores = checked_rem worker_idx logical_cores

-- The choice within the node that the worker falls into.
picked_core :
    (cores : List ℕ) (total w : ℕ)
    → total ≤ w
    → w < total + length cores
    → (checked_sub {E = Infallible} (total + length cores) (length cores) >>= λ before.
        checked_sub w before >>= λ local_idx.
        checked_rem local_idx (length cores) >>= λ i. unwrap (get_elem? cores i))
      ≡ unwrap (get_elem? cores (w - total))
picked_core cores total w h k =
    let same : total + length cores - length cores ≡ total = omega arith in
    let local : (w - total) % length cores ≡ w - total = mod-eq_of_lt (omega arith) in
    rw
      (
        checked_sub-le {E = Infallible} (total + length cores) (length cores) (omega arith),
        same,
        checked_sub-le {E = Infallible} w total h,
        checked_rem-pos {E = Infallible} (w - total) (length cores) (omega arith),
        local,
      )
      refl

found_core :
    (cores : List ℕ) (i w lc : ℕ)
    → i < length cores
    → unwrap (get_elem? cores i) ≡ core_or_rem (get_elem? cores i) w lc
found_core cores i w lc h = rw (get_elem?-some cores i h).1

-- The scan finds the worker's place in the list of the cores of all nodes.
scan_nodes-core_or_rem :
    (nodes : List NumaNode) (total w lc : ℕ)
    → total ≤ w
    → total + length (all_cores nodes) < 2 ^ 64
    → scan_nodes nodes total w lc ≡ core_or_rem (get_elem? (all_cores nodes) (w - total)) w lc
unfolding scan_nodes core_count
scan_nodes-core_or_rem [] total w lc h b = refl
scan_nodes-core_or_rem (node ∷ nodes) total w lc h b =
    let rest = all_cores nodes in
    let sum : length (node.cores ++ rest) ≡ length node.cores + length rest =
      length-append node.cores rest in
    rw (checked_add-fits {E = Infallible} total (length node.cores) (omega (arith, b, sum)))
      (elim (dec_lt w (total + length node.cores)) [
        | yes k ↦
            rw (lt→ltb w (total + length node.cores) k, picked_core node.cores total w h k)
              (rw (get_elem?-append_left node.cores rest (w - total) (omega arith))
                (found_core node.cores (w - total) w lc (omega arith)))
        | no k ↦ rw (le→ltb w (total + length node.cores) (omega arith)) (
            rw (get_elem?-append_right node.cores rest (w - total) (omega arith)) (
              scan_nodes-core_or_rem nodes (total + length node.cores) w lc (omega arith)
                (omega (arith, b, sum))
              ∙ ap (λ j. core_or_rem (get_elem? rest j) w lc) (omega arith)))
      ])

unfoldable pub place : CpuInfo → ℕ → Option ℕ
place info worker_idx =
    if info.numa_available then get_elem? (all_cores info.numa_nodes) worker_idx else none

-- With the topology known, worker w gets the core at place w of the cores of all nodes, one node
-- after the other; a worker beyond them, or without topology, gets w modulo the logical cores. The
-- nodes have fewer than 2^64 cores.
pub get_core_for_worker-core_or_rem :
    (info : CpuInfo) (w : ℕ)
    → length (all_cores info.numa_nodes) < 2 ^ 64
    → get_core_for_worker info w ≡ core_or_rem (place info w) w info.logical_cores
unfolding get_core_for_worker place
get_core_for_worker-core_or_rem info w b = go info.numa_available info.numa_nodes b
  where
    go :
        (available : Bool) (nodes : List NumaNode)
        → length (all_cores nodes) < 2 ^ 64
        → (if not available || is_empty nodes
            then checked_rem w info.logical_cores
            else scan_nodes nodes 0 w info.logical_cores)
          ≡ core_or_rem
              (if available then get_elem? (all_cores nodes) w else none)
              w
              info.logical_cores
    go false nodes b = refl
    go true [] b = refl
    go true (node ∷ nodes) b =
        scan_nodes-core_or_rem (node ∷ nodes) 0 w info.logical_cores (omega arith) (omega arith)
        ∙ ap (λ j. core_or_rem (get_elem? (all_cores (node ∷ nodes)) j) w info.logical_cores)
            (omega arith)

if-some : (b : Bool) (o : Option ℕ) (c : ℕ) → (if b then o else none) ≡ some c → o ≡ some c
if-some true o c e = e
if-some false o c e = absurd (none-ne-some c e)

place-found :
    (info : CpuInfo) (w c : ℕ)
    → place info w ≡ some c
    → get_elem? (all_cores info.numa_nodes) w ≡ some c
unfolding place
place-found info w c e = if-some info.numa_available (get_elem? (all_cores info.numa_nodes) w) c e

-- Logical cores there are, and every node's cores are among them.
abbrev pub IsTopology : CpuInfo → Type 0
IsTopology info =
    (0 < info.logical_cores)
    × All (λ c. c < info.logical_cores) (all_cores info.numa_nodes)
    × (length (all_cores info.numa_nodes) < 2 ^ 64)

-- Where there is a logical core, the nodes' cores are among the logical ones and fewer than 2^64,
-- every worker gets a core, and one of the logical cores.
pub get_core_for_worker-bounded :
    (info : CpuInfo) (w : ℕ)
    → IsTopology info
    → (c : ℕ) × (get_core_for_worker info w ≡ ok c) × (c < info.logical_cores)
get_core_for_worker-bounded info w h =
    let same = get_core_for_worker-core_or_rem info w h.2 in
    elim (Option-cases (place info w)) [
      | inl e ↦ (
        w % info.logical_cores,
        same
            ∙ ap (λ o. core_or_rem o w info.logical_cores) e
            ∙ checked_rem-pos w info.logical_cores h.0,
        mod_lt info.logical_cores w h.0,
      )
      | inr (c, e) ↦ (
        c,
        same ∙ ap (λ o. core_or_rem o w info.logical_cores) e,
        All-get (λ i. i < info.logical_cores) (all_cores info.numa_nodes) w c h.1
            (place-found info w c e),
      )
    ]

-- ===== src/Arch/CpuInfo.antt =====
-- elgate-core/src/arch/cpu_info.rs: the topology of the machine, its detection, and the core of a
-- worker. What the crate num_cpus and the directory of sysfs answer are arguments.
pub mod Workers
pub mod Mock
pub mod Detect
use elgate.Prelude.{
  ℕ, zero, suc, ◌+◌, ◌-◌, ◌/◌, ◌%◌, Bool, true, false, not, ◌&&◌, ◌||◌, List, [], ◌∷◌, ◌++◌, Option,
  some, none, ltb, ◌==◌, if◌then◌else◌, length, get_elem?, IoError, Infallible, Outcome, ok, err,
  panic, fault, ◌>>=◌, checked_add, checked_sub, checked_rem, unwrap,
}
use elgate.Arch.CpuList.{range_from, parse_usize, parse_cpu_list}

pub record NumaNode : Type 0 where
  pub id : ℕ
  pub cores : List ℕ

abbrev pub numa_node : ℕ → List ℕ → NumaNode
numa_node i cs = record { id = i; cores = cs }

unfoldable pub core_count : NumaNode → ℕ
core_count node = length node.cores

pub record CpuInfo : Type 0 where
  pub logical_cores : ℕ
  pub physical_cores : Option ℕ
  pub numa_nodes : List NumaNode
  pub numa_available : Bool

-- The `for` over the nodes, with the cores of the nodes before in `total_cores`.
unfoldable pub scan_nodes : List NumaNode → ℕ → ℕ → ℕ → Outcome Infallible ℕ
scan_nodes [] total_cores worker_idx logical_cores = checked_rem worker_idx logical_cores
scan_nodes (node ∷ nodes) total_cores worker_idx logical_cores =
    checked_add total_cores (core_count node) >>= λ total.
    let rest = scan_nodes nodes total worker_idx logical_cores in
    if ltb worker_idx total
    then (checked_sub total (core_count node) >>= λ before.
        checked_sub worker_idx before >>= λ local_idx.
        checked_rem local_idx (core_count node) >>= λ i. unwrap (get_elem? node.cores i))
    else rest

abbrev pub is_empty : List NumaNode → Bool
is_empty [] = true
is_empty (node ∷ nodes) = false

unfoldable pub get_core_for_worker : CpuInfo → ℕ → Outcome Infallible ℕ
get_core_for_worker info worker_idx =
    if not info.numa_available || is_empty info.numa_nodes
    then checked_rem worker_idx info.logical_cores
    else scan_nodes info.numa_nodes 0 worker_idx info.logical_cores

-- An entry of the directory of nodes: its name, and what reading its file `cpulist` gives, if there
-- is one.
pub record DirEntry : Type 0 where
  pub file_name : List ℕ
  pub cpulist : Option (Outcome IoError (List ℕ))

-- `strip_prefix("node")`
unfoldable pub strip_node : List ℕ → Option (List ℕ)
strip_node (c0 ∷ c1 ∷ c2 ∷ c3 ∷ rest) =
    if c0 == b'n' && c1 == b'o' && c2 == b'd' && c3 == b'e' then some rest else none
strip_node _ = none

-- `trim_start_matches("node")`: every copy of the prefix goes.
unfoldable pub trim_start_node : List ℕ → List ℕ
trim_start_node (c0 ∷ c1 ∷ c2 ∷ c3 ∷ rest) =
    let trimmed = trim_start_node rest in
    if c0 == b'n' && c1 == b'o' && c2 == b'd' && c3 == b'e'
    then trimmed
    else c0 ∷ c1 ∷ c2 ∷ c3 ∷ rest
trim_start_node cs = cs

-- The id in a name that starts with `node`.
abbrev pub id_behind : Option (List ℕ) → List ℕ → Option ℕ
id_behind none name = none
id_behind (some rest) name = parse_usize (trim_start_node name)

unfoldable pub node_id : List ℕ → Option ℕ
node_id name = id_behind (strip_node name) name

-- What one entry adds in front of the nodes `rest` of the entries behind it, by its id and its file
-- `cpulist`; an error ends the detection.
abbrev pub add_node :
    Option ℕ
    → Option (Outcome IoError (List ℕ))
    → Outcome IoError (List NumaNode)
    → Outcome IoError (List NumaNode)
add_node none content rest = rest
add_node (some i) none rest = rest
add_node (some i) (some content) rest =
    content >>= λ text. rest >>= λ nodes. ok (numa_node i (parse_cpu_list text) ∷ nodes)

unfoldable pub read_entry :
    Outcome IoError DirEntry → Outcome IoError (List NumaNode) → Outcome IoError (List NumaNode)
read_entry entry rest = entry >>= λ e. add_node (node_id e.file_name) e.cpulist rest

unfoldable pub read_entries : List (Outcome IoError DirEntry) → Outcome IoError (List NumaNode)
read_entries [] = ok []
read_entries (entry ∷ entries) = read_entry entry (read_entries entries)

-- `detect_numa_linux` on the answer of `read_dir`, `none` where the directory does not exist.
unfoldable pub detect_numa_linux :
    Option (Outcome IoError (List (Outcome IoError DirEntry))) → Outcome IoError (List NumaNode)
detect_numa_linux none = ok []
detect_numa_linux (some dir) = dir >>= read_entries

abbrev pub fallback_nodes : ℕ → List NumaNode × Bool
fallback_nodes logical_cores = (numa_node 0 (range_from 0 logical_cores) ∷ [], false)

unfoldable pub detect_numa_nodes : Outcome IoError (List NumaNode) → ℕ → List NumaNode × Bool
detect_numa_nodes (ok (node ∷ nodes)) logical_cores = (node ∷ nodes, true)
detect_numa_nodes (ok []) logical_cores = fallback_nodes logical_cores
detect_numa_nodes (err e) logical_cores = fallback_nodes logical_cores
detect_numa_nodes panic logical_cores = fallback_nodes logical_cores
detect_numa_nodes fault logical_cores = fallback_nodes logical_cores

-- `detect`, on the two answers of num_cpus and the directory of nodes.
unfoldable pub detect : ℕ → ℕ → Option (Outcome IoError (List (Outcome IoError DirEntry))) → CpuInfo
detect logical physical dir =
    let found = detect_numa_nodes (detect_numa_linux dir) logical in
    record {
      logical_cores = logical;
      physical_cores = if ltb 0 physical then some physical else none;
      numa_nodes = found.0;
      numa_available = found.1;
    }

-- The `for` of `mock`, with `count` nodes to go.
unfoldable pub mock_nodes : ℕ → ℕ → ℕ → ℕ → ℕ → List NumaNode
mock_nodes zero node_id cores_per_node remaining_cores core_idx = []
mock_nodes (suc count) node_id cores_per_node remaining_cores core_idx =
    let extra_core = if ltb 0 remaining_cores then 1 else 0 in
    let node_core_count = cores_per_node + extra_core in
    numa_node node_id (range_from core_idx node_core_count)
    ∷ mock_nodes count (node_id + 1) cores_per_node (remaining_cores - 1)
        (core_idx + node_core_count)

unfoldable pub mock : ℕ → ℕ → CpuInfo
mock logical numa_nodes_count = record {
  logical_cores = logical;
  physical_cores = some (logical / 2);
  numa_nodes =
      if ltb 0 numa_nodes_count
      then mock_nodes numa_nodes_count 0 (logical / numa_nodes_count) (logical % numa_nodes_count) 0
      else numa_node 0 (range_from 0 logical) ∷ [];
  numa_available = ltb 0 numa_nodes_count;
}

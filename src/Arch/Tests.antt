-- ===== src/Arch/Tests.antt =====
-- The topology, the modes and the threads at concrete inputs.
use elgate.Prelude.{ℕ, ◌≡◌, refl, true, List, [], ◌∷◌, map, some, none, arith, length, All, ok}
use elgate.Arch.CpuList.{is_whitespace, parse_cpu_list}
use elgate.Arch.CpuList.Text.{IsBlank}
use elgate.Arch.CpuList.Grammar.{
  Number, IsNumber, Item, single, span, render, listed_cores, parse_cpu_list-render,
}
use elgate.Arch.CpuInfo.{numa_node, CpuInfo, get_core_for_worker, strip_node, detect}
use elgate.Arch.CpuInfo.Workers.{core_or_rem, place, IsTopology, get_core_for_worker-core_or_rem}
use elgate.Arch.CpuInfo.Detect.{
  Listing, node, other, IsListing, entry_of, listed_nodes, detect-listed,
}
use elgate.Arch.RuntimeMode.{
  pinned_sharded, select_for_system, worker_count, is_numa_aware, supports_pinning,
}
use elgate.Arch.RuntimeMode.Selected.{select_for_system-worker_count}
use elgate.Arch.ThreadBuilder.{CoreAffinity, WorkerThread, new_builder}
use elgate.Arch.ThreadBuilder.Workers.{build_each, IsAssigned, build_each-IsAssigned}

-- "0-2,4\n"
abbrev zero_number : Number
zero_number = record { head = b'0'; rest = [] }

abbrev two_number : Number
two_number = record { head = b'2'; rest = [] }

abbrev twelve_number : Number
twelve_number = record { head = b'1'; rest = b'2' ∷ [] }

abbrev two_items : List Item
two_items = span zero_number two_number ∷ single twelve_number ∷ []

abbrev number_zero : IsNumber zero_number
number_zero = (((omega arith, omega arith), tt), omega arith)

abbrev number_two : IsNumber two_number
number_two = (((omega arith, omega arith), tt), omega arith)

abbrev number_twelve : IsNumber twelve_number
number_twelve = (((omega arith, omega arith), ((omega arith, omega arith), tt)), omega arith)

abbrev newline : List ℕ
newline = 10 ∷ []

newline-IsBlank : All IsBlank newline
unfolding is_whitespace
newline-IsBlank = (refl, tt)

parse_cpu_list-render_example : parse_cpu_list (render two_items newline) ≡ listed_cores two_items
parse_cpu_list-render_example =
    parse_cpu_list-render two_items newline ((number_zero, number_two), (number_twelve, tt))
      newline-IsBlank

listed_two : listed_cores two_items ≡ 0 ∷ 1 ∷ 2 ∷ 12 ∷ []
listed_two = refl

-- Five cores on two nodes, with ids of their own.
abbrev five : CpuInfo
five = record {
  logical_cores = 5;
  physical_cores = none;
  numa_nodes = numa_node 0 (0 ∷ 2 ∷ 4 ∷ []) ∷ numa_node 1 (1 ∷ 3 ∷ []) ∷ [];
  numa_available = true;
}

five-IsTopology : IsTopology five
five-IsTopology = (
  omega arith,
  (omega arith, (omega arith, (omega arith, (omega arith, (omega arith, tt))))),
  omega arith,
)

get_core_for_worker-core_or_rem_example :
    get_core_for_worker five 3 ≡ core_or_rem (place five 3) 3 5
get_core_for_worker-core_or_rem_example = get_core_for_worker-core_or_rem five 3 (omega arith)

abbrev possible : Listing
possible = other (b'p' ∷ b'o' ∷ b's' ∷ b's' ∷ []) none

abbrev node_two : Listing
node_two = node two_number two_items newline

possible-IsListing : IsListing possible
unfolding strip_node
possible-IsListing = refl

node_two-IsListing : IsListing node_two
node_two-IsListing = (number_two, ((number_zero, number_two), (number_twelve, tt)), newline-IsBlank)

detect-listed_example :
    let info = detect 13 0 (some (ok (map entry_of (node_two ∷ possible ∷ [])))) in
    (info.numa_nodes ≡ listed_nodes (node_two ∷ possible ∷ [])) × (info.numa_available ≡ true)
detect-listed_example =
    detect-listed 13 0 two_number two_items newline (possible ∷ []) node_two-IsListing
      (possible-IsListing, tt)

select_for_system-worker_count_example :
    let mode = select_for_system five in
    (worker_count mode ≡ 4) × (supports_pinning mode ≡ true) × (is_numa_aware mode ≡ true)
select_for_system-worker_count_example = select_for_system-worker_count five

-- A process that may use the cores 4 and 6 only.
abbrev restricted : CoreAffinity
restricted = record { get_core_ids = some (4 ∷ 6 ∷ []); set_for_current = λ core. true }

build_each-IsAssigned_example :
    (ws : List WorkerThread) × (build_each 4 (new_builder (pinned_sharded 4 true) five)
      ≡ ok (ws, record { mode = pinned_sharded 4 true; cpu_info = five; worker_idx = 4 }))
    × (length ws ≡ 4)
    × IsAssigned five 0 ws
build_each-IsAssigned_example = build_each-IsAssigned 4 true five 4 five-IsTopology (omega arith)

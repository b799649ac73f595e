-- ===== src/Arch/CpuInfo/Detect.antt =====
-- The detection of nodes of elgate-core/src/arch/cpu_info.rs, on the directories of the kernel.
use elgate.Prelude.{
  ℕ, ◌%◌, ◌<◌, ◌≡◌, refl, ap, ◌∙◌, true, false, List, [], ◌∷◌, ◌++◌, map, Option, some, none, arith,
  ne→==, All, IoError, Outcome, ok, err, checked_rem-pos,
}
use elgate.Arch.CpuList.{parse_usize}
use elgate.Arch.CpuList.Text.{IsBlank, IsDigit, parse_usize-value}
use elgate.Arch.CpuList.Grammar.{
  Number, text, value, IsNumber, Item, IsItem, render, listed_cores, parse_cpu_list-render,
}
use elgate.Arch.CpuInfo.{
  NumaNode, numa_node, get_core_for_worker, DirEntry, strip_node, trim_start_node, node_id,
  read_entry, read_entries, detect_numa_linux, detect_numa_nodes, detect,
}

-- An entry that the kernel makes for a node, or another name with any content.
pub data Listing : Type 0 where
  node : Number → List Item → List ℕ → Listing
  other : List ℕ → Option (Outcome IoError (List ℕ)) → Listing

abbrev pub entry_of : Listing → Outcome IoError DirEntry
entry_of (node n items w) = ok (record {
  file_name = b'n' ∷ b'o' ∷ b'd' ∷ b'e' ∷ text n;
  cpulist = some (ok (render items w));
})
entry_of (other name content) = ok (record { file_name = name; cpulist = content })

abbrev pub IsListing : Listing → Type 0
IsListing (node n items w) = IsNumber n × All IsItem items × All IsBlank w
IsListing (other name content) = strip_node name ≡ none

abbrev pub listed_nodes : List Listing → List NumaNode
listed_nodes [] = []
listed_nodes (node n items w ∷ ls) = numa_node (value n) (listed_cores items) ∷ listed_nodes ls
listed_nodes (other name content ∷ ls) = listed_nodes ls

-- Digits hold no prefix to strip.
trim_start_node-digits : (cs : List ℕ) → All IsDigit cs → trim_start_node cs ≡ cs
unfolding trim_start_node
trim_start_node-digits [] h = refl
trim_start_node-digits (a ∷ []) h = refl
trim_start_node-digits (a ∷ b ∷ []) h = refl
trim_start_node-digits (a ∷ b ∷ c ∷ []) h = refl
trim_start_node-digits (a ∷ b ∷ c ∷ d ∷ cs) h =
    rw (ne→== a b'n' (λ same. absurd (omega (arith, h.0, same))))

node_id-value :
    (n : Number) → IsNumber n → node_id (b'n' ∷ b'o' ∷ b'd' ∷ b'e' ∷ text n) ≡ some (value n)
unfolding node_id strip_node trim_start_node
node_id-value n h =
    ap parse_usize (trim_start_node-digits (text n) h.0) ∙ parse_usize-value n.head n.rest h.0 h.1

other-node_id : (name : List ℕ) → strip_node name ≡ none → node_id name ≡ none
unfolding node_id
other-node_id name h = rw h

read_entries-listed :
    (ls : List Listing) → All IsListing ls → read_entries (map entry_of ls) ≡ ok (listed_nodes ls)
unfolding read_entries read_entry
read_entries-listed [] h = refl
read_entries-listed (node n items w ∷ ls) h =
    rw (node_id-value n h.0.0, read_entries-listed ls h.1)
      (ap (λ cs. ok (numa_node (value n) cs ∷ listed_nodes ls))
        (parse_cpu_list-render items w h.0.1 h.0.2))
read_entries-listed (other name content ∷ ls) h =
    rw (other-node_id name h.0) (read_entries-listed ls h.1)

-- On a directory whose entries are node<id> with a CPU list of numbers and ranges, the first one
-- such, and names that do not start with node, detect has the nodes with the ids and cores that
-- the entries name, in their order, and says that they are available.
pub detect-listed :
    (logical physical : ℕ) (n : Number) (items : List Item) (w : List ℕ) (ls : List Listing)
    → IsListing (node n items w)
    → All IsListing ls
    → let info = detect logical physical (some (ok (map entry_of (node n items w ∷ ls)))) in
      (info.numa_nodes ≡ listed_nodes (node n items w ∷ ls)) × (info.numa_available ≡ true)
unfolding detect detect_numa_linux detect_numa_nodes
detect-listed logical physical n items w ls h hs =
    rw (read_entries-listed (node n items w ∷ ls) (h, hs)) (refl, refl)

read_entries-append_err :
    (ls : List Listing) (e : IoError) (rest : List (Outcome IoError DirEntry))
    → All IsListing ls
    → read_entries (map entry_of ls ++ (err e ∷ rest)) ≡ err e
unfolding read_entries read_entry
read_entries-append_err [] e rest h = refl
read_entries-append_err (node n items w ∷ ls) e rest h =
    rw (node_id-value n h.0.0, read_entries-append_err ls e rest h.1)
read_entries-append_err (other name content ∷ ls) e rest h =
    rw (other-node_id name h.0) (read_entries-append_err ls e rest h.1)

-- An entry that cannot be read, behind such entries, loses the nodes that were read before it:
-- detect then says that no topology is available, and worker v gets core v modulo the logical
-- cores, of which there is one at least.
pub detect_unreadable :
    (logical physical : ℕ) (ls : List Listing) (e : IoError)
    (rest : List (Outcome IoError DirEntry)) (v : ℕ)
    → All IsListing ls
    → 0 < logical
    → let info = detect logical physical (some (ok (map entry_of ls ++ (err e ∷ rest)))) in
      (info.numa_available ≡ false) × (get_core_for_worker info v ≡ ok (v % logical))
unfolding detect detect_numa_linux detect_numa_nodes get_core_for_worker
detect_unreadable logical physical ls e rest v h p =
    rw (read_entries-append_err ls e rest h) (refl, checked_rem-pos v logical p)

-- ===== src/Arch/CpuList.antt =====
-- `parse_cpu_list` of elgate-core/src/arch/cpu_info.rs, with what it uses of `str` and `usize`. A
-- text is the list of its code points.
pub mod Text
pub mod Grammar
use elgate.Prelude.{
  ℕ, zero, suc, ◌+◌, ◌-◌, ◌*◌, ◌^◌, Bool, true, false, ◌&&◌, ◌||◌, List, [], ◌∷◌, ◌++◌, Option,
  some, none, ltb, leb, ◌==◌, if◌then◌else◌,
}
use mathlib.Core.List.{reverse}

-- `c` in front of the first of the pieces.
abbrev pub extend_first : ℕ → List (List ℕ) → List (List ℕ)
extend_first c [] = (c ∷ []) ∷ []
extend_first c (piece ∷ pieces) = (c ∷ piece) ∷ pieces

-- `split(sep)`: the pieces between separators, one more than there are separators.
unfoldable pub split : ℕ → List ℕ → List (List ℕ)
split sep [] = [] ∷ []
split sep (c ∷ cs) = let rest = split sep cs in if c == sep then [] ∷ rest else extend_first c rest

-- `contains(c)`
unfoldable pub contains : ℕ → List ℕ → Bool
contains sep [] = false
contains sep (c ∷ cs) = c == sep || contains sep cs

-- `char::is_whitespace`
unfoldable pub is_whitespace : ℕ → Bool
is_whitespace c =
    (leb 9 c && leb c 13)
    || c == 0x20
    || c == 0x85
    || c == 0xa0
    || c == 0x1680
    || (leb 0x2000 c && leb c 0x200a)
    || c == 0x2028
    || c == 0x2029
    || c == 0x202f
    || c == 0x205f
    || c == 0x3000

unfoldable pub trim_start : List ℕ → List ℕ
trim_start [] = []
trim_start (c ∷ cs) = let rest = trim_start cs in if is_whitespace c then rest else c ∷ cs

-- `trim`
unfoldable pub trim : List ℕ → List ℕ
trim cs = reverse (trim_start (reverse (trim_start cs)))

-- The digits of `parse::<usize>` after `acc`; `none` at another character or beyond 2 ^ 64 - 1.
unfoldable pub parse_digits : ℕ → List ℕ → Option ℕ
parse_digits acc [] = some acc
parse_digits acc (c ∷ cs) =
    let next = acc * 10 + (c - b'0') in
    let rest = parse_digits next cs in
    if leb b'0' c && leb c b'9' && ltb next (2 ^ 64) then rest else none

-- `parse::<usize>`: a sign `+` may stand in front of one digit at least.
unfoldable pub parse_usize : List ℕ → Option ℕ
parse_usize [] = none
parse_usize (c ∷ []) = parse_digits 0 (c ∷ [])
parse_usize (c ∷ d ∷ cs) =
    if c == b'+' then parse_digits 0 (d ∷ cs) else parse_digits 0 (c ∷ d ∷ cs)

-- The numbers from `first` on, `count` of them.
abbrev pub range_from : ℕ → ℕ → List ℕ
range_from first zero = []
range_from first (suc count) = first ∷ range_from (first + 1) count

-- `start..=end`
abbrev pub inclusive : ℕ → ℕ → List ℕ
inclusive start end = range_from start (end + 1 - start)

-- The two ends of a range, if both are numbers.
abbrev pub cores_between : Option ℕ → Option ℕ → List ℕ
cores_between (some start) (some end) = inclusive start end
cores_between (some start) none = []
cores_between none end = []

-- A part with a dash, from its pieces.
abbrev pub range_cores : List (List ℕ) → List ℕ
range_cores (a ∷ b ∷ []) = cores_between (parse_usize (trim a)) (parse_usize (trim b))
range_cores _ = []

abbrev pub single_core : Option ℕ → List ℕ
single_core (some core) = core ∷ []
single_core none = []

-- What one part between commas adds to the list.
unfoldable pub part_cores : List ℕ → List ℕ
part_cores part =
    if contains b'-' part
    then range_cores (split b'-' part)
    else single_core (parse_usize (trim part))

unfoldable pub all_parts : List (List ℕ) → List ℕ
all_parts [] = []
all_parts (part ∷ parts) = part_cores part ++ all_parts parts

unfoldable pub parse_cpu_list : List ℕ → List ℕ
parse_cpu_list cpulist = all_parts (split b',' cpulist)

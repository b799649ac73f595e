-- ===== src/Arch/CpuList/Grammar.antt =====
-- The CPU lists of the kernel, and what `parse_cpu_list` makes of them.
use elgate.Prelude.{
  ℕ, ◌^◌, ◌<◌, ◌≡◌, sym, ap, ap₂, ◌∙◌, List, [], ◌∷◌, ◌++◌, some, arith, All, All-append, All-map,
}
use mathlib.Core.List.{append-nil, append_assoc}
use elgate.Arch.CpuList.{
  split, trim, parse_usize, inclusive, cores_between, single_core, part_cores, all_parts,
  parse_cpu_list,
}
use elgate.Arch.CpuList.Text.{
  IsNot, IsBlank, IsSolid, IsDigit, split-one, split-append, contains-none, contains-append,
  trim-solid, trim-blank, value_from, parse_usize-value, IsDigit-IsSolid, IsDigit-IsNot_comma,
  IsDigit-IsNot_dash, IsBlank-IsNot_comma, IsBlank-IsNot_dash,
}

-- A number written in digits, the first one apart.
pub record Number : Type 0 where
  pub head : ℕ
  pub rest : List ℕ

abbrev pub text : Number → List ℕ
text n = n.head ∷ n.rest

abbrev pub value : Number → ℕ
value n = value_from 0 (text n)

-- Digits that stand for a `usize`.
abbrev pub IsNumber : Number → Type 0
IsNumber n = All IsDigit (text n) × (value n < 2 ^ 64)

pub data Item : Type 0 where
  single : Number → Item
  span : Number → Number → Item

abbrev pub item_text : Item → List ℕ
item_text (single n) = text n
item_text (span a b) = text a ++ (b'-' ∷ text b)

abbrev pub item_cores : Item → List ℕ
item_cores (single n) = value n ∷ []
item_cores (span a b) = inclusive (value a) (value b)

abbrev pub IsItem : Item → Type 0
IsItem (single n) = IsNumber n
IsItem (span a b) = IsNumber a × IsNumber b

-- The items between commas, then `w`.
abbrev pub render : List Item → List ℕ → List ℕ
render [] w = w
render (i ∷ []) w = item_text i ++ w
render (i ∷ j ∷ is) w = item_text i ++ (b',' ∷ render (j ∷ is) w)

abbrev pub listed_cores : List Item → List ℕ
listed_cores [] = []
listed_cores (i ∷ is) = item_cores i ++ listed_cores is

number-IsNot_comma : (n : Number) → IsNumber n → All (IsNot b',') (text n)
number-IsNot_comma n h = All-map IsDigit (IsNot b',') IsDigit-IsNot_comma (text n) h.0

number-IsNot_dash : (n : Number) → IsNumber n → All (IsNot b'-') (text n)
number-IsNot_dash n h = All-map IsDigit (IsNot b'-') IsDigit-IsNot_dash (text n) h.0

-- A number with blanks behind it is read as its value.
number-read :
    (n : Number) (w : List ℕ)
    → IsNumber n
    → All IsBlank w
    → parse_usize (trim (text n ++ w)) ≡ some (value n)
number-read n w h hw =
    ap parse_usize
      (trim-solid n.head n.rest w (All-map IsDigit IsSolid IsDigit-IsSolid (text n) h.0) hw)
    ∙ parse_usize-value n.head n.rest h.0 h.1

item-IsNot_comma : (i : Item) → IsItem i → All (IsNot b',') (item_text i)
item-IsNot_comma (single n) h = number-IsNot_comma n h
item-IsNot_comma (span a b) h =
    All-append (IsNot b',') (text a) (b'-' ∷ text b) (number-IsNot_comma a h.0)
      ((λ same. absurd (omega (arith, same))), number-IsNot_comma b h.1)

-- Blanks hold no separator.
number_blank-IsNot_dash :
    (n : Number) (w : List ℕ) → IsNumber n → All IsBlank w → All (IsNot b'-') (text n ++ w)
number_blank-IsNot_dash n w h hw =
    All-append (IsNot b'-') (text n) w (number-IsNot_dash n h)
      (All-map IsBlank (IsNot b'-') IsBlank-IsNot_dash w hw)

-- The pieces of a range are its ends.
span-split :
    (a b : Number) (w : List ℕ)
    → IsNumber a
    → IsNumber b
    → All IsBlank w
    → split b'-' (text a ++ (b'-' ∷ (text b ++ w))) ≡ text a ∷ (text b ++ w) ∷ []
span-split a b w ha hb hw =
    split-append b'-' (text a) (text b ++ w) (number-IsNot_dash a ha)
    ∙ ap (◌∷◌ (text a)) (split-one b'-' (text b ++ w) (number_blank-IsNot_dash b w hb hw))

-- A number alone.
number-read_alone : (n : Number) → IsNumber n → parse_usize (trim (text n)) ≡ some (value n)
number-read_alone n h =
    ap (λ t. parse_usize (trim t)) (sym (append-nil (text n))) ∙ number-read n [] h tt

span-part_cores :
    (a b : Number) (w : List ℕ)
    → IsNumber a
    → IsNumber b
    → All IsBlank w
    → part_cores (text a ++ (b'-' ∷ (text b ++ w))) ≡ inclusive (value a) (value b)
unfolding part_cores
span-part_cores a b w ha hb hw =
    rw (contains-append b'-' (text a) (text b ++ w), span-split a b w ha hb hw)
      (ap₂ cores_between (number-read_alone a ha) (number-read b w hb hw))

-- An item with blanks behind it gives its cores.
item-part_cores :
    (i : Item) (w : List ℕ)
    → IsItem i
    → All IsBlank w
    → part_cores (item_text i ++ w) ≡ item_cores i
unfolding part_cores
item-part_cores (single n) w h hw =
    rw (contains-none b'-' (text n ++ w) (number_blank-IsNot_dash n w h hw))
      (ap single_core (number-read n w h hw))
item-part_cores (span a b) w h hw =
    ap part_cores (append_assoc (text a) (b'-' ∷ text b) w) ∙ span-part_cores a b w h.0 h.1 hw

blank-part_cores : (w : List ℕ) → All IsBlank w → part_cores w ≡ []
unfolding part_cores parse_usize
blank-part_cores w hw =
    rw
      (contains-none b'-' w (All-map IsBlank (IsNot b'-') IsBlank-IsNot_dash w hw), trim-blank w hw)

-- parse_cpu_list reads a list of numbers and ranges between commas, with blanks at its end, as the
-- numbers and the ranges one after the other, where every number fits a usize.
pub parse_cpu_list-render :
    (items : List Item) (w : List ℕ)
    → All IsItem items
    → All IsBlank w
    → parse_cpu_list (render items w) ≡ listed_cores items
unfolding parse_cpu_list all_parts
parse_cpu_list-render [] w h hw =
    rw (split-one b',' w (All-map IsBlank (IsNot b',') IsBlank-IsNot_comma w hw))
      (ap (λ t. t ++ []) (blank-part_cores w hw))
parse_cpu_list-render (i ∷ []) w h hw =
    rw
      (split-one b',' (item_text i ++ w) (
        All-append (IsNot b',') (item_text i) w (item-IsNot_comma i h.0)
          (All-map IsBlank (IsNot b',') IsBlank-IsNot_comma w hw)))
      (ap (λ t. t ++ []) (item-part_cores i w h.0 hw))
parse_cpu_list-render (i ∷ j ∷ is) w h hw =
    rw (split-append b',' (item_text i) (render (j ∷ is) w) (item-IsNot_comma i h.0)) (
      ap₂ (λ u v. u ++ v)
        (ap part_cores (sym (append-nil (item_text i))) ∙ item-part_cores i [] h.0 tt)
        (parse_cpu_list-render (j ∷ is) w h.1 hw))

-- ===== src/Arch/CpuList/Text.antt =====
-- `split`, `trim` and `parse::<usize>` on the texts that a CPU list is made of.
use mathlib.Core.List.{reverse, reverse-append, reverse-reverse}
use elgate.Prelude.{
  ℕ, ◌+◌, ◌-◌, ◌*◌, ◌^◌, ◌≤◌, ◌<◌, ◌≡◌, ◌≢◌, refl, ap, ◌∙◌, true, false, List, [], ◌∷◌, ◌++◌, some,
  arith, leb, ne→==, eq→==, lt→ltb, All, All-reverse,
}
use elgate.Arch.CpuList.{
  split, contains, is_whitespace, trim_start, trim, parse_digits, parse_usize,
}

abbrev pub IsNot : ℕ → ℕ → Type 0
IsNot sep c = c ≢ sep

abbrev pub IsBlank : ℕ → Type 0
IsBlank c = is_whitespace c ≡ true

abbrev pub IsSolid : ℕ → Type 0
IsSolid c = is_whitespace c ≡ false

abbrev pub IsDigit : ℕ → Type 0
IsDigit c = (b'0' ≤ c) × (c ≤ b'9')

pub split-one : (sep : ℕ) (xs : List ℕ) → All (IsNot sep) xs → split sep xs ≡ xs ∷ []
unfolding split
split-one sep [] h = refl
split-one sep (x ∷ xs) h = rw (ne→== x sep h.0, split-one sep xs h.1)

pub split-append :
    (sep : ℕ) (xs ys : List ℕ)
    → All (IsNot sep) xs
    → split sep (xs ++ (sep ∷ ys)) ≡ xs ∷ split sep ys
unfolding split
split-append sep [] ys h = rw (eq→== sep sep refl)
split-append sep (x ∷ xs) ys h = rw (ne→== x sep h.0, split-append sep xs ys h.1)

pub contains-none : (sep : ℕ) (xs : List ℕ) → All (IsNot sep) xs → contains sep xs ≡ false
unfolding contains
contains-none sep [] h = refl
contains-none sep (x ∷ xs) h = rw (ne→== x sep h.0, contains-none sep xs h.1)

pub contains-append : (sep : ℕ) (xs ys : List ℕ) → contains sep (xs ++ (sep ∷ ys)) ≡ true
unfolding contains
contains-append sep [] ys = rw (eq→== sep sep refl)
contains-append sep (x ∷ xs) ys = ground (arith, contains-append sep xs ys)

trim_start-blank : (xs ys : List ℕ) → All IsBlank xs → trim_start (xs ++ ys) ≡ trim_start ys
unfolding trim_start
trim_start-blank [] ys h = refl
trim_start-blank (x ∷ xs) ys h = rw h.0 (trim_start-blank xs ys h.1)

trim_start-solid : (xs : List ℕ) → All IsSolid xs → trim_start xs ≡ xs
unfolding trim_start
trim_start-solid [] h = refl
trim_start-solid (x ∷ xs) h = rw h.0

trim_start-solid_cons : (x : ℕ) (xs : List ℕ) → IsSolid x → trim_start (x ∷ xs) ≡ x ∷ xs
unfolding trim_start
trim_start-solid_cons x xs h = rw h

pub trim-solid :
    (x : ℕ) (xs w : List ℕ) → All IsSolid (x ∷ xs) → All IsBlank w → trim (x ∷ (xs ++ w)) ≡ x ∷ xs
unfolding trim
trim-solid x xs w h hw =
    ap (λ t. reverse (trim_start (reverse t))) (trim_start-solid_cons x (xs ++ w) h.0)
    ∙ ap (λ t. reverse (trim_start t)) (reverse-append (x ∷ xs) w)
    ∙ ap reverse (trim_start-blank (reverse w) (reverse (x ∷ xs)) (All-reverse IsBlank w hw))
    ∙ ap reverse (trim_start-solid (reverse (x ∷ xs)) (All-reverse IsSolid (x ∷ xs) h))
    ∙ reverse-reverse (x ∷ xs)

trim_start-nil_of_blank : (w : List ℕ) → All IsBlank w → trim_start w ≡ []
unfolding trim_start
trim_start-nil_of_blank [] h = refl
trim_start-nil_of_blank (x ∷ w) h = rw h.0 (trim_start-nil_of_blank w h.1)

pub trim-blank : (w : List ℕ) → All IsBlank w → trim w ≡ []
unfolding trim trim_start
trim-blank w h = rw (trim_start-nil_of_blank w h)

-- The number that digits stand for, behind the digits of `acc`.
abbrev pub value_from : ℕ → List ℕ → ℕ
value_from acc [] = acc
value_from acc (d ∷ ds) = value_from (acc * 10 + (d - b'0')) ds

value_from-ge : (acc : ℕ) (ds : List ℕ) → acc ≤ value_from acc ds
value_from-ge acc [] = omega arith
value_from-ge acc (d ∷ ds) = omega (arith, value_from-ge (acc * 10 + (d - b'0')) ds)

parse_digits-value :
    (acc : ℕ) (ds : List ℕ)
    → All IsDigit ds
    → value_from acc ds < 2 ^ 64
    → parse_digits acc ds ≡ some (value_from acc ds)
unfolding parse_digits
parse_digits-value acc [] h b = refl
parse_digits-value acc (d ∷ ds) h b =
    let low : leb b'0' d ≡ true = ground arith in
    let high : leb d b'9' ≡ true = ground arith in
    rw
      (
        low,
        high,
        lt→ltb (acc * 10 + (d - b'0')) (2 ^ 64)
            (omega (arith, value_from-ge (acc * 10 + (d - b'0')) ds)),
      )
      (parse_digits-value (acc * 10 + (d - b'0')) ds h.1 b)

pub parse_usize-value :
    (d : ℕ) (ds : List ℕ)
    → All IsDigit (d ∷ ds)
    → value_from 0 (d ∷ ds) < 2 ^ 64
    → parse_usize (d ∷ ds) ≡ some (value_from 0 (d ∷ ds))
unfolding parse_usize
parse_usize-value d [] h b = parse_digits-value 0 (d ∷ []) h b
parse_usize-value d (e ∷ ds) h b =
    rw (ne→== d b'+' (λ same. absurd (omega (arith, h.0, same))))
      (parse_digits-value 0 (d ∷ e ∷ ds) h b)

pub IsDigit-IsSolid : (c : ℕ) → IsDigit c → IsSolid c
unfolding is_whitespace
IsDigit-IsSolid c h = ground arith

pub IsDigit-IsNot_comma : (c : ℕ) → IsDigit c → IsNot b',' c
IsDigit-IsNot_comma c h same = absurd (omega (arith, h, same))

pub IsDigit-IsNot_dash : (c : ℕ) → IsDigit c → IsNot b'-' c
IsDigit-IsNot_dash c h same = absurd (omega (arith, h, same))

pub IsBlank-IsNot_comma : (c : ℕ) → IsBlank c → IsNot b',' c
unfolding is_whitespace
IsBlank-IsNot_comma c h same = ground arith

pub IsBlank-IsNot_dash : (c : ℕ) → IsBlank c → IsNot b'-' c
unfolding is_whitespace
IsBlank-IsNot_dash c h same = ground arith

-- ===== src/Prelude/Results.antt =====
-- What a call of the Rust code comes to. Arithmetic is that of the development profile, where an
-- overflow, a division by zero and a failed `assert!` are panics.
use Prim.Native.Nat.{ℕ, ◌+◌, ◌-◌, ◌/◌, ◌%◌, ◌^◌, ◌≤◌, ◌<◌}
use mathlib.Core.Path.{◌≡◌}
use native.Mathlib.Omega.{arith}
use mathlib.Core.Option.{Option, none, some}
use elgate.Prelude.Tests.{ltb, ◌==◌, if◌then◌else◌, lt→ltb, le→ltb, ne→==}

-- `fault` is an access outside the mapping: what Rust calls undefined behaviour.
pub data Outcome {ℓ} (E : Type 0) (A : Type ℓ) : Type ℓ where
  ok : A → Outcome E A
  err : E → Outcome E A
  panic : Outcome E A
  fault : Outcome E A

module _ {E : Type 0} where
  infixl 5 ◌>>=◌ ◌>>◌
  abbrev pub ◌>>=◌ {ℓ κ} : {A : Type ℓ} {B : Type κ} → Outcome E A → (A → Outcome E B) → Outcome E B
  ok a >>= f = f a
  err e >>= f = err e
  panic >>= f = panic
  fault >>= f = fault

  abbrev pub ◌>>◌ {ℓ} : {B : Type ℓ} → Outcome E (Unit {0}) → Outcome E B → Outcome E B
  m >> k = m >>= λ _. k

  -- `a - b`, `a + b` and `a / b` on `usize`.
  abbrev pub checked_sub : ℕ → ℕ → Outcome E ℕ
  checked_sub a b = if ltb a b then panic else ok (a - b)

  abbrev pub checked_add : ℕ → ℕ → Outcome E ℕ
  checked_add a b = if ltb (a + b) (2 ^ 64) then ok (a + b) else panic

  abbrev pub checked_div : ℕ → ℕ → Outcome E ℕ
  checked_div a b = if b == 0 then panic else ok (a / b)

  -- `a % b` on `usize`.
  abbrev pub checked_rem : ℕ → ℕ → Outcome E ℕ
  checked_rem a b = if b == 0 then panic else ok (a % b)

  -- `o.unwrap()`, and `xs[i]` as the `unwrap` of `xs.get(i)`.
  abbrev pub unwrap {ℓ} : {A : Type ℓ} → Option A → Outcome E A
  unwrap (some a) = ok a
  unwrap none = panic

  pub checked_add-fits : (a b : ℕ) → a + b < 2 ^ 64 → checked_add a b ≡ ok (a + b)
  checked_add-fits a b h = rw (lt→ltb (a + b) (2 ^ 64) h)

  pub checked_sub-le : (a b : ℕ) → b ≤ a → checked_sub a b ≡ ok (a - b)
  checked_sub-le a b h = rw (le→ltb a b h)

  pub checked_rem-pos : (a b : ℕ) → 0 < b → checked_rem a b ≡ ok (a % b)
  checked_rem-pos a b h = rw (ne→== b 0 (λ e. absurd (omega (arith, h, e))))

-- The error of a call that has none.
abbrev pub Infallible : Type 0
Infallible = ⊥

-- An error of the operating system, by its number.
pub data IoError : Type 0 where
  io_error : ℕ → IoError

-- The answer of a call of the operating system.
pub data IoResult {ℓ} (A : Type ℓ) : Type ℓ where
  io_ok : A → IoResult A
  io_err : IoError → IoResult A

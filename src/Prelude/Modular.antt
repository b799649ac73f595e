-- ===== src/Prelude/Modular.antt =====
-- Positions on a ring of `n` places, by addition modulo `n`.
use Prim.Native.Nat.{ℕ, suc, ◌+◌, ◌-◌, ◌%◌, ◌<◌}
use mathlib.Core.Path.{◌≡◌, ap}
use mathlib.Core.Logic.{◌≢◌}
use native.Mathlib.Decide.{dec_lt}
use native.Mathlib.Nat.{mod-add-mod, mod-eq_of_lt, mod-eq-sub-mod}
use native.Mathlib.Omega.{arith}

-- One step round the ring, with the wrap written out.
pub mod-add_step : (n h k : ℕ) → ((h + 1) % n + k) % n ≡ (h + suc k) % n
mod-add_step n h k = rw mod-add-mod (ap (λ t. t % n) (omega arith))

-- Fewer than `n` steps round the ring do not come back to the start.
pub add-mod-ne : (n h k : ℕ) → h < n → 0 < k → k < n → (h + k) % n ≢ h
add-mod-ne n h k hh hp hk = elim (dec_lt (h + k) n) [
  | yes p ↦ omega (arith, mod-eq_of_lt p)
  | no p ↦ omega (
    arith,
    mod-eq-sub-mod {n = h + k} {m = n} (omega arith),
    mod-eq_of_lt {n = h + k - n} {m = n} (omega arith),
  )
]

-- Going `k` steps and `n - k` more is once round.
pub add-mod_round : (n h : ℕ) → h < n → (h + n) % n ≡ h
add-mod_round n h hh = grind arith

pub mod_lt : (n h : ℕ) → 0 < n → h % n < n
mod_lt n h p = grind arith

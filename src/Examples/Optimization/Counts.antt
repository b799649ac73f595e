-- ===== src/Examples/Optimization/Counts.antt =====
-- The counts of the writers of run_benchmark in elgate-core/examples/numa_optimization.rs.
use elgate.Prelude.{
  ℕ, zero, suc, ◌+◌, ◌*◌, ◌≤◌, ◌<◌, ◌≡◌, refl, sym, ap, ◌∙◌, Bool, true, false, List, [], ◌∷◌, some,
  All, Bool-cases, inl, inr, ltb→lt, arith, get_elem?, set, Outcome, ok, err, panic, fault, length,
}
use mathlib.Core.Bool.{true≢false}
use mathlib.Core.Option.{none-ne-some, some-injective}
use elgate.Ring.Slot.{custom}
use elgate.Ring.Memory.{RingError}
use elgate.Ring.Pending.{any_entry, count}
use elgate.Ring.Pending.Writes.{sent}
use elgate.Examples.Optimization.{operations_per_thread, Writer, after_write, writes_on}

abbrev pub total_completed : List Writer → ℕ
total_completed [] = 0
total_completed (x ∷ xs) = x.completed + total_completed xs

abbrev pub failures : Bool → ℕ
failures true = 1
failures false = 0

-- A writer has at most its operations, and fewer if it has failed.
abbrev pub IsWithin : Writer → Type 0
IsWithin x = x.completed + failures x.failed ≤ operations_per_thread

pub total_completed-set :
    (xs : List Writer) (i : ℕ) (x v : Writer)
    → get_elem? xs i ≡ some x
    → total_completed (set xs i v) + x.completed ≡ total_completed xs + v.completed
total_completed-set [] i x v e = absurd (none-ne-some x e)
total_completed-set (y ∷ xs) zero x v e =
    omega (arith, ap (λ z. z.completed) (some-injective y x e))
total_completed-set (y ∷ xs) (suc i) x v e = omega (arith, total_completed-set xs i x v e)

pub All-set :
    {A : Type 0} (P : A → Type 0) (xs : List A) (i : ℕ) (v : A)
    → All P xs
    → P v
    → All P (set xs i v)
All-set P [] i v h p = tt
All-set P (x ∷ xs) zero v h p = (p, h.1)
All-set P (x ∷ xs) (suc i) v h p = (h.0, All-set P xs i v h.1 p)

-- How many of the writers have failed.
abbrev pub total_failed : List Writer → ℕ
total_failed [] = 0
total_failed (x ∷ xs) = failures x.failed + total_failed xs

-- All together have completed at most their operations, and one fewer at least for each that has
-- failed.
pub total_completed_bound :
    (xs : List Writer)
    → All IsWithin xs
    → total_completed xs + total_failed xs ≤ operations_per_thread * length xs
total_completed_bound [] h = omega arith
total_completed_bound (x ∷ xs) h = omega (arith, h.0, total_completed_bound xs h.1)

writes_on_lem :
    (x : Writer) → writes_on x ≡ true → (x.failed ≡ false) × (x.completed < operations_per_thread)
writes_on_lem x on = elim (Bool-cases x.failed) [
  | inl failed ↦ absurd (true≢false (sym on ∙ rw failed refl))
  | inr running ↦ (running, ltb→lt x.completed operations_per_thread (sym (rw running refl) ∙ on))
]

-- A writer that goes on counts the write that returns.
pub after_write_lem :
    (bytes : List ℕ) (r : Outcome RingError ℕ) (x : Writer)
    → writes_on x ≡ true
    → IsWithin (after_write r x)
      × ((after_write r x).completed ≡ x.completed + count any_entry (sent custom bytes r))
after_write_lem bytes (ok i) x on =
    let (running, more) = writes_on_lem x on in (omega (arith, more, ap failures running), refl)
after_write_lem bytes (err e) x on =
    let (running, more) = writes_on_lem x on in (omega (arith, more), omega arith)
after_write_lem bytes panic x on =
    let (running, more) = writes_on_lem x on in (omega (arith, more), omega arith)
after_write_lem bytes fault x on =
    let (running, more) = writes_on_lem x on in (omega (arith, more), omega arith)

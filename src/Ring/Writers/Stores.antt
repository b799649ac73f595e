-- ===== src/Ring/Writers/Stores.antt =====
-- What the stores of a writer leave at its slot, whatever came between them at the other slots.
use elgate.Prelude.{
  ℕ, zero, suc, ◌+◌, ◌%◌, ◌≤◌, ◌<◌, ◌≡◌, refl, sym, ap, ◌∙◌, List, [], ◌∷◌, arith, length, drop,
  get_elem?-set_self, get_elem?-set_ne, set, subst, mod-add_step, mod_lt, add-mod-ne,
  take-length-append,
}
use native.Mathlib.Nat.{mod-eq_of_lt, add-zero}
use elgate.Ring.Slot.{
  UuidApi, Slot, SlotMem, reset, set_status, set_operation, set_size, set_id, set_timestamp,
  copy_in,
}
use elgate.Ring.Chain.{Chain}
use elgate.Ring.Buffer.{RingBuffer, World}
use elgate.Ring.Buffer.Valid.{Holds, area, Chain-set_before}
use elgate.Ring.Buffer.Write.{slot_of, entered}
use elgate.Ring.Writers.{Job, stores_of, entry_of}

-- The slot once these stores have been made.
abbrev pub finish : RingBuffer → List (Slot → Slot) → SlotMem → SlotMem
finish rb [] s = s
finish rb (store ∷ more) s = finish rb more (store (slot_of rb s)).mem

module _ ⦃uuid : UuidApi⦄ (rb : RingBuffer) where
  -- One by one, they leave what `write` leaves.
  pub finish-stores_of :
      (w : World) (job : Job) (s : SlotMem)
      → job.fresh_id ≡ w.fresh_id
      → job.now ≡ w.now
      → finish rb (stores_of job) s ≡ (entered rb w job.kind job.bytes s).mem
  unfolding stores_of reset set_status set_operation set_size set_id set_timestamp copy_in
  finish-stores_of w job s e e' = rw (e, e') refl

  pub finish-Holds :
      (job : Job) (s : SlotMem)
      → length job.bytes ≤ area rb
      → Holds (area rb) (entry_of job) (finish rb (stores_of job) s)
  unfolding stores_of set_status set_operation set_size set_id set_timestamp copy_in
  finish-Holds job s fit = record {
    ready = refl;
    kind = refl;
    sized = refl;
    fits = fit;
    bytes = take-length-append job.bytes (drop (length job.bytes) _);
  }

-- A slot of a run changes, with what the list says of it.
pub Chain-update :
    {A : Type 0} (R : A → SlotMem → Type 0) (n : ℕ) (slots : List SlotMem) (h j : ℕ) (v : SlotMem)
    (y : A) (xs : List A)
    → h < n
    → length xs ≤ n
    → length slots ≡ n
    → j < length xs
    → R y v
    → Chain R n slots h xs
    → Chain R n (set slots ((h + j) % n) v) h (set xs j y)
Chain-update R n slots h j v y [] hh le mapped lt r c = absurd (omega arith)
Chain-update R n slots h zero v y (x ∷ xs) hh le mapped lt r (s, e, r', c) =
    subst (λ i. Chain R n (set slots i v) h (y ∷ xs)) here
      (
        v,
        get_elem?-set_self slots h v (omega arith),
        r,
        Chain-set_before R n h slots v xs hh (omega arith) c,
      )
  where
    here : h ≡ (h + 0) % n
    here = sym (ap (λ t. t % n) (add-zero h) ∙ mod-eq_of_lt hh)
Chain-update R n slots h (suc j) v y (x ∷ xs) hh le mapped lt r (s, e, r', c) = (
  s,
  get_elem?-set_ne slots ((h + suc j) % n) h v
        (add-mod-ne n h (suc j) hh (omega arith) (omega arith))
      ∙ e,
  r',
  subst (λ i. Chain R n (set slots i v) ((h + 1) % n) (set xs j y)) (mod-add_step n h j)
      (Chain-update R n slots ((h + 1) % n) j v y xs (mod_lt n (h + 1) (omega arith)) (omega arith)
        mapped (omega arith) r c),
)

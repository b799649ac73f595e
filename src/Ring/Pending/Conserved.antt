-- ===== src/Ring/Pending/Conserved.antt =====
-- Any sequence of reads and writes on a mapping, also one that overruns the ring.
use elgate.Prelude.{
  ℕ, ◌+◌, ◌≡◌, refl, ap, Bool, List, [], ◌∷◌, ◌++◌, Option, some, none, arith, Outcome, ok, err,
  panic, fault,
}
use elgate.Ring.Slot.{UuidApi, OperationKind}
use elgate.Ring.Memory.{RingMem, RingError, payload_too_large}
use elgate.Ring.Buffer.{RingBuffer, World, Entry, write}
use elgate.Ring.Buffer.Valid.{area}
use elgate.Ring.Queue.{Op, put, get, Reply, accepted, found}
use elgate.Ring.Refine.{run, step, reply_of_write, reply_of_read}
use elgate.Ring.Buffer.Full.{IsAlone}
use elgate.Ring.Pending.{IsMapped, pending, count, count-append}
use elgate.Ring.Pending.Writes.{sent, write-Adds}
use elgate.Ring.Pending.Reads.{received, read-Removes}

-- Nobody but the caller touches the mapping while a call of it sleeps.
abbrev pub AllAlone : List Op → Type 0
AllAlone [] = Unit {0}
AllAlone (put w kind bytes ∷ ops) = IsAlone w × AllAlone ops
AllAlone (get ∷ ops) = AllAlone ops

-- The entries that the calls have put in, by their replies, and those that they have got out.
abbrev pub put_in : Op → Reply → List Entry
put_in (put w kind bytes) accepted = (kind, bytes) ∷ []
put_in _ _ = []

abbrev pub got_out : Reply → List Entry
got_out (found e) = e ∷ []
got_out _ = []

abbrev pub all_put_in : List Op → List Reply → List Entry
all_put_in (op ∷ ops) (r ∷ rs) = put_in op r ++ all_put_in ops rs
all_put_in _ _ = []

abbrev pub all_got_out : List Reply → List Entry
all_got_out [] = []
all_got_out (r ∷ rs) = got_out r ++ all_got_out rs

alone_parts : (op : Op) (ops : List Op) → AllAlone (op ∷ ops) → AllAlone (op ∷ []) × AllAlone ops
alone_parts (put w kind bytes) ops h = ((h.0, tt), h.1)
alone_parts get ops h = (tt, h)

reply_of_write_lem :
    (w : World) (kind : OperationKind) (bytes : List ℕ) (r : Outcome RingError ℕ)
    → (got_out (reply_of_write r) ≡ [])
      × (put_in (put w kind bytes) (reply_of_write r) ≡ sent kind bytes r)
reply_of_write_lem w kind bytes (ok i) = (refl, refl)
reply_of_write_lem w kind bytes (err payload_too_large) = (refl, refl)
reply_of_write_lem w kind bytes (err _) = (refl, refl)
reply_of_write_lem w kind bytes panic = (refl, refl)
reply_of_write_lem w kind bytes fault = (refl, refl)

reply_of_read_lem : (o : Option Entry) → got_out (reply_of_read (ok o)) ≡ received o
reply_of_read_lem none = refl
reply_of_read_lem (some e) = refl

module _ ⦃uuid : UuidApi⦄ (p : Entry → Bool) (rb : RingBuffer) where
  -- What has come out and what still waits is what had waited and what has gone in.
  record Balances (m : RingMem) (ins outs : List Entry) (m' : RingMem) : Type 0 where
    mapping : IsMapped rb m'
    law :
        count p outs + count p (pending (area rb) m'.slots)
        ≡ count p (pending (area rb) m.slots) + count p ins

  step-Balances :
      (op : Op) (m : RingMem)
      → AllAlone (op ∷ [])
      → IsMapped rb m
      → let (r, m') = step rb op m in Balances m (put_in op r) (got_out r) m'
  unfolding step
  step-Balances (put w kind bytes) m alone h =
      let a = write-Adds p rb w kind bytes m alone.0 h in
      let (none_out, all_in) = reply_of_write_lem w kind bytes (write rb w kind bytes m).0 in
      record {
        mapping = a.mapping;
        law = omega (arith, a.entries, ap (count p) none_out, ap (count p) all_in);
      }
  step-Balances get m alone h =
      let r = read-Removes p rb m h in
      record {
        mapping = r.mapping;
        law = omega (
          arith,
          r.entries,
          ap (λ o. count p (got_out (reply_of_read o))) r.returned,
          ap (count p) (reply_of_read_lem r.entry),
        );
      }

  run-Balances :
      (ops : List Op) (m : RingMem)
      → AllAlone ops
      → IsMapped rb m
      → let (rs, m') = run rb ops m in Balances m (all_put_in ops rs) (all_got_out rs) m'
  unfolding run
  run-Balances [] m alone h = record { mapping = h; law = omega arith }
  run-Balances (op ∷ ops) m alone h =
      let (here, later) = alone_parts op ops alone in
      let s = step-Balances op m here h in
      let (r, m') = step rb op m in
      let rest = run-Balances ops m' later s.mapping in
      record {
        mapping = rest.mapping;
        law = omega (
          arith,
          s.law,
          rest.law,
          count-append p (got_out r) (all_got_out (run rb ops m').0),
          count-append p (put_in op r) (all_put_in ops (run rb ops m').0),
        );
      }

  -- Over any sequence of reads and writes with nobody else at the mapping, on a mapping whose
  -- indices are indices of its slots: of the entries that pass any test, as many have come out or
  -- still wait as had waited or were put in by a `write` that returned. No entry is lost, repeated
  -- or changed, also when writes overrun the ring.
  pub run_conserves :
      (ops : List Op) (m : RingMem)
      → AllAlone ops
      → IsMapped rb m
      → let (rs, m') = run rb ops m in
        IsMapped rb m'
        × (count p (all_got_out rs) + count p (pending (area rb) m'.slots)
            ≡ count p (pending (area rb) m.slots) + count p (all_put_in ops rs))
  run_conserves ops m alone h = let b = run-Balances ops m alone h in (b.mapping, b.law)

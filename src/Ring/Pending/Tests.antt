-- ===== src/Ring/Pending/Tests.antt =====
-- The conservation of entries on a small ring that is overrun.
use elgate.Prelude.{◌+◌, ◌≡◌, List, [], ◌∷◌}
use elgate.Ring.Slot.{disk_write}
use elgate.Ring.Buffer.Valid.{area}
use elgate.Ring.Queue.{Op, put, get}
use elgate.Ring.Refine.{run}
use elgate.Ring.Samples.{uuid_bytes, quiet, handle, no_entry, no_entry-IsMapped, quiet-IsAlone}
use elgate.Ring.Pending.{IsMapped, pending, count, any_entry}
use elgate.Ring.Pending.Conserved.{all_put_in, all_got_out, run_conserves}

-- Five writes into three slots, and reads between them.
abbrev overrun : List Op
overrun =
    put quiet disk_write (1 ∷ [])
    ∷ put quiet disk_write (2 ∷ [])
    ∷ get
    ∷ put quiet disk_write (3 ∷ [])
    ∷ put quiet disk_write (4 ∷ [])
    ∷ put quiet disk_write (5 ∷ [])
    ∷ get
    ∷ get
    ∷ []

run_conserves_example :
    let (rs, m') = run handle overrun no_entry in
    IsMapped handle m'
    × (count any_entry (all_got_out rs) + count any_entry (pending (area handle) m'.slots)
        ≡ count any_entry (pending (area handle) no_entry.slots)
          + count any_entry (all_put_in overrun rs))
run_conserves_example =
    run_conserves any_entry handle overrun no_entry
      (quiet-IsAlone, (quiet-IsAlone, (quiet-IsAlone, (quiet-IsAlone, (quiet-IsAlone, tt)))))
      no_entry-IsMapped

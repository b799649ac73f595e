-- ===== src/Ring/Race/Tests.antt =====
-- The reader that overtakes a writer, on an empty ring of three slots.
use elgate.Prelude.{◌≡◌, [], ◌∷◌, none, arith, ok}
use elgate.Ring.Slot.{network_send}
use elgate.Ring.Buffer.{wait_for_slot, publish, read}
use elgate.Ring.Samples.{uuid_bytes, quiet, handle, no_entry, no_entry-IsValid}
use elgate.Ring.Race.{overtaken}

overtaken_example :
    let (claim, m1) = wait_for_slot handle quiet no_entry in
    let (early, m2) = read handle m1 in
    let (sent, m3) = publish handle quiet network_send (7 ∷ []) 2 m2 in
    (claim ≡ ok 2) × (early ≡ ok none) × (sent ≡ ok 2) × (read handle m3 ≡ (ok none, m3))
overtaken_example =
    overtaken handle quiet network_send (7 ∷ []) no_entry no_entry-IsValid (omega arith)
      (omega arith)

-- ===== src/Ring/Create/Numa.antt =====
-- `create_numa_aware` of elgate-core/src/ring/buffer.rs, on the topology that `detect` has found. The
-- answer of `mbind` is only logged.
use elgate.Prelude.{
  ℕ, zero, suc, arith, ◌+◌, ◌%◌, ◌^◌, ◌<◌, ◌≡◌, refl, ap, ◌∙◌, Bool, true, false, not, ◌||◌, ltb,
  leb, lt→ltb, if◌then◌else◌, length, set, Outcome, ok, err, panic, fault,
}
use elgate.Arch.CpuInfo.{CpuInfo}
use elgate.Ring.Header
use elgate.Ring.Header.{RingHeader}
use elgate.Ring.Slot.{UuidApi, reset}
use elgate.Ring.Memory.{
  RingMem, RingError, create_failed, resize_failed, map_failed, M, pure, ◌>>◌, change_header,
  and_then, get_slot,
}
use elgate.Ring.Buffer.{RingBuffer, RingBufferOptions}
use elgate.Ring.Create.{FileIo, map_zeros, both, init_slots, create_mapped, with_header, create}

-- `numa_node.store(numa_node as u32)`
abbrev pub store_node : ℕ → RingHeader → RingHeader
store_node node h = record h { numa_node = node % 2 ^ 32 }

-- The topology has no such node.
abbrev pub no_node : CpuInfo → ℕ → Bool
no_node info node = not info.numa_available || leb (length info.numa_nodes) node

module _ ⦃uuid : UuidApi⦄ where
  -- The part that follows the mapping, over the header that was written.
  abbrev pub create_mapped_on : ℕ → RingBufferOptions → M RingBuffer
  create_mapped_on node o = do
    change_header (store_node node)
    change_header Header.register_producer
    (λ m. init_slots o.slot_size m.header.slot_count 0 m)
    pure (record { path = o.path; size = o.size; slot_size = o.slot_size; is_producer = true })

  abbrev pub with_header_on :
      ℕ
      → RingBufferOptions
      → Outcome RingError RingHeader
      → Outcome RingError (RingBuffer × RingMem)
  with_header_on node o (ok h) = both (create_mapped_on node o (map_zeros o h))
  with_header_on node o (err e) = err e
  with_header_on node o panic = panic
  with_header_on node o fault = fault

  -- The mask `1 << numa_node` of 64 bits overflows from node 64 on.
  unfoldable pub create_numa_aware :
      CpuInfo → FileIo → RingBufferOptions → ℕ → ℕ → Outcome RingError (RingBuffer × RingMem)
  create_numa_aware info io o node now =
      if no_node info node
      then create io o now
      else if not io.opened
      then err create_failed
      else if not io.resized
      then err resize_failed
      else if not io.mapped
      then err map_failed
      else if ltb node 64
      then with_header_on node o (Header.new o.size o.slot_size now)
      else panic

  abbrev on_node : ℕ → RingMem → RingMem
  on_node node m = record m { header = store_node node m.header }

  abbrev lifted : {A : Type 0} → ℕ → Outcome RingError A × RingMem → Outcome RingError A × RingMem
  lifted node (r, m) = (r, on_node node m)

  and_then-lifted :
      {A B : Type 0} (node : ℕ) (r : Outcome RingError A) (m : RingMem) (f : A → M B)
      → ((a : A) → f a (on_node node m) ≡ lifted node (f a m))
      → and_then (r, on_node node m) f ≡ lifted node (and_then (r, m) f)
  and_then-lifted node (ok a) m f h = h a
  and_then-lifted node (err e) m f h = refl
  and_then-lifted node panic m f h = refl
  and_then-lifted node fault m f h = refl

  -- The loop over the slots does not look at the node.
  init_slots-lifted :
      (node slot_size rounds i : ℕ) (m : RingMem)
      → init_slots slot_size rounds i (on_node node m)
        ≡ lifted node (init_slots slot_size rounds i m)
  unfolding init_slots get_slot
  init_slots-lifted node slot_size zero i m = refl
  init_slots-lifted node slot_size (suc rounds) i m =
      and_then-lifted node (get_slot slot_size i m).0 m _ (λ slot.
        init_slots-lifted node slot_size rounds (i + 1)
          (record m { slots = set m.slots i (reset slot).mem }))

  create_mapped_on-lifted :
      (node : ℕ) (o : RingBufferOptions) (h : RingHeader)
      → create_mapped_on node o (map_zeros o h) ≡ lifted node (create_mapped o (map_zeros o h))
  unfolding create_mapped Header.register_producer
  create_mapped_on-lifted node o h =
      let m : RingMem = record (map_zeros o h) { header = Header.register_producer h } in
      let looped = init_slots o.slot_size h.slot_count 0 m in
      rw (init_slots-lifted node o.slot_size h.slot_count 0 m)
        (and_then-lifted node looped.0 looped.1 _ (λ u. refl))

  -- The same handle and mapping, with this node in the header.
  abbrev pub at_node :
      ℕ → Outcome RingError (RingBuffer × RingMem) → Outcome RingError (RingBuffer × RingMem)
  at_node node (ok (rb, m)) =
      ok (rb, record { header = record (m.header) { numa_node = node }; slots = m.slots })
  at_node node (err e) = err e
  at_node node panic = panic
  at_node node fault = fault

  both-lifted :
      (node : ℕ) (r : Outcome RingError RingBuffer × RingMem)
      → node < 64
      → both (lifted node r) ≡ at_node node (both r)
  both-lifted node (ok rb, m) small =
      ap (λ k. ok (rb, record m { header = record (m.header) { numa_node = k } })) {y = node}
        (omega (arith, small))
  both-lifted node (err e, m) small = refl
  both-lifted node (panic, m) small = refl
  both-lifted node (fault, m) small = refl

  with_header_on-at_node :
      (node : ℕ) (o : RingBufferOptions) (h : Outcome RingError RingHeader)
      → node < 64
      → with_header_on node o h ≡ at_node node (with_header o h)
  with_header_on-at_node node o (ok h) small =
      ap both (create_mapped_on-lifted node o h)
      ∙ both-lifted node (create_mapped o (map_zeros o h)) small
  with_header_on-at_node node o (err e) small = refl
  with_header_on-at_node node o panic small = refl
  with_header_on-at_node node o fault small = refl

  -- The checks of the file come first, with or without a node.
  abbrev on_file :
      Bool
      → Bool
      → Bool
      → Outcome RingError (RingBuffer × RingMem)
      → Outcome RingError (RingBuffer × RingMem)
  on_file opened resized mapped r =
      if not opened
      then err create_failed
      else if not resized
      then err resize_failed
      else if not mapped
      then err map_failed
      else r

  on_file-at_node :
      (node : ℕ) (opened resized mapped : Bool) (r : Outcome RingError (RingBuffer × RingMem))
      → on_file opened resized mapped (at_node node r)
        ≡ at_node node (on_file opened resized mapped r)
  on_file-at_node node false resized mapped r = refl
  on_file-at_node node true false mapped r = refl
  on_file-at_node node true true false r = refl
  on_file-at_node node true true true r = refl

  pub create_numa_aware_fallback :
      (info : CpuInfo) (io : FileIo) (o : RingBufferOptions) (node now : ℕ)
      → no_node info node ≡ true
      → create_numa_aware info io o node now ≡ create io o now
  unfolding create_numa_aware
  create_numa_aware_fallback info io o node now missing = rw missing refl

  pub create_numa_aware_present :
      (info : CpuInfo) (io : FileIo) (o : RingBufferOptions) (node now : ℕ)
      → no_node info node ≡ false
      → node < 64
      → create_numa_aware info io o node now ≡ at_node node (create io o now)
  unfolding create_numa_aware create
  create_numa_aware_present info io o node now present small =
      let h = Header.new {E = RingError} o.size o.slot_size now in
      rw (present, lt→ltb node 64 small)
        (ap (on_file io.opened io.resized io.mapped) (with_header_on-at_node node o h small)
          ∙ on_file-at_node node io.opened io.resized io.mapped (with_header o h))

  -- For a node below 64 that the topology has, create_numa_aware comes to what create comes to,
  -- errors and panics included, but that the header of the new ring has the node.
  pub create_numa_aware-at_node :
      (info : CpuInfo) (io : FileIo) (o : RingBufferOptions) (node now : ℕ)
      → info.numa_available ≡ true
      → node < length info.numa_nodes
      → node < 64
      → create_numa_aware info io o node now ≡ at_node node (create io o now)
  create_numa_aware-at_node info io o node now available there small =
      create_numa_aware_present info io o node now (rw available (ground arith)) small

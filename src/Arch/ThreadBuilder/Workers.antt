-- ===== src/Arch/ThreadBuilder/Workers.antt =====
-- The workers that a ThreadBuilder of elgate-core/src/arch/thread_builder.rs makes in turn.
use elgate.Prelude.{
  ℕ, zero, suc, ◌+◌, ◌^◌, ◌<◌, ◌≡◌, refl, ap, ◌∙◌, Bool, true, List, [], ◌∷◌, some, arith, length,
  Infallible, Outcome, ok, ◌>>=◌, checked_add-fits,
}
use elgate.Arch.CpuInfo.{CpuInfo, get_core_for_worker}
use elgate.Arch.CpuInfo.Workers.{IsTopology, get_core_for_worker-bounded}
use elgate.Arch.RuntimeMode.{pinned_sharded, supports_pinning}
use elgate.Arch.ThreadBuilder.{
  WorkerThread, ThreadBuilder, success, new_builder, build_thread, build,
}

-- A caller that builds `n` workers, one after the other.
unfoldable pub build_each :
    ℕ → ThreadBuilder → Outcome Infallible (List WorkerThread × ThreadBuilder)
build_each zero tb = ok ([], tb)
build_each (suc n) tb = build true tb >>= λ r. build_each n r.1 >>= λ s. ok (r.0 ∷ s.0, s.1)

-- Worker `i` and those after it have the cores of the topology, within the logical cores.
abbrev pub IsAssigned : CpuInfo → ℕ → List WorkerThread → Type 0
IsAssigned info i [] = Unit
IsAssigned info i (worker ∷ workers) =
    ((core : ℕ) × (worker.core_id ≡ some core)
      × (get_core_for_worker info i ≡ ok core)
      × (core < info.logical_cores))
    × IsAssigned info (i + 1) workers

module _ (count : ℕ) (numa_aware : Bool) (info : CpuInfo) where
  abbrev builder_at : ℕ → ThreadBuilder
  builder_at i = record { mode = pinned_sharded count numa_aware; cpu_info = info; worker_idx = i }

  build-pinned :
      (i core : ℕ)
      → get_core_for_worker info i ≡ ok core
      → i + 1 < 2 ^ 64
      → build true (builder_at i)
        ≡ ok (record { core_id = some core; pinning_result = success }, builder_at (i + 1))
  unfolding build build_thread supports_pinning
  build-pinned i core e h = rw (e, checked_add-fits {E = Infallible} i 1 h)

  build_each-at :
      (n i : ℕ)
      → IsTopology info
      → i + n < 2 ^ 64
      → (ws : List WorkerThread) × (build_each n (builder_at i) ≡ ok (ws, builder_at (i + n)))
        × (length ws ≡ n)
        × IsAssigned info i ws
  unfolding build_each
  build_each-at zero i t h = ([], ap (λ j. ok ([], builder_at j)) (omega arith), refl, tt)
  build_each-at (suc n) i t h =
      let picked = get_core_for_worker-bounded info i t in
      let rest = build_each-at n (i + 1) t (omega arith) in
      let worker : WorkerThread = record { core_id = some picked.0; pinning_result = success } in
      (
        worker ∷ rest.0,
        rw (build-pinned i picked.0 picked.1 (omega arith), rest.1)
            (ap (λ j. ok (worker ∷ rest.0, builder_at j)) (omega arith)),
        ap suc rest.2,
        ((picked.0, refl, picked.1, picked.2), rest.3),
      )

  -- A new builder in a pinning mode makes any number of workers below 2^64 one after the other, if
  -- the system makes the threads, and gives worker i the core that the topology has for it, where
  -- the nodes' cores are among the logical ones.
  pub build_each-IsAssigned :
      (n : ℕ)
      → IsTopology info
      → n < 2 ^ 64
      → (ws : List WorkerThread) × (build_each n
            (new_builder (pinned_sharded count numa_aware) info)
          ≡ ok (
            ws,
            record { mode = pinned_sharded count numa_aware; cpu_info = info; worker_idx = n },
          ))
        × (length ws ≡ n)
        × IsAssigned info 0 ws
  unfolding new_builder
  build_each-IsAssigned n t h =
      let made = build_each-at n 0 t (omega arith) in
      (made.0, made.1 ∙ ap (λ j. ok (made.0, builder_at j)) (omega arith), made.2, made.3)

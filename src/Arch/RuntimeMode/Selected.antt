-- ===== src/Arch/RuntimeMode/Selected.antt =====
-- What `select_for_system` of elgate-core/src/arch/runtime_mode.rs chooses.
use elgate.Prelude.{
  ℕ, ◌-◌, ◌==◌, if◌then◌else◌, ◌^◌, ◌≤◌, ◌<◌, ◌≡◌, ap, ◌∙◌, inl, inr, arith, ltb, leb, ◌&&◌, ok,
  Bool-cases,
}
use native.Mathlib.Nat.{mod-eq_of_lt}
use elgate.Arch.CpuInfo.{CpuInfo, get_core_for_worker, mock}
use elgate.Arch.CpuInfo.Mock.{get_core_for_worker-mock}
use elgate.Arch.RuntimeMode.{select_for_system, worker_count, is_numa_aware, supports_pinning}

-- How many workers a machine of so many cores should have: all cores up to four, and from five on
-- all but one, which is left for the system.
abbrev pub workers_for : ℕ → ℕ
workers_for n = if ltb 4 n then n - 1 else if n == 0 then 1 else n

-- The chosen mode has a worker for each of up to four cores, and leaves one core free from five
-- cores on; there is one worker also where no core is found. The workers are pinned just where
-- there are two cores or more, and mind the topology just where they are pinned and a topology is
-- known.
pub select_for_system-worker_count :
    (info : CpuInfo)
    → let mode = select_for_system info in
      (worker_count mode ≡ workers_for info.logical_cores)
      × (supports_pinning mode ≡ ltb 1 info.logical_cores)
      × (is_numa_aware mode ≡ (ltb 1 info.logical_cores && info.numa_available))
unfolding select_for_system worker_count supports_pinning is_numa_aware
select_for_system-worker_count info = elim (Bool-cases (leb info.logical_cores 1)) [
  | inl small ↦ rw small (ground arith, ground arith, ground arith)
  | inr big ↦ elim (Bool-cases (leb info.logical_cores 4)) [
    | inl few ↦ rw (big, few) (ground arith, ground arith, ground arith)
    | inr many ↦ rw (big, many) (ground arith, ground arith, ground arith)
  ]
]

workers_for_bound : (n : ℕ) → 0 < n → workers_for n ≤ n
workers_for_bound n p = ground arith

-- With the topology of mock on n cores, 0 < n < 2^64, the workers of the chosen mode get cores of
-- their own: worker w gets core w.
pub select_for_system-mock :
    (n k w : ℕ)
    → 0 < n
    → n < 2 ^ 64
    → w < worker_count (select_for_system (mock n k))
    → get_core_for_worker (mock n k) w ≡ ok w
unfolding mock
select_for_system-mock n k w p b h =
    let most = workers_for_bound n p in
    let chosen = (select_for_system-worker_count (mock n k)).0 in
    get_core_for_worker-mock n k w p b ∙ ap ok (mod-eq_of_lt (omega (arith, h, most, chosen)))

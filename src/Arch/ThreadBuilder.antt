-- ===== src/Arch/ThreadBuilder.antt =====
-- elgate-core/src/arch/thread_builder.rs: the threads of the workers, and how each pins itself. The
-- answers of the crate core_affinity and whether the system can make a thread are arguments.
pub mod Pinning
pub mod Workers
use elgate.Prelude.{
  ℕ, zero, suc, ◌+◌, ◌%◌, Bool, true, false, List, [], ◌∷◌, Option, some, none, if◌then◌else◌,
  length, get_elem?, Infallible, Outcome, ok, panic, ◌>>=◌, ◌>>◌, checked_add, unwrap,
}
use elgate.Arch.CpuInfo.{CpuInfo, get_core_for_worker}
use elgate.Arch.RuntimeMode.{
  RuntimeMode, single_thread, pinned_sharded, forced_single, test_stub, supports_pinning,
}

pub data PinningResult : Type 0 where
  success : PinningResult
  success_different_core : ℕ → PinningResult
  unsupported : PinningResult
  failed : PinningResult

-- What core_affinity answers: the ids of the cores that the process may use, and whether a thread can
-- be set on one.
pub record CoreAffinity : Type 0 where
  pub get_core_ids : Option (List ℕ)
  pub set_for_current : ℕ → Bool

-- A result, with the core that the thread is set on.
abbrev pub Pinned : Type 0
Pinned = PinningResult × Option ℕ

-- `set_for_current(core)`, then one result or the other.
abbrev pub set_core : CoreAffinity → ℕ → PinningResult → Option ℕ → Pinned
set_core api core result set =
    if api.set_for_current core then (result, some core) else (failed, set)

-- From the core at the fallback's place, which the code indexes.
abbrev pub pin_fallback : CoreAffinity → ℕ → Option ℕ → Option ℕ → Outcome Infallible Pinned
pin_fallback api fallback_core_id core set = unwrap core >>= λ fallback_core.
    ok (set_core api fallback_core (success_different_core fallback_core_id) set)

-- From the core at the place asked for, if there is one.
abbrev pub pin_among : CoreAffinity → List ℕ → ℕ → Option ℕ → Option ℕ → Outcome Infallible Pinned
pin_among api core_ids core_id (some core) set = ok (set_core api core success set)
pin_among api [] core_id none set = ok (failed, set)
pin_among api (first ∷ more) core_id none set =
    let core_ids = first ∷ more in
    let fallback_core_id = core_id % length core_ids in
    pin_fallback api fallback_core_id (get_elem? core_ids fallback_core_id) set

abbrev pub pin_from : CoreAffinity → Option (List ℕ) → ℕ → Option ℕ → Outcome Infallible Pinned
pin_from api none core_id set = ok (unsupported, set)
pin_from api (some core_ids) core_id set =
    pin_among api core_ids core_id (get_elem? core_ids core_id) set

-- `pin_thread_to_core` in a thread that is set on `set`.
unfoldable pub pin_thread_to_core : CoreAffinity → ℕ → Option ℕ → Outcome Infallible Pinned
pin_thread_to_core api core_id set = pin_from api api.get_core_ids core_id set

-- What a new thread does before it runs its function: the result that it logs.
unfoldable pub pin_in_thread : CoreAffinity → Option ℕ → Option ℕ → Outcome Infallible Pinned
pin_in_thread api none set = ok (unsupported, set)
pin_in_thread api (some core) set = pin_thread_to_core api core set

-- A worker, without its join handle: the core that its thread tries to pin, and the result that the
-- builder reports.
pub record WorkerThread : Type 0 where
  pub core_id : Option ℕ
  pub pinning_result : PinningResult

pub record ThreadBuilder : Type 0 where
  pub mode : RuntimeMode
  pub cpu_info : CpuInfo
  pub worker_idx : ℕ

unfoldable pub new_builder : RuntimeMode → CpuInfo → ThreadBuilder
new_builder m info = record { mode = m; cpu_info = info; worker_idx = 0 }

-- `spawn(...).expect(...)`, and `thread::spawn`, which panics as well.
abbrev pub spawn : Bool → Outcome Infallible (Unit {0})
spawn spawned = if spawned then ok tt else panic

unfoldable pub build_test_stub :
    Bool → ThreadBuilder → Outcome Infallible (WorkerThread × ThreadBuilder)
build_test_stub spawned tb =
    spawn spawned >> ok (record { core_id = none; pinning_result = unsupported }, tb)

abbrev pub core_to_pin : Bool → ThreadBuilder → Outcome Infallible (Option ℕ)
core_to_pin true tb = get_core_for_worker tb.cpu_info tb.worker_idx >>= λ core. ok (some core)
core_to_pin false tb = ok none

abbrev pub optimistic : Option ℕ → PinningResult
optimistic none = unsupported
optimistic (some core) = success

-- `build` in a mode that makes real threads.
unfoldable pub build_thread :
    Bool → ThreadBuilder → Outcome Infallible (WorkerThread × ThreadBuilder)
build_thread spawned tb = core_to_pin (supports_pinning tb.mode) tb >>= λ core.
    checked_add tb.worker_idx 1 >>= λ next.
    spawn spawned
    >> ok (
      record { core_id = core; pinning_result = optimistic core },
      record { mode = tb.mode; cpu_info = tb.cpu_info; worker_idx = next },
    )

abbrev pub build_in :
    RuntimeMode → Bool → ThreadBuilder → Outcome Infallible (WorkerThread × ThreadBuilder)
build_in test_stub spawned tb = build_test_stub spawned tb
build_in single_thread spawned tb = build_thread spawned tb
build_in (pinned_sharded count numa_aware) spawned tb = build_thread spawned tb
build_in forced_single spawned tb = build_thread spawned tb

unfoldable pub build : Bool → ThreadBuilder → Outcome Infallible (WorkerThread × ThreadBuilder)
build spawned tb = build_in tb.mode spawned tb

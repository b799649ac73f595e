-- ===== src/Arch/RuntimeMode.antt =====
-- elgate-core/src/arch/runtime_mode.rs: the mode for a machine, and what a mode says of its workers.
pub mod Selected
use elgate.Prelude.{ℕ, ◌-◌, Bool, true, false, if◌then◌else◌, leb}
use elgate.Arch.CpuInfo.{CpuInfo}

pub data RuntimeMode : Type 0 where
  single_thread : RuntimeMode
  pinned_sharded : ℕ → Bool → RuntimeMode
  forced_single : RuntimeMode
  test_stub : RuntimeMode

unfoldable pub select_for_system : CpuInfo → RuntimeMode
select_for_system info =
    if leb info.logical_cores 1
    then single_thread
    else pinned_sharded
        (if leb info.logical_cores 4 then info.logical_cores else info.logical_cores - 1)
        info.numa_available

unfoldable pub worker_count : RuntimeMode → ℕ
worker_count single_thread = 1
worker_count (pinned_sharded count numa_aware) = count
worker_count forced_single = 1
worker_count test_stub = 1

unfoldable pub is_numa_aware : RuntimeMode → Bool
is_numa_aware single_thread = false
is_numa_aware (pinned_sharded count numa_aware) = numa_aware
is_numa_aware forced_single = false
is_numa_aware test_stub = false

unfoldable pub supports_pinning : RuntimeMode → Bool
supports_pinning single_thread = false
supports_pinning (pinned_sharded count numa_aware) = true
supports_pinning forced_single = false
supports_pinning test_stub = false

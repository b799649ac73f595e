-- ===== src/Arch.antt =====
-- elgate-core/src/arch: the topology of the machine, the runtime mode and the worker threads.
pub mod CpuList
pub mod CpuInfo
pub mod RuntimeMode
pub mod ThreadBuilder
mod Tests

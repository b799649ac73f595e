-- ===== src/Examples/Calls.antt =====
-- The calls of the engines that the programs of elgate-core/examples make, where the system grants
-- them and their notifications come back.
mod DiskCalls
mod NetCalls
pub use DiskCalls.*
pub use NetCalls.*

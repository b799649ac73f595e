-- ===== src/Ring.antt =====
-- elgate-core/src/ring: the ring buffer in shared memory. `Header` and `Slot` are the two parts of
-- a mapping, `Buffer` the operations of a handle, `Queue` what a client may expect of them.
pub mod Layout
pub mod Header
pub mod Slot
pub mod Memory
pub mod Buffer
pub mod Create
pub mod Chain
pub mod Queue
pub mod Refine
pub mod Pending
pub mod Race
pub mod Writers
pub mod Samples
mod Tests

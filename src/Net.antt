-- ===== src/Net.antt =====
-- elgate-core/src/net: the two engines for sockets, over the answers of the operating system.
pub mod Sockets
pub mod Fallback
pub mod IoUring
mod Tests

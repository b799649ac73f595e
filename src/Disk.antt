-- ===== src/Disk.antt =====
-- elgate-core/src/disk: the two engines for files, over the answers of the operating system.
pub mod Files
pub mod IoUring
pub mod Fallback
mod Tests

-- ===== src/Examples.antt =====
-- The programs of elgate-core/examples: what they compute and how they drive the library.
pub mod Float
pub mod Latency
pub mod Histogram
pub mod Throughput
pub mod Chunks
pub mod Process
pub mod Tells
pub mod Calls
pub mod Grants
pub mod Loops
pub mod TestFile
pub mod EndToEnd
pub mod CrossPlatform
pub mod Profile
pub mod Perf
pub mod Optimization
mod Tests

-- ===== src/Benchmark.antt =====
-- scripts/benchmark_throughput.py: the workers that share a queue of requests, and the report.
pub mod Workers
pub mod Account
pub mod Ends
pub mod Turns
pub mod Report
mod Sorted
pub mod Rank
pub mod Main
mod Tests

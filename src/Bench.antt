-- ===== src/Bench.antt =====
-- The load harness of bench/sse/sse-load.mjs: many streams held open, and probes that measure how long
-- a hint takes to reach them. A time of `performance.now()` is a number of ticks.
pub mod Stream
pub mod Harness
pub mod Percentiles
pub mod RoundRobin
pub mod Report

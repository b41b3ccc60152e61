-- ===== src/Loadgen.antt =====
-- internal/loadgen: the load generator.
pub mod Shaper
pub mod Report
pub mod Scrape
pub mod Collector
pub mod Setup
pub mod Ramp
pub mod Worker
pub mod Downlink
mod Tests

-- ===== src/Runner.antt =====
-- pkg/runner.
pub mod Options
pub mod Ports
pub mod Validate
pub mod FastSend
pub mod SmartScan
pub mod Enumerate
pub mod PopularityRank
pub mod PortQueue
pub mod PredictiveScan
pub mod Enhance
pub mod Resolve
pub mod Targets
pub mod Verify
pub mod Nmap

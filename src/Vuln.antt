-- ===== src/Vuln.antt =====
-- pkg/vuln.
pub mod Signature
pub mod SigDb
pub mod Exposure
pub mod Scan
mod Scanned
mod Versions
mod Greeting
mod Tests
mod Summary

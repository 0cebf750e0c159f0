-- ===== src/Scan.antt =====
-- pkg/scan.
pub mod Icmp
pub mod Workers
pub mod TcpSequencer
pub mod Cdn
pub mod Ping

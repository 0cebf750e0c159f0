-- ===== src/Net.antt =====
-- pkg/protocol and pkg/port.
mod Tests
pub mod Protocol
pub mod Port
pub mod Cidr
pub mod HostPort
pub mod Joined

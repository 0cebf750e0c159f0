-- ===== src/Runner/FastSend.antt =====
-- pkg/runner/fastsend.go: the sender of SYN packets that patches a template.
mod Tests
pub mod Ipv4
pub mod Index
pub mod Sender
pub mod Samples

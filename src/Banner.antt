-- ===== src/Banner.antt =====
-- pkg/banner/grabber.go: what a port's banner says about its service.
pub mod Service
pub mod Raw
pub mod Grab
mod Grabbed
mod Ssh
mod Tests

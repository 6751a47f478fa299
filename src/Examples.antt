-- ===== src/Examples.antt =====
-- Concrete instances of what the program takes from outside, for the tests.
pub mod Loopback
pub mod Memory
pub mod Logged
pub mod Repeated
pub mod Winsock
pub mod Startup

-- ===== src/Examples.antt =====
-- Runs of the modelled code at concrete inputs, and theorems applied to them.
pub mod Transport
pub mod Backend
pub mod Quoting
pub mod Mounting
pub mod Teardown
pub mod Concurrent
pub mod Opening
pub mod Session
pub mod Binaries
pub mod Bringup

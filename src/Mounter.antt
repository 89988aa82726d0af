-- ===== src/Mounter.antt =====
-- internal/mounter: from a validated config to live mounts.
pub mod Specs
pub mod Direct
pub mod Point
pub mod Ready
pub mod Mount
pub mod Cachedir
pub mod Bringup
pub mod Options
pub mod Scaffold
pub mod Orchestrator

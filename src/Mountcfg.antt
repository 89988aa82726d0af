-- ===== src/Mountcfg.antt =====
-- internal/mountcfg: the mount config, its errors, the strict validation of a decoded config, and the
-- loading of one from a file.
pub mod Load
pub mod Schema
pub mod Texts
pub mod Patterns
pub mod Validate
pub mod Accepts

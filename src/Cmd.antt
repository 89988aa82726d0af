-- ===== src/Cmd.antt =====
-- cmd: the two binaries.
pub mod Run
pub mod Probe

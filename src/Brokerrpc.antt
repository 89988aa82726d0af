-- ===== src/Brokerrpc.antt =====
-- internal/brokerrpc: the guest-side REST client of the broker's file-operations service.
pub mod Transport
pub mod Intent
pub mod Upload
pub mod Download
pub mod Ops
pub mod Cursor
pub mod Client
pub mod Messages
pub mod Reader
pub mod Status

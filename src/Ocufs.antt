-- ===== src/Ocufs.antt =====
-- backend/ocufs: the rclone backend over the broker client.
pub mod NewFs
pub mod Registration
pub mod Interface
pub mod Paths
pub mod Meta
pub mod Fs
pub mod Object
pub mod Shared
pub mod Transfer
pub mod Wired
pub mod Session
pub mod ReadOnly
pub mod Lazy
pub mod Opened
pub mod Children
pub mod RoundTrip

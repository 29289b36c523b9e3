-- ===== src/Device.antt =====
-- crates/igris-device: the device mesh.
pub mod Info
pub mod Trust
pub mod Pairing
pub mod Transfer
pub mod Sync
pub mod Identity
pub mod Message
pub mod Discovery
pub mod Server
pub mod Store

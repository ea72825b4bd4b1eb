-- ===== src/Aead.antt =====
-- The authenticated encryption of src/aead: the shared loops, and the three variants on top of them.
mod Tests
pub mod Common
pub mod Stream
pub mod Tag
pub mod Variant
pub mod Nonce
pub mod Oneshot
pub mod Incremental
pub mod Api
pub mod Sealing
pub mod Ofb

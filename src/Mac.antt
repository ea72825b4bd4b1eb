-- ===== src/Mac.antt =====
-- Keyed functions on top of the sponge: src/mac and src/kdf.
pub mod Kmac
pub mod Hmac
pub mod Prf
mod Tests

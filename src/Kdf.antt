-- ===== src/Kdf.antt =====
-- Key derivation and password hashing on top of HMAC: src/kdf and src/password.
mod Tests
pub mod Hkdf
pub mod Pbkdf2

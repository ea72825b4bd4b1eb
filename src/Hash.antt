-- ===== src/Hash.antt =====
-- The hash functions and extendable output functions of src/hash.
mod Tests
pub mod Xof
pub mod Api
pub mod Pieces

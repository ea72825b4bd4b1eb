-- ===== src/Masking.antt =====
-- The masked words, the masked permutation and the masked keys of src/masking: a value is held as
-- shares that add up to it, of which all but the first are rotated.
pub mod Word
pub mod Permute
pub mod Shares
pub mod Partial
pub mod Operations
pub mod State
pub mod Aead
pub mod Key
mod Tests

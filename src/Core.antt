-- ===== src/Core.antt =====
-- The permutation and the sponge primitives of src/core, for the backend "c64, direct XOR".
pub mod Word
pub mod Permutation
pub mod Snp
pub mod Hex

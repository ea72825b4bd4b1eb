-- ===== src/Random.antt =====
-- Random numbers: src/random. The system's source of entropy is a parameter.
mod Tests
pub mod Prng
pub mod Api
pub mod Ready
pub mod Limit
pub mod Seeds
pub mod Mixer

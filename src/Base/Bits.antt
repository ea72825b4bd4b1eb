-- ===== src/Base/Bits.antt =====
-- Laws of the operators `&`, `|` and `^` of C at every width, and single bits of a word.
mod Digits
pub mod Laws
pub mod Shifts
pub use Digits.*

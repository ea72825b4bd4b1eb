-- ===== src/Masking/Partial.antt =====
-- The loads and stores of less than eight bytes of src/masking/ascon-masked-word-c64.c: four bytes, two
-- bytes and one byte, each when `size` asks for it, with the word rotated in between.
pub mod Store
pub mod Plain
pub mod Load
use ascon_suite_tcc.Base.{
  ℕ, ◌+◌, ◌-◌, ◌^◌, ◌%◌, bit_xor, Bool, true, false, List, [], ◌∷◌, ◌++◌, drop, get_or, leb, ltb,
  if◌then◌else◌,
}
use ascon_suite_tcc.Core.Word.{
  u8, right_rotate_64, be_load_word32, be_load_word16, be_store_word32, be_store_word16,
}

-- `size` after the four bytes, and after the two bytes
abbrev pub after_four : ℕ → ℕ
after_four size = if leb 4 size then size - 4 else size

abbrev pub after_two : ℕ → ℕ
after_two size = if leb 2 size then size - 2 else size

-- The shares `M` that are in position, rotated to the left by 32, 16 and 8 bits; what is stored is
-- their sum.
module _ {M : Type 0} (each : (ℕ → ℕ) → M → M) (total : M → ℕ) where
  unfoldable pub store_partial : ℕ → M → List ℕ
  store_partial size m =
      let four = leb 4 size in
      let m = if four then each (λ x. right_rotate_64 x 32) m else m in
      let out4 = if four then be_store_word32 (total m % 2 ^ 32) else [] in
      let two = leb 2 (after_four size) in
      let m = if two then each (λ x. right_rotate_64 x 48) m else m in
      let out2 = if two then be_store_word16 (total m % 2 ^ 16) else [] in
      let one = ltb 0 (after_two (after_four size)) in
      let m = if one then each (λ x. right_rotate_64 x 56) m else m in
      let out1 = if one then u8 (total m) ∷ [] else [] in out4 ++ (out2 ++ out1)

-- `masked ^= v`, and both words rotated to the right by `k` bits
abbrev pub turn_in : ℕ → ℕ → ℕ × ℕ → ℕ × ℕ
turn_in v k p = (right_rotate_64 (bit_xor p.0 v) k, right_rotate_64 p.1 k)

-- `masked` and `random` after the bytes are in, the last ones first
unfoldable pub load_partial : List ℕ → ℕ → ℕ × ℕ → ℕ × ℕ
load_partial bytes size p =
    let p = if leb 4 size then turn_in (be_load_word32 (drop (size - 4) bytes)) 32 p else p in
    let size = after_four size in
    let p = if leb 2 size then turn_in (be_load_word16 (drop (size - 2) bytes)) 16 p else p in
    let size = after_two size in if ltb 0 size then turn_in (get_or bytes 0 0) 8 p else p

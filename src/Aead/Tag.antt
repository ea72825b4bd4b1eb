-- ===== src/Aead/Tag.antt =====
-- `ascon_aead_check_tag` of src/aead/ascon-aead-common.c. An `int` is its 32-bit pattern, so -1 is
-- 2 ^ 32 - 1.
pub mod Laws
use ascon_suite_tcc.Base.{
  ℕ, ◌+◌, ◌-◌, ◌/◌, ◌%◌, ◌^◌, bit_and, bit_or, bit_xor, List, [], ◌∷◌, ltb, if◌then◌else◌,
}
use ascon_suite_tcc.Core.Word.{u8}

-- the -1 that the functions return on failure
abbrev pub minus_one : ℕ
minus_one = 2 ^ 32 - 1

-- `accum - 1` on `int`
unfoldable pub decrement : ℕ → ℕ
decrement x = (x + (2 ^ 32 - 1)) % 2 ^ 32

-- `x >> k` on `int`, which copies the sign bit
unfoldable pub shift_right : ℕ → ℕ → ℕ
shift_right x k = if ltb x (2 ^ 31) then x / 2 ^ k else 2 ^ 32 - 1 - (2 ^ 32 - 1 - x) / 2 ^ k

-- `while (size > 0) { accum |= (*tag1++ ^ *tag2++); --size; }` on two tags of `size` bytes
unfoldable pub accumulate : ℕ → List ℕ → List ℕ → ℕ
accumulate accum [] tag2 = accum
accumulate accum (x ∷ tag1) [] = accum
accumulate accum (x ∷ tag1) (y ∷ tag2) = accumulate (bit_or accum (bit_xor x y)) tag1 tag2

-- `while (plaintext_len > 0) { *plaintext++ &= accum; --plaintext_len; }`
unfoldable pub mask : List ℕ → ℕ → List ℕ
mask [] accum = []
mask (b ∷ plaintext) accum = u8 (bit_and b accum) ∷ mask plaintext accum

-- the return value, and the plaintext as it is left
pub record Checked : Type 0 where
  pub result : ℕ
  pub plaintext : List ℕ

unfoldable pub check_tag : List ℕ → List ℕ → List ℕ → Checked
check_tag plaintext tag1 tag2 =
    let accum = shift_right (decrement (accumulate 0 tag1 tag2)) 8 in
    record { result = 2 ^ 32 - 1 - accum; plaintext = mask plaintext accum }

-- ===== src/Core/Word.antt =====
-- The 64-bit words of src/core/ascon-util.h: shifts, rotation, and the big-endian loads and stores.
-- A word is a number below 2 ^ 64 and a byte a number below 2 ^ 8.
pub mod Bits
pub mod Bytes
pub mod Split
pub mod Replace
pub mod Symbolic
pub mod Linear
use ascon_suite_tcc.Base.{ℕ, ◌-◌, ◌*◌, ◌/◌, ◌%◌, ◌^◌, bit_or, List, [], ◌∷◌, get_or}

-- `(uint8_t)x`
abbrev pub u8 : ℕ → ℕ
u8 x = x % 2 ^ 8

-- `x << k` and `x >> k` on `uint64_t`
abbrev pub shl64 : ℕ → ℕ → ℕ
shl64 x k = x * 2 ^ k % 2 ^ 64

abbrev pub shr64 : ℕ → ℕ → ℕ
shr64 x k = x / 2 ^ k

-- `~x` on `uint64_t`
unfoldable pub not64 : ℕ → ℕ
not64 x = 2 ^ 64 - 1 - x

-- `rightRotate_64`
unfoldable pub right_rotate_64 : ℕ → ℕ → ℕ
right_rotate_64 a bits = bit_or (shr64 a bits) (shl64 a (64 - bits))

-- `be_load_word64`: the eight bytes at `ptr`
unfoldable pub be_load_word64 : List ℕ → ℕ
be_load_word64 ptr =
    bit_or
      (bit_or
        (bit_or
          (bit_or
            (bit_or
              (bit_or (bit_or (shl64 (get_or ptr 0 0) 56) (shl64 (get_or ptr 1 0) 48))
                (shl64 (get_or ptr 2 0) 40))
              (shl64 (get_or ptr 3 0) 32))
            (shl64 (get_or ptr 4 0) 24))
          (shl64 (get_or ptr 5 0) 16))
        (shl64 (get_or ptr 6 0) 8))
      (get_or ptr 7 0)

-- `be_store_word64`: the eight bytes that it writes
unfoldable pub be_store_word64 : ℕ → List ℕ
be_store_word64 x =
    u8 (shr64 x 56)
    ∷ u8 (shr64 x 48)
    ∷ u8 (shr64 x 40)
    ∷ u8 (shr64 x 32)
    ∷ u8 (shr64 x 24)
    ∷ u8 (shr64 x 16)
    ∷ u8 (shr64 x 8)
    ∷ u8 x
    ∷ []

-- `be_load_word32`
unfoldable pub be_load_word32 : List ℕ → ℕ
be_load_word32 ptr =
    bit_or
      (bit_or (bit_or (get_or ptr 0 0 * 2 ^ 24 % 2 ^ 32) (get_or ptr 1 0 * 2 ^ 16 % 2 ^ 32))
        (get_or ptr 2 0 * 2 ^ 8 % 2 ^ 32))
      (get_or ptr 3 0)

-- `be_store_word32`, which converts to `uint32_t` first
unfoldable pub be_store_word32 : ℕ → List ℕ
be_store_word32 x =
    let x32 = x % 2 ^ 32 in u8 (x32 / 2 ^ 24) ∷ u8 (x32 / 2 ^ 16) ∷ u8 (x32 / 2 ^ 8) ∷ u8 x32 ∷ []

-- `be_load_word16` and `be_store_word16`
unfoldable pub be_load_word16 : List ℕ → ℕ
be_load_word16 ptr = bit_or (get_or ptr 0 0 * 2 ^ 8 % 2 ^ 16) (get_or ptr 1 0)

unfoldable pub be_store_word16 : ℕ → List ℕ
be_store_word16 x = let x16 = x % 2 ^ 16 in u8 (x16 / 2 ^ 8) ∷ u8 x16 ∷ []

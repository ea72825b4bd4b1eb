-- ===== src/Masking/Operations.antt =====
-- The operations on masked words of src/masking/ascon-masked-word-c64.c, as an interface: the code that
-- uses them names them `ascon_masked_key_...` and `ascon_masked_data_...` and chooses the number of
-- shares. `T` is the state of the random number generator.
pub mod Two
pub mod Three
pub mod Four
use native.Mathlib.Nat.{div-le_self}
use ascon_suite_tcc.Base.{
  ℕ, ◌+◌, ◌-◌, ◌*◌, ◌^◌, ◌<◌, ◌≡◌, List, take, bit_and, bit_or, bit_xor, arith,
}
use ascon_suite_tcc.Core.Word.{not64, shl64, shr64, be_load_word32, be_load_word64, be_store_word64}
use ascon_suite_tcc.Core.Word.Bits.{IsWord}
use ascon_suite_tcc.Core.Permutation.{permute_words}
use ascon_suite_tcc.Masking.Word.{Masked, IsMasked}
use ascon_suite_tcc.Masking.Permute.Laws.{AllShares, words_of}
use ascon_suite_tcc.Base.Bytes.{IsBytes}
use ascon_suite_tcc.Masking.Partial.Plain.{first_bytes}
use ascon_suite_tcc.Masking.Shares.{Preserve, IsPreserve, MaskedState}

pub record MaskedOps (T : Type 0) : Type 0 where
  pub zero : T → Masked ℕ × T
  pub load : List ℕ → T → Masked ℕ × T
  pub load_partial : List ℕ → ℕ → T → Masked ℕ × T
  pub load_32 : List ℕ → List ℕ → T → Masked ℕ × T
  pub store : Masked ℕ → List ℕ
  pub store_partial : ℕ → Masked ℕ → List ℕ
  pub randomize : Masked ℕ → Masked ℕ → T → Masked ℕ × T
  pub xor : Masked ℕ → Masked ℕ → Masked ℕ
  pub replace : Masked ℕ → Masked ℕ → ℕ → Masked ℕ
  pub permute : MaskedState → ℕ → Preserve ℕ → MaskedState × Preserve ℕ

-- `mask1` of the replacement of `size` bytes
abbrev pub keep_mask : ℕ → ℕ
keep_mask size = shr64 (2 ^ 64 - 1) (size * 8)

pub mask-IsWord : (size : ℕ) → IsWord (keep_mask size)
mask-IsWord size = omega (arith, div-le_self (2 ^ 64 - 1) (2 ^ (size * 8)))

-- What each operation does to the value that the shares stand for.
pub record IsMaskedOps {T : Type 0} (ops : MaskedOps T) (value : Masked ℕ → ℕ) : Type 0 where
  pub value-IsWord : (w : Masked ℕ) → IsMasked w → IsWord (value w)
  pub zero-IsMasked : (t : T) → IsMasked (ops.zero t).0
  pub zero_lem : (t : T) → value (ops.zero t).0 ≡ 0
  pub load-IsMasked :
      (bytes : List ℕ) (t : T) → IsWord (be_load_word64 bytes) → IsMasked (ops.load bytes t).0
  pub load_lem :
      (bytes : List ℕ) (t : T)
      → IsWord (be_load_word64 bytes)
      → value (ops.load bytes t).0 ≡ be_load_word64 bytes
  pub load_partial-IsMasked :
      (bytes : List ℕ) (size : ℕ) (t : T)
      → IsBytes bytes
      → size < 8
      → IsMasked (ops.load_partial bytes size t).0
  pub load_partial_lem :
      (bytes : List ℕ) (size : ℕ) (t : T)
      → IsBytes bytes
      → size < 8
      → value (ops.load_partial bytes size t).0 ≡ be_load_word64 (first_bytes size bytes)
  pub load_32-IsMasked :
      (bytes1 bytes2 : List ℕ) (t : T)
      → IsWord (be_load_word32 bytes2)
      → IsMasked (ops.load_32 bytes1 bytes2 t).0
  pub load_32_lem :
      (bytes1 bytes2 : List ℕ) (t : T)
      → IsWord (be_load_word32 bytes2)
      → value (ops.load_32 bytes1 bytes2 t).0
        ≡ bit_xor (shl64 (be_load_word32 bytes1) 32) (be_load_word32 bytes2)
  pub store_lem : (w : Masked ℕ) → ops.store w ≡ be_store_word64 (value w)
  pub store_partial_lem :
      (size : ℕ) (w : Masked ℕ)
      → size < 8
      → IsMasked w
      → ops.store_partial size w ≡ take size (be_store_word64 (value w))
  pub randomize-IsMasked :
      (dest src : Masked ℕ) (t : T)
      → IsMasked dest
      → IsMasked src
      → IsMasked (ops.randomize dest src t).0
  pub randomize_lem :
      (dest src : Masked ℕ) (t : T)
      → IsMasked dest
      → IsMasked src
      → value (ops.randomize dest src t).0 ≡ value src
  pub xor-IsMasked : (x y : Masked ℕ) → IsMasked x → IsMasked y → IsMasked (ops.xor x y)
  pub xor_lem :
      (x y : Masked ℕ) → IsMasked x → IsMasked y → value (ops.xor x y) ≡ bit_xor (value x) (value y)
  pub replace-IsMasked :
      (dest src : Masked ℕ) (size : ℕ)
      → IsMasked dest
      → IsMasked src
      → IsMasked (ops.replace dest src size)
  pub replace_lem :
      (dest src : Masked ℕ) (size : ℕ)
      → IsMasked dest
      → IsMasked src
      → value (ops.replace dest src size)
        ≡ bit_or
            (bit_and (value dest) (keep_mask size))
            (bit_and (value src) (not64 (keep_mask size)))
  pub permute_lem :
      (w : MaskedState) (first_round : ℕ) (r : Preserve ℕ)
      → AllShares IsMasked w
      → IsPreserve r
      → AllShares IsMasked (ops.permute w first_round r).0
        × (words_of value (ops.permute w first_round r).0
            ≡ permute_words (words_of value w) first_round)
        × IsPreserve (ops.permute w first_round r).1

-- ===== src/Masking/Shares/Padding.antt =====
-- `ascon_masked_word_pad` and `ascon_masked_word_separator` on two, three and four shares.
use native.Mathlib.Nat.{div-le_self}
use ascon_suite_tcc.Base.{ℕ, ◌*◌, ◌^◌, ◌≡◌, arith, bit_xor}
use ascon_suite_tcc.Core.Word.{shr64}
use ascon_suite_tcc.Core.Word.Bits.{IsWord}
use ascon_suite_tcc.Core.Word.Symbolic.{words}
use ascon_suite_tcc.Masking.Word.{
  Masked, IsMasked, value2, value3, value4, word_pad, word_separator,
}
use ascon_suite_tcc.Masking.Shares.Two.{add2_lem, add2-IsMasked}
use ascon_suite_tcc.Masking.Shares.Three.{add3_lem}
use ascon_suite_tcc.Masking.Shares.Four.{add4_lem}

module _ (w : Masked ℕ) (h : IsMasked w) where
  -- The padding adds its bit to the value, for each number of shares.
  pub word_pad_lem :
      (offset : ℕ)
      → IsMasked (word_pad w offset)
        × (value2 words (word_pad w offset)
            ≡ bit_xor (value2 words w) (shr64 0x8000000000000000 (offset * 8)))
        × (value3 words (word_pad w offset)
            ≡ bit_xor (value3 words w) (shr64 0x8000000000000000 (offset * 8)))
        × (value4 words (word_pad w offset)
            ≡ bit_xor (value4 words w) (shr64 0x8000000000000000 (offset * 8)))
  unfolding word_pad
  word_pad_lem offset =
      let c = shr64 0x8000000000000000 (offset * 8) in
      let k : IsWord c = omega (arith, div-le_self 0x8000000000000000 (2 ^ (offset * 8))) in
      (add2-IsMasked w h c k, add2_lem w h c k, add3_lem w h c k, add4_lem w h c k)

  -- The separator adds one to the value, for each number of shares.
  pub word_separator_lem :
      IsMasked (word_separator w)
      × (value2 words (word_separator w) ≡ bit_xor (value2 words w) 1)
      × (value3 words (word_separator w) ≡ bit_xor (value3 words w) 1)
      × (value4 words (word_separator w) ≡ bit_xor (value4 words w) 1)
  unfolding word_separator
  word_separator_lem =
      let k : IsWord 1 = omega arith in
      (add2-IsMasked w h 1 k, add2_lem w h 1 k, add3_lem w h 1 k, add4_lem w h 1 k)

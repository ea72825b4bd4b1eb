-- ===== src/Masking/Word.antt =====
-- The masked words of src/masking/ascon-masked-word.h: `ascon_masked_word_t` with
-- `ASCON_MASKED_MAX_SHARES` four, and the rotations that are between the shares. Code on the shares is
-- written for any kind of words, so that it runs on symbolic words too.
use ascon_suite_tcc.Base.{ℕ, ◌*◌, bit_xor}
use ascon_suite_tcc.Core.Word.{shr64}
use ascon_suite_tcc.Core.Word.Bits.{IsWord}
use ascon_suite_tcc.Core.Word.Symbolic.{Ops}

-- `ascon_masked_word_t`: the array `S`
pub record Masked (W : Type 0) : Type 0 where
  pub s0 : W
  pub s1 : W
  pub s2 : W
  pub s3 : W

pub record IsMasked (w : Masked ℕ) : Type 0 where
  pub word0 : IsWord w.s0
  pub word1 : IsWord w.s1
  pub word2 : IsWord w.s2
  pub word3 : IsWord w.s3

module _ {W : Type 0} (o : Ops W) where
  -- `ascon_mask64_rotate_share1_0` and the others with its body
  abbrev pub rotate1 : W → W
  rotate1 x = o.rot x 11

  -- `ascon_mask64_rotate_share2_0` and `ascon_mask64_rotate_share3_1`
  abbrev pub rotate2 : W → W
  rotate2 x = o.rot x 22

  -- `ascon_mask64_rotate_share3_0`
  abbrev pub rotate3 : W → W
  rotate3 x = o.rot x 33

  -- `ascon_mask64_unrotate_share1_0` and the others with its body
  abbrev pub unrotate1 : W → W
  unrotate1 x = o.rot x 53

  -- `ascon_mask64_unrotate_share2_0` and `ascon_mask64_unrotate_share3_1`
  abbrev pub unrotate2 : W → W
  unrotate2 x = o.rot x 42

  -- `ascon_mask64_unrotate_share3_0`
  abbrev pub unrotate3 : W → W
  unrotate3 x = o.rot x 31

  -- the word that two, three and four shares stand for
  abbrev pub value2 : Masked W → W
  value2 w = o.xor w.s0 (unrotate1 w.s1)

  abbrev pub value3 : Masked W → W
  value3 w = o.xor (o.xor w.s0 (unrotate1 w.s1)) (unrotate2 w.s2)

  abbrev pub value4 : Masked W → W
  value4 w = o.xor (o.xor (o.xor w.s0 (unrotate1 w.s1)) (unrotate2 w.s2)) (unrotate3 w.s3)

-- `ascon_masked_word_pad`
unfoldable pub word_pad : Masked ℕ → ℕ → Masked ℕ
word_pad word offset = record word { s0 = bit_xor word.s0 (shr64 0x8000000000000000 (offset * 8)) }

-- `ascon_masked_word_separator`
unfoldable pub word_separator : Masked ℕ → Masked ℕ
word_separator word = record word { s0 = bit_xor word.s0 1 }

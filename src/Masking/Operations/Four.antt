-- ===== src/Masking/Operations/Four.antt =====
-- The operations on four shares of src/masking/ascon-masked-word-c64.c: what each writes, for the
-- random words that it draws, and the interface that they fill.
pub mod Laws
use ascon_suite_tcc.Base.{bit_xor, ℕ, ◌+◌, ◌*◌, List}
use ascon_suite_tcc.Core.Word.{shl64, be_load_word32, be_load_word64, be_store_word64}
use ascon_suite_tcc.Core.Word.Symbolic.{Ops, words}
use ascon_suite_tcc.Masking.Word.{
  Masked, rotate1, rotate2, rotate3, unrotate1, unrotate2, unrotate3, value4,
}
use ascon_suite_tcc.Masking.Shares.{both4, each4, x4_permute}
use ascon_suite_tcc.Masking.Partial.{store_partial, load_partial}
use ascon_suite_tcc.Masking.Operations.{MaskedOps, keep_mask}

module _ {W : Type 0} (o : Ops W) where
  -- `ascon_masked_word_x4_zero`
  unfoldable pub zero4 : W → W → W → Masked W
  zero4 r1 r2 r3 = record {
    s0 = o.xor (o.xor r1 r2) r3;
    s1 = rotate1 o r1;
    s2 = rotate2 o r2;
    s3 = rotate3 o r3;
  }

  -- `ascon_masked_word_x4_load`, of the word `d`
  unfoldable pub load4 : W → W → W → W → Masked W
  load4 d r1 r2 r3 = record {
    s0 = o.xor (o.xor (o.xor r1 r2) r3) d;
    s1 = rotate1 o r1;
    s2 = rotate2 o r2;
    s3 = rotate3 o r3;
  }

  -- `ascon_masked_word_x4_load_32`, of the high half `hi` and the low half `lo`
  unfoldable pub load_32_4 : W → W → W → W → W → Masked W
  load_32_4 hi lo r1 r2 r3 = record {
    s0 = o.xor (o.xor (o.xor r1 r2) hi) (o.xor r3 lo);
    s1 = rotate1 o r1;
    s2 = rotate2 o r2;
    s3 = rotate3 o r3;
  }

  -- `ascon_masked_word_x4_randomize`
  unfoldable pub randomize4 : Masked W → Masked W → W → W → W → Masked W
  randomize4 dest src r1 r2 r3 = record {
    s0 = o.xor (o.xor (o.xor src.s0 r1) r2) r3;
    s1 = o.xor src.s1 (rotate1 o r1);
    s2 = o.xor src.s2 (rotate2 o r2);
    s3 = o.xor src.s3 (rotate3 o r3);
  }

  -- `ascon_masked_word_x4_replace`, with `mask1`
  unfoldable pub replace4 : Masked W → Masked W → W → Masked W
  replace4 dest src mask1 =
      let mask2 = o.inv mask1 in
      record {
        s0 = o.or (o.and dest.s0 mask1) (o.and src.s0 mask2);
        s1 = o.or (o.and dest.s1 (rotate1 o mask1)) (o.and src.s1 (rotate1 o mask2));
        s2 = o.or (o.and dest.s2 (rotate2 o mask1)) (o.and src.s2 (rotate2 o mask2));
        s3 = o.or (o.and dest.s3 (rotate3 o mask1)) (o.and src.s3 (rotate3 o mask2));
      }

  -- `ascon_masked_word_x4_from_x2` and `ascon_masked_word_x4_from_x3`
  unfoldable pub x4_from_x2 : Masked W → W → W → W → Masked W
  x4_from_x2 src r1 r2 r3 = record {
    s0 = o.xor (o.xor (o.xor r1 r2) r3) src.s0;
    s1 = o.xor (rotate1 o r1) src.s1;
    s2 = rotate2 o r2;
    s3 = rotate3 o r3;
  }

  unfoldable pub x4_from_x3 : Masked W → W → W → W → Masked W
  x4_from_x3 src r1 r2 r3 = record {
    s0 = o.xor (o.xor (o.xor r1 r2) r3) src.s0;
    s1 = o.xor (rotate1 o r1) src.s1;
    s2 = o.xor (rotate2 o r2) src.s2;
    s3 = rotate3 o r3;
  }

-- `ascon_masked_word_x4_store`
unfoldable pub store4 : Masked ℕ → List ℕ
store4 w = be_store_word64 (value4 words w)

-- `ascon_masked_word_x4_load_partial`
unfoldable pub load_partial4 : List ℕ → ℕ → ℕ → ℕ → ℕ → Masked ℕ
unfolding load_partial
load_partial4 bytes size r1 r2 r3 =
    let p = load_partial bytes size (r1, rotate1 words r1) in
    record {
      s0 = bit_xor (bit_xor p.0 r2) r3;
      s1 = p.1;
      s2 = rotate2 words r2;
      s3 = rotate3 words r3;
    }

-- `masked1`, `masked2`, ... of `ascon_masked_word_x4_store_partial`, and their sum
abbrev pub positioned4 : Masked ℕ → Masked ℕ
positioned4 w = record {
  s0 = w.s0;
  s1 = unrotate1 words w.s1;
  s2 = unrotate2 words w.s2;
  s3 = unrotate3 words w.s3;
}

abbrev pub total4 : Masked ℕ → ℕ
total4 m = bit_xor (bit_xor (bit_xor m.s0 m.s1) m.s2) m.s3

-- `ascon_masked_word_x4_store_partial`
unfoldable pub store_partial4 : ℕ → Masked ℕ → List ℕ
unfolding store_partial
store_partial4 size w = store_partial each4 total4 size (positioned4 w)

module _ {T : Type 0} (generate : T → ℕ × T) where
  -- The operation draws its random words with `ascon_trng_generate_64`, in this order.
  unfoldable pub draw4 : (ℕ → ℕ → ℕ → Masked ℕ) → T → Masked ℕ × T
  draw4 f t =
      let g1 = generate t in
      let g2 = generate g1.1 in let g3 = generate g2.1 in (f g1.0 g2.0 g3.0, g3.1)

  abbrev pub ops4 : MaskedOps T
  ops4 = record {
    zero = draw4 (zero4 words);
    load = λ bytes. draw4 (load4 words (be_load_word64 bytes));
    load_partial = λ bytes size. draw4 (load_partial4 bytes size);
    load_32 = λ bytes1 bytes2.
        draw4 (load_32_4 words (shl64 (be_load_word32 bytes1) 32) (be_load_word32 bytes2));
    store = store4;
    store_partial = store_partial4;
    randomize = λ dest src. draw4 (randomize4 words dest src);
    xor = both4 words;
    replace = λ dest src size. replace4 words dest src (keep_mask size);
    permute = x4_permute;
  }

-- ===== src/Masking/Operations/Three.antt =====
-- The operations on three shares of src/masking/ascon-masked-word-c64.c: what each writes, for the
-- random words that it draws, and the interface that they fill.
pub mod Laws
use ascon_suite_tcc.Base.{bit_xor, ℕ, ◌+◌, ◌*◌, List}
use ascon_suite_tcc.Core.Word.{shl64, be_load_word32, be_load_word64, be_store_word64}
use ascon_suite_tcc.Core.Word.Symbolic.{Ops, words}
use ascon_suite_tcc.Masking.Word.{
  Masked, rotate1, rotate2, rotate3, unrotate1, unrotate2, unrotate3, value3,
}
use ascon_suite_tcc.Masking.Shares.{both3, each3, x3_permute}
use ascon_suite_tcc.Masking.Partial.{store_partial, load_partial}
use ascon_suite_tcc.Masking.Operations.{MaskedOps, keep_mask}

module _ {W : Type 0} (o : Ops W) (blank : W) where
  -- `ascon_masked_word_x3_zero`
  unfoldable pub zero3 : W → W → Masked W
  zero3 r1 r2 = record { s0 = o.xor r1 r2; s1 = rotate1 o r1; s2 = rotate2 o r2; s3 = blank }

  -- `ascon_masked_word_x3_load`, of the word `d`
  unfoldable pub load3 : W → W → W → Masked W
  load3 d r1 r2 = record {
    s0 = o.xor (o.xor r1 r2) d;
    s1 = rotate1 o r1;
    s2 = rotate2 o r2;
    s3 = blank;
  }

  -- `ascon_masked_word_x3_load_32`, of the high half `hi` and the low half `lo`
  unfoldable pub load_32_3 : W → W → W → W → Masked W
  load_32_3 hi lo r1 r2 = record {
    s0 = o.xor (o.xor r1 hi) (o.xor r2 lo);
    s1 = rotate1 o r1;
    s2 = rotate2 o r2;
    s3 = blank;
  }

  -- `ascon_masked_word_x3_randomize`
  unfoldable pub randomize3 : Masked W → Masked W → W → W → Masked W
  randomize3 dest src r1 r2 = record dest {
    s0 = o.xor (o.xor src.s0 r1) r2;
    s1 = o.xor src.s1 (rotate1 o r1);
    s2 = o.xor src.s2 (rotate2 o r2);
  }

  -- `ascon_masked_word_x3_replace`, with `mask1`
  unfoldable pub replace3 : Masked W → Masked W → W → Masked W
  replace3 dest src mask1 =
      let mask2 = o.inv mask1 in
      record dest {
        s0 = o.or (o.and dest.s0 mask1) (o.and src.s0 mask2);
        s1 = o.or (o.and dest.s1 (rotate1 o mask1)) (o.and src.s1 (rotate1 o mask2));
        s2 = o.or (o.and dest.s2 (rotate2 o mask1)) (o.and src.s2 (rotate2 o mask2));
      }

  -- `ascon_masked_word_x3_from_x2` and `ascon_masked_word_x3_from_x4`
  unfoldable pub x3_from_x2 : Masked W → W → W → Masked W
  x3_from_x2 src r1 r2 = record {
    s0 = o.xor (o.xor r1 r2) src.s0;
    s1 = o.xor (rotate1 o r1) src.s1;
    s2 = rotate2 o r2;
    s3 = blank;
  }

  unfoldable pub x3_from_x4 : Masked W → W → W → Masked W
  x3_from_x4 src r1 r2 = record {
    s0 = o.xor (o.xor (o.xor r1 r2) src.s0) (unrotate3 o src.s3);
    s1 = o.xor (rotate1 o r1) src.s1;
    s2 = o.xor (rotate2 o r2) src.s2;
    s3 = blank;
  }

-- `ascon_masked_word_x3_store`
unfoldable pub store3 : Masked ℕ → List ℕ
store3 w = be_store_word64 (value3 words w)

-- `ascon_masked_word_x3_load_partial`
unfoldable pub load_partial3 : List ℕ → ℕ → ℕ → ℕ → Masked ℕ
unfolding load_partial
load_partial3 bytes size r1 r2 =
    let p = load_partial bytes size (r1, rotate1 words r1) in
    record { s0 = bit_xor p.0 r2; s1 = p.1; s2 = rotate2 words r2; s3 = 0 }

-- `masked1`, `masked2`, ... of `ascon_masked_word_x3_store_partial`, and their sum
abbrev pub positioned3 : Masked ℕ → Masked ℕ
positioned3 w = record { s0 = w.s0; s1 = unrotate1 words w.s1; s2 = unrotate2 words w.s2; s3 = 0 }

abbrev pub total3 : Masked ℕ → ℕ
total3 m = bit_xor (bit_xor m.s0 m.s1) m.s2

-- `ascon_masked_word_x3_store_partial`
unfoldable pub store_partial3 : ℕ → Masked ℕ → List ℕ
unfolding store_partial
store_partial3 size w = store_partial each3 total3 size (positioned3 w)

module _ {T : Type 0} (generate : T → ℕ × T) where
  -- The operation draws its random words with `ascon_trng_generate_64`, in this order.
  unfoldable pub draw3 : (ℕ → ℕ → Masked ℕ) → T → Masked ℕ × T
  draw3 f t = let g1 = generate t in let g2 = generate g1.1 in (f g1.0 g2.0, g2.1)

  abbrev pub ops3 : MaskedOps T
  ops3 = record {
    zero = draw3 (zero3 words 0);
    load = λ bytes. draw3 (load3 words 0 (be_load_word64 bytes));
    load_partial = λ bytes size. draw3 (load_partial3 bytes size);
    load_32 = λ bytes1 bytes2.
        draw3 (load_32_3 words 0 (shl64 (be_load_word32 bytes1) 32) (be_load_word32 bytes2));
    store = store3;
    store_partial = store_partial3;
    randomize = λ dest src. draw3 (randomize3 words 0 dest src);
    xor = both3 words;
    replace = λ dest src size. replace3 words 0 dest src (keep_mask size);
    permute = x3_permute;
  }

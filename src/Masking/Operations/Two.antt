-- ===== src/Masking/Operations/Two.antt =====
-- The operations on two shares of src/masking/ascon-masked-word-c64.c: what each writes, for the
-- random words that it draws, and the interface that they fill.
pub mod Laws
use ascon_suite_tcc.Base.{bit_xor, ℕ, ◌+◌, ◌*◌, List}
use ascon_suite_tcc.Core.Word.{shl64, be_load_word32, be_load_word64, be_store_word64}
use ascon_suite_tcc.Core.Word.Symbolic.{Ops, words}
use ascon_suite_tcc.Masking.Word.{
  Masked, rotate1, rotate2, rotate3, unrotate1, unrotate2, unrotate3, value2,
}
use ascon_suite_tcc.Masking.Shares.{both2, each2, x2_permute}
use ascon_suite_tcc.Masking.Partial.{store_partial, load_partial}
use ascon_suite_tcc.Masking.Operations.{MaskedOps, keep_mask}

module _ {W : Type 0} (o : Ops W) (blank : W) where
  -- `ascon_masked_word_x2_zero`
  unfoldable pub zero2 : W → Masked W
  zero2 r1 = record { s0 = r1; s1 = rotate1 o r1; s2 = blank; s3 = blank }

  -- `ascon_masked_word_x2_load`, of the word `d`
  unfoldable pub load2 : W → W → Masked W
  load2 d r1 = record { s0 = o.xor r1 d; s1 = rotate1 o r1; s2 = blank; s3 = blank }

  -- `ascon_masked_word_x2_load_32`, of the high half `hi` and the low half `lo`
  unfoldable pub load_32_2 : W → W → W → Masked W
  load_32_2 hi lo r1 = record {
    s0 = o.xor (o.xor r1 hi) lo;
    s1 = rotate1 o r1;
    s2 = blank;
    s3 = blank;
  }

  -- `ascon_masked_word_x2_randomize`
  unfoldable pub randomize2 : Masked W → Masked W → W → Masked W
  randomize2 dest src r1 = record dest { s0 = o.xor src.s0 r1; s1 = o.xor src.s1 (rotate1 o r1) }

  -- `ascon_masked_word_x2_replace`, with `mask1`
  unfoldable pub replace2 : Masked W → Masked W → W → Masked W
  replace2 dest src mask1 =
      let mask2 = o.inv mask1 in
      record dest {
        s0 = o.or (o.and dest.s0 mask1) (o.and src.s0 mask2);
        s1 = o.or (o.and dest.s1 (rotate1 o mask1)) (o.and src.s1 (rotate1 o mask2));
      }

  -- `ascon_masked_word_x2_from_x3` and `ascon_masked_word_x2_from_x4`
  unfoldable pub x2_from_x3 : Masked W → W → Masked W
  x2_from_x3 src r1 = record {
    s0 = o.xor r1 src.s0;
    s1 = o.xor (o.xor (rotate1 o r1) src.s1) (unrotate1 o src.s2);
    s2 = blank;
    s3 = blank;
  }

  unfoldable pub x2_from_x4 : Masked W → W → Masked W
  x2_from_x4 src r1 = record {
    s0 = o.xor (o.xor r1 src.s0) (unrotate2 o src.s2);
    s1 = o.xor (o.xor (rotate1 o r1) src.s1) (unrotate2 o src.s3);
    s2 = blank;
    s3 = blank;
  }

-- `ascon_masked_word_x2_store`
unfoldable pub store2 : Masked ℕ → List ℕ
store2 w = be_store_word64 (value2 words w)

-- `ascon_masked_word_x2_load_partial`
unfoldable pub load_partial2 : List ℕ → ℕ → ℕ → Masked ℕ
unfolding load_partial
load_partial2 bytes size r1 =
    let p = load_partial bytes size (r1, rotate1 words r1) in
    record { s0 = p.0; s1 = p.1; s2 = 0; s3 = 0 }

-- `masked1`, `masked2`, ... of `ascon_masked_word_x2_store_partial`, and their sum
abbrev pub positioned2 : Masked ℕ → Masked ℕ
positioned2 w = record { s0 = w.s0; s1 = unrotate1 words w.s1; s2 = 0; s3 = 0 }

abbrev pub total2 : Masked ℕ → ℕ
total2 m = bit_xor m.s0 m.s1

-- `ascon_masked_word_x2_store_partial`
unfoldable pub store_partial2 : ℕ → Masked ℕ → List ℕ
unfolding store_partial
store_partial2 size w = store_partial each2 total2 size (positioned2 w)

module _ {T : Type 0} (generate : T → ℕ × T) where
  -- The operation draws its random words with `ascon_trng_generate_64`, in this order.
  unfoldable pub draw2 : (ℕ → Masked ℕ) → T → Masked ℕ × T
  draw2 f t = let g1 = generate t in (f g1.0, g1.1)

  abbrev pub ops2 : MaskedOps T
  ops2 = record {
    zero = draw2 (zero2 words 0);
    load = λ bytes. draw2 (load2 words 0 (be_load_word64 bytes));
    load_partial = λ bytes size. draw2 (load_partial2 bytes size);
    load_32 = λ bytes1 bytes2.
        draw2 (load_32_2 words 0 (shl64 (be_load_word32 bytes1) 32) (be_load_word32 bytes2));
    store = store2;
    store_partial = store_partial2;
    randomize = λ dest src. draw2 (randomize2 words 0 dest src);
    xor = both2 words;
    replace = λ dest src size. replace2 words 0 dest src (keep_mask size);
    permute = x2_permute;
  }

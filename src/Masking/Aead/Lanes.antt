-- ===== src/Masking/Aead/Lanes.antt =====
-- The bytes of the plain state as five words: a step at the first or at the second word changes that
-- word only.
use ascon_suite_tcc.Base.{
  ℕ, suc, ◌+◌, ◌<◌, ◌≤◌, ◌≡◌, refl, sym, ap, ◌∙◌, arith, bit_xor, Bool, List, [], ◌∷◌, ◌++◌, length,
  get_or,
}
use ascon_suite_tcc.Core.Word.{be_load_word64, be_store_word64}
use ascon_suite_tcc.Core.Word.Bits.{IsWord}
use ascon_suite_tcc.Core.Word.Bytes.{load-store}
use ascon_suite_tcc.Core.Word.Split.{eight}
use ascon_suite_tcc.Core.Word.Replace.{add_at}
use ascon_suite_tcc.Core.Permutation.{Words, load_words, store_words, permute_words, permute}
use ascon_suite_tcc.Core.Snp.{each_byte, pad}
use ascon_suite_tcc.Core.Snp.Local.{overlay, zip, each_byte-local, set_inside, get_inside}
use ascon_suite_tcc.Masking.Aead.Word.{plain_byte, put_byte, plain-ActsBy}

pub record AreWords (w : Words) : Type 0 where
  pub word0 : IsWord w.x0
  pub word1 : IsWord w.x1
  pub word2 : IsWord w.x2
  pub word3 : IsWord w.x3
  pub word4 : IsWord w.x4

pub load_words-store_words : (w : Words) → AreWords w → load_words (store_words w) ≡ w
unfolding load_words store_words be_store_word64 be_load_word64
load_words-store_words w h =
    let split : load_words (store_words w) ≡ record {
      x0 = be_load_word64 (be_store_word64 w.x0);
      x1 = be_load_word64 (be_store_word64 w.x1);
      x2 = be_load_word64 (be_store_word64 w.x2);
      x3 = be_load_word64 (be_store_word64 w.x3);
      x4 = be_load_word64 (be_store_word64 w.x4);
    } =
      refl in
    split
    ∙ rw
        (
          load-store w.x0 h.word0,
          load-store w.x1 h.word1,
          load-store w.x2 h.word2,
          load-store w.x3 h.word3,
          load-store w.x4 h.word4,
        )
        refl

pub permute-store_words :
    (w : Words) (first_round : ℕ)
    → AreWords w
    → permute (store_words w) first_round ≡ store_words (permute_words w first_round)
unfolding permute
permute-store_words w first_round h =
    ap (λ v. store_words (permute_words v first_round)) (load_words-store_words w h)

-- what is behind the first word, and behind the second
abbrev pub behind1 : Words → List ℕ
behind1 w = be_store_word64 w.x2 ++ (be_store_word64 w.x3 ++ be_store_word64 w.x4)

abbrev pub behind0 : Words → List ℕ
behind0 w = be_store_word64 w.x1 ++ behind1 w

-- The words with the first, or the second, given by its bytes.
pub put_first :
    (w : Words) (x : ℕ) (b : List ℕ)
    → be_store_word64 x ≡ b
    → store_words (record w { x0 = x }) ≡ b ++ behind0 w
unfolding store_words
put_first w x b e = ap (λ c. c ++ behind0 w) e

pub put_second :
    (w : Words) (x : ℕ) (b : List ℕ)
    → be_store_word64 x ≡ b
    → store_words (record w { x1 = x }) ≡ be_store_word64 w.x0 ++ (b ++ behind1 w)
unfolding store_words
put_second w x b e = ap (λ c. be_store_word64 w.x0 ++ (c ++ behind1 w)) e

pub first_word :
    (decrypting : Bool) (w : Words) (d : List ℕ)
    → length d ≤ 8
    → let mid = be_store_word64 w.x0 in
      each_byte (plain_byte decrypting) (store_words w) d 0
      ≡ record { state = overlay (put_byte decrypting) mid d ++ behind0 w; out = zip bit_xor mid d }
unfolding store_words
first_word decrypting w d h =
    each_byte-local (plain_byte decrypting) (put_byte decrypting) bit_xor (plain-ActsBy decrypting)
      [] (be_store_word64 w.x0) (behind0 w) d (omega (arith, eight w.x0))

pub second_word :
    (decrypting : Bool) (w : Words) (d : List ℕ)
    → length d ≤ 8
    → let pre = be_store_word64 w.x0 in
      let mid = be_store_word64 w.x1 in
      each_byte (plain_byte decrypting) (store_words w) d 8 ≡ record {
        state = pre ++ (overlay (put_byte decrypting) mid d ++ behind1 w);
        out = zip bit_xor mid d;
      }
unfolding store_words
second_word decrypting w d h =
    let pre = be_store_word64 w.x0 in
    ap (each_byte (plain_byte decrypting) (store_words w) d) (sym (eight w.x0))
    ∙ each_byte-local (plain_byte decrypting) (put_byte decrypting) bit_xor
        (plain-ActsBy decrypting) pre (be_store_word64 w.x1) (behind1 w) d
        (omega (arith, eight w.x1))

-- Adding a byte to the list between two others.
pub add_at-inside :
    (pre mid post : List ℕ) (k c : ℕ)
    → k < length mid
    → add_at (pre ++ (mid ++ post)) (length pre + k) c ≡ pre ++ (add_at mid k c ++ post)
add_at-inside pre mid post k c h =
    rw (get_inside pre mid post k h) (set_inside pre mid post k (bit_xor (get_or mid k 0) c) h)

pub pad_first :
    (mid post : List ℕ) (k : ℕ) → k < length mid → pad (mid ++ post) k ≡ add_at mid k 0x80 ++ post
unfolding pad
pad_first mid post k h =
    let at : k ≡ 0 + k = omega arith in
    ap (λ n. add_at (mid ++ post) n 0x80) at ∙ add_at-inside [] mid post k 0x80 h

pub pad_second :
    (x : ℕ) (mid post : List ℕ) (k : ℕ)
    → k < length mid
    → let pre = be_store_word64 x in
      pad (pre ++ (mid ++ post)) (8 + k) ≡ pre ++ (add_at mid k 0x80 ++ post)
unfolding pad
pad_second x mid post k h =
    let pre = be_store_word64 x in
    ap (λ n. add_at (pre ++ (mid ++ post)) (n + k) 0x80) (sym (eight x))
    ∙ add_at-inside pre mid post k 0x80 h

length-overlaid : (f : ℕ → ℕ → ℕ) (mid d : List ℕ) → length (overlay f mid d) ≡ length mid
unfolding overlay
length-overlaid f mid [] = refl
length-overlaid f [] (b ∷ d) = refl
length-overlaid f (x ∷ mid) (b ∷ d) = ap suc (length-overlaid f mid d)

pub length-overlay :
    (f : ℕ → ℕ → ℕ) (x : ℕ) (d : List ℕ) → length (overlay f (be_store_word64 x) d) ≡ 8
length-overlay f x d = length-overlaid f (be_store_word64 x) d ∙ eight x

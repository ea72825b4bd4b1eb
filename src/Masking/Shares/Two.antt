-- ===== src/Masking/Shares/Two.antt =====
-- The operations on two shares act on the value that the shares stand for.
use ascon_suite_tcc.Base.{ℕ, ◌<◌, ◌≡◌, refl, arith, bit_and, bit_xor}
use ascon_suite_tcc.Base.Bits.Laws.{xor-lt}
use ascon_suite_tcc.Core.Word.{not64, right_rotate_64}
use ascon_suite_tcc.Core.Word.Bits.{IsWord, rotate-IsWord}
use ascon_suite_tcc.Core.Word.Linear.{diffuse-IsWord, diffuse-xor, diffuse-rotate}
use ascon_suite_tcc.Core.Word.Symbolic.{
  blank, sum, meet, complement, symbols, words, eval, norm, plus,
}
use ascon_suite_tcc.Core.Permutation.{diffuse_word, permute_words}
use ascon_suite_tcc.Masking.Word.{Masked, IsMasked, value2}
use ascon_suite_tcc.Masking.Permute.Laws.{SharingLaws, AllShares, words_of, permute_lem}
use ascon_suite_tcc.Masking.Shares.{
  Preserve, IsPreserve, MaskedState, and_not_xor2, both2, each2, fresh2, advance2, sharing2,
  x2_permute,
}
use ascon_suite_tcc.Masking.Shares.Symbols.{
  at, plain, plain-IsMasked, decide_masked, eval-IsMasked, drawn, drawn-IsMasked, random,
}

module _ (x y z : Masked ℕ) (h : IsMasked x) (k : IsMasked y) (l : IsMasked z) where
  and_not_xor-IsMasked : IsMasked (and_not_xor2 words x y z)
  unfolding eval and_not_xor2
  and_not_xor-IsMasked =
      let e = and_not_xor2 symbols (at 0) (at 4) (at 8) in
      eval-IsMasked x y z h k l e.s0 e.s1 e.s2 e.s3

  -- `x ^= ~y & z` on the values
  and_not_xor2_lem :
      value2 words (and_not_xor2 words x y z)
      ≡ bit_xor (value2 words x) (bit_and (not64 (value2 words y)) (value2 words z))
  unfolding eval norm plus and_not_xor2
  and_not_xor2_lem =
      decide_masked x y z h k l (value2 symbols (and_not_xor2 symbols (at 0) (at 4) (at 8)))
        (sum (value2 symbols (at 0))
          (meet (complement (value2 symbols (at 4))) (value2 symbols (at 8))))
        refl

module _ (x y : Masked ℕ) (h : IsMasked x) (k : IsMasked y) where
  pub both2-IsMasked : IsMasked (both2 words x y)
  unfolding eval both2
  both2-IsMasked =
      let e = both2 symbols (at 0) (at 4) in eval-IsMasked x y x h k h e.s0 e.s1 e.s2 e.s3

  pub both2_lem : value2 words (both2 words x y) ≡ bit_xor (value2 words x) (value2 words y)
  unfolding eval norm plus both2
  both2_lem =
      decide_masked x y x h k h (value2 symbols (both2 symbols (at 0) (at 4)))
        (sum (value2 symbols (at 0)) (value2 symbols (at 4))) refl

module _ (x : Masked ℕ) (h : IsMasked x) where
  not_lem : value2 words (record x { s0 = not64 x.s0 }) ≡ not64 (value2 words x)
  unfolding eval norm plus
  not_lem =
      decide_masked x x x h h h (value2 symbols (record (at 0) { s0 = complement (at 0).s0 }))
        (complement (value2 symbols (at 0))) refl

  not-IsMasked : IsMasked (record x { s0 = not64 x.s0 })
  unfolding eval
  not-IsMasked = eval-IsMasked x x x h h h (complement (at 0).s0) (at 0).s1 (at 0).s2 (at 0).s3

  pub add2_lem :
      (c : ℕ)
      → IsWord c
      → value2 words (record x { s0 = bit_xor x.s0 c }) ≡ bit_xor (value2 words x) c
  unfolding eval norm plus
  add2_lem c k =
      decide_masked x (plain c) x h (plain-IsMasked c k) h
        (value2 symbols (record (at 0) { s0 = sum (at 0).s0 (at 4).s0 }))
        (sum (value2 symbols (at 0)) (at 4).s0) refl

  pub add2-IsMasked : (c : ℕ) → IsWord c → IsMasked (record x { s0 = bit_xor x.s0 c })
  add2-IsMasked c k = record {
    word0 = xor-lt 64 x.s0 c h.word0 k;
    word1 = h.word1;
    word2 = h.word2;
    word3 = h.word3;
  }

  diffuse-IsMasked : (a b : ℕ) → IsMasked (each2 (λ y. diffuse_word y a b) x)
  unfolding each2
  diffuse-IsMasked a b = record {
    word0 = diffuse-IsWord x.s0 a b h.word0;
    word1 = diffuse-IsWord x.s1 a b h.word1;
    word2 = h.word2;
    word3 = h.word3;
  }

  diffuse_lem :
      (a b : ℕ)
      → a < 64
      → b < 64
      → value2 words (each2 (λ y. diffuse_word y a b) x) ≡ diffuse_word (value2 words x) a b
  unfolding each2
  diffuse_lem a b p q =
      let r1 = right_rotate_64 x.s1 53 in
      let k1 = rotate-IsWord x.s1 53 h.word1 in
      let e1 = diffuse-rotate x.s1 53 a b h.word1 (omega arith) p q in
      let f1 = diffuse-xor x.s0 r1 a b h.word0 k1 p q in rw (f1, e1) refl

module _ (r : Preserve ℕ) (h : IsPreserve r) where
  fresh_lem : value2 words (fresh2 words 0 r) ≡ 0
  unfolding eval norm plus fresh2
  fresh_lem =
      let k = drawn-IsMasked r h in
      decide_masked (drawn r) (drawn r) (drawn r) k k k
        (value2 symbols (fresh2 symbols blank random)) blank refl

  fresh-IsMasked : IsMasked (fresh2 words 0 r)
  unfolding eval fresh2
  fresh-IsMasked =
      let k = drawn-IsMasked r h in
      let e = fresh2 symbols blank random in
      eval-IsMasked (drawn r) (drawn r) (drawn r) k k k e.s0 e.s1 e.s2 e.s3

  advance-IsPreserve : IsPreserve (advance2 r)
  unfolding advance2
  advance-IsPreserve = record {
    word0 = rotate-IsWord r.p0 13 h.word0;
    word1 = h.word1;
    word2 = h.word2;
  }

abbrev laws2 : SharingLaws sharing2
laws2 = record {
  value = value2 words;
  IsShares = IsMasked;
  IsRandom = IsPreserve;
  both-IsShares = both2-IsMasked;
  both_lem = both2_lem;
  add-IsShares = λ x c h. add2-IsMasked x h c;
  add_lem = λ x c h. add2_lem x h c;
  not-IsShares = not-IsMasked;
  not_lem = not_lem;
  diffuse-IsShares = λ x a b h. diffuse-IsMasked x h a b;
  diffuse_lem = λ x a b h. diffuse_lem x h a b;
  and_not_xor-IsShares = and_not_xor-IsMasked;
  and_not_xor_lem = and_not_xor2_lem;
  fresh-IsShares = fresh-IsMasked;
  fresh_lem = fresh_lem;
  advance-IsRandom = advance-IsPreserve;
}

-- For a state and randomness of 64-bit words, `ascon_x2_permute` permutes the five words that the
-- shares stand for, for every first round: it gives what `ascon_permute` gives on them, and the
-- shares and the randomness that it leaves are 64-bit words again.
pub x2-permute :
    (w : MaskedState) (first_round : ℕ) (r : Preserve ℕ)
    → AllShares IsMasked w
    → IsPreserve r
    → AllShares IsMasked (x2_permute w first_round r).0
      × (words_of (value2 words) (x2_permute w first_round r).0
          ≡ permute_words (words_of (value2 words) w) first_round)
      × IsPreserve (x2_permute w first_round r).1
unfolding x2_permute
x2-permute = permute_lem sharing2 laws2

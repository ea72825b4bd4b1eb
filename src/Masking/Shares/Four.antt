-- ===== src/Masking/Shares/Four.antt =====
-- The operations on four shares act on the value that the shares stand for.
use ascon_suite_tcc.Base.{ℕ, ◌<◌, ◌≡◌, refl, arith, bit_and, bit_xor}
use ascon_suite_tcc.Base.Bits.Laws.{xor-lt}
use ascon_suite_tcc.Core.Word.{not64, right_rotate_64}
use ascon_suite_tcc.Core.Word.Bits.{IsWord, rotate-IsWord}
use ascon_suite_tcc.Core.Word.Linear.{diffuse-IsWord, diffuse-xor, diffuse-rotate}
use ascon_suite_tcc.Core.Word.Symbolic.{
  blank, sum, meet, complement, symbols, words, eval, norm, plus,
}
use ascon_suite_tcc.Core.Permutation.{diffuse_word, permute_words}
use ascon_suite_tcc.Masking.Word.{Masked, IsMasked, value4}
use ascon_suite_tcc.Masking.Permute.Laws.{SharingLaws, AllShares, words_of, permute_lem}
use ascon_suite_tcc.Masking.Shares.{
  Preserve, IsPreserve, MaskedState, and_not_xor4, both4, each4, fresh4, advance4, sharing4,
  x4_permute,
}
use ascon_suite_tcc.Masking.Shares.Symbols.{
  at, plain, plain-IsMasked, decide_masked, eval-IsMasked, drawn, drawn-IsMasked, random,
}

module _ (x y z : Masked ℕ) (h : IsMasked x) (k : IsMasked y) (l : IsMasked z) where
  and_not_xor-IsMasked : IsMasked (and_not_xor4 words x y z)
  unfolding eval and_not_xor4
  and_not_xor-IsMasked =
      let e = and_not_xor4 symbols (at 0) (at 4) (at 8) in
      eval-IsMasked x y z h k l e.s0 e.s1 e.s2 e.s3

  -- `x ^= ~y & z` on the values
  and_not_xor4_lem :
      value4 words (and_not_xor4 words x y z)
      ≡ bit_xor (value4 words x) (bit_and (not64 (value4 words y)) (value4 words z))
  unfolding eval norm plus and_not_xor4
  and_not_xor4_lem =
      decide_masked x y z h k l (value4 symbols (and_not_xor4 symbols (at 0) (at 4) (at 8)))
        (sum (value4 symbols (at 0))
          (meet (complement (value4 symbols (at 4))) (value4 symbols (at 8))))
        refl

module _ (x y : Masked ℕ) (h : IsMasked x) (k : IsMasked y) where
  pub both4-IsMasked : IsMasked (both4 words x y)
  unfolding eval both4
  both4-IsMasked =
      let e = both4 symbols (at 0) (at 4) in eval-IsMasked x y x h k h e.s0 e.s1 e.s2 e.s3

  pub both4_lem : value4 words (both4 words x y) ≡ bit_xor (value4 words x) (value4 words y)
  unfolding eval norm plus both4
  both4_lem =
      decide_masked x y x h k h (value4 symbols (both4 symbols (at 0) (at 4)))
        (sum (value4 symbols (at 0)) (value4 symbols (at 4))) refl

module _ (x : Masked ℕ) (h : IsMasked x) where
  not_lem : value4 words (record x { s0 = not64 x.s0 }) ≡ not64 (value4 words x)
  unfolding eval norm plus
  not_lem =
      decide_masked x x x h h h (value4 symbols (record (at 0) { s0 = complement (at 0).s0 }))
        (complement (value4 symbols (at 0))) refl

  not-IsMasked : IsMasked (record x { s0 = not64 x.s0 })
  unfolding eval
  not-IsMasked = eval-IsMasked x x x h h h (complement (at 0).s0) (at 0).s1 (at 0).s2 (at 0).s3

  pub add4_lem :
      (c : ℕ)
      → IsWord c
      → value4 words (record x { s0 = bit_xor x.s0 c }) ≡ bit_xor (value4 words x) c
  unfolding eval norm plus
  add4_lem c k =
      decide_masked x (plain c) x h (plain-IsMasked c k) h
        (value4 symbols (record (at 0) { s0 = sum (at 0).s0 (at 4).s0 }))
        (sum (value4 symbols (at 0)) (at 4).s0) refl

  pub add4-IsMasked : (c : ℕ) → IsWord c → IsMasked (record x { s0 = bit_xor x.s0 c })
  add4-IsMasked c k = record {
    word0 = xor-lt 64 x.s0 c h.word0 k;
    word1 = h.word1;
    word2 = h.word2;
    word3 = h.word3;
  }

  diffuse-IsMasked : (a b : ℕ) → IsMasked (each4 (λ y. diffuse_word y a b) x)
  unfolding each4
  diffuse-IsMasked a b = record {
    word0 = diffuse-IsWord x.s0 a b h.word0;
    word1 = diffuse-IsWord x.s1 a b h.word1;
    word2 = diffuse-IsWord x.s2 a b h.word2;
    word3 = diffuse-IsWord x.s3 a b h.word3;
  }

  diffuse_lem :
      (a b : ℕ)
      → a < 64
      → b < 64
      → value4 words (each4 (λ y. diffuse_word y a b) x) ≡ diffuse_word (value4 words x) a b
  unfolding each4
  diffuse_lem a b p q =
      let r1 = right_rotate_64 x.s1 53 in
      let k1 = rotate-IsWord x.s1 53 h.word1 in
      let e1 = diffuse-rotate x.s1 53 a b h.word1 (omega arith) p q in
      let r2 = right_rotate_64 x.s2 42 in
      let k2 = rotate-IsWord x.s2 42 h.word2 in
      let e2 = diffuse-rotate x.s2 42 a b h.word2 (omega arith) p q in
      let r3 = right_rotate_64 x.s3 31 in
      let k3 = rotate-IsWord x.s3 31 h.word3 in
      let e3 = diffuse-rotate x.s3 31 a b h.word3 (omega arith) p q in
      let f1 = diffuse-xor x.s0 r1 a b h.word0 k1 p q in
      let v1 = bit_xor x.s0 r1 in
      let m1 = xor-lt 64 x.s0 r1 h.word0 k1 in
      let f2 = diffuse-xor v1 r2 a b m1 k2 p q in
      let v2 = bit_xor v1 r2 in
      let m2 = xor-lt 64 v1 r2 m1 k2 in
      let f3 = diffuse-xor v2 r3 a b m2 k3 p q in rw (f3, f2, f1, e1, e2, e3) refl

module _ (r : Preserve ℕ) (h : IsPreserve r) where
  fresh_lem : value4 words (fresh4 words r) ≡ 0
  unfolding eval norm plus fresh4
  fresh_lem =
      let k = drawn-IsMasked r h in
      decide_masked (drawn r) (drawn r) (drawn r) k k k (value4 symbols (fresh4 symbols random))
        blank refl

  fresh-IsMasked : IsMasked (fresh4 words r)
  unfolding eval fresh4
  fresh-IsMasked =
      let k = drawn-IsMasked r h in
      let e = fresh4 symbols random in
      eval-IsMasked (drawn r) (drawn r) (drawn r) k k k e.s0 e.s1 e.s2 e.s3

  advance-IsPreserve : IsPreserve (advance4 r)
  unfolding advance4
  advance-IsPreserve = record {
    word0 = rotate-IsWord r.p0 13 h.word0;
    word1 = rotate-IsWord r.p1 29 h.word1;
    word2 = rotate-IsWord r.p2 59 h.word2;
  }

abbrev laws4 : SharingLaws sharing4
laws4 = record {
  value = value4 words;
  IsShares = IsMasked;
  IsRandom = IsPreserve;
  both-IsShares = both4-IsMasked;
  both_lem = both4_lem;
  add-IsShares = λ x c h. add4-IsMasked x h c;
  add_lem = λ x c h. add4_lem x h c;
  not-IsShares = not-IsMasked;
  not_lem = not_lem;
  diffuse-IsShares = λ x a b h. diffuse-IsMasked x h a b;
  diffuse_lem = λ x a b h. diffuse_lem x h a b;
  and_not_xor-IsShares = and_not_xor-IsMasked;
  and_not_xor_lem = and_not_xor4_lem;
  fresh-IsShares = fresh-IsMasked;
  fresh_lem = fresh_lem;
  advance-IsRandom = advance-IsPreserve;
}

-- For a state and randomness of 64-bit words, `ascon_x4_permute` permutes the five words that the
-- shares stand for, for every first round: it gives what `ascon_permute` gives on them, and the
-- shares and the randomness that it leaves are 64-bit words again.
pub x4-permute :
    (w : MaskedState) (first_round : ℕ) (r : Preserve ℕ)
    → AllShares IsMasked w
    → IsPreserve r
    → AllShares IsMasked (x4_permute w first_round r).0
      × (words_of (value4 words) (x4_permute w first_round r).0
          ≡ permute_words (words_of (value4 words) w) first_round)
      × IsPreserve (x4_permute w first_round r).1
unfolding x4_permute
x4-permute = permute_lem sharing4 laws4

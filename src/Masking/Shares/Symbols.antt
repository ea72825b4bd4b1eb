-- ===== src/Masking/Shares/Symbols.antt =====
-- Masked words as symbols: equations between up to three masked words are decided.
use ascon_suite_tcc.Base.{ℕ, ◌+◌, ◌≡◌, [], ◌∷◌, arith}
use ascon_suite_tcc.Core.Word.Bits.{IsWord}
use ascon_suite_tcc.Core.Word.Symbolic.{Symbol, var, eval, norm, plus}
use ascon_suite_tcc.Core.Word.Symbolic.Sound.{eval-IsWord, decide_words, values, values-IsWord}
use ascon_suite_tcc.Masking.Word.{Masked, IsMasked}
use ascon_suite_tcc.Masking.Shares.{Preserve, IsPreserve}

-- the masked word of four variables in a row
abbrev pub at : ℕ → Masked Symbol
at v = record { s0 = var v; s1 = var (v + 1); s2 = var (v + 2); s3 = var (v + 3) }

pub four_words : (w : Masked ℕ) → IsWord w.s0 → IsWord w.s1 → IsWord w.s2 → IsWord w.s3 → IsMasked w
four_words w h k l m = record { word0 = h; word1 = k; word2 = l; word3 = m }

-- the masked word whose first share is `c`
abbrev pub plain : ℕ → Masked ℕ
plain c = record { s0 = c; s1 = 0; s2 = 0; s3 = 0 }

pub plain-IsMasked : (c : ℕ) → IsWord c → IsMasked (plain c)
plain-IsMasked c h = record {
  word0 = h;
  word1 = omega arith;
  word2 = omega arith;
  word3 = omega arith;
}

abbrev pub three : Masked ℕ → Masked ℕ → Masked ℕ → ℕ → ℕ
three x y z =
    values (x.s0 ∷ x.s1 ∷ x.s2 ∷ x.s3 ∷ y.s0 ∷ y.s1 ∷ y.s2 ∷ y.s3 ∷ z.s0 ∷ z.s1 ∷ z.s2 ∷ z.s3 ∷ [])

module _ (x y z : Masked ℕ) (h : IsMasked x) (k : IsMasked y) (l : IsMasked z) where
  three-IsWord : (v : ℕ) → IsWord (three x y z v)
  three-IsWord =
      values-IsWord
        (x.s0 ∷ x.s1 ∷ x.s2 ∷ x.s3 ∷ y.s0 ∷ y.s1 ∷ y.s2 ∷ y.s3 ∷ z.s0 ∷ z.s1 ∷ z.s2 ∷ z.s3 ∷ [])
        (
          h.word0,
          (
            h.word1,
            (
              h.word2,
              (
                h.word3,
                (
                  k.word0,
                  (k.word1, (k.word2, (k.word3, (l.word0, (l.word1, (l.word2, (l.word3, tt))))))),
                ),
              ),
            ),
          ),
        )

  pub decide_masked :
      (a b : Symbol) → plus (norm a 0) (norm b 0) ≡ [] → eval (three x y z) a ≡ eval (three x y z) b
  decide_masked a b e = decide_words (three x y z) three-IsWord a b e

  pub eval-IsMasked :
      (a b c d : Symbol)
      → IsMasked record {
        s0 = eval (three x y z) a;
        s1 = eval (three x y z) b;
        s2 = eval (three x y z) c;
        s3 = eval (three x y z) d;
      }
  eval-IsMasked a b c d =
      let word = eval-IsWord (three x y z) three-IsWord in
      record { word0 = word a; word1 = word b; word2 = word c; word3 = word d }

-- the randomness as a masked word
abbrev pub drawn : Preserve ℕ → Masked ℕ
drawn r = record { s0 = r.p0; s1 = r.p1; s2 = r.p2; s3 = 0 }

pub drawn-IsMasked : (r : Preserve ℕ) → IsPreserve r → IsMasked (drawn r)
drawn-IsMasked r h = record {
  word0 = h.word0;
  word1 = h.word1;
  word2 = h.word2;
  word3 = omega arith;
}

abbrev pub random : Preserve Symbol
random = record { p0 = var 0; p1 = var 1; p2 = var 2 }

-- ===== src/Masking/Operations/Two/Laws.antt =====
-- What the operations on two shares do to the value that the shares stand for.
use ascon_suite_tcc.Base.{ℕ, ◌<◌, ◌≡◌, ◌∙◌, refl, List, take, arith, bit_and, bit_or, bit_xor}
use ascon_suite_tcc.Core.Word.{
  not64, shl64, be_load_word32, be_load_word64, be_store_word64, right_rotate_64,
}
use ascon_suite_tcc.Core.Word.Bits.{IsWord, rotate-IsWord}
use ascon_suite_tcc.Core.Word.Symbolic.{
  blank, sum, meet, join, complement, turn, symbols, words, eval, norm, plus,
}
use ascon_suite_tcc.Masking.Word.{Masked, IsMasked, value2, value3, value4}
use ascon_suite_tcc.Base.Bits.Laws.{xor-lt}
use ascon_suite_tcc.Core.Word.Linear.{rotate-xor}
use ascon_suite_tcc.Base.Bytes.{IsBytes}
use ascon_suite_tcc.Masking.Partial.{load_partial}
use ascon_suite_tcc.Masking.Partial.Plain.{first_bytes}
use ascon_suite_tcc.Masking.Partial.Load.{load_partial_lem}
use ascon_suite_tcc.Masking.Partial.Store.{store_partial_lem}
use ascon_suite_tcc.Masking.Shares.{each2}
use ascon_suite_tcc.Masking.Shares.Two.{both2-IsMasked, both2_lem, x2-permute}
use ascon_suite_tcc.Masking.Shares.Symbols.{
  at, four_words, plain, plain-IsMasked, decide_masked, eval-IsMasked,
}
use ascon_suite_tcc.Masking.Operations.{IsMaskedOps, keep_mask, mask-IsWord}
use ascon_suite_tcc.Masking.Operations.Two.{
  zero2, load2, load_partial2, load_32_2, randomize2, replace2, x2_from_x3, x2_from_x4, store2,
  store_partial2, positioned2, total2, draw2, ops2,
}

value2-IsWord : (w : Masked ℕ) → IsMasked w → IsWord (value2 words w)
unfolding eval
value2-IsWord w h = (eval-IsMasked w w w h h h (value2 symbols (at 0)) blank blank blank).word0

total2-IsWord : (m : Masked ℕ) → IsMasked m → IsWord (total2 m)
total2-IsWord m h = (xor-lt 64 m.s0 m.s1 h.word0 h.word1)

module _ (k : ℕ) (m : Masked ℕ) (l : k < 64) (h : IsMasked m) where
  each2-IsMasked : IsMasked (each2 (λ x. right_rotate_64 x k) m)
  unfolding each2
  each2-IsMasked =
      four_words (each2 (λ x. right_rotate_64 x k) m) (rotate-IsWord m.s0 k h.word0)
        (rotate-IsWord m.s1 k h.word1) h.word2 h.word3

  total-each2 : total2 (each2 (λ x. right_rotate_64 x k) m) ≡ right_rotate_64 (total2 m) k
  unfolding each2
  total-each2 = rw (rotate-xor m.s0 m.s1 k h.word0 h.word1 l) refl

store_partial2_lem :
    (size : ℕ) (w : Masked ℕ)
    → size < 8
    → IsMasked w
    → store_partial2 size w ≡ take size (be_store_word64 (value2 words w))
unfolding store_partial2
store_partial2_lem size w l h =
    store_partial_lem each2 total2 IsMasked each2-IsMasked total-each2 total2-IsWord size
      (positioned2 w) l
      (four_words (positioned2 w) h.word0 (rotate-IsWord w.s1 53 h.word1) (omega arith)
        (omega arith))

module _ (r1 : ℕ) (k1 : IsWord r1) where
  abbrev drawn : ℕ → Masked ℕ
  drawn d = record { s0 = r1; s1 = d; s2 = 0; s3 = 0 }

  drawn-IsMasked : (d : ℕ) → IsWord d → IsMasked (drawn d)
  drawn-IsMasked d h = four_words (drawn d) k1 h (omega arith) (omega arith)

  zero2-IsMasked : IsMasked (zero2 words 0 r1)
  unfolding eval zero2
  zero2-IsMasked =
      let e = (zero2 symbols blank (at 8).s0) in
      eval-IsMasked (drawn 0) (drawn 0) (drawn 0) (drawn-IsMasked 0 (omega arith))
        (drawn-IsMasked 0 (omega arith)) (drawn-IsMasked 0 (omega arith)) e.s0 e.s1 e.s2 e.s3

  zero2_lem : value2 words (zero2 words 0 r1) ≡ 0
  unfolding eval norm plus zero2
  zero2_lem =
      decide_masked (drawn 0) (drawn 0) (drawn 0) (drawn-IsMasked 0 (omega arith))
        (drawn-IsMasked 0 (omega arith)) (drawn-IsMasked 0 (omega arith))
        (value2 symbols (zero2 symbols blank (at 8).s0)) blank refl

  load2-IsMasked : (d : ℕ) → IsWord d → IsMasked (load2 words 0 d r1)
  unfolding eval load2
  load2-IsMasked d h =
      let e = (load2 symbols blank (at 8).s1 (at 8).s0) in
      eval-IsMasked (drawn d) (drawn d) (drawn d) (drawn-IsMasked d h) (drawn-IsMasked d h)
        (drawn-IsMasked d h) e.s0 e.s1 e.s2 e.s3

  load2_lem : (d : ℕ) → IsWord d → value2 words (load2 words 0 d r1) ≡ d
  unfolding eval norm plus load2
  load2_lem d h =
      decide_masked (drawn d) (drawn d) (drawn d) (drawn-IsMasked d h) (drawn-IsMasked d h)
        (drawn-IsMasked d h) (value2 symbols (load2 symbols blank (at 8).s1 (at 8).s0)) (at 8).s1
        refl

  load_partial2-IsMasked :
      (bytes : List ℕ) (size : ℕ)
      → IsBytes bytes
      → size < 8
      → IsMasked (load_partial2 bytes size r1)
  unfolding eval load_partial2
  load_partial2-IsMasked bytes size h l =
      let p = load_partial bytes size (r1, right_rotate_64 r1 11) in
      let hp = load_partial_lem bytes size r1 h l k1 in
      eval-IsMasked (record { s0 = p.0; s1 = p.1; s2 = 0; s3 = 0 }) (plain p.0) (plain p.0)
        (four_words (record { s0 = p.0; s1 = p.1; s2 = 0; s3 = 0 }) hp.0.0 hp.0.1 (omega arith)
          (omega arith))
        (plain-IsMasked p.0 hp.0.0) (plain-IsMasked p.0 hp.0.0) (at 0).s0 (at 0).s1 (blank) (blank)

  load_partial2_lem :
      (bytes : List ℕ) (size : ℕ)
      → IsBytes bytes
      → size < 8
      → value2 words (load_partial2 bytes size r1) ≡ be_load_word64 (first_bytes size bytes)
  unfolding eval norm plus load_partial2
  load_partial2_lem bytes size h l =
      let p = load_partial bytes size (r1, right_rotate_64 r1 11) in
      let hp = load_partial_lem bytes size r1 h l k1 in
      decide_masked (record { s0 = p.0; s1 = p.1; s2 = 0; s3 = 0 }) (plain p.0) (plain p.0)
        (four_words (record { s0 = p.0; s1 = p.1; s2 = 0; s3 = 0 }) hp.0.0 hp.0.1 (omega arith)
          (omega arith))
        (plain-IsMasked p.0 hp.0.0) (plain-IsMasked p.0 hp.0.0)
        (value2 symbols record { s0 = (at 0).s0; s1 = (at 0).s1; s2 = blank; s3 = blank })
        (sum (at 0).s0 (turn (at 0).s1 53)) refl
      ∙ hp.1

  load_32_2-IsMasked : (hi lo : ℕ) → IsWord hi → IsWord lo → IsMasked (load_32_2 words 0 hi lo r1)
  unfolding eval load_32_2
  load_32_2-IsMasked hi lo h l =
      let e = (load_32_2 symbols blank (at 0).s0 (at 4).s0 (at 8).s0) in
      eval-IsMasked (plain hi) (plain lo) (drawn 0) (plain-IsMasked hi h) (plain-IsMasked lo l)
        (drawn-IsMasked 0 (omega arith)) e.s0 e.s1 e.s2 e.s3

  load_32_2_lem :
      (hi lo : ℕ)
      → IsWord hi
      → IsWord lo
      → value2 words (load_32_2 words 0 hi lo r1) ≡ bit_xor hi lo
  unfolding eval norm plus load_32_2
  load_32_2_lem hi lo h l =
      decide_masked (plain hi) (plain lo) (drawn 0) (plain-IsMasked hi h) (plain-IsMasked lo l)
        (drawn-IsMasked 0 (omega arith))
        (value2 symbols (load_32_2 symbols blank (at 0).s0 (at 4).s0 (at 8).s0))
        (sum (at 0).s0 (at 4).s0) refl

  randomize2-IsMasked :
      (dest src : Masked ℕ)
      → IsMasked dest
      → IsMasked src
      → IsMasked (randomize2 words 0 dest src r1)
  unfolding eval randomize2
  randomize2-IsMasked dest src h k =
      let e = (randomize2 symbols blank (at 0) (at 4) (at 8).s0) in
      eval-IsMasked dest src (drawn 0) h k (drawn-IsMasked 0 (omega arith)) e.s0 e.s1 e.s2 e.s3

  randomize2_lem :
      (dest src : Masked ℕ)
      → IsMasked dest
      → IsMasked src
      → value2 words (randomize2 words 0 dest src r1) ≡ value2 words src
  unfolding eval norm plus randomize2
  randomize2_lem dest src h k =
      decide_masked dest src (drawn 0) h k (drawn-IsMasked 0 (omega arith))
        (value2 symbols (randomize2 symbols blank (at 0) (at 4) (at 8).s0)) (value2 symbols (at 4))
        refl

  pub x2_from_x3-IsMasked : (src : Masked ℕ) → IsMasked src → IsMasked (x2_from_x3 words 0 src r1)
  unfolding eval x2_from_x3
  x2_from_x3-IsMasked src h =
      let e = (x2_from_x3 symbols blank (at 0) (at 8).s0) in
      eval-IsMasked src src (drawn 0) h h (drawn-IsMasked 0 (omega arith)) e.s0 e.s1 e.s2 e.s3

  pub x2_from_x3_lem :
      (src : Masked ℕ) → IsMasked src → value2 words (x2_from_x3 words 0 src r1) ≡ value3 words src
  unfolding eval norm plus x2_from_x3
  x2_from_x3_lem src h =
      decide_masked src src (drawn 0) h h (drawn-IsMasked 0 (omega arith))
        (value2 symbols (x2_from_x3 symbols blank (at 0) (at 8).s0)) (value3 symbols (at 0)) refl

  pub x2_from_x4-IsMasked : (src : Masked ℕ) → IsMasked src → IsMasked (x2_from_x4 words 0 src r1)
  unfolding eval x2_from_x4
  x2_from_x4-IsMasked src h =
      let e = (x2_from_x4 symbols blank (at 0) (at 8).s0) in
      eval-IsMasked src src (drawn 0) h h (drawn-IsMasked 0 (omega arith)) e.s0 e.s1 e.s2 e.s3

  pub x2_from_x4_lem :
      (src : Masked ℕ) → IsMasked src → value2 words (x2_from_x4 words 0 src r1) ≡ value4 words src
  unfolding eval norm plus x2_from_x4
  x2_from_x4_lem src h =
      decide_masked src src (drawn 0) h h (drawn-IsMasked 0 (omega arith))
        (value2 symbols (x2_from_x4 symbols blank (at 0) (at 8).s0)) (value4 symbols (at 0)) refl

module _ (dest src : Masked ℕ) (m : ℕ) (h : IsMasked dest) (k : IsMasked src) (l : IsWord m) where
  replace2-IsMasked : IsMasked (replace2 words 0 dest src m)
  unfolding eval replace2
  replace2-IsMasked =
      let e = (replace2 symbols blank (at 0) (at 4) (at 8).s0) in
      eval-IsMasked dest src (plain m) h k (plain-IsMasked m l) e.s0 e.s1 e.s2 e.s3

  replace2_lem :
      value2 words (replace2 words 0 dest src m)
      ≡ bit_or (bit_and (value2 words dest) m) (bit_and (value2 words src) (not64 m))
  unfolding eval norm plus replace2
  replace2_lem =
      decide_masked dest src (plain m) h k (plain-IsMasked m l)
        (value2 symbols (replace2 symbols blank (at 0) (at 4) (at 8).s0))
        (join (meet (value2 symbols (at 0)) (at 8).s0)
          (meet (value2 symbols (at 4)) (complement (at 8).s0)))
        refl

module _ {T : Type 0} (generate : T → ℕ × T) (small : (t : T) → IsWord (generate t).0) where
  -- When the generator gives 64-bit words, each operation on two shares acts on the value that the
  -- shares stand for: what is drawn at random cancels out of it. The masked zero stands for 0, a
  -- loaded word for the bytes, a randomized word for what it stood for, a sum for the sum of the
  -- values and a replacement for the top bytes of one value and the rest of the other; what is
  -- stored is the bytes of the value, and the permutation permutes the five values. Shares of 64
  -- bits give shares of 64 bits.
  pub ops2-IsMaskedOps : IsMaskedOps (ops2 generate) (value2 words)
  unfolding draw2 store2
  ops2-IsMaskedOps = record {
    value-IsWord = value2-IsWord;
    zero-IsMasked = λ t. zero2-IsMasked (generate t).0 (small t);
    zero_lem = λ t. zero2_lem (generate t).0 (small t);
    load-IsMasked = λ bytes t h. load2-IsMasked (generate t).0 (small t) (be_load_word64 bytes) h;
    load_lem = λ bytes t h. load2_lem (generate t).0 (small t) (be_load_word64 bytes) h;
    load_partial-IsMasked =
        λ bytes size t h l. load_partial2-IsMasked (generate t).0 (small t) bytes size h l;
    load_partial_lem =
        λ bytes size t h l. load_partial2_lem (generate t).0 (small t) bytes size h l;
    load_32-IsMasked = λ bytes1 bytes2 t h.
        load_32_2-IsMasked (generate t).0 (small t) (shl64 (be_load_word32 bytes1) 32)
          (be_load_word32 bytes2) (omega arith) h;
    load_32_lem = λ bytes1 bytes2 t h.
        load_32_2_lem (generate t).0 (small t) (shl64 (be_load_word32 bytes1) 32)
          (be_load_word32 bytes2) (omega arith) h;
    store_lem = λ w. refl;
    store_partial_lem = store_partial2_lem;
    randomize-IsMasked =
        λ dest src t h k. randomize2-IsMasked (generate t).0 (small t) dest src h k;
    randomize_lem = λ dest src t h k. randomize2_lem (generate t).0 (small t) dest src h k;
    xor-IsMasked = both2-IsMasked;
    xor_lem = both2_lem;
    replace-IsMasked =
        λ dest src size h k. replace2-IsMasked dest src (keep_mask size) h k (mask-IsWord size);
    replace_lem =
        λ dest src size h k. replace2_lem dest src (keep_mask size) h k (mask-IsWord size);
    permute_lem = x2-permute;
  }

-- ===== src/Masking/Operations/Three/Laws.antt =====
-- What the operations on three shares do to the value that the shares stand for.
use ascon_suite_tcc.Base.{ℕ, ◌<◌, ◌≡◌, ◌∙◌, refl, List, take, arith, bit_and, bit_or, bit_xor}
use ascon_suite_tcc.Core.Word.{
  not64, shl64, be_load_word32, be_load_word64, be_store_word64, right_rotate_64,
}
use ascon_suite_tcc.Core.Word.Bits.{IsWord, rotate-IsWord}
use ascon_suite_tcc.Core.Word.Symbolic.{
  blank, sum, meet, join, complement, turn, symbols, words, eval, norm, plus,
}
use ascon_suite_tcc.Masking.Word.{Masked, IsMasked, value2, value3, value4}
use ascon_suite_tcc.Base.Bits.Laws.{xor-lt}
use ascon_suite_tcc.Core.Word.Linear.{rotate-xor}
use ascon_suite_tcc.Base.Bytes.{IsBytes}
use ascon_suite_tcc.Masking.Partial.{load_partial}
use ascon_suite_tcc.Masking.Partial.Plain.{first_bytes}
use ascon_suite_tcc.Masking.Partial.Load.{load_partial_lem}
use ascon_suite_tcc.Masking.Partial.Store.{store_partial_lem}
use ascon_suite_tcc.Masking.Shares.{each3}
use ascon_suite_tcc.Masking.Shares.Three.{both3-IsMasked, both3_lem, x3-permute}
use ascon_suite_tcc.Masking.Shares.Symbols.{
  at, four_words, plain, plain-IsMasked, decide_masked, eval-IsMasked,
}
use ascon_suite_tcc.Masking.Operations.{IsMaskedOps, keep_mask, mask-IsWord}
use ascon_suite_tcc.Masking.Operations.Three.{
  zero3, load3, load_partial3, load_32_3, randomize3, replace3, x3_from_x2, x3_from_x4, store3,
  store_partial3, positioned3, total3, draw3, ops3,
}

value3-IsWord : (w : Masked ℕ) → IsMasked w → IsWord (value3 words w)
unfolding eval
value3-IsWord w h = (eval-IsMasked w w w h h h (value3 symbols (at 0)) blank blank blank).word0

total3-IsWord : (m : Masked ℕ) → IsMasked m → IsWord (total3 m)
total3-IsWord m h =
    (xor-lt 64 (bit_xor m.s0 m.s1) m.s2 (xor-lt 64 m.s0 m.s1 h.word0 h.word1) h.word2)

module _ (k : ℕ) (m : Masked ℕ) (l : k < 64) (h : IsMasked m) where
  each3-IsMasked : IsMasked (each3 (λ x. right_rotate_64 x k) m)
  unfolding each3
  each3-IsMasked =
      four_words (each3 (λ x. right_rotate_64 x k) m) (rotate-IsWord m.s0 k h.word0)
        (rotate-IsWord m.s1 k h.word1) (rotate-IsWord m.s2 k h.word2) h.word3

  total-each3 : total3 (each3 (λ x. right_rotate_64 x k) m) ≡ right_rotate_64 (total3 m) k
  unfolding each3
  total-each3 =
      rw
        (
          rotate-xor (bit_xor m.s0 m.s1) m.s2 k (xor-lt 64 m.s0 m.s1 h.word0 h.word1) h.word2 l,
          rotate-xor m.s0 m.s1 k h.word0 h.word1 l,
        )
        refl

store_partial3_lem :
    (size : ℕ) (w : Masked ℕ)
    → size < 8
    → IsMasked w
    → store_partial3 size w ≡ take size (be_store_word64 (value3 words w))
unfolding store_partial3
store_partial3_lem size w l h =
    store_partial_lem each3 total3 IsMasked each3-IsMasked total-each3 total3-IsWord size
      (positioned3 w) l
      (four_words (positioned3 w) h.word0 (rotate-IsWord w.s1 53 h.word1)
        (rotate-IsWord w.s2 42 h.word2) (omega arith))

module _ (r1 : ℕ) (r2 : ℕ) (k1 : IsWord r1) (k2 : IsWord r2) where
  abbrev drawn : ℕ → Masked ℕ
  drawn d = record { s0 = r1; s1 = r2; s2 = d; s3 = 0 }

  drawn-IsMasked : (d : ℕ) → IsWord d → IsMasked (drawn d)
  drawn-IsMasked d h = four_words (drawn d) k1 k2 h (omega arith)

  zero3-IsMasked : IsMasked (zero3 words 0 r1 r2)
  unfolding eval zero3
  zero3-IsMasked =
      let e = (zero3 symbols blank (at 8).s0 (at 8).s1) in
      eval-IsMasked (drawn 0) (drawn 0) (drawn 0) (drawn-IsMasked 0 (omega arith))
        (drawn-IsMasked 0 (omega arith)) (drawn-IsMasked 0 (omega arith)) e.s0 e.s1 e.s2 e.s3

  zero3_lem : value3 words (zero3 words 0 r1 r2) ≡ 0
  unfolding eval norm plus zero3
  zero3_lem =
      decide_masked (drawn 0) (drawn 0) (drawn 0) (drawn-IsMasked 0 (omega arith))
        (drawn-IsMasked 0 (omega arith)) (drawn-IsMasked 0 (omega arith))
        (value3 symbols (zero3 symbols blank (at 8).s0 (at 8).s1)) blank refl

  load3-IsMasked : (d : ℕ) → IsWord d → IsMasked (load3 words 0 d r1 r2)
  unfolding eval load3
  load3-IsMasked d h =
      let e = (load3 symbols blank (at 8).s2 (at 8).s0 (at 8).s1) in
      eval-IsMasked (drawn d) (drawn d) (drawn d) (drawn-IsMasked d h) (drawn-IsMasked d h)
        (drawn-IsMasked d h) e.s0 e.s1 e.s2 e.s3

  load3_lem : (d : ℕ) → IsWord d → value3 words (load3 words 0 d r1 r2) ≡ d
  unfolding eval norm plus load3
  load3_lem d h =
      decide_masked (drawn d) (drawn d) (drawn d) (drawn-IsMasked d h) (drawn-IsMasked d h)
        (drawn-IsMasked d h) (value3 symbols (load3 symbols blank (at 8).s2 (at 8).s0 (at 8).s1))
        (at 8).s2 refl

  load_partial3-IsMasked :
      (bytes : List ℕ) (size : ℕ)
      → IsBytes bytes
      → size < 8
      → IsMasked (load_partial3 bytes size r1 r2)
  unfolding eval load_partial3
  load_partial3-IsMasked bytes size h l =
      let p = load_partial bytes size (r1, right_rotate_64 r1 11) in
      let hp = load_partial_lem bytes size r1 h l k1 in
      eval-IsMasked (record { s0 = p.0; s1 = p.1; s2 = 0; s3 = 0 }) (plain r2) (plain p.0)
        (four_words (record { s0 = p.0; s1 = p.1; s2 = 0; s3 = 0 }) hp.0.0 hp.0.1 (omega arith)
          (omega arith))
        (plain-IsMasked r2 k2) (plain-IsMasked p.0 hp.0.0) (sum (at 0).s0 (at 4).s0) (at 0).s1
        (turn (at 4).s0 22) (blank)

  load_partial3_lem :
      (bytes : List ℕ) (size : ℕ)
      → IsBytes bytes
      → size < 8
      → value3 words (load_partial3 bytes size r1 r2) ≡ be_load_word64 (first_bytes size bytes)
  unfolding eval norm plus load_partial3
  load_partial3_lem bytes size h l =
      let p = load_partial bytes size (r1, right_rotate_64 r1 11) in
      let hp = load_partial_lem bytes size r1 h l k1 in
      decide_masked (record { s0 = p.0; s1 = p.1; s2 = 0; s3 = 0 }) (plain r2) (plain p.0)
        (four_words (record { s0 = p.0; s1 = p.1; s2 = 0; s3 = 0 }) hp.0.0 hp.0.1 (omega arith)
          (omega arith))
        (plain-IsMasked r2 k2) (plain-IsMasked p.0 hp.0.0)
        (value3 symbols record {
          s0 = (sum (at 0).s0 (at 4).s0);
          s1 = (at 0).s1;
          s2 = turn (at 4).s0 22;
          s3 = blank;
        })
        (sum (at 0).s0 (turn (at 0).s1 53)) refl
      ∙ hp.1

  load_32_3-IsMasked :
      (hi lo : ℕ) → IsWord hi → IsWord lo → IsMasked (load_32_3 words 0 hi lo r1 r2)
  unfolding eval load_32_3
  load_32_3-IsMasked hi lo h l =
      let e = (load_32_3 symbols blank (at 0).s0 (at 4).s0 (at 8).s0 (at 8).s1) in
      eval-IsMasked (plain hi) (plain lo) (drawn 0) (plain-IsMasked hi h) (plain-IsMasked lo l)
        (drawn-IsMasked 0 (omega arith)) e.s0 e.s1 e.s2 e.s3

  load_32_3_lem :
      (hi lo : ℕ)
      → IsWord hi
      → IsWord lo
      → value3 words (load_32_3 words 0 hi lo r1 r2) ≡ bit_xor hi lo
  unfolding eval norm plus load_32_3
  load_32_3_lem hi lo h l =
      decide_masked (plain hi) (plain lo) (drawn 0) (plain-IsMasked hi h) (plain-IsMasked lo l)
        (drawn-IsMasked 0 (omega arith))
        (value3 symbols (load_32_3 symbols blank (at 0).s0 (at 4).s0 (at 8).s0 (at 8).s1))
        (sum (at 0).s0 (at 4).s0) refl

  randomize3-IsMasked :
      (dest src : Masked ℕ)
      → IsMasked dest
      → IsMasked src
      → IsMasked (randomize3 words 0 dest src r1 r2)
  unfolding eval randomize3
  randomize3-IsMasked dest src h k =
      let e = (randomize3 symbols blank (at 0) (at 4) (at 8).s0 (at 8).s1) in
      eval-IsMasked dest src (drawn 0) h k (drawn-IsMasked 0 (omega arith)) e.s0 e.s1 e.s2 e.s3

  randomize3_lem :
      (dest src : Masked ℕ)
      → IsMasked dest
      → IsMasked src
      → value3 words (randomize3 words 0 dest src r1 r2) ≡ value3 words src
  unfolding eval norm plus randomize3
  randomize3_lem dest src h k =
      decide_masked dest src (drawn 0) h k (drawn-IsMasked 0 (omega arith))
        (value3 symbols (randomize3 symbols blank (at 0) (at 4) (at 8).s0 (at 8).s1))
        (value3 symbols (at 4)) refl

  pub x3_from_x2-IsMasked :
      (src : Masked ℕ) → IsMasked src → IsMasked (x3_from_x2 words 0 src r1 r2)
  unfolding eval x3_from_x2
  x3_from_x2-IsMasked src h =
      let e = (x3_from_x2 symbols blank (at 0) (at 8).s0 (at 8).s1) in
      eval-IsMasked src src (drawn 0) h h (drawn-IsMasked 0 (omega arith)) e.s0 e.s1 e.s2 e.s3

  pub x3_from_x2_lem :
      (src : Masked ℕ)
      → IsMasked src
      → value3 words (x3_from_x2 words 0 src r1 r2) ≡ value2 words src
  unfolding eval norm plus x3_from_x2
  x3_from_x2_lem src h =
      decide_masked src src (drawn 0) h h (drawn-IsMasked 0 (omega arith))
        (value3 symbols (x3_from_x2 symbols blank (at 0) (at 8).s0 (at 8).s1))
        (value2 symbols (at 0)) refl

  pub x3_from_x4-IsMasked :
      (src : Masked ℕ) → IsMasked src → IsMasked (x3_from_x4 words 0 src r1 r2)
  unfolding eval x3_from_x4
  x3_from_x4-IsMasked src h =
      let e = (x3_from_x4 symbols blank (at 0) (at 8).s0 (at 8).s1) in
      eval-IsMasked src src (drawn 0) h h (drawn-IsMasked 0 (omega arith)) e.s0 e.s1 e.s2 e.s3

  pub x3_from_x4_lem :
      (src : Masked ℕ)
      → IsMasked src
      → value3 words (x3_from_x4 words 0 src r1 r2) ≡ value4 words src
  unfolding eval norm plus x3_from_x4
  x3_from_x4_lem src h =
      decide_masked src src (drawn 0) h h (drawn-IsMasked 0 (omega arith))
        (value3 symbols (x3_from_x4 symbols blank (at 0) (at 8).s0 (at 8).s1))
        (value4 symbols (at 0)) refl

module _ (dest src : Masked ℕ) (m : ℕ) (h : IsMasked dest) (k : IsMasked src) (l : IsWord m) where
  replace3-IsMasked : IsMasked (replace3 words 0 dest src m)
  unfolding eval replace3
  replace3-IsMasked =
      let e = (replace3 symbols blank (at 0) (at 4) (at 8).s0) in
      eval-IsMasked dest src (plain m) h k (plain-IsMasked m l) e.s0 e.s1 e.s2 e.s3

  replace3_lem :
      value3 words (replace3 words 0 dest src m)
      ≡ bit_or (bit_and (value3 words dest) m) (bit_and (value3 words src) (not64 m))
  unfolding eval norm plus replace3
  replace3_lem =
      decide_masked dest src (plain m) h k (plain-IsMasked m l)
        (value3 symbols (replace3 symbols blank (at 0) (at 4) (at 8).s0))
        (join (meet (value3 symbols (at 0)) (at 8).s0)
          (meet (value3 symbols (at 4)) (complement (at 8).s0)))
        refl

module _ {T : Type 0} (generate : T → ℕ × T) (small : (t : T) → IsWord (generate t).0) where
  -- When the generator gives 64-bit words, each operation on three shares acts on the value that the
  -- shares stand for: what is drawn at random cancels out of it. The masked zero stands for 0, a
  -- loaded word for the bytes, a randomized word for what it stood for, a sum for the sum of the
  -- values and a replacement for the top bytes of one value and the rest of the other; what is
  -- stored is the bytes of the value, and the permutation permutes the five values. Shares of 64
  -- bits give shares of 64 bits.
  pub ops3-IsMaskedOps : IsMaskedOps (ops3 generate) (value3 words)
  unfolding draw3 store3
  ops3-IsMaskedOps = record {
    value-IsWord = value3-IsWord;
    zero-IsMasked = λ t.
        zero3-IsMasked (generate t).0 (generate (generate t).1).0 (small t) (small (generate t).1);
    zero_lem =
        λ t. zero3_lem (generate t).0 (generate (generate t).1).0 (small t) (small (generate t).1);
    load-IsMasked = λ bytes t h.
        load3-IsMasked (generate t).0 (generate (generate t).1).0 (small t) (small (generate t).1)
          (be_load_word64 bytes) h;
    load_lem = λ bytes t h.
        load3_lem (generate t).0 (generate (generate t).1).0 (small t) (small (generate t).1)
          (be_load_word64 bytes) h;
    load_partial-IsMasked = λ bytes size t h l.
        load_partial3-IsMasked (generate t).0 (generate (generate t).1).0 (small t)
          (small (generate t).1) bytes size h l;
    load_partial_lem = λ bytes size t h l.
        load_partial3_lem (generate t).0 (generate (generate t).1).0 (small t)
          (small (generate t).1) bytes size h l;
    load_32-IsMasked = λ bytes1 bytes2 t h.
        load_32_3-IsMasked (generate t).0 (generate (generate t).1).0 (small t)
          (small (generate t).1) (shl64 (be_load_word32 bytes1) 32) (be_load_word32 bytes2)
          (omega arith) h;
    load_32_lem = λ bytes1 bytes2 t h.
        load_32_3_lem (generate t).0 (generate (generate t).1).0 (small t) (small (generate t).1)
          (shl64 (be_load_word32 bytes1) 32) (be_load_word32 bytes2) (omega arith) h;
    store_lem = λ w. refl;
    store_partial_lem = store_partial3_lem;
    randomize-IsMasked = λ dest src t h k.
        randomize3-IsMasked (generate t).0 (generate (generate t).1).0 (small t)
          (small (generate t).1) dest src h k;
    randomize_lem = λ dest src t h k.
        randomize3_lem (generate t).0 (generate (generate t).1).0 (small t) (small (generate t).1)
          dest src h k;
    xor-IsMasked = both3-IsMasked;
    xor_lem = both3_lem;
    replace-IsMasked =
        λ dest src size h k. replace3-IsMasked dest src (keep_mask size) h k (mask-IsWord size);
    replace_lem =
        λ dest src size h k. replace3_lem dest src (keep_mask size) h k (mask-IsWord size);
    permute_lem = x3-permute;
  }

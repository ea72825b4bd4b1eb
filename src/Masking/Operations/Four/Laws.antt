-- ===== src/Masking/Operations/Four/Laws.antt =====
-- What the operations on four shares do to the value that the shares stand for.
use ascon_suite_tcc.Base.{ℕ, ◌<◌, ◌≡◌, ◌∙◌, refl, List, take, arith, bit_and, bit_or, bit_xor}
use ascon_suite_tcc.Core.Word.{
  not64, shl64, be_load_word32, be_load_word64, be_store_word64, right_rotate_64,
}
use ascon_suite_tcc.Core.Word.Bits.{IsWord, rotate-IsWord}
use ascon_suite_tcc.Core.Word.Symbolic.{
  blank, sum, meet, join, complement, turn, symbols, words, eval, norm, plus,
}
use ascon_suite_tcc.Masking.Word.{Masked, IsMasked, value2, value3, value4}
use ascon_suite_tcc.Base.Bits.Laws.{xor-lt}
use ascon_suite_tcc.Core.Word.Linear.{rotate-xor}
use ascon_suite_tcc.Base.Bytes.{IsBytes}
use ascon_suite_tcc.Masking.Partial.{load_partial}
use ascon_suite_tcc.Masking.Partial.Plain.{first_bytes}
use ascon_suite_tcc.Masking.Partial.Load.{load_partial_lem}
use ascon_suite_tcc.Masking.Partial.Store.{store_partial_lem}
use ascon_suite_tcc.Masking.Shares.{each4}
use ascon_suite_tcc.Masking.Shares.Four.{both4-IsMasked, both4_lem, x4-permute}
use ascon_suite_tcc.Masking.Shares.Symbols.{
  at, four_words, plain, plain-IsMasked, decide_masked, eval-IsMasked,
}
use ascon_suite_tcc.Masking.Operations.{IsMaskedOps, keep_mask, mask-IsWord}
use ascon_suite_tcc.Masking.Operations.Four.{
  zero4, load4, load_partial4, load_32_4, randomize4, replace4, x4_from_x2, x4_from_x3, store4,
  store_partial4, positioned4, total4, draw4, ops4,
}

value4-IsWord : (w : Masked ℕ) → IsMasked w → IsWord (value4 words w)
unfolding eval
value4-IsWord w h = (eval-IsMasked w w w h h h (value4 symbols (at 0)) blank blank blank).word0

total4-IsWord : (m : Masked ℕ) → IsMasked m → IsWord (total4 m)
total4-IsWord m h =
    (xor-lt 64 (bit_xor (bit_xor m.s0 m.s1) m.s2) m.s3
      (xor-lt 64 (bit_xor m.s0 m.s1) m.s2 (xor-lt 64 m.s0 m.s1 h.word0 h.word1) h.word2) h.word3)

module _ (k : ℕ) (m : Masked ℕ) (l : k < 64) (h : IsMasked m) where
  each4-IsMasked : IsMasked (each4 (λ x. right_rotate_64 x k) m)
  unfolding each4
  each4-IsMasked =
      four_words (each4 (λ x. right_rotate_64 x k) m) (rotate-IsWord m.s0 k h.word0)
        (rotate-IsWord m.s1 k h.word1) (rotate-IsWord m.s2 k h.word2) (rotate-IsWord m.s3 k h.word3)

  total-each4 : total4 (each4 (λ x. right_rotate_64 x k) m) ≡ right_rotate_64 (total4 m) k
  unfolding each4
  total-each4 =
      rw
        (
          rotate-xor (bit_xor (bit_xor m.s0 m.s1) m.s2) m.s3 k
              (xor-lt 64 (bit_xor m.s0 m.s1) m.s2 (xor-lt 64 m.s0 m.s1 h.word0 h.word1) h.word2)
              h.word3 l,
          rotate-xor (bit_xor m.s0 m.s1) m.s2 k (xor-lt 64 m.s0 m.s1 h.word0 h.word1) h.word2 l,
          rotate-xor m.s0 m.s1 k h.word0 h.word1 l,
        )
        refl

store_partial4_lem :
    (size : ℕ) (w : Masked ℕ)
    → size < 8
    → IsMasked w
    → store_partial4 size w ≡ take size (be_store_word64 (value4 words w))
unfolding store_partial4
store_partial4_lem size w l h =
    store_partial_lem each4 total4 IsMasked each4-IsMasked total-each4 total4-IsWord size
      (positioned4 w) l
      (four_words (positioned4 w) h.word0 (rotate-IsWord w.s1 53 h.word1)
        (rotate-IsWord w.s2 42 h.word2) (rotate-IsWord w.s3 31 h.word3))

module _ (r1 : ℕ) (r2 : ℕ) (r3 : ℕ) (k1 : IsWord r1) (k2 : IsWord r2) (k3 : IsWord r3) where
  abbrev drawn : ℕ → Masked ℕ
  drawn d = record { s0 = r1; s1 = r2; s2 = r3; s3 = d }

  drawn-IsMasked : (d : ℕ) → IsWord d → IsMasked (drawn d)
  drawn-IsMasked d h = four_words (drawn d) k1 k2 k3 h

  zero4-IsMasked : IsMasked (zero4 words r1 r2 r3)
  unfolding eval zero4
  zero4-IsMasked =
      let e = (zero4 symbols (at 8).s0 (at 8).s1 (at 8).s2) in
      eval-IsMasked (drawn 0) (drawn 0) (drawn 0) (drawn-IsMasked 0 (omega arith))
        (drawn-IsMasked 0 (omega arith)) (drawn-IsMasked 0 (omega arith)) e.s0 e.s1 e.s2 e.s3

  zero4_lem : value4 words (zero4 words r1 r2 r3) ≡ 0
  unfolding eval norm plus zero4
  zero4_lem =
      decide_masked (drawn 0) (drawn 0) (drawn 0) (drawn-IsMasked 0 (omega arith))
        (drawn-IsMasked 0 (omega arith)) (drawn-IsMasked 0 (omega arith))
        (value4 symbols (zero4 symbols (at 8).s0 (at 8).s1 (at 8).s2)) blank refl

  load4-IsMasked : (d : ℕ) → IsWord d → IsMasked (load4 words d r1 r2 r3)
  unfolding eval load4
  load4-IsMasked d h =
      let e = (load4 symbols (at 8).s3 (at 8).s0 (at 8).s1 (at 8).s2) in
      eval-IsMasked (drawn d) (drawn d) (drawn d) (drawn-IsMasked d h) (drawn-IsMasked d h)
        (drawn-IsMasked d h) e.s0 e.s1 e.s2 e.s3

  load4_lem : (d : ℕ) → IsWord d → value4 words (load4 words d r1 r2 r3) ≡ d
  unfolding eval norm plus load4
  load4_lem d h =
      decide_masked (drawn d) (drawn d) (drawn d) (drawn-IsMasked d h) (drawn-IsMasked d h)
        (drawn-IsMasked d h)
        (value4 symbols (load4 symbols (at 8).s3 (at 8).s0 (at 8).s1 (at 8).s2)) (at 8).s3 refl

  load_partial4-IsMasked :
      (bytes : List ℕ) (size : ℕ)
      → IsBytes bytes
      → size < 8
      → IsMasked (load_partial4 bytes size r1 r2 r3)
  unfolding eval load_partial4
  load_partial4-IsMasked bytes size h l =
      let p = load_partial bytes size (r1, right_rotate_64 r1 11) in
      let hp = load_partial_lem bytes size r1 h l k1 in
      eval-IsMasked (record { s0 = p.0; s1 = p.1; s2 = 0; s3 = 0 }) (plain r2) (plain r3)
        (four_words (record { s0 = p.0; s1 = p.1; s2 = 0; s3 = 0 }) hp.0.0 hp.0.1 (omega arith)
          (omega arith))
        (plain-IsMasked r2 k2) (plain-IsMasked r3 k3) (sum (sum (at 0).s0 (at 4).s0) (at 8).s0)
        (at 0).s1 (turn (at 4).s0 22) (turn (at 8).s0 33)

  load_partial4_lem :
      (bytes : List ℕ) (size : ℕ)
      → IsBytes bytes
      → size < 8
      → value4 words (load_partial4 bytes size r1 r2 r3) ≡ be_load_word64 (first_bytes size bytes)
  unfolding eval norm plus load_partial4
  load_partial4_lem bytes size h l =
      let p = load_partial bytes size (r1, right_rotate_64 r1 11) in
      let hp = load_partial_lem bytes size r1 h l k1 in
      decide_masked (record { s0 = p.0; s1 = p.1; s2 = 0; s3 = 0 }) (plain r2) (plain r3)
        (four_words (record { s0 = p.0; s1 = p.1; s2 = 0; s3 = 0 }) hp.0.0 hp.0.1 (omega arith)
          (omega arith))
        (plain-IsMasked r2 k2) (plain-IsMasked r3 k3)
        (value4 symbols record {
          s0 = (sum (sum (at 0).s0 (at 4).s0) (at 8).s0);
          s1 = (at 0).s1;
          s2 = turn (at 4).s0 22;
          s3 = turn (at 8).s0 33;
        })
        (sum (at 0).s0 (turn (at 0).s1 53)) refl
      ∙ hp.1

  load_32_4-IsMasked :
      (hi lo : ℕ) → IsWord hi → IsWord lo → IsMasked (load_32_4 words hi lo r1 r2 r3)
  unfolding eval load_32_4
  load_32_4-IsMasked hi lo h l =
      let e = (load_32_4 symbols (at 0).s0 (at 4).s0 (at 8).s0 (at 8).s1 (at 8).s2) in
      eval-IsMasked (plain hi) (plain lo) (drawn 0) (plain-IsMasked hi h) (plain-IsMasked lo l)
        (drawn-IsMasked 0 (omega arith)) e.s0 e.s1 e.s2 e.s3

  load_32_4_lem :
      (hi lo : ℕ)
      → IsWord hi
      → IsWord lo
      → value4 words (load_32_4 words hi lo r1 r2 r3) ≡ bit_xor hi lo
  unfolding eval norm plus load_32_4
  load_32_4_lem hi lo h l =
      decide_masked (plain hi) (plain lo) (drawn 0) (plain-IsMasked hi h) (plain-IsMasked lo l)
        (drawn-IsMasked 0 (omega arith))
        (value4 symbols (load_32_4 symbols (at 0).s0 (at 4).s0 (at 8).s0 (at 8).s1 (at 8).s2))
        (sum (at 0).s0 (at 4).s0) refl

  randomize4-IsMasked :
      (dest src : Masked ℕ)
      → IsMasked dest
      → IsMasked src
      → IsMasked (randomize4 words dest src r1 r2 r3)
  unfolding eval randomize4
  randomize4-IsMasked dest src h k =
      let e = (randomize4 symbols (at 0) (at 4) (at 8).s0 (at 8).s1 (at 8).s2) in
      eval-IsMasked dest src (drawn 0) h k (drawn-IsMasked 0 (omega arith)) e.s0 e.s1 e.s2 e.s3

  randomize4_lem :
      (dest src : Masked ℕ)
      → IsMasked dest
      → IsMasked src
      → value4 words (randomize4 words dest src r1 r2 r3) ≡ value4 words src
  unfolding eval norm plus randomize4
  randomize4_lem dest src h k =
      decide_masked dest src (drawn 0) h k (drawn-IsMasked 0 (omega arith))
        (value4 symbols (randomize4 symbols (at 0) (at 4) (at 8).s0 (at 8).s1 (at 8).s2))
        (value4 symbols (at 4)) refl

  pub x4_from_x2-IsMasked :
      (src : Masked ℕ) → IsMasked src → IsMasked (x4_from_x2 words src r1 r2 r3)
  unfolding eval x4_from_x2
  x4_from_x2-IsMasked src h =
      let e = (x4_from_x2 symbols (at 0) (at 8).s0 (at 8).s1 (at 8).s2) in
      eval-IsMasked src src (drawn 0) h h (drawn-IsMasked 0 (omega arith)) e.s0 e.s1 e.s2 e.s3

  pub x4_from_x2_lem :
      (src : Masked ℕ)
      → IsMasked src
      → value4 words (x4_from_x2 words src r1 r2 r3) ≡ value2 words src
  unfolding eval norm plus x4_from_x2
  x4_from_x2_lem src h =
      decide_masked src src (drawn 0) h h (drawn-IsMasked 0 (omega arith))
        (value4 symbols (x4_from_x2 symbols (at 0) (at 8).s0 (at 8).s1 (at 8).s2))
        (value2 symbols (at 0)) refl

  pub x4_from_x3-IsMasked :
      (src : Masked ℕ) → IsMasked src → IsMasked (x4_from_x3 words src r1 r2 r3)
  unfolding eval x4_from_x3
  x4_from_x3-IsMasked src h =
      let e = (x4_from_x3 symbols (at 0) (at 8).s0 (at 8).s1 (at 8).s2) in
      eval-IsMasked src src (drawn 0) h h (drawn-IsMasked 0 (omega arith)) e.s0 e.s1 e.s2 e.s3

  pub x4_from_x3_lem :
      (src : Masked ℕ)
      → IsMasked src
      → value4 words (x4_from_x3 words src r1 r2 r3) ≡ value3 words src
  unfolding eval norm plus x4_from_x3
  x4_from_x3_lem src h =
      decide_masked src src (drawn 0) h h (drawn-IsMasked 0 (omega arith))
        (value4 symbols (x4_from_x3 symbols (at 0) (at 8).s0 (at 8).s1 (at 8).s2))
        (value3 symbols (at 0)) refl

module _ (dest src : Masked ℕ) (m : ℕ) (h : IsMasked dest) (k : IsMasked src) (l : IsWord m) where
  replace4-IsMasked : IsMasked (replace4 words dest src m)
  unfolding eval replace4
  replace4-IsMasked =
      let e = (replace4 symbols (at 0) (at 4) (at 8).s0) in
      eval-IsMasked dest src (plain m) h k (plain-IsMasked m l) e.s0 e.s1 e.s2 e.s3

  replace4_lem :
      value4 words (replace4 words dest src m)
      ≡ bit_or (bit_and (value4 words dest) m) (bit_and (value4 words src) (not64 m))
  unfolding eval norm plus replace4
  replace4_lem =
      decide_masked dest src (plain m) h k (plain-IsMasked m l)
        (value4 symbols (replace4 symbols (at 0) (at 4) (at 8).s0))
        (join (meet (value4 symbols (at 0)) (at 8).s0)
          (meet (value4 symbols (at 4)) (complement (at 8).s0)))
        refl

module _ {T : Type 0} (generate : T → ℕ × T) (small : (t : T) → IsWord (generate t).0) where
  -- When the generator gives 64-bit words, each operation on four shares acts on the value that the
  -- shares stand for: what is drawn at random cancels out of it. The masked zero stands for 0, a
  -- loaded word for the bytes, a randomized word for what it stood for, a sum for the sum of the
  -- values and a replacement for the top bytes of one value and the rest of the other; what is
  -- stored is the bytes of the value, and the permutation permutes the five values. Shares of 64
  -- bits give shares of 64 bits.
  pub ops4-IsMaskedOps : IsMaskedOps (ops4 generate) (value4 words)
  unfolding draw4 store4
  ops4-IsMaskedOps = record {
    value-IsWord = value4-IsWord;
    zero-IsMasked = λ t.
        zero4-IsMasked (generate t).0 (generate (generate t).1).0
          (generate (generate (generate t).1).1).0 (small t) (small (generate t).1)
          (small (generate (generate t).1).1);
    zero_lem = λ t.
        zero4_lem (generate t).0 (generate (generate t).1).0
          (generate (generate (generate t).1).1).0 (small t) (small (generate t).1)
          (small (generate (generate t).1).1);
    load-IsMasked = λ bytes t h.
        load4-IsMasked (generate t).0 (generate (generate t).1).0
          (generate (generate (generate t).1).1).0 (small t) (small (generate t).1)
          (small (generate (generate t).1).1) (be_load_word64 bytes) h;
    load_lem = λ bytes t h.
        load4_lem (generate t).0 (generate (generate t).1).0
          (generate (generate (generate t).1).1).0 (small t) (small (generate t).1)
          (small (generate (generate t).1).1) (be_load_word64 bytes) h;
    load_partial-IsMasked = λ bytes size t h l.
        load_partial4-IsMasked (generate t).0 (generate (generate t).1).0
          (generate (generate (generate t).1).1).0 (small t) (small (generate t).1)
          (small (generate (generate t).1).1) bytes size h l;
    load_partial_lem = λ bytes size t h l.
        load_partial4_lem (generate t).0 (generate (generate t).1).0
          (generate (generate (generate t).1).1).0 (small t) (small (generate t).1)
          (small (generate (generate t).1).1) bytes size h l;
    load_32-IsMasked = λ bytes1 bytes2 t h.
        load_32_4-IsMasked (generate t).0 (generate (generate t).1).0
          (generate (generate (generate t).1).1).0 (small t) (small (generate t).1)
          (small (generate (generate t).1).1) (shl64 (be_load_word32 bytes1) 32)
          (be_load_word32 bytes2) (omega arith) h;
    load_32_lem = λ bytes1 bytes2 t h.
        load_32_4_lem (generate t).0 (generate (generate t).1).0
          (generate (generate (generate t).1).1).0 (small t) (small (generate t).1)
          (small (generate (generate t).1).1) (shl64 (be_load_word32 bytes1) 32)
          (be_load_word32 bytes2) (omega arith) h;
    store_lem = λ w. refl;
    store_partial_lem = store_partial4_lem;
    randomize-IsMasked = λ dest src t h k.
        randomize4-IsMasked (generate t).0 (generate (generate t).1).0
          (generate (generate (generate t).1).1).0 (small t) (small (generate t).1)
          (small (generate (generate t).1).1) dest src h k;
    randomize_lem = λ dest src t h k.
        randomize4_lem (generate t).0 (generate (generate t).1).0
          (generate (generate (generate t).1).1).0 (small t) (small (generate t).1)
          (small (generate (generate t).1).1) dest src h k;
    xor-IsMasked = both4-IsMasked;
    xor_lem = both4_lem;
    replace-IsMasked =
        λ dest src size h k. replace4-IsMasked dest src (keep_mask size) h k (mask-IsWord size);
    replace_lem =
        λ dest src size h k. replace4_lem dest src (keep_mask size) h k (mask-IsWord size);
    permute_lem = x4-permute;
  }

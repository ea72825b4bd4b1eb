-- ===== src/Masking/State/Laws.antt =====
-- A masked state stands for five words, and the copies keep them.
use ascon_suite_tcc.Base.{ℕ, ◌≡◌, refl, ap, ◌∙◌, List, drop}
use ascon_suite_tcc.Base.Bytes.{IsBytes, drop-IsBytes}
use ascon_suite_tcc.Core.Word.{be_load_word64}
use ascon_suite_tcc.Core.Word.Bits.{IsWord}
use ascon_suite_tcc.Core.Word.Bytes.{load-IsWord}
use ascon_suite_tcc.Core.Word.Symbolic.{words}
use ascon_suite_tcc.Core.Permutation.{Words, load_words, store_words, permute_words, permute}
use ascon_suite_tcc.Masking.Word.{Masked, IsMasked, value2, value3, value4}
use ascon_suite_tcc.Masking.Permute.Laws.{AllShares, words_of}
use ascon_suite_tcc.Masking.Shares.{
  Preserve, IsPreserve, MaskedState, x2_permute, x3_permute, x4_permute,
}
use ascon_suite_tcc.Masking.Shares.Two.{x2-permute}
use ascon_suite_tcc.Masking.Shares.Three.{x3-permute}
use ascon_suite_tcc.Masking.Shares.Four.{x4-permute}
use ascon_suite_tcc.Masking.Operations.{MaskedOps, IsMaskedOps}
use ascon_suite_tcc.Masking.Operations.Two.{ops2, draw2, x2_from_x3, x2_from_x4}
use ascon_suite_tcc.Masking.Operations.Two.Laws.{
  ops2-IsMaskedOps, x2_from_x3_lem, x2_from_x3-IsMasked, x2_from_x4_lem, x2_from_x4-IsMasked,
}
use ascon_suite_tcc.Masking.Operations.Three.{ops3, draw3, x3_from_x2, x3_from_x4}
use ascon_suite_tcc.Masking.Operations.Three.Laws.{
  ops3-IsMaskedOps, x3_from_x2_lem, x3_from_x2-IsMasked, x3_from_x4_lem, x3_from_x4-IsMasked,
}
use ascon_suite_tcc.Masking.Operations.Four.{ops4, draw4, x4_from_x2, x4_from_x3}
use ascon_suite_tcc.Masking.Operations.Four.Laws.{
  ops4-IsMaskedOps, x4_from_x2_lem, x4_from_x2-IsMasked, x4_from_x3_lem, x4_from_x3-IsMasked,
}
use ascon_suite_tcc.Masking.State.{
  for_each_word, map_words, randomize, copy_from_x1, copy_to_x1, copy_from_same, x2_copy_from_x3,
  x2_copy_from_x4, x3_copy_from_x2, x3_copy_from_x4, x4_copy_from_x2, x4_copy_from_x3,
}

-- the masked word that a step gives stands for `v`
abbrev Gives : {T : Type 0} → (Masked ℕ → ℕ) → (T → Masked ℕ × T) → ℕ → Type 0
Gives {T} value f v = (t : T) → IsMasked (f t).0 × (value (f t).0 ≡ v)

-- the state stands for the words `v`
abbrev pub StandsFor : (Masked ℕ → ℕ) → MaskedState → Words → Type 0
StandsFor value w v = AllShares IsMasked w × (words_of value w ≡ v)

module _ {T : Type 0} (value : Masked ℕ → ℕ) where
  for_each_word_lem :
      (f0 f1 f2 f3 f4 : T → Masked ℕ × T) (v : Words) (t : T)
      → Gives value f0 v.x0
      → Gives value f1 v.x1
      → Gives value f2 v.x2
      → Gives value f3 v.x3
      → Gives value f4 v.x4
      → StandsFor value (for_each_word f0 f1 f2 f3 f4 t).0 v
  unfolding for_each_word
  for_each_word_lem f0 f1 f2 f3 f4 v t h0 h1 h2 h3 h4 =
      let m0 = f0 t in
      let m1 = f1 m0.1 in
      let m2 = f2 m1.1 in
      let m3 = f3 m2.1 in
      (
        record {
          s0 = (h0 t).0;
          s1 = (h1 m0.1).0;
          s2 = (h2 m1.1).0;
          s3 = (h3 m2.1).0;
          s4 = (h4 m3.1).0;
        },
        rw ((h0 t).1, (h1 m0.1).1, (h2 m1.1).1, (h3 m2.1).1, (h4 m3.1).1) refl,
      )

  map_words_lem :
      (source : Masked ℕ → ℕ) (f : Masked ℕ → T → Masked ℕ × T) (w : MaskedState) (t : T)
      → ((m : Masked ℕ) → IsMasked m → Gives value (f m) (source m))
      → AllShares IsMasked w
      → StandsFor value (map_words f w t).0 (words_of source w)
  unfolding map_words
  map_words_lem source f w t g h =
      for_each_word_lem (f w.x0) (f w.x1) (f w.x2) (f w.x3) (f w.x4) (words_of source w) t
        (g w.x0 h.s0) (g w.x1 h.s1) (g w.x2 h.s2) (g w.x3 h.s3) (g w.x4 h.s4)

  module _ (ops : MaskedOps T) (laws : IsMaskedOps ops value) where
    -- Copying a plain state of bytes gives a masked state that stands for its five words.
    pub copy_from_x1_lem :
        (src : List ℕ) (t : T)
        → IsBytes src
        → StandsFor value (copy_from_x1 ops src t).0 (load_words src)
    unfolding copy_from_x1 load_words
    copy_from_x1_lem src t h =
        for_each_word_lem (ops.load src) (ops.load (drop 8 src)) (ops.load (drop 16 src))
          (ops.load (drop 24 src)) (ops.load (drop 32 src)) (load_words src) t (gives src h)
          (gives (drop 8 src) (drop-IsBytes 8 src h)) (gives (drop 16 src) (drop-IsBytes 16 src h))
          (gives (drop 24 src) (drop-IsBytes 24 src h))
          (gives (drop 32 src) (drop-IsBytes 32 src h))
      where
        gives : (b : List ℕ) → IsBytes b → Gives value (ops.load b) (be_load_word64 b)
        gives b k t =
            (laws.load-IsMasked b t (load-IsWord b k), laws.load_lem b t (load-IsWord b k))

    pub copy_to_x1_lem : (w : MaskedState) → copy_to_x1 ops w ≡ store_words (words_of value w)
    unfolding copy_to_x1 store_words
    copy_to_x1_lem w =
        rw
          (
            laws.store_lem w.x0,
            laws.store_lem w.x1,
            laws.store_lem w.x2,
            laws.store_lem w.x3,
            laws.store_lem w.x4,
          )
          refl

    pub copy_from_same_lem :
        (dest src : MaskedState) (t : T)
        → AllShares IsMasked dest
        → AllShares IsMasked src
        → StandsFor value (copy_from_same ops dest src t).0 (words_of value src)
    unfolding copy_from_same
    copy_from_same_lem dest src t h k =
        for_each_word_lem (ops.randomize dest.x0 src.x0) (ops.randomize dest.x1 src.x1)
          (ops.randomize dest.x2 src.x2) (ops.randomize dest.x3 src.x3)
          (ops.randomize dest.x4 src.x4) (words_of value src) t (gives dest.x0 src.x0 h.s0 k.s0)
          (gives dest.x1 src.x1 h.s1 k.s1) (gives dest.x2 src.x2 h.s2 k.s2)
          (gives dest.x3 src.x3 h.s3 k.s3) (gives dest.x4 src.x4 h.s4 k.s4)
      where
        gives :
            (d s : Masked ℕ) → IsMasked d → IsMasked s → Gives value (ops.randomize d s) (value s)
        gives d s h k t = (laws.randomize-IsMasked d s t h k, laws.randomize_lem d s t h k)

    pub randomize_lem :
        (w : MaskedState) (t : T)
        → AllShares IsMasked w
        → StandsFor value (randomize ops w t).0 (words_of value w)
    unfolding randomize copy_from_same
    randomize_lem w t h = copy_from_same_lem w w t h h

    -- For operations that keep the laws of masking: masking, permuting and taking the masks off.
    any_copy-permute-copy :
        (src : List ℕ) (first_round : ℕ) (r : Preserve ℕ) (t : T)
        → IsBytes src
        → IsPreserve r
        → copy_to_x1 ops (ops.permute (copy_from_x1 ops src t).0 first_round r).0
          ≡ permute src first_round
    unfolding permute
    any_copy-permute-copy src first_round r t h k =
        let masked = copy_from_x1 ops src t in
        let from = copy_from_x1_lem src t h in
        let run = laws.permute_lem masked.0 first_round r from.0 k in
        copy_to_x1_lem (ops.permute masked.0 first_round r).0
        ∙ ap store_words (run.1 ∙ ap (λ w. permute_words w first_round) from.1)

module _ {T : Type 0} (generate : T → ℕ × T) (small : (t : T) → IsWord (generate t).0) where
  -- When the generator gives 64-bit words, and for bytes of a state and 64-bit words as the randomness of
  -- the permutation: masking a plain state, permuting the masked state and taking the masks off, with
  -- the code's operations for two, for three and for four shares, gives the bytes that the plain
  -- permutation gives, for every first round.
  pub copy-permute-copy :
      (src : List ℕ) (first_round : ℕ) (r : Preserve ℕ) (t : T)
      → IsBytes src
      → IsPreserve r
      → (copy_to_x1
            (ops2 generate)
            (x2_permute (copy_from_x1 (ops2 generate) src t).0 first_round r).0
          ≡ permute src first_round)
        × (copy_to_x1
              (ops3 generate)
              (x3_permute (copy_from_x1 (ops3 generate) src t).0 first_round r).0
            ≡ permute src first_round)
        × (copy_to_x1
              (ops4 generate)
              (x4_permute (copy_from_x1 (ops4 generate) src t).0 first_round r).0
            ≡ permute src first_round)
  copy-permute-copy src first_round r t h k = (
    any_copy-permute-copy (value2 words) (ops2 generate) (ops2-IsMaskedOps generate small) src
        first_round r t h k,
    any_copy-permute-copy (value3 words) (ops3 generate) (ops3-IsMaskedOps generate small) src
        first_round r t h k,
    any_copy-permute-copy (value4 words) (ops4 generate) (ops4-IsMaskedOps generate small) src
        first_round r t h k,
  )

  x2_copy_from_x3_lem :
      (w : MaskedState) (t : T)
      → AllShares IsMasked w
      → StandsFor (value2 words) (x2_copy_from_x3 generate w t).0 (words_of (value3 words) w)
  unfolding x2_copy_from_x3 draw2
  x2_copy_from_x3_lem w t =
      map_words_lem (value2 words) (value3 words) (λ m. draw2 generate (x2_from_x3 words 0 m)) w t
        λ m h t. (
          x2_from_x3-IsMasked (generate t).0 (small t) m h,
          x2_from_x3_lem (generate t).0 (small t) m h,
        )

  x2_copy_from_x4_lem :
      (w : MaskedState) (t : T)
      → AllShares IsMasked w
      → StandsFor (value2 words) (x2_copy_from_x4 generate w t).0 (words_of (value4 words) w)
  unfolding x2_copy_from_x4 draw2
  x2_copy_from_x4_lem w t =
      map_words_lem (value2 words) (value4 words) (λ m. draw2 generate (x2_from_x4 words 0 m)) w t
        λ m h t. (
          x2_from_x4-IsMasked (generate t).0 (small t) m h,
          x2_from_x4_lem (generate t).0 (small t) m h,
        )

  x3_copy_from_x2_lem :
      (w : MaskedState) (t : T)
      → AllShares IsMasked w
      → StandsFor (value3 words) (x3_copy_from_x2 generate w t).0 (words_of (value2 words) w)
  unfolding x3_copy_from_x2 draw3
  x3_copy_from_x2_lem w t =
      map_words_lem (value3 words) (value2 words) (λ m. draw3 generate (x3_from_x2 words 0 m)) w t
        λ m h t. (
          x3_from_x2-IsMasked (generate t).0 (generate (generate t).1).0 (small t)
              (small (generate t).1) m h,
          x3_from_x2_lem (generate t).0 (generate (generate t).1).0 (small t) (small (generate t).1)
              m h,
        )

  x3_copy_from_x4_lem :
      (w : MaskedState) (t : T)
      → AllShares IsMasked w
      → StandsFor (value3 words) (x3_copy_from_x4 generate w t).0 (words_of (value4 words) w)
  unfolding x3_copy_from_x4 draw3
  x3_copy_from_x4_lem w t =
      map_words_lem (value3 words) (value4 words) (λ m. draw3 generate (x3_from_x4 words 0 m)) w t
        λ m h t. (
          x3_from_x4-IsMasked (generate t).0 (generate (generate t).1).0 (small t)
              (small (generate t).1) m h,
          x3_from_x4_lem (generate t).0 (generate (generate t).1).0 (small t) (small (generate t).1)
              m h,
        )

  x4_copy_from_x2_lem :
      (w : MaskedState) (t : T)
      → AllShares IsMasked w
      → StandsFor (value4 words) (x4_copy_from_x2 generate w t).0 (words_of (value2 words) w)
  unfolding x4_copy_from_x2 draw4
  x4_copy_from_x2_lem w t =
      map_words_lem (value4 words) (value2 words) (λ m. draw4 generate (x4_from_x2 words m)) w t
        λ m h t. (
          x4_from_x2-IsMasked (generate t).0 (generate (generate t).1).0
              (generate (generate (generate t).1).1).0 (small t) (small (generate t).1)
              (small (generate (generate t).1).1) m h,
          x4_from_x2_lem (generate t).0 (generate (generate t).1).0
              (generate (generate (generate t).1).1).0 (small t) (small (generate t).1)
              (small (generate (generate t).1).1) m h,
        )

  x4_copy_from_x3_lem :
      (w : MaskedState) (t : T)
      → AllShares IsMasked w
      → StandsFor (value4 words) (x4_copy_from_x3 generate w t).0 (words_of (value3 words) w)
  unfolding x4_copy_from_x3 draw4
  x4_copy_from_x3_lem w t =
      map_words_lem (value4 words) (value3 words) (λ m. draw4 generate (x4_from_x3 words m)) w t
        λ m h t. (
          x4_from_x3-IsMasked (generate t).0 (generate (generate t).1).0
              (generate (generate (generate t).1).1).0 (small t) (small (generate t).1)
              (small (generate (generate t).1).1) m h,
          x4_from_x3_lem (generate t).0 (generate (generate t).1).0
              (generate (generate (generate t).1).1).0 (small t) (small (generate t).1)
              (small (generate (generate t).1).1) m h,
        )

  -- When the generator gives 64-bit words, a change of the number of shares, from each of two, three
  -- and four to each other, keeps the five words that the masked state stands for.
  pub copies-StandsFor :
      (w : MaskedState) (t : T)
      → AllShares IsMasked w
      → StandsFor (value2 words) (x2_copy_from_x3 generate w t).0 (words_of (value3 words) w)
        × StandsFor (value2 words) (x2_copy_from_x4 generate w t).0 (words_of (value4 words) w)
        × StandsFor (value3 words) (x3_copy_from_x2 generate w t).0 (words_of (value2 words) w)
        × StandsFor (value3 words) (x3_copy_from_x4 generate w t).0 (words_of (value4 words) w)
        × StandsFor (value4 words) (x4_copy_from_x2 generate w t).0 (words_of (value2 words) w)
        × StandsFor (value4 words) (x4_copy_from_x3 generate w t).0 (words_of (value3 words) w)
  copies-StandsFor w t h = (
    x2_copy_from_x3_lem w t h,
    x2_copy_from_x4_lem w t h,
    x3_copy_from_x2_lem w t h,
    x3_copy_from_x4_lem w t h,
    x4_copy_from_x2_lem w t h,
    x4_copy_from_x3_lem w t h,
  )

-- For a state and randomness of 64-bit words, each masked permutation permutes the five words that
-- its shares stand for: on two, on three and on four shares, for every first round, it leaves shares
-- of 64 bits that stand for what `ascon_permute` makes of the words.
pub permutes-StandsFor :
    (w : MaskedState) (first_round : ℕ) (r : Preserve ℕ)
    → AllShares IsMasked w
    → IsPreserve r
    → StandsFor
        (value2 words)
        (x2_permute w first_round r).0
        (permute_words (words_of (value2 words) w) first_round)
      × StandsFor
          (value3 words)
          (x3_permute w first_round r).0
          (permute_words (words_of (value3 words) w) first_round)
      × StandsFor
          (value4 words)
          (x4_permute w first_round r).0
          (permute_words (words_of (value4 words) w) first_round)
permutes-StandsFor w first_round r h k =
    let two = x2-permute w first_round r h k in
    let three = x3-permute w first_round r h k in
    let four = x4-permute w first_round r h k in
    ((two.0, two.1), (three.0, three.1), (four.0, four.1))

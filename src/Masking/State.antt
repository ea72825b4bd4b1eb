-- ===== src/Masking/State.antt =====
-- `ascon_masked_state_t` of src/masking/ascon-masked-state.c: randomizing a masked state, and copying
-- between masked states and the plain one. The loop over `index` is five steps in a row.
pub mod Laws
use ascon_suite_tcc.Base.{ℕ, List, [], ◌++◌, drop}
use ascon_suite_tcc.Core.Word.Symbolic.{words}
use ascon_suite_tcc.Masking.Word.{Masked}
use ascon_suite_tcc.Masking.Permute.{Five}
use ascon_suite_tcc.Masking.Shares.{MaskedState}
use ascon_suite_tcc.Masking.Operations.{MaskedOps}
use ascon_suite_tcc.Masking.Operations.Two.{draw2, x2_from_x3, x2_from_x4}
use ascon_suite_tcc.Masking.Operations.Three.{draw3, x3_from_x2, x3_from_x4}
use ascon_suite_tcc.Masking.Operations.Four.{draw4, x4_from_x2, x4_from_x3}

abbrev pub no_shares : Masked ℕ
no_shares = record { s0 = 0; s1 = 0; s2 = 0; s3 = 0 }

-- `ascon_masked_state_init`
abbrev pub masked_state_init : MaskedState
masked_state_init = record {
  x0 = no_shares;
  x1 = no_shares;
  x2 = no_shares;
  x3 = no_shares;
  x4 = no_shares;
}

module _ {T : Type 0} where
  -- `for (index = 0; index < 5; ++index)` with one step for each index
  unfoldable pub for_each_word :
      (T → Masked ℕ × T)
      → (T → Masked ℕ × T)
      → (T → Masked ℕ × T)
      → (T → Masked ℕ × T)
      → (T → Masked ℕ × T)
      → T
      → MaskedState × T
  for_each_word f0 f1 f2 f3 f4 t =
      let m0 = f0 t in
      let m1 = f1 m0.1 in
      let m2 = f2 m1.1 in
      let m3 = f3 m2.1 in
      let m4 = f4 m3.1 in (record { x0 = m0.0; x1 = m1.0; x2 = m2.0; x3 = m3.0; x4 = m4.0 }, m4.1)

  unfoldable pub map_words : (Masked ℕ → T → Masked ℕ × T) → MaskedState → T → MaskedState × T
  unfolding for_each_word
  map_words f w = for_each_word (f w.x0) (f w.x1) (f w.x2) (f w.x3) (f w.x4)

  module _ (ops : MaskedOps T) where
    -- `ascon_xN_randomize`
    unfoldable pub randomize : MaskedState → T → MaskedState × T
    unfolding map_words
    randomize = map_words λ m. ops.randomize m m

    -- `ascon_xN_copy_from_x1`, of the bytes `src->B`
    unfoldable pub copy_from_x1 : List ℕ → T → MaskedState × T
    unfolding for_each_word
    copy_from_x1 src =
        for_each_word (ops.load src) (ops.load (drop 8 src)) (ops.load (drop 16 src))
          (ops.load (drop 24 src)) (ops.load (drop 32 src))

    -- `ascon_xN_copy_to_x1`: the bytes `dest->B`
    unfoldable pub copy_to_x1 : MaskedState → List ℕ
    copy_to_x1 src =
        ops.store src.x0
        ++ (ops.store src.x1 ++ (ops.store src.x2 ++ (ops.store src.x3 ++ ops.store src.x4)))

    -- `ascon_xN_copy_from_xN`
    unfoldable pub copy_from_same : MaskedState → MaskedState → T → MaskedState × T
    unfolding for_each_word
    copy_from_same dest src =
        for_each_word (ops.randomize dest.x0 src.x0) (ops.randomize dest.x1 src.x1)
          (ops.randomize dest.x2 src.x2) (ops.randomize dest.x3 src.x3)
          (ops.randomize dest.x4 src.x4)

  module _ (generate : T → ℕ × T) where
    -- `ascon_x2_copy_from_x3` and the other changes of the number of shares
    unfoldable pub x2_copy_from_x3 : MaskedState → T → MaskedState × T
    unfolding map_words
    x2_copy_from_x3 = map_words λ m. draw2 generate (x2_from_x3 words 0 m)

    unfoldable pub x2_copy_from_x4 : MaskedState → T → MaskedState × T
    unfolding map_words
    x2_copy_from_x4 = map_words λ m. draw2 generate (x2_from_x4 words 0 m)

    unfoldable pub x3_copy_from_x2 : MaskedState → T → MaskedState × T
    unfolding map_words
    x3_copy_from_x2 = map_words λ m. draw3 generate (x3_from_x2 words 0 m)

    unfoldable pub x3_copy_from_x4 : MaskedState → T → MaskedState × T
    unfolding map_words
    x3_copy_from_x4 = map_words λ m. draw3 generate (x3_from_x4 words 0 m)

    unfoldable pub x4_copy_from_x2 : MaskedState → T → MaskedState × T
    unfolding map_words
    x4_copy_from_x2 = map_words λ m. draw4 generate (x4_from_x2 words m)

    unfoldable pub x4_copy_from_x3 : MaskedState → T → MaskedState × T
    unfolding map_words
    x4_copy_from_x3 = map_words λ m. draw4 generate (x4_from_x3 words m)

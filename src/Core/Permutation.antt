-- ===== src/Core/Permutation.antt =====
-- `ascon_permute` of src/core/ascon-c64.c, on the five words and on the 40 bytes of the state.
pub mod Rounds
mod Tests
use ascon_suite_tcc.Base.{ℕ, zero, suc, ◌+◌, ◌-◌, bit_and, bit_or, bit_xor, List, ◌++◌, drop}
use ascon_suite_tcc.Core.Word.{shl64, not64, right_rotate_64, be_load_word64, be_store_word64}

-- `state->S`, and the local variables `x0` to `x4`
pub record Words : Type 0 where
  pub x0 : ℕ
  pub x1 : ℕ
  pub x2 : ℕ
  pub x3 : ℕ
  pub x4 : ℕ

-- `ROUND_CONSTANT`, the entries of the table `RC`: they are inverted
unfoldable pub round_constant : ℕ → ℕ
unfolding not64
round_constant round = not64 (bit_or (shl64 (15 - round) 4) round)

-- the substitution layer as the code has it, without the final `x2 = ~x2`
unfoldable pub substitute : Words → Words
unfolding not64
substitute w =
    let x0 = bit_xor w.x0 w.x4 in
    let x4 = bit_xor w.x4 w.x3 in
    let x2 = bit_xor w.x2 w.x1 in
    let x1 = w.x1 in
    let x3 = w.x3 in
    let t0 = bit_and (not64 x0) x1 in
    let t1 = bit_and (not64 x1) x2 in
    let t2 = bit_and (not64 x2) x3 in
    let t3 = bit_and (not64 x3) x4 in
    let t4 = bit_and (not64 x4) x0 in
    let x0 = bit_xor x0 t1 in
    let x1 = bit_xor x1 t2 in
    let x2 = bit_xor x2 t3 in
    let x3 = bit_xor x3 t4 in
    let x4 = bit_xor x4 t0 in
    let x1 = bit_xor x1 x0 in
    let x0 = bit_xor x0 x4 in
    let x3 = bit_xor x3 x2 in record { x0 = x0; x1 = x1; x2 = x2; x3 = x3; x4 = x4 }

-- `x ^= rightRotateA_64(x) ^ rightRotateB_64(x)`
unfoldable pub diffuse_word : ℕ → ℕ → ℕ → ℕ
unfolding right_rotate_64
diffuse_word x a b = bit_xor x (bit_xor (right_rotate_64 x a) (right_rotate_64 x b))

-- the linear diffusion layer
unfoldable pub diffuse : Words → Words
unfolding diffuse_word
diffuse w = record {
  x0 = diffuse_word w.x0 19 28;
  x1 = diffuse_word w.x1 61 39;
  x2 = diffuse_word w.x2 1 6;
  x3 = diffuse_word w.x3 10 17;
  x4 = diffuse_word w.x4 7 41;
}

-- `while (first_round < 12) { ...; ++first_round; }` with `left` rounds to go
unfoldable pub rounds : ℕ → ℕ → Words → Words
unfolding round_constant substitute diffuse
rounds zero first_round w = w
rounds (suc left) first_round w =
    rounds left (first_round + 1)
      (diffuse (substitute (record w { x2 = bit_xor w.x2 (round_constant first_round) })))

-- the whole of `ascon_permute` on the words: the loop runs 12 - first_round times
unfoldable pub permute_words : Words → ℕ → Words
unfolding rounds not64
permute_words w first_round =
    let w' = rounds (12 - first_round) first_round (record w { x2 = not64 w.x2 }) in
    record w' { x2 = not64 w'.x2 }

unfoldable pub load_words : List ℕ → Words
unfolding be_load_word64
load_words b = record {
  x0 = be_load_word64 b;
  x1 = be_load_word64 (drop 8 b);
  x2 = be_load_word64 (drop 16 b);
  x3 = be_load_word64 (drop 24 b);
  x4 = be_load_word64 (drop 32 b);
}

unfoldable pub store_words : Words → List ℕ
unfolding be_store_word64
store_words w =
    be_store_word64 w.x0
    ++ (be_store_word64 w.x1
        ++ (be_store_word64 w.x2 ++ (be_store_word64 w.x3 ++ be_store_word64 w.x4)))

-- `ascon_permute(state, first_round)` with the state as the 40 bytes `state->B`
unfoldable pub permute : List ℕ → ℕ → List ℕ
unfolding load_words permute_words store_words
permute b first_round = store_words (permute_words (load_words b) first_round)

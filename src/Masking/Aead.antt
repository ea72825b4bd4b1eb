-- ===== src/Masking/Aead.antt =====
-- src/aead/ascon-aead-masked-common.c: absorbing, encrypting and decrypting with a masked state at a
-- rate of 8 or 16 bytes. `ops` are the `ascon_masked_data_...` macros of ascon-aead-masked-common.h.
-- The encryptions and the decryptions have the same text but for what the word of the state becomes:
-- `decrypting` chooses. A loop takes fuel: the length of its input.
pub mod Word
pub mod Lanes
pub mod Loops
pub mod Rates
pub mod Modes
mod Tests
use ascon_suite_tcc.Base.{
  ℕ, zero, suc, Bool, true, false, List, [], ◌++◌, ltb, leb, if◌then◌else◌, length, take, drop,
}
use ascon_suite_tcc.Masking.Word.{Masked, word_pad}
use ascon_suite_tcc.Masking.Shares.{Preserve, MaskedState}
use ascon_suite_tcc.Masking.Operations.{MaskedOps}

-- the masked state, `preserve`, and the state of the random number generator
pub record Running (T : Type 0) : Type 0 where
  pub state : MaskedState
  pub preserve : Preserve ℕ
  pub trng : T

-- what a step on one word of the state leaves: the word, the bytes stored, and the generator
pub record WordStep (T : Type 0) : Type 0 where
  pub word : Masked ℕ
  pub out : List ℕ
  pub trng : T

-- what a step on the state leaves
pub record StateStep (T : Type 0) : Type 0 where
  pub now : Running T
  pub out : List ℕ

-- what a loop over full blocks leaves, with the input that is left
pub record Looped (T : Type 0) : Type 0 where
  pub now : Running T
  pub out : List ℕ
  pub rest : List ℕ

module _ {T : Type 0} (ops : MaskedOps T) where
  module _ (decrypting : Bool) where
    -- load, xor and store of the eight bytes of `src`; a decryption then puts `*word` in the state
    unfoldable pub full_word : Masked ℕ → List ℕ → T → WordStep T
    full_word m src t =
        let word = ops.load src t in
        let sum = ops.xor m word.0 in
        record { word = if decrypting then word.0 else sum; out = ops.store sum; trng = word.1 }

    -- the same for fewer than eight bytes, if there are any, and the padding
    unfoldable pub partial_word : Masked ℕ → List ℕ → T → WordStep T
    unfolding word_pad
    partial_word m src t =
        let len = length src in
        let word = ops.load_partial src len t in
        let sum = ops.xor m word.0 in
        let some_bytes : WordStep T = record {
          word = if decrypting then ops.replace sum word.0 len else sum;
          out = ops.store_partial len sum;
          trng = word.1;
        } in
        let now : WordStep T =
          if ltb 0 len then some_bytes else record { word = m; out = []; trng = t } in
        record now { word = word_pad now.word len }

    -- a full block, up to the permutation
    unfoldable pub block_8 : Running T → List ℕ → StateStep T
    unfolding full_word
    block_8 r src =
        let w = full_word r.state.x0 src r.trng in
        record {
          now = record r { state = record r.state { x0 = w.word }; trng = w.trng };
          out = w.out;
        }

    unfoldable pub block_16 : Running T → List ℕ → StateStep T
    unfolding full_word
    block_16 r src =
        let w = full_word r.state.x0 (take 8 src) r.trng in
        let v = full_word r.state.x1 (drop 8 src) w.trng in
        record {
          now = record r { state = record r.state { x0 = w.word; x1 = v.word }; trng = v.trng };
          out = w.out ++ v.out;
        }

    -- what is behind the loop
    unfoldable pub left_over_8 : Running T → List ℕ → StateStep T
    unfolding partial_word
    left_over_8 r src =
        let w = partial_word r.state.x0 src r.trng in
        record {
          now = record r { state = record r.state { x0 = w.word }; trng = w.trng };
          out = w.out;
        }

    unfoldable pub left_over_16 : Running T → List ℕ → StateStep T
    unfolding full_word partial_word left_over_8
    left_over_16 r src =
        let w = full_word r.state.x0 (take 8 src) r.trng in
        let v = partial_word r.state.x1 (drop 8 src) w.trng in
        if leb 8 (length src)
        then record {
          now = record r { state = record r.state { x0 = w.word; x1 = v.word }; trng = v.trng };
          out = w.out ++ v.out;
        }
        else left_over_8 r src

  -- `ascon_masked_data_permute(state, first_round, preserve)`
  unfoldable pub permuted : Running T → ℕ → Running T
  permuted r first_round =
      let p = ops.permute r.state first_round r.preserve in record r { state = p.0; preserve = p.1 }

  module _ (rate first_round : ℕ) (block last : Running T → List ℕ → StateStep T) where
    -- `while (len >= rate)`
    unfoldable pub masked_blocks : ℕ → Running T → List ℕ → Looped T
    unfolding permuted
    masked_blocks zero r src = record { now = r; out = []; rest = src }
    masked_blocks (suc fuel) r src =
        let first = block r (take rate src) in
        let more = masked_blocks fuel (permuted first.now first_round) (drop rate src) in
        if leb rate (length src)
        then record { now = more.now; out = first.out ++ more.out; rest = more.rest }
        else record { now = r; out = []; rest = src }

    unfoldable pub masked_duplex : Running T → List ℕ → StateStep T
    unfolding masked_blocks
    masked_duplex r src =
        let full = masked_blocks (length src) r src in
        let end = last full.now full.rest in record { now = end.now; out = full.out ++ end.out }

  -- The six functions. The text of the absorptions is that of the encryptions less the stores to
  -- `dest`, with a permutation at the end.
  abbrev pub masked_encrypt_8 : ℕ → Running T → List ℕ → StateStep T
  masked_encrypt_8 first_round = masked_duplex 8 first_round (block_8 false) (left_over_8 false)

  abbrev pub masked_encrypt_16 : ℕ → Running T → List ℕ → StateStep T
  masked_encrypt_16 first_round = masked_duplex 16 first_round (block_16 false) (left_over_16 false)

  abbrev pub masked_decrypt_8 : ℕ → Running T → List ℕ → StateStep T
  masked_decrypt_8 first_round = masked_duplex 8 first_round (block_8 true) (left_over_8 true)

  abbrev pub masked_decrypt_16 : ℕ → Running T → List ℕ → StateStep T
  masked_decrypt_16 first_round = masked_duplex 16 first_round (block_16 true) (left_over_16 true)

  abbrev pub masked_absorb_8 : ℕ → Running T → List ℕ → Running T
  masked_absorb_8 first_round r src = permuted (masked_encrypt_8 first_round r src).now first_round

  abbrev pub masked_absorb_16 : ℕ → Running T → List ℕ → Running T
  masked_absorb_16 first_round r src =
      permuted (masked_encrypt_16 first_round r src).now first_round

-- ===== src/Aead/Common.antt =====
-- src/aead/ascon-aead-common.c: absorbing, encrypting and decrypting at a rate of 8 or 16 bytes.
-- The functions for the two rates have the same text, and so have those that encrypt and decrypt
-- but for the primitive: the rate and the primitive are parameters here. `size_t len` is the
-- length of the list that stands for the pointer. A loop takes fuel: the length of its input.
use ascon_suite_tcc.Base.{
  ℕ, zero, suc, ◌+◌, ◌-◌, Bool, List, [], ◌++◌, ltb, leb, ◌==◌, if◌then◌else◌, length, take, drop,
}
use ascon_suite_tcc.Core.Word.{u8}
use ascon_suite_tcc.Core.Permutation.{permute}
use ascon_suite_tcc.Core.Snp.{State, xor_block, encrypt_byte, decrypt_byte, each_byte, pad}

-- What an encryption or decryption leaves: the state, the output, and the return value, which is
-- the position in the block where the next byte goes.
pub record Duplexed : Type 0 where
  pub state : State
  pub out : List ℕ
  pub posn : ℕ

-- what the loop over full blocks leaves, with the input that is left
pub record Blocks : Type 0 where
  pub state : State
  pub out : List ℕ
  pub rest : List ℕ

module _ (rate first_round : ℕ) where
  -- `while (len >= rate)` of `ascon_aead_absorb_8` and `ascon_aead_absorb_16`
  unfoldable pub absorb_blocks : ℕ → State → List ℕ → Blocks
  absorb_blocks zero s src = record { state = s; out = []; rest = src }
  absorb_blocks (suc fuel) s src =
      let more =
        absorb_blocks fuel (permute (xor_block s (take rate src) 0) first_round) (drop rate src) in
      if leb rate (length src) then more else record { state = s; out = []; rest = src }

  unfoldable pub absorb : State → List ℕ → Bool → State
  absorb s src last_permute =
      let full = absorb_blocks (length src) s src in
      let filled =
        if ltb 0 (length full.rest) then xor_block full.state full.rest 0 else full.state in
      let padded = pad filled (length full.rest) in
      if last_permute then permute padded first_round else padded

  module _ (byte : State → ℕ → ℕ → State × ℕ) where
    -- `while (len >= rate)` of the encryptions and decryptions
    unfoldable pub blocks : ℕ → State → List ℕ → Blocks
    blocks zero s src = record { state = s; out = []; rest = src }
    blocks (suc fuel) s src =
        let now = each_byte byte s (take rate src) 0 in
        let more = blocks fuel (permute now.state first_round) (drop rate src) in
        if leb rate (length src)
        then record { state = more.state; out = now.out ++ more.out; rest = more.rest }
        else record { state = s; out = []; rest = src }

    -- the full blocks, and the partial block on the end
    unfoldable pub whole : State → List ℕ → Duplexed
    whole s src =
        let full = blocks (length src) s src in
        let last = each_byte byte full.state full.rest 0 in
        if ltb 0 (length full.rest)
        then record { state = last.state; out = full.out ++ last.out; posn = u8 (length full.rest) }
        else record { state = full.state; out = full.out; posn = u8 (length full.rest) }

    -- the whole function, with the partial left-over block from last time
    unfoldable pub duplex : State → List ℕ → ℕ → Duplexed
    duplex s src partial =
        let temp = rate - partial in
        let short = each_byte byte s src partial in
        let now = each_byte byte s (take temp src) partial in
        let more = whole (permute now.state first_round) (drop temp src) in
        if partial == 0
        then whole s src
        else if ltb (length src) temp
        then record { state = short.state; out = short.out; posn = u8 (partial + length src) }
        else record { state = more.state; out = now.out ++ more.out; posn = more.posn }

-- The six functions. The first argument is `first_round`.
abbrev pub absorb_8 : ℕ → State → List ℕ → Bool → State
absorb_8 = absorb 8

abbrev pub absorb_16 : ℕ → State → List ℕ → Bool → State
absorb_16 = absorb 16

abbrev pub encrypt_8 : ℕ → State → List ℕ → ℕ → Duplexed
encrypt_8 first_round = duplex 8 first_round encrypt_byte

abbrev pub encrypt_16 : ℕ → State → List ℕ → ℕ → Duplexed
encrypt_16 first_round = duplex 16 first_round encrypt_byte

abbrev pub decrypt_8 : ℕ → State → List ℕ → ℕ → Duplexed
decrypt_8 first_round = duplex 8 first_round decrypt_byte

abbrev pub decrypt_16 : ℕ → State → List ℕ → ℕ → Duplexed
decrypt_16 first_round = duplex 16 first_round decrypt_byte

-- ===== src/Aead/Ofb.antt =====
-- The loop by which SIV (`ascon_siv_encrypt_8`, `ascon_siv_encrypt_16` of src/siv) and ISAP
-- (`*_encrypt` of src/isap/ascon-isap-common.h) encrypt: each block is combined with a state that
-- depends on no input. The text is the same, with the primitive for a block as a parameter.
pub mod Laws
use ascon_suite_tcc.Base.{ℕ, zero, suc, List, [], ◌++◌, ltb, leb, if◌then◌else◌, length, take, drop}
use ascon_suite_tcc.Core.Permutation.{permute}
use ascon_suite_tcc.Core.Snp.{State, Step}

module _ (rate first_round : ℕ) (crypt : State → List ℕ → List ℕ) where
  -- `if (len > 0)`
  unfoldable pub ofb_rest : State → List ℕ → Step
  ofb_rest s src =
      let s' = permute s first_round in
      if ltb 0 (length src)
      then record { state = s'; out = crypt s' src }
      else record { state = s; out = [] }

  -- `while (len >= rate)`, with the length of the input as fuel
  unfoldable pub ofb_blocks : ℕ → State → List ℕ → Step
  unfolding ofb_rest
  ofb_blocks zero s src = ofb_rest s src
  ofb_blocks (suc fuel) s src =
      let s' = permute s first_round in
      let rest = ofb_blocks fuel s' (drop rate src) in
      if leb rate (length src)
      then record { state = rest.state; out = crypt s' (take rate src) ++ rest.out }
      else ofb_rest s src

  unfoldable pub ofb : State → List ℕ → Step
  unfolding ofb_blocks
  ofb s src = ofb_blocks (length src) s src

-- ===== src/Hash/Xof.antt =====
-- src/hash/ascon-xof.c and src/hash/ascon-xofa.c: a sponge with a rate of 8 bytes that absorbs,
-- then squeezes, and goes back to absorbing. The two files differ in their initial blocks, in the
-- rounds between blocks, and in where a squeeze permutes.
pub mod Sponge
pub mod Stream
pub mod Emit
pub mod Init
pub mod Pieces
use ascon_suite_tcc.Base.{
  ℕ, zero, suc, ◌+◌, ◌-◌, ◌*◌, ◌^◌, Option, none, some, bit_or, List, [], ◌++◌, ltb, leb, ◌==◌,
  if◌then◌else◌, length, take, drop, replicate,
}
use ascon_suite_tcc.Core.Word.{u8, be_store_word64}
use ascon_suite_tcc.Core.Permutation.{permute}
use ascon_suite_tcc.Core.Snp.{State, xor_block, overwrite_bytes, separator}
use ascon_suite_tcc.Core.Snp
use ascon_suite_tcc.Aead.Common.{absorb_blocks}

-- `ascon_xof_state_t` and `ascon_xofa_state_t`; `mode` is 0 while absorbing and 1 while squeezing
pub record Xof : Type 0 where
  pub state : State
  pub count : ℕ
  pub mode : ℕ

-- the state, and the bytes that were written out
pub record Squeezed : Type 0 where
  pub xof : Xof
  pub out : List ℕ

-- `ASCON_HASH_SIZE` and `ASCON_XOF_RATE`
abbrev pub hash_size : ℕ
hash_size = 32

abbrev pub xof_rate : ℕ
xof_rate = 8

-- Absorbing permutes with `block_round` after a block: 0 in XOF, and 4 in XOFA. The text of
-- `ascon_prf_absorb` is the same, with a rate of 32.
module _ (rate block_round : ℕ) where
  -- the end of the call: full blocks, and the left-over block
  unfoldable pub absorb_aligned : Xof → List ℕ → Xof
  absorb_aligned st src =
      let full = absorb_blocks rate block_round (length src) st.state src in
      let filled =
        if ltb 0 (length full.rest) then xor_block full.state full.rest 0 else full.state in
      record st { state = filled; count = length full.rest }

  -- behind the change of phase
  unfoldable pub absorb_left_over : Xof → List ℕ → Xof
  absorb_left_over st src =
      let temp = rate - st.count in
      let aligned = absorb_aligned st src in
      let short = record st {
        state = xor_block st.state src st.count;
        count = st.count + length src;
      } in
      let filled = xor_block st.state (take temp src) st.count in
      let next = record st { state = permute filled block_round; count = 0 } in
      let more = absorb_aligned next (drop temp src) in
      if st.count == 0 then aligned else if ltb (length src) temp then short else more

  -- the whole call
  unfoldable pub sponge_absorb : Xof → List ℕ → Xof
  sponge_absorb st src =
      let absorbing : Xof = record { state = permute st.state 0; count = 0; mode = 0 } in
      absorb_left_over (if st.mode == 0 then st else absorbing) src

module _ (block_round : ℕ) where
  -- `ascon_xof_absorb` and `ascon_xofa_absorb`
  unfoldable pub absorb : Xof → List ℕ → Xof
  absorb st src = sponge_absorb xof_rate block_round st src

  -- `ascon_xof_absorb_custom` and `ascon_xofa_absorb_custom`
  unfoldable pub absorb_custom : Xof → List ℕ → Xof
  absorb_custom st custom =
      let st' = absorb st custom in
      let s = separator (permute (Snp.pad st'.state st'.count) block_round) in
      if ltb 0 (length custom) then record st' { state = s; count = 0 } else st

  -- `ascon_xof_pad` and `ascon_xofa_pad`
  unfoldable pub pad : Xof → Xof
  pad st =
      if st.mode == 0
      then (if st.count == 0
          then st
          else record st { state = permute st.state block_round; count = 0 })
      else absorb st []

-- `while (outlen >= ASCON_XOF_RATE)` of `ascon_xof_squeeze`: the state, the output, and the length
-- that is left. The fuel is `outlen`.
pub record Blocks : Type 0 where
  pub state : State
  pub out : List ℕ
  pub left : ℕ

module _ (rate : ℕ) where
  unfoldable pub squeeze_blocks : ℕ → State → ℕ → Blocks
  squeeze_blocks zero s outlen = record { state = s; out = []; left = outlen }
  squeeze_blocks (suc fuel) s outlen =
      let s' = permute s 0 in
      let more = squeeze_blocks fuel s' (outlen - rate) in
      if leb rate outlen
      then record { state = more.state; out = Snp.squeeze s' 0 rate ++ more.out; left = more.left }
      else record { state = s; out = []; left = outlen }

  unfoldable pub squeeze_aligned : Xof → ℕ → Squeezed
  squeeze_aligned st outlen =
      let full = squeeze_blocks outlen st.state outlen in
      let s = permute full.state 0 in
      if ltb 0 full.left
      then record {
        xof = record st { state = s; count = full.left };
        out = full.out ++ Snp.squeeze s 0 full.left;
      }
      else record { xof = record st { state = full.state }; out = full.out }

  unfoldable pub squeeze_left_over : Xof → ℕ → Squeezed
  squeeze_left_over st outlen =
      let temp = rate - st.count in
      let aligned = squeeze_aligned st outlen in
      let more = squeeze_aligned (record st { count = 0 }) (outlen - temp) in
      if st.count == 0
      then aligned
      else if ltb outlen temp
      then record {
        xof = record st { count = st.count + outlen };
        out = Snp.squeeze st.state st.count outlen;
      }
      else record { xof = more.xof; out = Snp.squeeze st.state st.count temp ++ more.out }

-- `ascon_xof_squeeze`
unfoldable pub squeeze : Xof → ℕ → Squeezed
squeeze st outlen =
    let padded : Xof = record { state = Snp.pad st.state st.count; count = 0; mode = 1 } in
    squeeze_left_over xof_rate (if st.mode == 0 then padded else st) outlen

-- `ascon_xofa_squeeze` permutes behind a block, with eight rounds, and once behind the padding.
unfoldable pub squeeze_blocks_a : ℕ → State → ℕ → Blocks
squeeze_blocks_a zero s outlen = record { state = s; out = []; left = outlen }
squeeze_blocks_a (suc fuel) s outlen =
    let more = squeeze_blocks_a fuel (permute s 4) (outlen - xof_rate) in
    if leb xof_rate outlen
    then record { state = more.state; out = Snp.squeeze s 0 8 ++ more.out; left = more.left }
    else record { state = s; out = []; left = outlen }

unfoldable pub squeeze_aligned_a : Xof → ℕ → Squeezed
squeeze_aligned_a st outlen =
    let full = squeeze_blocks_a outlen st.state outlen in
    if ltb 0 full.left
    then record {
      xof = record st { state = full.state; count = full.left };
      out = full.out ++ Snp.squeeze full.state 0 full.left;
    }
    else record { xof = record st { state = full.state }; out = full.out }

unfoldable pub squeeze_left_over_a : Xof → ℕ → Squeezed
squeeze_left_over_a st outlen =
    let temp = xof_rate - st.count in
    let aligned = squeeze_aligned_a st outlen in
    let next = record st { state = permute st.state 4; count = 0 } in
    let more = squeeze_aligned_a next (outlen - temp) in
    if st.count == 0
    then aligned
    else if ltb outlen temp
    then record {
      xof = record st { count = st.count + outlen };
      out = Snp.squeeze st.state st.count outlen;
    }
    else record { xof = more.xof; out = Snp.squeeze st.state st.count temp ++ more.out }

unfoldable pub squeeze_a : Xof → ℕ → Squeezed
squeeze_a st outlen =
    let padded : Xof = record {
      state = permute (Snp.pad st.state st.count) 0;
      count = 0;
      mode = 1;
    } in
    squeeze_left_over_a (if st.mode == 0 then padded else st) outlen

-- ===== src/Mac/Hmac.antt =====
-- HMAC of src/mac/ascon-hmac-common.h, which ascon-hmac.c and ascon-hmaca.c include for HASH and
-- HASHA. The state is the one field `hash`, which is the sponge's.
pub mod Chunks
pub mod Laws
use ascon_suite_tcc.Base.{
  ℕ, zero, suc, ◌+◌, ◌-◌, bit_xor, List, [], ◌∷◌, ltb, leb, ◌==◌, if◌then◌else◌, length, take, drop,
  replicate,
}
use ascon_suite_tcc.Hash.Xof.{Xof, Squeezed, hash_size, absorb}
use ascon_suite_tcc.Hash.Xof.Init.{Flavour, xof_flavour, xofa_flavour, hash_init, free}

-- `HMAC_BLOCK_SIZE`, `HMAC_IPAD` and `HMAC_OPAD`
abbrev pub hmac_block_size : ℕ
hmac_block_size = 64

abbrev pub ipad : ℕ
ipad = 0x36

abbrev pub opad : ℕ
opad = 0x5c

-- `*_xor_pad`
unfoldable pub xor_pad : List ℕ → ℕ → List ℕ
xor_pad [] pad = []
xor_pad (b ∷ input) pad = bit_xor b pad ∷ xor_pad input pad

module _ (f : Flavour) where
  -- `HMAC_HASH_FINALIZE`: the digest
  abbrev pub digest : Xof → List ℕ
  digest st = (f.squeeze_call st hash_size).out

  -- `while (posn < keylen)` of `*_absorb_key`, on the rest of the key, with its length as fuel
  unfoldable pub absorb_chunks : ℕ → Xof → List ℕ → ℕ → Xof
  absorb_chunks zero st key pad = st
  absorb_chunks (suc fuel) st key pad =
      let more =
        absorb_chunks fuel (absorb f.block_round st (xor_pad (take hash_size key) pad))
          (drop hash_size key) pad in
      if length key == 0 then st else more

  -- `while (posn < HMAC_BLOCK_SIZE)` of `*_absorb_key`, with `left` bytes of the block to go
  unfoldable pub absorb_padding : ℕ → Xof → ℕ → ℕ → Xof
  absorb_padding zero st left pad = st
  absorb_padding (suc fuel) st left pad =
      let len = if ltb hash_size left then hash_size else left in
      let more =
        absorb_padding fuel (absorb f.block_round st (take len (replicate hash_size pad)))
          (left - len) pad in
      if left == 0 then st else more

  -- `*_absorb_key`
  unfoldable pub absorb_key : Xof → List ℕ → ℕ → Xof
  absorb_key st key pad =
      let short = absorb_chunks (length key) st key pad in
      let temp = digest (absorb f.block_round st key) in
      let long = absorb f.block_round (hash_init f) (xor_pad temp pad) in
      if leb (length key) hmac_block_size
      then absorb_padding hmac_block_size short (hmac_block_size - length key) pad
      else absorb_padding hmac_block_size long (hmac_block_size - hash_size) pad

  -- `*_init`
  unfoldable pub hmac_init : List ℕ → Xof
  hmac_init key = absorb_key (hash_init f) key ipad

  -- `*_finalize`: the state that is left, and the digest
  unfoldable pub hmac_finalize : Xof → List ℕ → Squeezed
  hmac_finalize st key =
      let temp = digest st in
      let keyed = absorb_key (hash_init f) key opad in
      f.squeeze_call (absorb f.block_round keyed temp) hash_size

  -- the one-shot function
  unfoldable pub hmac : List ℕ → List ℕ → List ℕ
  hmac key input = (hmac_finalize (absorb f.block_round (hmac_init key) input) key).out

-- src/mac/ascon-hmac.c
abbrev pub ascon_hmac : List ℕ → List ℕ → List ℕ
ascon_hmac = hmac xof_flavour

abbrev pub ascon_hmac_init : List ℕ → Xof
ascon_hmac_init = hmac_init xof_flavour

abbrev pub ascon_hmac_reinit : Xof → List ℕ → Xof
ascon_hmac_reinit st key = hmac_init xof_flavour key

abbrev pub ascon_hmac_free : Xof → Xof
ascon_hmac_free = free

abbrev pub ascon_hmac_update : Xof → List ℕ → Xof
ascon_hmac_update = absorb 0

abbrev pub ascon_hmac_finalize : Xof → List ℕ → Squeezed
ascon_hmac_finalize = hmac_finalize xof_flavour

-- src/mac/ascon-hmaca.c
abbrev pub ascon_hmaca : List ℕ → List ℕ → List ℕ
ascon_hmaca = hmac xofa_flavour

abbrev pub ascon_hmaca_init : List ℕ → Xof
ascon_hmaca_init = hmac_init xofa_flavour

abbrev pub ascon_hmaca_reinit : Xof → List ℕ → Xof
ascon_hmaca_reinit st key = hmac_init xofa_flavour key

abbrev pub ascon_hmaca_free : Xof → Xof
ascon_hmaca_free = free

abbrev pub ascon_hmaca_update : Xof → List ℕ → Xof
ascon_hmaca_update = absorb 4

abbrev pub ascon_hmaca_finalize : Xof → List ℕ → Squeezed
ascon_hmaca_finalize = hmac_finalize xofa_flavour

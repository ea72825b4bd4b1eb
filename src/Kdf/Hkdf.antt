-- ===== src/Kdf/Hkdf.antt =====
-- HKDF of src/kdf/ascon-hkdf-common.h, which ascon-hkdf.c and ascon-hkdfa.c include for HMAC and
-- HMACA.
pub mod Expand
pub mod Block
pub mod Loop
pub mod Laws
pub mod Rfc
use ascon_suite_tcc.Base.{
  ℕ, zero, suc, ◌+◌, ◌-◌, ◌*◌, ◌%◌, ◌^◌, List, [], ◌∷◌, ◌++◌, ltb, ◌==◌, if◌then◌else◌, length,
  take, drop, replicate,
}
use ascon_suite_tcc.Core.Word.{u8}
use ascon_suite_tcc.Hash.Xof.{Xof, absorb}
use ascon_suite_tcc.Hash.Xof.Init.{Flavour, xof_flavour, xofa_flavour}
use ascon_suite_tcc.Aead.Tag.{minus_one}
use ascon_suite_tcc.Mac.Hmac.{hmac_init, hmac_finalize}

-- `HKDF_HMAC_SIZE`
abbrev pub hmac_size : ℕ
hmac_size = 32

-- `ascon_hkdf_state_t` and `ascon_hkdfa_state_t`
pub record HkdfState : Type 0 where
  pub prk : List ℕ
  pub out : List ℕ
  pub counter : ℕ
  pub posn : ℕ

-- what an expansion leaves: the state, the return value, and the bytes written
pub record Expanded : Type 0 where
  pub state : HkdfState
  pub result : ℕ
  pub written : List ℕ

module _ (f : Flavour) where
  -- `*_extract`, on a state whose `out` is not touched
  unfoldable pub extract : HkdfState → List ℕ → List ℕ → HkdfState
  extract st key salt =
      let hmac = absorb f.block_round (hmac_init f salt) key in
      record st { prk = (hmac_finalize f hmac salt).out; counter = 1; posn = hmac_size }

  -- the calls of HMAC that make the next block
  unfoldable pub next_block : HkdfState → List ℕ → List ℕ
  next_block st info =
      let start = hmac_init f st.prk in
      let chained = if st.counter == 1 then start else absorb f.block_round start st.out in
      let named = absorb f.block_round chained info in
      (hmac_finalize f (absorb f.block_round named (st.counter ∷ [])) st.prk).out

  -- `while (outlen > 0)` of `*_expand`; the fuel is `outlen`
  unfoldable pub expand_blocks : ℕ → HkdfState → List ℕ → ℕ → Expanded
  expand_blocks zero st info outlen = record { state = st; result = 0; written = [] }
  expand_blocks (suc fuel) st info outlen =
      let block = next_block st info in
      let len = if ltb outlen hmac_size then outlen else hmac_size in
      let st' = record st { out = block; counter = u8 (st.counter + 1); posn = len } in
      let more = expand_blocks fuel st' info (outlen - len) in
      if outlen == 0
      then record { state = st; result = 0; written = [] }
      else if st.counter == 0
      then record { state = st; result = minus_one; written = replicate outlen 0 }
      else record {
        state = more.state;
        result = more.result;
        written = take len block ++ more.written;
      }

  -- `*_expand`
  unfoldable pub expand : HkdfState → List ℕ → ℕ → Expanded
  expand st info outlen =
      let left = hmac_size - st.posn in
      let len = if ltb outlen left then outlen else left in
      let more = expand_blocks outlen (record st { posn = st.posn + len }) info (outlen - len) in
      record more { written = take len (drop st.posn st.out) ++ more.written }

  -- the one-shot function: the return value and what was written, from a state on the stack that
  -- holds anything
  unfoldable pub hkdf : HkdfState → List ℕ → List ℕ → List ℕ → ℕ → ℕ × List ℕ
  hkdf stack key salt info outlen =
      let e = expand (extract stack key salt) info outlen in
      if ltb (hmac_size * 255) outlen then (minus_one, []) else (0, e.written)

-- `*_free`
unfoldable pub hkdf_free : HkdfState → HkdfState
hkdf_free st = record { prk = replicate 32 0; out = replicate 32 0; counter = 0; posn = 0 }

-- src/kdf/ascon-hkdf.c
abbrev pub ascon_hkdf : HkdfState → List ℕ → List ℕ → List ℕ → ℕ → ℕ × List ℕ
ascon_hkdf = hkdf xof_flavour

abbrev pub ascon_hkdf_extract : HkdfState → List ℕ → List ℕ → HkdfState
ascon_hkdf_extract = extract xof_flavour

abbrev pub ascon_hkdf_expand : HkdfState → List ℕ → ℕ → Expanded
ascon_hkdf_expand = expand xof_flavour

abbrev pub ascon_hkdf_free : HkdfState → HkdfState
ascon_hkdf_free = hkdf_free

-- src/kdf/ascon-hkdfa.c
abbrev pub ascon_hkdfa : HkdfState → List ℕ → List ℕ → List ℕ → ℕ → ℕ × List ℕ
ascon_hkdfa = hkdf xofa_flavour

abbrev pub ascon_hkdfa_extract : HkdfState → List ℕ → List ℕ → HkdfState
ascon_hkdfa_extract = extract xofa_flavour

abbrev pub ascon_hkdfa_expand : HkdfState → List ℕ → ℕ → Expanded
ascon_hkdfa_expand = expand xofa_flavour

abbrev pub ascon_hkdfa_free : HkdfState → HkdfState
ascon_hkdfa_free = hkdf_free

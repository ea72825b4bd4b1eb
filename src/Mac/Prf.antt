-- ===== src/Mac/Prf.antt =====
-- src/mac/ascon-prf.c: a sponge that absorbs 32 bytes and squeezes 16 at a time, the variant for
-- short inputs, and the MAC. The state has the fields of the XOF's.
pub mod Laws
use ascon_suite_tcc.Base.{
  ℕ, ◌+◌, ◌*◌, ◌%◌, ◌^◌, List, [], ◌∷◌, ◌++◌, ltb, ◌==◌, if◌then◌else◌, length, take,
}
use ascon_suite_tcc.Core.Word.{u8, be_store_word32}
use ascon_suite_tcc.Core.Permutation.{permute}
use ascon_suite_tcc.Core.Snp.{xor_block, overwrite_bytes, separator}
use ascon_suite_tcc.Core.Snp
use ascon_suite_tcc.Aead.Tag.{minus_one, check_tag}
use ascon_suite_tcc.Hash.Xof.{Xof, Squeezed, sponge_absorb, squeeze_left_over}
use ascon_suite_tcc.Hash.Xof.Init.{limit_outlen}

-- `ASCON_PRF_RATE_IN` and `ASCON_PRF_RATE_OUT`
abbrev pub prf_rate_in : ℕ
prf_rate_in = 32

abbrev pub prf_rate_out : ℕ
prf_rate_out = 16

-- `ASCON_PRF_KEY_SIZE`, and `ASCON_PRF_SHORT_KEY_SIZE`
abbrev pub prf_key_size : ℕ
prf_key_size = 16

-- `ASCON_PRF_SHORT_MAX_INPUT_SIZE`, and `ASCON_PRF_SHORT_MAX_OUTPUT_SIZE`
abbrev pub prf_short_max : ℕ
prf_short_max = 16

-- `ASCON_MAC_TAG_SIZE`
abbrev pub mac_tag_size : ℕ
mac_tag_size = 16

-- `ascon_prf_fixed_init`
unfoldable pub ascon_prf_fixed_init : List ℕ → ℕ → Xof
ascon_prf_fixed_init key outlen =
    let outlen' = limit_outlen outlen in
    let iv = 0x80 ∷ 0x80 ∷ 0x8c ∷ 0x00 ∷ be_store_word32 (outlen' * 8 % 2 ^ 32) in
    let loaded = overwrite_bytes (overwrite_bytes Snp.init iv 0) (take prf_key_size key) 8 in
    record { state = permute loaded 0; count = 0; mode = 0 }

abbrev pub ascon_prf_init : List ℕ → Xof
ascon_prf_init key = ascon_prf_fixed_init key 0

-- `ascon_prf_free`
abbrev pub ascon_prf_free : Xof → Xof
ascon_prf_free st = record { state = Snp.init; count = 0; mode = 0 }

abbrev pub ascon_prf_reinit : Xof → List ℕ → Xof
ascon_prf_reinit st key = ascon_prf_fixed_init key 0

abbrev pub ascon_prf_fixed_reinit : Xof → List ℕ → ℕ → Xof
ascon_prf_fixed_reinit st key outlen = ascon_prf_fixed_init key outlen

unfoldable pub ascon_prf_absorb : Xof → List ℕ → Xof
ascon_prf_absorb st src = sponge_absorb prf_rate_in 0 st src

unfoldable pub ascon_prf_squeeze : Xof → ℕ → Squeezed
ascon_prf_squeeze st outlen =
    let padded : Xof = record {
      state = separator (Snp.pad st.state st.count);
      count = 0;
      mode = 1;
    } in
    squeeze_left_over prf_rate_out (if st.mode == 0 then padded else st) outlen

-- The one-shot functions: what is written to `out`, which has `outlen` bytes.
unfoldable pub ascon_prf : ℕ → List ℕ → List ℕ → List ℕ
ascon_prf outlen input key =
    (ascon_prf_squeeze (ascon_prf_absorb (ascon_prf_fixed_init key 0) input) outlen).out

unfoldable pub ascon_prf_fixed : ℕ → List ℕ → List ℕ → List ℕ
ascon_prf_fixed outlen input key =
    (ascon_prf_squeeze (ascon_prf_absorb (ascon_prf_fixed_init key outlen) input) outlen).out

-- the return value, and what is written
unfoldable pub ascon_prf_short : ℕ → List ℕ → List ℕ → ℕ × List ℕ
ascon_prf_short outlen input key =
    let iv = 0x80 ∷ u8 (length input * 8) ∷ 0x4c ∷ 0x80 ∷ 0 ∷ 0 ∷ 0 ∷ 0 ∷ [] in
    let k = take prf_key_size key in
    let loaded = overwrite_bytes (overwrite_bytes (overwrite_bytes Snp.init iv 0) k 8) input 24 in
    let s = xor_block (permute loaded 0) k 24 in
    if ltb prf_short_max (length input)
    then (minus_one, [])
    else if ltb prf_short_max outlen
    then (minus_one, [])
    else (0, Snp.squeeze s 24 outlen)

unfoldable pub ascon_mac : List ℕ → List ℕ → List ℕ
ascon_mac input key =
    (ascon_prf_squeeze (ascon_prf_absorb (ascon_prf_fixed_init key mac_tag_size) input)
      mac_tag_size).out

unfoldable pub ascon_mac_verify : List ℕ → List ℕ → List ℕ → ℕ
ascon_mac_verify tag input key = (check_tag [] (take mac_tag_size tag) (ascon_mac input key)).result

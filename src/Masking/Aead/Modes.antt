-- ===== src/Masking/Aead/Modes.antt =====
-- The masked AEAD modes of src/aead/ascon-aead-masked-128.c and ascon-aead-masked-128a.c, for more
-- than one share of the data. Both files have the same text but for the IV, the rate, the rounds and
-- the place of the key in the final permutation. `ascon_clean` and the `free` functions at the end
-- clear local memory.
pub mod Blocks
pub mod Laws
pub mod Variants
pub mod Refine
pub mod Default
use ascon_suite_tcc.Base.{
  ℕ, ◌+◌, ◌-◌, Bool, true, false, List, ◌++◌, ltb, if◌then◌else◌, length, take, drop,
}
use ascon_suite_tcc.Aead.Oneshot.{Sealed, Opened, too_short, opened}
use ascon_suite_tcc.Aead.Tag.{check_tag}
use ascon_suite_tcc.Aead.Variant.Ascon.{ascon128_iv, ascon128a_iv}
use ascon_suite_tcc.Masking.Word.{word_separator}
use ascon_suite_tcc.Masking.Shares.{Preserve, MaskedState}
use ascon_suite_tcc.Masking.Operations.{MaskedOps}
use ascon_suite_tcc.Masking.Operations.Two.{ops2}
use ascon_suite_tcc.Masking.Operations.Four.{ops4}
use ascon_suite_tcc.Masking.State.{masked_state_init, randomize, x2_copy_from_x4, x4_copy_from_x2}
use ascon_suite_tcc.Masking.Key.{Key128}
use ascon_suite_tcc.Masking.Aead.{
  Running, StateStep, permuted, masked_absorb_8, masked_absorb_16, masked_encrypt_8,
  masked_encrypt_16, masked_decrypt_8, masked_decrypt_16,
}

-- What ASCON_MASKED_KEY_SHARES and ASCON_MASKED_DATA_SHARES choose: the macros
-- `ascon_masked_key_...` and `ascon_masked_data_...`, the words drawn for `preserve`, and
-- `ascon_copy_key_to_xN` and `ascon_copy_key_from_xN`.
pub record MaskedBuild (T : Type 0) : Type 0 where
  pub key : MaskedOps T
  pub data_ops : MaskedOps T
  pub refresh : Preserve ℕ → T → Preserve ℕ × T
  pub key_to_data : MaskedState → T → MaskedState × T
  pub key_from_data : MaskedState → T → MaskedState × T

-- three words of `preserve` for four shares
abbrev pub refresh4 : {T : Type 0} → (T → ℕ × T) → Preserve ℕ → T → Preserve ℕ × T
refresh4 generate preserve t =
    let r0 = generate t in
    let r1 = generate r0.1 in
    let r2 = generate r1.1 in (record { p0 = r0.0; p1 = r1.0; p2 = r2.0 }, r2.1)

-- the default: four shares of the key and two of the data
abbrev pub default_build : {T : Type 0} → (T → ℕ × T) → MaskedBuild T
default_build generate = record {
  key = ops4 generate;
  data_ops = ops2 generate;
  refresh = refresh4 generate;
  key_to_data = x2_copy_from_x4 generate;
  key_from_data = x4_copy_from_x2 generate;
}

module _ {T : Type 0} (build : MaskedBuild T) where
  -- `ascon128_masked_aead_init` and `ascon128a_masked_aead_init`
  unfoldable pub masked_init : List ℕ → Preserve ℕ → T → List ℕ → Key128 → Running T
  unfolding randomize
  masked_init iv preserve t npub k =
      let key = build.key in
      let fresh = build.refresh preserve t in
      let start = randomize key masked_state_init fresh.1 in
      let word = key.load iv start.1 in
      let n0 = key.load (take 8 npub) word.1 in
      let n1 = key.load (take 8 (drop 8 npub)) n0.1 in
      let filled : MaskedState = record {
        x0 = key.xor start.0.x0 word.0;
        x1 = key.xor start.0.x1 k.k0;
        x2 = key.xor start.0.x2 k.k1;
        x3 = key.xor start.0.x3 n0.0;
        x4 = key.xor start.0.x4 n1.0;
      } in
      let p = key.permute filled 0 fresh.0 in
      let keyed = record p.0 { x3 = key.xor p.0.x3 k.k0; x4 = key.xor p.0.x4 k.k1 } in
      let turned = build.key_to_data keyed n1.1 in
      record { state = turned.0; preserve = p.1; trng = turned.1 }

  -- the permutation and the tag at the end of both `finalize` functions
  unfoldable pub masked_tag : MaskedState → Preserve ℕ → Key128 → List ℕ
  masked_tag w preserve k =
      let key = build.key in
      let p = key.permute w 0 preserve in
      key.store (key.xor p.0.x3 k.k0) ++ key.store (key.xor p.0.x4 k.k1)

  -- `ascon128_masked_aead_finalize`: the tag
  unfoldable pub masked_finalize_128 : Running T → Key128 → List ℕ
  unfolding masked_tag
  masked_finalize_128 r k =
      let fresh = build.refresh r.preserve r.trng in
      let w = (build.key_from_data r.state fresh.1).0 in
      masked_tag (record w { x1 = build.key.xor w.x1 k.k0; x2 = build.key.xor w.x2 k.k1 }) fresh.0 k

  -- `ascon128a_masked_aead_finalize`
  unfoldable pub masked_finalize_128a : Running T → Key128 → List ℕ
  unfolding masked_tag
  masked_finalize_128a r k =
      let fresh = build.refresh r.preserve r.trng in
      let w = (build.key_from_data r.state fresh.1).0 in
      masked_tag (record w { x2 = build.key.xor w.x2 k.k0; x3 = build.key.xor w.x3 k.k1 }) fresh.0 k

-- what differs between the two modes
pub record MaskedMode (T : Type 0) : Type 0 where
  pub iv : List ℕ
  pub absorb : Running T → List ℕ → Running T
  pub encrypt_data : Running T → List ℕ → StateStep T
  pub decrypt_data : Running T → List ℕ → StateStep T
  pub finalize : Running T → Key128 → List ℕ

module _ {T : Type 0} (build : MaskedBuild T) where
  abbrev pub masked_128 : MaskedMode T
  masked_128 = record {
    iv = ascon128_iv;
    absorb = masked_absorb_8 build.data_ops 6;
    encrypt_data = masked_encrypt_8 build.data_ops 6;
    decrypt_data = masked_decrypt_8 build.data_ops 6;
    finalize = masked_finalize_128 build;
  }

  abbrev pub masked_128a : MaskedMode T
  masked_128a = record {
    iv = ascon128a_iv;
    absorb = masked_absorb_16 build.data_ops 4;
    encrypt_data = masked_encrypt_16 build.data_ops 4;
    decrypt_data = masked_decrypt_16 build.data_ops 4;
    finalize = masked_finalize_128a build;
  }

  module _ (mode : MaskedMode T) (preserve : Preserve ℕ) (trng : T) where
    -- the initialization, the associated data and the separator
    unfoldable pub masked_start : List ℕ → List ℕ → Key128 → Running T
    unfolding masked_init word_separator
    masked_start ad npub k =
        let r = masked_init build mode.iv preserve trng npub k in
        let bound = if ltb 0 (length ad) then mode.absorb r ad else r in
        record bound { state = record bound.state { x4 = word_separator bound.state.x4 } }

    -- `ascon128_masked_aead_encrypt` and `ascon128a_masked_aead_encrypt`, with what `preserve` holds
    -- before it is written, and the generator behind `ascon_trng_init`
    unfoldable pub masked_aead_encrypt : List ℕ → List ℕ → List ℕ → Key128 → Sealed
    unfolding masked_start
    masked_aead_encrypt m ad npub k =
        let e = mode.encrypt_data (masked_start ad npub k) m in
        record { c = e.out ++ mode.finalize e.now k; clen = length m + 16 }

    -- `ascon128_masked_aead_decrypt` and `ascon128a_masked_aead_decrypt`
    unfoldable pub masked_aead_decrypt : List ℕ → List ℕ → List ℕ → Key128 → Opened
    unfolding masked_start
    masked_aead_decrypt c ad npub k =
        let mlen = length c - 16 in
        let d = mode.decrypt_data (masked_start ad npub k) (take mlen c) in
        let checked = check_tag d.out (mode.finalize d.now k) (take 16 (drop mlen c)) in
        if ltb (length c) 16 then too_short else opened checked.result mlen checked.plaintext

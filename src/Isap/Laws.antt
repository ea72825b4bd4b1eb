-- ===== src/Isap/Laws.antt =====
-- The ISAP modes fill the interface of sealing: what was encrypted decrypts, and only that is
-- accepted. No condition on the key is needed, since the tag comes out of the permutation.
use ascon_suite_tcc.Base.{
  ℕ, ◌-◌, ◌<◌, ◌≤◌, ◌≡◌, ◌≢◌, ◌⊎◌, inl, inr, refl, sym, ap, ◌∙◌, arith, false, List, [], ◌++◌, ltb,
  length, length-append, take, replicate, lt→ltb,
}
use ascon_suite_tcc.Base.Slices.{take_prefix, drop_here, take_all}
use ascon_suite_tcc.Base.Bytes.{IsBytes}
use ascon_suite_tcc.Core.Snp.{State, Step, init, overwrite_bytes}
use ascon_suite_tcc.Core.Snp.Bounds.{IsState, permute-IsState}
use ascon_suite_tcc.Core.Snp.Overwrite.{fill_state}
use ascon_suite_tcc.Core.Snp.Extract.{
  length-overwrite, length-extract_bytes, extract_bytes-IsBytes, extract_and_add_inverse,
  length-extract_and_add, extract_and_add-IsBytes,
}
use ascon_suite_tcc.Aead.Tag.{minus_one}
use ascon_suite_tcc.Aead.Oneshot.{too_short, opened}
use ascon_suite_tcc.Aead.Ofb.Laws.{length-ofb, ofb-IsBytes, ofb_inverse, length-ofb_state}
use ascon_suite_tcc.Aead.Sealing.{Sealing, seal, unseal}
use ascon_suite_tcc.Aead.Sealing.Cases.{unseal-seal, unseal_cases}
use ascon_suite_tcc.Isap.{
  IsapVariant, KeyState, isap_iv_bytes, rekey, isap_block, isap_crypt, mac_load, isap_mac,
  isap_encrypt, isap_decrypt,
}

rate_pos : 0 < 8
rate_pos = omega arith

module _ (v : IsapVariant) where
  length-isap_block : (s : State) (m : List ℕ) → length m ≤ 8 → length (isap_block v s m) ≡ length m
  unfolding isap_block
  length-isap_block s m h = length-extract_and_add s m 0 (omega arith)

  isap_block_inverse :
      (s : State) (m : List ℕ) → length m ≤ 8 → isap_block v s (isap_block v s m) ≡ m
  unfolding isap_block
  isap_block_inverse s m h = extract_and_add_inverse s m 0 (omega arith)

  isap_block-IsBytes : (s : State) (m : List ℕ) → IsState s → IsBytes m → IsBytes (isap_block v s m)
  unfolding isap_block
  isap_block-IsBytes s m h k = extract_and_add-IsBytes s m 0 h k

  length-rekey : (pk : State) (input : List ℕ) → length (rekey v pk input) ≡ 40
  unfolding rekey
  length-rekey pk input = (permute-IsState _ _).forty

  load_lem :
      (s : State) (npub : List ℕ)
      → length s ≡ 40
      → length npub ≡ 16
      → mac_load v s npub ≡ npub ++ (isap_iv_bytes v 1 24 ++ [])
  unfolding mac_load overwrite_bytes
  load_lem s npub h hn =
      rw (take_all npub 16 (omega arith))
        (fill_state s npub (isap_iv_bytes v 1 24) [] 16 40 h hn refl refl)

  -- The tag does not depend on what the state of 40 bytes held.
  mac_fresh :
      (s : State) (pk : KeyState) (npub ad c : List ℕ)
      → length s ≡ 40
      → length npub ≡ 16
      → isap_mac v s pk npub ad c ≡ isap_mac v init pk npub ad c
  unfolding isap_mac
  mac_fresh s pk npub ad c h hn = rw (load_lem s npub h hn, load_lem init npub refl hn)

  module _ (pk : KeyState) (ad npub : List ℕ) (hn : length npub ≡ 16) where
    -- the state in which the loop of `*_encrypt` starts
    abbrev keyed : State
    keyed = overwrite_bytes (rekey v pk.ke (take 16 npub)) (take 16 npub) 24

    length-keyed : length keyed ≡ 40
    length-keyed = length-overwrite _ _ 24 ∙ length-rekey pk.ke (take 16 npub)

    crypt_inverse : (m : List ℕ) → (isap_crypt v pk npub (isap_crypt v pk npub m).out).out ≡ m
    unfolding isap_crypt
    crypt_inverse m =
        ap (λ (r : Step). r.out)
          (ofb_inverse 8 _ (isap_block v) length-isap_block isap_block_inverse isap_block-IsBytes
            rate_pos keyed m)

    length-crypt : (m : List ℕ) → length (isap_crypt v pk npub m).out ≡ length m
    unfolding isap_crypt
    length-crypt m =
        length-ofb 8 _ (isap_block v) length-isap_block isap_block_inverse isap_block-IsBytes
          rate_pos keyed m

    crypt-IsBytes : (m : List ℕ) → IsBytes m → IsBytes (isap_crypt v pk npub m).out
    unfolding isap_crypt
    crypt-IsBytes m h =
        ofb-IsBytes 8 _ (isap_block v) length-isap_block isap_block_inverse isap_block-IsBytes
          rate_pos keyed m h

    crypt_state : (m : List ℕ) → length (isap_crypt v pk npub m).state ≡ 40
    unfolding isap_crypt
    crypt_state m = length-ofb_state 8 _ (isap_block v) keyed m length-keyed

    abbrev mac_of : List ℕ → List ℕ
    mac_of m = isap_mac v init pk npub ad (isap_crypt v pk npub m).out

    length-mac_of : (m : List ℕ) → length (mac_of m) ≡ 16
    unfolding isap_mac
    length-mac_of m = length-extract_bytes _ 0 16 (omega arith)

    mac_of-IsBytes : (m : List ℕ) → IsBytes (mac_of m)
    unfolding isap_mac
    mac_of-IsBytes m = extract_bytes-IsBytes _ 0 16 (permute-IsState _ _)

    abbrev sealing : Sealing
    sealing = record {
      tag_of = mac_of;
      body = λ t m. (isap_crypt v pk npub m).out;
      length-tag_of = length-mac_of;
      tag_of-IsBytes = mac_of-IsBytes;
      body_inverse = λ t m. crypt_inverse m;
      length-body = λ t m. length-crypt m;
      body-IsBytes = λ t m. crypt-IsBytes m;
    }

    encrypt_lem : (m : List ℕ) → (isap_encrypt v m ad npub pk).c ≡ seal sealing m
    unfolding isap_encrypt
    encrypt_lem m =
        let e = isap_crypt v pk npub m in
        ap (λ t. e.out ++ t) (mac_fresh e.state pk npub ad e.out (crypt_state m) hn)

    short_lem : (c : List ℕ) → length c < 16 → isap_decrypt v c ad npub pk ≡ too_short
    unfolding isap_decrypt
    short_lem c h = rw (lt→ltb (length c) 16 h)

    long_lem :
        (c tag : List ℕ)
        → length tag ≡ 16
        → isap_decrypt v (c ++ tag) ad npub pk ≡ unseal sealing c tag
    unfolding isap_decrypt
    long_lem c tag h = rw (
      long,
      mlen,
      take_prefix c tag,
      drop_here c tag,
      take_all tag 16 (omega (arith, h)),
      crypt_inverse c,
    )
      where
        long : ltb (length (c ++ tag)) 16 ≡ false
        long = ground (arith, length-append c tag)

        mlen : length (c ++ tag) - 16 ≡ length c
        mlen = omega (arith, length-append c tag)

    -- For every ISAP variant, key state, associated data and nonce of 16 bytes, decrypting what was
    -- encrypted from a plaintext of bytes returns 0, the length and the plaintext.
    pub isap_decrypt-encrypt :
        (m : List ℕ)
        → IsBytes m
        → isap_decrypt v (isap_encrypt v m ad npub pk).c ad npub pk ≡ opened 0 (length m) m
    isap_decrypt-encrypt m h =
        rw (encrypt_lem m)
          (unseal-seal sealing (λ c. isap_decrypt v c ad npub pk) short_lem long_lem m h)

    -- For every ISAP variant, key state, associated data and nonce of 16 bytes, and a ciphertext of
    -- bytes, there are three cases: the ciphertext is shorter than a tag and nothing is written; or
    -- it is the encryption of some plaintext, and the decryption returns 0 with that plaintext and
    -- its length; or it is the encryption of no plaintext, and the decryption returns -1 with a
    -- buffer of zeros.
    pub isap_decrypt_cases :
        (c : List ℕ)
        → IsBytes c
        → (length c < 16) × (isap_decrypt v c ad npub pk ≡ too_short)
          ⊎ (((m : List ℕ) × ((isap_encrypt v m ad npub pk).c ≡ c)
                × (isap_decrypt v c ad npub pk ≡ opened 0 (length m) m))
              ⊎ ((16 ≤ length c)
                  × ((m : List ℕ) → (isap_encrypt v m ad npub pk).c ≢ c)
                  × (isap_decrypt v c ad npub pk
                      ≡ opened minus_one (length c - 16) (replicate (length c - 16) 0))))
    isap_decrypt_cases c h =
        elim (unseal_cases sealing (λ c. isap_decrypt v c ad npub pk) short_lem long_lem c h) [
          | inl few ↦ inl few
          | inr (inl (m, e, d)) ↦ inr (inl (m, encrypt_lem m ∙ e, d))
          | inr (inr (l, f, d)) ↦ inr (inr (l, λ m e. f m (sym (encrypt_lem m) ∙ e), d))
        ]

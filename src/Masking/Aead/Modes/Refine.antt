-- ===== src/Masking/Aead/Modes/Refine.antt =====
-- The masked one-shot functions refine the plain ones of src/aead/ascon-aead-128.c and
-- ascon-aead-128a.c.

use ascon_suite_tcc.Base.{
  ℕ, ◌+◌, ◌-◌, ◌≡◌, sym, ap, ap₂, ◌∙◌, true, Bool-cases, inl, inr, List, ◌++◌, length, take, drop,
  ltb, if◌then◌else◌,
}
use ascon_suite_tcc.Base.Bytes.{IsBytes, take-IsBytes}
use ascon_suite_tcc.Core.Permutation.{store_words}
use ascon_suite_tcc.Core.Snp.{init, encrypt_byte, decrypt_byte, pad, separator}
use ascon_suite_tcc.Aead.Common.{absorb, duplex}
use ascon_suite_tcc.Aead.Tag.{check_tag}
use ascon_suite_tcc.Aead.Variant.{Variant, finish}
use ascon_suite_tcc.Aead.Variant.Ascon.Laws.{ascon128, ascon128a}
use ascon_suite_tcc.Aead.Oneshot.{bind_ad, aead_encrypt, aead_decrypt, too_short, opened}
use ascon_suite_tcc.Masking.Word.{Masked, word_separator}
use ascon_suite_tcc.Masking.Permute.Laws.{words_of}
use ascon_suite_tcc.Masking.Shares.{Preserve, IsPreserve}
use ascon_suite_tcc.Masking.Key.{Key128, key_128_extract}
use ascon_suite_tcc.Masking.Key.Laws.{IsKey128}
use ascon_suite_tcc.Masking.Aead.{Running}
use ascon_suite_tcc.Masking.Aead.Loops.{plain_state, IsRunning}
use ascon_suite_tcc.Masking.Aead.Modes.{
  MaskedBuild, MaskedMode, masked_init, masked_128, masked_128a, masked_start, masked_aead_encrypt,
  masked_aead_decrypt,
}
use ascon_suite_tcc.Masking.Aead.Modes.Blocks.{separator_last}
use ascon_suite_tcc.Masking.Aead.Modes.Laws.{IsMaskedBuild, key_bytes_lem, init_lem}
use ascon_suite_tcc.Masking.Aead.Modes.Variants.{
  bytes, StandsForVariant, masked_128-StandsForVariant, masked_128a-StandsForVariant,
}

module _ {T : Type 0} (build : MaskedBuild T) (key_value data_value : Masked ℕ → ℕ)
    (laws : IsMaskedBuild build key_value data_value) where
  module _ (mode : MaskedMode T) (v : Variant)
      (stands : StandsForVariant build key_value data_value laws mode v) (preserve : Preserve ℕ)
      (trng : T) (ad npub : List ℕ) (k : Key128) (hp : IsPreserve preserve) (ha : IsBytes ad)
      (hn : IsBytes npub) (l : length npub ≡ 16) (hk : IsKey128 k) where
    separated :
        (r : Running T)
        → IsRunning r
        → let r' : Running T = record r {
          state = record r.state { x4 = word_separator r.state.x4 };
        } in
          IsRunning r'
          × (plain_state data_value r'.state ≡ separator (plain_state data_value r.state))
    separated r h =
        let pads = laws.data_pads in
        let words = words_of data_value r.state in
        (
          record {
            shares = record {
              s0 = h.shares.s0;
              s1 = h.shares.s1;
              s2 = h.shares.s2;
              s3 = h.shares.s3;
              s4 = pads.separator-IsMasked r.state.x4 h.shares.s4;
            };
            randomness = h.randomness;
          },
          ap (λ y. store_words (record words { x4 = y }))
                (pads.separator_lem r.state.x4 h.shares.s4)
              ∙ sym (separator_last words),
        )

    start_lem :
        let r = masked_start build mode preserve trng ad npub k in
        IsRunning r
        × (plain_state data_value r.state
            ≡ bind_ad v (v.setup init (bytes build key_value data_value laws k) npub) ad)
    unfolding masked_start bind_ad
    start_lem =
        let r = masked_init build mode.iv preserve trng npub k in
        let first =
          init_lem build key_value data_value laws k hk mode.iv preserve trng npub stands.iv_size
            stands.iv_bytes hp l hn in
        let same = first.1 ∙ sym (stands.setup_lem k npub l) in
        elim (Bool-cases (ltb 0 (length ad))) [
          | inl some_ad ↦
              let bound = stands.absorb_lem r ad first.0 ha in
              let last = separated (mode.absorb r ad) bound.0 in
              rw some_ad (
                last.0,
                last.1
                    ∙ ap separator (bound.1 ∙ ap (λ s. absorb v.rate v.first_round s ad true) same),
              )
          | inr no_ad ↦
              let last = separated r first.0 in rw no_ad (last.0, last.1 ∙ ap separator same)
        ]

    encrypted :
        (m : List ℕ)
        → IsBytes m
        → masked_aead_encrypt build mode preserve trng m ad npub k
          ≡ aead_encrypt v m ad npub (bytes build key_value data_value laws k)
    unfolding masked_aead_encrypt aead_encrypt
    encrypted m hm =
        let r = masked_start build mode preserve trng ad npub k in
        let e = stands.encrypt_lem r m start_lem.0 hm in
        let tag =
          stands.finalize_lem (mode.encrypt_data r m).now k e.running hk
          ∙ ap (λ s. finish v s (bytes build key_value data_value laws k)) e.holds in
        ap₂ (λ c t. record { c = c ++ t; clen = length m + 16 }) e.gives tag
        ∙ ap
            (λ s.
              let d = duplex v.rate v.first_round encrypt_byte s m 0 in
              record {
                c =
                    d.out
                    ++ finish v (pad d.state d.posn) (bytes build key_value data_value laws k);
                clen = length m + 16;
              })
            start_lem.1

    decrypted :
        (c : List ℕ)
        → IsBytes c
        → masked_aead_decrypt build mode preserve trng c ad npub k
          ≡ aead_decrypt v c ad npub (bytes build key_value data_value laws k)
    unfolding masked_aead_decrypt aead_decrypt
    decrypted c hc =
        let mlen = length c - 16 in
        let src = take mlen c in
        let r = masked_start build mode preserve trng ad npub k in
        let e = stands.decrypt_lem r src start_lem.0 (take-IsBytes mlen c hc) in
        let tag =
          stands.finalize_lem (mode.decrypt_data r src).now k e.running hk
          ∙ ap (λ s. finish v s (bytes build key_value data_value laws k)) e.holds in
        let outcome = λ (m t : List ℕ).
          let checked = check_tag m t (take 16 (drop mlen c)) in
          if ltb (length c) 16 then too_short else opened checked.result mlen checked.plaintext in
        ap₂ outcome e.gives tag
        ∙ ap
            (λ s.
              let d = duplex v.rate v.first_round decrypt_byte s src 0 in
              outcome d.out
                (finish v (pad d.state d.posn) (bytes build key_value data_value laws k)))
            start_lem.1

  module _ (preserve : Preserve ℕ) (trng : T) (ad npub : List ℕ) (k : Key128) where
    -- For a masked key and randomness of 64-bit words, bytes as input and a nonce of 16: under a build
    -- that keeps the laws of masking, the masked encryptions ASCON-128 and ASCON-128a give the
    -- ciphertext and the tag that the plain ones give under the key that the shares stand for,
    -- whatever words are drawn for the masks.
    pub masked_aead_encrypt-eq-aead_encrypt :
        (m : List ℕ)
        → IsPreserve preserve
        → IsBytes ad
        → IsBytes npub
        → length npub ≡ 16
        → IsKey128 k
        → IsBytes m
        → (masked_aead_encrypt build (masked_128 build) preserve trng m ad npub k
            ≡ aead_encrypt ascon128 m ad npub (key_128_extract build.key k))
          × (masked_aead_encrypt build (masked_128a build) preserve trng m ad npub k
              ≡ aead_encrypt ascon128a m ad npub (key_128_extract build.key k))
    masked_aead_encrypt-eq-aead_encrypt m hp ha hn l hk hm =
        let key = sym (key_bytes_lem build key_value data_value laws k) in
        (
          encrypted (masked_128 build) ascon128
                (masked_128-StandsForVariant build key_value data_value laws) preserve trng ad npub
                k hp ha hn l hk m hm
              ∙ ap (aead_encrypt ascon128 m ad npub) key,
          encrypted (masked_128a build) ascon128a
                (masked_128a-StandsForVariant build key_value data_value laws) preserve trng ad npub
                k hp ha hn l hk m hm
              ∙ ap (aead_encrypt ascon128a m ad npub) key,
        )

    -- For a masked key and randomness of 64-bit words, bytes as input and a nonce of 16: under a build
    -- that keeps the laws of masking, the masked decryptions ASCON-128 and ASCON-128a return what the
    -- plain ones return under the key that the shares stand for, with the same plaintext buffer, for
    -- each ciphertext: one that is too short, one that is refused and one that is accepted.
    pub masked_aead_decrypt-eq-aead_decrypt :
        (c : List ℕ)
        → IsPreserve preserve
        → IsBytes ad
        → IsBytes npub
        → length npub ≡ 16
        → IsKey128 k
        → IsBytes c
        → (masked_aead_decrypt build (masked_128 build) preserve trng c ad npub k
            ≡ aead_decrypt ascon128 c ad npub (key_128_extract build.key k))
          × (masked_aead_decrypt build (masked_128a build) preserve trng c ad npub k
              ≡ aead_decrypt ascon128a c ad npub (key_128_extract build.key k))
    masked_aead_decrypt-eq-aead_decrypt c hp ha hn l hk hc =
        let key = sym (key_bytes_lem build key_value data_value laws k) in
        (
          decrypted (masked_128 build) ascon128
                (masked_128-StandsForVariant build key_value data_value laws) preserve trng ad npub
                k hp ha hn l hk c hc
              ∙ ap (aead_decrypt ascon128 c ad npub) key,
          decrypted (masked_128a build) ascon128a
                (masked_128a-StandsForVariant build key_value data_value laws) preserve trng ad npub
                k hp ha hn l hk c hc
              ∙ ap (aead_decrypt ascon128a c ad npub) key,
        )

-- ===== src/Masking/Aead/Modes/Variants.antt =====
-- The masked modes stand for the plain variants ASCON-128 and ASCON-128a.
use ascon_suite_tcc.Core.Snp.{squeeze}
use ascon_suite_tcc.Base.{
  ℕ, ◌<◌, ◌≡◌, refl, sym, ap, ap₂, ◌∙◌, arith, Bool, true, false, List, ◌++◌, length,
}
use ascon_suite_tcc.Base.Bytes.{IsBytes}
use ascon_suite_tcc.Core.Word.{be_store_word64}
use ascon_suite_tcc.Core.Permutation.{store_words, permute}
use ascon_suite_tcc.Core.Snp.{State, init, xor_block, encrypt_byte, decrypt_byte, pad}
use ascon_suite_tcc.Aead.Common.{absorb, duplex}
use ascon_suite_tcc.Aead.Variant.{Variant, finish}
use ascon_suite_tcc.Aead.Variant.Ascon.{setup_128, setup_128a, close_128, close_128a}
use ascon_suite_tcc.Aead.Variant.Ascon.Laws.{ascon128, ascon128a, load_128-eq, load_128a-eq}
use ascon_suite_tcc.Aead.Stream.Absorb.{absorb-eq-whole}
use ascon_suite_tcc.Masking.Word.{Masked, IsMasked}
use ascon_suite_tcc.Masking.Permute.Laws.{words_of, AllShares}
use ascon_suite_tcc.Masking.Shares.{MaskedState}
use ascon_suite_tcc.Masking.Key.{Key128}
use ascon_suite_tcc.Masking.Key.Laws.{IsKey128}
use ascon_suite_tcc.Masking.Aead.{Running, StateStep, permuted, masked_encrypt_8, masked_encrypt_16}
use ascon_suite_tcc.Masking.Aead.Loops.{plain_state, IsRunning, Simulates, permuted_lem}
use ascon_suite_tcc.Masking.Aead.Rates.{masked_8_lem, masked_16_lem}
use ascon_suite_tcc.Masking.Aead.Modes.{
  MaskedBuild, MaskedMode, masked_finalize_128, masked_finalize_128a, masked_128, masked_128a,
}
use ascon_suite_tcc.Masking.Aead.Modes.Blocks.{xor_block_8, xor_block_16}
use ascon_suite_tcc.Masking.Aead.Modes.Laws.{IsMaskedBuild, key_bytes, tag_lem}

module _ {T : Type 0} (build : MaskedBuild T) (key_value data_value : Masked ℕ → ℕ)
    (laws : IsMaskedBuild build key_value data_value) where
  abbrev pub bytes : Key128 → List ℕ
  bytes = key_bytes build key_value data_value laws

  -- what a masked mode has to do to stand for a plain variant
  pub record StandsForVariant (mode : MaskedMode T) (v : Variant) : Type 0 where
    pub iv_size : length mode.iv ≡ 8
    pub iv_bytes : IsBytes mode.iv
    pub setup_lem :
        (k : Key128) (npub : List ℕ)
        → length npub ≡ 16
        → v.setup init (bytes k) npub
          ≡ xor_block (permute (mode.iv ++ (bytes k ++ npub)) 0) (bytes k) 24
    pub absorb_lem :
        (r : Running T) (ad : List ℕ)
        → IsRunning r
        → IsBytes ad
        → IsRunning (mode.absorb r ad)
          × (plain_state data_value (mode.absorb r ad).state
              ≡ absorb v.rate v.first_round (plain_state data_value r.state) ad true)
    pub encrypt_lem :
        (r : Running T) (m : List ℕ)
        → IsRunning r
        → IsBytes m
        → let p = duplex v.rate v.first_round encrypt_byte (plain_state data_value r.state) m 0 in
          Simulates data_value
            (mode.encrypt_data r m)
            (record { state = pad p.state p.posn; out = p.out })
    pub decrypt_lem :
        (r : Running T) (c : List ℕ)
        → IsRunning r
        → IsBytes c
        → let p = duplex v.rate v.first_round decrypt_byte (plain_state data_value r.state) c 0 in
          Simulates data_value
            (mode.decrypt_data r c)
            (record { state = pad p.state p.posn; out = p.out })
    pub finalize_lem :
        (r : Running T) (k : Key128)
        → IsRunning r
        → IsKey128 k
        → mode.finalize r k ≡ finish v (plain_state data_value r.state) (bytes k)

  finalize_128_lem :
      (r : Running T) (k : Key128)
      → IsRunning r
      → IsKey128 k
      → masked_finalize_128 build r k ≡ finish ascon128 (plain_state data_value r.state) (bytes k)
  unfolding masked_finalize_128 close_128 be_store_word64
  finalize_128_lem r k h hk =
      let key = build.key in
      let fresh = build.refresh r.preserve r.trng in
      let from = laws.from_data r.state fresh.1 h.shares in
      let w = (build.key_from_data r.state fresh.1).0 in
      let words = words_of key_value w in
      let w' : MaskedState = record w { x1 = key.xor w.x1 k.k0; x2 = key.xor w.x2 k.k1 } in
      let masked : AllShares IsMasked w' = record {
        s0 = from.0.s0;
        s1 = laws.key_laws.xor-IsMasked w.x1 k.k0 from.0.s1 hk.m0;
        s2 = laws.key_laws.xor-IsMasked w.x2 k.k1 from.0.s2 hk.m1;
        s3 = from.0.s3;
        s4 = from.0.s4;
      } in
      let added =
        ap₂ (λ a b. store_words (record words { x1 = a; x2 = b }))
          (laws.key_laws.xor_lem w.x1 k.k0 from.0.s1 hk.m0)
          (laws.key_laws.xor_lem w.x2 k.k1 from.0.s2 hk.m1)
        ∙ (sym (xor_block_8 words (key_value k.k0) (key_value k.k1))
            ∙ ap (λ v. xor_block (store_words v) (bytes k) 8) from.1) in
      tag_lem build key_value data_value laws k hk w' fresh.0 masked
        (laws.refresh_lem r.preserve r.trng h.randomness)
      ∙ ap (λ s. squeeze (xor_block (permute s 0) (bytes k) 24) 24 16) added

  finalize_128a_lem :
      (r : Running T) (k : Key128)
      → IsRunning r
      → IsKey128 k
      → masked_finalize_128a build r k ≡ finish ascon128a (plain_state data_value r.state) (bytes k)
  unfolding masked_finalize_128a close_128a be_store_word64
  finalize_128a_lem r k h hk =
      let key = build.key in
      let fresh = build.refresh r.preserve r.trng in
      let from = laws.from_data r.state fresh.1 h.shares in
      let w = (build.key_from_data r.state fresh.1).0 in
      let words = words_of key_value w in
      let w' : MaskedState = record w { x2 = key.xor w.x2 k.k0; x3 = key.xor w.x3 k.k1 } in
      let masked : AllShares IsMasked w' = record {
        s0 = from.0.s0;
        s1 = from.0.s1;
        s2 = laws.key_laws.xor-IsMasked w.x2 k.k0 from.0.s2 hk.m0;
        s3 = laws.key_laws.xor-IsMasked w.x3 k.k1 from.0.s3 hk.m1;
        s4 = from.0.s4;
      } in
      let added =
        ap₂ (λ a b. store_words (record words { x2 = a; x3 = b }))
          (laws.key_laws.xor_lem w.x2 k.k0 from.0.s2 hk.m0)
          (laws.key_laws.xor_lem w.x3 k.k1 from.0.s3 hk.m1)
        ∙ (sym (xor_block_16 words (key_value k.k0) (key_value k.k1))
            ∙ ap (λ v. xor_block (store_words v) (bytes k) 16) from.1) in
      tag_lem build key_value data_value laws k hk w' fresh.0 masked
        (laws.refresh_lem r.preserve r.trng h.randomness)
      ∙ ap (λ s. squeeze (xor_block (permute s 0) (bytes k) 24) 24 16) added

  -- The absorption, from the encryption at the same rate.
  absorbed :
      (rate first_round : ℕ) (e : StateStep T) (s : State) (ad : List ℕ)
      → 0 < rate
      → rate < 256
      → (let p = duplex rate first_round encrypt_byte s ad 0 in
          Simulates data_value e (record { state = pad p.state p.posn; out = p.out }))
      → IsRunning (permuted build.data_ops e.now first_round)
        × (plain_state data_value (permuted build.data_ops e.now first_round).state
            ≡ absorb rate first_round s ad true)
  unfolding duplex
  absorbed rate first_round e s ad pos small h =
      let next =
        permuted_lem build.data_ops data_value laws.data_laws e.now first_round h.running in
      (
        next.0,
        next.1
            ∙ (ap (λ b. permute b first_round) h.holds
                ∙ sym (absorb-eq-whole rate first_round s ad pos small)),
      )

  pub masked_128-StandsForVariant : StandsForVariant (masked_128 build) ascon128
  unfolding setup_128 duplex be_store_word64
  masked_128-StandsForVariant =
      let step = λ (decrypting : Bool) (r : Running T).
        masked_8_lem build.data_ops data_value laws.data_laws laws.data_pads decrypting r 6 in
      record {
        iv_size = refl;
        iv_bytes = (
          omega arith,
          (
            omega arith,
            (
              omega arith,
              (omega arith, (omega arith, (omega arith, (omega arith, (omega arith, tt))))),
            ),
          ),
        );
        setup_lem = λ k npub l.
            ap (λ s. xor_block (permute s 0) (bytes k) 24)
              (load_128-eq init (bytes k) npub refl refl l);
        absorb_lem = λ r ad h k.
            absorbed 8 6 (masked_encrypt_8 build.data_ops 6 r ad) (plain_state data_value r.state)
              ad (omega arith) (omega arith) (step false r ad h k);
        encrypt_lem = step false;
        decrypt_lem = step true;
        finalize_lem = finalize_128_lem;
      }

  pub masked_128a-StandsForVariant : StandsForVariant (masked_128a build) ascon128a
  unfolding setup_128a duplex be_store_word64
  masked_128a-StandsForVariant =
      let step = λ (decrypting : Bool) (r : Running T).
        masked_16_lem build.data_ops data_value laws.data_laws laws.data_pads decrypting r 4 in
      record {
        iv_size = refl;
        iv_bytes = (
          omega arith,
          (
            omega arith,
            (
              omega arith,
              (omega arith, (omega arith, (omega arith, (omega arith, (omega arith, tt))))),
            ),
          ),
        );
        setup_lem = λ k npub l.
            ap (λ s. xor_block (permute s 0) (bytes k) 24)
              (load_128a-eq init (bytes k) npub refl refl l);
        absorb_lem = λ r ad h k.
            absorbed 16 4 (masked_encrypt_16 build.data_ops 4 r ad) (plain_state data_value r.state)
              ad (omega arith) (omega arith) (step false r ad h k);
        encrypt_lem = step false;
        decrypt_lem = step true;
        finalize_lem = finalize_128a_lem;
      }

-- ===== src/Siv/Laws.antt =====
-- The SIV modes fill the interface of sealing: what was encrypted decrypts, and only that is accepted.
use ascon_suite_tcc.Base.{
  ℕ, bit_xor, suc, ◌-◌, ◌<◌, ◌≤◌, ◌≡◌, ◌≢◌, ◌⊎◌, refl, ap, arith, false, List, [], ◌∷◌, ◌++◌, ltb,
  length, length-append, replicate, lt→ltb,
}
use ascon_suite_tcc.Base.Slices.{take_prefix, drop_here, take_all}
use ascon_suite_tcc.Base.Bytes.{IsBytes, xor-byte}
use ascon_suite_tcc.Base.Bits.Laws.{xor_cancel, xor_comm}
use ascon_suite_tcc.Core.Snp.{State, Step, init, squeeze}
use ascon_suite_tcc.Core.Snp.Bounds.{IsState, length-squeeze, squeeze-IsBytes}
use ascon_suite_tcc.Aead.Tag.{minus_one}
use ascon_suite_tcc.Aead.Variant.{length-finish, finish-IsBytes}
use ascon_suite_tcc.Aead.Oneshot.{too_short, opened}
use ascon_suite_tcc.Aead.Ofb.Laws.{length-ofb, ofb-IsBytes, ofb_inverse}
use ascon_suite_tcc.Aead.Sealing.{Sealing, seal, unseal}
use ascon_suite_tcc.Aead.Sealing.Cases.{unseal-seal, unseal_cases}
use ascon_suite_tcc.Siv.{
  SivVariant, xor_block_2_src, siv_block, siv_crypt, siv_tag, siv_encrypt, siv_decrypt,
}

length-xor_block :
    (src1 src2 : List ℕ)
    → length src2 ≤ length src1
    → length (xor_block_2_src src1 src2) ≡ length src2
unfolding xor_block_2_src
length-xor_block src1 [] h = refl
length-xor_block [] (y ∷ src2) h = absurd (omega arith)
length-xor_block (x ∷ src1) (y ∷ src2) h = ap suc (length-xor_block src1 src2 (omega arith))

xor_block_inverse :
    (src1 src2 : List ℕ)
    → length src2 ≤ length src1
    → xor_block_2_src src1 (xor_block_2_src src1 src2) ≡ src2
unfolding xor_block_2_src
xor_block_inverse src1 [] h = refl
xor_block_inverse [] (y ∷ src2) h = absurd (omega arith)
xor_block_inverse (x ∷ src1) (y ∷ src2) h = rw (
  xor_block_inverse src1 src2 (omega arith),
  xor_comm x y,
  xor_comm x (bit_xor y x),
  xor_cancel y x,
)

xor_block-IsBytes :
    (src1 src2 : List ℕ) → IsBytes src1 → IsBytes src2 → IsBytes (xor_block_2_src src1 src2)
unfolding xor_block_2_src
xor_block-IsBytes src1 [] h k = tt
xor_block-IsBytes [] (y ∷ src2) h k = tt
xor_block-IsBytes (x ∷ src1) (y ∷ src2) h k =
    (xor-byte x y h.0 k.0, xor_block-IsBytes src1 src2 h.1 k.1)

module _ (rate : ℕ) where
  length-siv_block :
      (s : State) (m : List ℕ) → length m ≤ rate → length (siv_block rate s m) ≡ length m
  unfolding siv_block
  length-siv_block s m h =
      length-xor_block (squeeze s 0 rate) m (omega (arith, length-squeeze s 0 rate))

  siv_block_inverse :
      (s : State) (m : List ℕ) → length m ≤ rate → siv_block rate s (siv_block rate s m) ≡ m
  unfolding siv_block
  siv_block_inverse s m h =
      xor_block_inverse (squeeze s 0 rate) m (omega (arith, length-squeeze s 0 rate))

  siv_block-IsBytes :
      (s : State) (m : List ℕ) → IsState s → IsBytes m → IsBytes (siv_block rate s m)
  unfolding siv_block
  siv_block-IsBytes s m h k = xor_block-IsBytes (squeeze s 0 rate) m (squeeze-IsBytes s 0 rate h) k

module _ (v : SivVariant) where
  siv_crypt_inverse : (s : State) (m : List ℕ) → siv_crypt v s (siv_crypt v s m) ≡ m
  unfolding siv_crypt
  siv_crypt_inverse s m =
      ap (λ (r : Step). r.out)
        (ofb_inverse v.auth.rate v.auth.first_round (siv_block v.auth.rate)
          (length-siv_block v.auth.rate) (siv_block_inverse v.auth.rate)
          (siv_block-IsBytes v.auth.rate) v.auth.rate_pos s m)

  length-siv_crypt : (s : State) (m : List ℕ) → length (siv_crypt v s m) ≡ length m
  unfolding siv_crypt
  length-siv_crypt s m =
      length-ofb v.auth.rate v.auth.first_round (siv_block v.auth.rate)
        (length-siv_block v.auth.rate) (siv_block_inverse v.auth.rate)
        (siv_block-IsBytes v.auth.rate) v.auth.rate_pos s m

  siv_crypt-IsBytes : (s : State) (m : List ℕ) → IsBytes m → IsBytes (siv_crypt v s m)
  unfolding siv_crypt
  siv_crypt-IsBytes s m h =
      ofb-IsBytes v.auth.rate v.auth.first_round (siv_block v.auth.rate)
        (length-siv_block v.auth.rate) (siv_block_inverse v.auth.rate)
        (siv_block-IsBytes v.auth.rate) v.auth.rate_pos s m h

  module _ (ad npub k : List ℕ) (hk : IsBytes k) where
    siv_tag-IsBytes : (m : List ℕ) → IsBytes (siv_tag v m ad npub k)
    unfolding siv_tag
    siv_tag-IsBytes m = finish-IsBytes v.auth _ k hk

    length-siv_tag : (m : List ℕ) → length (siv_tag v m ad npub k) ≡ 16
    unfolding siv_tag
    length-siv_tag m = length-finish v.auth _ k

    abbrev sealing : Sealing
    sealing = record {
      tag_of = λ m. siv_tag v m ad npub k;
      body = λ t m. siv_crypt v (v.setup2 init k t) m;
      length-tag_of = length-siv_tag;
      tag_of-IsBytes = siv_tag-IsBytes;
      body_inverse = λ t m. siv_crypt_inverse (v.setup2 init k t) m;
      length-body = λ t m. length-siv_crypt (v.setup2 init k t) m;
      body-IsBytes = λ t m. siv_crypt-IsBytes (v.setup2 init k t) m;
    }

    encrypt_lem : (m : List ℕ) → (siv_encrypt v m ad npub k).c ≡ seal sealing m
    unfolding siv_encrypt
    encrypt_lem m = refl

    short_lem : (c : List ℕ) → length c < 16 → siv_decrypt v c ad npub k ≡ too_short
    unfolding siv_decrypt
    short_lem c h = rw (lt→ltb (length c) 16 h)

    long_lem :
        (c tag : List ℕ)
        → length tag ≡ 16
        → siv_decrypt v (c ++ tag) ad npub k ≡ unseal sealing c tag
    unfolding siv_decrypt
    long_lem c tag h =
        rw (long, mlen, take_prefix c tag, drop_here c tag, take_all tag 16 (omega (arith, h)))
      where
        long : ltb (length (c ++ tag)) 16 ≡ false
        long = ground (arith, length-append c tag)

        mlen : length (c ++ tag) - 16 ≡ length c
        mlen = omega (arith, length-append c tag)

    -- For every SIV variant, a key of bytes and a plaintext of bytes, decrypting what was encrypted
    -- with the same key, nonce and associated data returns 0, the length and the plaintext.
    pub siv_decrypt-encrypt :
        (m : List ℕ)
        → IsBytes m
        → siv_decrypt v (siv_encrypt v m ad npub k).c ad npub k ≡ opened 0 (length m) m
    siv_decrypt-encrypt m h =
        rw (encrypt_lem m)
          (unseal-seal sealing (λ c. siv_decrypt v c ad npub k) short_lem long_lem m h)

    -- For every SIV variant, a key of bytes and a ciphertext of bytes there are three cases: the
    -- ciphertext is shorter than a tag and nothing is written; or it is the encryption of some
    -- plaintext, and the decryption returns 0 with that plaintext and its length; or it is the
    -- encryption of no plaintext, and the decryption returns -1 with a buffer of zeros.
    pub siv_decrypt_cases :
        (c : List ℕ)
        → IsBytes c
        → (length c < 16) × (siv_decrypt v c ad npub k ≡ too_short)
          ⊎ (((m : List ℕ) × ((siv_encrypt v m ad npub k).c ≡ c)
                × (siv_decrypt v c ad npub k ≡ opened 0 (length m) m))
              ⊎ ((16 ≤ length c)
                  × ((m : List ℕ) → (siv_encrypt v m ad npub k).c ≢ c)
                  × (siv_decrypt v c ad npub k
                      ≡ opened minus_one (length c - 16) (replicate (length c - 16) 0))))
    unfolding siv_encrypt
    siv_decrypt_cases c h =
        unseal_cases sealing (λ c. siv_decrypt v c ad npub k) short_lem long_lem c h

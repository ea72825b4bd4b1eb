-- ===== src/Aead/Oneshot/Laws.antt =====
-- Encryption and decryption are inverse, for every variant.
use ascon_suite_tcc.Base.{
  ℕ, ◌-◌, ◌≡◌, sym, ap, ◌∙◌, arith, List, ◌++◌, ltb, length, take, drop, length-append, false,
}
use native.Mathlib.Nat.{add-zero}
use ascon_suite_tcc.Base.Slices.{take_prefix, drop_prefix, take_all}
use ascon_suite_tcc.Base.Bytes.{IsBytes}
use ascon_suite_tcc.Core.Snp.{State, init, encrypt_byte, decrypt_byte, pad}
use ascon_suite_tcc.Aead.Common.{duplex}
use ascon_suite_tcc.Aead.Tag.{check_tag}
use ascon_suite_tcc.Aead.Tag.Laws.{check_tag_self}
use ascon_suite_tcc.Aead.Variant.{Variant, finish, length-finish}
use ascon_suite_tcc.Aead.Stream.{stream}
use ascon_suite_tcc.Aead.Stream.Refine.{duplex-eq-stream}
use ascon_suite_tcc.Aead.Stream.Inverse.{
  stream_decrypt-encrypt, stream_encrypt-decrypt, length-stream,
}
use ascon_suite_tcc.Aead.Oneshot.{opened, bind_ad, aead_encrypt, aead_decrypt}

module _ (v : Variant) where
  -- At the start of a block the functions of the variant are inverse, and keep the length.
  pub duplex_decrypt-encrypt :
      (s : State) (m : List ℕ)
      → let e = duplex v.rate v.first_round encrypt_byte s m 0 in
        duplex v.rate v.first_round decrypt_byte s e.out 0
        ≡ record { state = e.state; out = m; posn = e.posn }
  duplex_decrypt-encrypt s m =
      rw
        (
          duplex-eq-stream v.rate v.first_round encrypt_byte s m 0 v.rate_small v.rate_pos,
          duplex-eq-stream v.rate v.first_round decrypt_byte s
              (stream v.rate v.first_round encrypt_byte s m 0).out 0 v.rate_small v.rate_pos,
        )
        (stream_decrypt-encrypt v.rate v.first_round s m 0)

  pub duplex_encrypt-decrypt :
      (s : State) (c : List ℕ)
      → let d = duplex v.rate v.first_round decrypt_byte s c 0 in
        duplex v.rate v.first_round encrypt_byte s d.out 0
        ≡ record { state = d.state; out = c; posn = d.posn }
  duplex_encrypt-decrypt s c =
      rw
        (
          duplex-eq-stream v.rate v.first_round decrypt_byte s c 0 v.rate_small v.rate_pos,
          duplex-eq-stream v.rate v.first_round encrypt_byte s
              (stream v.rate v.first_round decrypt_byte s c 0).out 0 v.rate_small v.rate_pos,
        )
        (stream_encrypt-decrypt v.rate v.first_round s c 0)

  pub length-duplex :
      (byte : State → ℕ → ℕ → State × ℕ) (s : State) (src : List ℕ)
      → length (duplex v.rate v.first_round byte s src 0).out ≡ length src
  length-duplex byte s src =
      rw (duplex-eq-stream v.rate v.first_round byte s src 0 v.rate_small v.rate_pos)
        (length-stream v.rate v.first_round byte s src 0)

  -- The ciphertext is as long as `*clen` says: 16 bytes longer than the plaintext.
  length-aead_encrypt :
      (m ad npub k : List ℕ)
      → length (aead_encrypt v m ad npub k).c ≡ (aead_encrypt v m ad npub k).clen
  unfolding aead_encrypt
  length-aead_encrypt m ad npub k =
      let e = duplex v.rate v.first_round encrypt_byte (bind_ad v (v.setup init k npub) ad) m 0 in
      length-append e.out (finish v (pad e.state e.posn) k)
      ∙ omega (
        arith,
        length-duplex encrypt_byte (bind_ad v (v.setup init k npub) ad) m,
        length-finish v (pad e.state e.posn) k,
      )

  -- A decryption of a ciphertext and a tag of 16 bytes behind it.
  pub decrypt_split :
      (c tag ad npub k : List ℕ)
      → length tag ≡ 16
      → aead_decrypt v (c ++ tag) ad npub k ≡ (
          let d =
            duplex v.rate v.first_round decrypt_byte (bind_ad v (v.setup init k npub) ad) c 0 in
          let checked = check_tag d.out (finish v (pad d.state d.posn) k) tag in
          opened checked.result (length c) checked.plaintext)
  unfolding aead_decrypt
  decrypt_split c tag ad npub k h = rw (long, mlen, take_prefix c tag, tag_at)
    where
      long : ltb (length (c ++ tag)) 16 ≡ false
      long = ground (arith, length-append c tag)

      mlen : length (c ++ tag) - 16 ≡ length c
      mlen = omega (arith, length-append c tag)

      tag_at : take 16 (drop (length c) (c ++ tag)) ≡ tag
      tag_at =
          ap (λ n. take 16 (drop n (c ++ tag))) (sym (add-zero (length c)))
          ∙ (ap (take 16) (drop_prefix c tag 0) ∙ take_all tag 16 (omega arith))

  -- Decrypting what was encrypted under the same key, nonce and associated data returns 0 and
  -- the plaintext.
  pub decrypt-encrypt :
      (m ad npub k : List ℕ)
      → IsBytes m
      → aead_decrypt v (aead_encrypt v m ad npub k).c ad npub k ≡ opened 0 (length m) m
  unfolding aead_encrypt
  decrypt-encrypt m ad npub k hm =
      let s = bind_ad v (v.setup init k npub) ad in
      let e = duplex v.rate v.first_round encrypt_byte s m 0 in
      let tag = finish v (pad e.state e.posn) k in
      rw (
        decrypt_split e.out tag ad npub k (length-finish v (pad e.state e.posn) k),
        duplex_decrypt-encrypt s m,
        check_tag_self m tag hm,
        length-duplex encrypt_byte s m,
      )

-- ===== src/Aead/Incremental/Packet.antt =====
-- A packet that is processed in pieces gives what the one-shot functions give.
use ascon_suite_tcc.Base.{ℕ, ◌<◌, ◌≡◌, refl, sym, ap, ◌∙◌, arith, List, [], ◌∷◌, ◌++◌, length}
use ascon_suite_tcc.Core.Snp.{State, init, encrypt_byte, decrypt_byte, pad}
use ascon_suite_tcc.Aead.Common.{Duplexed, duplex}
use ascon_suite_tcc.Aead.Nonce.{increment_nonce}
use ascon_suite_tcc.Aead.Stream.{stream, stream-append}
use ascon_suite_tcc.Aead.Stream.Refine.{duplex-eq-stream}
use ascon_suite_tcc.Aead.Stream.Bounds.{stream_posn}
use ascon_suite_tcc.Aead.Tag.{Checked, check_tag}
use ascon_suite_tcc.Aead.Variant.{Variant, finish, length-finish}
use ascon_suite_tcc.Aead.Oneshot.{result_of, bind_ad, aead_encrypt, aead_decrypt}
use ascon_suite_tcc.Aead.Oneshot.Laws.{decrypt_split, duplex_decrypt-encrypt}
use ascon_suite_tcc.Aead.Oneshot.Cases.{append_parts}
use ascon_suite_tcc.Aead.Tag.Laws.{check_tag_result, check_tag_self}
use ascon_suite_tcc.Base.Slices.{take_all}
use ascon_suite_tcc.Aead.Incremental.{
  Session, start, encrypt_block, decrypt_block, encrypt_finalize, decrypt_finalize,
}

unfoldable pub flatten : List (List ℕ) → List ℕ
flatten [] = []
flatten (x ∷ xs) = x ++ flatten xs

-- The pieces of an input, one call for each, with the outputs one behind the other.
pub run_pieces : (Session → List ℕ → Session × List ℕ) → Session → List (List ℕ) → Session × List ℕ
run_pieces call st [] = (st, [])
run_pieces call st (x ∷ xs) =
    let now = call st x in let rest = run_pieces call now.0 xs in (rest.0, now.1 ++ rest.1)

module _ (v : Variant) where
  -- A whole packet: `start`, the blocks, `finalize`.
  pub encrypt_packet : Session → List ℕ → List (List ℕ) → Session × List ℕ × List ℕ
  encrypt_packet st ad xs =
      let body = run_pieces (encrypt_block v) (start v st ad) xs in
      let end' = encrypt_finalize v body.0 in (end'.0, body.1, end'.1)

  pub decrypt_packet : Session → List ℕ → List (List ℕ) → List ℕ → Session × List ℕ × ℕ
  decrypt_packet st ad xs tag =
      let body = run_pieces (decrypt_block v) (start v st ad) xs in
      let end' = decrypt_finalize v body.0 tag in (end'.0, body.1, end'.1)

  module _ (byte : State → ℕ → ℕ → State × ℕ) where
    -- What either kind of block does to a session.
    process : Session → List ℕ → Session × List ℕ
    process st src =
        let r = duplex v.rate v.first_round byte st.state src st.posn in
        (record st { state = r.state; posn = r.posn }, r.out)

    -- The pieces are processed as their concatenation would be.
    run_process :
        (st : Session) (xs : List (List ℕ))
        → st.posn < v.rate
        → let r = stream v.rate v.first_round byte st.state (flatten xs) st.posn in
          run_pieces process st xs ≡ (record st { state = r.state; posn = r.posn }, r.out)
    unfolding run_pieces flatten process stream
    run_process st [] h = refl
    run_process st (x ∷ xs) h =
        let r = stream v.rate v.first_round byte st.state x st.posn in
        rw (
          duplex-eq-stream v.rate v.first_round byte st.state x st.posn v.rate_small h,
          run_process (record st { state = r.state; posn = r.posn }) xs
              (stream_posn v.rate v.first_round byte st.state x st.posn h),
          stream-append v.rate v.first_round byte st.state x (flatten xs) st.posn,
        )

  -- The state behind the associated data, whatever was in the session's state before.
  fresh_start :
      (st : Session) (ad : List ℕ)
      → length st.state ≡ 40
      → length st.key ≡ v.key_size
      → length st.nonce ≡ 16
      → start v st ad ≡ record st {
        state = bind_ad v (v.setup init st.key st.nonce) ad;
        posn = 0;
        nonce = increment_nonce st.nonce;
      }
  unfolding start
  fresh_start st ad hs hk hn = rw (v.setup_fresh st.state st.key st.nonce hs hk hn)

  encrypt_run :
      (st : Session) (xs : List (List ℕ))
      → st.posn < v.rate
      → let r = stream v.rate v.first_round encrypt_byte st.state (flatten xs) st.posn in
        run_pieces (encrypt_block v) st xs ≡ (record st { state = r.state; posn = r.posn }, r.out)
  unfolding process encrypt_block
  encrypt_run = run_process encrypt_byte

  decrypt_run :
      (st : Session) (xs : List (List ℕ))
      → st.posn < v.rate
      → let r = stream v.rate v.first_round decrypt_byte st.state (flatten xs) st.posn in
        run_pieces (decrypt_block v) st xs ≡ (record st { state = r.state; posn = r.posn }, r.out)
  unfolding process decrypt_block
  decrypt_run = run_process decrypt_byte

  encrypt-eq-stream :
      (m ad npub k : List ℕ)
      → let r = stream v.rate v.first_round encrypt_byte (bind_ad v (v.setup init k npub) ad) m 0 in
        (aead_encrypt v m ad npub k).c ≡ r.out ++ finish v (pad r.state r.posn) k
  unfolding aead_encrypt
  encrypt-eq-stream m ad npub k = rw (
      duplex-eq-stream v.rate v.first_round encrypt_byte (bind_ad v (v.setup init k npub) ad) m 0
        v.rate_small v.rate_pos)

  -- For a session whose state, key and nonce have their sizes, the output of the pieces with the
  -- tag behind it is the one-shot ciphertext of the pieces together; the key stays, and the nonce
  -- is incremented once.
  pub encrypt_packet_lem :
      (st : Session) (ad : List ℕ) (xs : List (List ℕ))
      → length st.state ≡ 40
      → length st.key ≡ v.key_size
      → length st.nonce ≡ 16
      → let r = encrypt_packet st ad xs in
        (r.1 ++ r.2 ≡ (aead_encrypt v (flatten xs) ad st.nonce st.key).c)
        × (r.0.key ≡ st.key)
        × (r.0.nonce ≡ increment_nonce st.nonce)
  unfolding encrypt_packet encrypt_finalize
  encrypt_packet_lem st ad xs hs hk hn =
      let s = bind_ad v (v.setup init st.key st.nonce) ad in
      let st' : Session = record st { state = s; posn = 0; nonce = increment_nonce st.nonce } in
      rw (fresh_start st ad hs hk hn, encrypt_run st' xs v.rate_pos)
        (sym (encrypt-eq-stream (flatten xs) ad st.nonce st.key), refl, refl)

  -- What decrypting a packet in pieces gives: the decryption of all the pieces, unmasked.
  decrypt_packet-eq :
      (st : Session) (ad : List ℕ) (xs : List (List ℕ)) (tag : List ℕ)
      → length st.state ≡ 40
      → length st.key ≡ v.key_size
      → length st.nonce ≡ 16
      → length tag ≡ 16
      → let d =
          duplex v.rate v.first_round decrypt_byte
            (bind_ad v (v.setup init st.key st.nonce) ad)
            (flatten xs)
            0 in
        let r = decrypt_packet st ad xs tag in
        (r.0.nonce ≡ increment_nonce st.nonce)
        × (r.1 ≡ d.out)
        × (r.2 ≡ (check_tag d.out (finish v (pad d.state d.posn) st.key) tag).result)
  unfolding decrypt_packet decrypt_finalize
  decrypt_packet-eq st ad xs tag hs hk hn ht =
      let s = bind_ad v (v.setup init st.key st.nonce) ad in
      let st' : Session = record st { state = s; posn = 0; nonce = increment_nonce st.nonce } in
      rw
        (
          fresh_start st ad hs hk hn,
          decrypt_run st' xs v.rate_pos,
          take_all tag 16 (omega arith),
          duplex-eq-stream v.rate v.first_round decrypt_byte s (flatten xs) 0 v.rate_small
              v.rate_pos,
        )
        (refl, refl, check_tag_result _ _ _ tag)

  -- For a session whose state, key and nonce have their sizes, and a tag of 16 bytes: the result of
  -- a packet that is decrypted in pieces is the result of the one-shot decryption of the pieces
  -- together with the tag behind them, and the nonce is incremented once.
  pub decrypt_packet_lem :
      (st : Session) (ad : List ℕ) (xs : List (List ℕ)) (tag : List ℕ)
      → length st.state ≡ 40
      → length st.key ≡ v.key_size
      → length st.nonce ≡ 16
      → length tag ≡ 16
      → let r = decrypt_packet st ad xs tag in
        (r.2 ≡ result_of (aead_decrypt v (flatten xs ++ tag) ad st.nonce st.key))
        × (r.0.nonce ≡ increment_nonce st.nonce)
  decrypt_packet_lem st ad xs tag hs hk hn ht =
      let parts = decrypt_packet-eq st ad xs tag hs hk hn ht in
      (
        parts.2 ∙ sym (ap result_of (decrypt_split v (flatten xs) tag ad st.nonce st.key ht)),
        parts.0,
      )

  -- For a session whose state, key and nonce have their sizes, if the pieces with the tag of 16
  -- bytes behind them are the one-shot encryption of a plaintext, decrypting them in pieces gives
  -- this plaintext and the result 0.
  pub decrypt_packet-encrypt :
      (st : Session) (m ad : List ℕ) (xs : List (List ℕ)) (tag : List ℕ)
      → length st.state ≡ 40
      → length st.key ≡ v.key_size
      → length st.nonce ≡ 16
      → length tag ≡ 16
      → (aead_encrypt v m ad st.nonce st.key).c ≡ flatten xs ++ tag
      → let r = decrypt_packet st ad xs tag in (r.1 ≡ m) × (r.2 ≡ 0)
  unfolding aead_encrypt
  decrypt_packet-encrypt st m ad xs tag hs hk hn ht e =
      let s = bind_ad v (v.setup init st.key st.nonce) ad in
      let c = duplex v.rate v.first_round encrypt_byte s m 0 in
      let fin = finish v (pad c.state c.posn) st.key in
      let same =
        append_parts c.out (flatten xs) fin tag e
          (length-finish v (pad c.state c.posn) st.key ∙ sym ht) in
      let parts = decrypt_packet-eq st ad xs tag hs hk hn ht in
      let back =
        ap (λ z. duplex v.rate v.first_round decrypt_byte s z 0) (sym same.0)
        ∙ duplex_decrypt-encrypt v s m in
      (
        parts.1 ∙ ap (λ (d : Duplexed). d.out) back,
        parts.2
            ∙ (ap
                  (λ (d : Duplexed).
                    (check_tag d.out (finish v (pad d.state d.posn) st.key) tag).result)
                  back
                ∙ (ap (λ t. (check_tag m fin t).result) (sym same.1)
                    ∙ (check_tag_result m [] fin fin
                        ∙ ap (λ (z : Checked). z.result) (check_tag_self [] fin tt)))),
      )

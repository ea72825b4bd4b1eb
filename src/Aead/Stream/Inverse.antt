-- ===== src/Aead/Stream/Inverse.antt =====
-- Decrypting undoes encrypting, and the other way round, byte by byte.
use ascon_suite_tcc.Base.{ℕ, suc, ◌≡◌, refl, ap, List, [], ◌∷◌, length}
use ascon_suite_tcc.Base.Bits.Laws.{xor_cancel_left}
use ascon_suite_tcc.Core.Snp.{State, encrypt_byte, decrypt_byte}
use ascon_suite_tcc.Aead.Stream.{advance, stream}

decrypt-encrypt_byte :
    (s : State) (p b : ℕ) → decrypt_byte s p (encrypt_byte s p b).1 ≡ ((encrypt_byte s p b).0, b)
unfolding encrypt_byte decrypt_byte
decrypt-encrypt_byte s p b = rw xor_cancel_left

encrypt-decrypt_byte :
    (s : State) (p b : ℕ) → encrypt_byte s p (decrypt_byte s p b).1 ≡ ((decrypt_byte s p b).0, b)
unfolding encrypt_byte decrypt_byte
encrypt-decrypt_byte s p b = rw xor_cancel_left

-- Two steps on a byte of which `back` undoes `there`, and goes to the same state.
module _ (rate first_round : ℕ) (there back : State → ℕ → ℕ → State × ℕ)
    (undo : (s : State) (p b : ℕ) → back s p (there s p b).1 ≡ ((there s p b).0, b)) where
  stream_undo :
      (s : State) (src : List ℕ) (p : ℕ)
      → let r = stream rate first_round there s src p in
        stream rate first_round back s r.out p
        ≡ record { state = r.state; out = src; posn = r.posn }
  unfolding stream
  stream_undo s [] p = refl
  stream_undo s (b ∷ src) p =
      let next = advance rate first_round (there s p b).0 p in
      rw (undo s p b, stream_undo next.state src next.posn)

-- Decrypting what the stream encrypted gives the plaintext, and the same state and position.
pub stream_decrypt-encrypt :
    (rate first_round : ℕ) (s : State) (m : List ℕ) (p : ℕ)
    → let e = stream rate first_round encrypt_byte s m p in
      stream rate first_round decrypt_byte s e.out p
      ≡ record { state = e.state; out = m; posn = e.posn }
stream_decrypt-encrypt rate first_round =
    stream_undo rate first_round encrypt_byte decrypt_byte decrypt-encrypt_byte

-- Encrypting what the stream decrypted gives the ciphertext, and the same state and position.
pub stream_encrypt-decrypt :
    (rate first_round : ℕ) (s : State) (c : List ℕ) (p : ℕ)
    → let d = stream rate first_round decrypt_byte s c p in
      stream rate first_round encrypt_byte s d.out p
      ≡ record { state = d.state; out = c; posn = d.posn }
stream_encrypt-decrypt rate first_round =
    stream_undo rate first_round decrypt_byte encrypt_byte encrypt-decrypt_byte

pub length-stream :
    (rate first_round : ℕ) (byte : State → ℕ → ℕ → State × ℕ) (s : State) (src : List ℕ) (p : ℕ)
    → length (stream rate first_round byte s src p).out ≡ length src
unfolding stream
length-stream rate first_round byte s [] p = refl
length-stream rate first_round byte s (b ∷ src) p =
    let next = advance rate first_round (byte s p b).0 p in
    ap suc (length-stream rate first_round byte next.state src next.posn)

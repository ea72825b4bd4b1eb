-- ===== src/Aead/Oneshot/Cases.antt =====
-- Everything that a decryption can do: it accepts exactly what encryption produces.
use mathlib.Core.List.{tail}
use mathlib.Core.Path.{subst}
use ascon_suite_tcc.Base.{
  ℕ, ◌-◌, ◌<◌, ◌≤◌, ◌≡◌, ◌≢◌, ◌⊎◌, refl, sym, ap, ap₂, get_or, ◌∙◌, arith, List, [], ◌∷◌, ◌++◌, ltb,
  length, length-append, length-drop, take, drop, replicate, take-append-drop, Bool-cases, true,
  inl, inr,
}
use ascon_suite_tcc.Base.Bytes.{IsBytes, take-IsBytes, drop-IsBytes}
use ascon_suite_tcc.Core.Snp.{State, init, encrypt_byte, decrypt_byte, pad}
use ascon_suite_tcc.Core.Snp.Bounds.{IsState, permute-IsState, separator-IsState}
use ascon_suite_tcc.Aead.Common.{Duplexed, duplex, absorb}
use ascon_suite_tcc.Aead.Tag.{minus_one}
use ascon_suite_tcc.Aead.Tag.Laws.{check_tag_lem, bytes-discrete}
use ascon_suite_tcc.Aead.Variant.{Variant, finish, length-finish, finish-IsBytes}
use ascon_suite_tcc.Aead.Stream.Refine.{duplex-eq-stream}
use ascon_suite_tcc.Aead.Stream.Bounds.{stream_bounds, decrypt-KeepsBytes}
use ascon_suite_tcc.Aead.Oneshot.{too_short, opened, bind_ad, aead_encrypt, aead_decrypt}
use ascon_suite_tcc.Aead.Oneshot.Laws.{
  decrypt_split, duplex_encrypt-decrypt, duplex_decrypt-encrypt, length-duplex,
}

pub append_parts : (a b c d : List ℕ) → a ++ c ≡ b ++ d → length c ≡ length d → (a ≡ b) × (c ≡ d)
append_parts [] [] c d e h = (refl, e)
append_parts [] (y ∷ b) c d e h = absurd (omega (arith, ap length e, length-append (y ∷ b) d))
append_parts (x ∷ a) [] c d e h = absurd (omega (arith, ap length e, length-append (x ∷ a) c))
append_parts (x ∷ a) (y ∷ b) c d e h =
    let rest = append_parts a b c d (ap tail e) h in
    (ap₂ ◌∷◌ (ap (λ l. get_or l 0 0) e) rest.0, rest.1)

absorb-IsState :
    (rate first_round : ℕ) (s : State) (ad : List ℕ) → IsState (absorb rate first_round s ad true)
unfolding absorb
absorb-IsState rate first_round s ad = permute-IsState _ first_round

pub last_16 : (c : List ℕ) → 16 ≤ length c → length (drop (length c - 16) c) ≡ 16
last_16 c h = omega (arith, length-drop (length c - 16) c)

module _ (v : Variant) where
  bind_ad-IsState : (s : State) (ad : List ℕ) → IsState s → IsState (bind_ad v s ad)
  unfolding bind_ad
  bind_ad-IsState s ad h = elim (Bool-cases (ltb 0 (length ad))) [
    | inl some_ad ↦ rw some_ad (separator-IsState _ (absorb-IsState v.rate v.first_round s ad))
    | inr none_ad ↦ rw none_ad (separator-IsState s h)
  ]

  module _ (ad npub k : List ℕ) where
    abbrev pub start : State
    start = bind_ad v (v.setup init k npub) ad

    -- The plaintext behind a ciphertext, and the tag that belongs to it.
    abbrev deciphered : List ℕ → Duplexed
    deciphered c = duplex v.rate v.first_round decrypt_byte start c 0

    abbrev tag_of : List ℕ → List ℕ
    tag_of c = let d = deciphered c in finish v (pad d.state d.posn) k

    encrypt_deciphered :
        (c : List ℕ) → (aead_encrypt v (deciphered c).out ad npub k).c ≡ c ++ tag_of c
    unfolding aead_encrypt
    encrypt_deciphered c = rw (duplex_encrypt-decrypt v start c)

    deciphered-IsBytes : (c : List ℕ) → IsBytes c → IsBytes k → IsBytes (deciphered c).out
    deciphered-IsBytes c hc hk =
        rw (duplex-eq-stream v.rate v.first_round decrypt_byte start c 0 v.rate_small v.rate_pos)
          (stream_bounds v.rate v.first_round decrypt_byte decrypt-KeepsBytes start c 0
            (bind_ad-IsState (v.setup init k npub) ad (v.setup_state init k npub hk)) hc).1

    -- An encryption determines its parts: the first bytes decipher to the plaintext, and the last
    -- 16 are the tag that belongs to them.
    encrypt_parts :
        (m c tag : List ℕ)
        → length tag ≡ 16
        → (aead_encrypt v m ad npub k).c ≡ c ++ tag
        → tag_of c ≡ tag
    unfolding aead_encrypt
    encrypt_parts m c tag h e =
        let sealed = duplex v.rate v.first_round encrypt_byte start m 0 in
        let fin = finish v (pad sealed.state sealed.posn) k in
        let parts =
          append_parts sealed.out c fin tag e
            (omega (arith, h, length-finish v (pad sealed.state sealed.posn) k)) in
        ap (λ z. tag_of z) (sym parts.0)
        ∙ (ap (λ (d : Duplexed). finish v (pad d.state d.posn) k) (duplex_decrypt-encrypt v start m)
            ∙ parts.1)

    abbrev pub Accepted : List ℕ → Type 0
    Accepted c =
        (m : List ℕ) × ((aead_encrypt v m ad npub k).c ≡ c)
        × (aead_decrypt v c ad npub k ≡ opened 0 (length m) m)

    abbrev pub Rejected : List ℕ → Type 0
    Rejected c =
        (16 ≤ length c)
        × ((m : List ℕ) → (aead_encrypt v m ad npub k).c ≢ c)
        × (aead_decrypt v c ad npub k
            ≡ opened minus_one (length c - 16) (replicate (length c - 16) 0))

    cases_split :
        (c tag : List ℕ)
        → IsBytes c
        → IsBytes tag
        → IsBytes k
        → length tag ≡ 16
        → Accepted (c ++ tag) ⊎ Rejected (c ++ tag)
    cases_split c tag hc ht hk h =
        let d = deciphered c in
        let mine =
          check_tag_lem d.out (tag_of c) tag (deciphered-IsBytes c hc hk)
            (finish-IsBytes v (pad d.state d.posn) k hk) ht
            (length-finish v (pad d.state d.posn) k ∙ sym h) in
        elim (bytes-discrete (tag_of c) tag) [
          | yes same ↦ inl (
            (deciphered c).out,
            encrypt_deciphered c ∙ ap (λ t. c ++ t) same,
            decrypt_split v c tag ad npub k h
                ∙ rw (mine.0 same, length-duplex v decrypt_byte start c),
          )
          | no other ↦ inr (
            omega (arith, length-append c tag),
            λ m e. other (encrypt_parts m c tag h e),
            decrypt_split v c tag ad npub k h
                ∙ rw (mine.1 other, length-duplex v decrypt_byte start c, mlen),
          )
        ]
      where
        mlen : length (c ++ tag) - 16 ≡ length c
        mlen = omega (arith, length-append c tag)

    -- For a ciphertext and a key of bytes there are three cases. The ciphertext is shorter than a
    -- tag: nothing is written. It is the encryption of some plaintext: the result is 0, and that
    -- plaintext with its length is returned. It is not the encryption of any plaintext: the result
    -- is -1, and the plaintext buffer holds zeros.
    pub decrypt_cases :
        (c : List ℕ)
        → IsBytes c
        → IsBytes k
        → (length c < 16) × (aead_decrypt v c ad npub k ≡ too_short) ⊎ (Accepted c ⊎ Rejected c)
    decrypt_cases c hc hk = elim (Bool-cases (ltb (length c) 16)) [
      | inl short ↦ inl (ground arith, unfold aead_decrypt in rw short)
      | inr long ↦ inr (
          subst (λ z. Accepted z ⊎ Rejected z) (take-append-drop (length c - 16) c)
            (cases_split (take (length c - 16) c) (drop (length c - 16) c)
              (take-IsBytes (length c - 16) c hc) (drop-IsBytes (length c - 16) c hc) hk
              (last_16 c (ground arith))))
    ]

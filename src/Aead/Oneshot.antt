-- ===== src/Aead/Oneshot.antt =====
-- The one-shot functions `ascon*_aead_encrypt` and `ascon*_aead_decrypt` of
-- src/aead/ascon-aead-{128,128a,80pq}.c. The output buffer does not overlap the inputs.
pub mod Laws
pub mod Cases
use ascon_suite_tcc.Base.{ℕ, ◌+◌, ◌-◌, true, List, ◌++◌, ltb, if◌then◌else◌, length, take, drop}
use ascon_suite_tcc.Core.Snp.{State, init, encrypt_byte, decrypt_byte, pad, separator}
use ascon_suite_tcc.Aead.Common.{Duplexed, absorb, duplex}
use ascon_suite_tcc.Aead.Tag.{Checked, minus_one, check_tag}
use ascon_suite_tcc.Aead.Variant.{Variant, finish, length-finish, finish-IsBytes}

-- the ciphertext with the tag behind it, and `*clen`
pub record Sealed : Type 0 where
  pub c : List ℕ
  pub clen : ℕ

-- what a decryption does: it returns -1 before it writes anything, or returns `result` with
-- `*mlen` and the plaintext buffer written
pub data Opened : Type 0 where
  too_short : Opened
  opened : (result mlen : ℕ) → (m : List ℕ) → Opened

-- the return value
abbrev pub result_of : Opened → ℕ
result_of too_short = minus_one
result_of (opened result mlen m) = result

module _ (v : Variant) where
  -- the associated data, and the separator
  unfoldable pub bind_ad : State → List ℕ → State
  bind_ad s ad = separator (if ltb 0 (length ad) then absorb v.rate v.first_round s ad true else s)

  unfoldable pub aead_encrypt : List ℕ → List ℕ → List ℕ → List ℕ → Sealed
  aead_encrypt m ad npub k =
      let s = bind_ad (v.setup init k npub) ad in
      let e = duplex v.rate v.first_round encrypt_byte s m 0 in
      record { c = e.out ++ finish v (pad e.state e.posn) k; clen = length m + 16 }

  unfoldable pub aead_decrypt : List ℕ → List ℕ → List ℕ → List ℕ → Opened
  aead_decrypt c ad npub k =
      let mlen = length c - 16 in
      let s = bind_ad (v.setup init k npub) ad in
      let d = duplex v.rate v.first_round decrypt_byte s (take mlen c) 0 in
      let tag = finish v (pad d.state d.posn) k in
      let checked = check_tag d.out tag (take 16 (drop mlen c)) in
      if ltb (length c) 16 then too_short else opened checked.result mlen checked.plaintext

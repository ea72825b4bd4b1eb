-- ===== src/Aead/Sealing.antt =====
-- What the SIV and ISAP modes promise: a tag of 16 bytes that depends on the plaintext, and a body
-- that is its own inverse. The files of src/siv and src/isap fill this interface.
pub mod Cases
use ascon_suite_tcc.Base.{ℕ, ◌+◌, ◌≡◌, List, ◌++◌, length}
use ascon_suite_tcc.Base.Bytes.{IsBytes}
use ascon_suite_tcc.Aead.Tag.{check_tag}
use ascon_suite_tcc.Aead.Oneshot.{Sealed, Opened, opened}

-- One key, nonce and associated data; `body` is given the tag.
pub record Sealing : Type 0 where
  pub tag_of : List ℕ → List ℕ
  pub body : List ℕ → List ℕ → List ℕ
  pub length-tag_of : (m : List ℕ) → length (tag_of m) ≡ 16
  pub tag_of-IsBytes : (m : List ℕ) → IsBytes (tag_of m)
  pub body_inverse : (t m : List ℕ) → body t (body t m) ≡ m
  pub length-body : (t m : List ℕ) → length (body t m) ≡ length m
  pub body-IsBytes : (t m : List ℕ) → IsBytes m → IsBytes (body t m)

-- What an encryption writes, and what a decryption of a body and a tag does.
abbrev pub seal : Sealing → List ℕ → List ℕ
seal s m = s.body (s.tag_of m) m ++ s.tag_of m

abbrev pub unseal : Sealing → List ℕ → List ℕ → Opened
unseal s c tag =
    let m = s.body tag c in
    let checked = check_tag m (s.tag_of m) tag in opened checked.result (length c) checked.plaintext

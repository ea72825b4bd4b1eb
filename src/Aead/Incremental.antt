-- ===== src/Aead/Incremental.antt =====
-- The incremental functions of src/aead/ascon-aead-inc-{128,128a,80pq}.c. `ascon_acquire` and
-- `ascon_release` do nothing in this backend.
pub mod Packet
use ascon_suite_tcc.Base.{ℕ, List, [], Option, none, some, take, replicate}
use ascon_suite_tcc.Core.Snp.{State, init, encrypt_byte, decrypt_byte, pad}
use ascon_suite_tcc.Aead.Common.{Duplexed, duplex}
use ascon_suite_tcc.Aead.Nonce.{increment_nonce}
use ascon_suite_tcc.Aead.Tag.{Checked, check_tag}
use ascon_suite_tcc.Aead.Variant.{Variant, finish}
use ascon_suite_tcc.Aead.Oneshot.{bind_ad}

-- `ascon128_state_t`, `ascon128a_state_t`, `ascon80pq_state_t`
pub record Session : Type 0 where
  pub state : State
  pub key : List ℕ
  pub nonce : List ℕ
  pub posn : ℕ

-- `memcpy(dest, p, size)` from a pointer that is not null, `memset(dest, 0, size)` otherwise
unfoldable pub copy_or_clear : Option (List ℕ) → ℕ → List ℕ
copy_or_clear none size = replicate size 0
copy_or_clear (some p) size = take size p

module _ (v : Variant) where
  -- `ascon*_aead_reinit`
  unfoldable pub reinit : Session → Option (List ℕ) → Option (List ℕ) → Session
  unfolding copy_or_clear
  reinit st npub k = record st {
    key = copy_or_clear k v.key_size;
    nonce = copy_or_clear npub 16;
    posn = 0;
  }

  -- `ascon*_aead_init`
  unfoldable pub session_init : Session → Option (List ℕ) → Option (List ℕ) → Session
  unfolding reinit
  session_init st npub k = reinit (record st { state = init }) npub k

  -- `ascon*_aead_start`
  unfoldable pub start : Session → List ℕ → Session
  start st ad = record st {
    state = bind_ad v (v.setup st.state st.key st.nonce) ad;
    posn = 0;
    nonce = increment_nonce st.nonce;
  }

  -- `ascon*_aead_encrypt_block` and `ascon*_aead_decrypt_block`
  unfoldable pub encrypt_block : Session → List ℕ → Session × List ℕ
  encrypt_block st src =
      let r = duplex v.rate v.first_round encrypt_byte st.state src st.posn in
      (record st { state = r.state; posn = r.posn }, r.out)

  unfoldable pub decrypt_block : Session → List ℕ → Session × List ℕ
  decrypt_block st src =
      let r = duplex v.rate v.first_round decrypt_byte st.state src st.posn in
      (record st { state = r.state; posn = r.posn }, r.out)

  -- `ascon*_aead_encrypt_finalize`: the tag
  unfoldable pub encrypt_finalize : Session → Session × List ℕ
  encrypt_finalize st =
      let padded = pad st.state st.posn in
      (record st { state = v.close padded st.key }, finish v padded st.key)

  -- `ascon*_aead_decrypt_finalize`: the result
  unfoldable pub decrypt_finalize : Session → List ℕ → Session × ℕ
  decrypt_finalize st tag =
      let padded = pad st.state st.posn in
      let checked = check_tag [] (finish v padded st.key) (take 16 tag) in
      (record st { state = v.close padded st.key }, checked.result)

  -- `ascon*_aead_free`: every byte of the structure is cleared
  unfoldable pub session_free : Session → Session
  session_free st = record {
    state = replicate 40 0;
    key = replicate v.key_size 0;
    nonce = replicate 16 0;
    posn = 0;
  }

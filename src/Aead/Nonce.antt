-- ===== src/Aead/Nonce.antt =====
-- src/aead/ascon-aead-util.c: the nonce as a 128-bit big-endian counter.
pub mod Value
use ascon_suite_tcc.Base.{ℕ, zero, suc, ◌+◌, ◌/◌, ◌%◌, ◌^◌, List, ◌++◌, get_or, set}
use ascon_suite_tcc.Core.Word.{u8, be_store_word64}

-- `ascon_aead_set_counter`: the 16 bytes that it writes to `npub`
unfoldable pub set_counter : ℕ → List ℕ
set_counter n = be_store_word64 0 ++ be_store_word64 n

-- The loop of `ascon_aead_increment_nonce` with `index` bytes to go; `carry` is a `uint16_t`.
unfoldable pub increment_loop : ℕ → ℕ → List ℕ → List ℕ
increment_loop zero carry npub = npub
increment_loop (suc index) carry npub =
    let sum = (carry + get_or npub index 0) % 2 ^ 16 in
    increment_loop index (sum / 2 ^ 8) (set npub index (u8 sum))

-- `ascon_aead_increment_nonce`: ASCON128_NONCE_SIZE is 16
unfoldable pub increment_nonce : List ℕ → List ℕ
unfolding increment_loop
increment_nonce npub = increment_loop 16 1 npub

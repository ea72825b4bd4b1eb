-- ===== src/Isap.antt =====
-- The ISAP modes of src/isap/ascon-isap-common.h, which ascon-isap-{128,128a,80pq}.c include with
-- their sizes and rounds. The key is expanded once into two states, and each message is encrypted
-- and authenticated under keys that are derived bit by bit.
mod Tests
pub mod Laws
pub mod Keys
pub mod Api
use ascon_suite_tcc.Base.{
  ℕ, zero, suc, ◌+◌, ◌-◌, ◌*◌, ◌/◌, ◌%◌, ◌^◌, bit_and, bit_xor, List, [], ◌∷◌, ◌++◌, ltb, leb,
  if◌then◌else◌, length, take, drop, get_or, set,
}
use ascon_suite_tcc.Core.Permutation.{permute}
use ascon_suite_tcc.Core.Snp.{
  State, init, pad, separator, overwrite_bytes, add_bytes, extract_bytes, extract_and_add_bytes,
  Step,
}
use ascon_suite_tcc.Aead.Tag.{Checked, check_tag}
use ascon_suite_tcc.Aead.Oneshot.{Sealed, Opened, too_short, opened}
use ascon_suite_tcc.Aead.Ofb.{ofb}

-- The macros that an including file defines: `ISAP_KEY_SIZE` and the numbers of rounds.
pub record IsapVariant : Type 0 where
  pub key_size : ℕ
  pub rounds_h : ℕ
  pub rounds_e : ℕ
  pub rounds_b : ℕ
  pub rounds_k : ℕ

-- `ISAP_RATE`, `ISAP_NONCE_SIZE`, `ISAP_TAG_SIZE` and `ISAP_STATE_SIZE`
abbrev pub isap_rate : ℕ
isap_rate = 8

abbrev pub nonce_size : ℕ
nonce_size = 16

abbrev pub tag_size : ℕ
tag_size = 16

abbrev pub state_size : ℕ
state_size = 40

-- `ISAP_KEY_STATE`: the expanded keys
pub record KeyState : Type 0 where
  pub ke : State
  pub ka : State

-- `ISAP_ADD_BIT(state, value, bit)`
unfoldable pub add_bit : State → ℕ → ℕ → State
add_bit s value bit = set s 0 (bit_xor (get_or s 0 0) (bit_and (value * 2 ^ bit) 0x80))

-- a block of `*_mac`: `ascon_add_bytes(state, data, 0, ISAP_RATE)` and the permutation
unfoldable pub mac_blocks : ℕ → ℕ → State → List ℕ → State
mac_blocks first_round zero s input =
    pad (if ltb 0 (length input) then add_bytes s input 0 else s) (length input)
mac_blocks first_round (suc fuel) s input =
    let more =
      mac_blocks first_round fuel (permute (add_bytes s (take isap_rate input) 0) first_round)
        (drop isap_rate input) in
    let last = pad (if ltb 0 (length input) then add_bytes s input 0 else s) (length input) in
    if leb isap_rate (length input) then more else last

-- one loop of `*_mac`, with the partial block, the padding and the permutation behind it
unfoldable pub mac_absorb : ℕ → State → List ℕ → State
mac_absorb first_round s input = permute (mac_blocks first_round (length input) s input) first_round

-- `*_aead_load_key` and `*_aead_save_key`, with the 80 bytes of the saved key
unfoldable pub load_key : List ℕ → KeyState
load_key k = record {
  ke = overwrite_bytes init (take state_size k) 0;
  ka = overwrite_bytes init (take state_size (drop state_size k)) 0;
}

unfoldable pub save_key : KeyState → List ℕ
save_key pk = extract_bytes pk.ke 0 state_size ++ extract_bytes pk.ka 0 state_size

-- `*_aead_free`
unfoldable pub isap_free : KeyState → KeyState
isap_free pk = record { ke = init; ka = init }

module _ (v : IsapVariant) where
  -- `*_IV_A`, `*_IV_KA` and `*_IV_KE`, which differ in their first byte
  abbrev pub isap_iv : ℕ → List ℕ
  isap_iv first =
      first
      ∷ (v.key_size * 8)
      ∷ (isap_rate * 8)
      ∷ 1
      ∷ v.rounds_h
      ∷ v.rounds_b
      ∷ v.rounds_e
      ∷ v.rounds_k
      ∷ []

  -- The arrays are as long as the rest of the state; what is not written in them is 0.
  abbrev pub isap_iv_bytes : ℕ → ℕ → List ℕ
  isap_iv_bytes first size = take size (isap_iv first ++ init)

  -- `for (bit = 0; bit < num_bits; ++bit)` of `*_rekey`, with `left` bits to go
  unfoldable pub rekey_bits : ℕ → ℕ → State → List ℕ → State
  rekey_bits zero bit s input = s
  rekey_bits (suc left) bit s input =
      rekey_bits left (bit + 1)
        (permute (add_bit s (get_or input (bit / 8) 0) (bit % 8)) (12 - v.rounds_b)) input

  -- `*_rekey`
  unfoldable pub rekey : State → List ℕ → State
  rekey pk input =
      let num_bits = length input * 8 - 1 in
      let s = rekey_bits num_bits 0 pk input in
      permute (add_bit s (get_or input (num_bits / 8) 0) (num_bits % 8)) (12 - v.rounds_k)

  -- `ascon_extract_and_add_bytes(state, m, c, 0, size)`
  unfoldable pub isap_block : State → List ℕ → List ℕ
  isap_block s m = extract_and_add_bytes s m 0

  -- `*_encrypt`, which leaves a state and the text
  unfoldable pub isap_crypt : KeyState → List ℕ → List ℕ → Step
  isap_crypt pk npub m =
      let s =
        overwrite_bytes (rekey pk.ke (take nonce_size npub)) (take nonce_size npub)
          (state_size - nonce_size) in
      ofb isap_rate (12 - v.rounds_e) isap_block s m

  -- the first two calls of `*_mac`, which fill the state
  unfoldable pub mac_load : State → List ℕ → State
  mac_load state npub =
      overwrite_bytes (overwrite_bytes state (take nonce_size npub) 0)
        (isap_iv_bytes 1 (state_size - nonce_size)) nonce_size

  -- `*_mac`, on the state that the caller has
  unfoldable pub isap_mac : State → KeyState → List ℕ → List ℕ → List ℕ → List ℕ
  isap_mac state pk npub ad c =
      let s = permute (mac_load state npub) (12 - v.rounds_h) in
      let s = separator (mac_absorb (12 - v.rounds_h) s ad) in
      let s = mac_absorb (12 - v.rounds_h) s c in
      let preserve = extract_bytes s v.key_size (state_size - v.key_size) in
      let s = rekey pk.ka (extract_bytes s 0 v.key_size) in
      let s = permute (overwrite_bytes s preserve v.key_size) (12 - v.rounds_h) in
      extract_bytes s 0 tag_size

  -- `*_aead_init`
  unfoldable pub isap_init : List ℕ → KeyState
  isap_init k =
      let expand = λ (first : ℕ).
        permute
          (overwrite_bytes (overwrite_bytes init (take v.key_size k) 0)
            (isap_iv_bytes first (state_size - v.key_size)) v.key_size)
          (12 - v.rounds_k) in
      record { ke = expand 3; ka = expand 2 }

  -- `*_aead_encrypt`
  unfoldable pub isap_encrypt : List ℕ → List ℕ → List ℕ → KeyState → Sealed
  isap_encrypt m ad npub pk =
      let e = isap_crypt pk npub m in
      record { c = e.out ++ isap_mac e.state pk npub ad e.out; clen = length m + tag_size }

  -- `*_aead_decrypt`
  unfoldable pub isap_decrypt : List ℕ → List ℕ → List ℕ → KeyState → Opened
  isap_decrypt c ad npub pk =
      let mlen = length c - tag_size in
      let tag = isap_mac init pk npub ad (take mlen c) in
      let m = (isap_crypt pk npub (take mlen c)).out in
      let checked = check_tag m tag (take tag_size (drop mlen c)) in
      if ltb (length c) tag_size then too_short else opened checked.result mlen checked.plaintext

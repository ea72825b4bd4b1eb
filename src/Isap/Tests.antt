-- ===== src/Isap/Tests.antt =====
-- Known answers from test/kat, and the theorems on them.
use ascon_suite_tcc.Base.{
  ℕ, ◌-◌, ◌<◌, ◌≤◌, ◌≡◌, ◌≢◌, ◌⊎◌, refl, arith, List, [], ◌∷◌, length, replicate,
}
use ascon_suite_tcc.Core.Permutation.{permute}
use ascon_suite_tcc.Core.Snp.{
  init, pad, separator, overwrite_bytes, add_bytes, extract_bytes, extract_and_add_bytes,
}
use ascon_suite_tcc.Aead.Tag.{minus_one}
use ascon_suite_tcc.Aead.Oneshot.{too_short, opened}
use ascon_suite_tcc.Aead.Ofb.{ofb}
use ascon_suite_tcc.Isap.{
  KeyState, isap_encrypt, isap_decrypt, isap_crypt, isap_mac, mac_load, mac_absorb, mac_blocks,
  rekey, rekey_bits, add_bit, isap_block, isap_init, load_key, save_key,
}
use ascon_suite_tcc.Isap.Laws.{isap_decrypt-encrypt, isap_decrypt_cases}
use ascon_suite_tcc.Isap.Keys.{save_load_key}
use ascon_suite_tcc.Isap.Api.{
  isap128a, isap80pq, ascon128a_isap_aead_init, ascon128a_isap_aead_encrypt,
}

abbrev header_3 : List ℕ
header_3 = 0 ∷ 1 ∷ 2 ∷ []

abbrev key_16 : List ℕ
key_16 = 0 ∷ 1 ∷ 2 ∷ 3 ∷ 4 ∷ 5 ∷ 6 ∷ 7 ∷ 8 ∷ 9 ∷ 10 ∷ 11 ∷ 12 ∷ 13 ∷ 14 ∷ 15 ∷ []

abbrev message_9 : List ℕ
message_9 = 0 ∷ 1 ∷ 2 ∷ 3 ∷ 4 ∷ 5 ∷ 6 ∷ 7 ∷ 8 ∷ []

abbrev cipher_9 : List ℕ
cipher_9 =
    44 ∷ 222 ∷ 40 ∷ 219 ∷ 187 ∷ 217 ∷ 19 ∷ 30 ∷ 188 ∷ 213 ∷ 180 ∷ 121 ∷ 167 ∷ 131 ∷ 201 ∷ 138 ∷ 109
    ∷ 54 ∷ 132 ∷ 237 ∷ 0 ∷ 195 ∷ 13 ∷ 82 ∷ 195 ∷ []

-- ISAP-A-128A.txt, count 301
known_128a :
    (ascon128a_isap_aead_encrypt message_9 header_3 key_16 (ascon128a_isap_aead_init key_16)).c
    ≡ cipher_9
unfolding isap_encrypt isap_crypt isap_mac mac_load mac_absorb mac_blocks rekey rekey_bits add_bit
    isap_block isap_init ofb add_bytes extract_bytes extract_and_add_bytes pad separator
    overwrite_bytes permute
known_128a = refl

abbrev keys : KeyState
keys = record { ke = init; ka = init }

isap_decrypt-encrypt_example :
    isap_decrypt isap128a
      (isap_encrypt isap128a message_9 header_3 key_16 keys).c
      header_3
      key_16
      keys
    ≡ opened 0 (length message_9) message_9
isap_decrypt-encrypt_example =
    isap_decrypt-encrypt isap128a keys header_3 key_16 refl message_9 (omega arith)

isap_decrypt_cases_example :
    (length cipher_9 < 16) × (isap_decrypt isap80pq cipher_9 header_3 key_16 keys ≡ too_short)
    ⊎ (((m : List ℕ) × ((isap_encrypt isap80pq m header_3 key_16 keys).c ≡ cipher_9)
          × (isap_decrypt isap80pq cipher_9 header_3 key_16 keys ≡ opened 0 (length m) m))
        ⊎ ((16 ≤ length cipher_9)
            × ((m : List ℕ) → (isap_encrypt isap80pq m header_3 key_16 keys).c ≢ cipher_9)
            × (isap_decrypt isap80pq cipher_9 header_3 key_16 keys
                ≡ opened minus_one (length cipher_9 - 16) (replicate (length cipher_9 - 16) 0))))
isap_decrypt_cases_example =
    isap_decrypt_cases isap80pq keys header_3 key_16 refl cipher_9 (omega arith)

save_load_key_example :
    (load_key (save_key keys) ≡ keys) × (save_key (load_key (replicate 80 7)) ≡ replicate 80 7)
save_load_key_example = save_load_key keys (replicate 80 7) refl refl refl

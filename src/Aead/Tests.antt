-- ===== src/Aead/Tests.antt =====
-- Known answers from test/kat, and the theorems on them.
use ascon_suite_tcc.Base.{
  ℕ, ◌+◌, ◌%◌, ◌^◌, ◌<◌, ◌≡◌, ◌≢◌, ◌⊎◌, refl, arith, List, [], ◌∷◌, ◌++◌, length, replicate,
}
use ascon_suite_tcc.Core.Snp.{
  init, each_byte, encrypt_byte, xor_block, pad, separator, squeeze, overwrite_bytes,
}
use ascon_suite_tcc.Aead.Stream.{stream}
use ascon_suite_tcc.Aead.Stream.Refine.{duplex-eq-stream}
use ascon_suite_tcc.Aead.Tag.{minus_one, check_tag}
use ascon_suite_tcc.Aead.Tag.Laws.{check_tag_cases}
use ascon_suite_tcc.Aead.Oneshot.{too_short, result_of, bind_ad, aead_encrypt, aead_decrypt, opened}
use ascon_suite_tcc.Aead.Oneshot.Laws.{decrypt-encrypt}
use ascon_suite_tcc.Aead.Oneshot.Cases.{Accepted, Rejected, decrypt_cases}
use ascon_suite_tcc.Aead.Nonce.{increment_nonce}
use ascon_suite_tcc.Aead.Nonce.Value.{value, increment_nonce_lem}
use ascon_suite_tcc.Aead.Incremental.{Session}
use ascon_suite_tcc.Aead.Incremental.Packet.{
  flatten, encrypt_packet, decrypt_packet, encrypt_packet_lem, decrypt_packet_lem,
  decrypt_packet-encrypt,
}
use ascon_suite_tcc.Aead.Variant.Ascon.Laws.{ascon128, ascon128a, ascon80pq}
use ascon_suite_tcc.Aead.Common.{absorb, absorb_blocks, duplex, whole, blocks}
use ascon_suite_tcc.Core.Permutation.{permute}
use ascon_suite_tcc.Aead.Variant.Ascon.{
  setup_128, setup_128a, setup_80pq, load_128, load_128a, load_80pq, close_128, close_128a,
  close_80pq,
}

abbrev key_16 : List ℕ
key_16 = 0 ∷ 1 ∷ 2 ∷ 3 ∷ 4 ∷ 5 ∷ 6 ∷ 7 ∷ 8 ∷ 9 ∷ 10 ∷ 11 ∷ 12 ∷ 13 ∷ 14 ∷ 15 ∷ []

abbrev key_20 : List ℕ
key_20 =
    0 ∷ 1 ∷ 2 ∷ 3 ∷ 4 ∷ 5 ∷ 6 ∷ 7 ∷ 8 ∷ 9 ∷ 10 ∷ 11 ∷ 12 ∷ 13 ∷ 14 ∷ 15 ∷ 16 ∷ 17 ∷ 18 ∷ 19 ∷ []

abbrev nonce_16 : List ℕ
nonce_16 = 0 ∷ 1 ∷ 2 ∷ 3 ∷ 4 ∷ 5 ∷ 6 ∷ 7 ∷ 8 ∷ 9 ∷ 10 ∷ 11 ∷ 12 ∷ 13 ∷ 14 ∷ 15 ∷ []

abbrev header_3 : List ℕ
header_3 = 0 ∷ 1 ∷ 2 ∷ []

abbrev message_9 : List ℕ
message_9 = 0 ∷ 1 ∷ 2 ∷ 3 ∷ 4 ∷ 5 ∷ 6 ∷ 7 ∷ 8 ∷ []

abbrev message_17 : List ℕ
message_17 = 0 ∷ 1 ∷ 2 ∷ 3 ∷ 4 ∷ 5 ∷ 6 ∷ 7 ∷ 8 ∷ 9 ∷ 10 ∷ 11 ∷ 12 ∷ 13 ∷ 14 ∷ 15 ∷ 16 ∷ []

abbrev cipher_128 : List ℕ
cipher_128 =
    241 ∷ 157 ∷ 40 ∷ 224 ∷ 242 ∷ 34 ∷ 179 ∷ 191 ∷ 202 ∷ 48 ∷ 55 ∷ 233 ∷ 176 ∷ 177 ∷ 7 ∷ 38 ∷ 189
    ∷ 156 ∷ 55 ∷ 18 ∷ 33 ∷ 54 ∷ 222 ∷ 166 ∷ 235 ∷ []

-- ASCON-128.txt, count 301
known_128 : (aead_encrypt ascon128 message_9 header_3 nonce_16 key_16).c ≡ cipher_128
unfolding aead_encrypt bind_ad absorb absorb_blocks duplex whole blocks each_byte encrypt_byte
    xor_block pad separator squeeze overwrite_bytes permute setup_128 setup_128a setup_80pq load_128
    load_128a load_80pq close_128 close_128a close_80pq
known_128 = refl

abbrev cipher_128a : List ℕ
cipher_128a =
    219 ∷ 127 ∷ 124 ∷ 36 ∷ 142 ∷ 226 ∷ 119 ∷ 242 ∷ 244 ∷ 208 ∷ 130 ∷ 106 ∷ 1 ∷ 138 ∷ 246 ∷ 22 ∷ 79
    ∷ 244 ∷ 23 ∷ 160 ∷ 218 ∷ 204 ∷ 16 ∷ 109 ∷ 2 ∷ 89 ∷ 6 ∷ 108 ∷ 11 ∷ 10 ∷ 211 ∷ 76 ∷ 60 ∷ []

-- ASCON-128a.txt, count 565
known_128a : (aead_encrypt ascon128a message_17 header_3 nonce_16 key_16).c ≡ cipher_128a
unfolding aead_encrypt bind_ad absorb absorb_blocks duplex whole blocks each_byte encrypt_byte
    xor_block pad separator squeeze overwrite_bytes permute setup_128 setup_128a setup_80pq load_128
    load_128a load_80pq close_128 close_128a close_80pq
known_128a = refl

abbrev cipher_80pq : List ℕ
cipher_80pq =
    73 ∷ 68 ∷ 80 ∷ 24 ∷ 92 ∷ 206 ∷ 119 ∷ 224 ∷ 125 ∷ 162 ∷ 47 ∷ 11 ∷ 141 ∷ 218 ∷ 132 ∷ 211 ∷ 116
    ∷ 59 ∷ 100 ∷ 30 ∷ 194 ∷ 120 ∷ 139 ∷ 22 ∷ 250 ∷ []

-- ASCON-80pq.txt, count 301
known_80pq : (aead_encrypt ascon80pq message_9 header_3 nonce_16 key_20).c ≡ cipher_80pq
unfolding aead_encrypt bind_ad absorb absorb_blocks duplex whole blocks each_byte encrypt_byte
    xor_block pad separator squeeze overwrite_bytes permute setup_128 setup_128a setup_80pq load_128
    load_128a load_80pq close_128 close_128a close_80pq
known_80pq = refl

duplex-eq-stream_example :
    duplex 8 6 encrypt_byte init message_9 3 ≡ stream 8 6 encrypt_byte init message_9 3
duplex-eq-stream_example =
    duplex-eq-stream 8 6 encrypt_byte init message_9 3 (omega arith) (omega arith)

check_tag_cases_example :
    (nonce_16 ≡ key_16)
      × (check_tag message_9 nonce_16 key_16 ≡ record { result = 0; plaintext = message_9 })
    ⊎ (nonce_16 ≢ key_16)
      × (check_tag message_9 nonce_16 key_16
          ≡ record { result = minus_one; plaintext = replicate 9 0 })
check_tag_cases_example =
    check_tag_cases message_9 nonce_16 key_16 (omega arith) (omega arith) (omega arith) refl

decrypt-encrypt_example :
    aead_decrypt ascon128
      (aead_encrypt ascon128 message_9 header_3 nonce_16 key_16).c
      header_3
      nonce_16
      key_16
    ≡ opened 0 9 message_9
decrypt-encrypt_example = decrypt-encrypt ascon128 message_9 header_3 nonce_16 key_16 (omega arith)

decrypt_cases_example :
    (length cipher_80pq < 16)
      × (aead_decrypt ascon80pq cipher_80pq header_3 nonce_16 key_20 ≡ too_short)
    ⊎ (Accepted ascon80pq header_3 nonce_16 key_20 cipher_80pq
        ⊎ Rejected ascon80pq header_3 nonce_16 key_20 cipher_80pq)
decrypt_cases_example =
    decrypt_cases ascon80pq header_3 nonce_16 key_20 cipher_80pq (omega arith) (omega arith)

increment_nonce_lem_example :
    (value (increment_nonce nonce_16) ≡ (value nonce_16 + 1) % 2 ^ 128)
    × (length (increment_nonce nonce_16) ≡ 16)
increment_nonce_lem_example = increment_nonce_lem nonce_16 refl (omega arith)

abbrev session_128a : Session
session_128a = record { state = init; key = key_16; nonce = nonce_16; posn = 5 }

abbrev pieces : List (List ℕ)
pieces = header_3 ∷ message_17 ∷ [] ∷ message_9 ∷ []

encrypt_packet_lem_example :
    let r = encrypt_packet ascon128a session_128a header_3 pieces in
    (r.1 ++ r.2 ≡ (aead_encrypt ascon128a (flatten pieces) header_3 nonce_16 key_16).c)
    × (r.0.key ≡ key_16)
    × (r.0.nonce ≡ increment_nonce nonce_16)
encrypt_packet_lem_example =
    encrypt_packet_lem ascon128a session_128a header_3 pieces refl refl refl

decrypt_packet_lem_example :
    let r = decrypt_packet ascon128a session_128a header_3 pieces nonce_16 in
    (r.2 ≡ result_of (aead_decrypt ascon128a (flatten pieces ++ nonce_16) header_3 nonce_16 key_16))
    × (r.0.nonce ≡ increment_nonce nonce_16)
decrypt_packet_lem_example =
    decrypt_packet_lem ascon128a session_128a header_3 pieces nonce_16 refl refl refl refl

abbrev cipher_pieces : List (List ℕ)
cipher_pieces = (241 ∷ 157 ∷ 40 ∷ 224 ∷ []) ∷ (242 ∷ 34 ∷ 179 ∷ 191 ∷ 202 ∷ []) ∷ []

abbrev cipher_tag : List ℕ
cipher_tag =
    48 ∷ 55 ∷ 233 ∷ 176 ∷ 177 ∷ 7 ∷ 38 ∷ 189 ∷ 156 ∷ 55 ∷ 18 ∷ 33 ∷ 54 ∷ 222 ∷ 166 ∷ 235 ∷ []

abbrev session_128 : Session
session_128 = record { state = init; key = key_16; nonce = nonce_16; posn = 0 }

decrypt_packet-encrypt_example :
    let r = decrypt_packet ascon128 session_128 header_3 cipher_pieces cipher_tag in
    (r.1 ≡ message_9) × (r.2 ≡ 0)
unfolding flatten
decrypt_packet-encrypt_example =
    decrypt_packet-encrypt ascon128 session_128 message_9 header_3 cipher_pieces cipher_tag refl
      refl refl refl known_128

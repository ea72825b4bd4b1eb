-- ===== src/Siv/Tests.antt =====
-- Known answers from test/kat, and the theorems on them.
use ascon_suite_tcc.Base.{
  ℕ, ◌-◌, ◌<◌, ◌≤◌, ◌≡◌, ◌≢◌, ◌⊎◌, refl, arith, List, [], ◌∷◌, length, replicate,
}
use ascon_suite_tcc.Core.Permutation.{permute}
use ascon_suite_tcc.Core.Snp.{xor_block, pad, separator, squeeze, overwrite_bytes}
use ascon_suite_tcc.Aead.Common.{absorb, absorb_blocks}
use ascon_suite_tcc.Aead.Tag.{minus_one}
use ascon_suite_tcc.Aead.Variant.Ascon.{close_128, close_128a, close_80pq}
use ascon_suite_tcc.Aead.Oneshot.{bind_ad, too_short, opened}
use ascon_suite_tcc.Aead.Ofb.{ofb}
use ascon_suite_tcc.Siv.{xor_block_2_src, siv_block, siv_crypt, siv_tag, siv_encrypt, siv_decrypt}
use ascon_suite_tcc.Siv.Init.{siv_load, siv_init_128, siv_init_80pq, siv128, siv128a}
use ascon_suite_tcc.Siv.Laws.{siv_decrypt-encrypt, siv_decrypt_cases}
use ascon_suite_tcc.Siv.Api.{ascon128_siv_encrypt, ascon128a_siv_encrypt, ascon80pq_siv_encrypt}

abbrev header_3 : List ℕ
header_3 = 0 ∷ 1 ∷ 2 ∷ []

abbrev key_16 : List ℕ
key_16 = 0 ∷ 1 ∷ 2 ∷ 3 ∷ 4 ∷ 5 ∷ 6 ∷ 7 ∷ 8 ∷ 9 ∷ 10 ∷ 11 ∷ 12 ∷ 13 ∷ 14 ∷ 15 ∷ []

abbrev key_20 : List ℕ
key_20 =
    0 ∷ 1 ∷ 2 ∷ 3 ∷ 4 ∷ 5 ∷ 6 ∷ 7 ∷ 8 ∷ 9 ∷ 10 ∷ 11 ∷ 12 ∷ 13 ∷ 14 ∷ 15 ∷ 16 ∷ 17 ∷ 18 ∷ 19 ∷ []

abbrev message_128 : List ℕ
message_128 = 0 ∷ 1 ∷ 2 ∷ 3 ∷ 4 ∷ 5 ∷ 6 ∷ 7 ∷ 8 ∷ []

abbrev cipher_128 : List ℕ
cipher_128 =
    159 ∷ 176 ∷ 208 ∷ 212 ∷ 35 ∷ 125 ∷ 107 ∷ 42 ∷ 173 ∷ 163 ∷ 9 ∷ 33 ∷ 238 ∷ 168 ∷ 236 ∷ 80 ∷ 128
    ∷ 73 ∷ 129 ∷ 140 ∷ 23 ∷ 202 ∷ 145 ∷ 155 ∷ 21 ∷ []

-- ASCON-128-SIV.txt, count 301
known_128 : (ascon128_siv_encrypt message_128 header_3 key_16 key_16).c ≡ cipher_128
unfolding siv_encrypt siv_tag siv_crypt ofb siv_block xor_block_2_src bind_ad absorb absorb_blocks
    siv_init_128 siv_init_80pq siv_load close_128 close_128a close_80pq xor_block pad separator
    squeeze overwrite_bytes permute
known_128 = refl

abbrev message_128a : List ℕ
message_128a = 0 ∷ 1 ∷ 2 ∷ 3 ∷ 4 ∷ 5 ∷ 6 ∷ 7 ∷ 8 ∷ 9 ∷ 10 ∷ 11 ∷ 12 ∷ 13 ∷ 14 ∷ 15 ∷ 16 ∷ []

abbrev cipher_128a : List ℕ
cipher_128a =
    89 ∷ 149 ∷ 191 ∷ 136 ∷ 38 ∷ 122 ∷ 138 ∷ 250 ∷ 92 ∷ 115 ∷ 101 ∷ 182 ∷ 75 ∷ 173 ∷ 155 ∷ 164 ∷ 47
    ∷ 79 ∷ 127 ∷ 112 ∷ 197 ∷ 68 ∷ 50 ∷ 79 ∷ 236 ∷ 111 ∷ 4 ∷ 46 ∷ 102 ∷ 248 ∷ 89 ∷ 143 ∷ 221 ∷ []

-- ASCON-128a-SIV.txt, count 565
known_128a : (ascon128a_siv_encrypt message_128a header_3 key_16 key_16).c ≡ cipher_128a
unfolding siv_encrypt siv_tag siv_crypt ofb siv_block xor_block_2_src bind_ad absorb absorb_blocks
    siv_init_128 siv_init_80pq siv_load close_128 close_128a close_80pq xor_block pad separator
    squeeze overwrite_bytes permute
known_128a = refl

abbrev message_80pq : List ℕ
message_80pq = 0 ∷ 1 ∷ 2 ∷ 3 ∷ 4 ∷ 5 ∷ 6 ∷ 7 ∷ 8 ∷ []

abbrev cipher_80pq : List ℕ
cipher_80pq =
    152 ∷ 125 ∷ 82 ∷ 151 ∷ 125 ∷ 63 ∷ 223 ∷ 209 ∷ 93 ∷ 184 ∷ 117 ∷ 164 ∷ 37 ∷ 205 ∷ 180 ∷ 14 ∷ 14
    ∷ 119 ∷ 232 ∷ 102 ∷ 3 ∷ 146 ∷ 105 ∷ 223 ∷ 40 ∷ []

-- ASCON-80pq-SIV.txt, count 301
known_80pq : (ascon80pq_siv_encrypt message_80pq header_3 key_16 key_20).c ≡ cipher_80pq
unfolding siv_encrypt siv_tag siv_crypt ofb siv_block xor_block_2_src bind_ad absorb absorb_blocks
    siv_init_128 siv_init_80pq siv_load close_128 close_128a close_80pq xor_block pad separator
    squeeze overwrite_bytes permute
known_80pq = refl

siv_decrypt-encrypt_example :
    siv_decrypt siv128
      (siv_encrypt siv128 message_128 header_3 key_16 key_16).c
      header_3
      key_16
      key_16
    ≡ opened 0 (length message_128) message_128
siv_decrypt-encrypt_example =
    siv_decrypt-encrypt siv128 header_3 key_16 key_16 (omega arith) message_128 (omega arith)

siv_decrypt_cases_example :
    (length cipher_128a < 16) × (siv_decrypt siv128a cipher_128a header_3 key_16 key_16 ≡ too_short)
    ⊎ (((m : List ℕ) × ((siv_encrypt siv128a m header_3 key_16 key_16).c ≡ cipher_128a)
          × (siv_decrypt siv128a cipher_128a header_3 key_16 key_16 ≡ opened 0 (length m) m))
        ⊎ ((16 ≤ length cipher_128a)
            × ((m : List ℕ) → (siv_encrypt siv128a m header_3 key_16 key_16).c ≢ cipher_128a)
            × (siv_decrypt siv128a cipher_128a header_3 key_16 key_16
                ≡ opened minus_one
                    (length cipher_128a - 16)
                    (replicate (length cipher_128a - 16) 0))))
siv_decrypt_cases_example =
    siv_decrypt_cases siv128a header_3 key_16 key_16 (omega arith) cipher_128a (omega arith)

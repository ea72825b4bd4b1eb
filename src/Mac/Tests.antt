-- ===== src/Mac/Tests.antt =====
-- Known answers from test/kat, and the theorems on the keyed functions.
use ascon_suite_tcc.Base.{ℕ, ◌≡◌, ◌≢◌, ◌⊎◌, arith, refl, List, [], ◌∷◌}
use ascon_suite_tcc.Core.Word.{be_store_word32}
use ascon_suite_tcc.Core.Permutation.{permute}
use ascon_suite_tcc.Core.Snp.{xor_block, separator}
use ascon_suite_tcc.Core.Snp
use ascon_suite_tcc.Aead.Common.{absorb_blocks}
use ascon_suite_tcc.Aead.Incremental.Packet.{flatten}
use ascon_suite_tcc.Hash.Xof.{
  absorb_custom, absorb, sponge_absorb, absorb_left_over, absorb_aligned, squeeze,
  squeeze_left_over, squeeze_aligned, squeeze_blocks, squeeze_a, squeeze_left_over_a,
  squeeze_aligned_a, squeeze_blocks_a,
}
use ascon_suite_tcc.Hash.Xof.Init.{xof_flavour, xofa_flavour, hash_init}
use ascon_suite_tcc.Hash.Xof.Pieces.{absorb_pieces, squeeze_pieces, total}
use ascon_suite_tcc.Mac.Kmac.{
  kmac_init, kmac, ascon_kmac, ascon_kmaca, ascon_kmac_init, ascon_kmaca_init,
}
use ascon_suite_tcc.Mac.Hmac.{
  ascon_hmac, ascon_hmaca, ascon_hmac_init, ascon_hmac_finalize, ascon_hmaca_init,
  ascon_hmaca_finalize, xor_pad, absorb_chunks, absorb_padding, absorb_key, hmac_init,
  hmac_finalize, hmac,
}
use ascon_suite_tcc.Mac.Hmac.Laws.{rfc_hmac, hmac_pieces}
use ascon_suite_tcc.Aead.Tag.{minus_one}
use ascon_suite_tcc.Mac.Prf.{
  ascon_prf, ascon_prf_fixed, ascon_prf_fixed_init, ascon_prf_absorb, ascon_prf_squeeze,
  ascon_prf_short, ascon_mac, ascon_mac_verify,
}
use ascon_suite_tcc.Mac.Prf.Laws.{prf_pieces, prf_pieces_lem, ascon_mac_verify_cases}
use ascon_suite_tcc.Mac.Kmac.Laws.{kmac_of, kmac_pieces}

abbrev key_32 : List ℕ
key_32 =
    0 ∷ 1 ∷ 2 ∷ 3 ∷ 4 ∷ 5 ∷ 6 ∷ 7 ∷ 8 ∷ 9 ∷ 10 ∷ 11 ∷ 12 ∷ 13 ∷ 14 ∷ 15 ∷ 16 ∷ 17 ∷ 18 ∷ 19 ∷ 20
    ∷ 21 ∷ 22 ∷ 23 ∷ 24 ∷ 25 ∷ 26 ∷ 27 ∷ 28 ∷ 29 ∷ 30 ∷ 31 ∷ []

abbrev message_8 : List ℕ
message_8 = 0 ∷ 1 ∷ 2 ∷ 3 ∷ 4 ∷ 5 ∷ 6 ∷ 7 ∷ []

abbrev custom_3 : List ℕ
custom_3 = 0 ∷ 1 ∷ 2 ∷ []

abbrev tag_kmac : List ℕ
tag_kmac =
    130 ∷ 93 ∷ 137 ∷ 89 ∷ 129 ∷ 49 ∷ 115 ∷ 31 ∷ 41 ∷ 100 ∷ 35 ∷ 31 ∷ 213 ∷ 113 ∷ 3 ∷ 242 ∷ 98 ∷ 238
    ∷ 20 ∷ 39 ∷ 212 ∷ 111 ∷ 142 ∷ 105 ∷ 126 ∷ 93 ∷ 25 ∷ 241 ∷ 66 ∷ 169 ∷ 178 ∷ 215 ∷ []

-- ASCON-KMAC.txt, count 268
known_kmac : ascon_kmac key_32 message_8 custom_3 32 ≡ tag_kmac
unfolding kmac kmac_init absorb_custom absorb sponge_absorb absorb_left_over absorb_aligned
    absorb_blocks xor_block squeeze squeeze_left_over squeeze_aligned squeeze_blocks squeeze_a
    squeeze_left_over_a squeeze_aligned_a squeeze_blocks_a Snp.squeeze Snp.pad separator permute
known_kmac = refl

abbrev tag_kmaca : List ℕ
tag_kmaca =
    114 ∷ 172 ∷ 110 ∷ 197 ∷ 189 ∷ 146 ∷ 125 ∷ 184 ∷ 226 ∷ 247 ∷ 81 ∷ 50 ∷ 131 ∷ 9 ∷ 206 ∷ 91 ∷ 207
    ∷ 99 ∷ 208 ∷ 168 ∷ 230 ∷ 83 ∷ 116 ∷ 28 ∷ 150 ∷ 254 ∷ 80 ∷ 255 ∷ 141 ∷ 97 ∷ 197 ∷ 230 ∷ []

-- ASCON-KMACA.txt, count 268
known_kmaca : ascon_kmaca key_32 message_8 custom_3 32 ≡ tag_kmaca
unfolding kmac kmac_init absorb_custom absorb sponge_absorb absorb_left_over absorb_aligned
    absorb_blocks xor_block squeeze squeeze_left_over squeeze_aligned squeeze_blocks squeeze_a
    squeeze_left_over_a squeeze_aligned_a squeeze_blocks_a Snp.squeeze Snp.pad separator permute
known_kmaca = refl

abbrev pieces : List (List ℕ)
pieces = custom_3 ∷ [] ∷ message_8 ∷ []

abbrev lengths : List ℕ
lengths = 7 ∷ 0 ∷ 9 ∷ []

kmac_pieces_example :
    (squeeze_pieces squeeze
        (absorb_pieces 0 (ascon_kmac_init key_32 custom_3 (total lengths)) pieces)
        lengths
      ≡ kmac_of xof_flavour key_32 (flatten pieces) custom_3 (total lengths))
    × (ascon_kmac key_32 (flatten pieces) custom_3 (total lengths)
        ≡ kmac_of xof_flavour key_32 (flatten pieces) custom_3 (total lengths))
    × (squeeze_pieces squeeze_a
          (absorb_pieces 4 (ascon_kmaca_init key_32 custom_3 (total lengths)) pieces)
          lengths
        ≡ kmac_of xofa_flavour key_32 (flatten pieces) custom_3 (total lengths))
    × (ascon_kmaca key_32 (flatten pieces) custom_3 (total lengths)
        ≡ kmac_of xofa_flavour key_32 (flatten pieces) custom_3 (total lengths))
kmac_pieces_example = kmac_pieces key_32 custom_3 pieces lengths

abbrev tag_hmac : List ℕ
tag_hmac =
    219 ∷ 127 ∷ 166 ∷ 246 ∷ 15 ∷ 218 ∷ 220 ∷ 156 ∷ 225 ∷ 183 ∷ 196 ∷ 9 ∷ 176 ∷ 219 ∷ 253 ∷ 43 ∷ 109
    ∷ 230 ∷ 73 ∷ 9 ∷ 189 ∷ 209 ∷ 173 ∷ 66 ∷ 2 ∷ 152 ∷ 234 ∷ 15 ∷ 88 ∷ 138 ∷ 212 ∷ 141 ∷ []

-- ASCON-HMAC.txt, count 3
known_hmac : ascon_hmac key_32 (0 ∷ 1 ∷ []) ≡ tag_hmac
unfolding xor_pad absorb_chunks absorb_padding absorb_key hmac_init hmac_finalize hmac absorb
    sponge_absorb absorb_left_over absorb_aligned absorb_blocks xor_block squeeze squeeze_left_over
    squeeze_aligned squeeze_blocks squeeze_a squeeze_left_over_a squeeze_aligned_a squeeze_blocks_a
    Snp.squeeze Snp.pad separator permute hash_init
known_hmac = refl

abbrev tag_hmaca : List ℕ
tag_hmaca =
    196 ∷ 181 ∷ 168 ∷ 235 ∷ 188 ∷ 121 ∷ 78 ∷ 31 ∷ 190 ∷ 23 ∷ 101 ∷ 60 ∷ 31 ∷ 250 ∷ 111 ∷ 24 ∷ 132
    ∷ 164 ∷ 36 ∷ 60 ∷ 63 ∷ 184 ∷ 81 ∷ 255 ∷ 108 ∷ 193 ∷ 58 ∷ 157 ∷ 187 ∷ 61 ∷ 28 ∷ 149 ∷ []

-- ASCON-HMACA.txt, count 3
known_hmaca : ascon_hmaca key_32 (0 ∷ 1 ∷ []) ≡ tag_hmaca
unfolding xor_pad absorb_chunks absorb_padding absorb_key hmac_init hmac_finalize hmac absorb
    sponge_absorb absorb_left_over absorb_aligned absorb_blocks xor_block squeeze squeeze_left_over
    squeeze_aligned squeeze_blocks squeeze_a squeeze_left_over_a squeeze_aligned_a squeeze_blocks_a
    Snp.squeeze Snp.pad separator permute hash_init
known_hmaca = refl

hmac_pieces_example :
    ((ascon_hmac_finalize (absorb_pieces 0 (ascon_hmac_init key_32) pieces) key_32).out
      ≡ rfc_hmac xof_flavour key_32 (flatten pieces))
    × ((ascon_hmaca_finalize (absorb_pieces 4 (ascon_hmaca_init key_32) pieces) key_32).out
        ≡ rfc_hmac xofa_flavour key_32 (flatten pieces))
hmac_pieces_example = hmac_pieces key_32 pieces

abbrev key_16 : List ℕ
key_16 = 0 ∷ 1 ∷ 2 ∷ 3 ∷ 4 ∷ 5 ∷ 6 ∷ 7 ∷ 8 ∷ 9 ∷ 10 ∷ 11 ∷ 12 ∷ 13 ∷ 14 ∷ 15 ∷ []

abbrev message_40 : List ℕ
message_40 =
    0 ∷ 1 ∷ 2 ∷ 3 ∷ 4 ∷ 5 ∷ 6 ∷ 7 ∷ 8 ∷ 9 ∷ 10 ∷ 11 ∷ 12 ∷ 13 ∷ 14 ∷ 15 ∷ 16 ∷ 17 ∷ 18 ∷ 19 ∷ 20
    ∷ 21 ∷ 22 ∷ 23 ∷ 24 ∷ 25 ∷ 26 ∷ 27 ∷ 28 ∷ 29 ∷ 30 ∷ 31 ∷ 32 ∷ 33 ∷ 34 ∷ 35 ∷ 36 ∷ 37 ∷ 38 ∷ 39
    ∷ []

abbrev tag_prf : List ℕ
tag_prf =
    120 ∷ 142 ∷ 67 ∷ 150 ∷ 230 ∷ 249 ∷ 4 ∷ 215 ∷ 29 ∷ 217 ∷ 118 ∷ 56 ∷ 130 ∷ 23 ∷ 200 ∷ 27 ∷ []

-- ASCON-Prf.txt, count 41
known_prf : ascon_prf 16 message_40 key_16 ≡ tag_prf
unfolding ascon_prf Snp.overwrite_bytes be_store_word32 sponge_absorb absorb_left_over
    absorb_aligned absorb_blocks ascon_prf_absorb ascon_prf_squeeze ascon_prf_fixed_init xor_block
    squeeze_left_over squeeze_aligned squeeze_blocks Snp.squeeze Snp.pad separator permute
known_prf = refl

abbrev tag_mac : List ℕ
tag_mac =
    71 ∷ 110 ∷ 174 ∷ 197 ∷ 172 ∷ 96 ∷ 132 ∷ 151 ∷ 101 ∷ 1 ∷ 68 ∷ 110 ∷ 175 ∷ 97 ∷ 128 ∷ 181 ∷ []

-- ASCON-Mac.txt, count 41
known_mac : ascon_mac message_40 key_16 ≡ tag_mac
unfolding ascon_mac Snp.overwrite_bytes be_store_word32 sponge_absorb absorb_left_over
    absorb_aligned absorb_blocks ascon_prf_absorb ascon_prf_squeeze ascon_prf_fixed_init xor_block
    squeeze_left_over squeeze_aligned squeeze_blocks Snp.squeeze Snp.pad separator permute
known_mac = refl

abbrev tag_short : List ℕ
tag_short =
    119 ∷ 21 ∷ 207 ∷ 25 ∷ 95 ∷ 179 ∷ 88 ∷ 23 ∷ 186 ∷ 36 ∷ 164 ∷ 128 ∷ 109 ∷ 17 ∷ 115 ∷ 175 ∷ []

-- ASCON-PrfShort.txt, count 4
known_short : ascon_prf_short 16 custom_3 key_16 ≡ (0, tag_short)
unfolding ascon_prf_short Snp.overwrite_bytes xor_block Snp.squeeze permute
known_short = refl

prf_pieces_lem_example :
    ((ascon_prf_squeeze (prf_pieces (ascon_prf_fixed_init key_16 0) pieces) 40).out
      ≡ ascon_prf 40 (flatten pieces) key_16)
    × ((ascon_prf_squeeze (prf_pieces (ascon_prf_fixed_init key_16 40) pieces) 40).out
        ≡ ascon_prf_fixed 40 (flatten pieces) key_16)
    × ((ascon_prf_squeeze (prf_pieces (ascon_prf_fixed_init key_16 16) pieces) 16).out
        ≡ ascon_mac (flatten pieces) key_16)
prf_pieces_lem_example = prf_pieces_lem key_16 pieces 40

ascon_mac_verify_cases_example :
    (tag_mac ≡ ascon_mac message_40 key_16) × (ascon_mac_verify tag_mac message_40 key_16 ≡ 0)
    ⊎ (tag_mac ≢ ascon_mac message_40 key_16)
      × (ascon_mac_verify tag_mac message_40 key_16 ≡ minus_one)
ascon_mac_verify_cases_example = ascon_mac_verify_cases tag_mac message_40 key_16 (omega arith) refl

-- ===== src/Hash/Tests.antt =====
-- Known answers from test/kat, and the theorems on the hash functions at concrete states.
use ascon_suite_tcc.Base.{ℕ, ◌≡◌, refl, arith, List, [], ◌∷◌, ◌++◌}
use ascon_suite_tcc.Core.Permutation.{permute}
use ascon_suite_tcc.Core.Snp.{encrypt_byte, xor_block}
use ascon_suite_tcc.Core.Snp
use ascon_suite_tcc.Aead.Common.{absorb_blocks}
use ascon_suite_tcc.Aead.Stream.{stream}
use ascon_suite_tcc.Aead.Incremental.Packet.{flatten}
use ascon_suite_tcc.Hash.Xof.{
  Xof, absorb, sponge_absorb, absorb_left_over, absorb_aligned, squeeze, squeeze_left_over,
  squeeze_aligned, squeeze_blocks, squeeze_a, squeeze_left_over_a, squeeze_aligned_a,
  squeeze_blocks_a,
}
use ascon_suite_tcc.Hash.Xof.Sponge.{absorbing}
use ascon_suite_tcc.Hash.Xof.Stream.{absorb-eq-stream}
use ascon_suite_tcc.Hash.Xof.Emit.{emit, turn_xof, turn_xofa}
use ascon_suite_tcc.Hash.Xof.Emit.Refine.{squeezed, squeezing, squeeze-eq-emit}
use ascon_suite_tcc.Hash.Xof.Emit.RefineA.{squeezing_a, squeeze_a-eq-emit}
use ascon_suite_tcc.Hash.Xof.Init.{
  xof_flavour, xofa_flavour, limit_outlen, init, init_permuted, init_fixed, hash_init, one_shot,
  hash,
}
use ascon_suite_tcc.Hash.Xof.Init.Laws.{init_fixed_lem}
use ascon_suite_tcc.Hash.Xof.Pieces.{absorb_pieces, squeeze_pieces, total, xof_pieces}
use ascon_suite_tcc.Hash.Api.{ascon_hash, ascon_hasha, ascon_xof, ascon_xofa}

abbrev message_9 : List ℕ
message_9 = 0 ∷ 1 ∷ 2 ∷ 3 ∷ 4 ∷ 5 ∷ 6 ∷ 7 ∷ 8 ∷ []

abbrev digest_hash : List ℕ
digest_hash =
    30 ∷ 30 ∷ 113 ∷ 13 ∷ 8 ∷ 167 ∷ 130 ∷ 99 ∷ 119 ∷ 51 ∷ 49 ∷ 120 ∷ 38 ∷ 33 ∷ 8 ∷ 140 ∷ 169 ∷ 254
    ∷ 46 ∷ 228 ∷ 245 ∷ 150 ∷ 240 ∷ 108 ∷ 143 ∷ 120 ∷ 132 ∷ 202 ∷ 86 ∷ 74 ∷ 206 ∷ 193 ∷ []

-- ASCON-HASH.txt, count 10
known_hash : ascon_hash message_9 ≡ digest_hash
unfolding hash hash_init absorb sponge_absorb absorb_left_over absorb_aligned absorb_blocks
    xor_block squeeze squeeze_left_over squeeze_aligned squeeze_blocks squeeze_a squeeze_left_over_a
    squeeze_aligned_a squeeze_blocks_a Snp.squeeze Snp.pad permute
known_hash = refl

abbrev digest_hasha : List ℕ
digest_hasha =
    125 ∷ 62 ∷ 158 ∷ 54 ∷ 181 ∷ 134 ∷ 90 ∷ 135 ∷ 77 ∷ 188 ∷ 127 ∷ 147 ∷ 115 ∷ 251 ∷ 24 ∷ 79 ∷ 167
    ∷ 34 ∷ 169 ∷ 77 ∷ 211 ∷ 238 ∷ 4 ∷ 97 ∷ 43 ∷ 83 ∷ 99 ∷ 201 ∷ 73 ∷ 181 ∷ 8 ∷ 155 ∷ []

-- ASCON-HASHA.txt, count 10
known_hasha : ascon_hasha message_9 ≡ digest_hasha
unfolding hash hash_init absorb sponge_absorb absorb_left_over absorb_aligned absorb_blocks
    xor_block squeeze squeeze_left_over squeeze_aligned squeeze_blocks squeeze_a squeeze_left_over_a
    squeeze_aligned_a squeeze_blocks_a Snp.squeeze Snp.pad permute
known_hasha = refl

abbrev digest_xof : List ℕ
digest_xof =
    206 ∷ 96 ∷ 110 ∷ 63 ∷ 252 ∷ 238 ∷ 83 ∷ 177 ∷ 19 ∷ 170 ∷ 90 ∷ 92 ∷ 163 ∷ 161 ∷ 99 ∷ 118 ∷ 163
    ∷ 222 ∷ 54 ∷ 67 ∷ 82 ∷ 135 ∷ 93 ∷ 51 ∷ 96 ∷ 225 ∷ 49 ∷ 102 ∷ 106 ∷ 86 ∷ 114 ∷ 72 ∷ []

-- ASCON-XOF.txt, count 10
known_xof : ascon_xof message_9 ≡ digest_xof
unfolding one_shot init absorb sponge_absorb absorb_left_over absorb_aligned absorb_blocks xor_block
    squeeze squeeze_left_over squeeze_aligned squeeze_blocks squeeze_a squeeze_left_over_a
    squeeze_aligned_a squeeze_blocks_a Snp.squeeze Snp.pad permute
known_xof = refl

abbrev digest_xofa : List ℕ
digest_xofa =
    126 ∷ 121 ∷ 118 ∷ 143 ∷ 55 ∷ 210 ∷ 19 ∷ 177 ∷ 27 ∷ 65 ∷ 147 ∷ 225 ∷ 214 ∷ 45 ∷ 51 ∷ 153 ∷ 84
    ∷ 163 ∷ 185 ∷ 225 ∷ 108 ∷ 206 ∷ 240 ∷ 95 ∷ 213 ∷ 116 ∷ 225 ∷ 51 ∷ 6 ∷ 104 ∷ 182 ∷ 40 ∷ []

-- ASCON-XOFA.txt, count 10
known_xofa : ascon_xofa message_9 ≡ digest_xofa
unfolding one_shot init absorb sponge_absorb absorb_left_over absorb_aligned absorb_blocks xor_block
    squeeze squeeze_left_over squeeze_aligned squeeze_blocks squeeze_a squeeze_left_over_a
    squeeze_aligned_a squeeze_blocks_a Snp.squeeze Snp.pad permute
known_xofa = refl

-- three bytes into a block
abbrev inside : Xof
inside = record { state = message_9 ++ Snp.init; count = 3; mode = 0 }

abbrev squeezing_inside : Xof
squeezing_inside = record { state = message_9 ++ Snp.init; count = 3; mode = 1 }

abbrev pieces : List (List ℕ)
pieces = message_9 ∷ [] ∷ (1 ∷ 2 ∷ []) ∷ []

abbrev lengths : List ℕ
lengths = 3 ∷ 0 ∷ 17 ∷ 5 ∷ []

absorb-eq-stream_example :
    let st' = absorbing squeezing_inside in
    let r = stream 8 4 encrypt_byte st'.state message_9 st'.count in
    absorb 4 squeezing_inside message_9 ≡ record st' { state = r.state; count = r.posn }
absorb-eq-stream_example = absorb-eq-stream 4 squeezing_inside message_9 (omega arith)

squeeze-eq-emit_example :
    let st' = squeezing inside in
    squeeze inside 21 ≡ squeezed st' (emit turn_xof st'.state st'.count 21)
squeeze-eq-emit_example = squeeze-eq-emit inside 21 (omega arith)

squeeze_a-eq-emit_example :
    let st' = squeezing_a squeezing_inside in
    squeeze_a squeezing_inside 21 ≡ squeezed st' (emit turn_xofa st'.state st'.count 21)
squeeze_a-eq-emit_example = squeeze_a-eq-emit squeezing_inside 21 (omega arith)

xof_pieces_example :
    squeeze_pieces squeeze (absorb_pieces 0 inside pieces) lengths
    ≡ (squeeze (absorb 0 inside (flatten pieces)) (total lengths)).out
xof_pieces_example = xof_pieces inside pieces lengths (omega arith, refl)

init_fixed_lem_example :
    (init_fixed xof_flavour 64 ≡ init_permuted xof_flavour (limit_outlen 64))
    × (init_fixed xofa_flavour 64 ≡ init_permuted xofa_flavour (limit_outlen 64))
    × (hash_init xof_flavour ≡ init_permuted xof_flavour 32)
    × (hash_init xofa_flavour ≡ init_permuted xofa_flavour 32)
    × (init xof_flavour ≡ init_permuted xof_flavour 0)
    × (init xofa_flavour ≡ init_permuted xofa_flavour 0)
init_fixed_lem_example = init_fixed_lem 64

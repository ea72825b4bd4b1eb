-- ===== src/Core/Permutation/Tests.antt =====
-- Known answers of the permutation, from test/unit/test-permutation.c.
use ascon_suite_tcc.Base.{arith, get_or, ◌-◌, ℕ, List, [], ◌∷◌, ◌≡◌, refl}
use ascon_suite_tcc.Core.Permutation.{Words, permute, permute_words}
use ascon_suite_tcc.Core.Permutation.Rounds.{
  AreWords, column, sbox_layer, sbox_table, published_rounds,
}
use ascon_suite_tcc.Core.Permutation.Rounds.Sbox.{sbox_layer-column}
use ascon_suite_tcc.Core.Permutation.Rounds.Laws.{permute_words-published_rounds}

abbrev permutation_input : List ℕ
permutation_input =
    0 ∷ 1 ∷ 2 ∷ 3 ∷ 4 ∷ 5 ∷ 6 ∷ 7 ∷ 8 ∷ 9 ∷ 10 ∷ 11 ∷ 12 ∷ 13 ∷ 14 ∷ 15 ∷ 16 ∷ 17 ∷ 18 ∷ 19 ∷ 20
    ∷ 21 ∷ 22 ∷ 23 ∷ 24 ∷ 25 ∷ 26 ∷ 27 ∷ 28 ∷ 29 ∷ 30 ∷ 31 ∷ 32 ∷ 33 ∷ 34 ∷ 35 ∷ 36 ∷ 37 ∷ 38 ∷ 39
    ∷ []

abbrev permutation_output_12 : List ℕ
permutation_output_12 =
    6 ∷ 5 ∷ 135 ∷ 226 ∷ 212 ∷ 137 ∷ 221 ∷ 67 ∷ 28 ∷ 194 ∷ 177 ∷ 123 ∷ 14 ∷ 60 ∷ 23 ∷ 100 ∷ 149 ∷ 115
    ∷ 66 ∷ 83 ∷ 24 ∷ 68 ∷ 166 ∷ 116 ∷ 150 ∷ 177 ∷ 113 ∷ 117 ∷ 180 ∷ 203 ∷ 104 ∷ 99 ∷ 41 ∷ 181 ∷ 18
    ∷ 214 ∷ 39 ∷ 217 ∷ 6 ∷ 229 ∷ []

abbrev permutation_output_8 : List ℕ
permutation_output_8 =
    131 ∷ 13 ∷ 38 ∷ 13 ∷ 51 ∷ 95 ∷ 59 ∷ 237 ∷ 218 ∷ 11 ∷ 186 ∷ 145 ∷ 123 ∷ 207 ∷ 202 ∷ 215 ∷ 221
    ∷ 13 ∷ 136 ∷ 231 ∷ 220 ∷ 181 ∷ 236 ∷ 208 ∷ 137 ∷ 42 ∷ 2 ∷ 21 ∷ 31 ∷ 149 ∷ 148 ∷ 110 ∷ 58 ∷ 105
    ∷ 203 ∷ 60 ∷ 249 ∷ 130 ∷ 246 ∷ 247 ∷ []

-- twelve rounds
permute_known_12 : permute permutation_input 0 ≡ permutation_output_12
unfolding permute
permute_known_12 = refl

-- eight rounds
permute_known_8 : permute permutation_input 4 ≡ permutation_output_8
unfolding permute
permute_known_8 = refl

abbrev five_words : Words
five_words = record {
  x0 = 0x80400c0600000000;
  x1 = 0x0001020304050607;
  x2 = 0x08090a0b0c0d0e0f;
  x3 = 0xffffffffffffffff;
  x4 = 1;
}

five_words-AreWords : AreWords five_words
five_words-AreWords = record {
  h0 = omega arith;
  h1 = omega arith;
  h2 = omega arith;
  h3 = omega arith;
  h4 = omega arith;
}

sbox_layer-column_example :
    column (sbox_layer five_words) 63 ≡ get_or sbox_table (column five_words 63) 0
sbox_layer-column_example = sbox_layer-column five_words 63 five_words-AreWords (omega arith)

permute_words-published_rounds_example :
    (permute_words five_words 4 ≡ published_rounds (12 - 4) 4 five_words)
    × AreWords (permute_words five_words 4)
permute_words-published_rounds_example =
    permute_words-published_rounds five_words 4 five_words-AreWords (omega arith)

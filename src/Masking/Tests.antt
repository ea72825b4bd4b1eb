-- ===== src/Masking/Tests.antt =====
-- Tests and examples of the masked words, states and keys, with a generator of numbers as a concrete
-- random number generator.
use ascon_suite_tcc.Base.{ℕ, ◌+◌, ◌*◌, ◌%◌, ◌^◌, ◌≡◌, refl, arith, List, [], ◌∷◌}
use ascon_suite_tcc.Base.Bytes.{IsBytes}
use ascon_suite_tcc.Core.Word.{right_rotate_64, not64, be_store_word64, be_load_word64}
use ascon_suite_tcc.Core.Word.Bits.{IsWord}
use ascon_suite_tcc.Core.Word.Symbolic.{words}
use ascon_suite_tcc.Core.Permutation.{permute, permute_words, diffuse_word, round_constant}
use ascon_suite_tcc.Masking.Word.{Masked, IsMasked, value2, value3, value4}
use ascon_suite_tcc.Masking.Permute.{
  masked_permute, masked_rounds, masked_diffuse, masked_substitute,
}
use ascon_suite_tcc.Masking.Permute.Laws.{AllShares, words_of}
use ascon_suite_tcc.Masking.Shares.{
  each4, both4, and_not_xor4, fresh4, advance4, Preserve, IsPreserve, MaskedState, x2_permute,
  x3_permute, x4_permute,
}
use ascon_suite_tcc.Masking.Operations.Two.{ops2}
use ascon_suite_tcc.Masking.Operations.Three.{ops3}
use ascon_suite_tcc.Masking.Operations.Four.{ops4, store4, load4, draw4}
use ascon_suite_tcc.Masking.Operations.Four.Laws.{ops4-IsMaskedOps}
use ascon_suite_tcc.Masking.State.{
  for_each_word, copy_from_x1, copy_to_x1, x2_copy_from_x3, x2_copy_from_x4, x3_copy_from_x2,
  x3_copy_from_x4, x4_copy_from_x2, x4_copy_from_x3,
}
use ascon_suite_tcc.Masking.State.Laws.{
  StandsFor, copy-permute-copy, copies-StandsFor, permutes-StandsFor,
}
use ascon_suite_tcc.Masking.Key.{key_160_init, key_160_extract, key_160_randomize}
use ascon_suite_tcc.Masking.Key.Laws.{KeepsValue, key_160_roundtrip}
use ascon_suite_tcc.Masking.Key.Randomize.{x2_randomize_lem}

-- a random number generator whose state is the last word
abbrev next_word : ℕ → ℕ
next_word t = (t * 6364136223846793005 + 1442695040888963407) % 2 ^ 64

abbrev pub generate : ℕ → ℕ × ℕ
generate t = (next_word t, next_word t)

pub generate-IsWord : (t : ℕ) → IsWord (generate t).0
generate-IsWord t = omega arith

abbrev pub masked : Masked ℕ
masked = record {
  s0 = 0x0123456789abcdef;
  s1 = 0xfedcba9876543210;
  s2 = 0x00ff00ff00ff00ff;
  s3 = 0x8000000000000001;
}

pub masked-IsMasked : IsMasked masked
masked-IsMasked = record {
  word0 = omega arith;
  word1 = omega arith;
  word2 = omega arith;
  word3 = omega arith;
}

abbrev state : MaskedState
state = record { x0 = masked; x1 = masked; x2 = masked; x3 = masked; x4 = masked }

state-AllShares : AllShares IsMasked state
state-AllShares = record {
  s0 = masked-IsMasked;
  s1 = masked-IsMasked;
  s2 = masked-IsMasked;
  s3 = masked-IsMasked;
  s4 = masked-IsMasked;
}

abbrev pub preserve : Preserve ℕ
preserve = record { p0 = 0x1122334455667788; p1 = 42; p2 = 0xffffffffffffffff }

pub preserve-IsPreserve : IsPreserve preserve
preserve-IsPreserve = record { word0 = omega arith; word1 = omega arith; word2 = omega arith }

permutes-StandsFor_example :
    StandsFor
      (value2 words)
      (x2_permute state 4 preserve).0
      (permute_words (words_of (value2 words) state) 4)
    × StandsFor
        (value3 words)
        (x3_permute state 4 preserve).0
        (permute_words (words_of (value3 words) state) 4)
    × StandsFor
        (value4 words)
        (x4_permute state 4 preserve).0
        (permute_words (words_of (value4 words) state) 4)
permutes-StandsFor_example = permutes-StandsFor state 4 preserve state-AllShares preserve-IsPreserve

copies-StandsFor_example :
    StandsFor (value2 words) (x2_copy_from_x3 generate state 1).0 (words_of (value3 words) state)
    × StandsFor (value2 words) (x2_copy_from_x4 generate state 1).0 (words_of (value4 words) state)
    × StandsFor (value3 words) (x3_copy_from_x2 generate state 1).0 (words_of (value2 words) state)
    × StandsFor (value3 words) (x3_copy_from_x4 generate state 1).0 (words_of (value4 words) state)
    × StandsFor (value4 words) (x4_copy_from_x2 generate state 1).0 (words_of (value2 words) state)
    × StandsFor (value4 words) (x4_copy_from_x3 generate state 1).0 (words_of (value3 words) state)
copies-StandsFor_example = copies-StandsFor generate generate-IsWord state 1 state-AllShares

abbrev plain_state : List ℕ
plain_state =
    0 ∷ 1 ∷ 2 ∷ 3 ∷ 4 ∷ 5 ∷ 6 ∷ 7 ∷ 8 ∷ 9 ∷ 10 ∷ 11 ∷ 12 ∷ 13 ∷ 14 ∷ 15 ∷ 16 ∷ 17 ∷ 18 ∷ 19 ∷ 20
    ∷ 21 ∷ 22 ∷ 23 ∷ 24 ∷ 25 ∷ 26 ∷ 27 ∷ 28 ∷ 29 ∷ 30 ∷ 31 ∷ 32 ∷ 33 ∷ 34 ∷ 35 ∷ 36 ∷ 37 ∷ 38 ∷ 39
    ∷ []

plain_state-IsBytes : IsBytes plain_state
plain_state-IsBytes = (
  omega arith,
  (
    omega arith,
    (
      omega arith,
      (
        omega arith,
        (
          omega arith,
          (
            omega arith,
            (
              omega arith,
              (
                omega arith,
                (
                  omega arith,
                  (
                    omega arith,
                    (
                      omega arith,
                      (
                        omega arith,
                        (
                          omega arith,
                          (
                            omega arith,
                            (
                              omega arith,
                              (
                                omega arith,
                                (
                                  omega arith,
                                  (
                                    omega arith,
                                    (
                                      omega arith,
                                      (
                                        omega arith,
                                        (
                                          omega arith,
                                          (
                                            omega arith,
                                            (
                                              omega arith,
                                              (
                                                omega arith,
                                                (
                                                  omega arith,
                                                  (
                                                    omega arith,
                                                    (
                                                      omega arith,
                                                      (
                                                        omega arith,
                                                        (
                                                          omega arith,
                                                          (
                                                            omega arith,
                                                            (
                                                            omega arith,
                                                            (
                                                            omega arith,
                                                            (
                                                            omega arith,
                                                            (
                                                            omega arith,
                                                            (
                                                            omega arith,
                                                            (
                                                            omega arith,
                                                            (
                                                            omega arith,
                                                            (
                                                            omega arith,
                                                            (omega arith, (omega arith, tt)),
                                                            ),
                                                            ),
                                                            ),
                                                            ),
                                                            ),
                                                            ),
                                                            ),
                                                            ),
                                                          ),
                                                        ),
                                                      ),
                                                    ),
                                                  ),
                                                ),
                                              ),
                                            ),
                                          ),
                                        ),
                                      ),
                                    ),
                                  ),
                                ),
                              ),
                            ),
                          ),
                        ),
                      ),
                    ),
                  ),
                ),
              ),
            ),
          ),
        ),
      ),
    ),
  ),
)

copy-permute-copy_example :
    (copy_to_x1
        (ops2 generate)
        (x2_permute (copy_from_x1 (ops2 generate) plain_state 7).0 6 preserve).0
      ≡ permute plain_state 6)
    × (copy_to_x1
          (ops3 generate)
          (x3_permute (copy_from_x1 (ops3 generate) plain_state 7).0 6 preserve).0
        ≡ permute plain_state 6)
    × (copy_to_x1
          (ops4 generate)
          (x4_permute (copy_from_x1 (ops4 generate) plain_state 7).0 6 preserve).0
        ≡ permute plain_state 6)
copy-permute-copy_example =
    copy-permute-copy generate generate-IsWord plain_state 6 preserve 7 plain_state-IsBytes
      preserve-IsPreserve

abbrev key_20 : List ℕ
key_20 =
    1 ∷ 2 ∷ 3 ∷ 4 ∷ 5 ∷ 6 ∷ 7 ∷ 8 ∷ 9 ∷ 10 ∷ 11 ∷ 12 ∷ 13 ∷ 14 ∷ 15 ∷ 255 ∷ 200 ∷ 201 ∷ 202 ∷ 203
    ∷ []

key_20-IsBytes : IsBytes key_20
key_20-IsBytes = (
  omega arith,
  (
    omega arith,
    (
      omega arith,
      (
        omega arith,
        (
          omega arith,
          (
            omega arith,
            (
              omega arith,
              (
                omega arith,
                (
                  omega arith,
                  (
                    omega arith,
                    (
                      omega arith,
                      (
                        omega arith,
                        (
                          omega arith,
                          (
                            omega arith,
                            (
                              omega arith,
                              (
                                omega arith,
                                (omega arith, (omega arith, (omega arith, (omega arith, tt)))),
                              ),
                            ),
                          ),
                        ),
                      ),
                    ),
                  ),
                ),
              ),
            ),
          ),
        ),
      ),
    ),
  ),
)

x2_keeps_value4 : KeepsValue (value4 words) ((ops2 generate).randomize)
x2_keeps_value4 m t h = let all = x2_randomize_lem generate m t generate-IsWord h in (all.0, all.3)

key_160_roundtrip_example :
    key_160_extract
      (ops4 generate)
      (key_160_randomize ((ops2 generate).randomize) (key_160_init (ops4 generate) key_20 5).0 9).0
    ≡ key_20
key_160_roundtrip_example =
    key_160_roundtrip (value4 words) (ops4 generate) (ops4-IsMaskedOps generate generate-IsWord)
      ((ops2 generate).randomize) key_20 5 9 x2_keeps_value4 key_20-IsBytes refl

x2_randomize_lem_example :
    IsMasked ((ops2 generate).randomize masked masked 3).0
    × (value2 words ((ops2 generate).randomize masked masked 3).0 ≡ value2 words masked)
    × (value3 words ((ops2 generate).randomize masked masked 3).0 ≡ value3 words masked)
    × (value4 words ((ops2 generate).randomize masked masked 3).0 ≡ value4 words masked)
    × (((ops2 generate).randomize masked masked 3).0.s2 ≡ masked.s2)
    × (((ops2 generate).randomize masked masked 3).0.s3 ≡ masked.s3)
x2_randomize_lem_example = x2_randomize_lem generate masked 3 generate-IsWord masked-IsMasked

-- four shares, all twelve rounds, of the known answer in test/unit/test-permutation.c
x4_known_12 :
    copy_to_x1
      (ops4 generate)
      ((ops4 generate).permute (copy_from_x1 (ops4 generate) plain_state 7).0 0 preserve).0
    ≡ 6 ∷ 5 ∷ 135 ∷ 226 ∷ 212 ∷ 137 ∷ 221 ∷ 67 ∷ 28 ∷ 194 ∷ 177 ∷ 123 ∷ 14 ∷ 60 ∷ 23 ∷ 100 ∷ 149
      ∷ 115 ∷ 66 ∷ 83 ∷ 24 ∷ 68 ∷ 166 ∷ 116 ∷ 150 ∷ 177 ∷ 113 ∷ 117 ∷ 180 ∷ 203 ∷ 104 ∷ 99 ∷ 41
      ∷ 181 ∷ 18 ∷ 214 ∷ 39 ∷ 217 ∷ 6 ∷ 229 ∷ []
unfolding copy_to_x1 copy_from_x1 for_each_word x4_permute store4 load4 draw4 be_store_word64
    be_load_word64 masked_permute masked_rounds masked_diffuse masked_substitute each4 both4
    and_not_xor4 fresh4 advance4 diffuse_word not64 round_constant right_rotate_64
x4_known_12 = refl

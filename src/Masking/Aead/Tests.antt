-- ===== src/Masking/Aead/Tests.antt =====
-- Examples of the masked modes, on the default build.
use ascon_suite_tcc.Base.{ℕ, ◌≡◌, refl, arith, List, [], ◌∷◌}
use ascon_suite_tcc.Base.Bytes.{IsBytes}
use ascon_suite_tcc.Core.Word.Symbolic.{words}
use ascon_suite_tcc.Aead.Oneshot.{aead_encrypt, aead_decrypt}
use ascon_suite_tcc.Aead.Variant.Ascon.Laws.{ascon128, ascon128a}
use ascon_suite_tcc.Masking.Word.{value2, value4}
use ascon_suite_tcc.Masking.Operations.Four.{ops4}
use ascon_suite_tcc.Masking.Key.{Key128, key_128_extract}
use ascon_suite_tcc.Masking.Key.Laws.{IsKey128}
use ascon_suite_tcc.Masking.Tests.{
  generate, generate-IsWord, masked, masked-IsMasked, preserve, preserve-IsPreserve,
}
use ascon_suite_tcc.Masking.Aead.Modes.{
  default_build, masked_128, masked_128a, masked_aead_encrypt, masked_aead_decrypt,
}
use ascon_suite_tcc.Masking.Aead.Modes.Refine.{
  masked_aead_encrypt-eq-aead_encrypt, masked_aead_decrypt-eq-aead_decrypt,
}
use ascon_suite_tcc.Masking.Aead.Modes.Default.{default-IsMaskedBuild}

abbrev masked_key : Key128
masked_key = record { k0 = masked; k1 = masked }

masked_key-IsKey128 : IsKey128 masked_key
masked_key-IsKey128 = record { m0 = masked-IsMasked; m1 = masked-IsMasked }

abbrev nonce : List ℕ
nonce = 0 ∷ 7 ∷ 14 ∷ 21 ∷ 28 ∷ 35 ∷ 42 ∷ 49 ∷ 56 ∷ 63 ∷ 70 ∷ 77 ∷ 84 ∷ 91 ∷ 98 ∷ 105 ∷ []

nonce-IsBytes : IsBytes nonce
nonce-IsBytes = (
  omega arith,
  (
    omega arith,
    (
      omega arith,
      (
        omega arith,
        (
          omega arith,
          (
            omega arith,
            (
              omega arith,
              (
                omega arith,
                (
                  omega arith,
                  (
                    omega arith,
                    (
                      omega arith,
                      (omega arith, (omega arith, (omega arith, (omega arith, (omega arith, tt))))),
                    ),
                  ),
                ),
              ),
            ),
          ),
        ),
      ),
    ),
  ),
)

abbrev header : List ℕ
header = 1 ∷ 2 ∷ 3 ∷ []

header-IsBytes : IsBytes header
header-IsBytes = (omega arith, (omega arith, (omega arith, tt)))

abbrev message : List ℕ
message =
    97 ∷ 98 ∷ 99 ∷ 100 ∷ 101 ∷ 102 ∷ 103 ∷ 104 ∷ 105 ∷ 106 ∷ 107 ∷ 108 ∷ 109 ∷ 110 ∷ 111 ∷ 112 ∷ 113
    ∷ 114 ∷ 115 ∷ []

message-IsBytes : IsBytes message
message-IsBytes = (
  omega arith,
  (
    omega arith,
    (
      omega arith,
      (
        omega arith,
        (
          omega arith,
          (
            omega arith,
            (
              omega arith,
              (
                omega arith,
                (
                  omega arith,
                  (
                    omega arith,
                    (
                      omega arith,
                      (
                        omega arith,
                        (
                          omega arith,
                          (
                            omega arith,
                            (
                              omega arith,
                              (omega arith, (omega arith, (omega arith, (omega arith, tt)))),
                            ),
                          ),
                        ),
                      ),
                    ),
                  ),
                ),
              ),
            ),
          ),
        ),
      ),
    ),
  ),
)

abbrev sealed_text : List ℕ
sealed_text =
    0 ∷ 37 ∷ 74 ∷ 111 ∷ 148 ∷ 185 ∷ 222 ∷ 3 ∷ 40 ∷ 77 ∷ 114 ∷ 151 ∷ 188 ∷ 225 ∷ 6 ∷ 43 ∷ 80 ∷ 117
    ∷ 154 ∷ 191 ∷ 228 ∷ []

sealed_text-IsBytes : IsBytes sealed_text
sealed_text-IsBytes = (
  omega arith,
  (
    omega arith,
    (
      omega arith,
      (
        omega arith,
        (
          omega arith,
          (
            omega arith,
            (
              omega arith,
              (
                omega arith,
                (
                  omega arith,
                  (
                    omega arith,
                    (
                      omega arith,
                      (
                        omega arith,
                        (
                          omega arith,
                          (
                            omega arith,
                            (
                              omega arith,
                              (
                                omega arith,
                                (
                                  omega arith,
                                  (omega arith, (omega arith, (omega arith, (omega arith, tt)))),
                                ),
                              ),
                            ),
                          ),
                        ),
                      ),
                    ),
                  ),
                ),
              ),
            ),
          ),
        ),
      ),
    ),
  ),
)

masked_aead_encrypt-eq-aead_encrypt_example :
    (masked_aead_encrypt
        (default_build generate)
        (masked_128 (default_build generate))
        preserve
        7
        message
        header
        nonce
        masked_key
      ≡ aead_encrypt ascon128 message header nonce (key_128_extract (ops4 generate) masked_key))
    × (masked_aead_encrypt
          (default_build generate)
          (masked_128a (default_build generate))
          preserve
          7
          message
          header
          nonce
          masked_key
        ≡ aead_encrypt ascon128a message header nonce (key_128_extract (ops4 generate) masked_key))
masked_aead_encrypt-eq-aead_encrypt_example =
    masked_aead_encrypt-eq-aead_encrypt (default_build generate) (value4 words) (value2 words)
      (default-IsMaskedBuild generate generate-IsWord) preserve 7 header nonce masked_key message
      preserve-IsPreserve header-IsBytes nonce-IsBytes refl masked_key-IsKey128 message-IsBytes

masked_aead_decrypt-eq-aead_decrypt_example :
    (masked_aead_decrypt
        (default_build generate)
        (masked_128 (default_build generate))
        preserve
        7
        sealed_text
        header
        nonce
        masked_key
      ≡ aead_decrypt ascon128 sealed_text header nonce (key_128_extract (ops4 generate) masked_key))
    × (masked_aead_decrypt
          (default_build generate)
          (masked_128a (default_build generate))
          preserve
          7
          sealed_text
          header
          nonce
          masked_key
        ≡ aead_decrypt ascon128a sealed_text header nonce
            (key_128_extract (ops4 generate) masked_key))
masked_aead_decrypt-eq-aead_decrypt_example =
    masked_aead_decrypt-eq-aead_decrypt (default_build generate) (value4 words) (value2 words)
      (default-IsMaskedBuild generate generate-IsWord) preserve 7 header nonce masked_key
      sealed_text preserve-IsPreserve header-IsBytes nonce-IsBytes refl masked_key-IsKey128
      sealed_text-IsBytes

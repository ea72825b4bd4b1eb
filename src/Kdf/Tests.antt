-- ===== src/Kdf/Tests.antt =====
-- The theorems on HKDF and PBKDF2 at concrete inputs.
use ascon_suite_tcc.Base.{arith, if◌then◌else◌, leb, ℕ, ◌≡◌, List, [], ◌∷◌, replicate, take}
use ascon_suite_tcc.Aead.Tag.{minus_one}
use ascon_suite_tcc.Hash.Xof.Init.{xof_flavour, xofa_flavour}
use ascon_suite_tcc.Mac.Hmac.Laws.{rfc_hmac}
use ascon_suite_tcc.Kdf.Hkdf.{
  HkdfState, ascon_hkdf, ascon_hkdfa, ascon_hkdf_extract, ascon_hkdfa_extract, ascon_hkdf_expand,
  ascon_hkdfa_expand,
}
use ascon_suite_tcc.Kdf.Hkdf.Expand.{Supplies, Serves}
use ascon_suite_tcc.Kdf.Hkdf.Rfc.{okm, hkdf_cases, extract-Supplies, expand-Serves}
use ascon_suite_tcc.Kdf.Pbkdf2.{ascon_pbkdf2, ascon_pbkdf2_hmac}
use ascon_suite_tcc.Kdf.Pbkdf2.Laws.{rfc_pbkdf2, prf_xof, pbkdf2-eq-rfc_pbkdf2}

-- what a state on the stack may hold
abbrev stack : HkdfState
stack = record { prk = replicate 32 7; out = replicate 32 9; counter = 200; posn = 3 }

abbrev key_5 : List ℕ
key_5 = 11 ∷ 11 ∷ 11 ∷ 11 ∷ 11 ∷ []

abbrev salt_3 : List ℕ
salt_3 = 0 ∷ 1 ∷ 2 ∷ []

abbrev info_2 : List ℕ
info_2 = 240 ∷ 241 ∷ []

hkdf_cases_example :
    (ascon_hkdf stack key_5 salt_3 info_2 42 ≡ (
      if leb 42 8160 then (0, take 42 (okm xof_flavour key_5 salt_3 info_2)) else (minus_one, [])))
    × (ascon_hkdfa stack key_5 salt_3 info_2 42 ≡ (
        if leb 42 8160
        then (0, take 42 (okm xofa_flavour key_5 salt_3 info_2))
        else (minus_one, [])))
hkdf_cases_example = hkdf_cases stack key_5 salt_3 info_2 42

extract-Supplies_example :
    Supplies xof_flavour
      (rfc_hmac xof_flavour salt_3 key_5)
      info_2
      (ascon_hkdf_extract stack key_5 salt_3)
      (okm xof_flavour key_5 salt_3 info_2)
    × Supplies xofa_flavour
        (rfc_hmac xofa_flavour salt_3 key_5)
        info_2
        (ascon_hkdfa_extract stack key_5 salt_3)
        (okm xofa_flavour key_5 salt_3 info_2)
extract-Supplies_example = extract-Supplies stack key_5 salt_3 info_2

expand-Serves_example :
    Serves xof_flavour
      (rfc_hmac xof_flavour salt_3 key_5)
      info_2
      70
      (okm xof_flavour key_5 salt_3 info_2)
      (ascon_hkdf_expand (ascon_hkdf_extract stack key_5 salt_3) info_2 70)
    × Serves xofa_flavour
        (rfc_hmac xofa_flavour salt_3 key_5)
        info_2
        70
        (okm xofa_flavour key_5 salt_3 info_2)
        (ascon_hkdfa_expand (ascon_hkdfa_extract stack key_5 salt_3) info_2 70)
expand-Serves_example =
    expand-Serves (rfc_hmac xof_flavour salt_3 key_5) (rfc_hmac xofa_flavour salt_3 key_5) info_2
      (ascon_hkdf_extract stack key_5 salt_3) (ascon_hkdfa_extract stack key_5 salt_3)
      (okm xof_flavour key_5 salt_3 info_2) (okm xofa_flavour key_5 salt_3 info_2) 70
      (extract-Supplies stack key_5 salt_3 info_2).0 (extract-Supplies stack key_5 salt_3 info_2).1

pbkdf2-eq-rfc_pbkdf2_example :
    (ascon_pbkdf2 40 key_5 salt_3 3 ≡ rfc_pbkdf2 (prf_xof key_5) salt_3 3 40)
    × (ascon_pbkdf2_hmac 40 key_5 salt_3 3 ≡ rfc_pbkdf2 (rfc_hmac xof_flavour key_5) salt_3 3 40)
pbkdf2-eq-rfc_pbkdf2_example = pbkdf2-eq-rfc_pbkdf2 40 key_5 salt_3 3 (omega arith)

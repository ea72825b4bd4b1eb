-- ===== src/Core/Hex/Tests.antt =====
-- Texts and their bytes, and the theorems on them.
use ascon_suite_tcc.Base.{
  ℕ, ◌%◌, ◌^◌, ◌-◌, ◌<◌, ◌≤◌, ◌≡◌, ◌⊎◌, refl, true, false, List, [], ◌∷◌, some, length, take, arith,
}
use ascon_suite_tcc.Core.Hex.{to_hex_loop, bytes_to_hex, classify, from_hex_loop, bytes_from_hex}
use ascon_suite_tcc.Core.Hex.Roundtrip.{from_hex-to_hex}
use ascon_suite_tcc.Core.Hex.Reader.{parse, from_hex_cases}

abbrev four_bytes : List ℕ
four_bytes = 0xde ∷ 0xad ∷ 0x00 ∷ 0x7f ∷ []

-- "DEAD007F" with its NUL
to_upper :
    bytes_to_hex 9 four_bytes true
    ≡ record { result = 8; out = 68 ∷ 69 ∷ 65 ∷ 68 ∷ 48 ∷ 48 ∷ 55 ∷ 70 ∷ 0 ∷ [] }
unfolding bytes_to_hex to_hex_loop
to_upper = refl

to_short : bytes_to_hex 8 four_bytes true ≡ record { result = 2 ^ 32 - 1; out = 0 ∷ [] }
unfolding bytes_to_hex
to_short = refl

-- "dE a\n"
abbrev odd_text : List ℕ
odd_text = 100 ∷ 69 ∷ 32 ∷ 97 ∷ 10 ∷ []

from_odd : bytes_from_hex 4 odd_text ≡ record { result = 2 ^ 32 - 1; out = 0xde ∷ [] }
unfolding bytes_from_hex from_hex_loop classify
from_odd = refl

from_hex-to_hex_example :
    let w = bytes_to_hex 9 four_bytes false in
    bytes_from_hex 4 (take w.result w.out) ≡ record { result = length four_bytes; out = four_bytes }
from_hex-to_hex_example =
    from_hex-to_hex 9 4 four_bytes false
      (omega arith, (omega arith, (omega arith, (omega arith, tt)))) (omega arith) (omega arith)
      (omega arith)

from_hex_cases_example :
    ((bytes : List ℕ) × (parse odd_text ≡ some bytes)
      × (length bytes ≤ 4)
      × (bytes_from_hex 4 odd_text ≡ record { result = length bytes % 2 ^ 32; out = bytes }))
    ⊎ (((bytes : List ℕ) → parse odd_text ≡ some bytes → 4 < length bytes)
        × ((bytes_from_hex 4 odd_text).result ≡ 2 ^ 32 - 1))
from_hex_cases_example = from_hex_cases 4 odd_text

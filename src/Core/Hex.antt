-- ===== src/Core/Hex.antt =====
-- src/core/ascon-hex.c: bytes as hexadecimal text, and back. A character is its ASCII code.
pub mod Roundtrip
pub mod Symbols
pub mod Reader
mod Tests
use ascon_suite_tcc.Base.{
  ℕ, zero, suc, ◌+◌, ◌-◌, ◌*◌, ◌/◌, ◌%◌, ◌^◌, Bool, true, false, ◌&&◌, ◌||◌, bit_and, bit_or, List,
  [], ◌∷◌, ltb, leb, ◌==◌, if◌then◌else◌, length, get_or,
}
use ascon_suite_tcc.Core.Word.{u8}

-- `hex_lower` and `hex_upper`
abbrev pub hex_lower : List ℕ
hex_lower = 48 ∷ 49 ∷ 50 ∷ 51 ∷ 52 ∷ 53 ∷ 54 ∷ 55 ∷ 56 ∷ 57 ∷ 97 ∷ 98 ∷ 99 ∷ 100 ∷ 101 ∷ 102 ∷ []

abbrev pub hex_upper : List ℕ
hex_upper = 48 ∷ 49 ∷ 50 ∷ 51 ∷ 52 ∷ 53 ∷ 54 ∷ 55 ∷ 56 ∷ 57 ∷ 65 ∷ 66 ∷ 67 ∷ 68 ∷ 69 ∷ 70 ∷ []

abbrev pub hex_chars : Bool → List ℕ
hex_chars upper_case = if upper_case then hex_upper else hex_lower

-- the return value, a 32-bit pattern, and what was written to `out`
pub record Written : Type 0 where
  pub result : ℕ
  pub out : List ℕ

-- the loop of `ascon_bytes_to_hex`, with `posn` where it starts; the result is `posn` behind it
unfoldable pub to_hex_loop : List ℕ → ℕ → List ℕ → Written
to_hex_loop chars posn [] = record { result = posn; out = 0 ∷ [] }
to_hex_loop chars posn (ch ∷ in') =
    let rest = to_hex_loop chars (posn + 2) in' in
    record {
      result = rest.result;
      out = get_or chars (bit_and (ch / 2 ^ 4) 15) 0 ∷ get_or chars (bit_and ch 15) 0 ∷ rest.out;
    }

-- `ascon_bytes_to_hex`
unfoldable pub bytes_to_hex : ℕ → List ℕ → Bool → Written
bytes_to_hex outlen in' upper_case =
    let all = to_hex_loop (hex_chars upper_case) 0 in' in
    if ltb outlen (length in' * 2 + 1)
    then record { result = 2 ^ 32 - 1; out = if ltb 0 outlen then 0 ∷ [] else [] }
    else record { result = all.result % 2 ^ 32; out = all.out }

-- what the chain of tests in `ascon_bytes_from_hex` finds
pub data Kind : Type 0 where
  digit : ℕ → Kind
  space : Kind
  other : Kind

unfoldable pub classify : ℕ → Kind
classify ch =
    if leb 48 ch && leb ch 57
    then digit (ch - 48)
    else if leb 97 ch && leb ch 102
    then digit (ch - 97 + 10)
    else if leb 65 ch && leb ch 70
    then digit (ch - 65 + 10)
    else if (ch == 32) || (ch == 9) || (ch == 13) || (ch == 10) || (ch == 12) || (ch == 11)
    then space
    else other

-- a byte in front of what the rest of the loop writes
abbrev pub put : ℕ → Written → Written
put b w = record { result = w.result; out = b ∷ w.out }

-- the loop of `ascon_bytes_from_hex`, with `posn`, `value` and `nibble`
unfoldable pub from_hex_loop : ℕ → ℕ → ℕ → Bool → List ℕ → Written
from_hex_loop outlen posn value nibble [] = record {
  result = if nibble then 2 ^ 32 - 1 else posn % 2 ^ 32;
  out = [];
}
from_hex_loop outlen posn value nibble (ch ∷ in') = elim (classify ch) [
  | digit d ↦ elim nibble [
    | true ↦
        if leb outlen posn
        then record { result = 2 ^ 32 - 1; out = [] }
        else put (u8 (bit_or value d)) (from_hex_loop outlen (posn + 1) value false in')
    | false ↦ from_hex_loop outlen posn (d * 2 ^ 4) true in'
  ]
  | space ↦ from_hex_loop outlen posn value nibble in'
  | other ↦ record { result = 2 ^ 32 - 1; out = [] }
]

-- `ascon_bytes_from_hex`
unfoldable pub bytes_from_hex : ℕ → List ℕ → Written
bytes_from_hex outlen in' = from_hex_loop outlen 0 0 false in'

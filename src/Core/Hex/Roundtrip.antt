-- ===== src/Core/Hex/Roundtrip.antt =====
-- Hexadecimal text is read back as the bytes that it was written from.
use ascon_suite_tcc.Base.{
  ℕ, zero, suc, ◌+◌, ◌*◌, ◌/◌, ◌%◌, ◌^◌, ◌<◌, ◌≤◌, ◌≡◌, refl, ap, ◌∙◌, Bool, true, false, ◌&&◌,
  bit_and, bit_or, List, [], ◌∷◌, ◌++◌, ltb, leb, ◌==◌, ==_iff, Bool-cases, inl, inr, ltb→lt,
  length, take, get_or, arith,
}
use ascon_suite_tcc.Base.Bytes.{IsBytes}
use ascon_suite_tcc.Base.Slices.{take_prefix}
use ascon_suite_tcc.Core.Word.{u8}
use ascon_suite_tcc.Core.Hex.{
  hex_chars, to_hex_loop, bytes_to_hex, Kind, digit, space, other, classify, put, from_hex_loop,
  bytes_from_hex,
}

-- A test that holds of every number below a bound.
all_below : (ℕ → Bool) → ℕ → Bool
all_below test zero = true
all_below test (suc n) = test n && all_below test n

abbrev is_digit : ℕ → Kind → Bool
is_digit n (digit d) = d == n
is_digit n space = false
is_digit n other = false

and_parts : (a b : Bool) → (a && b) ≡ true → (a ≡ true) × (b ≡ true)
and_parts true b h = (refl, h)
and_parts false b h = cc

all_below_lem :
    (test : ℕ → Bool) (n : ℕ) → all_below test n ≡ true → (k : ℕ) → k < n → test k ≡ true
unfolding all_below
all_below_lem test zero h k below = absurd (omega arith)
all_below_lem test (suc n) h k below =
    let parts = and_parts (test n) (all_below test n) h in
    elim (Bool-cases (k == n)) [
      | inl e ↦ ap test ((==_iff k n).0 e) ∙ parts.0
      | inr e ↦ all_below_lem test n parts.1 k (ground arith)
    ]

is_digit_lem : (n : ℕ) (k : Kind) → is_digit n k ≡ true → k ≡ digit n
is_digit_lem n (digit d) h = ap digit ((==_iff d n).0 h)
is_digit_lem n space h = cc
is_digit_lem n other h = cc

-- Each of the sixteen digits is read back.
classify_char :
    (upper_case : Bool) (n : ℕ) → n < 16 → classify (get_or (hex_chars upper_case) n 0) ≡ digit n
unfolding all_below classify
classify_char true n h =
    is_digit_lem n _
      (all_below_lem (λ n. is_digit n (classify (get_or (hex_chars true) n 0))) 16 refl n h)
classify_char false n h =
    is_digit_lem n _
      (all_below_lem (λ n. is_digit n (classify (get_or (hex_chars false) n 0))) 16 refl n h)

high-lt : (b : ℕ) → b < 256 → bit_and (b / 2 ^ 4) 15 < 16
unfolding all_below
high-lt b h = ltb→lt _ 16 (all_below_lem (λ b. ltb (bit_and (b / 2 ^ 4) 15) 16) 256 refl b h)

low-lt : (b : ℕ) → b < 256 → bit_and b 15 < 16
unfolding all_below
low-lt b h = ltb→lt _ 16 (all_below_lem (λ b. ltb (bit_and b 15) 16) 256 refl b h)

join_lem : (b : ℕ) → b < 256 → u8 (bit_or (bit_and (b / 2 ^ 4) 15 * 2 ^ 4) (bit_and b 15)) ≡ b
unfolding all_below
join_lem b h = (==_iff _ b).0 (
    all_below_lem (λ b. u8 (bit_or (bit_and (b / 2 ^ 4) 15 * 2 ^ 4) (bit_and b 15)) == b) 256 refl b
      h)

-- The text of the bytes, without the NUL.
abbrev pub text : List ℕ → List ℕ → List ℕ
text chars [] = []
text chars (b ∷ in') =
    get_or chars (bit_and (b / 2 ^ 4) 15) 0 ∷ get_or chars (bit_and b 15) 0 ∷ text chars in'

length-text : (chars in' : List ℕ) → length (text chars in') ≡ length in' * 2
length-text chars [] = omega arith
length-text chars (b ∷ in') = omega (arith, length-text chars in')

to_hex_loop_lem :
    (chars : List ℕ) (posn : ℕ) (in' : List ℕ)
    → to_hex_loop chars posn in'
      ≡ record { result = posn + length in' * 2; out = text chars in' ++ 0 ∷ [] }
unfolding to_hex_loop
to_hex_loop_lem chars posn [] = ground arith
to_hex_loop_lem chars posn (b ∷ in') = ground (arith, to_hex_loop_lem chars (posn + 2) in')

pub step_high :
    (outlen posn value ch d : ℕ) (in' : List ℕ)
    → classify ch ≡ digit d
    → from_hex_loop outlen posn value false (ch ∷ in')
      ≡ from_hex_loop outlen posn (d * 2 ^ 4) true in'
unfolding from_hex_loop
step_high outlen posn value ch d in' e = rw (e, from_hex_loop) refl

pub step_low :
    (outlen posn value ch d : ℕ) (in' : List ℕ)
    → classify ch ≡ digit d
    → posn < outlen
    → from_hex_loop outlen posn value true (ch ∷ in')
      ≡ put (u8 (bit_or value d)) (from_hex_loop outlen (posn + 1) value false in')
unfolding from_hex_loop
step_low outlen posn value ch d in' e h =
    let room : leb outlen posn ≡ false = ground arith in rw (e, from_hex_loop) (rw room refl)

from_text :
    (upper_case : Bool) (outlen posn value : ℕ) (in' : List ℕ)
    → IsBytes in'
    → posn + length in' ≤ outlen
    → from_hex_loop outlen posn value false (text (hex_chars upper_case) in')
      ≡ record { result = (posn + length in') % 2 ^ 32; out = in' }
from_text upper_case outlen posn value [] h k = unfold from_hex_loop in ground arith
from_text upper_case outlen posn value (b ∷ in') h k =
    let chars = hex_chars upper_case in
    let high = bit_and (b / 2 ^ 4) 15 in
    let low = bit_and b 15 in
    let rest = text chars in' in
    let ih = from_text upper_case outlen (posn + 1) (high * 2 ^ 4) in' h.1 (omega arith) in
    step_high outlen posn value _ high _ (classify_char upper_case high (high-lt b h.0))
    ∙ (step_low outlen posn (high * 2 ^ 4) _ low rest (classify_char upper_case low (low-lt b h.0))
          (omega arith)
        ∙ rw (join_lem b h.0, ih)
            (ap (λ n. record { result = n % 2 ^ 32; out = b ∷ in' }) (omega arith)))

-- Bytes that are written as text, in either case, into a buffer with room for it, and fewer than
-- `2 ^ 31` of them, are read back from the characters that the returned length counts: the result is
-- their number, and they are written to a buffer that has room for them.
pub from_hex-to_hex :
    (size outlen : ℕ) (in' : List ℕ) (upper_case : Bool)
    → IsBytes in'
    → length in' < 2 ^ 31
    → length in' * 2 < size
    → length in' ≤ outlen
    → let w = bytes_to_hex size in' upper_case in
      bytes_from_hex outlen (take w.result w.out) ≡ record { result = length in'; out = in' }
unfolding bytes_to_hex bytes_from_hex
from_hex-to_hex size outlen in' upper_case h small room fits =
    let chars = hex_chars upper_case in
    let enough : ltb size (length in' * 2 + 1) ≡ false = ground arith in
    let count : (0 + length in' * 2) % 2 ^ 32 ≡ length (text chars in') =
      omega (arith, length-text chars in') in
    rw (enough, to_hex_loop_lem chars 0 in', count, take_prefix (text chars in') (0 ∷ []))
      (from_text upper_case outlen 0 0 in' h (omega arith)
        ∙ ap (λ n. record { result = n; out = in' }) (omega (arith, small)))

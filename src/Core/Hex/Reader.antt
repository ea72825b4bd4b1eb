-- ===== src/Core/Hex/Reader.antt =====
-- What `ascon_bytes_from_hex` accepts, said without its loop: the digits of the text, white space
-- left out, are read in pairs.
use ascon_suite_tcc.Base.{
  ℕ, suc, ◌∙◌, ◌+◌, ◌-◌, ◌*◌, ◌%◌, ◌^◌, ◌<◌, ◌≤◌, ◌≡◌, ◌⊎◌, inl, inr, refl, ap, Bool, true, false,
  bit_or, List, [], ◌∷◌, Option, none, some, leb, leb→le, if◌then◌else◌, Bool-cases, length, arith,
}
use mathlib.Core.Path.{subst}
use ascon_suite_tcc.Core.Word.{u8}
use ascon_suite_tcc.Core.Hex.{
  Written, Kind, digit, space, other, classify, put, from_hex_loop, bytes_from_hex,
}
use ascon_suite_tcc.Core.Hex.Symbols.{
  numeral, blank, stranger, symbols, look_up, symbol_lem, digit-lt,
}
use ascon_suite_tcc.Core.Word.Bytes.{or_apart}
use ascon_suite_tcc.Core.Hex.Roundtrip.{step_high, step_low}

abbrev prefix : ℕ → Option (List ℕ) → Option (List ℕ)
prefix x none = none
prefix x (some xs) = some (x ∷ xs)

abbrev then_pairs : Option (List ℕ) → (List ℕ → Option (List ℕ)) → Option (List ℕ)
then_pairs none f = none
then_pairs (some xs) f = f xs

-- the values of the digits, unless another character stands between them
unfoldable pub nibbles : List ℕ → Option (List ℕ)
nibbles [] = some []
nibbles (ch ∷ in') = elim (look_up symbols ch) [
  | numeral d ↦ prefix d (nibbles in')
  | blank ↦ nibbles in'
  | stranger ↦ none
]

-- two digits for a byte
unfoldable pub pairs : List ℕ → Option (List ℕ)
pairs [] = some []
pairs (d ∷ []) = none
pairs (d ∷ e ∷ ds) = prefix (d * 16 + e) (pairs ds)

abbrev pub parse : List ℕ → Option (List ℕ)
parse in' = then_pairs (nibbles in') pairs

-- What the loop leaves from `posn` on, when the text parses to `o`.
abbrev Agrees : ℕ → ℕ → Option (List ℕ) → Written → Type 0
Agrees outlen posn none w = w.result ≡ 2 ^ 32 - 1
Agrees outlen posn (some bytes) w =
    if leb (posn + length bytes) outlen
    then w ≡ record { result = (posn + length bytes) % 2 ^ 32; out = bytes }
    else w.result ≡ 2 ^ 32 - 1

-- a digit that is held in front of the others
abbrev held : Bool → ℕ → List ℕ → List ℕ
held true d ns = d ∷ ns
held false d ns = ns

abbrev parse_held : Bool → ℕ → List ℕ → Option (List ℕ)
parse_held nibble d in' = then_pairs (nibbles in') (λ ns. pairs (held nibble d ns))

Kind-cases : (k : Kind) → ((d : ℕ) × (k ≡ digit d)) ⊎ ((k ≡ space) ⊎ (k ≡ other))
Kind-cases (digit d) = inl (d, refl)
Kind-cases space = inr (inl refl)
Kind-cases other = inr (inr refl)

hold_lem :
    (x d : ℕ) (o : Option (List ℕ))
    → then_pairs (prefix d o) (λ ns. pairs (held false x ns))
      ≡ then_pairs o (λ ns. pairs (held true d ns))
hold_lem x d none = refl
hold_lem x d (some ns) = refl

pair_lem :
    (d e x : ℕ) (o : Option (List ℕ))
    → d < 16
    → e < 16
    → then_pairs (prefix e o) (λ ns. pairs (held true d ns))
      ≡ prefix (u8 (bit_or (d * 2 ^ 4) e)) (then_pairs o (λ ns. pairs (held false x ns)))
unfolding pairs
pair_lem d e x none hd he = refl
pair_lem d e x (some ns) hd he =
    let joined : u8 (bit_or (d * 2 ^ 4) e) ≡ d * 16 + e = ap u8 (or_apart d e 4 he) ∙ omega arith in
    rw joined refl

if_map : (A B C : Type 0) (t : Bool) → (A → B) → (if t then A else C) → if t then B else C
if_map A B C true f h = f h
if_map A B C false f h = h

put-Agrees :
    (outlen posn b : ℕ) (o : Option (List ℕ)) (w : Written)
    → Agrees outlen (posn + 1) o w
    → Agrees outlen posn (prefix b o) (put b w)
put-Agrees outlen posn b none w h = h
put-Agrees outlen posn b (some bytes) w h =
    let same : posn + 1 + length bytes ≡ posn + suc (length bytes) = omega arith in
    subst
      (λ n.
        if leb n outlen
        then put b w ≡ record { result = n % 2 ^ 32; out = b ∷ bytes }
        else w.result ≡ 2 ^ 32 - 1)
      same (if_map _ _ _ (leb (posn + 1 + length bytes) outlen) (ap (put b)) h)

full-Agrees :
    (outlen posn b : ℕ) (o : Option (List ℕ)) (w : Written)
    → outlen ≤ posn
    → w.result ≡ 2 ^ 32 - 1
    → Agrees outlen posn (prefix b o) w
full-Agrees outlen posn b none w h e = e
full-Agrees outlen posn b (some bytes) w h e =
    let over : leb (posn + suc (length bytes)) outlen ≡ false = ground arith in rw over e

nibbles_digit :
    (ch d : ℕ) (in' : List ℕ) → classify ch ≡ digit d → nibbles (ch ∷ in') ≡ prefix d (nibbles in')
unfolding nibbles
nibbles_digit ch d in' k = rw (symbol_lem ch (digit d) k, nibbles) refl

nibbles_space : (ch : ℕ) (in' : List ℕ) → classify ch ≡ space → nibbles (ch ∷ in') ≡ nibbles in'
unfolding nibbles
nibbles_space ch in' k = rw (symbol_lem ch (space) k, nibbles) refl

nibbles_other : (ch : ℕ) (in' : List ℕ) → classify ch ≡ other → nibbles (ch ∷ in') ≡ none
unfolding nibbles
nibbles_other ch in' k = rw (symbol_lem ch (other) k, nibbles) refl

step_space :
    (outlen posn value ch : ℕ) (nibble : Bool) (in' : List ℕ)
    → classify ch ≡ space
    → from_hex_loop outlen posn value nibble (ch ∷ in') ≡ from_hex_loop outlen posn value nibble in'
unfolding from_hex_loop
step_space outlen posn value ch nibble in' k = rw (k, from_hex_loop) refl

step_other :
    (outlen posn value ch : ℕ) (nibble : Bool) (in' : List ℕ)
    → classify ch ≡ other
    → from_hex_loop outlen posn value nibble (ch ∷ in') ≡ record { result = 2 ^ 32 - 1; out = [] }
unfolding from_hex_loop
step_other outlen posn value ch nibble in' k = rw (k, from_hex_loop) refl

step_full :
    (outlen posn value ch d : ℕ) (in' : List ℕ)
    → classify ch ≡ digit d
    → leb outlen posn ≡ true
    → from_hex_loop outlen posn value true (ch ∷ in') ≡ record { result = 2 ^ 32 - 1; out = [] }
unfolding from_hex_loop
step_full outlen posn value ch d in' k full = rw (k, from_hex_loop) (rw full refl)

-- the theorem on the loop for the rest of the text
abbrev Rest : ℕ → List ℕ → Type 0
Rest outlen in' =
    (posn value : ℕ) (nibble : Bool) (d : ℕ)
    → posn ≤ outlen
    → (nibble ≡ true → (value ≡ d * 2 ^ 4) × (d < 16))
    → Agrees outlen posn (parse_held nibble d in') (from_hex_loop outlen posn value nibble in')

digit-Agrees :
    (outlen posn value : ℕ) (nibble : Bool) (d ch x : ℕ) (in' : List ℕ)
    → posn ≤ outlen
    → (nibble ≡ true → (value ≡ d * 2 ^ 4) × (d < 16))
    → classify ch ≡ digit x
    → Rest outlen in'
    → Agrees outlen posn
        (parse_held nibble d (ch ∷ in'))
        (from_hex_loop outlen posn value nibble (ch ∷ in'))
digit-Agrees outlen posn value false d ch x in' h e k again =
    rw
      (nibbles_digit ch x in' k, step_high outlen posn value ch x in' k, hold_lem d x (nibbles in'))
      (again posn (x * 2 ^ 4) true x h (λ _. (refl, digit-lt ch x k)))
digit-Agrees outlen posn value true d ch x in' h e k again = elim (Bool-cases (leb outlen posn)) [
  | inl full ↦
      rw
        (
          nibbles_digit ch x in' k,
          step_full outlen posn value ch x in' k full,
          pair_lem d x 0 (nibbles in') (e refl).1 (digit-lt ch x k),
        )
        (full-Agrees outlen posn _ (parse_held false 0 in') _ (leb→le outlen posn full) refl)
  | inr room ↦
      let below : posn < outlen = ground arith in
      rw
        (
          nibbles_digit ch x in' k,
          step_low outlen posn value ch x in' k below,
          pair_lem d x 0 (nibbles in') (e refl).1 (digit-lt ch x k),
          (e refl).0,
        )
        (put-Agrees outlen posn _ (parse_held false 0 in') _
          (again (posn + 1) (d * 2 ^ 4) false 0 (omega arith) (λ z. cc)))
]

loop-Agrees : (outlen : ℕ) (in' : List ℕ) → Rest outlen in'
loop-Agrees outlen [] posn value true d h e = unfold nibbles pairs from_hex_loop in refl
loop-Agrees outlen [] posn value false d h e =
    let fits : leb (posn + 0) outlen ≡ true = ground arith in
    unfold nibbles pairs from_hex_loop in rw fits (ground arith)
loop-Agrees outlen (ch ∷ in') posn value nibble d h e = elim (Kind-cases (classify ch)) [
  | inl (x, k) ↦ digit-Agrees outlen posn value nibble d ch x in' h e k (loop-Agrees outlen in')
  | inr (inl k) ↦
      rw (nibbles_space ch in' k, step_space outlen posn value ch nibble in' k)
        (loop-Agrees outlen in' posn value nibble d h e)
  | inr (inr k) ↦ rw (nibbles_other ch in' k, step_other outlen posn value ch nibble in' k) refl
]

-- Reading has one of two outcomes. The digits of the text, white space left out, form bytes that fit
-- the buffer: the bytes are written, and their number modulo 2 ^ 32, the pattern of the `int`, is
-- returned. Or they form no bytes, for another character or an odd digit, or too many, and -1 is
-- returned. The digits and the white space are those of a table of their own.
pub from_hex_cases :
    (outlen : ℕ) (in' : List ℕ)
    → ((bytes : List ℕ) × (parse in' ≡ some bytes)
        × (length bytes ≤ outlen)
        × (bytes_from_hex outlen in' ≡ record { result = length bytes % 2 ^ 32; out = bytes }))
      ⊎ (((bytes : List ℕ) → parse in' ≡ some bytes → outlen < length bytes)
          × ((bytes_from_hex outlen in').result ≡ 2 ^ 32 - 1))
unfolding bytes_from_hex
from_hex_cases outlen in' =
    outcome (parse in') (from_hex_loop outlen 0 0 false in')
      (loop-Agrees outlen in' 0 0 false 0 (omega arith) (λ z. cc))
  where
    choose :
        (bytes : List ℕ) (w : Written) (t : Bool)
        → leb (length bytes) outlen ≡ t
        → (if t
            then w ≡ record { result = length bytes % 2 ^ 32; out = bytes }
            else w.result ≡ 2 ^ 32 - 1)
        → ((x : List ℕ) × (some bytes ≡ some x)
            × (length x ≤ outlen)
            × (w ≡ record { result = length x % 2 ^ 32; out = x }))
          ⊎ (((x : List ℕ) → some bytes ≡ some x → outlen < length x) × (w.result ≡ 2 ^ 32 - 1))
    choose bytes w true q h = inl (bytes, refl, leb→le _ outlen q, h)
    choose bytes w false q h =
        let over : outlen < length bytes = ground arith in
        inr (λ x e. let same : bytes ≡ x = cc in subst (λ z. outlen < length z) same over, h)

    outcome :
        (o : Option (List ℕ)) (w : Written)
        → Agrees outlen 0 o w
        → ((bytes : List ℕ) × (o ≡ some bytes)
            × (length bytes ≤ outlen)
            × (w ≡ record { result = length bytes % 2 ^ 32; out = bytes }))
          ⊎ (((bytes : List ℕ) → o ≡ some bytes → outlen < length bytes) × (w.result ≡ 2 ^ 32 - 1))
    outcome none w h = inr (λ bytes e. cc, h)
    outcome (some bytes) w h =
        let same : 0 + length bytes ≡ length bytes = omega arith in
        choose bytes w (leb (length bytes) outlen) refl (
          subst
            (λ n.
              if leb n outlen
              then w ≡ record { result = n % 2 ^ 32; out = bytes }
              else w.result ≡ 2 ^ 32 - 1)
            same h)

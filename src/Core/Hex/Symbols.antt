-- ===== src/Core/Hex/Symbols.antt =====
-- The characters that `ascon_bytes_from_hex` reads, as a table, and the tests of the code against it.
use ascon_suite_tcc.Base.{
  ℕ, zero, suc, ◌<◌, ◌≤◌, ◌≡◌, refl, sym, ap, ◌∙◌, arith, Bool, true, false, ◌&&◌, List, [], ◌∷◌,
  ltb, ltb→lt, ◌==◌, ==_iff, if◌then◌else◌, Bool-cases, inl, inr,
}
use ascon_suite_tcc.Core.Hex.{Kind, digit, space, other, classify}

-- what a character stands for: a digit with its value, white space, or neither
pub data Symbol : Type 0 where
  numeral : ℕ → Symbol
  blank : Symbol
  stranger : Symbol

-- "0123456789abcdef" and "ABCDEF" with their values, and blank, \t, \n, \v, \f and \r
abbrev pub symbols : List (ℕ × Symbol)
symbols =
    (48, numeral 0)
    ∷ (49, numeral 1)
    ∷ (50, numeral 2)
    ∷ (51, numeral 3)
    ∷ (52, numeral 4)
    ∷ (53, numeral 5)
    ∷ (54, numeral 6)
    ∷ (55, numeral 7)
    ∷ (56, numeral 8)
    ∷ (57, numeral 9)
    ∷ (97, numeral 10)
    ∷ (98, numeral 11)
    ∷ (99, numeral 12)
    ∷ (100, numeral 13)
    ∷ (101, numeral 14)
    ∷ (102, numeral 15)
    ∷ (65, numeral 10)
    ∷ (66, numeral 11)
    ∷ (67, numeral 12)
    ∷ (68, numeral 13)
    ∷ (69, numeral 14)
    ∷ (70, numeral 15)
    ∷ (32, blank)
    ∷ (9, blank)
    ∷ (10, blank)
    ∷ (11, blank)
    ∷ (12, blank)
    ∷ (13, blank)
    ∷ []

unfoldable pub look_up : List (ℕ × Symbol) → ℕ → Symbol
look_up [] ch = stranger
look_up ((c, s) ∷ rest) ch = if ch == c then s else look_up rest ch

abbrev pub symbol_of : Kind → Symbol
symbol_of (digit d) = numeral d
symbol_of space = blank
symbol_of other = stranger

-- the symbols agree, and a digit is below sixteen
abbrev same_symbol : Symbol → Symbol → Bool
same_symbol (numeral d) (numeral e) = (d == e) && ltb d 16
same_symbol blank blank = true
same_symbol stranger stranger = true
same_symbol _ _ = false

unfoldable agree_at : ℕ → Bool
unfolding classify look_up
agree_at ch = same_symbol (symbol_of (classify ch)) (look_up symbols ch)

all_agree : ℕ → Bool
all_agree zero = true
all_agree (suc n) = agree_at n && all_agree n

all_agree_lem : (n ch : ℕ) → all_agree n ≡ true → ch < n → agree_at ch ≡ true
unfolding all_agree
all_agree_lem zero ch h l = absurd (omega arith)
all_agree_lem (suc n) ch h l = elim (Bool-cases (ch == n)) [
  | inl e ↦ let at = (==_iff ch n).0 e in rw at (ground arith)
  | inr e ↦ all_agree_lem n ch (ground arith) (ground arith)
]

ascii_lem : (ch : ℕ) → ch < 128 → agree_at ch ≡ true
unfolding agree_at all_agree
ascii_lem ch h = all_agree_lem 128 ch refl h

keys_below : List (ℕ × Symbol) → Bool
keys_below [] = true
keys_below ((c, s) ∷ rest) = ltb c 128 && keys_below rest

-- Nothing above the ASCII codes is in the table, and the tests of the code find nothing there.
not_there :
    (t : List (ℕ × Symbol)) (ch : ℕ) → keys_below t ≡ true → 128 ≤ ch → look_up t ch ≡ stranger
unfolding look_up keys_below
not_there [] ch h l = refl
not_there ((c, s) ∷ rest) ch h l =
    let differ : (ch == c) ≡ false = ground arith in rw differ (not_there rest ch (ground arith) l)

above_lem : (ch : ℕ) → 128 ≤ ch → classify ch ≡ other
unfolding classify
above_lem ch h = ground arith

same_symbol_lem :
    (k : Kind) (s : Symbol)
    → same_symbol (symbol_of k) s ≡ true
    → (s ≡ symbol_of k) × ((d : ℕ) → k ≡ digit d → d < 16)
same_symbol_lem (digit d) (numeral e) h =
    let same : e ≡ d = ground arith in
    let small : d < 16 = ground arith in
    (ap numeral same, λ x q. let at : d ≡ x = cc in omega (arith, at, small))
same_symbol_lem (digit d) blank h = cc
same_symbol_lem (digit d) stranger h = cc
same_symbol_lem space (numeral e) h = cc
same_symbol_lem space blank h = (refl, λ d e. cc)
same_symbol_lem space stranger h = cc
same_symbol_lem other (numeral e) h = cc
same_symbol_lem other blank h = cc
same_symbol_lem other stranger h = (refl, λ d e. cc)

-- The tests of the code find what the table has, and digits are below sixteen.
classify_lem :
    (ch : ℕ)
    → (look_up symbols ch ≡ symbol_of (classify ch)) × ((d : ℕ) → classify ch ≡ digit d → d < 16)
unfolding agree_at
classify_lem ch = elim (Bool-cases (ltb ch 128)) [
  | inl low ↦ same_symbol_lem (classify ch) (look_up symbols ch) (ascii_lem ch (ltb→lt ch 128 low))
  | inr high ↦
      let above : 128 ≤ ch = ground arith in
      let none = above_lem ch above in
      (
        not_there symbols ch (unfold keys_below in refl) above ∙ ap symbol_of (sym none),
        λ d e. let clash : other ≡ digit d = sym none ∙ e in cc,
      )
]

pub symbol_lem : (ch : ℕ) (k : Kind) → classify ch ≡ k → look_up symbols ch ≡ symbol_of k
symbol_lem ch k e = (classify_lem ch).0 ∙ ap symbol_of e

pub digit-lt : (ch d : ℕ) → classify ch ≡ digit d → d < 16
digit-lt ch d e = (classify_lem ch).1 d e

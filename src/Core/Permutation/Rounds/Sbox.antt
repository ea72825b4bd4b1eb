-- ===== src/Core/Permutation/Rounds/Sbox.antt =====
-- The substitution layer is the S-box on each column.
use ascon_suite_tcc.Base.{
  Bool-cases, Bool, true, ◌∙◌, sym, ◌/◌, ◌&&◌, inl, inr, ◌==◌, ==_iff, ℕ, zero, suc, ◌+◌, ◌-◌, ◌*◌,
  ◌%◌, ◌<◌, ◌≡◌, refl, arith, min, bit_xor, bit_and, get_or,
}
use ascon_suite_tcc.Base.Bits.Laws.{bit, bit-lt, bit-xor, bit-and, xor-lt, and-lt}
use ascon_suite_tcc.Core.Word.{not64}
use ascon_suite_tcc.Core.Word.Bits.{bit-not64, not-IsWord}
use ascon_suite_tcc.Core.Permutation.{Words, substitute}
use ascon_suite_tcc.Core.Permutation.Rounds.{AreWords, sbox_table, column, sbox_layer}

abbrev add : ℕ → ℕ → ℕ
add a b = (a + b) % 2

-- the layer on five bits, as a column
abbrev on_bits : ℕ → ℕ → ℕ → ℕ → ℕ → ℕ
on_bits a b c d e =
    let x0 = add a e in
    let x4 = add e d in
    let x2 = add c b in
    let t0 = min (1 - x0) b in
    let t1 = min (1 - b) x2 in
    let t2 = min (1 - x2) d in
    let t3 = min (1 - d) x4 in
    let t4 = min (1 - x4) x0 in
    let x0 = add x0 t1 in
    let x1 = add b t2 in
    let x2 = add x2 t3 in
    let x3 = add d t4 in
    let x4 = add x4 t0 in 16 * add x0 x4 + 8 * add x1 x0 + 4 * (1 - x2) + 2 * add x3 x2 + x4

-- the layer and the table agree on the column `n`
unfoldable agree : ℕ → Bool
agree n = on_bits (n / 16) (n / 8 % 2) (n / 4 % 2) (n / 2 % 2) (n % 2) == get_or sbox_table n 0

unfoldable all_below : ℕ → Bool
unfolding agree
all_below zero = true
all_below (suc n) = agree n && all_below n

all_below_lem : (n k : ℕ) → all_below n ≡ true → k < n → agree k ≡ true
unfolding all_below
all_below_lem zero k h l = absurd (omega arith)
all_below_lem (suc n) k h l = elim (Bool-cases (k == n)) [
  | inl e ↦ let at = (==_iff k n).0 e in rw at (ground arith)
  | inr e ↦ all_below_lem n k (ground arith) (ground arith)
]

all_columns : all_below 32 ≡ true
unfolding all_below
all_columns = refl

on_bits_lem :
    (a b c d e : ℕ)
    → a < 2
    → b < 2
    → c < 2
    → d < 2
    → e < 2
    → on_bits a b c d e ≡ get_or sbox_table (16 * a + 8 * b + 4 * c + 2 * d + e) 0
unfolding agree
on_bits_lem a b c d e ha hb hc hd he =
    let n = 16 * a + 8 * b + 4 * c + 2 * d + e in
    let ea : n / 16 ≡ a = omega arith in
    let eb : n / 8 % 2 ≡ b = omega arith in
    let ec : n / 4 % 2 ≡ c = omega arith in
    let ed : n / 2 % 2 ≡ d = omega arith in
    let ee : n % 2 ≡ e = omega arith in
    let checked = all_below_lem 32 n all_columns (omega arith) in
    let found =
      (==_iff (on_bits (n / 16) (n / 8 % 2) (n / 4 % 2) (n / 2 % 2) (n % 2))
          (get_or sbox_table n 0)).0
        checked in
    let same : on_bits (n / 16) (n / 8 % 2) (n / 4 % 2) (n / 2 % 2) (n % 2) ≡ on_bits a b c d e =
      rw (ea, eb, ec, ed, ee) refl in
    sym same ∙ found

layer_bits :
    (w : Words) (i : ℕ)
    → AreWords w
    → i < 64
    → column (sbox_layer w) i
      ≡ on_bits (bit w.x0 i) (bit w.x1 i) (bit w.x2 i) (bit w.x3 i) (bit w.x4 i)
unfolding substitute
layer_bits w i h k =
    let X0 = bit_xor w.x0 w.x4 in
    let X4 = bit_xor w.x4 w.x3 in
    let X2 = bit_xor w.x2 w.x1 in
    let n0 = bit-not64 X0 i (xor-lt 64 w.x0 w.x4 h.h0 h.h4) k in
    let n1 = bit-not64 w.x1 i h.h1 k in
    let n2 = bit-not64 X2 i (xor-lt 64 w.x2 w.x1 h.h2 h.h1) k in
    let n3 = bit-not64 w.x3 i h.h3 k in
    let n4 = bit-not64 X4 i (xor-lt 64 w.x4 w.x3 h.h4 h.h3) k in
    let t3 = bit_and (not64 w.x3) X4 in
    let ht = and-lt 64 (not64 w.x3) X4 (not-IsWord w.x3) in
    let n5 = bit-not64 (bit_xor X2 t3) i (xor-lt 64 X2 t3 (xor-lt 64 w.x2 w.x1 h.h2 h.h1) ht) k in
    simp (bit-xor, bit-and, n0, n1, n2, n3, n4, n5)

-- For five 64-bit words, the substitution layer of the code, with `x2` inverted at its end, is the S-box
-- of the published table on each of the 64 columns.
pub sbox_layer-column :
    (w : Words) (i : ℕ)
    → AreWords w
    → i < 64
    → column (sbox_layer w) i ≡ get_or sbox_table (column w i) 0
sbox_layer-column w i h k =
    layer_bits w i h k
    ∙ on_bits_lem (bit w.x0 i) (bit w.x1 i) (bit w.x2 i) (bit w.x3 i) (bit w.x4 i) (bit-lt w.x0 i)
        (bit-lt w.x1 i) (bit-lt w.x2 i) (bit-lt w.x3 i) (bit-lt w.x4 i)

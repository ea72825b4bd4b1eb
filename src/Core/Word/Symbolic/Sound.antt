-- ===== src/Core/Word/Symbolic/Sound.antt =====
-- The polynomial of a symbolic word has the word's bits.

use ascon_suite_tcc.Base.{
  ℕ, zero, suc, ◌+◌, ◌*◌, ◌/◌, ◌%◌, ◌<◌, ◌≡◌, refl, sym, ap, ◌∙◌, arith, min, true, inl, inr,
  Bool-cases, List, [], ◌∷◌, ltb, ◌==◌, ==_iff, get_or,
}
use ascon_suite_tcc.Base.Bits.Laws.{
  bit, bit-lt, bit_of_zero, bit-and, bit-or, bit-xor, xor-lt, or-lt, and-lt,
}
use ascon_suite_tcc.Core.Word.Bits.{
  IsWord, word_ext, not-IsWord, bit-not64, rotate-IsWord, bit-rotate,
}
use ascon_suite_tcc.Core.Word.Symbolic.{
  Symbol, var, blank, sum, meet, join, complement, turn, eval, insert_atom, times, same, toggle,
  plus, scale, product, norm,
}

same_sound : (m n : List ℕ) → same m n ≡ true → m ≡ n
unfolding same
same_sound [] [] h = refl
same_sound [] (b ∷ n) h = absurd (ground arith)
same_sound (a ∷ m) [] h = absurd (ground arith)
same_sound (a ∷ m) (b ∷ n) h = ground (arith, same_sound m n)

module _ (env : ℕ → ℕ) (i : ℕ) where
  abbrev atom_bit : ℕ → ℕ
  atom_bit a = bit (env (a / 64)) ((i + a % 64) % 64)

  unfoldable mono : List ℕ → ℕ
  mono [] = 1
  mono (a ∷ m) = min (atom_bit a) (mono m)

  unfoldable poly : List (List ℕ) → ℕ
  poly [] = 0
  poly (m ∷ p) = (mono m + poly p) % 2

  mono-lt : (m : List ℕ) → mono m < 2
  unfolding mono
  mono-lt [] = omega arith
  mono-lt (a ∷ m) = omega (arith, mono-lt m)

  poly-lt : (p : List (List ℕ)) → poly p < 2
  unfolding poly
  poly-lt [] = omega arith
  poly-lt (m ∷ p) = omega arith

  insert_lem : (a : ℕ) (m : List ℕ) → mono (insert_atom a m) ≡ min (atom_bit a) (mono m)
  unfolding mono insert_atom
  insert_lem a [] = refl
  insert_lem a (b ∷ m) = elim (Bool-cases (a == b)) [
    | inl e ↦ rw e (let at = (==_iff a b).0 e in rw at (omega arith))
    | inr e ↦ rw e (elim (Bool-cases (ltb a b)) [
      | inl f ↦ rw f refl
      | inr f ↦ rw f (omega (arith, insert_lem a m))
    ])
  ]

  times_lem : (m n : List ℕ) → mono (times m n) ≡ min (mono m) (mono n)
  unfolding mono times
  times_lem [] n = omega (arith, mono-lt n)
  times_lem (a ∷ m) n = omega (arith, insert_lem a (times m n), times_lem m n)

  toggle_lem : (m : List ℕ) (p : List (List ℕ)) → poly (toggle m p) ≡ (mono m + poly p) % 2
  unfolding poly toggle
  toggle_lem m [] = refl
  toggle_lem m (n ∷ p) = elim (Bool-cases (same m n)) [
    | inl e ↦ rw e (omega (arith, ap mono (same_sound m n e), poly-lt p))
    | inr e ↦ rw e (omega (arith, toggle_lem m p))
  ]

  plus_lem : (p q : List (List ℕ)) → poly (plus p q) ≡ (poly p + poly q) % 2
  unfolding poly plus
  plus_lem [] q = omega (arith, poly-lt q)
  plus_lem (m ∷ p) q = omega (arith, toggle_lem m (plus p q), plus_lem p q)

  scale_lem : (m : List ℕ) (q : List (List ℕ)) → poly (scale m q) ≡ min (mono m) (poly q)
  unfolding poly scale
  scale_lem m [] = omega arith
  scale_lem m (n ∷ q) = omega (
    arith,
    toggle_lem (times m n) (scale m q),
    times_lem m n,
    scale_lem m q,
    mono-lt m,
    mono-lt n,
    poly-lt q,
  )

  product_lem : (p q : List (List ℕ)) → poly (product p q) ≡ min (poly p) (poly q)
  unfolding poly product
  product_lem [] q = omega arith
  product_lem (m ∷ p) q = omega (
    arith,
    plus_lem (scale m q) (product p q),
    scale_lem m q,
    product_lem p q,
    mono-lt m,
    poly-lt p,
    poly-lt q,
  )

module _ (env : ℕ → ℕ) (small : (v : ℕ) → IsWord (env v)) where
  pub eval-IsWord : (e : Symbol) → IsWord (eval env e)
  unfolding eval
  eval-IsWord (var v) = small v
  eval-IsWord blank = omega arith
  eval-IsWord (sum a b) = xor-lt 64 (eval env a) (eval env b) (eval-IsWord a) (eval-IsWord b)
  eval-IsWord (meet a b) = and-lt 64 (eval env a) (eval env b) (eval-IsWord a)
  eval-IsWord (join a b) = or-lt 64 (eval env a) (eval env b) (eval-IsWord a) (eval-IsWord b)
  eval-IsWord (complement a) = not-IsWord (eval env a)
  eval-IsWord (turn a k) = rotate-IsWord (eval env a) (k % 64) (eval-IsWord a)

  norm_lem :
      (e : Symbol) (s i : ℕ) → s < 64 → bit (eval env e) ((i + s) % 64) ≡ poly env i (norm e s)
  unfolding eval norm poly mono
  norm_lem (var v) s i h =
      let at : (64 * v + s) / 64 ≡ v = omega arith in
      let by : (64 * v + s) % 64 ≡ s = omega arith in
      rw (at, by) (omega (arith, bit-lt (env v) ((i + s) % 64)))
  norm_lem blank s i h = bit_of_zero ((i + s) % 64)
  norm_lem (sum a b) s i h = omega (
    arith,
    bit-xor (eval env a) (eval env b) ((i + s) % 64),
    norm_lem a s i h,
    norm_lem b s i h,
    plus_lem env i (norm a s) (norm b s),
  )
  norm_lem (meet a b) s i h = omega (
    arith,
    bit-and (eval env a) (eval env b) ((i + s) % 64),
    norm_lem a s i h,
    norm_lem b s i h,
    product_lem env i (norm a s) (norm b s),
  )
  norm_lem (join a b) s i h =
      let p = norm a s in
      let q = norm b s in
      omega (
        arith,
        bit-or (eval env a) (eval env b) ((i + s) % 64),
        norm_lem a s i h,
        norm_lem b s i h,
        plus_lem env i (product p q) (plus p q),
        plus_lem env i p q,
        product_lem env i p q,
        poly-lt env i p,
        poly-lt env i q,
      )
  norm_lem (complement a) s i h =
      let at : (i + s) % 64 < 64 = omega arith in
      omega (
        arith,
        bit-not64 (eval env a) ((i + s) % 64) (eval-IsWord a) at,
        norm_lem a s i h,
        toggle_lem env i [] (norm a s),
        poly-lt env i (norm a s),
      )
  norm_lem (turn a k) s i h =
      let s' = (s + k % 64) % 64 in
      let at : ((i + s) % 64 + k % 64) % 64 ≡ (i + s') % 64 = omega arith in
      bit-rotate (eval env a) (k % 64) ((i + s) % 64) (eval-IsWord a) (omega arith) (omega arith)
      ∙ (ap (bit (eval env a)) at ∙ norm_lem a s' i (omega arith))

  -- Two symbolic words whose sum cancels stand for the same word, whatever the variables are.
  pub decide_words : (a b : Symbol) → plus (norm a 0) (norm b 0) ≡ [] → eval env a ≡ eval env b
  unfolding poly
  decide_words a b h = word_ext (eval env a) (eval env b) (eval-IsWord a) (eval-IsWord b) agree
    where
      agree : (i : ℕ) → i < 64 → bit (eval env a) i ≡ bit (eval env b) i
      agree i k =
          let at : (i + 0) % 64 ≡ i = omega arith in
          let none : poly env i (plus (norm a 0) (norm b 0)) ≡ 0 = ap (poly env i) h in
          let both = plus_lem env i (norm a 0) (norm b 0) in
          let p = ap (bit (eval env a)) (sym at) ∙ norm_lem a 0 i (omega arith) in
          let q = ap (bit (eval env b)) (sym at) ∙ norm_lem b 0 i (omega arith) in
          omega (arith, p, q, none, both, poly-lt env i (norm a 0), poly-lt env i (norm b 0))

-- The values of the variables as a list.
abbrev pub values : List ℕ → ℕ → ℕ
values xs v = get_or xs v 0

abbrev pub AllWords : List ℕ → Type 0
AllWords [] = Unit
AllWords (x ∷ xs) = IsWord x × AllWords xs

pub values-IsWord : (xs : List ℕ) → AllWords xs → (v : ℕ) → IsWord (values xs v)
values-IsWord [] h v = omega arith
values-IsWord (x ∷ xs) h zero = h.0
values-IsWord (x ∷ xs) h (suc v) = values-IsWord xs h.1 v

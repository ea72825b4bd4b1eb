-- ===== src/Core/Word/Symbolic.antt =====
-- Code on 64-bit words that runs on symbolic words too, and a decision by polynomials: two symbolic
-- words are equal for all values when the bits of their sum cancel.
pub mod Sound
use ascon_suite_tcc.Base.{
  ℕ, zero, suc, ◌+◌, ◌*◌, ◌/◌, ◌%◌, bit_and, bit_or, bit_xor, Bool, true, false, ◌&&◌, List, [],
  ◌∷◌, ltb, ◌==◌, if◌then◌else◌,
}
use ascon_suite_tcc.Core.Word.{not64, right_rotate_64}

-- The operations of C on `uint64_t` that the code uses: `^`, `&`, `|`, `~` and `rightRotateK_64`.
pub record Ops (W : Type 0) : Type 0 where
  pub xor : W → W → W
  pub and : W → W → W
  pub or : W → W → W
  pub inv : W → W
  pub rot : W → ℕ → W

abbrev pub words : Ops ℕ
words = record {
  xor = bit_xor;
  and = bit_and;
  or = bit_or;
  inv = not64;
  rot = λ x k. right_rotate_64 x (k % 64);
}

pub data Symbol : Type 0 where
  var : ℕ → Symbol
  blank : Symbol
  sum : Symbol → Symbol → Symbol
  meet : Symbol → Symbol → Symbol
  join : Symbol → Symbol → Symbol
  complement : Symbol → Symbol
  turn : Symbol → ℕ → Symbol

abbrev pub symbols : Ops Symbol
symbols = record { xor = sum; and = meet; or = join; inv = complement; rot = turn }

-- the word that a symbolic word stands for
unfoldable pub eval : (ℕ → ℕ) → Symbol → ℕ
eval env (var v) = env v
eval env blank = 0
eval env (sum a b) = bit_xor (eval env a) (eval env b)
eval env (meet a b) = bit_and (eval env a) (eval env b)
eval env (join a b) = bit_or (eval env a) (eval env b)
eval env (complement a) = not64 (eval env a)
eval env (turn a k) = right_rotate_64 (eval env a) (k % 64)

-- A monomial is a sorted list of atoms, and a polynomial a list of monomials, added without carry.
-- The atom `64 * v + k` is bit `i + k` of variable `v`, where bit `i` is asked for.
unfoldable pub insert_atom : ℕ → List ℕ → List ℕ
insert_atom a [] = a ∷ []
insert_atom a (b ∷ m) =
    let rest = insert_atom a m in if a == b then b ∷ m else if ltb a b then a ∷ b ∷ m else b ∷ rest

unfoldable pub times : List ℕ → List ℕ → List ℕ
times [] n = n
times (a ∷ m) n = insert_atom a (times m n)

unfoldable pub same : List ℕ → List ℕ → Bool
same [] [] = true
same [] (b ∷ n) = false
same (a ∷ m) [] = false
same (a ∷ m) (b ∷ n) = (a == b) && same m n

-- A monomial that is added twice is gone.
unfoldable pub toggle : List ℕ → List (List ℕ) → List (List ℕ)
toggle m [] = m ∷ []
toggle m (n ∷ p) = let rest = toggle m p in if same m n then p else n ∷ rest

unfoldable pub plus : List (List ℕ) → List (List ℕ) → List (List ℕ)
plus [] q = q
plus (m ∷ p) q = toggle m (plus p q)

unfoldable pub scale : List ℕ → List (List ℕ) → List (List ℕ)
scale m [] = []
scale m (n ∷ q) = toggle (times m n) (scale m q)

unfoldable pub product : List (List ℕ) → List (List ℕ) → List (List ℕ)
product [] q = []
product (m ∷ p) q = plus (scale m q) (product p q)

-- the bits of a symbolic word, turned by `s`
unfoldable pub norm : Symbol → ℕ → List (List ℕ)
unfolding insert_atom times same toggle plus scale product
norm (var v) s = ((64 * v + s) ∷ []) ∷ []
norm blank s = []
norm (sum a b) s = plus (norm a s) (norm b s)
norm (meet a b) s = product (norm a s) (norm b s)
norm (join a b) s = let p = norm a s in let q = norm b s in plus (product p q) (plus p q)
norm (complement a) s = toggle [] (norm a s)
norm (turn a k) s = norm a ((s + k % 64) % 64)

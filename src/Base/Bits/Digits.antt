-- ===== src/Base/Bits/Digits.antt =====
-- The lowest binary digit of `&`, `|` and `^`, and what is left above it, from the recursion on
-- digits that the native operations stand for.
use Prim.Native.Nat.{
  ℕ, zero, suc, ◌+◌, ◌*◌, ◌/◌, ◌%◌, ◌≤◌, ◌<◌, min, max, bit_and, bit_or, bit_xor, digits, differ,
  bit_and-bitwise, bit_or-bitwise, bit_xor-bitwise,
}
use mathlib.Core.Path.{◌≡◌, refl}
use native.Mathlib.Omega.{arith}

-- Any count of digits that is no smaller than the first number gives the same result.
module _ (over : ℕ → ℕ) (op : ℕ → ℕ → ℕ) where
  digits_settle :
      (more a b : ℕ) (count : ℕ)
      → a ≤ count
      → a ≤ more
      → digits over op count a b ≡ digits over op more a b
  digits_settle zero zero b zero h k = refl
  digits_settle (suc more) zero b zero h k = refl
  digits_settle zero zero b (suc count) h k = refl
  digits_settle (suc more) zero b (suc count) h k = refl
  digits_settle zero (suc a) b count h k = absurd (omega arith)
  digits_settle (suc more) (suc a) b zero h k = absurd (omega arith)
  digits_settle (suc more) (suc a) b (suc count) h k =
      rw (digits_settle more (suc a / 2) (b / 2) count (omega arith) (omega arith))

  digits_split :
      (a b : ℕ)
      → digits over op (suc a) (suc a) b
        ≡ digits over op (suc a / 2) (suc a / 2) (b / 2) * 2 + op (suc a % 2) (b % 2)
  digits_split a b =
      omega (arith, digits_settle (suc a / 2) (suc a / 2) (b / 2) a (omega arith) (omega arith))

and_split : (a b : ℕ) → bit_and a b ≡ bit_and (a / 2) (b / 2) * 2 + min (a % 2) (b % 2)
and_split zero b = simp bit_and-bitwise (omega arith)
and_split (suc a) b = simp bit_and-bitwise (digits_split (λ _. 0) min a b)

or_split : (a b : ℕ) → bit_or a b ≡ bit_or (a / 2) (b / 2) * 2 + max (a % 2) (b % 2)
or_split zero b = simp bit_or-bitwise (omega arith)
or_split (suc a) b = simp bit_or-bitwise (digits_split (λ y. y) max a b)

differ_parity : (x y : ℕ) → x < 2 → y < 2 → differ x y ≡ (x + y) % 2
differ_parity zero y h k = omega arith
differ_parity (suc zero) zero h k = refl
differ_parity (suc zero) (suc zero) h k = refl
differ_parity (suc zero) (suc (suc y)) h k = absurd (omega arith)
differ_parity (suc (suc x)) y h k = absurd (omega arith)

xor_split : (a b : ℕ) → bit_xor a b ≡ bit_xor (a / 2) (b / 2) * 2 + (a % 2 + b % 2) % 2
xor_split zero b = simp bit_xor-bitwise (omega arith)
xor_split (suc a) b = simp bit_xor-bitwise (
    omega (
      arith,
      digits_split (λ y. y) differ a b,
      differ_parity (suc a % 2) (b % 2) (omega arith) (omega arith),
    ))

pub and_half : (a b : ℕ) → bit_and a b / 2 ≡ bit_and (a / 2) (b / 2)
and_half a b = omega (arith, and_split a b)

pub and_low : (a b : ℕ) → bit_and a b % 2 ≡ min (a % 2) (b % 2)
and_low a b = omega (arith, and_split a b)

pub or_half : (a b : ℕ) → bit_or a b / 2 ≡ bit_or (a / 2) (b / 2)
or_half a b = omega (arith, or_split a b)

pub or_low : (a b : ℕ) → bit_or a b % 2 ≡ max (a % 2) (b % 2)
or_low a b = omega (arith, or_split a b)

pub xor_half : (a b : ℕ) → bit_xor a b / 2 ≡ bit_xor (a / 2) (b / 2)
xor_half a b = omega (arith, xor_split a b)

pub xor_low : (a b : ℕ) → bit_xor a b % 2 ≡ (a % 2 + b % 2) % 2
xor_low a b = omega (arith, xor_split a b)

pub zero_and : (b : ℕ) → bit_and 0 b ≡ 0
zero_and b = bit_and-bitwise 0 b

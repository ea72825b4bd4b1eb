-- ===== src/Base/Bits/Laws.antt =====
-- Single bits of a number, extensionality, and the algebra of `&`, `|` and `^` that follows.
use Prim.Native.Nat.{ℕ, zero, suc, ◌+◌, ◌/◌, ◌%◌, ◌^◌, ◌≤◌, ◌<◌, min, max, bit_and, bit_or, bit_xor}
use mathlib.Core.Path.{◌≡◌, refl, ap}
use native.Mathlib.Nat.{pow-suc}
use native.Mathlib.Omega.{arith}
use ascon_suite_tcc.Base.Bits.Digits.{
  zero_and, and_half, and_low, or_half, or_low, xor_half, xor_low,
}

-- Bit `i` of `a`, counted from the lowest.
abbrev pub bit : ℕ → ℕ → ℕ
bit a zero = a % 2
bit a (suc i) = bit (a / 2) i

pub bit-lt : (a i : ℕ) → bit a i < 2
bit-lt a zero = omega arith
bit-lt a (suc i) = bit-lt (a / 2) i

pub bit-and : (a b i : ℕ) → bit (bit_and a b) i ≡ min (bit a i) (bit b i)
bit-and a b zero = and_low a b
bit-and a b (suc i) = rw and_half (bit-and (a / 2) (b / 2) i)

pub bit-or : (a b i : ℕ) → bit (bit_or a b) i ≡ max (bit a i) (bit b i)
bit-or a b zero = or_low a b
bit-or a b (suc i) = rw or_half (bit-or (a / 2) (b / 2) i)

pub bit-xor : (a b i : ℕ) → bit (bit_xor a b) i ≡ (bit a i + bit b i) % 2
bit-xor a b zero = xor_low a b
bit-xor a b (suc i) = rw xor_half (bit-xor (a / 2) (b / 2) i)

half-lt : (w a : ℕ) → a < 2 ^ suc w → a / 2 < 2 ^ w
half-lt w a h = omega (arith, pow-suc 2 w)

-- Numbers of `w` bits that agree in each of them are equal.
pub bit_ext : (w a b : ℕ) → a < 2 ^ w → b < 2 ^ w → ((i : ℕ) → i < w → bit a i ≡ bit b i) → a ≡ b
bit_ext zero a b ha hb h = omega arith
bit_ext (suc w) a b ha hb h = omega (
  arith,
  h 0 (omega arith),
  bit_ext w (a / 2) (b / 2) (half-lt w a ha) (half-lt w b hb) (λ i k. h (suc i) (omega arith)),
)

pub lt-two-pow : (a : ℕ) → a < 2 ^ a
lt-two-pow zero = omega arith
lt-two-pow (suc a) = omega (arith, lt-two-pow a, pow-suc 2 a)

-- The operations do not leave the width.
pub xor-lt : (w a b : ℕ) → a < 2 ^ w → b < 2 ^ w → bit_xor a b < 2 ^ w
xor-lt zero a b ha hb =
    let ea : a ≡ 0 = omega arith in let eb : b ≡ 0 = omega arith in rw (ea, eb) (omega arith)
xor-lt (suc w) a b ha hb =
    omega
      (arith, pow-suc 2 w, xor_half a b, xor-lt w (a / 2) (b / 2) (half-lt w a ha) (half-lt w b hb))

pub or-lt : (w a b : ℕ) → a < 2 ^ w → b < 2 ^ w → bit_or a b < 2 ^ w
or-lt zero a b ha hb =
    let ea : a ≡ 0 = omega arith in let eb : b ≡ 0 = omega arith in rw (ea, eb) (omega arith)
or-lt (suc w) a b ha hb =
    omega
      (arith, pow-suc 2 w, or_half a b, or-lt w (a / 2) (b / 2) (half-lt w a ha) (half-lt w b hb))

-- `&` with any number stays below a bound of its first argument.
pub and-lt : (w a b : ℕ) → a < 2 ^ w → bit_and a b < 2 ^ w
and-lt zero a b ha = let ea : a ≡ 0 = omega arith in rw ea (omega (arith, zero_and b))
and-lt (suc w) a b ha =
    omega (arith, pow-suc 2 w, and_half a b, and-lt w (a / 2) (b / 2) (half-lt w a ha))

-- Extensionality without a width: `top` only bounds the recursion.
ext_below : (top a b : ℕ) → a ≤ top → b ≤ top → ((i : ℕ) → bit a i ≡ bit b i) → a ≡ b
ext_below zero a b ha hb h = omega arith
ext_below (suc top) zero zero ha hb h = refl
ext_below (suc top) a b ha hb h =
    omega (arith, h 0, ext_below top (a / 2) (b / 2) (omega arith) (omega arith) (λ i. h (suc i)))

pub bit_ext_all : (a b : ℕ) → ((i : ℕ) → bit a i ≡ bit b i) → a ≡ b
bit_ext_all a b h = ext_below (a + b) a b (omega arith) (omega arith) h

pub xor_cancel : (a b : ℕ) → bit_xor (bit_xor a b) b ≡ a
xor_cancel a b =
    bit_ext_all _ a
      λ i. omega (arith, bit-xor (bit_xor a b) b i, bit-xor a b i, bit-lt a i, bit-lt b i)

pub xor_comm : (a b : ℕ) → bit_xor a b ≡ bit_xor b a
xor_comm a b = bit_ext_all _ _ λ i. omega (arith, bit-xor a b i, bit-xor b a i)

pub xor_assoc : (a b c : ℕ) → bit_xor (bit_xor a b) c ≡ bit_xor a (bit_xor b c)
xor_assoc a b c = bit_ext_all _ _ λ i.
    omega
      (arith, bit-xor (bit_xor a b) c i, bit-xor a b i, bit-xor a (bit_xor b c) i, bit-xor b c i)

pub bit_of_zero : (i : ℕ) → bit 0 i ≡ 0
bit_of_zero zero = refl
bit_of_zero (suc i) = bit_of_zero i

pub xor_self : (a : ℕ) → bit_xor a a ≡ 0
xor_self a = bit_ext_all _ _ λ i. omega (arith, bit-xor a a i, bit_of_zero i)

pub zero_xor : (a : ℕ) → bit_xor 0 a ≡ a
zero_xor a = bit_ext_all _ _ λ i. omega (arith, bit-xor 0 a i, bit_of_zero i, bit-lt a i)

pub xor_cancel_left : (a b : ℕ) → bit_xor a (bit_xor a b) ≡ b
xor_cancel_left a b =
    bit_ext_all _ b
      λ i. omega (arith, bit-xor a (bit_xor a b) i, bit-xor a b i, bit-lt a i, bit-lt b i)

pub and-zero : (a : ℕ) → bit_and a 0 ≡ 0
and-zero a = bit_ext_all _ _ λ i. omega (arith, bit-and a 0 i, bit_of_zero i)

pub or_eq_zero : (a b : ℕ) → bit_or a b ≡ 0 → (a ≡ 0) × (b ≡ 0)
or_eq_zero a b h = (
  bit_ext_all a 0 (λ i. omega (arith, bit-or a b i, bit_of_zero i, ap (λ (x : ℕ). bit x i) h)),
  bit_ext_all b 0 (λ i. omega (arith, bit-or a b i, bit_of_zero i, ap (λ (x : ℕ). bit x i) h)),
)

pub or_comm : (a b : ℕ) → bit_or a b ≡ bit_or b a
or_comm a b = bit_ext_all _ _ λ i. omega (arith, bit-or a b i, bit-or b a i)

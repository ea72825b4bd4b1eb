-- ===== src/Base/Bits/Shifts.antt =====
-- The bits of a number that is shifted, cut to a width, or complemented.
use Prim.Native.Nat.{ℕ, zero, suc, ◌+◌, ◌-◌, ◌*◌, ◌/◌, ◌%◌, ◌^◌, ◌≤◌, ◌<◌}
use mathlib.Core.Path.{◌≡◌, refl, sym, ap, ◌∙◌}
use native.Mathlib.Nat.{
  pow-suc, mod-add-div, mod-lt, mul-add-mod_self_left, mod-eq_of_lt, div-div-eq-div-mul, mul_comm,
  mul_assoc,
}
use native.Mathlib.Omega.{arith}
use ascon_suite_tcc.Base.Bits.Laws.{bit}

div_one : (x : ℕ) → x / 1 ≡ x
div_one x = omega arith

mul_one : (x : ℕ) → x * 1 ≡ x
mul_one x = omega arith

add_zero : (x : ℕ) → x + 0 ≡ x
add_zero x = omega arith

add_suc : (i k : ℕ) → i + suc k ≡ suc (i + k)
add_suc i k = omega arith

half_pow : (x k : ℕ) → x / 2 ^ suc k ≡ x / 2 / 2 ^ k
half_pow x k =
    ap (λ m. x / m) (pow-suc 2 k ∙ mul_comm (2 ^ k) 2) ∙ sym (div-div-eq-div-mul x 2 (2 ^ k))

pub bit-div : (x k i : ℕ) → bit (x / 2 ^ k) i ≡ bit x (i + k)
bit-div x zero i = rw (div_one x, add_zero i) refl
bit-div x (suc k) i =
    ap (λ y. bit y i) (half_pow x k) ∙ (bit-div (x / 2) k i ∙ ap (bit x) (sym (add_suc i k)))

pub pow_pos : (w : ℕ) → 0 < 2 ^ w
pow_pos zero = omega arith
pow_pos (suc w) = omega (arith, pow-suc 2 w, pow_pos w)

split_double : (x m : ℕ) → x ≡ 2 * m * (x / 2 / m) + (2 * (x / 2 % m) + x % 2)
split_double x m = omega (arith, mod-add-div (x / 2) m, mul_assoc 2 m (x / 2 / m))

double_mod : (x m : ℕ) → 0 < m → x % (2 * m) ≡ 2 * (x / 2 % m) + x % 2
double_mod x m h =
    ap (λ y. y % (2 * m)) (split_double x m)
    ∙ (mul-add-mod_self_left (2 * m) (x / 2 / m) (2 * (x / 2 % m) + x % 2)
        ∙ mod-eq_of_lt (omega (arith, mod-lt (x / 2) h)))

mod_pow : (x w : ℕ) → x % 2 ^ suc w ≡ 2 * (x / 2 % 2 ^ w) + x % 2
mod_pow x w = ap (λ n. x % n) (pow-suc 2 w ∙ mul_comm (2 ^ w) 2) ∙ double_mod x (2 ^ w) (pow_pos w)

-- Cutting to `w` bits keeps the bits below `w`.
pub bit-mod : (x w i : ℕ) → i < w → bit (x % 2 ^ w) i ≡ bit x i
bit-mod x zero i h = absurd (omega arith)
bit-mod x (suc w) zero h = omega (arith, mod_pow x w)
bit-mod x (suc w) (suc i) h = ap (λ y. bit y i) half ∙ bit-mod (x / 2) w i (omega arith)
  where
    half : x % 2 ^ suc w / 2 ≡ x / 2 % 2 ^ w
    half = omega (arith, mod_pow x w)

-- A number of `w` bits has no bits above.
pub bit_high : (w x i : ℕ) → x < 2 ^ w → w ≤ i → bit x i ≡ 0
bit_high zero x i h k = ap (λ y. bit y i) (omega arith) ∙ zeros i
  where
    zeros : (i : ℕ) → bit 0 i ≡ 0
    zeros zero = refl
    zeros (suc i) = zeros i
bit_high (suc w) x zero h k = absurd (omega arith)
bit_high (suc w) x (suc i) h k = bit_high w (x / 2) i (omega (arith, pow-suc 2 w)) (omega arith)

-- A shift to the left: zeros come in from below.
double_half : (x k : ℕ) → (x * 2 ^ suc k / 2 ≡ x * 2 ^ k) × (x * 2 ^ suc k % 2 ≡ 0)
double_half x k =
    let e : x * 2 ^ suc k ≡ x * 2 ^ k * 2 =
      ap (λ m. x * m) (pow-suc 2 k) ∙ sym (mul_assoc x (2 ^ k) 2) in
    (omega arith, omega arith)

pub bit-mul_low : (x k i : ℕ) → i < k → bit (x * 2 ^ k) i ≡ 0
bit-mul_low x zero i h = absurd (omega arith)
bit-mul_low x (suc k) zero h = (double_half x k).1
bit-mul_low x (suc k) (suc i) h =
    ap (λ y. bit y i) (double_half x k).0 ∙ bit-mul_low x k i (omega arith)

pub bit-mul : (x k i : ℕ) → bit (x * 2 ^ k) (i + k) ≡ bit x i
bit-mul x zero i = rw (mul_one x, add_zero i) refl
bit-mul x (suc k) i =
    ap (bit (x * 2 ^ suc k)) (add_suc i k)
    ∙ (ap (λ y. bit y (i + k)) (double_half x k).0 ∙ bit-mul x k i)

-- The complement in `w` bits.
pub bit-not : (w x i : ℕ) → x < 2 ^ w → i < w → bit (2 ^ w - 1 - x) i ≡ 1 - bit x i
bit-not zero x i h k = absurd (omega arith)
bit-not (suc w) x zero h k = omega (arith, pow-suc 2 w, pow_pos w)
bit-not (suc w) x (suc i) h k =
    ap (λ y. bit y i) half ∙ bit-not w (x / 2) i (omega (arith, pow-suc 2 w)) (omega arith)
  where
    half : (2 ^ suc w - 1 - x) / 2 ≡ 2 ^ w - 1 - x / 2
    half = omega (arith, pow-suc 2 w)

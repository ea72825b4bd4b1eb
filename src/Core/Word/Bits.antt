-- ===== src/Core/Word/Bits.antt =====
-- The bits of a 64-bit word: a word is known by its bits, and each operation of C acts on them.
use ascon_suite_tcc.Base.{
  ℕ, ◌+◌, ◌-◌, ◌*◌, ◌/◌, ◌%◌, ◌^◌, ◌<◌, ◌≤◌, ◌≡◌, sym, ap, ap₂, ◌∙◌, arith, inl, inr, Bool-cases,
  ltb, ltb→lt,
}
use Prim.Native.Nat.{max}
use native.Mathlib.Nat.{div-le_self}
use ascon_suite_tcc.Base.Bits.Laws.{bit, bit-or, bit_ext, or-lt}
use ascon_suite_tcc.Base.Bits.Shifts.{bit-div, bit-mod, bit_high, bit-mul_low, bit-mul, bit-not}
use ascon_suite_tcc.Core.Word.{not64, right_rotate_64}

max_zero : (n : ℕ) → max n 0 ≡ n
max_zero n = omega arith

zero_max : (n : ℕ) → max 0 n ≡ n
zero_max n = omega arith

-- a `uint64_t`
abbrev pub IsWord : ℕ → Type 0
IsWord x = x < 2 ^ 64

pub word_ext : (x y : ℕ) → IsWord x → IsWord y → ((i : ℕ) → i < 64 → bit x i ≡ bit y i) → x ≡ y
word_ext x y h k e = bit_ext 64 x y h k e

pub not-IsWord : (x : ℕ) → IsWord (not64 x)
unfolding not64
not-IsWord x = omega arith

pub bit-not64 : (x i : ℕ) → IsWord x → i < 64 → bit (not64 x) i ≡ 1 - bit x i
unfolding not64
bit-not64 x i h k = bit-not 64 x i h k

pub rotate-IsWord : (x k : ℕ) → IsWord x → IsWord (right_rotate_64 x k)
unfolding right_rotate_64
rotate-IsWord x k h =
    or-lt 64 (x / 2 ^ k) (x * 2 ^ (64 - k) % 2 ^ 64) (omega (arith, div-le_self x (2 ^ k)))
      (omega arith)

-- A rotation to the right by `k` moves bit `i + k` to `i`, round the word.
pub bit-rotate :
    (x k i : ℕ) → IsWord x → k < 64 → i < 64 → bit (right_rotate_64 x k) i ≡ bit x ((i + k) % 64)
unfolding right_rotate_64
bit-rotate x k i h hk hi =
    bit-or (x / 2 ^ k) (x * 2 ^ (64 - k) % 2 ^ 64) i
    ∙ (ap₂ max (bit-div x k i) (bit-mod (x * 2 ^ (64 - k)) 64 i hi)
        ∙ elim (Bool-cases (ltb (i + k) 64)) [
          | inl below ↦
              let low = ltb→lt (i + k) 64 below in
              let none = bit-mul_low x (64 - k) i (omega arith) in
              let same : (i + k) % 64 ≡ i + k = omega arith in
              ap (max (bit x (i + k))) none ∙ (max_zero (bit x (i + k)) ∙ ap (bit x) (sym same))
          | inr above ↦
              let high : 64 ≤ i + k = ground arith in
              let j = i + k - 64 in
              let none = bit_high 64 x (i + k) h high in
              let at : i ≡ j + (64 - k) = omega arith in
              let same : (i + k) % 64 ≡ j = omega arith in
              ap₂ max none (ap (bit (x * 2 ^ (64 - k))) at ∙ bit-mul x (64 - k) j)
              ∙ (zero_max (bit x j) ∙ ap (bit x) (sym same))
        ])

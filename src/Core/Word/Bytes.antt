-- ===== src/Core/Word/Bytes.antt =====
-- The loads and stores of words as arithmetic on bytes, and their round trips.
use ascon_suite_tcc.Base.{
  length, take, ℕ, ◌+◌, ◌-◌, ◌*◌, ◌/◌, ◌%◌, ◌^◌, ◌<◌, ◌≤◌, ◌≡◌, refl, sym, ap, ap₂, ◌∙◌, arith,
  bit_or, bit_xor, inl, inr, Bool-cases, ltb, ltb→lt, List, [], ◌∷◌, get_or,
}
use native.Mathlib.Nat.{add-zero, mul-add-div_right, mul-add-mod_self_right, div-eq_of_lt}
use ascon_suite_tcc.Base.Bits.Laws.{bit, bit-lt, bit-or, bit-xor, bit_ext_all}
use ascon_suite_tcc.Base.Bits.Shifts.{bit-div, bit-mod, bit_high, bit-mul_low, bit-mul}
use ascon_suite_tcc.Base.Bytes.{IsBytes, get_or-lt}
use ascon_suite_tcc.Core.Word.{be_load_word64, be_load_word32, be_store_word64}
use ascon_suite_tcc.Core.Word.Bits.{IsWord}

-- The bits of a multiple of `2 ^ k` and of a number below `2 ^ k` do not meet.
module _ (q y k : ℕ) (h : y < 2 ^ k) where
  low_bit : (i : ℕ) → i < k → bit (q * 2 ^ k + y) i ≡ bit y i
  low_bit i l =
      sym (bit-mod (q * 2 ^ k + y) k i l)
      ∙ (ap (λ z. bit z i) (mul-add-mod_self_right q (2 ^ k) y) ∙ bit-mod y k i l)

  high_bit : (j : ℕ) → bit (q * 2 ^ k + y) (j + k) ≡ bit q j
  high_bit j =
      let none : y / 2 ^ k ≡ 0 = div-eq_of_lt h in
      let all : (q * 2 ^ k + y) / 2 ^ k ≡ q + y / 2 ^ k = mul-add-div_right (omega arith) q y in
      sym (bit-div (q * 2 ^ k + y) k j)
      ∙ ap (λ z. bit z j) (all ∙ (ap (λ z. q + z) none ∙ add-zero q))

  bits_apart :
      (f : ℕ)
      → ((i : ℕ) → bit y i ≡ 0 → bit f i ≡ bit (q * 2 ^ k) i)
      → ((i : ℕ) → bit (q * 2 ^ k) i ≡ 0 → bit f i ≡ bit y i)
      → f ≡ q * 2 ^ k + y
  bits_apart f e e' = bit_ext_all f (q * 2 ^ k + y) λ i. elim (Bool-cases (ltb i k)) [
    | inl below ↦ let l = ltb→lt i k below in e' i (bit-mul_low q k i l) ∙ sym (low_bit i l)
    | inr above ↦
        let high : k ≤ i = ground arith in
        let j = i - k in
        let at : i ≡ j + k = omega arith in
        let out = e (j + k) (bit_high k y (j + k) h (omega arith)) in
        rw at (out ∙ (bit-mul q k j ∙ sym (high_bit j)))
  ]

  pub or_apart : bit_or (q * 2 ^ k) y ≡ q * 2 ^ k + y
  or_apart =
      bits_apart (bit_or (q * 2 ^ k) y) (λ i e. omega (arith, bit-or (q * 2 ^ k) y i, e))
        (λ i e. omega (arith, bit-or (q * 2 ^ k) y i, e))

  pub xor_apart : bit_xor (q * 2 ^ k) y ≡ q * 2 ^ k + y
  xor_apart =
      bits_apart (bit_xor (q * 2 ^ k) y)
        (λ i e. omega (arith, bit-xor (q * 2 ^ k) y i, bit-lt (q * 2 ^ k) i, e))
        (λ i e. omega (arith, bit-xor (q * 2 ^ k) y i, bit-lt y i, e))

-- the eight bytes at `ptr` as a number
abbrev pub number64 : List ℕ → ℕ
number64 ptr =
    get_or ptr 0 0 * 2 ^ 56
    + get_or ptr 1 0 * 2 ^ 48
    + get_or ptr 2 0 * 2 ^ 40
    + get_or ptr 3 0 * 2 ^ 32
    + get_or ptr 4 0 * 2 ^ 24
    + get_or ptr 5 0 * 2 ^ 16
    + get_or ptr 6 0 * 2 ^ 8
    + get_or ptr 7 0

or_eight :
    (a b c d e f g h : ℕ)
    → a < 256
    → b < 256
    → c < 256
    → d < 256
    → e < 256
    → f < 256
    → g < 256
    → h < 256
    → bit_or
        (bit_or
          (bit_or
            (bit_or
              (bit_or
                (bit_or (bit_or (a * 2 ^ 56 % 2 ^ 64) (b * 2 ^ 48 % 2 ^ 64)) (c * 2 ^ 40 % 2 ^ 64))
                (d * 2 ^ 32 % 2 ^ 64))
              (e * 2 ^ 24 % 2 ^ 64))
            (f * 2 ^ 16 % 2 ^ 64))
          (g * 2 ^ 8 % 2 ^ 64))
        h
      ≡ a * 2 ^ 56 + b * 2 ^ 48 + c * 2 ^ 40 + d * 2 ^ 32 + e * 2 ^ 24 + f * 2 ^ 16 + g * 2 ^ 8 + h
or_eight a b c d e f g h ha hb hc hd he hf hg hh =
    let q0 = a in
    let s0 : a * 2 ^ 56 % 2 ^ 64 ≡ q0 * 2 ^ 56 = omega arith in
    let q1 = q0 * 256 + b in
    let t1 : b * 2 ^ 48 % 2 ^ 64 ≡ b * 2 ^ 48 = omega arith in
    let u1 : q0 * 2 ^ 56 + b * 2 ^ 48 ≡ q1 * 2 ^ 48 = omega arith in
    let s1 = ap₂ bit_or s0 t1 ∙ (or_apart q0 (b * 2 ^ 48) 56 (omega arith) ∙ u1) in
    let q2 = q1 * 256 + c in
    let t2 : c * 2 ^ 40 % 2 ^ 64 ≡ c * 2 ^ 40 = omega arith in
    let u2 : q1 * 2 ^ 48 + c * 2 ^ 40 ≡ q2 * 2 ^ 40 = omega arith in
    let s2 = ap₂ bit_or s1 t2 ∙ (or_apart q1 (c * 2 ^ 40) 48 (omega arith) ∙ u2) in
    let q3 = q2 * 256 + d in
    let t3 : d * 2 ^ 32 % 2 ^ 64 ≡ d * 2 ^ 32 = omega arith in
    let u3 : q2 * 2 ^ 40 + d * 2 ^ 32 ≡ q3 * 2 ^ 32 = omega arith in
    let s3 = ap₂ bit_or s2 t3 ∙ (or_apart q2 (d * 2 ^ 32) 40 (omega arith) ∙ u3) in
    let q4 = q3 * 256 + e in
    let t4 : e * 2 ^ 24 % 2 ^ 64 ≡ e * 2 ^ 24 = omega arith in
    let u4 : q3 * 2 ^ 32 + e * 2 ^ 24 ≡ q4 * 2 ^ 24 = omega arith in
    let s4 = ap₂ bit_or s3 t4 ∙ (or_apart q3 (e * 2 ^ 24) 32 (omega arith) ∙ u4) in
    let q5 = q4 * 256 + f in
    let t5 : f * 2 ^ 16 % 2 ^ 64 ≡ f * 2 ^ 16 = omega arith in
    let u5 : q4 * 2 ^ 24 + f * 2 ^ 16 ≡ q5 * 2 ^ 16 = omega arith in
    let s5 = ap₂ bit_or s4 t5 ∙ (or_apart q4 (f * 2 ^ 16) 24 (omega arith) ∙ u5) in
    let q6 = q5 * 256 + g in
    let t6 : g * 2 ^ 8 % 2 ^ 64 ≡ g * 2 ^ 8 = omega arith in
    let u6 : q5 * 2 ^ 16 + g * 2 ^ 8 ≡ q6 * 2 ^ 8 = omega arith in
    let s6 = ap₂ bit_or s5 t6 ∙ (or_apart q5 (g * 2 ^ 8) 16 (omega arith) ∙ u6) in
    let q7 = q6 * 256 + h in
    let t7 : h ≡ h = refl in
    let u7 : q6 * 2 ^ 8 + h ≡ q7 = omega arith in
    let s7 = ap₂ bit_or s6 t7 ∙ (or_apart q6 (h) 8 (omega arith) ∙ u7) in s7 ∙ omega arith

pub load_number : (ptr : List ℕ) → IsBytes ptr → be_load_word64 ptr ≡ number64 ptr
unfolding be_load_word64
load_number ptr h =
    let l = λ (i : ℕ). get_or-lt ptr i h in
    or_eight _ _ _ _ _ _ _ _ (l 0) (l 1) (l 2) (l 3) (l 4) (l 5) (l 6) (l 7)

or_four :
    (a b c d : ℕ)
    → a < 256
    → b < 256
    → c < 256
    → d < 256
    → bit_or (bit_or (bit_or (a * 2 ^ 24 % 2 ^ 32) (b * 2 ^ 16 % 2 ^ 32)) (c * 2 ^ 8 % 2 ^ 32)) d
      ≡ a * 2 ^ 24 + b * 2 ^ 16 + c * 2 ^ 8 + d
or_four a b c d ha hb hc hd =
    let q0 = a in
    let s0 : a * 2 ^ 24 % 2 ^ 32 ≡ q0 * 2 ^ 24 = omega arith in
    let q1 = q0 * 256 + b in
    let t1 : b * 2 ^ 16 % 2 ^ 32 ≡ b * 2 ^ 16 = omega arith in
    let u1 : q0 * 2 ^ 24 + b * 2 ^ 16 ≡ q1 * 2 ^ 16 = omega arith in
    let s1 = ap₂ bit_or s0 t1 ∙ (or_apart q0 (b * 2 ^ 16) 24 (omega arith) ∙ u1) in
    let q2 = q1 * 256 + c in
    let t2 : c * 2 ^ 8 % 2 ^ 32 ≡ c * 2 ^ 8 = omega arith in
    let u2 : q1 * 2 ^ 16 + c * 2 ^ 8 ≡ q2 * 2 ^ 8 = omega arith in
    let s2 = ap₂ bit_or s1 t2 ∙ (or_apart q1 (c * 2 ^ 8) 16 (omega arith) ∙ u2) in
    let q3 = q2 * 256 + d in
    let t3 : d ≡ d = refl in
    let u3 : q2 * 2 ^ 8 + d ≡ q3 = omega arith in
    let s3 = ap₂ bit_or s2 t3 ∙ (or_apart q2 (d) 8 (omega arith) ∙ u3) in s3 ∙ omega arith

-- the four bytes at `ptr` as a number
abbrev pub number32 : List ℕ → ℕ
number32 ptr =
    get_or ptr 0 0 * 2 ^ 24 + get_or ptr 1 0 * 2 ^ 16 + get_or ptr 2 0 * 2 ^ 8 + get_or ptr 3 0

pub load_number32 : (ptr : List ℕ) → IsBytes ptr → be_load_word32 ptr ≡ number32 ptr
unfolding be_load_word32
load_number32 ptr h =
    let l = λ (i : ℕ). get_or-lt ptr i h in or_four _ _ _ _ (l 0) (l 1) (l 2) (l 3)

pub load-IsWord : (ptr : List ℕ) → IsBytes ptr → IsWord (be_load_word64 ptr)
load-IsWord ptr h =
    let l = λ (i : ℕ). get_or-lt ptr i h in
    rw (load_number ptr h) (omega (arith, l 0, l 1, l 2, l 3, l 4, l 5, l 6, l 7))

pub load32-lt : (ptr : List ℕ) → IsBytes ptr → be_load_word32 ptr < 2 ^ 32
load32-lt ptr h =
    let l = λ (i : ℕ). get_or-lt ptr i h in
    rw (load_number32 ptr h) (omega (arith, l 0, l 1, l 2, l 3))

pub store_eight :
    (a b c d e f g h : ℕ)
    → a < 256
    → b < 256
    → c < 256
    → d < 256
    → e < 256
    → f < 256
    → g < 256
    → h < 256
    → be_store_word64 (
        a * 2 ^ 56 + b * 2 ^ 48 + c * 2 ^ 40 + d * 2 ^ 32 + e * 2 ^ 24 + f * 2 ^ 16 + g * 2 ^ 8 + h)
      ≡ a ∷ b ∷ c ∷ d ∷ e ∷ f ∷ g ∷ h ∷ []
unfolding be_store_word64
store_eight a b c d e f g h ha hb hc hd he hf hg hh =
    let n =
      a * 2 ^ 56 + b * 2 ^ 48 + c * 2 ^ 40 + d * 2 ^ 32 + e * 2 ^ 24 + f * 2 ^ 16 + g * 2 ^ 8 + h in
    let e0 : n / 2 ^ 56 % 2 ^ 8 ≡ a = omega arith in
    let e1 : n / 2 ^ 48 % 2 ^ 8 ≡ b = omega arith in
    let e2 : n / 2 ^ 40 % 2 ^ 8 ≡ c = omega arith in
    let e3 : n / 2 ^ 32 % 2 ^ 8 ≡ d = omega arith in
    let e4 : n / 2 ^ 24 % 2 ^ 8 ≡ e = omega arith in
    let e5 : n / 2 ^ 16 % 2 ^ 8 ≡ f = omega arith in
    let e6 : n / 2 ^ 8 % 2 ^ 8 ≡ g = omega arith in
    let e7 : n % 2 ^ 8 ≡ h = omega arith in rw (e0, e1, e2, e3, e4, e5, e6, e7) refl

-- Storing the word of eight bytes gives the bytes back.
pub store-load :
    (ptr : List ℕ)
    → IsBytes ptr
    → 8 ≤ length ptr
    → be_store_word64 (be_load_word64 ptr) ≡ take 8 ptr
store-load ptr h k =
    let l = λ (i : ℕ). get_or-lt ptr i h in
    rw (load_number ptr h) (
      store_eight _ _ _ _ _ _ _ _ (l 0) (l 1) (l 2) (l 3) (l 4) (l 5) (l 6) (l 7)
      ∙ take_eight ptr k)
  where
    take_eight :
        (p : List ℕ)
        → 8 ≤ length p
        → get_or p 0 0
            ∷ get_or p 1 0
            ∷ get_or p 2 0
            ∷ get_or p 3 0
            ∷ get_or p 4 0
            ∷ get_or p 5 0
            ∷ get_or p 6 0
            ∷ get_or p 7 0
            ∷ []
          ≡ take 8 p
    take_eight (a ∷ b ∷ c ∷ d ∷ e ∷ f ∷ g ∷ h ∷ p) k = refl
    take_eight [] k = absurd (omega arith)
    take_eight (a ∷ []) k = absurd (omega arith)
    take_eight (a ∷ b ∷ []) k = absurd (omega arith)
    take_eight (a ∷ b ∷ c ∷ []) k = absurd (omega arith)
    take_eight (a ∷ b ∷ c ∷ d ∷ []) k = absurd (omega arith)
    take_eight (a ∷ b ∷ c ∷ d ∷ e ∷ []) k = absurd (omega arith)
    take_eight (a ∷ b ∷ c ∷ d ∷ e ∷ f ∷ []) k = absurd (omega arith)
    take_eight (a ∷ b ∷ c ∷ d ∷ e ∷ f ∷ g ∷ []) k = absurd (omega arith)

-- Loading what the store of a word wrote gives the word back.
pub load-store : (x : ℕ) → IsWord x → be_load_word64 (be_store_word64 x) ≡ x
unfolding be_store_word64
load-store x h = load_number (be_store_word64 x) bytes ∙ omega arith
  where
    bytes : IsBytes (be_store_word64 x)
    bytes = (
      omega arith,
      (
        omega arith,
        (
          omega arith,
          (omega arith, (omega arith, (omega arith, (omega arith, (omega arith, tt))))),
        ),
      ),
    )

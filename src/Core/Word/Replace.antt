-- ===== src/Core/Word/Replace.antt =====
-- A word that takes the top bytes of another, by a mask, and the words of the padding and of the
-- separator.
use ascon_suite_tcc.Base.{
  ℕ, zero, suc, ◌+◌, ◌-◌, ◌*◌, ◌/◌, ◌%◌, ◌^◌, ◌<◌, ◌≤◌, ◌≡◌, refl, sym, ap, ap₂, ◌∙◌, arith,
  bit_xor, bit_and, bit_or, List, [], ◌∷◌, length, get_or, set, inl, inr, ltb, ltb→lt, Bool-cases,
}
use ascon_suite_tcc.Base.Bits.Laws.{bit, bit-lt, bit-and, bit_ext_all, bit_of_zero, or_comm}
use native.Mathlib.Nat.{mod-lt, pow-le-pow_right}
use ascon_suite_tcc.Base.Bits.Shifts.{
  pow_pos, bit-div, bit-mod, bit_high, bit-mul, bit-mul_low, bit-not,
}
use ascon_suite_tcc.Base.Bytes.{IsBytes}
use ascon_suite_tcc.Core.Word.{be_store_word64, be_load_word64, not64, shr64}
use ascon_suite_tcc.Core.Word.Bits.{IsWord, bit-not64}
use ascon_suite_tcc.Core.Word.Bytes.{or_apart, load_number, store_eight}
use ascon_suite_tcc.Core.Word.Split.{word_of, word_of-IsWord, padded-IsBytes, eight, overlay-store}
use ascon_suite_tcc.Core.Snp.Local.{overlay, padded, xor_zero}

mask_bit : (k i : ℕ) → i < k → bit (2 ^ k - 1) i ≡ 1
mask_bit k i h =
    let n : 2 ^ k - 1 - 0 ≡ 2 ^ k - 1 = omega arith in
    omega (arith, bit-not k 0 i (pow_pos k) h, bit_of_zero i, ap (λ x. bit x i) n)

and_low_mask : (x k : ℕ) → bit_and x (2 ^ k - 1) ≡ x % 2 ^ k
and_low_mask x k = bit_ext_all _ _ λ i. elim (Bool-cases (ltb i k)) [
  | inl below ↦
      let l = ltb→lt i k below in
      omega (arith, bit-and x (2 ^ k - 1) i, mask_bit k i l, bit-mod x k i l, bit-lt x i)
  | inr above ↦
      let high : k ≤ i = ground arith in
      omega (
        arith,
        bit-and x (2 ^ k - 1) i,
        bit_high k (2 ^ k - 1) i (omega (arith, pow_pos k)) high,
        bit_high k (x % 2 ^ k) i (mod-lt x (pow_pos k)) high,
      )
]

high_part : (x k i : ℕ) → k ≤ i → bit (x / 2 ^ k * 2 ^ k) i ≡ bit x i
high_part x k i h =
    let j = i - k in
    let at : i ≡ j + k = omega arith in rw at (bit-mul (x / 2 ^ k) k j ∙ bit-div x k j)

and_high_mask : (x k : ℕ) → IsWord x → k ≤ 64 → bit_and x (not64 (2 ^ k - 1)) ≡ x / 2 ^ k * 2 ^ k
and_high_mask x k h small =
    let two : 0 < 2 = omega arith in
    let m : IsWord (2 ^ k - 1) = omega (arith, pow-le-pow_right two small, pow_pos k) in
    bit_ext_all _ _ λ i. elim (Bool-cases (ltb i k)) [
      | inl below ↦
          let l = ltb→lt i k below in
          omega (
            arith,
            bit-and x (not64 (2 ^ k - 1)) i,
            bit-not64 (2 ^ k - 1) i m (omega arith),
            bit-mul_low (x / 2 ^ k) k i l,
            mask_bit k i l,
          )
      | inr above ↦
          let high : k ≤ i = ground arith in
          elim (Bool-cases (ltb i 64)) [
            | inl below ↦ omega (
              arith,
              bit-and x (not64 (2 ^ k - 1)) i,
              bit-not64 (2 ^ k - 1) i m (ltb→lt i 64 below),
              bit_high k (2 ^ k - 1) i (omega (arith, pow_pos k)) high,
              high_part x k i high,
              bit-lt x i,
            )
            | inr out ↦ omega (
              arith,
              bit-and x (not64 (2 ^ k - 1)) i,
              bit_high 64 x i h (ground arith),
              high_part x k i high,
            )
          ]
    ]

-- `dest` with the bits of `src` from bit `k` on
pub merged :
    (x y k : ℕ)
    → IsWord y
    → k ≤ 64
    → bit_or (bit_and x (2 ^ k - 1)) (bit_and y (not64 (2 ^ k - 1))) ≡ y / 2 ^ k * 2 ^ k + x % 2 ^ k
merged x y k h small =
    ap₂ bit_or (and_low_mask x k) (and_high_mask y k h small)
    ∙ (or_comm (x % 2 ^ k) (y / 2 ^ k * 2 ^ k)
        ∙ or_apart (y / 2 ^ k) (x % 2 ^ k) k (mod-lt x (pow_pos k)))

written :
    (n a b c d e f g h : ℕ)
    → a < 256
    → b < 256
    → c < 256
    → d < 256
    → e < 256
    → f < 256
    → g < 256
    → h < 256
    → n
      ≡ a * 2 ^ 56 + b * 2 ^ 48 + c * 2 ^ 40 + d * 2 ^ 32 + e * 2 ^ 24 + f * 2 ^ 16 + g * 2 ^ 8 + h
    → be_store_word64 n ≡ a ∷ b ∷ c ∷ d ∷ e ∷ f ∷ g ∷ h ∷ []
written n a b c d e f g h ha hb hc hd he hf hg hh at =
    ap be_store_word64 at ∙ store_eight a b c d e f g h ha hb hc hd he hf hg hh

-- A replacement of the top bytes writes them over those that are there.
pub store-replace :
    (x : ℕ) (d : List ℕ)
    → IsWord x
    → IsBytes d
    → length d < 8
    → let mask = shr64 (2 ^ 64 - 1) (length d * 8) in
      be_store_word64 (bit_or (bit_and x mask) (bit_and (word_of d) (not64 mask)))
      ≡ overlay (λ x b. b) (be_store_word64 x) d
unfolding overlay padded be_store_word64
store-replace x [] m h l =
    let p = [] in
    let y = load_number (padded 8 p) (padded-IsBytes 8 p h) in
    let at = merged x (word_of p) 64 (word_of-IsWord p h) (omega arith) in
    written _ _ _ _ _ _ _ _ _ (omega arith) (omega arith) (omega arith) (omega arith) (omega arith)
      (omega arith) (omega arith) (omega arith) (at ∙ omega (arith, y))
store-replace x (a ∷ []) m h l =
    let p = (a ∷ []) in
    let y = load_number (padded 8 p) (padded-IsBytes 8 p h) in
    let at = merged x (word_of p) 56 (word_of-IsWord p h) (omega arith) in
    written _ _ _ _ _ _ _ _ _ h.0 (omega arith) (omega arith) (omega arith) (omega arith)
      (omega arith) (omega arith) (omega arith) (at ∙ omega (arith, y))
store-replace x (a ∷ b ∷ []) m h l =
    let p = (a ∷ b ∷ []) in
    let y = load_number (padded 8 p) (padded-IsBytes 8 p h) in
    let at = merged x (word_of p) 48 (word_of-IsWord p h) (omega arith) in
    written _ _ _ _ _ _ _ _ _ h.0 h.1.0 (omega arith) (omega arith) (omega arith) (omega arith)
      (omega arith) (omega arith) (at ∙ omega (arith, y))
store-replace x (a ∷ b ∷ c ∷ []) m h l =
    let p = (a ∷ b ∷ c ∷ []) in
    let y = load_number (padded 8 p) (padded-IsBytes 8 p h) in
    let at = merged x (word_of p) 40 (word_of-IsWord p h) (omega arith) in
    written _ _ _ _ _ _ _ _ _ h.0 h.1.0 h.1.1.0 (omega arith) (omega arith) (omega arith)
      (omega arith) (omega arith) (at ∙ omega (arith, y))
store-replace x (a ∷ b ∷ c ∷ d ∷ []) m h l =
    let p = (a ∷ b ∷ c ∷ d ∷ []) in
    let y = load_number (padded 8 p) (padded-IsBytes 8 p h) in
    let at = merged x (word_of p) 32 (word_of-IsWord p h) (omega arith) in
    written _ _ _ _ _ _ _ _ _ h.0 h.1.0 h.1.1.0 h.1.1.1.0 (omega arith) (omega arith) (omega arith)
      (omega arith) (at ∙ omega (arith, y))
store-replace x (a ∷ b ∷ c ∷ d ∷ e ∷ []) m h l =
    let p = (a ∷ b ∷ c ∷ d ∷ e ∷ []) in
    let y = load_number (padded 8 p) (padded-IsBytes 8 p h) in
    let at = merged x (word_of p) 24 (word_of-IsWord p h) (omega arith) in
    written _ _ _ _ _ _ _ _ _ h.0 h.1.0 h.1.1.0 h.1.1.1.0 h.1.1.1.1.0 (omega arith) (omega arith)
      (omega arith) (at ∙ omega (arith, y))
store-replace x (a ∷ b ∷ c ∷ d ∷ e ∷ f ∷ []) m h l =
    let p = (a ∷ b ∷ c ∷ d ∷ e ∷ f ∷ []) in
    let y = load_number (padded 8 p) (padded-IsBytes 8 p h) in
    let at = merged x (word_of p) 16 (word_of-IsWord p h) (omega arith) in
    written _ _ _ _ _ _ _ _ _ h.0 h.1.0 h.1.1.0 h.1.1.1.0 h.1.1.1.1.0 h.1.1.1.1.1.0 (omega arith)
      (omega arith) (at ∙ omega (arith, y))
store-replace x (a ∷ b ∷ c ∷ d ∷ e ∷ f ∷ g ∷ []) m h l =
    let p = (a ∷ b ∷ c ∷ d ∷ e ∷ f ∷ g ∷ []) in
    let y = load_number (padded 8 p) (padded-IsBytes 8 p h) in
    let at = merged x (word_of p) 8 (word_of-IsWord p h) (omega arith) in
    written _ _ _ _ _ _ _ _ _ h.0 h.1.0 h.1.1.0 h.1.1.1.0 h.1.1.1.1.0 h.1.1.1.1.1.0 h.1.1.1.1.1.1.0
      (omega arith) (at ∙ omega (arith, y))
store-replace x (a ∷ b ∷ c ∷ d ∷ e ∷ f ∷ g ∷ h ∷ r) m k l = absurd (omega arith)

-- adding `c` to byte `k`
abbrev pub add_at : List ℕ → ℕ → ℕ → List ℕ
add_at l k c = set l k (bit_xor (get_or l k 0) c)

-- `c` behind `k` zeros
unfoldable behind : ℕ → ℕ → List ℕ
behind zero c = c ∷ []
behind (suc k) c = 0 ∷ behind k c

length-behind : (k c : ℕ) → length (behind k c) ≡ suc k
unfolding behind
length-behind zero c = refl
length-behind (suc k) c = ap suc (length-behind k c)

behind-IsBytes : (k c : ℕ) → c < 256 → IsBytes (behind k c)
unfolding behind
behind-IsBytes zero c h = (h, tt)
behind-IsBytes (suc k) c h = (omega arith, behind-IsBytes k c h)

overlay_nothing : (mid : List ℕ) → overlay bit_xor mid [] ≡ mid
unfolding overlay
overlay_nothing [] = refl
overlay_nothing (x ∷ mid) = refl

overlay-behind :
    (mid : List ℕ) (k c : ℕ) → k < length mid → overlay bit_xor mid (behind k c) ≡ add_at mid k c
unfolding overlay behind
overlay-behind [] k c h = absurd (omega arith)
overlay-behind (x ∷ mid) zero c h = ap (λ r. bit_xor x c ∷ r) (overlay_nothing mid)
overlay-behind (x ∷ mid) (suc k) c h =
    rw (xor_zero x) (ap (λ r. x ∷ r) (overlay-behind mid k c (omega arith)))

store-behind :
    (x k c : ℕ)
    → k < 8
    → c < 256
    → be_store_word64 (bit_xor x (word_of (behind k c))) ≡ add_at (be_store_word64 x) k c
store-behind x k c h b =
    sym (overlay-store x (behind k c) (behind-IsBytes k c b) (omega (arith, length-behind k c)))
    ∙ overlay-behind (be_store_word64 x) k c (omega (arith, eight x))

pad_word : (k : ℕ) → k < 8 → shr64 0x8000000000000000 (k * 8) ≡ word_of (behind k 0x80)
unfolding be_load_word64 padded behind
pad_word zero h = refl
pad_word (suc zero) h = refl
pad_word (suc (suc zero)) h = refl
pad_word (suc (suc (suc zero))) h = refl
pad_word (suc (suc (suc (suc zero)))) h = refl
pad_word (suc (suc (suc (suc (suc zero))))) h = refl
pad_word (suc (suc (suc (suc (suc (suc zero)))))) h = refl
pad_word (suc (suc (suc (suc (suc (suc (suc zero))))))) h = refl
pad_word (suc (suc (suc (suc (suc (suc (suc (suc k)))))))) h = absurd (omega arith)

separator_word : 1 ≡ word_of (behind 7 1)
unfolding be_load_word64 padded behind
separator_word = refl

-- The padding and the separator add a byte.
pub store-pad :
    (x k : ℕ)
    → k < 8
    → be_store_word64 (bit_xor x (shr64 0x8000000000000000 (k * 8)))
      ≡ add_at (be_store_word64 x) k 0x80
store-pad x k h =
    ap (λ c. be_store_word64 (bit_xor x c)) (pad_word k h) ∙ store-behind x k 0x80 h (omega arith)

pub store-separator : (x : ℕ) → be_store_word64 (bit_xor x 1) ≡ add_at (be_store_word64 x) 7 1
store-separator x =
    ap (λ c. be_store_word64 (bit_xor x c)) separator_word
    ∙ store-behind x 7 1 (omega arith) (omega arith)

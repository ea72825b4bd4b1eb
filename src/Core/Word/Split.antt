-- ===== src/Core/Word/Split.antt =====
-- The bytes of a sum of words, of a word that takes the top bytes of another, and of a constant.
use ascon_suite_tcc.Base.{
  inl, inr, ltb→lt, Bool-cases, ltb, ltb, Bool-cases, ℕ, zero, suc, ◌+◌, ◌/◌, ◌%◌, ◌^◌, ◌≤◌, ◌≡◌,
  refl, sym, ap, ◌∙◌, arith, bit_xor, List, [], ◌∷◌, length, take,
}
use ascon_suite_tcc.Core.Word.Bytes.{load-IsWord, store-load}
use ascon_suite_tcc.Base.Slices.{take_all}
use ascon_suite_tcc.Base.Bits.Laws.{bit-xor, bit_ext_all}
use ascon_suite_tcc.Base.Bits.Shifts.{bit-div, bit-mod, bit_high}
use ascon_suite_tcc.Base.Bytes.{IsBytes}
use ascon_suite_tcc.Core.Word.{be_load_word64, be_store_word64}
use ascon_suite_tcc.Core.Word.Bits.{IsWord}
use ascon_suite_tcc.Core.Snp.Local.{overlay, zip, padded, overlay-padded, take-zip-padded}

xor-div : (x y k : ℕ) → bit_xor x y / 2 ^ k ≡ bit_xor (x / 2 ^ k) (y / 2 ^ k)
xor-div x y k = bit_ext_all _ _ λ i. omega (
  arith,
  bit-div (bit_xor x y) k i,
  bit-div x k i,
  bit-div y k i,
  bit-xor x y (i + k),
  bit-xor (x / 2 ^ k) (y / 2 ^ k) i,
)

xor-byte_of : (x y : ℕ) → bit_xor x y % 2 ^ 8 ≡ bit_xor (x % 2 ^ 8) (y % 2 ^ 8)
xor-byte_of x y = bit_ext_all _ _ λ i. elim (Bool-cases (ltb i 8)) [
  | inl below ↦
      let l = ltb→lt i 8 below in
      omega (
        arith,
        bit-mod (bit_xor x y) 8 i l,
        bit-mod x 8 i l,
        bit-mod y 8 i l,
        bit-xor x y i,
        bit-xor (x % 2 ^ 8) (y % 2 ^ 8) i,
      )
  | inr above ↦
      let high : 8 ≤ i = ground arith in
      omega (
        arith,
        bit_high 8 (bit_xor x y % 2 ^ 8) i (omega arith) high,
        bit_high 8 (x % 2 ^ 8) i (omega arith) high,
        bit_high 8 (y % 2 ^ 8) i (omega arith) high,
        bit-xor (x % 2 ^ 8) (y % 2 ^ 8) i,
      )
]

-- The bytes of a sum are the sums of the bytes.
pub store-xor :
    (x y : ℕ) → be_store_word64 (bit_xor x y) ≡ zip bit_xor (be_store_word64 x) (be_store_word64 y)
unfolding be_store_word64 zip
store-xor x y =
    rw
      (
        xor-div x y 56,
        xor-div x y 48,
        xor-div x y 40,
        xor-div x y 32,
        xor-div x y 24,
        xor-div x y 16,
        xor-div x y 8,
        xor-byte_of (x / 2 ^ 56) (y / 2 ^ 56),
        xor-byte_of (x / 2 ^ 48) (y / 2 ^ 48),
        xor-byte_of (x / 2 ^ 40) (y / 2 ^ 40),
        xor-byte_of (x / 2 ^ 32) (y / 2 ^ 32),
        xor-byte_of (x / 2 ^ 24) (y / 2 ^ 24),
        xor-byte_of (x / 2 ^ 16) (y / 2 ^ 16),
        xor-byte_of (x / 2 ^ 8) (y / 2 ^ 8),
        xor-byte_of x y,
      )
      refl

-- the word of up to eight bytes, with zeros behind
abbrev pub word_of : List ℕ → ℕ
word_of d = be_load_word64 (padded 8 d)

pub padded-IsBytes : (n : ℕ) (d : List ℕ) → IsBytes d → IsBytes (padded n d)
unfolding padded
padded-IsBytes zero d h = tt
padded-IsBytes (suc n) [] h = (omega arith, padded-IsBytes n [] tt)
padded-IsBytes (suc n) (b ∷ d) h = (h.0, padded-IsBytes n d h.1)

length-padded : (n : ℕ) (d : List ℕ) → length (padded n d) ≡ n
unfolding padded
length-padded zero d = refl
length-padded (suc n) [] = ap suc (length-padded n [])
length-padded (suc n) (b ∷ d) = ap suc (length-padded n d)

pub padded_all : (n : ℕ) (d : List ℕ) → length d ≡ n → padded n d ≡ d
unfolding padded
padded_all zero [] h = refl
padded_all zero (b ∷ d) h = absurd (omega arith)
padded_all (suc n) [] h = absurd (omega arith)
padded_all (suc n) (b ∷ d) h = ap (λ r. b ∷ r) (padded_all n d (omega arith))

pub word_of-IsWord : (d : List ℕ) → IsBytes d → IsWord (word_of d)
word_of-IsWord d h = load-IsWord (padded 8 d) (padded-IsBytes 8 d h)

-- the bytes of that word
pub store-word_of : (d : List ℕ) → IsBytes d → be_store_word64 (word_of d) ≡ padded 8 d
store-word_of d h =
    let p = padded 8 d in
    let l = length-padded 8 d in
    store-load p (padded-IsBytes 8 d h) (omega (arith, l)) ∙ take_all p 8 (omega (arith, l))

pub eight : (x : ℕ) → length (be_store_word64 x) ≡ 8
unfolding be_store_word64
eight x = refl

-- Adding bytes to a stored word stores the sum.
pub overlay-store :
    (x : ℕ) (d : List ℕ)
    → IsBytes d
    → length d ≤ 8
    → overlay bit_xor (be_store_word64 x) d ≡ be_store_word64 (bit_xor x (word_of d))
overlay-store x d h l =
    overlay-padded (be_store_word64 x) d (omega (arith, eight x))
    ∙ (ap (λ n. zip bit_xor (be_store_word64 x) (padded n d)) (eight x)
        ∙ (ap (zip bit_xor (be_store_word64 x)) (sym (store-word_of d h))
            ∙ sym (store-xor x (word_of d))))

-- The sums that come out are the first bytes of the stored sum.
pub take-store :
    (x : ℕ) (d : List ℕ)
    → IsBytes d
    → length d ≤ 8
    → take (length d) (be_store_word64 (bit_xor x (word_of d))) ≡ zip bit_xor (be_store_word64 x) d
take-store x d h l =
    ap (take (length d)) (
      store-xor x (word_of d)
      ∙ ap (zip bit_xor (be_store_word64 x))
          (store-word_of d h ∙ ap (λ n. padded n d) (sym (eight x))))
    ∙ take-zip-padded (be_store_word64 x) d (omega (arith, eight x))

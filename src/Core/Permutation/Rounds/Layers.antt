-- ===== src/Core/Permutation/Rounds/Layers.antt =====
-- The two layers of the code are the published ones, which are said bit by bit.
use native.Mathlib.Nat.{pow-suc}
use ascon_suite_tcc.Base.{
  ℕ, zero, suc, ◌+◌, ◌*◌, ◌/◌, ◌%◌, ◌^◌, ◌<◌, ◌≡◌, refl, sym, ap, ◌∙◌, arith, bit_xor, get_or,
}
use ascon_suite_tcc.Base.Bits.Laws.{bit, bit-lt, bit-xor}
use ascon_suite_tcc.Core.Word.{right_rotate_64}
use ascon_suite_tcc.Core.Word.Bits.{IsWord, word_ext, bit-rotate}
use ascon_suite_tcc.Core.Word.Linear.{diffuse-IsWord}
use ascon_suite_tcc.Core.Permutation.{Words, diffuse_word, diffuse}
use ascon_suite_tcc.Core.Permutation.Rounds.{
  AreWords, sbox_table, column, sbox_layer, word_from, table_layer, linear_word, linear_layer,
}
use ascon_suite_tcc.Core.Permutation.Rounds.Sbox.{sbox_layer-column}

bit-word_from :
    (n : ℕ) (f : ℕ → ℕ) (i : ℕ) → ((j : ℕ) → f j < 2) → i < n → bit (word_from n f) i ≡ f i
unfolding word_from
bit-word_from zero f i h l = absurd (omega arith)
bit-word_from (suc n) f zero h l = omega (arith, h 0)
bit-word_from (suc n) f (suc i) h l =
    let half : (f 0 + 2 * word_from n (λ j. f (j + 1))) / 2 ≡ word_from n (λ j. f (j + 1)) =
      omega (arith, h 0) in
    let next : i + 1 ≡ suc i = omega arith in
    ap (λ x. bit x i) half
    ∙ (bit-word_from n (λ j. f (j + 1)) i (λ j. h (j + 1)) (omega arith) ∙ ap f next)

word_from-lt : (n : ℕ) (f : ℕ → ℕ) → ((j : ℕ) → f j < 2) → word_from n f < 2 ^ n
unfolding word_from
word_from-lt zero f h = omega arith
word_from-lt (suc n) f h =
    omega (arith, h 0, word_from-lt n (λ j. f (j + 1)) (λ j. h (j + 1)), pow-suc 2 n)

-- A word is known by its bits.
from_bits :
    (x : ℕ) (f : ℕ → ℕ)
    → IsWord x
    → ((j : ℕ) → f j < 2)
    → ((i : ℕ) → i < 64 → bit x i ≡ f i)
    → x ≡ word_from 64 f
from_bits x f h k e =
    word_ext x (word_from 64 f) h (word_from-lt 64 f k)
      λ i l. e i l ∙ sym (bit-word_from 64 f i k l)

linear_word_lem : (x a b : ℕ) → IsWord x → a < 64 → b < 64 → diffuse_word x a b ≡ linear_word x a b
unfolding diffuse_word
linear_word_lem x a b h ka kb =
    let ra = right_rotate_64 x a in
    let rb = right_rotate_64 x b in
    from_bits (bit_xor x (bit_xor ra rb)) _ (diffuse-IsWord x a b h) (λ j. omega arith)
      λ i l. omega (
        arith,
        bit-xor x (bit_xor ra rb) i,
        bit-xor ra rb i,
        bit-rotate x a i h ka l,
        bit-rotate x b i h kb l,
        bit-lt x i,
      )

pub linear_layer_lem : (w : Words) → AreWords w → diffuse w ≡ linear_layer w
unfolding diffuse
linear_layer_lem w h =
    rw
      (
        linear_word_lem w.x0 19 28 h.h0 (omega arith) (omega arith),
        linear_word_lem w.x1 61 39 h.h1 (omega arith) (omega arith),
        linear_word_lem w.x2 1 6 h.h2 (omega arith) (omega arith),
        linear_word_lem w.x3 10 17 h.h3 (omega arith) (omega arith),
        linear_word_lem w.x4 7 41 h.h4 (omega arith) (omega arith),
      )
      refl

-- A column gives its bits back.
column_bits :
    (w : Words) (i n : ℕ)
    → column w i ≡ n
    → (bit w.x0 i ≡ n / 16 % 2)
      × (bit w.x1 i ≡ n / 8 % 2)
      × (bit w.x2 i ≡ n / 4 % 2)
      × (bit w.x3 i ≡ n / 2 % 2)
      × (bit w.x4 i ≡ n % 2)
column_bits w i n e =
    let h0 = bit-lt w.x0 i in
    let h1 = bit-lt w.x1 i in
    let h2 = bit-lt w.x2 i in
    let h3 = bit-lt w.x3 i in
    let h4 = bit-lt w.x4 i in (omega arith, omega arith, omega arith, omega arith, omega arith)

pub table_layer_lem :
    (w : Words) → AreWords w → AreWords (sbox_layer w) → sbox_layer w ≡ table_layer w
table_layer_lem w h k =
    let s = sbox_layer w in
    let entry = λ (i : ℕ). get_or sbox_table (column w i) 0 in
    let at = λ (i : ℕ) (l : i < 64). column_bits s i (entry i) (sbox_layer-column w i h l) in
    rw
      (
        from_bits s.x0 (λ i. entry i / 16 % 2) k.h0 (λ j. omega arith) (λ i l. (at i l).0),
        from_bits s.x1 (λ i. entry i / 8 % 2) k.h1 (λ j. omega arith) (λ i l. (at i l).1),
        from_bits s.x2 (λ i. entry i / 4 % 2) k.h2 (λ j. omega arith) (λ i l. (at i l).2),
        from_bits s.x3 (λ i. entry i / 2 % 2) k.h3 (λ j. omega arith) (λ i l. (at i l).3),
        from_bits s.x4 (λ i. entry i % 2) k.h4 (λ j. omega arith) (λ i l. (at i l).4),
      )
      refl

-- ===== src/Core/Word/Linear.antt =====
-- Rotations and the linear diffusion add up and commute with rotations.
use ascon_suite_tcc.Base.{ℕ, ◌+◌, ◌%◌, ◌<◌, ◌≡◌, refl, sym, ap, ◌∙◌, arith, bit_xor}
use ascon_suite_tcc.Base.Bits.Laws.{bit, bit-xor, xor-lt, xor_assoc, xor_comm}
use ascon_suite_tcc.Core.Word.{right_rotate_64}
use ascon_suite_tcc.Core.Permutation.{diffuse_word}
use ascon_suite_tcc.Core.Word.Bits.{IsWord, word_ext, rotate-IsWord, bit-rotate}

pub rotate-xor :
    (x y k : ℕ)
    → IsWord x
    → IsWord y
    → k < 64
    → right_rotate_64 (bit_xor x y) k ≡ bit_xor (right_rotate_64 x k) (right_rotate_64 y k)
rotate-xor x y k hx hy h =
    word_ext _ _ (rotate-IsWord (bit_xor x y) k both)
      (xor-lt 64 _ _ (rotate-IsWord x k hx) (rotate-IsWord y k hy))
      λ i hi. omega (
        arith,
        bit-rotate (bit_xor x y) k i both h hi,
        bit-rotate x k i hx h hi,
        bit-rotate y k i hy h hi,
        bit-xor x y ((i + k) % 64),
        bit-xor (right_rotate_64 x k) (right_rotate_64 y k) i,
      )
  where
    both : IsWord (bit_xor x y)
    both = xor-lt 64 x y hx hy

pub rotate-rotate :
    (x k l : ℕ)
    → IsWord x
    → k < 64
    → l < 64
    → right_rotate_64 (right_rotate_64 x k) l ≡ right_rotate_64 x ((k + l) % 64)
rotate-rotate x k l hx hk hl =
    word_ext _ _ (rotate-IsWord (right_rotate_64 x k) l (rotate-IsWord x k hx))
      (rotate-IsWord x ((k + l) % 64) hx)
      λ i hi.
        let at : ((i + l) % 64 + k) % 64 ≡ (i + (k + l) % 64) % 64 = omega arith in
        bit-rotate (right_rotate_64 x k) l i (rotate-IsWord x k hx) hl hi
        ∙ (bit-rotate x k ((i + l) % 64) hx hk (omega arith)
            ∙ (ap (bit x) at ∙ sym (bit-rotate x ((k + l) % 64) i hx (omega arith) hi)))

pub diffuse-IsWord : (x a b : ℕ) → IsWord x → IsWord (diffuse_word x a b)
unfolding diffuse_word
diffuse-IsWord x a b h = xor-lt 64 x _ h (xor-lt 64 _ _ (rotate-IsWord x a h) (rotate-IsWord x b h))

pub diffuse-xor :
    (x y a b : ℕ)
    → IsWord x
    → IsWord y
    → a < 64
    → b < 64
    → diffuse_word (bit_xor x y) a b ≡ bit_xor (diffuse_word x a b) (diffuse_word y a b)
unfolding diffuse_word
diffuse-xor x y a b hx hy ha hb =
    rw (rotate-xor x y a hx hy ha, rotate-xor x y b hx hy hb)
      (regroup x y (right_rotate_64 x a) (right_rotate_64 y a) (right_rotate_64 x b)
        (right_rotate_64 y b))
  where
    swap : (p q r s : ℕ) → bit_xor (bit_xor p q) (bit_xor r s) ≡ bit_xor (bit_xor p r) (bit_xor q s)
    swap p q r s =
        xor_assoc p q (bit_xor r s)
        ∙ (ap (bit_xor p)
              (sym (xor_assoc q r s) ∙ (ap (λ t. bit_xor t s) (xor_comm q r) ∙ xor_assoc r q s))
            ∙ sym (xor_assoc p r (bit_xor q s)))

    regroup :
        (p q r s t u : ℕ)
        → bit_xor (bit_xor p q) (bit_xor (bit_xor r s) (bit_xor t u))
          ≡ bit_xor (bit_xor p (bit_xor r t)) (bit_xor q (bit_xor s u))
    regroup p q r s t u =
        ap (bit_xor (bit_xor p q)) (swap r s t u) ∙ swap p q (bit_xor r t) (bit_xor s u)

pub diffuse-rotate :
    (x k a b : ℕ)
    → IsWord x
    → k < 64
    → a < 64
    → b < 64
    → diffuse_word (right_rotate_64 x k) a b ≡ right_rotate_64 (diffuse_word x a b) k
unfolding diffuse_word
diffuse-rotate x k a b h hk ha hb =
    let ra = rotate-IsWord x a h in
    let rb = rotate-IsWord x b h in
    let outer =
      rotate-xor x (bit_xor (right_rotate_64 x a) (right_rotate_64 x b)) k h (xor-lt 64 _ _ ra rb)
        hk in
    let inner = rotate-xor (right_rotate_64 x a) (right_rotate_64 x b) k ra rb hk in
    rw (outer, inner, turn_comm a ha, turn_comm b hb) refl
  where
    turn_comm :
        (c : ℕ)
        → c < 64
        → right_rotate_64 (right_rotate_64 x k) c ≡ right_rotate_64 (right_rotate_64 x c) k
    turn_comm c hc =
        let same : (k + c) % 64 ≡ (c + k) % 64 = omega arith in
        rotate-rotate x k c h hk hc
        ∙ (ap (right_rotate_64 x) same ∙ sym (rotate-rotate x c k h hc hk))

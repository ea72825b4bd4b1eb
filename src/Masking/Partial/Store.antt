-- ===== src/Masking/Partial/Store.antt =====
-- A partial store writes the first bytes of the value.
use ascon_suite_tcc.Base.{
  drop, ℕ, zero, suc, ◌+◌, ◌*◌, ◌/◌, ◌%◌, ◌^◌, ◌<◌, ◌≡◌, refl, ap, ap₂, ◌∙◌, arith, bit_or, Bool,
  true, false, List, [], ◌∷◌, ◌++◌, take, leb, ltb, if◌then◌else◌,
}
use ascon_suite_tcc.Base.Bits.Laws.{or_comm}
use ascon_suite_tcc.Core.Word.{
  u8, right_rotate_64, be_store_word64, be_store_word32, be_store_word16,
}
use ascon_suite_tcc.Core.Word.Bits.{IsWord, rotate-IsWord}
use ascon_suite_tcc.Core.Word.Bytes.{or_apart}
use ascon_suite_tcc.Masking.Partial.{store_partial, after_four, after_two}

-- rotations by whole bytes as arithmetic
pub rotate32 : (x : ℕ) → IsWord x → right_rotate_64 x 32 ≡ x % 2 ^ 32 * 2 ^ 32 + x / 2 ^ 32
unfolding right_rotate_64
rotate32 x h =
    let high : x * 2 ^ 32 % 2 ^ 64 ≡ x % 2 ^ 32 * 2 ^ 32 = omega arith in
    ap (bit_or (x / 2 ^ 32)) high
    ∙ (or_comm (x / 2 ^ 32) (x % 2 ^ 32 * 2 ^ 32)
        ∙ or_apart (x % 2 ^ 32) (x / 2 ^ 32) 32 (omega arith))

pub rotate48 : (x : ℕ) → IsWord x → right_rotate_64 x 48 ≡ x % 2 ^ 48 * 2 ^ 16 + x / 2 ^ 48
unfolding right_rotate_64
rotate48 x h =
    let high : x * 2 ^ 16 % 2 ^ 64 ≡ x % 2 ^ 48 * 2 ^ 16 = omega arith in
    ap (bit_or (x / 2 ^ 48)) high
    ∙ (or_comm (x / 2 ^ 48) (x % 2 ^ 48 * 2 ^ 16)
        ∙ or_apart (x % 2 ^ 48) (x / 2 ^ 48) 16 (omega arith))

pub rotate56 : (x : ℕ) → IsWord x → right_rotate_64 x 56 ≡ x % 2 ^ 56 * 2 ^ 8 + x / 2 ^ 56
unfolding right_rotate_64
rotate56 x h =
    let high : x * 2 ^ 8 % 2 ^ 64 ≡ x % 2 ^ 56 * 2 ^ 8 = omega arith in
    ap (bit_or (x / 2 ^ 56)) high
    ∙ (or_comm (x / 2 ^ 56) (x % 2 ^ 56 * 2 ^ 8)
        ∙ or_apart (x % 2 ^ 56) (x / 2 ^ 56) 8 (omega arith))

-- The store of a plain word
abbrev plain_store : ℕ → ℕ → List ℕ
plain_store = store_partial (λ f x. f x) (λ x. x)

plain_four :
    (x : ℕ)
    → IsWord x
    → be_store_word32 (right_rotate_64 x 32 % 2 ^ 32) ≡ take 4 (be_store_word64 x)
unfolding be_store_word32 be_store_word64
plain_four x h =
    let y = right_rotate_64 x 32 in
    let r = rotate32 x h in
    let e0 : y % 2 ^ 32 % 2 ^ 32 / 2 ^ 24 % 2 ^ 8 ≡ x / 2 ^ 56 % 2 ^ 8 = omega (arith, r) in
    let e1 : y % 2 ^ 32 % 2 ^ 32 / 2 ^ 16 % 2 ^ 8 ≡ x / 2 ^ 48 % 2 ^ 8 = omega (arith, r) in
    let e2 : y % 2 ^ 32 % 2 ^ 32 / 2 ^ 8 % 2 ^ 8 ≡ x / 2 ^ 40 % 2 ^ 8 = omega (arith, r) in
    let e3 : y % 2 ^ 32 % 2 ^ 32 % 2 ^ 8 ≡ x / 2 ^ 32 % 2 ^ 8 = omega (arith, r) in
    rw (e0, e1, e2, e3) refl

plain_two :
    (x : ℕ)
    → IsWord x
    → be_store_word16 (right_rotate_64 x 48 % 2 ^ 16) ≡ take 2 (be_store_word64 x)
unfolding be_store_word16 be_store_word64
plain_two x h =
    let y = right_rotate_64 x 48 in
    let r = rotate48 x h in
    let e0 : y % 2 ^ 16 % 2 ^ 16 / 2 ^ 8 % 2 ^ 8 ≡ x / 2 ^ 56 % 2 ^ 8 = omega (arith, r) in
    let e1 : y % 2 ^ 16 % 2 ^ 16 % 2 ^ 8 ≡ x / 2 ^ 48 % 2 ^ 8 = omega (arith, r) in rw (e0, e1) refl

plain_one : (x : ℕ) → IsWord x → u8 (right_rotate_64 x 56) ∷ [] ≡ take 1 (be_store_word64 x)
unfolding be_store_word64
plain_one x h =
    let y = right_rotate_64 x 56 in
    let e0 : y % 2 ^ 8 ≡ x / 2 ^ 56 % 2 ^ 8 = omega (arith, rotate56 x h) in rw e0 refl

moved32 :
    (x : ℕ)
    → IsWord x
    → be_store_word64 (right_rotate_64 x 32)
      ≡ drop 4 (be_store_word64 x) ++ take 4 (be_store_word64 x)
unfolding be_store_word64
moved32 x h =
    let y = right_rotate_64 x 32 in
    let r = rotate32 x h in
    let e0 : y / 2 ^ 56 % 2 ^ 8 ≡ x / 2 ^ 24 % 2 ^ 8 = omega (arith, r) in
    let e1 : y / 2 ^ 48 % 2 ^ 8 ≡ x / 2 ^ 16 % 2 ^ 8 = omega (arith, r) in
    let e2 : y / 2 ^ 40 % 2 ^ 8 ≡ x / 2 ^ 8 % 2 ^ 8 = omega (arith, r) in
    let e3 : y / 2 ^ 32 % 2 ^ 8 ≡ x % 2 ^ 8 = omega (arith, r) in
    let e4 : y / 2 ^ 24 % 2 ^ 8 ≡ x / 2 ^ 56 % 2 ^ 8 = omega (arith, r) in
    let e5 : y / 2 ^ 16 % 2 ^ 8 ≡ x / 2 ^ 48 % 2 ^ 8 = omega (arith, r) in
    let e6 : y / 2 ^ 8 % 2 ^ 8 ≡ x / 2 ^ 40 % 2 ^ 8 = omega (arith, r) in
    let e7 : y % 2 ^ 8 ≡ x / 2 ^ 32 % 2 ^ 8 = omega (arith, r) in
    rw (e0, e1, e2, e3, e4, e5, e6, e7) refl

moved48 :
    (x : ℕ)
    → IsWord x
    → be_store_word64 (right_rotate_64 x 48)
      ≡ drop 2 (be_store_word64 x) ++ take 2 (be_store_word64 x)
unfolding be_store_word64
moved48 x h =
    let y = right_rotate_64 x 48 in
    let r = rotate48 x h in
    let e0 : y / 2 ^ 56 % 2 ^ 8 ≡ x / 2 ^ 40 % 2 ^ 8 = omega (arith, r) in
    let e1 : y / 2 ^ 48 % 2 ^ 8 ≡ x / 2 ^ 32 % 2 ^ 8 = omega (arith, r) in
    let e2 : y / 2 ^ 40 % 2 ^ 8 ≡ x / 2 ^ 24 % 2 ^ 8 = omega (arith, r) in
    let e3 : y / 2 ^ 32 % 2 ^ 8 ≡ x / 2 ^ 16 % 2 ^ 8 = omega (arith, r) in
    let e4 : y / 2 ^ 24 % 2 ^ 8 ≡ x / 2 ^ 8 % 2 ^ 8 = omega (arith, r) in
    let e5 : y / 2 ^ 16 % 2 ^ 8 ≡ x % 2 ^ 8 = omega (arith, r) in
    let e6 : y / 2 ^ 8 % 2 ^ 8 ≡ x / 2 ^ 56 % 2 ^ 8 = omega (arith, r) in
    let e7 : y % 2 ^ 8 ≡ x / 2 ^ 48 % 2 ^ 8 = omega (arith, r) in
    rw (e0, e1, e2, e3, e4, e5, e6, e7) refl

plain_three : (x : ℕ) → IsWord x → plain_store 3 x ≡ take 3 (be_store_word64 x)
unfolding store_partial be_store_word64 be_store_word16
plain_three x h =
    let y = right_rotate_64 x 48 in
    ap₂ (◌++◌) (plain_two x h) (plain_one y (rotate-IsWord x 48 h) ∙ ap (take 1) (moved48 x h))

plain_store_lem :
    (size x : ℕ) → size < 8 → IsWord x → plain_store size x ≡ take size (be_store_word64 x)
unfolding store_partial be_store_word64 be_store_word16 be_store_word32
plain_store_lem zero x l h = refl
plain_store_lem (suc zero) x l h = plain_one x h
plain_store_lem (suc (suc zero)) x l h = plain_two x h
plain_store_lem (suc (suc (suc zero))) x l h = plain_three x h
plain_store_lem (suc (suc (suc (suc zero)))) x l h = plain_four x h
plain_store_lem (suc (suc (suc (suc (suc zero))))) x l h =
    let y = right_rotate_64 x 32 in
    ap₂ (◌++◌) (plain_four x h) (plain_one y (rotate-IsWord x 32 h) ∙ ap (take 1) (moved32 x h))
plain_store_lem (suc (suc (suc (suc (suc (suc zero)))))) x l h =
    let y = right_rotate_64 x 32 in
    ap₂ (◌++◌) (plain_four x h) (plain_two y (rotate-IsWord x 32 h) ∙ ap (take 2) (moved32 x h))
plain_store_lem (suc (suc (suc (suc (suc (suc (suc zero))))))) x l h =
    let y = right_rotate_64 x 32 in
    ap₂ (◌++◌) (plain_four x h) (plain_three y (rotate-IsWord x 32 h) ∙ ap (take 3) (moved32 x h))
plain_store_lem (suc (suc (suc (suc (suc (suc (suc (suc size)))))))) x l h = absurd (omega arith)

-- For shares of which the sum is rotated when they are, and a size below eight, the first bytes of
-- the sum are stored.
module _ {M : Type 0} (each : (ℕ → ℕ) → M → M) (total : M → ℕ) (P : M → Type 0)
    (each-P : (k : ℕ) (m : M) → k < 64 → P m → P (each (λ x. right_rotate_64 x k) m))
    (total-each : (k : ℕ) (m : M)
      → k < 64
      → P m
      → total (each (λ x. right_rotate_64 x k) m) ≡ right_rotate_64 (total m) k)
    (total-IsWord : (m : M) → P m → IsWord (total m)) where
  store_total :
      (size : ℕ) (m : M) → P m → store_partial each total size m ≡ plain_store size (total m)
  unfolding store_partial
  store_total size m h =
      let four = leb 4 size in
      let two = leb 2 (after_four size) in
      let one = ltb 0 (after_two (after_four size)) in
      let m4 = if four then each (λ x. right_rotate_64 x 32) m else m in
      let m2 = if two then each (λ x. right_rotate_64 x 48) m4 else m4 in
      let s4 = step four 32 m (omega arith) h in
      let s2 = step two 48 m4 (omega arith) s4.0 in
      let s1 = step one 56 m2 (omega arith) s2.0 in rw (s1.1, s2.1, s4.1) refl
    where
      step :
          (b : Bool) (k : ℕ) (m : M)
          → k < 64
          → P m
          → P (if b then each (λ x. right_rotate_64 x k) m else m)
            × (total (if b then each (λ x. right_rotate_64 x k) m else m)
                ≡ (if b then right_rotate_64 (total m) k else total m))
      step true k m l h = (each-P k m l h, total-each k m l h)
      step false k m l h = (h, refl)

  pub store_partial_lem :
      (size : ℕ) (m : M)
      → size < 8
      → P m
      → store_partial each total size m ≡ take size (be_store_word64 (total m))
  store_partial_lem size m l h =
      store_total size m h ∙ plain_store_lem size (total m) l (total-IsWord m h)

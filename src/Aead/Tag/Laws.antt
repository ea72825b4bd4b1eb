-- ===== src/Aead/Tag/Laws.antt =====
-- What the constant-time comparison decides, and what it leaves of the plaintext.
use native.Mathlib.Decide.{ℕ_discrete}
use ascon_suite_tcc.Base.{
  ℕ, zero, suc, ◌<◌, ◌≡◌, ◌≢◌, refl, ap, ap₂, ◌∙◌, sym, arith, bit_and, bit_or, bit_xor, List, [],
  ◌∷◌, length, replicate, ◌==◌, Bool, true, ◌&&◌, ◌⊎◌, inl, inr,
}
use ascon_suite_tcc.Base.Bits.Laws.{or-lt, xor_cancel, xor_self, zero_xor, or_eq_zero, and-zero}
use ascon_suite_tcc.Base.Bytes.{IsBytes, xor-byte}
use ascon_suite_tcc.Core.Word.{u8}
use ascon_suite_tcc.Aead.Tag.{minus_one, decrement, shift_right, accumulate, mask, check_tag}

-- Equal tags accumulate nothing.
accumulate_self : (tag : List ℕ) → accumulate 0 tag tag ≡ 0
unfolding accumulate
accumulate_self [] = refl
accumulate_self (x ∷ tag) = rw xor_self (accumulate_self tag)

accumulate-lt :
    (accum : ℕ) (tag1 tag2 : List ℕ)
    → accum < 256
    → IsBytes tag1
    → IsBytes tag2
    → accumulate accum tag1 tag2 < 256
unfolding accumulate
accumulate-lt accum [] tag2 h p q = h
accumulate-lt accum (x ∷ tag1) [] h p q = h
accumulate-lt accum (x ∷ tag1) (y ∷ tag2) h p q =
    accumulate-lt (bit_or accum (bit_xor x y)) tag1 tag2
      (or-lt 8 accum (bit_xor x y) h (xor-byte x y p.0 q.0)) p.1 q.1

-- Nothing accumulated means equal tags, if they are equally long.
accumulate_eq_zero :
    (accum : ℕ) (tag1 tag2 : List ℕ)
    → length tag1 ≡ length tag2
    → accumulate accum tag1 tag2 ≡ 0
    → (accum ≡ 0) × (tag1 ≡ tag2)
unfolding accumulate
accumulate_eq_zero accum [] [] e h = (h, refl)
accumulate_eq_zero accum [] (y ∷ tag2) e h = absurd (omega arith)
accumulate_eq_zero accum (x ∷ tag1) [] e h = absurd (omega arith)
accumulate_eq_zero accum (x ∷ tag1) (y ∷ tag2) e h =
    let ih = accumulate_eq_zero (bit_or accum (bit_xor x y)) tag1 tag2 (omega arith) h in
    let both = or_eq_zero accum (bit_xor x y) ih.0 in
    (both.0, ap₂ ◌∷◌ (sym (xor_cancel x y) ∙ (ap (λ z. bit_xor z y) both.1 ∙ zero_xor y)) ih.1)

-- A byte passes the mask -1 unchanged: checked for each byte.
kept_below : ℕ → Bool
kept_below zero = true
kept_below (suc n) = u8 (bit_and n minus_one) == n && kept_below n

kept_below_lem : (n x : ℕ) → kept_below n ≡ true → x < n → u8 (bit_and x minus_one) ≡ x
unfolding kept_below
kept_below_lem zero x h k = absurd (omega arith)
kept_below_lem (suc n) x h k = ground (arith, kept_below_lem n x)

every_byte_kept : kept_below 256 ≡ true
unfolding kept_below
every_byte_kept = refl

mask-minus_one : (plaintext : List ℕ) → IsBytes plaintext → mask plaintext minus_one ≡ plaintext
unfolding mask
mask-minus_one [] h = refl
mask-minus_one (x ∷ plaintext) h =
    ap₂ ◌∷◌ (kept_below_lem 256 x every_byte_kept h.0) (mask-minus_one plaintext h.1)

mask-zero : (plaintext : List ℕ) → mask plaintext 0 ≡ replicate (length plaintext) 0
unfolding mask
mask-zero [] = refl
mask-zero (x ∷ plaintext) = ap₂ ◌∷◌ (rw and-zero) (mask-zero plaintext)

-- The decrement and the shift make -1 of 0, and 0 of every other byte.
spread_zero : shift_right (decrement 0) 8 ≡ minus_one
unfolding decrement shift_right
spread_zero = refl

spread_pos : (a : ℕ) → a < 256 → a ≢ 0 → shift_right (decrement a) 8 ≡ 0
unfolding decrement shift_right
spread_pos a h n = ground arith

-- Equal tags: the check returns 0 and leaves the plaintext as it is.
pub check_tag_self :
    (plaintext tag : List ℕ)
    → IsBytes plaintext
    → check_tag plaintext tag tag ≡ record { result = 0; plaintext = plaintext }
unfolding check_tag
check_tag_self plaintext tag p = rw (accumulate_self tag, spread_zero, mask-minus_one plaintext p)

-- The two cases, as implications.
pub check_tag_lem :
    (plaintext tag1 tag2 : List ℕ)
    → IsBytes plaintext
    → IsBytes tag1
    → IsBytes tag2
    → length tag1 ≡ length tag2
    → (tag1 ≡ tag2 → check_tag plaintext tag1 tag2 ≡ record { result = 0; plaintext = plaintext })
      × (tag1 ≢ tag2
          → check_tag plaintext tag1 tag2
            ≡ record { result = minus_one; plaintext = replicate (length plaintext) 0 })
unfolding check_tag
check_tag_lem plaintext tag1 tag2 p h k e = (
  λ same. rw (← same) (check_tag_self plaintext tag1 p),
  λ differ. rw (
    spread_pos (accumulate 0 tag1 tag2) (accumulate-lt 0 tag1 tag2 (omega arith) h k)
        (λ none. differ (accumulate_eq_zero 0 tag1 tag2 e none).1),
    mask-zero plaintext,
  ),
)

pub check_tag_result :
    (p q tag1 tag2 : List ℕ) → (check_tag p tag1 tag2).result ≡ (check_tag q tag1 tag2).result
unfolding check_tag
check_tag_result p q tag1 tag2 = refl

pub bytes-discrete : Discrete (List ℕ)
bytes-discrete = hlevel ℕ_discrete

-- For a plaintext and two tags of the same length, all of bytes: either the tags are equal, the
-- result is 0 and the plaintext is as it was, or they differ, the result is -1 and every byte of
-- the plaintext is zero.
pub check_tag_cases :
    (plaintext tag1 tag2 : List ℕ)
    → IsBytes plaintext
    → IsBytes tag1
    → IsBytes tag2
    → length tag1 ≡ length tag2
    → (tag1 ≡ tag2) × (check_tag plaintext tag1 tag2 ≡ record { result = 0; plaintext = plaintext })
      ⊎ (tag1 ≢ tag2)
        × (check_tag plaintext tag1 tag2
            ≡ record { result = minus_one; plaintext = replicate (length plaintext) 0 })
check_tag_cases plaintext tag1 tag2 p h k e =
    let cases = check_tag_lem plaintext tag1 tag2 p h k e in
    elim (bytes-discrete tag1 tag2) [
      | yes same ↦ inl (same, cases.0 same)
      | no differ ↦ inr (differ, cases.1 differ)
    ]

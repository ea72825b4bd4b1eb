-- ===== src/Core/Snp/Extract.antt =====
-- Extracting bytes of the state, as slices of lists.
use ascon_suite_tcc.Base.{
  ℕ, zero, suc, ◌+◌, ◌<◌, ◌≤◌, ◌≡◌, refl, ap, ap₂, ◌∙◌, arith, List, [], ◌∷◌, length, take, drop,
  get_or, length-set, lt→ltb, ltb, Bool-cases, inl, inr, set,
}
use ascon_suite_tcc.Base.Bytes.{IsBytes, get_or-lt, xor-byte}
use ascon_suite_tcc.Base.Bits.Laws.{xor_cancel}
use ascon_suite_tcc.Core.Snp.{State, extract_bytes, extract_and_add_bytes, overwrite_bytes}
use ascon_suite_tcc.Core.Snp.Bounds.{IsState}

pub length-overwrite :
    (s : State) (src : List ℕ) (offset : ℕ) → length (overwrite_bytes s src offset) ≡ length s
unfolding overwrite_bytes
length-overwrite s [] offset = refl
length-overwrite s (b ∷ src) offset = elim (Bool-cases (ltb offset 40)) [
  | inl inside ↦
      rw inside (length-overwrite (set s offset b) src (offset + 1) ∙ length-set s offset b)
  | inr outside ↦ rw outside
]

drop_next : (s : List ℕ) (i : ℕ) → i < length s → drop i s ≡ get_or s i 0 ∷ drop (i + 1) s
drop_next [] i h = absurd (omega arith)
drop_next (x ∷ s) zero h = refl
drop_next (x ∷ s) (suc i) h =
    drop_next s i (omega arith) ∙ ap (λ n. get_or s i 0 ∷ drop n (x ∷ s)) same
  where
    same : suc (i + 1) ≡ suc i + 1
    same = omega arith

pub extract_bytes-eq-slice :
    (s : State) (offset size : ℕ)
    → length s ≡ 40
    → offset + size ≤ 40
    → extract_bytes s offset size ≡ take size (drop offset s)
unfolding extract_bytes
extract_bytes-eq-slice s offset zero h k = refl
extract_bytes-eq-slice s offset (suc size) h k =
    rw (lt→ltb offset 40 (omega arith), drop_next s offset (omega arith))
      (ap (λ r. get_or s offset 0 ∷ r) (extract_bytes-eq-slice s (offset + 1) size h (omega arith)))

pub length-extract_bytes :
    (s : State) (offset size : ℕ) → offset + size ≤ 40 → length (extract_bytes s offset size) ≡ size
unfolding extract_bytes
length-extract_bytes s offset zero k = refl
length-extract_bytes s offset (suc size) k =
    rw (lt→ltb offset 40 (omega arith))
      (ap suc (length-extract_bytes s (offset + 1) size (omega arith)))

pub extract_bytes-IsBytes :
    (s : State) (offset size : ℕ) → IsState s → IsBytes (extract_bytes s offset size)
unfolding extract_bytes
extract_bytes-IsBytes s offset zero h = tt
extract_bytes-IsBytes s offset (suc size) h = elim (Bool-cases (ltb offset 40)) [
  | inl inside ↦ rw inside (get_or-lt s offset h.bytes, extract_bytes-IsBytes s (offset + 1) size h)
  | inr outside ↦ rw outside tt
]

-- Bytes that are added twice to the same part of the state are as they were.
pub extract_and_add_inverse :
    (s : State) (m : List ℕ) (offset : ℕ)
    → offset + length m ≤ 40
    → extract_and_add_bytes s (extract_and_add_bytes s m offset) offset ≡ m
unfolding extract_and_add_bytes
extract_and_add_inverse s [] offset h = refl
extract_and_add_inverse s (b ∷ m) offset h =
    let inside = lt→ltb offset 40 (omega arith) in
    rw (inside, inside)
      (ap₂ ◌∷◌ (xor_cancel b (get_or s offset 0))
        (extract_and_add_inverse s m (offset + 1) (omega arith)))

pub length-extract_and_add :
    (s : State) (m : List ℕ) (offset : ℕ)
    → offset + length m ≤ 40
    → length (extract_and_add_bytes s m offset) ≡ length m
unfolding extract_and_add_bytes
length-extract_and_add s [] offset h = refl
length-extract_and_add s (b ∷ m) offset h =
    rw (lt→ltb offset 40 (omega arith))
      (ap suc (length-extract_and_add s m (offset + 1) (omega arith)))

pub extract_and_add-IsBytes :
    (s : State) (m : List ℕ) (offset : ℕ)
    → IsState s
    → IsBytes m
    → IsBytes (extract_and_add_bytes s m offset)
unfolding extract_and_add_bytes
extract_and_add-IsBytes s [] offset h k = tt
extract_and_add-IsBytes s (b ∷ m) offset h k = elim (Bool-cases (ltb offset 40)) [
  | inl inside ↦ rw inside (
    xor-byte b (get_or s offset 0) k.0 (get_or-lt s offset h.bytes),
    extract_and_add-IsBytes s m (offset + 1) h k.1,
  )
  | inr outside ↦ rw outside tt
]

-- ===== src/Masking/Partial/Load.antt =====
-- A partial load puts the bytes at the top of the value.
use ascon_suite_tcc.Base.{
  ℕ, ◌+◌, ◌-◌, ◌%◌, ◌<◌, ◌≡◌, refl, sym, ap, ◌∙◌, arith, bit_xor, Bool, true, false, List, [], ◌∷◌,
  drop, leb, ltb, get_or, if◌then◌else◌,
}
use ascon_suite_tcc.Base.Bits.Laws.{xor-lt, xor_comm, xor_assoc}
use ascon_suite_tcc.Base.Bytes.{IsBytes, get_or-lt, drop-IsBytes}
use ascon_suite_tcc.Core.Word.{right_rotate_64, be_load_word64, be_load_word32, be_load_word16}
use ascon_suite_tcc.Core.Word.Bits.{IsWord, rotate-IsWord}
use ascon_suite_tcc.Core.Word.Linear.{rotate-xor, rotate-rotate}
use ascon_suite_tcc.Core.Word.Bytes.{load32-lt}
use ascon_suite_tcc.Core.Word.Symbolic.{var, sum, turn, blank, eval, norm, plus}
use ascon_suite_tcc.Core.Word.Symbolic.Sound.{decide_words, values, values-IsWord}
use ascon_suite_tcc.Masking.Partial.{load_partial, turn_in, after_four, after_two}
use ascon_suite_tcc.Masking.Partial.Plain.{first_bytes, plain_load, load16-lt, plain_load_lem}

-- the word that `masked` and `random` stand for
abbrev pub unmask : ℕ × ℕ → ℕ
unmask p = bit_xor p.0 (right_rotate_64 p.1 53)

abbrev pub BothWords : ℕ × ℕ → Type 0
BothWords p = IsWord p.0 × IsWord p.1

module _ (v k : ℕ) (p : ℕ × ℕ) (h : BothWords p) (l : IsWord v) (m : k < 64) where
  turn_in-BothWords : BothWords (turn_in v k p)
  turn_in-BothWords =
      (rotate-IsWord (bit_xor p.0 v) k (xor-lt 64 p.0 v h.0 l), rotate-IsWord p.1 k h.1)

  turn_in_lem : unmask (turn_in v k p) ≡ right_rotate_64 (bit_xor (unmask p) v) k
  turn_in_lem =
      let u = right_rotate_64 p.1 53 in
      let hu = rotate-IsWord p.1 53 h.1 in
      let hp = xor-lt 64 p.0 v h.0 l in
      let same : (k + 53) % 64 ≡ (53 + k) % 64 = omega arith in
      let commute =
        rotate-rotate p.1 k 53 h.1 m (omega arith)
        ∙ (ap (right_rotate_64 p.1) same ∙ sym (rotate-rotate p.1 53 k h.1 (omega arith) m)) in
      let regroup : bit_xor (bit_xor p.0 v) u ≡ bit_xor (bit_xor p.0 u) v =
        xor_assoc p.0 v u ∙ (ap (bit_xor p.0) (xor_comm v u) ∙ sym (xor_assoc p.0 u v)) in
      ap (bit_xor (right_rotate_64 (bit_xor p.0 v) k)) commute
      ∙ (sym (rotate-xor (bit_xor p.0 v) u k hp hu m) ∙ ap (λ x. right_rotate_64 x k) regroup)

module _ (bytes : List ℕ) (size : ℕ) (p : ℕ × ℕ) (h : IsBytes bytes) (k : BothWords p) where
  unmask-load_partial :
      BothWords (load_partial bytes size p)
      × (unmask (load_partial bytes size p) ≡ plain_load bytes size (unmask p))
  unfolding load_partial
  unmask-load_partial =
      let v4 = be_load_word32 (drop (size - 4) bytes) in
      let l4 = load32-lt (drop (size - 4) bytes) (drop-IsBytes (size - 4) bytes h) in
      let p4 = if leb 4 size then turn_in v4 32 p else p in
      let n = after_four size in
      let v2 = be_load_word16 (drop (n - 2) bytes) in
      let l2 = load16-lt (drop (n - 2) bytes) (drop-IsBytes (n - 2) bytes h) in
      let p2 = if leb 2 n then turn_in v2 16 p4 else p4 in
      let s4 = step (leb 4 size) v4 32 p (omega arith) (omega arith) k in
      let s2 = step (leb 2 n) v2 16 p4 (omega arith) (omega arith) s4.0 in
      let s1 =
        step (ltb 0 (after_two n)) (get_or bytes 0 0) 8 p2 (omega (arith, get_or-lt bytes 0 h))
          (omega arith) s2.0 in
      (s1.0, rw (s1.1, s2.1, s4.1) refl)
    where
      step :
          (b : Bool) (v j : ℕ) (p : ℕ × ℕ)
          → IsWord v
          → j < 64
          → BothWords p
          → BothWords (if b then turn_in v j p else p)
            × (unmask (if b then turn_in v j p else p)
                ≡ (if b then right_rotate_64 (bit_xor (unmask p) v) j else unmask p))
      step true v j p l m h = (turn_in-BothWords v j p h l m, turn_in_lem v j p h l m)
      step false v j p l m h = (h, refl)

-- A random word and its rotation stand for zero.
start_lem : (r : ℕ) → IsWord r → unmask (r, right_rotate_64 r 11) ≡ 0
unfolding eval norm plus
start_lem r h =
    decide_words (values (r ∷ [])) (values-IsWord (r ∷ []) (h, tt))
      (sum (var 0) (turn (turn (var 0) 11) 53)) blank refl

-- After a partial load of less than eight bytes, the two words stand for the bytes and zeros.
pub load_partial_lem :
    (bytes : List ℕ) (size r : ℕ)
    → IsBytes bytes
    → size < 8
    → IsWord r
    → BothWords (load_partial bytes size (r, right_rotate_64 r 11))
      × (unmask (load_partial bytes size (r, right_rotate_64 r 11))
          ≡ be_load_word64 (first_bytes size bytes))
load_partial_lem bytes size r h l k =
    let start : ℕ × ℕ = (r, right_rotate_64 r 11) in
    let run = unmask-load_partial bytes size start h (k, rotate-IsWord r 11 k) in
    (run.0, run.1 ∙ (ap (plain_load bytes size) (start_lem r k) ∙ plain_load_lem bytes h size l))

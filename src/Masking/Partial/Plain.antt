-- ===== src/Masking/Partial/Plain.antt =====
-- A partial load of one plain word puts the bytes at its top, for each size below eight.
use ascon_suite_tcc.Base.{
  ℕ, zero, suc, ◌+◌, ◌-◌, ◌*◌, ◌/◌, ◌%◌, ◌^◌, ◌<◌, ◌≡◌, refl, sym, ap, ◌∙◌, arith, bit_or, bit_xor,
  Bool, true, false, List, [], ◌∷◌, drop, leb, ltb, get_or, if◌then◌else◌,
}
use ascon_suite_tcc.Base.Bytes.{IsBytes, get_or-lt, drop-IsBytes}
use ascon_suite_tcc.Core.Word.{right_rotate_64, be_load_word64, be_load_word32, be_load_word16}
use ascon_suite_tcc.Core.Word.Bits.{IsWord}
use ascon_suite_tcc.Core.Word.Bytes.{or_apart, xor_apart, load_number32, load_number}
use ascon_suite_tcc.Masking.Partial.{after_four, after_two}
use ascon_suite_tcc.Base.Bits.Laws.{or_comm}
use ascon_suite_tcc.Masking.Partial.Store.{rotate32}

-- the first `size` bytes, and zeros up to eight
abbrev pub first_bytes : ℕ → List ℕ → List ℕ
first_bytes size bytes =
    let at = λ (i : ℕ). if ltb i size then get_or bytes i 0 else 0 in
    at 0 ∷ at 1 ∷ at 2 ∷ at 3 ∷ at 4 ∷ at 5 ∷ at 6 ∷ at 7 ∷ []

-- the same code on one word
abbrev pub plain_load : List ℕ → ℕ → ℕ → ℕ
plain_load bytes size x =
    let turn = λ (v k y : ℕ). right_rotate_64 (bit_xor y v) k in
    let x = if leb 4 size then turn (be_load_word32 (drop (size - 4) bytes)) 32 x else x in
    let size = after_four size in
    let x = if leb 2 size then turn (be_load_word16 (drop (size - 2) bytes)) 16 x else x in
    let size = after_two size in if ltb 0 size then turn (get_or bytes 0 0) 8 x else x

load16_number :
    (ptr : List ℕ) → IsBytes ptr → be_load_word16 ptr ≡ get_or ptr 0 0 * 2 ^ 8 + get_or ptr 1 0
unfolding be_load_word16
load16_number ptr h =
    let a = get_or-lt ptr 0 h in
    let b = get_or-lt ptr 1 h in
    let top : get_or ptr 0 0 * 2 ^ 8 % 2 ^ 16 ≡ get_or ptr 0 0 * 2 ^ 8 = omega arith in
    rw top (or_apart (get_or ptr 0 0) (get_or ptr 1 0) 8 (omega arith))

pub load16-lt : (ptr : List ℕ) → IsBytes ptr → be_load_word16 ptr < 2 ^ 16
load16-lt ptr h = rw (load16_number ptr h) (omega (arith, get_or-lt ptr 0 h, get_or-lt ptr 1 h))

-- what each step does to a word of which the low bits are zero
rotate16 : (x : ℕ) → IsWord x → right_rotate_64 x 16 ≡ x % 2 ^ 16 * 2 ^ 48 + x / 2 ^ 16
unfolding right_rotate_64
rotate16 x h =
    let high : x * 2 ^ 48 % 2 ^ 64 ≡ x % 2 ^ 16 * 2 ^ 48 = omega arith in
    ap (bit_or (x / 2 ^ 16)) high
    ∙ (or_comm (x / 2 ^ 16) (x % 2 ^ 16 * 2 ^ 48)
        ∙ or_apart (x % 2 ^ 16) (x / 2 ^ 16) 48 (omega arith))

rotate8 : (x : ℕ) → IsWord x → right_rotate_64 x 8 ≡ x % 2 ^ 8 * 2 ^ 56 + x / 2 ^ 8
unfolding right_rotate_64
rotate8 x h =
    let high : x * 2 ^ 56 % 2 ^ 64 ≡ x % 2 ^ 8 * 2 ^ 56 = omega arith in
    ap (bit_or (x / 2 ^ 8)) high
    ∙ (or_comm (x / 2 ^ 8) (x % 2 ^ 8 * 2 ^ 56) ∙ or_apart (x % 2 ^ 8) (x / 2 ^ 8) 56 (omega arith))

turn32 :
    (q v : ℕ)
    → q < 2 ^ 32
    → v < 2 ^ 32
    → right_rotate_64 (bit_xor (q * 2 ^ 32) v) 32 ≡ v * 2 ^ 32 + q
turn32 q v h l =
    let e = xor_apart q v 32 l in
    ap (λ x. right_rotate_64 x 32) e ∙ (rotate32 (q * 2 ^ 32 + v) (omega arith) ∙ omega arith)

turn16 :
    (q v : ℕ)
    → q < 2 ^ 48
    → v < 2 ^ 16
    → right_rotate_64 (bit_xor (q * 2 ^ 16) v) 16 ≡ v * 2 ^ 48 + q
turn16 q v h l =
    let e = xor_apart q v 16 l in
    ap (λ x. right_rotate_64 x 16) e ∙ (rotate16 (q * 2 ^ 16 + v) (omega arith) ∙ omega arith)

turn8 :
    (q v : ℕ) → q < 2 ^ 56 → v < 2 ^ 8 → right_rotate_64 (bit_xor (q * 2 ^ 8) v) 8 ≡ v * 2 ^ 56 + q
turn8 q v h l =
    let e = xor_apart q v 8 l in
    ap (λ x. right_rotate_64 x 8) e ∙ (rotate8 (q * 2 ^ 8 + v) (omega arith) ∙ omega arith)

module _ (bytes : List ℕ) (h : IsBytes bytes) where
  abbrev g : ℕ → ℕ
  g i = get_or bytes i 0

  get_or-drop : (n i : ℕ) (xs : List ℕ) → get_or (drop n xs) i 0 ≡ get_or xs (n + i) 0
  get_or-drop zero i xs = let e : i ≡ 0 + i = omega arith in ap (λ j. get_or xs j 0) e
  get_or-drop (suc n) i [] = refl
  get_or-drop (suc n) i (x ∷ xs) =
      let e : suc (n + i) ≡ suc n + i = omega arith in
      get_or-drop n i xs ∙ ap (λ j. get_or (x ∷ xs) j 0) e

  four :
      (n : ℕ)
      → be_load_word32 (drop n bytes)
        ≡ g n * 2 ^ 24 + g (n + 1) * 2 ^ 16 + g (n + 2) * 2 ^ 8 + g (n + 3)
  four n =
      let z : n + 0 ≡ n = omega arith in
      load_number32 (drop n bytes) (drop-IsBytes n bytes h)
      ∙ rw
          (
            get_or-drop n 0 bytes,
            get_or-drop n 1 bytes,
            get_or-drop n 2 bytes,
            get_or-drop n 3 bytes,
            z,
          )
          refl

  two : (n : ℕ) → be_load_word16 (drop n bytes) ≡ g n * 2 ^ 8 + g (n + 1)
  two n =
      let z : n + 0 ≡ n = omega arith in
      load16_number (drop n bytes) (drop-IsBytes n bytes h)
      ∙ rw (get_or-drop n 0 bytes, get_or-drop n 1 bytes, z) refl

  first-IsBytes : (size : ℕ) → IsBytes (first_bytes size bytes)
  first-IsBytes size = (at 0, (at 1, (at 2, (at 3, (at 4, (at 5, (at 6, (at 7, tt))))))))
    where
      at : (i : ℕ) → (if ltb i size then get_or bytes i 0 else 0) < 256
      at i = byte (ltb i size)
        where
          byte : (b : Bool) → (if b then get_or bytes i 0 else 0) < 256
          byte true = get_or-lt bytes i h
          byte false = omega arith

  pub plain_load_lem :
      (size : ℕ) → size < 8 → plain_load bytes size 0 ≡ be_load_word64 (first_bytes size bytes)
  plain_load_lem zero l = sym (load_number (first_bytes 0 bytes) (first-IsBytes 0))
  plain_load_lem (suc zero) l =
      let v1 = g 0 in
      let lv1 : v1 < 2 ^ 8 = omega (arith, get_or-lt bytes 0 h) in
      let qv1 : ℕ = 0 in
      let tv1 = turn8 qv1 v1 (omega arith) lv1 in
      let sv1 : right_rotate_64 (bit_xor 0 v1) 8 ≡ v1 * 2 ^ 56 =
        ap (λ x. right_rotate_64 (bit_xor x v1) 8) (omega arith) ∙ (tv1 ∙ omega arith) in
      sv1 ∙ (omega (arith) ∙ sym (load_number (first_bytes 1 bytes) (first-IsBytes 1)))
  plain_load_lem (suc (suc zero)) l =
      let v2 = be_load_word16 (drop 0 bytes) in
      let ev2 = two 0 in
      let lv2 : v2 < 2 ^ 16 = omega (arith, ev2, get_or-lt bytes 0 h, get_or-lt bytes 1 h) in
      let qv2 : ℕ = 0 in
      let tv2 = turn16 qv2 v2 (omega arith) lv2 in
      let sv2 : right_rotate_64 (bit_xor 0 v2) 16 ≡ v2 * 2 ^ 48 =
        ap (λ x. right_rotate_64 (bit_xor x v2) 16) (omega arith) ∙ (tv2 ∙ omega arith) in
      sv2 ∙ (omega (arith, ev2) ∙ sym (load_number (first_bytes 2 bytes) (first-IsBytes 2)))
  plain_load_lem (suc (suc (suc zero))) l =
      let v2 = be_load_word16 (drop 1 bytes) in
      let ev2 = two 1 in
      let lv2 : v2 < 2 ^ 16 = omega (arith, ev2, get_or-lt bytes 1 h, get_or-lt bytes 2 h) in
      let v1 = g 0 in
      let lv1 : v1 < 2 ^ 8 = omega (arith, get_or-lt bytes 0 h) in
      let qv2 : ℕ = 0 in
      let tv2 = turn16 qv2 v2 (omega arith) lv2 in
      let sv2 : right_rotate_64 (bit_xor 0 v2) 16 ≡ v2 * 2 ^ 48 =
        ap (λ x. right_rotate_64 (bit_xor x v2) 16) (omega arith) ∙ (tv2 ∙ omega arith) in
      let qv1 : ℕ = v2 * 2 ^ 40 in
      let tv1 = turn8 qv1 v1 (omega arith) lv1 in
      let fitv1 : v2 * 2 ^ 48 ≡ qv1 * 2 ^ 8 = omega arith in
      let sv1 = ap (λ x. right_rotate_64 (bit_xor x v1) 8) (sv2 ∙ fitv1) ∙ tv1 in
      sv1 ∙ (omega (arith, ev2) ∙ sym (load_number (first_bytes 3 bytes) (first-IsBytes 3)))
  plain_load_lem (suc (suc (suc (suc zero)))) l =
      let v4 = be_load_word32 (drop 0 bytes) in
      let ev4 = four 0 in
      let lv4 : v4 < 2 ^ 32 = omega (
        arith,
        ev4,
        get_or-lt bytes 0 h,
        get_or-lt bytes 1 h,
        get_or-lt bytes 2 h,
        get_or-lt bytes 3 h,
      ) in
      let qv4 : ℕ = 0 in
      let tv4 = turn32 qv4 v4 (omega arith) lv4 in
      let sv4 : right_rotate_64 (bit_xor 0 v4) 32 ≡ v4 * 2 ^ 32 =
        ap (λ x. right_rotate_64 (bit_xor x v4) 32) (omega arith) ∙ (tv4 ∙ omega arith) in
      sv4 ∙ (omega (arith, ev4) ∙ sym (load_number (first_bytes 4 bytes) (first-IsBytes 4)))
  plain_load_lem (suc (suc (suc (suc (suc zero))))) l =
      let v4 = be_load_word32 (drop 1 bytes) in
      let ev4 = four 1 in
      let lv4 : v4 < 2 ^ 32 = omega (
        arith,
        ev4,
        get_or-lt bytes 1 h,
        get_or-lt bytes 2 h,
        get_or-lt bytes 3 h,
        get_or-lt bytes 4 h,
      ) in
      let v1 = g 0 in
      let lv1 : v1 < 2 ^ 8 = omega (arith, get_or-lt bytes 0 h) in
      let qv4 : ℕ = 0 in
      let tv4 = turn32 qv4 v4 (omega arith) lv4 in
      let sv4 : right_rotate_64 (bit_xor 0 v4) 32 ≡ v4 * 2 ^ 32 =
        ap (λ x. right_rotate_64 (bit_xor x v4) 32) (omega arith) ∙ (tv4 ∙ omega arith) in
      let qv1 : ℕ = v4 * 2 ^ 24 in
      let tv1 = turn8 qv1 v1 (omega arith) lv1 in
      let fitv1 : v4 * 2 ^ 32 ≡ qv1 * 2 ^ 8 = omega arith in
      let sv1 = ap (λ x. right_rotate_64 (bit_xor x v1) 8) (sv4 ∙ fitv1) ∙ tv1 in
      sv1 ∙ (omega (arith, ev4) ∙ sym (load_number (first_bytes 5 bytes) (first-IsBytes 5)))
  plain_load_lem (suc (suc (suc (suc (suc (suc zero)))))) l =
      let v4 = be_load_word32 (drop 2 bytes) in
      let ev4 = four 2 in
      let lv4 : v4 < 2 ^ 32 = omega (
        arith,
        ev4,
        get_or-lt bytes 2 h,
        get_or-lt bytes 3 h,
        get_or-lt bytes 4 h,
        get_or-lt bytes 5 h,
      ) in
      let v2 = be_load_word16 (drop 0 bytes) in
      let ev2 = two 0 in
      let lv2 : v2 < 2 ^ 16 = omega (arith, ev2, get_or-lt bytes 0 h, get_or-lt bytes 1 h) in
      let qv4 : ℕ = 0 in
      let tv4 = turn32 qv4 v4 (omega arith) lv4 in
      let sv4 : right_rotate_64 (bit_xor 0 v4) 32 ≡ v4 * 2 ^ 32 =
        ap (λ x. right_rotate_64 (bit_xor x v4) 32) (omega arith) ∙ (tv4 ∙ omega arith) in
      let qv2 : ℕ = v4 * 2 ^ 16 in
      let tv2 = turn16 qv2 v2 (omega arith) lv2 in
      let fitv2 : v4 * 2 ^ 32 ≡ qv2 * 2 ^ 16 = omega arith in
      let sv2 = ap (λ x. right_rotate_64 (bit_xor x v2) 16) (sv4 ∙ fitv2) ∙ tv2 in
      sv2 ∙ (omega (arith, ev4, ev2) ∙ sym (load_number (first_bytes 6 bytes) (first-IsBytes 6)))
  plain_load_lem (suc (suc (suc (suc (suc (suc (suc zero))))))) l =
      let v4 = be_load_word32 (drop 3 bytes) in
      let ev4 = four 3 in
      let lv4 : v4 < 2 ^ 32 = omega (
        arith,
        ev4,
        get_or-lt bytes 3 h,
        get_or-lt bytes 4 h,
        get_or-lt bytes 5 h,
        get_or-lt bytes 6 h,
      ) in
      let v2 = be_load_word16 (drop 1 bytes) in
      let ev2 = two 1 in
      let lv2 : v2 < 2 ^ 16 = omega (arith, ev2, get_or-lt bytes 1 h, get_or-lt bytes 2 h) in
      let v1 = g 0 in
      let lv1 : v1 < 2 ^ 8 = omega (arith, get_or-lt bytes 0 h) in
      let qv4 : ℕ = 0 in
      let tv4 = turn32 qv4 v4 (omega arith) lv4 in
      let sv4 : right_rotate_64 (bit_xor 0 v4) 32 ≡ v4 * 2 ^ 32 =
        ap (λ x. right_rotate_64 (bit_xor x v4) 32) (omega arith) ∙ (tv4 ∙ omega arith) in
      let qv2 : ℕ = v4 * 2 ^ 16 in
      let tv2 = turn16 qv2 v2 (omega arith) lv2 in
      let fitv2 : v4 * 2 ^ 32 ≡ qv2 * 2 ^ 16 = omega arith in
      let sv2 = ap (λ x. right_rotate_64 (bit_xor x v2) 16) (sv4 ∙ fitv2) ∙ tv2 in
      let qv1 : ℕ = v2 * 2 ^ 40 + v4 * 2 ^ 8 in
      let tv1 = turn8 qv1 v1 (omega arith) lv1 in
      let fitv1 : v2 * 2 ^ 48 + qv2 ≡ qv1 * 2 ^ 8 = omega arith in
      let sv1 = ap (λ x. right_rotate_64 (bit_xor x v1) 8) (sv2 ∙ fitv1) ∙ tv1 in
      sv1 ∙ (omega (arith, ev4, ev2) ∙ sym (load_number (first_bytes 7 bytes) (first-IsBytes 7)))
  plain_load_lem (suc (suc (suc (suc (suc (suc (suc (suc size)))))))) l = absurd (omega arith)

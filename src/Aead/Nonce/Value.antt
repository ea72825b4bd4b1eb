-- ===== src/Aead/Nonce/Value.antt =====
-- The number that a nonce stands for, and what the operations do to it.
use ascon_suite_tcc.Base.{
  ℕ, zero, suc, ◌+◌, ◌*◌, ◌/◌, ◌%◌, ◌^◌, ◌<◌, ◌≤◌, ◌≡◌, refl, sym, ap, ap₂, ◌∙◌, arith, List, [],
  ◌∷◌, ◌++◌, length, length-set, get_or, set, take, drop,
}
use native.Mathlib.Nat.{
  pow-suc, one-le-pow, mul-add-mod_self_right, mod-eq_of_lt, mod-lt, div-add-mod',
}
use ascon_suite_tcc.Base.Bytes.{IsBytes, get_or-lt, set-IsBytes}
use ascon_suite_tcc.Base.Slices.{drop-set_above, take_all}
use ascon_suite_tcc.Core.Word.{u8, be_store_word64}
use ascon_suite_tcc.Aead.Nonce.{set_counter, increment_loop, increment_nonce}

-- The value of the bytes, the first one highest.
value_from : ℕ → List ℕ → ℕ
value_from acc [] = acc
value_from acc (b ∷ xs) = value_from (acc * 256 + b) xs

pub value : List ℕ → ℕ
unfolding value_from
value xs = value_from 0 xs

value_from-append :
    (acc : ℕ) (xs ys : List ℕ) → value_from acc (xs ++ ys) ≡ value_from (value_from acc xs) ys
unfolding value_from
value_from-append acc [] ys = refl
value_from-append acc (x ∷ xs) ys = value_from-append (acc * 256 + x) xs ys

value-snoc : (xs : List ℕ) (b : ℕ) → value (xs ++ (b ∷ [])) ≡ value xs * 256 + b
unfolding value
value-snoc xs b = value_from-append 0 xs (b ∷ [])

-- what the increment leaves
record Incremented (i carry : ℕ) (xs ys : List ℕ) : Type 0 where
  above : drop i ys ≡ drop i xs
  number : value (take i ys) ≡ (value (take i xs) + carry) % 256 ^ i
  same_length : length ys ≡ length xs

take-suc :
    (xs : List ℕ) (i : ℕ) → i < length xs → take (suc i) xs ≡ take i xs ++ (get_or xs i 0 ∷ [])
take-suc [] i h = absurd (omega arith)
take-suc (x ∷ xs) zero h = refl
take-suc (x ∷ xs) (suc i) h = ap (λ r. x ∷ r) (take-suc xs i (omega arith))

take-set_above : (xs : List ℕ) (i v : ℕ) → take i (set xs i v) ≡ take i xs
take-set_above xs zero v = refl
take-set_above [] (suc i) v = refl
take-set_above (x ∷ xs) (suc i) v = ap (λ r. x ∷ r) (take-set_above xs i v)

get_or-drop : (xs : List ℕ) (i : ℕ) → get_or (drop i xs) 0 0 ≡ get_or xs i 0
get_or-drop xs zero = refl
get_or-drop [] (suc i) = refl
get_or-drop (x ∷ xs) (suc i) = get_or-drop xs i

get_or-set_self : (xs : List ℕ) (i v : ℕ) → i < length xs → get_or (set xs i v) i 0 ≡ v
get_or-set_self [] i v h = absurd (omega arith)
get_or-set_self (x ∷ xs) zero v h = refl
get_or-set_self (x ∷ xs) (suc i) v h = get_or-set_self xs i v (omega arith)

drop-suc : (xs ys : List ℕ) (i : ℕ) → drop i xs ≡ drop i ys → drop (suc i) xs ≡ drop (suc i) ys
drop-suc xs ys i e = tail_of xs i ∙ (ap (drop 1) e ∙ sym (tail_of ys i))
  where
    tail_of : (zs : List ℕ) (i : ℕ) → drop (suc i) zs ≡ drop 1 (drop i zs)
    tail_of zs zero = refl
    tail_of [] (suc i) = refl
    tail_of (z ∷ zs) (suc i) = tail_of zs i

-- The remainder by a multiple of 256 keeps the lowest byte.
mod_scale : (w low p : ℕ) → low < 256 → 0 < p → (w * 256 + low) % (256 * p) ≡ w % p * 256 + low
mod_scale w low p h k =
    ap (λ z. z % (256 * p)) parts
    ∙ (mul-add-mod_self_right (w / p) (256 * p) (w % p * 256 + low)
        ∙ mod-eq_of_lt (omega (arith, mod-lt w k)))
  where
    parts : w * 256 + low ≡ w / p * (256 * p) + (w % p * 256 + low)
    parts = omega (arith, div-add-mod' w p)

-- One byte of the carry chain: `sum` is the byte and the carry.
module _ (i carry sum : ℕ) (xs ys : List ℕ) (long : suc i ≤ length xs)
    (added : sum ≡ carry + get_or xs i 0)
    (rest : Incremented i (sum / 2 ^ 8) (set xs i (u8 sum)) ys) where
  stored : get_or ys i 0 ≡ u8 sum
  stored =
      sym (get_or-drop ys i)
      ∙ (ap (λ l. get_or l 0 0) rest.above
          ∙ (get_or-drop (set xs i (u8 sum)) i ∙ get_or-set_self xs i (u8 sum) long))

  ys_long : i < length ys
  ys_long = omega (arith, rest.same_length, length-set xs i (u8 sum))

  number_xs : value (take (suc i) xs) ≡ value (take i xs) * 256 + get_or xs i 0
  number_xs = ap value (take-suc xs i long) ∙ value-snoc (take i xs) (get_or xs i 0)

  number_ys : value (take (suc i) ys) ≡ value (take i ys) * 256 + u8 sum
  number_ys =
      ap value (take-suc ys i ys_long) ∙ (value-snoc (take i ys) (get_or ys i 0) ∙ rw stored)

  number_low : value (take i ys) ≡ (value (take i xs) + sum / 2 ^ 8) % 256 ^ i
  number_low = rest.number ∙ rw take-set_above

  Incremented-suc : Incremented (suc i) carry xs ys
  Incremented-suc = record {
    above =
        drop-suc ys (set xs i (u8 sum)) i rest.above
        ∙ drop-set_above xs i (u8 sum) (suc i) (omega arith);
    number =
        number_ys
        ∙ (ap (λ n. n * 256 + u8 sum) number_low
            ∙ (sym (
                  mod_scale (value (take i xs) + sum / 2 ^ 8) (u8 sum) (256 ^ i) (omega arith)
                    (one-le-pow i 256 (omega arith)))
                ∙ ap₂ ◌%◌ (omega (arith, number_xs)) (omega (arith, pow-suc 256 i))));
    same_length = rest.same_length ∙ length-set xs i (u8 sum);
  }

-- The carry chain adds the carry to the number in the first `i` bytes, modulo its range, and
-- leaves the other bytes alone.
increment_loop_lem :
    (i carry : ℕ) (xs : List ℕ)
    → carry < 2
    → i ≤ length xs
    → IsBytes xs
    → Incremented i carry xs (increment_loop i carry xs)
unfolding increment_loop
increment_loop_lem zero carry xs h k b = record {
  above = refl;
  number = unfold value value_from in omega arith;
  same_length = refl;
}
increment_loop_lem (suc i) carry xs h k b =
    let sum = (carry + get_or xs i 0) % 2 ^ 16 in
    let ys = increment_loop i (sum / 2 ^ 8) (set xs i (u8 sum)) in
    Incremented-suc i carry sum xs ys k (omega (arith, get_or-lt xs i b)) (
      increment_loop_lem i (sum / 2 ^ 8) (set xs i (u8 sum)) (omega (arith, get_or-lt xs i b))
        (omega (arith, length-set xs i (u8 sum))) (set-IsBytes xs i (u8 sum) b (omega arith)))

-- For a nonce of 16 bytes, incrementing adds one to its value modulo 2 ^ 128, and keeps its length.
pub increment_nonce_lem :
    (npub : List ℕ)
    → length npub ≡ 16
    → IsBytes npub
    → (value (increment_nonce npub) ≡ (value npub + 1) % 2 ^ 128)
      × (length (increment_nonce npub) ≡ 16)
unfolding increment_nonce
increment_nonce_lem npub h b =
    let r = increment_loop_lem 16 1 npub (omega arith) (omega arith) b in
    (
      ap value (sym (take_all (increment_nonce npub) 16 (omega (arith, r.same_length))))
          ∙ (r.number ∙ ap (λ z. (value z + 1) % 2 ^ 128) (take_all npub 16 (omega arith))),
      r.same_length ∙ h,
    )

-- The counter that is set is the value of the nonce, for a 64-bit counter.
set_counter_lem : (n : ℕ) → n < 2 ^ 64 → (value (set_counter n) ≡ n) × (length (set_counter n) ≡ 16)
unfolding set_counter value value_from be_store_word64
set_counter_lem n h = (omega arith, refl)

-- ===== src/Base/Slices.antt =====
-- `take` and `drop` where pieces of a list meet, and a write between them.
use Prim.Native.Nat.{ℕ, zero, suc, ◌+◌, ◌<◌, ◌≤◌}
use mathlib.Core.Path.{◌≡◌, refl, sym, ap, ◌∙◌}
use mathlib.Core.List.{List, [], ◌∷◌, ◌++◌}
use native.Mathlib.Omega.{arith}
use ascon_suite_tcc.Base.Lists.{length, take, drop, set}

pub take-set_below :
    (s : List ℕ) (i v : ℕ) → i < length s → take (i + 1) (set s i v) ≡ take i s ++ (v ∷ [])
take-set_below [] i v h = absurd (omega arith)
take-set_below (x ∷ s) zero v h = refl
take-set_below (x ∷ s) (suc i) v h =
    rw add-suc-one (ap (λ r. x ∷ r) (take-set_below s i v (omega arith)))
  where
    add-suc-one : suc i + 1 ≡ suc (i + 1)
    add-suc-one = omega arith

pub drop-set_above : (s : List ℕ) (i v n : ℕ) → i < n → drop n (set s i v) ≡ drop n s
drop-set_above s i v zero h = absurd (omega arith)
drop-set_above [] i v (suc n) h = refl
drop-set_above (x ∷ s) zero v (suc n) h = refl
drop-set_above (x ∷ s) (suc i) v (suc n) h = drop-set_above s i v n (omega arith)

pub take-append-drop_self : (s : List ℕ) (n : ℕ) → s ≡ take n s ++ drop n s
take-append-drop_self s zero = refl
take-append-drop_self [] (suc n) = refl
take-append-drop_self (x ∷ s) (suc n) = ap (λ r. x ∷ r) (take-append-drop_self s n)

pub take_prefix : (pre rest : List ℕ) → take (length pre) (pre ++ rest) ≡ pre
take_prefix [] rest = refl
take_prefix (x ∷ pre) rest = ap (λ r. x ∷ r) (take_prefix pre rest)

pub drop_prefix : (pre rest : List ℕ) (n : ℕ) → drop (length pre + n) (pre ++ rest) ≡ drop n rest
drop_prefix [] rest n = ap (λ k. drop k rest) (omega arith)
drop_prefix (x ∷ pre) rest n = rw suc_add (drop_prefix pre rest n)
  where
    suc_add : suc (length pre) + n ≡ suc (length pre + n)
    suc_add = omega arith

pub drop_all : (s : List ℕ) (n : ℕ) → length s ≤ n → drop n s ≡ []
drop_all [] zero h = refl
drop_all [] (suc n) h = refl
drop_all (x ∷ s) zero h = absurd (omega arith)
drop_all (x ∷ s) (suc n) h = drop_all s n (omega arith)

pub drop-drop : (s : List ℕ) (m n : ℕ) → drop n (drop m s) ≡ drop (m + n) s
drop-drop s zero n = ap (λ k. drop k s) (omega arith)
drop-drop [] (suc m) n = drop_all [] n (omega arith) ∙ sym (drop_all [] (suc m + n) (omega arith))
drop-drop (x ∷ s) (suc m) n = rw suc_add (drop-drop s m n)
  where
    suc_add : suc m + n ≡ suc (m + n)
    suc_add = omega arith

pub take_all : (xs : List ℕ) (n : ℕ) → length xs ≤ n → take n xs ≡ xs
take_all [] zero h = refl
take_all [] (suc n) h = refl
take_all (x ∷ xs) zero h = absurd (omega arith)
take_all (x ∷ xs) (suc n) h = ap (λ r. x ∷ r) (take_all xs n (omega arith))

pub drop_here : (pre rest : List ℕ) → drop (length pre) (pre ++ rest) ≡ rest
drop_here [] rest = refl
drop_here (x ∷ pre) rest = drop_here pre rest

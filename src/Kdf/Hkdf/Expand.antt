-- ===== src/Kdf/Hkdf/Expand.antt =====
-- The state of HKDF supplies a stream of bytes: the blocks of RFC 5869 that are left.
use ascon_suite_tcc.Base.{
  ℕ, zero, suc, ◌+◌, ◌-◌, ◌%◌, ◌<◌, ◌≤◌, ◌≡◌, refl, ap, ◌∙◌, arith, List, [], ◌∷◌, ◌++◌, leb,
  if◌then◌else◌, length, length-drop, take, drop, replicate,
}
use mathlib.Core.Path.{subst}
use ascon_suite_tcc.Base.Slices.{drop-drop}
use ascon_suite_tcc.Aead.Tag.{minus_one}
use ascon_suite_tcc.Hash.Xof.Init.{Flavour}
use ascon_suite_tcc.Mac.Hmac.Laws.{rfc_hmac}
use ascon_suite_tcc.Kdf.Hkdf.{HkdfState, Expanded}

-- RFC 5869: T(0) is empty, and T(i + 1) is the HMAC of T(i), the info and the byte i + 1.
abbrev pub block : Flavour → List ℕ → List ℕ → ℕ → List ℕ
block f prk info zero = []
block f prk info (suc i) = rfc_hmac f prk (block f prk info i ++ (info ++ (suc i ∷ [])))

-- `n` blocks behind the first `i`
abbrev pub blocks_from : Flavour → List ℕ → List ℕ → ℕ → ℕ → List ℕ
blocks_from f prk info zero i = []
blocks_from f prk info (suc n) i = block f prk info (suc i) ++ blocks_from f prk info n (suc i)

-- The state has made `i` blocks, may make `n` more, and supplies the bytes `rest`.
pub record Supplies (f : Flavour) (prk info : List ℕ) (st : HkdfState) (rest : List ℕ)
    : Type 0 where
  pub made : ℕ
  pub more : ℕ
  pub in_all : made + more ≡ 255
  pub same_prk : st.prk ≡ prk
  pub counted : st.counter ≡ (made + 1) % 256
  pub inside : st.posn ≤ 32
  pub fresh : made ≡ 0 → st.posn ≡ 32
  pub last : 0 < made → st.out ≡ block f prk info made
  pub supply : rest ≡ drop st.posn (block f prk info made) ++ blocks_from f prk info more made

-- The first `n` bytes, and zeros where there are no more.
abbrev pub fill : ℕ → List ℕ → List ℕ
fill zero xs = []
fill (suc n) [] = 0 ∷ fill n []
fill (suc n) (x ∷ xs) = x ∷ fill n xs

pub fill_nothing : (n : ℕ) → fill n [] ≡ replicate n 0
fill_nothing zero = refl
fill_nothing (suc n) = ap (λ r. 0 ∷ r) (fill_nothing n)

pub fill_inside : (n : ℕ) (xs : List ℕ) → n ≤ length xs → fill n xs ≡ take n xs
fill_inside zero xs h = refl
fill_inside (suc n) [] h = absurd (omega arith)
fill_inside (suc n) (x ∷ xs) h = ap (λ r. x ∷ r) (fill_inside n xs (omega arith))

fill_split :
    (len n : ℕ) (xs : List ℕ)
    → len ≤ n
    → len ≤ length xs
    → take len xs ++ fill (n - len) (drop len xs) ≡ fill n xs
fill_split zero n xs h k = ap (λ m. fill m xs) same
  where
    same : n - 0 ≡ n
    same = omega arith
fill_split (suc len) zero xs h k = absurd (omega arith)
fill_split (suc len) (suc n) [] h k = absurd (omega arith)
fill_split (suc len) (suc n) (x ∷ xs) h k =
    ap (λ m. x ∷ (take len xs ++ fill m (drop len xs))) same
    ∙ ap (λ r. x ∷ r) (fill_split len n xs (omega arith) (omega arith))
  where
    same : suc n - suc len ≡ n - len
    same = omega arith

pub take_within : (n : ℕ) (xs ys : List ℕ) → n ≤ length xs → take n (xs ++ ys) ≡ take n xs
take_within zero xs ys h = refl
take_within (suc n) [] ys h = absurd (omega arith)
take_within (suc n) (x ∷ xs) ys h = ap (λ r. x ∷ r) (take_within n xs ys (omega arith))

pub drop_within : (n : ℕ) (xs ys : List ℕ) → n ≤ length xs → drop n (xs ++ ys) ≡ drop n xs ++ ys
drop_within zero xs ys h = refl
drop_within (suc n) [] ys h = absurd (omega arith)
drop_within (suc n) (x ∷ xs) ys h = drop_within n xs ys (omega arith)

-- What an expansion by `outlen` bytes does to a state that supplies `rest`.
pub record Serves (f : Flavour) (prk info : List ℕ) (outlen : ℕ) (rest : List ℕ) (e : Expanded)
    : Type 0 where
  pub bytes : e.written ≡ fill outlen rest
  pub status : e.result ≡ (if leb outlen (length rest) then 0 else minus_one)
  pub supplies : Supplies f prk info e.state (drop outlen rest)

-- A piece that is there, and what is served behind it.
pub serve_more :
    (f : Flavour) (prk info : List ℕ) (len outlen : ℕ) (rest : List ℕ) (e : Expanded)
    → len ≤ outlen
    → len ≤ length rest
    → Serves f prk info (outlen - len) (drop len rest) e
    → Serves f prk info outlen rest (record e { written = take len rest ++ e.written })
serve_more f prk info len outlen rest e h k s = record {
  bytes = ap (λ r. take len rest ++ r) s.bytes ∙ fill_split len outlen rest h k;
  status = s.status ∙ ap (λ b. if b then 0 else minus_one) same_test;
  supplies = subst (Supplies f prk info e.state) same_drop s.supplies;
}
  where
    same_test : leb (outlen - len) (length (drop len rest)) ≡ leb outlen (length rest)
    same_test = ground (arith, length-drop len rest)

    same_drop : drop (outlen - len) (drop len rest) ≡ drop outlen rest
    same_drop = drop-drop rest len (outlen - len) ∙ ap (λ n. drop n rest) (omega arith)

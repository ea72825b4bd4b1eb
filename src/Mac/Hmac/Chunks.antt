-- ===== src/Mac/Hmac/Chunks.antt =====
-- HMAC absorbs its padded key in chunks, and the padding behind it: in all, one block.
use ascon_suite_tcc.Base.{
  ℕ, zero, suc, ◌+◌, ◌-◌, ◌≤◌, ◌≡◌, refl, sym, ap, ap₂, ◌∙◌, arith, bit_xor, inl, inr, Bool-cases,
  List, [], ◌∷◌, ◌++◌, ltb, ◌==◌, ==_iff, if◌then◌else◌, length, length-drop, take, drop,
  take-append-drop, replicate,
}
use ascon_suite_tcc.Base.Bits.Laws.{zero_xor}
use ascon_suite_tcc.Hash.Xof.{Xof, absorb}
use ascon_suite_tcc.Hash.Xof.Stream.{absorb-append}
use ascon_suite_tcc.Hash.Xof.Init.{Flavour}
use ascon_suite_tcc.Hash.Xof.Pieces.{IsAbsorbing, absorb-IsAbsorbing, absorb_nothing}
use ascon_suite_tcc.Mac.Hmac.{xor_pad, absorb_chunks, absorb_padding}

pub xor_pad-append :
    (xs ys : List ℕ) (pad : ℕ) → xor_pad (xs ++ ys) pad ≡ xor_pad xs pad ++ xor_pad ys pad
unfolding xor_pad
xor_pad-append [] ys pad = refl
xor_pad-append (x ∷ xs) ys pad = ap (λ r. bit_xor x pad ∷ r) (xor_pad-append xs ys pad)

pub xor_pad-replicate : (n pad : ℕ) → xor_pad (replicate n 0) pad ≡ replicate n pad
unfolding xor_pad
xor_pad-replicate zero pad = refl
xor_pad-replicate (suc n) pad = ap₂ ◌∷◌ (zero_xor pad) (xor_pad-replicate n pad)

take-replicate : (n m x : ℕ) → n ≤ m → take n (replicate m x) ≡ replicate n x
take-replicate zero m x h = refl
take-replicate (suc n) zero x h = absurd (omega arith)
take-replicate (suc n) (suc m) x h = ap (λ r. x ∷ r) (take-replicate n m x (omega arith))

replicate-append : (n m k x : ℕ) → n + m ≡ k → replicate n x ++ replicate m x ≡ replicate k x
replicate-append zero m k x e = let same : m ≡ k = omega arith in ap (λ j. replicate j x) same
replicate-append (suc n) m zero x e = absurd (omega arith)
replicate-append (suc n) m (suc k) x e = ap (λ r. x ∷ r) (replicate-append n m k x (omega arith))

length_zero : (xs : List ℕ) → length xs ≡ 0 → xs ≡ []
length_zero [] h = refl
length_zero (x ∷ xs) h = absurd (omega arith)

module _ (f : Flavour) where
  pub chunks_lem :
      (fuel : ℕ) (st : Xof) (key : List ℕ) (pad : ℕ)
      → IsAbsorbing st
      → length key ≤ fuel
      → absorb_chunks f fuel st key pad ≡ absorb f.block_round st (xor_pad key pad)
  unfolding absorb_chunks xor_pad
  chunks_lem zero st [] pad h k = sym (absorb_nothing f.block_round st h)
  chunks_lem zero st (x ∷ key) pad h k = absurd (omega arith)
  chunks_lem (suc fuel) st key pad h k = elim (Bool-cases (length key == 0)) [
    | inl e ↦ rw e (
        let none = length_zero key ((==_iff (length key) 0).0 e) in
        rw none (sym (absorb_nothing f.block_round st h)))
    | inr e ↦ rw e (
        let first = take 32 key in
        let rest = drop 32 key in
        let st' = absorb f.block_round st (xor_pad first pad) in
        let less : length rest ≤ fuel = ground (arith, length-drop 32 key) in
        chunks_lem fuel st' rest pad (absorb-IsAbsorbing f.block_round st (xor_pad first pad) h)
          less
        ∙ (absorb-append f.block_round st (xor_pad first pad) (xor_pad rest pad) h.0
            ∙ ap (absorb f.block_round st) (
                sym (xor_pad-append first rest pad)
                ∙ ap (λ z. xor_pad z pad) (take-append-drop 32 key))))
  ]

  pub padding_lem :
      (fuel : ℕ) (st : Xof) (left pad : ℕ)
      → IsAbsorbing st
      → left ≤ fuel
      → absorb_padding f fuel st left pad ≡ absorb f.block_round st (replicate left pad)
  unfolding absorb_padding
  padding_lem zero st left pad h k =
      let none : left ≡ 0 = omega arith in rw none (sym (absorb_nothing f.block_round st h))
  padding_lem (suc fuel) st left pad h k = elim (Bool-cases (left == 0)) [
    | inl e ↦
        rw e (let none = (==_iff left 0).0 e in rw none (sym (absorb_nothing f.block_round st h)))
    | inr e ↦ rw e (
        let len = if ltb 32 left then 32 else left in
        let inside : len ≤ 32 = ground arith in
        let fits : len + (left - len) ≡ left = ground arith in
        let less : left - len ≤ fuel = ground arith in
        let now = take len (replicate 32 pad) in
        let st' = absorb f.block_round st now in
        padding_lem fuel st' (left - len) pad (absorb-IsAbsorbing f.block_round st now h) less
        ∙ (absorb-append f.block_round st now (replicate (left - len) pad) h.0
            ∙ ap (absorb f.block_round st) (
                ap (λ z. z ++ replicate (left - len) pad) (take-replicate len 32 pad inside)
                ∙ replicate-append len (left - len) left pad fits)))
  ]

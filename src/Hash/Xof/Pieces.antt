-- ===== src/Hash/Xof/Pieces.antt =====
-- An input that is absorbed in any pieces, and an output that is squeezed in any pieces.
use ascon_suite_tcc.Base.{ℕ, ◌+◌, ◌<◌, ◌≡◌, refl, sym, ap, ◌∙◌, List, [], ◌∷◌, ◌++◌}
use ascon_suite_tcc.Core.Snp.{encrypt_byte}
use ascon_suite_tcc.Aead.Stream.{stream}
use ascon_suite_tcc.Aead.Stream.Bounds.{stream_posn}
use ascon_suite_tcc.Aead.Incremental.Packet.{flatten}
use ascon_suite_tcc.Hash.Xof.{Xof, Squeezed, absorb, squeeze, squeeze_a}
use ascon_suite_tcc.Hash.Xof.Stream.{absorb-eq-stream, absorb-append}
use ascon_suite_tcc.Hash.Xof.Emit.Append.{
  squeeze-append, squeeze_a-append, squeeze_count, squeeze_a_count, squeeze_nothing,
  squeeze_a_nothing,
}

-- One call for each piece.
unfoldable pub absorb_pieces : ℕ → Xof → List (List ℕ) → Xof
absorb_pieces block_round st [] = st
absorb_pieces block_round st (x ∷ xs) = absorb_pieces block_round (absorb block_round st x) xs

unfoldable pub squeeze_pieces : (Xof → ℕ → Squeezed) → Xof → List ℕ → List ℕ
squeeze_pieces call st [] = []
squeeze_pieces call st (n ∷ ns) = let now = call st n in now.out ++ squeeze_pieces call now.xof ns

unfoldable pub total : List ℕ → ℕ
total [] = 0
total (n ∷ ns) = n + total ns

-- A state between two calls of absorb.
abbrev pub IsAbsorbing : Xof → Type 0
IsAbsorbing st = (st.count < 8) × (st.mode ≡ 0)

pub absorb-IsAbsorbing :
    (block_round : ℕ) (st : Xof) (src : List ℕ)
    → IsAbsorbing st
    → IsAbsorbing (absorb block_round st src)
absorb-IsAbsorbing block_round st src h =
    rw (absorb-eq-stream block_round st src h.0, h.1)
      (stream_posn 8 block_round encrypt_byte st.state src st.count h.0, refl)

pub absorb_nothing : (block_round : ℕ) (st : Xof) → IsAbsorbing st → absorb block_round st [] ≡ st
unfolding stream
absorb_nothing block_round st h = absorb-eq-stream block_round st [] h.0 ∙ rw h.1 refl

-- Absorbing in pieces leaves what absorbing the pieces in one call leaves.
pub absorb_pieces_lem :
    (block_round : ℕ) (st : Xof) (xs : List (List ℕ))
    → IsAbsorbing st
    → absorb_pieces block_round st xs ≡ absorb block_round st (flatten xs)
unfolding absorb_pieces flatten
absorb_pieces_lem block_round st [] h = sym (absorb_nothing block_round st h)
absorb_pieces_lem block_round st (x ∷ xs) h =
    absorb_pieces_lem block_round (absorb block_round st x) xs
      (absorb-IsAbsorbing block_round st x h)
    ∙ absorb-append block_round st x (flatten xs) h.0

-- A call of squeeze that can be split.
module _ (call : Xof → ℕ → Squeezed)
    (call_count : (st : Xof) (n : ℕ) → st.count < 8 → (call st n).xof.count < 8)
    (call_nothing : (st : Xof) → st.count < 8 → (call st 0).out ≡ [])
    (call-append : (st : Xof) (a b : ℕ)
      → st.count < 8
      → let first = call st a in
        let second = call first.xof b in
        call st (a + b) ≡ record { xof = second.xof; out = first.out ++ second.out }) where
  squeeze_pieces_lem :
      (st : Xof) (ns : List ℕ) → st.count < 8 → squeeze_pieces call st ns ≡ (call st (total ns)).out
  unfolding squeeze_pieces total
  squeeze_pieces_lem st [] h = sym (call_nothing st h)
  squeeze_pieces_lem st (n ∷ ns) h =
      let now = call st n in
      rw (call-append st n (total ns) h)
        (ap (λ out. now.out ++ out) (squeeze_pieces_lem now.xof ns (call_count st n h)))

  any_pieces :
      (block_round : ℕ) (st : Xof) (xs : List (List ℕ)) (ns : List ℕ)
      → IsAbsorbing st
      → squeeze_pieces call (absorb_pieces block_round st xs) ns
        ≡ (call (absorb block_round st (flatten xs)) (total ns)).out
  any_pieces block_round st xs ns h = rw (absorb_pieces_lem block_round st xs h) (
      squeeze_pieces_lem (absorb block_round st (flatten xs)) ns
        (absorb-IsAbsorbing block_round st (flatten xs) h).0)

-- From an absorbing state with its position inside the block, XOF gives the same output
-- whether an input is absorbed in any pieces and the output squeezed in any pieces, or each in
-- one call.
pub xof_pieces :
    (st : Xof) (xs : List (List ℕ)) (ns : List ℕ)
    → IsAbsorbing st
    → squeeze_pieces squeeze (absorb_pieces 0 st xs) ns
      ≡ (squeeze (absorb 0 st (flatten xs)) (total ns)).out
xof_pieces = any_pieces squeeze squeeze_count squeeze_nothing squeeze-append 0

-- From an absorbing state with its position inside the block, XOFA gives the same output
-- whether an input is absorbed in any pieces and the output squeezed in any pieces, or each in
-- one call.
pub xofa_pieces :
    (st : Xof) (xs : List (List ℕ)) (ns : List ℕ)
    → IsAbsorbing st
    → squeeze_pieces squeeze_a (absorb_pieces 4 st xs) ns
      ≡ (squeeze_a (absorb 4 st (flatten xs)) (total ns)).out
xofa_pieces = any_pieces squeeze_a squeeze_a_count squeeze_a_nothing squeeze_a-append 4

-- ===== src/Core/Permutation/Rounds/Laws.antt =====
-- The permutation of the code runs the published rounds: between rounds `x2` is inverted.
use mathlib.Core.Path.{subst}
use ascon_suite_tcc.Base.{
  ℕ, zero, suc, ◌+◌, ◌-◌, ◌<◌, ◌≤◌, ◌≡◌, refl, sym, ap, ◌∙◌, arith, bit_xor, bit_and, [], ◌∷◌,
  get_or,
}
use ascon_suite_tcc.Base.Bits.Laws.{xor-lt, and-lt}
use ascon_suite_tcc.Core.Word.{not64}
use ascon_suite_tcc.Core.Word.Bits.{IsWord, not-IsWord}
use ascon_suite_tcc.Core.Word.Linear.{diffuse-IsWord}
use ascon_suite_tcc.Core.Word.Symbolic.{var, sum, turn, complement, eval, norm, plus}
use ascon_suite_tcc.Core.Word.Symbolic.Sound.{decide_words, values, values-IsWord}
use ascon_suite_tcc.Core.Permutation.{
  Words, round_constant, substitute, diffuse_word, diffuse, rounds, permute_words,
}
use ascon_suite_tcc.Core.Permutation.Rounds.{
  AreWords, constants, published_round, published_rounds, sbox_layer, linear_layer,
}
use ascon_suite_tcc.Core.Permutation.Rounds.Layers.{linear_layer_lem, table_layer_lem}

-- the words that the loop keeps: `x2` is inverted
abbrev inverted : Words → Words
inverted w = record w { x2 = not64 w.x2 }

not_not : (x : ℕ) → IsWord x → not64 (not64 x) ≡ x
unfolding not64
not_not x h = omega arith

xor_of_nots : (x y : ℕ) → IsWord x → IsWord y → bit_xor (not64 x) (not64 y) ≡ bit_xor x y
unfolding eval norm plus
xor_of_nots x y h k =
    decide_words (values (x ∷ y ∷ [])) (values-IsWord (x ∷ y ∷ []) (h, (k, tt)))
      (sum (complement (var 0)) (complement (var 1))) (sum (var 0) (var 1)) refl

diffuse_of_not : (x : ℕ) → IsWord x → diffuse_word (not64 x) 1 6 ≡ not64 (diffuse_word x 1 6)
unfolding eval norm plus diffuse_word
diffuse_of_not x h =
    let c = complement (var 0) in
    decide_words (values (x ∷ [])) (values-IsWord (x ∷ []) (h, tt))
      (sum c (sum (turn c 1) (turn c 6)))
      (complement (sum (var 0) (sum (turn (var 0) 1) (turn (var 0) 6)))) refl

substitute-AreWords : (w : Words) → AreWords w → AreWords (substitute w)
unfolding substitute
substitute-AreWords w h =
    let xor = λ (x y : ℕ) (p : IsWord x) (q : IsWord y). xor-lt 64 x y p q in
    let X0 = bit_xor w.x0 w.x4 in
    let X4 = bit_xor w.x4 w.x3 in
    let X2 = bit_xor w.x2 w.x1 in
    let k0 = xor-lt 64 w.x0 w.x4 h.h0 h.h4 in
    let k4 = xor-lt 64 w.x4 w.x3 h.h4 h.h3 in
    let k2 = xor-lt 64 w.x2 w.x1 h.h2 h.h1 in
    let t0 = and-lt 64 (not64 X0) w.x1 (not-IsWord X0) in
    let t1 = and-lt 64 (not64 w.x1) X2 (not-IsWord w.x1) in
    let t2 = and-lt 64 (not64 X2) w.x3 (not-IsWord X2) in
    let t3 = and-lt 64 (not64 w.x3) X4 (not-IsWord w.x3) in
    let t4 = and-lt 64 (not64 X4) X0 (not-IsWord X4) in
    let y0 = xor-lt 64 X0 (bit_and (not64 w.x1) X2) k0 t1 in
    let y1 = xor-lt 64 w.x1 (bit_and (not64 X2) w.x3) h.h1 t2 in
    let y2 = xor-lt 64 X2 (bit_and (not64 w.x3) X4) k2 t3 in
    let y3 = xor-lt 64 w.x3 (bit_and (not64 X4) X0) h.h3 t4 in
    let y4 = xor-lt 64 X4 (bit_and (not64 X0) w.x1) k4 t0 in
    record {
      h0 = xor-lt 64 _ _ y0 y4;
      h1 = xor-lt 64 _ _ y1 y0;
      h2 = y2;
      h3 = xor-lt 64 _ _ y3 y2;
      h4 = y4;
    }

sbox_layer-AreWords : (w : Words) → AreWords w → AreWords (sbox_layer w)
sbox_layer-AreWords w h =
    let s = substitute-AreWords w h in
    record { h0 = s.h0; h1 = s.h1; h2 = not-IsWord (substitute w).x2; h3 = s.h3; h4 = s.h4 }

diffuse-AreWords : (w : Words) → AreWords w → AreWords (diffuse w)
unfolding diffuse
diffuse-AreWords w h = record {
  h0 = diffuse-IsWord w.x0 19 28 h.h0;
  h1 = diffuse-IsWord w.x1 61 39 h.h1;
  h2 = diffuse-IsWord w.x2 1 6 h.h2;
  h3 = diffuse-IsWord w.x3 10 17 h.h3;
  h4 = diffuse-IsWord w.x4 7 41 h.h4;
}

-- a round by the layers of the code, with its constant in place of the inverted one
abbrev code_round : ℕ → Words → Words
code_round c w = diffuse (sbox_layer (record w { x2 = bit_xor w.x2 c }))

added-AreWords :
    (c : ℕ) (w : Words) → IsWord c → AreWords w → AreWords (record w { x2 = bit_xor w.x2 c })
added-AreWords c w k h = record {
  h0 = h.h0;
  h1 = h.h1;
  h2 = xor-lt 64 w.x2 c h.h2 k;
  h3 = h.h3;
  h4 = h.h4;
}

-- The layers of the code make a published round.
code_round_lem :
    (c : ℕ) (w : Words)
    → IsWord c
    → AreWords w
    → (code_round c w ≡ published_round c w) × AreWords (code_round c w)
code_round_lem c w k h =
    let added = record w { x2 = bit_xor w.x2 c } in
    let ha = added-AreWords c w k h in
    let hs = sbox_layer-AreWords added ha in
    (
      linear_layer_lem (sbox_layer added) hs ∙ ap linear_layer (table_layer_lem added ha hs),
      diffuse-AreWords (sbox_layer added) hs,
    )

-- One round of the loop is such a round, on inverted words.
round_lem :
    (c : ℕ) (w : Words)
    → IsWord c
    → AreWords w
    → diffuse (substitute (record w { x2 = bit_xor (not64 w.x2) (not64 c) }))
      ≡ inverted (code_round c w)
unfolding diffuse
round_lem c w k h =
    let added = record w { x2 = bit_xor w.x2 c } in
    let ha = added-AreWords c w k h in
    let v = substitute added in
    let s = substitute-AreWords added ha in
    let put = λ (x : ℕ). diffuse (substitute (record w { x2 = x })) in
    let once = ap put (xor_of_nots w.x2 c h.h2 k) in
    let twice = diffuse_of_not (not64 v.x2) (not-IsWord v.x2) in
    let back = ap (λ x. diffuse_word x 1 6) (sym (not_not v.x2 s.h2)) ∙ twice in
    once ∙ ap (λ x. record (diffuse v) { x2 = x }) back

constant_lem : (r : ℕ) → r < 12 → round_constant r ≡ not64 (get_or constants r 0)
unfolding round_constant
constant_lem zero h = refl
constant_lem (suc zero) h = refl
constant_lem (suc (suc zero)) h = refl
constant_lem (suc (suc (suc zero))) h = refl
constant_lem (suc (suc (suc (suc zero)))) h = refl
constant_lem (suc (suc (suc (suc (suc zero))))) h = refl
constant_lem (suc (suc (suc (suc (suc (suc zero)))))) h = refl
constant_lem (suc (suc (suc (suc (suc (suc (suc zero))))))) h = refl
constant_lem (suc (suc (suc (suc (suc (suc (suc (suc zero)))))))) h = refl
constant_lem (suc (suc (suc (suc (suc (suc (suc (suc (suc zero))))))))) h = refl
constant_lem (suc (suc (suc (suc (suc (suc (suc (suc (suc (suc zero)))))))))) h = refl
constant_lem (suc (suc (suc (suc (suc (suc (suc (suc (suc (suc (suc zero))))))))))) h = refl
constant_lem (suc (suc (suc (suc (suc (suc (suc (suc (suc (suc (suc (suc r)))))))))))) h =
    absurd (omega arith)

constant-lt : (r : ℕ) → IsWord (get_or constants r 0)
constant-lt zero = omega arith
constant-lt (suc zero) = omega arith
constant-lt (suc (suc zero)) = omega arith
constant-lt (suc (suc (suc zero))) = omega arith
constant-lt (suc (suc (suc (suc zero)))) = omega arith
constant-lt (suc (suc (suc (suc (suc zero))))) = omega arith
constant-lt (suc (suc (suc (suc (suc (suc zero)))))) = omega arith
constant-lt (suc (suc (suc (suc (suc (suc (suc zero))))))) = omega arith
constant-lt (suc (suc (suc (suc (suc (suc (suc (suc zero)))))))) = omega arith
constant-lt (suc (suc (suc (suc (suc (suc (suc (suc (suc zero))))))))) = omega arith
constant-lt (suc (suc (suc (suc (suc (suc (suc (suc (suc (suc zero)))))))))) = omega arith
constant-lt (suc (suc (suc (suc (suc (suc (suc (suc (suc (suc (suc zero))))))))))) = omega arith
constant-lt (suc (suc (suc (suc (suc (suc (suc (suc (suc (suc (suc (suc r)))))))))))) = omega arith

rounds_lem :
    (left first_round : ℕ) (w : Words)
    → left + first_round ≡ 12
    → AreWords w
    → rounds left first_round (inverted w) ≡ inverted (published_rounds left first_round w)
      × AreWords (published_rounds left first_round w)
unfolding rounds published_rounds
rounds_lem zero first_round w e h = (refl, h)
rounds_lem (suc left) first_round w e h =
    let c = get_or constants first_round 0 in
    let hc = constant-lt first_round in
    let table = constant_lem first_round (omega arith) in
    let next = published_round c w in
    let run = code_round_lem c w hc h in
    let rest = rounds_lem left (first_round + 1) next (omega arith) (subst AreWords run.0 run.1) in
    let put = λ (x : ℕ). diffuse (substitute (record w { x2 = bit_xor (not64 w.x2) x })) in
    (
      ap (rounds left (first_round + 1)) (ap put table ∙ (round_lem c w hc h ∙ ap inverted run.0))
          ∙ rest.0,
      rest.1,
    )

-- For five 64-bit words and a first round of at most twelve, the permutation of the code gives what the
-- published rounds give: from the first round to the twelfth, each adds its constant of the table to
-- `x2`, replaces each of the 64 columns by the entry of the S-box table at it, and adds to each bit of
-- a word the two bits at the published distances of that word, round the word. The five words are
-- 64-bit words again.
pub permute_words-published_rounds :
    (w : Words) (first_round : ℕ)
    → AreWords w
    → first_round ≤ 12
    → (permute_words w first_round ≡ published_rounds (12 - first_round) first_round w)
      × AreWords (permute_words w first_round)
unfolding permute_words
permute_words-published_rounds w first_round h l =
    let run = rounds_lem (12 - first_round) first_round w (omega arith) h in
    let done = published_rounds (12 - first_round) first_round w in
    let same = ap inverted run.0 ∙ ap (λ x. record done { x2 = x }) (not_not done.x2 run.1.h2) in
    (same, ap_AreWords same run.1)
  where
    ap_AreWords : {v u : Words} → v ≡ u → AreWords u → AreWords v
    ap_AreWords e h = rw e h

-- ===== src/Aead/Ofb/Laws.antt =====
-- Encrypting twice gives the input back, and the state does not depend on it.
use ascon_suite_tcc.Base.{
  ℕ, zero, suc, ◌<◌, ◌≤◌, ◌≡◌, refl, arith, List, [], ◌∷◌, ◌++◌, ltb, leb, true, false, leb→le,
  Bool-cases, inl, inr, length, length-append, length-take, length-drop, take, drop,
  take-append-drop,
}
use native.Mathlib.Nat.{le_refl}
use ascon_suite_tcc.Base.Bytes.{IsBytes, take-IsBytes, drop-IsBytes, append-IsBytes}
use ascon_suite_tcc.Base.Slices.{take_prefix, drop_here}
use ascon_suite_tcc.Core.Permutation.{permute}
use ascon_suite_tcc.Core.Snp.{State}
use ascon_suite_tcc.Core.Snp.Bounds.{IsState, permute-IsState}
use ascon_suite_tcc.Aead.Ofb.{ofb, ofb_blocks, ofb_rest}

module _ (rate first_round : ℕ) (crypt : State → List ℕ → List ℕ)
    (length-crypt : (s : State) (m : List ℕ) → length m ≤ rate → length (crypt s m) ≡ length m)
    (crypt_inverse : (s : State) (m : List ℕ) → length m ≤ rate → crypt s (crypt s m) ≡ m)
    (crypt-IsBytes : (s : State) (m : List ℕ) → IsState s → IsBytes m → IsBytes (crypt s m))
    (rate_pos : 0 < rate) where
  length-ofb_rest :
      (s : State) (m : List ℕ)
      → length m ≤ rate
      → length (ofb_rest rate first_round crypt s m).out ≡ length m
  unfolding ofb_rest
  length-ofb_rest s m h = ground (arith, length-crypt (permute s first_round) m h)

  rest_inverse :
      (s : State) (m : List ℕ)
      → length m ≤ rate
      → let e = ofb_rest rate first_round crypt s m in
        ofb_rest rate first_round crypt s e.out ≡ record { state = e.state; out = m }
  unfolding ofb_rest
  rest_inverse s [] h = refl
  rest_inverse s (x ∷ m) h =
      let s' = permute s first_round in
      let some : ltb 0 (length (crypt s' (x ∷ m))) ≡ true =
        ground (arith, length-crypt s' (x ∷ m) h) in
      let some' : ltb 0 (length (x ∷ m)) ≡ true = ground arith in
      rw (some', some, crypt_inverse s' (x ∷ m) h)

  rest-IsBytes :
      (s : State) (m : List ℕ) → IsBytes m → IsBytes (ofb_rest rate first_round crypt s m).out
  unfolding ofb_rest
  rest-IsBytes s m h = elim (Bool-cases (ltb 0 (length m))) [
    | inl some ↦ rw some (crypt-IsBytes (permute s first_round) m (permute-IsState s first_round) h)
    | inr none ↦ rw none tt
  ]

  first_block : (m : List ℕ) → rate ≤ length m → length (take rate m) ≡ rate
  first_block m h = omega (arith, length-take rate m)

  length-ofb_blocks :
      (fuel : ℕ) (s : State) (m : List ℕ)
      → length m ≤ fuel
      → length (ofb_blocks rate first_round crypt fuel s m).out ≡ length m
  unfolding ofb_blocks
  length-ofb_blocks zero s m h = length-ofb_rest s m (omega arith)
  length-ofb_blocks (suc fuel) s m h = elim (Bool-cases (leb rate (length m))) [
    | inl full ↦ rw full (
        let s' = permute s first_round in
        let long = leb→le rate (length m) full in
        let now = length-crypt s' (take rate m) (omega (arith, first_block m long)) in
        let rest =
          length-ofb_blocks fuel s' (drop rate m)
            (omega (arith, length-drop rate m, rate_pos, long)) in
        omega (
          arith,
          length-append (crypt s' (take rate m))
              (ofb_blocks rate first_round crypt fuel s' (drop rate m)).out,
          now,
          rest,
          first_block m long,
          length-drop rate m,
        ))
    | inr few ↦ rw few (length-ofb_rest s m (ground arith))
  ]

  blocks-IsBytes :
      (fuel : ℕ) (s : State) (m : List ℕ)
      → IsBytes m
      → IsBytes (ofb_blocks rate first_round crypt fuel s m).out
  unfolding ofb_blocks
  blocks-IsBytes zero s m h = rest-IsBytes s m h
  blocks-IsBytes (suc fuel) s m h = elim (Bool-cases (leb rate (length m))) [
    | inl full ↦ rw full (
        let s' = permute s first_round in
        append-IsBytes (crypt s' (take rate m)) _
          (crypt-IsBytes s' (take rate m) (permute-IsState s first_round) (take-IsBytes rate m h))
          (blocks-IsBytes fuel s' (drop rate m) (drop-IsBytes rate m h)))
    | inr few ↦ rw few (rest-IsBytes s m h)
  ]

  -- One block of the second pass, when the first pass has made the blocks `now` and `rest`.
  again_block :
      (fuel : ℕ) (s : State) (now rest : List ℕ)
      → length now ≡ rate
      → let more = ofb_blocks rate first_round crypt fuel (permute s first_round) rest in
        ofb_blocks rate first_round crypt (suc fuel) s (now ++ rest)
        ≡ record { state = more.state; out = crypt (permute s first_round) now ++ more.out }
  again_block fuel s now rest h =
      let long : leb rate (length (now ++ rest)) ≡ true = ground (arith, length-append now rest) in
      let at_now : take rate (now ++ rest) ≡ now = rw (← h) (take_prefix now rest) in
      let at_rest : drop rate (now ++ rest) ≡ rest = rw (← h) (drop_here now rest) in
      unfold ofb_blocks in rw (long, at_now, at_rest)

  blocks_few :
      (fuel : ℕ) (s : State) (m : List ℕ)
      → leb rate (length m) ≡ false
      → ofb_blocks rate first_round crypt (suc fuel) s m ≡ ofb_rest rate first_round crypt s m
  unfolding ofb_blocks
  blocks_few fuel s m few = rw few

  blocks_full :
      (fuel : ℕ) (s : State) (m : List ℕ)
      → leb rate (length m) ≡ true
      → let more = ofb_blocks rate first_round crypt fuel (permute s first_round) (drop rate m) in
        ofb_blocks rate first_round crypt (suc fuel) s m ≡ record {
          state = more.state;
          out = crypt (permute s first_round) (take rate m) ++ more.out;
        }
  unfolding ofb_blocks
  blocks_full fuel s m full = rw full

  -- A second pass over the output of the first gives the input back, and the same state.
  pub blocks_inverse :
      (fuel : ℕ) (s : State) (m : List ℕ)
      → length m ≤ fuel
      → let e = ofb_blocks rate first_round crypt fuel s m in
        ofb_blocks rate first_round crypt fuel s e.out ≡ record { state = e.state; out = m }
  blocks_inverse zero s m h = unfold ofb_blocks in rest_inverse s m (omega arith)
  blocks_inverse (suc fuel) s m h = elim (Bool-cases (leb rate (length m))) [
    | inl full ↦
        let s' = permute s first_round in
        let long = leb→le rate (length m) full in
        let now = take rate m in
        let size = first_block m long in
        let coded : length (crypt s' now) ≡ rate =
          omega (arith, size, length-crypt s' now (omega (arith, size))) in
        let ih =
          blocks_inverse fuel s' (drop rate m)
            (omega (arith, length-drop rate m, rate_pos, long)) in
        rw (
          blocks_full fuel s m full,
          again_block fuel s (crypt s' now)
              (ofb_blocks rate first_round crypt fuel s' (drop rate m)).out coded,
          ih,
          crypt_inverse s' now (omega (arith, size)),
          take-append-drop rate m,
        )
    | inr few ↦
        let short : length m < rate = ground arith in
        let out = (ofb_rest rate first_round crypt s m).out in
        let few' : leb rate (length out) ≡ false =
          ground (arith, length-ofb_rest s m (omega (arith, short))) in
        rw (blocks_few fuel s m few, blocks_few fuel s out few')
          (rest_inverse s m (omega (arith, short)))
  ]

  pub length-ofb : (s : State) (m : List ℕ) → length (ofb rate first_round crypt s m).out ≡ length m
  unfolding ofb
  length-ofb s m = length-ofb_blocks (length m) s m (le_refl _)

  pub ofb-IsBytes :
      (s : State) (m : List ℕ) → IsBytes m → IsBytes (ofb rate first_round crypt s m).out
  unfolding ofb
  ofb-IsBytes s m h = blocks-IsBytes (length m) s m h

  pub ofb_inverse :
      (s : State) (m : List ℕ)
      → let e = ofb rate first_round crypt s m in
        ofb rate first_round crypt s e.out ≡ record { state = e.state; out = m }
  unfolding ofb
  ofb_inverse s m =
      rw (length-ofb_blocks (length m) s m (le_refl _)) (blocks_inverse (length m) s m (le_refl _))

rest_state :
    (rate first_round : ℕ) (crypt : State → List ℕ → List ℕ) (s : State) (m : List ℕ)
    → length s ≡ 40
    → length (ofb_rest rate first_round crypt s m).state ≡ 40
unfolding ofb_rest
rest_state rate first_round crypt s m h = elim (Bool-cases (ltb 0 (length m))) [
  | inl some ↦ rw some ((permute-IsState s first_round).forty)
  | inr none ↦ rw none h
]

blocks_state :
    (rate first_round : ℕ) (crypt : State → List ℕ → List ℕ) (fuel : ℕ) (s : State) (m : List ℕ)
    → length s ≡ 40
    → length (ofb_blocks rate first_round crypt fuel s m).state ≡ 40
unfolding ofb_blocks
blocks_state rate first_round crypt zero s m h = rest_state rate first_round crypt s m h
blocks_state rate first_round crypt (suc fuel) s m h = elim (Bool-cases (leb rate (length m))) [
  | inl full ↦ rw full (
      blocks_state rate first_round crypt fuel (permute s first_round) (drop rate m)
        (permute-IsState s first_round).forty)
  | inr few ↦ rw few (rest_state rate first_round crypt s m h)
]

-- The state keeps its size.
pub length-ofb_state :
    (rate first_round : ℕ) (crypt : State → List ℕ → List ℕ) (s : State) (m : List ℕ)
    → length s ≡ 40
    → length (ofb rate first_round crypt s m).state ≡ 40
unfolding ofb
length-ofb_state rate first_round crypt s m h = blocks_state rate first_round crypt (length m) s m h

-- ===== src/Hash/Xof/Emit/RefineA.antt =====
-- Squeezing in `ascon_xofa_squeeze` is the byte-wise specification.
use ascon_suite_tcc.Base.{
  ℕ, zero, suc, ◌+◌, ◌-◌, ◌<◌, ◌≤◌, ◌≡◌, refl, sym, ap, ◌∙◌, if◌then◌else◌, ltb, leb, leb→le,
  lt→ltb, ◌==◌, ==_iff, Bool-cases, inl, inr, List, ◌++◌, append_assoc, append-nil, arith,
}
use native.Mathlib.Nat.{le_refl}
use ascon_suite_tcc.Core.Permutation.{permute}
use ascon_suite_tcc.Core.Snp.{State}
use ascon_suite_tcc.Core.Snp
use ascon_suite_tcc.Hash.Xof.{
  Xof, squeeze_blocks_a, squeeze_aligned_a, squeeze_left_over_a, squeeze_a,
}
use ascon_suite_tcc.Hash.Xof.Emit.Refine.{squeezed}
use ascon_suite_tcc.Hash.Xof.Emit.{Emitted, turn_xofa, emit, resume, emit-append}

inside_lem :
    (s : State) (p n : ℕ)
    → p + n < 8
    → emit turn_xofa s p n ≡ record { state = s; out = Snp.squeeze s p n; posn = p + n }
unfolding emit Snp.squeeze
inside_lem s p zero k = ground arith
inside_lem s p (suc n) k = ground (arith, inside_lem s (p + 1) n)

fill_lem :
    (s : State) (p n : ℕ)
    → p + suc n ≡ 8
    → emit turn_xofa s p (suc n)
      ≡ record { state = permute s 4; out = Snp.squeeze s p (suc n); posn = 0 }
unfolding emit Snp.squeeze
fill_lem s p zero k = ground arith
fill_lem s p (suc n) k = ground (arith, fill_lem s (p + 1) n)

-- the rest of the block, and what comes behind it
more_lem :
    (s : State) (p t m : ℕ)
    → p < 8
    → p + t ≡ 8
    → emit turn_xofa s p (t + m) ≡ resume turn_xofa (permute s 4) (Snp.squeeze s p t) 0 m
more_lem s p zero m k e = absurd (omega arith)
more_lem s p (suc t) m k e =
    emit-append turn_xofa s p (suc t) m (suc t + m) refl ∙ rw (fill_lem s p t e)

blocks_a_lem :
    (fuel : ℕ) (s : State) (outlen : ℕ)
    → outlen ≤ fuel
    → let b = squeeze_blocks_a fuel s outlen in
      (b.left < 8) × (emit turn_xofa s 0 outlen ≡ resume turn_xofa b.state b.out 0 b.left)
unfolding squeeze_blocks_a
blocks_a_lem zero s outlen h = (omega arith, refl)
blocks_a_lem (suc fuel) s outlen h = elim (Bool-cases (leb 8 outlen)) [
  | inl full ↦ rw full (
      step (leb→le 8 outlen full)
        (blocks_a_lem fuel (permute s 4) (outlen - 8) (omega (arith, leb→le 8 outlen full))))
  | inr short ↦ rw short (ground arith, refl)
]
  where
    step :
        8 ≤ outlen
        → (let b = squeeze_blocks_a fuel (permute s 4) (outlen - 8) in
            (b.left < 8)
            × (emit turn_xofa (permute s 4) 0 (outlen - 8)
                ≡ resume turn_xofa b.state b.out 0 b.left))
        → let b = squeeze_blocks_a fuel (permute s 4) (outlen - 8) in
          (b.left < 8)
          × (emit turn_xofa s 0 outlen
              ≡ resume turn_xofa b.state (Snp.squeeze s 0 8 ++ b.out) 0 b.left)
    step long ih =
        let split : outlen ≡ 8 + (outlen - 8) = omega arith in
        (
          ih.0,
          ap (emit turn_xofa s 0) split
              ∙ (more_lem s 0 8 (outlen - 8) (omega arith) refl ∙ rw (ih.1, append_assoc)),
        )

first_lem :
    (s : State) (n : ℕ)
    → n < 8
    → emit turn_xofa s 0 n ≡ record { state = s; out = Snp.squeeze s 0 n; posn = n }
first_lem s n h = ground (arith, inside_lem s 0 n)

last_a :
    (st : Xof) (s : State) (out : List ℕ) (n : ℕ)
    → n < 8
    → (if ltb 0 n
        then squeezed st (record { state = s; out = out ++ Snp.squeeze s 0 n; posn = n })
        else squeezed st (record { state = s; out = out; posn = 0 }))
      ≡ squeezed st (resume turn_xofa s out 0 n)
last_a st s out zero h = unfold emit in rw (append-nil out)
last_a st s out (suc n) h = rw (lt→ltb 0 (suc n) (omega arith)) (
    ap
      (λ (r : Emitted). squeezed st (record { state = r.state; out = out ++ r.out; posn = r.posn }))
      (sym (first_lem s (suc n) h)))

aligned_a_lem :
    (st : Xof) (outlen : ℕ)
    → squeeze_aligned_a (record st { count = 0 }) outlen
      ≡ squeezed st (emit turn_xofa st.state 0 outlen)
unfolding squeeze_aligned_a
aligned_a_lem st outlen =
    let b = squeeze_blocks_a outlen st.state outlen in
    let done = blocks_a_lem outlen st.state outlen (le_refl _) in
    last_a st b.state b.out b.left done.0 ∙ ap (squeezed st) (sym done.1)

left_over_a_lem :
    (st : Xof) (outlen : ℕ)
    → st.count < 8
    → squeeze_left_over_a st outlen ≡ squeezed st (emit turn_xofa st.state st.count outlen)
unfolding squeeze_left_over_a
left_over_a_lem st outlen h = elim (Bool-cases (st.count == 0)) [
  | inl start ↦ rw start (
      let e = (==_iff st.count 0).0 start in
      ap (λ c. squeeze_aligned_a (record st { count = c }) outlen) e
      ∙ (aligned_a_lem st outlen
          ∙ sym (ap (λ c. squeezed st (emit turn_xofa st.state c outlen)) e)))
  | inr inside ↦ rw inside (elim (Bool-cases (ltb outlen (8 - st.count))) [
    | inl short ↦ rw short (ground (arith, inside_lem st.state st.count outlen))
    | inr long ↦ rw long (
        let t = 8 - st.count in
        let far : t ≤ outlen = ground arith in
        let split : outlen ≡ t + (outlen - t) = omega arith in
        rw (aligned_a_lem (record st { state = permute st.state 4 }) (outlen - t)) (
          ap (squeezed st) (
            sym (
              ap (emit turn_xofa st.state st.count) split
              ∙ more_lem st.state st.count t (outlen - t) h (omega arith)))))
  ])
]

-- The phase in which a squeeze finds the state: an absorb is closed by the padding.
abbrev pub squeezing_a : Xof → Xof
squeezing_a st =
    if st.mode == 0
    then record { state = permute (Snp.pad st.state st.count) 0; count = 0; mode = 1 }
    else st

-- For a position inside the block, XOFA squeezes the state and the output of the byte-wise
-- specification, which permutes with eight rounds behind the last byte of each block; a state
-- that was absorbing is padded and permuted first.
pub squeeze_a-eq-emit :
    (st : Xof) (outlen : ℕ)
    → st.count < 8
    → let st' = squeezing_a st in
      squeeze_a st outlen ≡ squeezed st' (emit turn_xofa st'.state st'.count outlen)
unfolding squeeze_a
squeeze_a-eq-emit st outlen h = elim (Bool-cases (st.mode == 0)) [
  | inl phase ↦ rw phase (left_over_a_lem _ outlen (omega arith))
  | inr phase ↦ rw phase (left_over_a_lem st outlen h)
]

-- ===== src/Hash/Xof/Emit/Refine.antt =====
-- Squeezing in the C functions is the byte-wise specification.
use ascon_suite_tcc.Base.{
  ℕ, zero, suc, ◌+◌, ◌-◌, ◌<◌, ◌≤◌, ◌≡◌, refl, sym, ap, ◌∙◌, if◌then◌else◌, ltb, leb, leb→le,
  lt→ltb, ◌==◌, ==_iff, Bool-cases, inl, inr, List, ◌++◌, append_assoc, append-nil, arith,
}
use native.Mathlib.Nat.{le_refl}
use ascon_suite_tcc.Core.Permutation.{permute}
use ascon_suite_tcc.Core.Snp.{State}
use ascon_suite_tcc.Core.Snp
use ascon_suite_tcc.Hash.Xof.{
  Xof, Squeezed, squeeze_blocks, squeeze_aligned, squeeze_left_over, squeeze,
}
use ascon_suite_tcc.Hash.Xof.Emit.{Emitted, turn_xof, emit, resume, emit-append}

-- XOF behind the first byte of a block
rest_inside :
    (s : State) (p n : ℕ)
    → 0 < p
    → p + n < 8
    → emit turn_xof s p n ≡ record { state = s; out = Snp.squeeze s p n; posn = p + n }
unfolding emit Snp.squeeze
rest_inside s p zero h k = ground arith
rest_inside s p (suc n) h k = ground (arith, rest_inside s (p + 1) n)

rest_fill :
    (s : State) (p n : ℕ)
    → 0 < p
    → p + suc n ≡ 8
    → emit turn_xof s p (suc n) ≡ record { state = s; out = Snp.squeeze s p (suc n); posn = 0 }
unfolding emit Snp.squeeze
rest_fill s p zero h k = ground arith
rest_fill s p (suc n) h k = ground (arith, rest_fill s (p + 1) n)

-- the rest of the block, and what comes behind it
rest_more :
    (s : State) (p t m : ℕ)
    → 0 < p
    → p < 8
    → p + t ≡ 8
    → emit turn_xof s p (t + m) ≡ resume turn_xof s (Snp.squeeze s p t) 0 m
rest_more s p zero m h k e = absurd (omega arith)
rest_more s p (suc t) m h k e =
    emit-append turn_xof s p (suc t) m (suc t + m) refl ∙ rw (rest_fill s p t h e)

-- XOF from the start of a block
first_inside :
    (s : State) (n : ℕ)
    → suc n < 8
    → let s' = permute s 0 in
      emit turn_xof s 0 (suc n)
      ≡ record { state = s'; out = Snp.squeeze s' 0 (suc n); posn = suc n }
unfolding emit Snp.squeeze
first_inside s n h = ground (arith, rest_inside (permute s 0) 1 n)

first_block :
    (s : State)
    → let s' = permute s 0 in
      emit turn_xof s 0 8 ≡ record { state = s'; out = Snp.squeeze s' 0 8; posn = 0 }
unfolding emit Snp.squeeze
first_block s = refl

blocks_lem :
    (fuel : ℕ) (s : State) (outlen : ℕ)
    → outlen ≤ fuel
    → let b = squeeze_blocks 8 fuel s outlen in
      (b.left < 8) × (emit turn_xof s 0 outlen ≡ resume turn_xof b.state b.out 0 b.left)
unfolding squeeze_blocks
blocks_lem zero s outlen h = (omega arith, refl)
blocks_lem (suc fuel) s outlen h = elim (Bool-cases (leb 8 outlen)) [
  | inl full ↦ rw full (
      step (leb→le 8 outlen full)
        (blocks_lem fuel (permute s 0) (outlen - 8) (omega (arith, leb→le 8 outlen full))))
  | inr short ↦ rw short (ground arith, refl)
]
  where
    step :
        8 ≤ outlen
        → (let b = squeeze_blocks 8 fuel (permute s 0) (outlen - 8) in
            (b.left < 8)
            × (emit turn_xof (permute s 0) 0 (outlen - 8) ≡ resume turn_xof b.state b.out 0 b.left))
        → let b = squeeze_blocks 8 fuel (permute s 0) (outlen - 8) in
          (b.left < 8)
          × (emit turn_xof s 0 outlen
              ≡ resume turn_xof b.state (Snp.squeeze (permute s 0) 0 8 ++ b.out) 0 b.left)
    step long ih = (
      ih.0,
      emit-append turn_xof s 0 8 (outlen - 8) outlen (omega arith)
          ∙ rw (first_block s, ih.1, append_assoc),
    )

-- The state of the hash that a run of the specification leaves, with its output.
abbrev pub squeezed : Xof → Emitted → Squeezed
squeezed st r = record { xof = record st { state = r.state; count = r.posn }; out = r.out }

last_piece :
    (st : Xof) (s : State) (out : List ℕ) (n : ℕ)
    → n < 8
    → (let s' = permute s 0 in
        if ltb 0 n
        then squeezed st (record { state = s'; out = out ++ Snp.squeeze s' 0 n; posn = n })
        else squeezed st (record { state = s; out = out; posn = 0 }))
      ≡ squeezed st (resume turn_xof s out 0 n)
unfolding emit
last_piece st s out zero h = rw (append-nil out)
last_piece st s out (suc n) h = rw (lt→ltb 0 (suc n) (omega arith)) (
    ap
      (λ (r : Emitted). squeezed st (record { state = r.state; out = out ++ r.out; posn = r.posn }))
      (sym (first_inside s n h)))

aligned_lem :
    (st : Xof) (outlen : ℕ)
    → squeeze_aligned 8 (record st { count = 0 }) outlen
      ≡ squeezed st (emit turn_xof st.state 0 outlen)
unfolding squeeze_aligned
aligned_lem st outlen =
    let b = squeeze_blocks 8 outlen st.state outlen in
    let done = blocks_lem outlen st.state outlen (le_refl _) in
    last_piece st b.state b.out b.left done.0 ∙ ap (squeezed st) (sym done.1)

left_over_lem :
    (st : Xof) (outlen : ℕ)
    → st.count < 8
    → squeeze_left_over 8 st outlen ≡ squeezed st (emit turn_xof st.state st.count outlen)
unfolding squeeze_left_over
left_over_lem st outlen h = elim (Bool-cases (st.count == 0)) [
  | inl start ↦ rw start (
      let e = (==_iff st.count 0).0 start in
      ap (λ c. squeeze_aligned 8 (record st { count = c }) outlen) e
      ∙ (aligned_lem st outlen ∙ sym (ap (λ c. squeezed st (emit turn_xof st.state c outlen)) e)))
  | inr inside ↦ rw inside (elim (Bool-cases (ltb outlen (8 - st.count))) [
    | inl short ↦ rw short (ground (arith, rest_inside st.state st.count outlen))
    | inr long ↦ rw long (
        let t = 8 - st.count in
        let far : t ≤ outlen = ground arith in
        let moved : 0 < st.count = ground arith in
        let split : outlen ≡ t + (outlen - t) = omega arith in
        rw (aligned_lem st (outlen - t)) (
          ap (squeezed st) (
            sym (
              ap (emit turn_xof st.state st.count) split
              ∙ rest_more st.state st.count t (outlen - t) moved h (omega arith)))))
  ])
]

-- The phase in which a squeeze finds the state: an absorb is closed by the padding.
abbrev pub squeezing : Xof → Xof
squeezing st =
    if st.mode == 0 then record { state = Snp.pad st.state st.count; count = 0; mode = 1 } else st

-- For a position inside the block, XOF squeezes the state and the output of the byte-wise
-- specification, which permutes before the first byte of each block; a state that was
-- absorbing is padded first.
pub squeeze-eq-emit :
    (st : Xof) (outlen : ℕ)
    → st.count < 8
    → let st' = squeezing st in
      squeeze st outlen ≡ squeezed st' (emit turn_xof st'.state st'.count outlen)
unfolding squeeze
squeeze-eq-emit st outlen h = elim (Bool-cases (st.mode == 0)) [
  | inl phase ↦ rw phase (left_over_lem _ outlen (omega arith))
  | inr phase ↦ rw phase (left_over_lem st outlen h)
]

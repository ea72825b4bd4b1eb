-- ===== src/Hash/Xof/Emit/Append.antt =====
-- Squeezing in two calls is squeezing in one.
use ascon_suite_tcc.Base.{
  ap, length, ℕ, zero, suc, ◌+◌, ◌<◌, ◌≡◌, refl, false, ◌==◌, [], ◌++◌, arith,
}
use ascon_suite_tcc.Core.Snp.{State}
use ascon_suite_tcc.Hash.Xof.{Xof, Squeezed, squeeze, squeeze_a}
use ascon_suite_tcc.Hash.Xof.Emit.{Turn, turn_xof, turn_xofa, emit, emit-append}
use ascon_suite_tcc.Hash.Xof.Emit.Refine.{squeezed, squeezing, squeeze-eq-emit}
use ascon_suite_tcc.Hash.Xof.Emit.RefineA.{squeezing_a, squeeze_a-eq-emit}

-- A flavour whose cursor stays inside the block.
emit_posn :
    (turn : Turn)
    → ((s : State) (p : ℕ) → p < 8 → (turn.after s p).posn < 8)
    → (s : State) (p n : ℕ) → p < 8
    → (emit turn s p n).posn < 8
unfolding emit
emit_posn turn inside s p zero h = h
emit_posn turn inside s p (suc n) h =
    let s' = turn.before s p in emit_posn turn inside _ _ n (inside s' p h)

length-emit : (turn : Turn) (s : State) (p n : ℕ) → length (emit turn s p n).out ≡ n
unfolding emit
length-emit turn s p zero = refl
length-emit turn s p (suc n) = ap suc (length-emit turn _ _ n)

-- Two calls, each of which is the specification behind a change of phase.
module _ (turn : Turn) (inside : (s : State) (p : ℕ) → p < 8 → (turn.after s p).posn < 8)
    (phase : Xof → Xof) (phase_count : (st : Xof) → st.count < 8 → (phase st).count < 8)
    (phase_done : (st : Xof) (s : State) (p : ℕ)
      → phase (record (phase st) { state = s; count = p })
        ≡ record (phase st) { state = s; count = p })
    (call : Xof → ℕ → Squeezed)
    (call_lem : (st : Xof) (n : ℕ)
      → st.count < 8
      → call st n ≡ squeezed (phase st) (emit turn (phase st).state (phase st).count n)) where
  call-append :
      (st : Xof) (a b : ℕ)
      → st.count < 8
      → let first = call st a in
        let second = call first.xof b in
        call st (a + b) ≡ record { xof = second.xof; out = first.out ++ second.out }
  call-append st a b h =
      let st' = phase st in
      let r = emit turn st'.state st'.count a in
      let mid : Xof = record st' { state = r.state; count = r.posn } in
      let e2 = call_lem mid b (emit_posn turn inside st'.state st'.count a (phase_count st h)) in
      rw (
        call_lem st a h,
        e2,
        phase_done st r.state r.posn,
        call_lem st (a + b) h,
        emit-append turn st'.state st'.count a b (a + b) refl,
      )

  call_count : (st : Xof) (n : ℕ) → st.count < 8 → (call st n).xof.count < 8
  call_count st n h =
      let st' = phase st in
      rw (call_lem st n h) (emit_posn turn inside st'.state st'.count n (phase_count st h))

  call_nothing : (st : Xof) → st.count < 8 → (call st 0).out ≡ []
  unfolding emit
  call_nothing st h = rw (call_lem st 0 h) refl

  length-call : (st : Xof) (n : ℕ) → st.count < 8 → length (call st n).out ≡ n
  length-call st n h =
      let st' = phase st in rw (call_lem st n h) (length-emit turn st'.state st'.count n)

inside_xof : (s : State) (p : ℕ) → p < 8 → (turn_xof.after s p).posn < 8
inside_xof s p h = ground arith

inside_xofa : (s : State) (p : ℕ) → p < 8 → (turn_xofa.after s p).posn < 8
inside_xofa s p h = ground arith

squeezing_mode : (st : Xof) → ((squeezing st).mode == 0) ≡ false
squeezing_mode st = ground arith

squeezing_a_mode : (st : Xof) → ((squeezing_a st).mode == 0) ≡ false
squeezing_a_mode st = ground arith

squeezing_count : (st : Xof) → st.count < 8 → (squeezing st).count < 8
squeezing_count st h = ground arith

squeezing_a_count : (st : Xof) → st.count < 8 → (squeezing_a st).count < 8
squeezing_a_count st h = ground arith

-- For a position inside the block, squeezing `a` bytes and then `b` bytes with XOF leaves the state
-- that squeezing `a + b` bytes leaves, and the two outputs in a row are its output.
pub squeeze-append :
    (st : Xof) (a b : ℕ)
    → st.count < 8
    → let first = squeeze st a in
      let second = squeeze first.xof b in
      squeeze st (a + b) ≡ record { xof = second.xof; out = first.out ++ second.out }
squeeze-append =
    call-append turn_xof inside_xof squeezing squeezing_count
      (λ st s p. rw (squeezing_mode st) refl) squeeze squeeze-eq-emit

-- For a position inside the block, squeezing `a` bytes and then `b` bytes with XOFA leaves the
-- state that squeezing `a + b` bytes leaves, and the two outputs in a row are its output.
pub squeeze_a-append :
    (st : Xof) (a b : ℕ)
    → st.count < 8
    → let first = squeeze_a st a in
      let second = squeeze_a first.xof b in
      squeeze_a st (a + b) ≡ record { xof = second.xof; out = first.out ++ second.out }
squeeze_a-append =
    call-append turn_xofa inside_xofa squeezing_a squeezing_a_count
      (λ st s p. rw (squeezing_a_mode st) refl) squeeze_a squeeze_a-eq-emit

pub squeeze_count : (st : Xof) (n : ℕ) → st.count < 8 → (squeeze st n).xof.count < 8
squeeze_count =
    call_count turn_xof inside_xof squeezing squeezing_count (λ st s p. rw (squeezing_mode st) refl)
      squeeze squeeze-eq-emit

pub squeeze_nothing : (st : Xof) → st.count < 8 → (squeeze st 0).out ≡ []
squeeze_nothing =
    call_nothing turn_xof inside_xof squeezing squeezing_count
      (λ st s p. rw (squeezing_mode st) refl) squeeze squeeze-eq-emit

pub squeeze_a_count : (st : Xof) (n : ℕ) → st.count < 8 → (squeeze_a st n).xof.count < 8
squeeze_a_count =
    call_count turn_xofa inside_xofa squeezing_a squeezing_a_count
      (λ st s p. rw (squeezing_a_mode st) refl) squeeze_a squeeze_a-eq-emit

pub squeeze_a_nothing : (st : Xof) → st.count < 8 → (squeeze_a st 0).out ≡ []
squeeze_a_nothing =
    call_nothing turn_xofa inside_xofa squeezing_a squeezing_a_count
      (λ st s p. rw (squeezing_a_mode st) refl) squeeze_a squeeze_a-eq-emit

pub length-squeeze : (st : Xof) (n : ℕ) → st.count < 8 → length (squeeze st n).out ≡ n
length-squeeze =
    length-call turn_xof inside_xof squeezing squeezing_count
      (λ st s p. rw (squeezing_mode st) refl) squeeze squeeze-eq-emit

pub length-squeeze_a : (st : Xof) (n : ℕ) → st.count < 8 → length (squeeze_a st n).out ≡ n
length-squeeze_a =
    length-call turn_xofa inside_xofa squeezing_a squeezing_a_count
      (λ st s p. rw (squeezing_a_mode st) refl) squeeze_a squeeze_a-eq-emit

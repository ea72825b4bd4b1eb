-- ===== src/Aead/Stream/Refine.antt =====
-- The loops of src/aead/ascon-aead-common.c compute the byte-wise specification.
use ascon_suite_tcc.Base.{
  ℕ, zero, suc, ◌+◌, ◌-◌, ◌≤◌, ◌<◌, ◌≡◌, refl, sym, ◌∙◌, ap, ◌==◌, leb, ltb, if◌then◌else◌, List,
  [], ◌∷◌, ◌++◌, arith, length, take, drop, length-take, length-drop, take-append-drop,
  append_assoc, append-nil, inl, inr, Bool-cases, ==_iff, leb→le,
}
use native.Mathlib.Nat.{le_refl}
use ascon_suite_tcc.Core.Word.{u8}
use ascon_suite_tcc.Core.Permutation.{permute}
use ascon_suite_tcc.Core.Snp.{State, Step, each_byte}
use ascon_suite_tcc.Aead.Common.{Duplexed, Blocks, blocks, whole, duplex}
use ascon_suite_tcc.Aead.Stream.{advance, stream, stream-append}

module _ (rate first_round : ℕ) (byte : State → ℕ → ℕ → State × ℕ) where
  -- Inside a block nothing is permuted.
  pub stream_inside :
      (s : State) (src : List ℕ) (p : ℕ)
      → p + length src < rate
      → let r = each_byte byte s src p in
        stream rate first_round byte s src p
        ≡ record { state = r.state; out = r.out; posn = p + length src }
  unfolding stream each_byte
  stream_inside s [] p h = ground arith
  stream_inside s (b ∷ src) p h = ground (arith, go, stream_inside (byte s p b).0 src (p + 1))
    where
      go :
          advance rate first_round (byte s p b).0 p
          ≡ record { state = (byte s p b).0; posn = p + 1 }
      go = unfold advance in ground arith

  -- Input that fills the block up to its end leaves the permuted state.
  pub stream_fill :
      (s : State) (src : List ℕ) (p : ℕ)
      → 0 < length src
      → p + length src ≡ rate
      → let r = each_byte byte s src p in
        stream rate first_round byte s src p
        ≡ record { state = permute r.state first_round; out = r.out; posn = 0 }
  unfolding stream each_byte
  stream_fill s [] p h e = absurd (omega arith)
  stream_fill s (b ∷ []) p h e = unfold advance in ground arith
  stream_fill s (b ∷ c ∷ src) p h e =
      ground (arith, go, stream_fill (byte s p b).0 (c ∷ src) (p + 1))
    where
      go :
          advance rate first_round (byte s p b).0 p
          ≡ record { state = (byte s p b).0; posn = p + 1 }
      go = unfold advance in ground arith

  -- The stream after a piece of it, with the output of the piece in front.
  abbrev pub resume : State → List ℕ → ℕ → List ℕ → Duplexed
  resume s before p src =
      let r = stream rate first_round byte s src p in
      record { state = r.state; out = before ++ r.out; posn = r.posn }

  resume-append :
      (s : State) (before now : List ℕ) (p : ℕ) (src : List ℕ)
      → (let r = resume s now p src in
          record { state = r.state; out = before ++ r.out; posn = r.posn })
        ≡ resume s (before ++ now) p src
  resume-append s before now p src = rw append_assoc

  -- A first piece of `count` bytes that ends on the end of the block.
  pub stream_block :
      (s : State) (src : List ℕ) (p count : ℕ)
      → p + count ≡ rate
      → 0 < count
      → count ≤ length src
      → let r = each_byte byte s (take count src) p in
        stream rate first_round byte s src p
        ≡ resume (permute r.state first_round) r.out 0 (drop count src)
  stream_block s src p count e pos long =
      ap (λ z. stream rate first_round byte s z p) (sym (take-append-drop count src))
      ∙ (stream-append rate first_round byte s (take count src) (drop count src) p ∙ rw filled)
    where
      filled :
          let r = each_byte byte s (take count src) p in
          stream rate first_round byte s (take count src) p
          ≡ record { state = permute r.state first_round; out = r.out; posn = 0 }
      filled =
          stream_fill s (take count src) p (omega (arith, length-take count src))
            (omega (arith, length-take count src))

  -- With fuel for its input, the loop over full blocks leaves less than a block, and goes on where
  -- the stream does.
  pub blocks_lem :
      (fuel : ℕ) (s : State) (src : List ℕ)
      → 0 < rate
      → length src ≤ fuel
      → let b = blocks rate first_round byte fuel s src in
        (length b.rest < rate)
        × (stream rate first_round byte s src 0 ≡ resume b.state b.out 0 b.rest)
  unfolding blocks
  blocks_lem zero s src pos h = (omega arith, refl)
  blocks_lem (suc fuel) s src pos h = elim (Bool-cases (leb rate (length src))) [
    | inl full ↦ rw full (
        step (leb→le _ _ full) (
          blocks_lem fuel next (drop rate src) pos
            (omega (arith, leb→le _ _ full, length-drop rate src))))
    | inr short ↦ rw short (ground arith, refl)
  ]
    where
      now : Step
      now = each_byte byte s (take rate src) 0

      b : Blocks
      b = blocks rate first_round byte fuel (permute now.state first_round) (drop rate src)

      next : State
      next = permute now.state first_round

      step :
          rate ≤ length src
          → (let b = blocks rate first_round byte fuel next (drop rate src) in
              (length b.rest < rate)
              × (stream rate first_round byte next (drop rate src) 0
                  ≡ resume b.state b.out 0 b.rest))
          → let b = blocks rate first_round byte fuel next (drop rate src) in
            (length b.rest < rate)
            × (stream rate first_round byte s src 0 ≡ resume b.state (now.out ++ b.out) 0 b.rest)
      step long ih = (
        ih.0,
        stream_block s src 0 rate (omega arith) pos long
            ∙ (ap
                  (λ (r : Duplexed). record {
                    state = r.state;
                    out = now.out ++ r.out;
                    posn = r.posn;
                  })
                  ih.1
                ∙ resume-append b.state now.out b.out 0 b.rest),
      )

  -- What `whole` does behind the loop.
  abbrev finish : State → List ℕ → List ℕ → Duplexed
  finish s out rest =
      let last = each_byte byte s rest 0 in
      if ltb 0 (length rest)
      then record { state = last.state; out = out ++ last.out; posn = u8 (length rest) }
      else record { state = s; out = out; posn = u8 (length rest) }

  finish-eq-resume :
      (s : State) (out rest : List ℕ)
      → rate < 256
      → length rest < rate
      → finish s out rest ≡ resume s out 0 rest
  unfolding stream each_byte
  finish-eq-resume s out [] small h = ground (arith, append-nil out)
  finish-eq-resume s out (x ∷ rest) small h = ground (arith, stream_inside s (x ∷ rest) 0)

  -- Full blocks and the partial block on the end are the stream from the start of a block.
  whole-eq-stream :
      (s : State) (src : List ℕ)
      → 0 < rate
      → rate < 256
      → whole rate first_round byte s src ≡ stream rate first_round byte s src 0
  unfolding whole
  whole-eq-stream s src pos small =
      let full = blocks rate first_round byte (length src) s src in
      let done = blocks_lem (length src) s src pos (le_refl _) in
      finish-eq-resume full.state full.out full.rest small done.0 ∙ sym done.1

  -- For a rate from 1 to 255 and a position inside the block, each of the functions
  -- that encrypt and decrypt leaves the state, the output and the position of the byte-wise stream.
  pub duplex-eq-stream :
      (s : State) (src : List ℕ) (partial : ℕ)
      → rate < 256
      → partial < rate
      → duplex rate first_round byte s src partial ≡ stream rate first_round byte s src partial
  unfolding duplex
  duplex-eq-stream s src partial small h = elim (Bool-cases (partial == 0)) [
    | inl start ↦ rw start (ground (arith, (==_iff partial 0).0 start, whole-eq-stream s src))
    | inr inside ↦ rw inside (elim (Bool-cases (ltb (length src) (rate - partial))) [
      | inl short ↦ rw short (ground (arith, stream_inside s src partial))
      | inr long ↦ rw long (
          rw
            (whole-eq-stream
              (permute (each_byte byte s (take (rate - partial) src) partial).state first_round)
              (drop (rate - partial) src) (omega arith) small)
            (sym (
              stream_block s src partial (rate - partial) (omega arith) (omega arith)
                (ground arith))))
    ])
  ]

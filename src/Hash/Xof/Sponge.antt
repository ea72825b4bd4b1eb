-- ===== src/Hash/Xof/Sponge.antt =====
-- Absorbing with any rate is the byte-wise stream of src/aead's loops.
use ascon_suite_tcc.Base.{
  ℕ, ◌-◌, ◌<◌, ◌≡◌, refl, sym, ap, ◌∙◌, if◌then◌else◌, ltb, ◌==◌, ==_iff, Bool-cases, inl, inr,
  List, [], ◌∷◌, ◌++◌, length, take, drop, arith,
}
use native.Mathlib.Nat.{le_refl}
use ascon_suite_tcc.Core.Permutation.{permute}
use ascon_suite_tcc.Core.Snp.{State, encrypt_byte, each_byte}
use ascon_suite_tcc.Core.Snp
use ascon_suite_tcc.Aead.Common.{Duplexed, blocks}
use ascon_suite_tcc.Aead.Stream.{stream, stream-append}
use ascon_suite_tcc.Aead.Stream.Refine.{stream_inside, stream_block, blocks_lem}
use ascon_suite_tcc.Aead.Stream.Bounds.{stream_posn}
use ascon_suite_tcc.Aead.Stream.Absorb.{xor_block-eq-each_byte, absorb_blocks-eq-blocks}
use ascon_suite_tcc.Hash.Xof.{Xof, absorb_aligned, absorb_left_over, sponge_absorb}

-- The phase in which a call of absorb finds the state: a squeeze is left by a permutation.
abbrev pub absorbing : Xof → Xof
absorbing st =
    if st.mode == 0 then st else record { state = permute st.state 0; count = 0; mode = 0 }

module _ (rate block_round : ℕ) (positive : 0 < rate) where
  -- Each byte is added to the state at the position, and a full block is permuted at once.
  abbrev pub absorbed : Xof → List ℕ → Xof
  absorbed st src =
      let r = stream rate block_round encrypt_byte st.state src st.count in
      record st { state = r.state; count = r.posn }

  finish_absorb :
      (st : Xof) (s : State) (rest : List ℕ)
      → length rest < rate
      → (let filled = if ltb 0 (length rest) then Snp.xor_block s rest 0 else s in
          record st { state = filled; count = length rest })
        ≡ absorbed (record st { state = s; count = 0 }) rest
  finish_absorb st s [] h = unfold stream in refl
  finish_absorb st s (x ∷ rest) h = ground (
    arith,
    stream_inside rate block_round encrypt_byte s (x ∷ rest) 0,
    xor_block-eq-each_byte s (x ∷ rest) 0,
  )

  aligned-eq-absorbed :
      (st : Xof) (src : List ℕ)
      → absorb_aligned rate block_round (record st { count = 0 }) src
        ≡ absorbed (record st { count = 0 }) src
  unfolding absorb_aligned
  aligned-eq-absorbed st src =
      let b = blocks rate block_round encrypt_byte (length src) st.state src in
      let done =
        blocks_lem rate block_round encrypt_byte (length src) st.state src (omega arith)
          (le_refl _) in
      rw (absorb_blocks-eq-blocks rate block_round (length src) st.state src) (
        finish_absorb st b.state b.rest done.0
        ∙ sym (ap (λ (r : Duplexed). record st { state = r.state; count = r.posn }) done.1))

  -- Behind the change of phase, absorbing is the byte-wise stream.
  left_over-eq-absorbed :
      (st : Xof) (src : List ℕ)
      → st.count < rate
      → absorb_left_over rate block_round st src ≡ absorbed st src
  unfolding absorb_left_over
  left_over-eq-absorbed st src h = elim (Bool-cases (st.count == 0)) [
    | inl start ↦ rw start (
        let e = (==_iff st.count 0).0 start in
        ap (λ c. absorb_aligned rate block_round (record st { count = c }) src) e
        ∙ (aligned-eq-absorbed st src ∙ sym (ap (λ c. absorbed (record st { count = c }) src) e)))
    | inr inside ↦ rw inside (elim (Bool-cases (ltb (length src) (rate - st.count))) [
      | inl short ↦ rw short (
          ground (
            arith,
            stream_inside rate block_round encrypt_byte st.state src st.count,
            xor_block-eq-each_byte st.state src st.count,
          ))
      | inr long ↦ rw long (
          rw (
            aligned-eq-absorbed
                (record st {
                  state =
                      permute (Snp.xor_block st.state (take (rate - st.count) src) st.count)
                        block_round;
                })
                (drop (rate - st.count) src),
            xor_block-eq-each_byte st.state (take (rate - st.count) src) st.count,
            stream_block rate block_round encrypt_byte st.state src st.count (rate - st.count)
                (omega arith) (omega arith) (ground arith),
          ))
    ])
  ]

  -- The whole call, from either phase.
  pub sponge_absorb-eq-stream :
      (st : Xof) (src : List ℕ)
      → st.count < rate
      → let st' = absorbing st in
        let r = stream rate block_round encrypt_byte st'.state src st'.count in
        sponge_absorb rate block_round st src ≡ record st' { state = r.state; count = r.posn }
  unfolding sponge_absorb
  sponge_absorb-eq-stream st src h = elim (Bool-cases (st.mode == 0)) [
    | inl phase ↦ rw phase (left_over-eq-absorbed st src h)
    | inr phase ↦ rw phase (left_over-eq-absorbed _ src (omega arith))
  ]

  pub absorbing_count : (st : Xof) → st.count < rate → (absorbing st).count < rate
  absorbing_count st h = ground arith

  pub absorbing_mode : (st : Xof) → (absorbing st).mode ≡ 0
  absorbing_mode st = ground arith

  -- Two calls are one.
  pub sponge_absorb-append :
      (st : Xof) (xs ys : List ℕ)
      → st.count < rate
      → sponge_absorb rate block_round (sponge_absorb rate block_round st xs) ys
        ≡ sponge_absorb rate block_round st (xs ++ ys)
  sponge_absorb-append st xs ys h =
      let st' = absorbing st in
      let r = stream rate block_round encrypt_byte st'.state xs st'.count in
      let t : Xof = record st' { state = r.state; count = r.posn } in
      let inside =
        stream_posn rate block_round encrypt_byte st'.state xs st'.count (absorbing_count st h) in
      ap (λ z. sponge_absorb rate block_round z ys) (sponge_absorb-eq-stream st xs h)
      ∙ (sponge_absorb-eq-stream t ys inside
          ∙ (ap (λ (z : Xof). absorbed z ys) (kept t (absorbing_mode st))
              ∙ (again st' ∙ sym (sponge_absorb-eq-stream st (xs ++ ys) h))))
    where
      kept : (t : Xof) → t.mode ≡ 0 → absorbing t ≡ t
      kept t e = rw e

      again : (st : Xof) → absorbed (absorbed st xs) ys ≡ absorbed st (xs ++ ys)
      again st = rw (stream-append rate block_round encrypt_byte st.state xs ys st.count)

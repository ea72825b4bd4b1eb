-- ===== src/Aead/Stream/Absorb.antt =====
-- Absorbing is encrypting with the output dropped.
use ascon_suite_tcc.Base.{
  ◌<◌, arith, true, ltb, ap, ℕ, zero, suc, ◌+◌, ◌≡◌, refl, leb, Bool-cases, inl, inr, List, [], ◌∷◌,
  length, take, drop, set, get_or, bit_xor,
}
use ascon_suite_tcc.Core.Permutation.{permute}
use ascon_suite_tcc.Core.Snp.{State, xor_block, encrypt_byte, each_byte, pad}
use ascon_suite_tcc.Aead.Stream.Refine.{blocks_lem}
use ascon_suite_tcc.Aead.Common.{absorb, whole, absorb_blocks, blocks}
use ascon_suite_tcc.Core.Word.{u8}

pub xor_block-eq-each_byte :
    (s : State) (src : List ℕ) (p : ℕ) → xor_block s src p ≡ (each_byte encrypt_byte s src p).state
unfolding xor_block each_byte encrypt_byte
xor_block-eq-each_byte s [] p = refl
xor_block-eq-each_byte s (b ∷ src) p =
    xor_block-eq-each_byte (set s p (bit_xor (get_or s p 0) b)) src (p + 1)

pub absorb_blocks-eq-blocks :
    (rate first_round fuel : ℕ) (s : State) (src : List ℕ)
    → let b = blocks rate first_round encrypt_byte fuel s src in
      absorb_blocks rate first_round fuel s src
      ≡ record { state = b.state; out = []; rest = b.rest }
unfolding absorb_blocks blocks
absorb_blocks-eq-blocks rate first_round zero s src = refl
absorb_blocks-eq-blocks rate first_round (suc fuel) s src =
    elim (Bool-cases (leb rate (length src))) [
      | inl full ↦
          rw (full, xor_block-eq-each_byte s (take rate src) 0)
            (absorb_blocks-eq-blocks rate first_round fuel
              (permute (each_byte encrypt_byte s (take rate src) 0).state first_round)
              (drop rate src))
      | inr short ↦ rw short
    ]

-- A whole absorption is an encryption, the padding and a permutation.
pub absorb-eq-whole :
    (rate first_round : ℕ) (s : State) (src : List ℕ)
    → 0 < rate
    → rate < 256
    → let p = whole rate first_round encrypt_byte s src in
      absorb rate first_round s src true ≡ permute (pad p.state p.posn) first_round
unfolding absorb whole
absorb-eq-whole rate first_round s src pos small =
    let b = blocks rate first_round encrypt_byte (length src) s src in
    let at : length b.rest ≡ u8 (length b.rest) =
      omega (
        arith,
        (blocks_lem rate first_round encrypt_byte (length src) s src pos (omega arith)).0,
      ) in
    rw (absorb_blocks-eq-blocks rate first_round (length src) s src)
      (elim (Bool-cases (ltb 0 (length b.rest))) [
        | inl more ↦
            rw (more, xor_block-eq-each_byte b.state b.rest 0)
              (ap (λ n. permute (pad (each_byte encrypt_byte b.state b.rest 0).state n) first_round)
                at)
        | inr none_left ↦ rw none_left (ap (λ n. permute (pad b.state n) first_round) at)
      ])

-- ===== src/Hash/Xof/Stream.antt =====
-- Absorbing in XOF and XOFA is the byte-wise stream with a rate of 8.
use ascon_suite_tcc.Base.{ℕ, ◌<◌, ◌≡◌, List, ◌++◌, arith}
use ascon_suite_tcc.Core.Snp.{encrypt_byte}
use ascon_suite_tcc.Aead.Stream.{stream}
use ascon_suite_tcc.Hash.Xof.{Xof, absorb}
use ascon_suite_tcc.Hash.Xof.Sponge.{absorbing, sponge_absorb-eq-stream, sponge_absorb-append}

module _ (block_round : ℕ) where
  -- For a position inside the block, absorbing leaves the state and the position of the byte-
  -- wise stream, which permutes when a block is full; a state that was squeezing is permuted
  -- and starts a block first.
  pub absorb-eq-stream :
      (st : Xof) (src : List ℕ)
      → st.count < 8
      → let st' = absorbing st in
        let r = stream 8 block_round encrypt_byte st'.state src st'.count in
        absorb block_round st src ≡ record st' { state = r.state; count = r.posn }
  unfolding absorb
  absorb-eq-stream st src h = sponge_absorb-eq-stream 8 block_round (omega arith) st src h

  -- For a position inside the block, absorbing two inputs one after the other leaves what absorbing
  -- them in one call leaves, from either phase.
  pub absorb-append :
      (st : Xof) (xs ys : List ℕ)
      → st.count < 8
      → absorb block_round (absorb block_round st xs) ys ≡ absorb block_round st (xs ++ ys)
  unfolding absorb
  absorb-append st xs ys h = sponge_absorb-append 8 block_round (omega arith) st xs ys h

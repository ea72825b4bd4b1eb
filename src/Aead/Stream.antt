-- ===== src/Aead/Stream.antt =====
-- The byte-wise specification of the loops of src/aead/ascon-aead-common.c: each byte is combined
-- with the byte of the state at the current position, and the state is permuted as soon as a block
-- is full. It has no blocks, no fuel and no left-over.
pub mod Refine
pub mod Inverse
pub mod Bounds
pub mod Absorb
use ascon_suite_tcc.Base.{ℕ, ◌+◌, ◌≡◌, refl, ◌==◌, if◌then◌else◌, List, [], ◌∷◌, ◌++◌}
use ascon_suite_tcc.Core.Permutation.{permute}
use ascon_suite_tcc.Core.Snp.{State}
use ascon_suite_tcc.Aead.Common.{Duplexed}

-- A state, and the position in its block.
pub record Cursor : Type 0 where
  pub state : State
  pub posn : ℕ

module _ (rate first_round : ℕ) where
  -- The cursor behind a position: at the end of the block the state is permuted.
  unfoldable pub advance : State → ℕ → Cursor
  advance s p =
      if p + 1 == rate
      then record { state = permute s first_round; posn = 0 }
      else record { state = s; posn = p + 1 }

  module _ (byte : State → ℕ → ℕ → State × ℕ) where
    unfoldable pub stream : State → List ℕ → ℕ → Duplexed
    stream s [] p = record { state = s; out = []; posn = p }
    stream s (b ∷ src) p =
        let now = byte s p b in
        let next = advance now.0 p in
        let rest = stream next.state src next.posn in
        record { state = rest.state; out = now.1 ∷ rest.out; posn = rest.posn }

    -- A stream is processed in pieces as it is in one go.
    pub stream-append :
        (s : State) (xs ys : List ℕ) (p : ℕ)
        → let first = stream s xs p in
          let second = stream first.state ys first.posn in
          stream s (xs ++ ys) p
          ≡ record { state = second.state; out = first.out ++ second.out; posn = second.posn }
    unfolding stream
    stream-append s [] ys p = refl
    stream-append s (x ∷ xs) ys p =
        rw (stream-append (advance (byte s p x).0 p).state xs ys (advance (byte s p x).0 p).posn)

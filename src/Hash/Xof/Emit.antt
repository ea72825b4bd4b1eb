-- ===== src/Hash/Xof/Emit.antt =====
-- The byte-wise specification of squeezing: each byte is read at the position. XOF permutes before
-- the first byte of a block, XOFA behind the last one.
pub mod Refine
pub mod RefineA
pub mod Append
use ascon_suite_tcc.Base.{
  ℕ, zero, suc, ◌+◌, ◌≡◌, refl, ap, arith, ◌==◌, if◌then◌else◌, List, [], ◌∷◌, ◌++◌, get_or,
}
use ascon_suite_tcc.Core.Permutation.{permute}
use ascon_suite_tcc.Core.Snp.{State}
use ascon_suite_tcc.Aead.Stream.{Cursor}

pub record Emitted : Type 0 where
  pub state : State
  pub out : List ℕ
  pub posn : ℕ

-- How a flavour permutes: the state from which the byte is read, and the cursor behind it.
pub record Turn : Type 0 where
  pub before : State → ℕ → State
  pub after : State → ℕ → Cursor

abbrev pub turn_xof : Turn
turn_xof = record {
  before = λ s p. if p == 0 then permute s 0 else s;
  after = λ s p.
      if p + 1 == 8 then record { state = s; posn = 0 } else record { state = s; posn = p + 1 };
}

abbrev pub turn_xofa : Turn
turn_xofa = record {
  before = λ s p. s;
  after = λ s p.
      if p + 1 == 8
      then record { state = permute s 4; posn = 0 }
      else record { state = s; posn = p + 1 };
}

module _ (turn : Turn) where
  unfoldable pub emit : State → ℕ → ℕ → Emitted
  emit s p zero = record { state = s; out = []; posn = p }
  emit s p (suc n) =
      let s' = turn.before s p in
      let next = turn.after s' p in
      let rest = emit next.state next.posn n in
      record { state = rest.state; out = get_or s' p 0 ∷ rest.out; posn = rest.posn }

  -- What comes behind a piece, with its output in front.
  abbrev pub resume : State → List ℕ → ℕ → ℕ → Emitted
  resume s before p n =
      let r = emit s p n in record { state = r.state; out = before ++ r.out; posn = r.posn }

  -- Output is taken in pieces as it is in one go.
  pub emit-append :
      (s : State) (p a b n : ℕ)
      → n ≡ a + b
      → let first = emit s p a in emit s p n ≡ resume first.state first.out first.posn b
  unfolding emit
  emit-append s p zero b n e = let same : n ≡ b = omega arith in ap (λ k. emit s p k) same
  emit-append s p (suc a) b zero e = absurd (omega arith)
  emit-append s p (suc a) b (suc n) e =
      let next = turn.after (turn.before s p) p in
      rw (emit-append next.state next.posn a b n (omega arith))

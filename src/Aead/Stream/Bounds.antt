-- ===== src/Aead/Stream/Bounds.antt =====
-- A stream keeps the shape of the state, and writes bytes.
use ascon_suite_tcc.Base.{arith, ℕ, ◌+◌, ◌<◌, ◌==◌, Bool-cases, inl, inr, List, [], ◌∷◌}
use ascon_suite_tcc.Base.Bytes.{IsBytes}
use ascon_suite_tcc.Core.Snp.{State, encrypt_byte, decrypt_byte}
use ascon_suite_tcc.Core.Snp.Bounds.{
  IsState, permute-IsState, encrypt_byte-IsState, encrypt_byte-lt, decrypt_byte-IsState,
  decrypt_byte-lt,
}
use ascon_suite_tcc.Aead.Stream.{advance, stream}

-- What a step has to do for it.
pub record KeepsBytes (byte : State → ℕ → ℕ → State × ℕ) : Type 0 where
  pub state : (s : State) (p b : ℕ) → IsState s → b < 256 → IsState (byte s p b).0
  pub out : (s : State) (p b : ℕ) → IsState s → b < 256 → (byte s p b).1 < 256

pub encrypt-KeepsBytes : KeepsBytes encrypt_byte
encrypt-KeepsBytes = record { state = encrypt_byte-IsState; out = encrypt_byte-lt }

pub decrypt-KeepsBytes : KeepsBytes decrypt_byte
decrypt-KeepsBytes = record { state = decrypt_byte-IsState; out = decrypt_byte-lt }

module _ (rate first_round : ℕ) (byte : State → ℕ → ℕ → State × ℕ) (keeps : KeepsBytes byte) where
  advance-IsState : (s : State) (p : ℕ) → IsState s → IsState (advance rate first_round s p).state
  unfolding advance
  advance-IsState s p h = elim (Bool-cases (p + 1 == rate)) [
    | inl full ↦ rw full (permute-IsState s first_round)
    | inr room ↦ rw room h
  ]

  pub stream_bounds :
      (s : State) (src : List ℕ) (p : ℕ)
      → IsState s
      → IsBytes src
      → let r = stream rate first_round byte s src p in IsState r.state × IsBytes r.out
  unfolding stream
  stream_bounds s [] p h k = (h, tt)
  stream_bounds s (b ∷ src) p h k =
      let next = advance rate first_round (byte s p b).0 p in
      let rest =
        stream_bounds next.state src next.posn
          (advance-IsState (byte s p b).0 p (keeps.state s p b h k.0)) k.1 in
      (rest.0, (keeps.out s p b h k.0, rest.1))

-- A position in a stream stays inside the block.
pub stream_posn :
    (rate first_round : ℕ) (byte : State → ℕ → ℕ → State × ℕ) (s : State) (src : List ℕ) (p : ℕ)
    → p < rate
    → (stream rate first_round byte s src p).posn < rate
unfolding stream
stream_posn rate first_round byte s [] p h = h
stream_posn rate first_round byte s (b ∷ src) p h =
    let next = advance rate first_round (byte s p b).0 p in
    stream_posn rate first_round byte next.state src next.posn (unfold advance in ground arith)

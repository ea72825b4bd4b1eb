-- ===== src/Random/Mixer/Laws.antt =====
-- What the generator of masking material gives: each word is the rate of a state that is permuted
-- before the next.
use ascon_suite_tcc.Base.{
  ℕ, zero, suc, ◌+◌, ◌≡◌, refl, ap, ap₂, ◌∙◌, arith, true, Bool-cases, inl, inr, List, [], ◌∷◌,
  take, ltb, ◌==◌, ==_iff, if◌then◌else◌,
}
use ascon_suite_tcc.Core.Word.Bits.{IsWord}
use ascon_suite_tcc.Core.Permutation.{permute}
use ascon_suite_tcc.Core.Snp.{State}
use ascon_suite_tcc.Random.Mixer.{Mixer, mixer_rate, generate_64}

-- `n` words from one call after the other, and the state that is left
unfoldable pub draws : (List ℕ → ℕ) → ℕ → Mixer → List ℕ × Mixer
draws read64 zero m = ([], m)
draws read64 (suc n) m =
    let now = generate_64 read64 m in let rest = draws read64 n now.1 in (now.0 ∷ rest.0, rest.1)

-- the first eight bytes of a state, and of the states that six rounds make of it
unfoldable pub stream : (List ℕ → ℕ) → ℕ → State → List ℕ
stream read64 zero s = []
stream read64 (suc n) s = read64 (take 8 s) ∷ stream read64 n (permute s 6)

-- the state whose rate has not been read
abbrev pub unread : Mixer → State
unread m = if m.posn == 0 then m.prng else permute m.prng 6

module _ (read64 : List ℕ → ℕ) where
  generate_64_lem :
      (m : Mixer)
      → generate_64 read64 m ≡ (read64 (take 8 (unread m)), record { prng = unread m; posn = 8 })
  unfolding generate_64
  generate_64_lem m = elim (Bool-cases (m.posn == 0)) [
    | inl e ↦ let at = (==_iff m.posn 0).0 e in rw (at) refl
    | inr e ↦ let more : ltb mixer_rate (m.posn + 8) ≡ true = ground arith in rw (e, more) refl
  ]

  -- From every state, the words that any number of calls draws are the first eight bytes of a state of
  -- which no byte has been given yet and of the states that six rounds each make of it: every word
  -- is read from the rate, and the state is permuted between two words. A call leaves the position
  -- at the end of the rate.
  pub draws-eq-stream :
      (n : ℕ) (m : Mixer)
      → ((draws read64 n m).0 ≡ stream read64 n (unread m)) × ((draws read64 (suc n) m).1.posn ≡ 8)
  unfolding draws stream
  draws-eq-stream zero m = (refl, ap (λ r. r.1.posn) (generate_64_lem m))
  draws-eq-stream (suc n) m =
      let now = generate_64_lem m in
      let rest = draws-eq-stream n (generate_64 read64 m).1 in
      (ap₂ (◌∷◌) (ap (λ r. r.0) now) (rest.0 ∙ ap (λ r. stream read64 n (unread r.1)) now), rest.1)

-- The mixer fills the parameter of masking: its words are 64-bit words when the host reads such.
generate_64-IsWord :
    (read64 : List ℕ → ℕ)
    → ((b : List ℕ) → IsWord (read64 b))
    → (m : Mixer) → IsWord (generate_64 read64 m).0
unfolding generate_64
generate_64-IsWord read64 small m = small _

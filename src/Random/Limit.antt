-- ===== src/Random/Limit.antt =====
-- The generator draws a new seed before one seed has served the limit.
use ascon_suite_tcc.Base.{
  ℕ, suc, ◌+◌, ◌<◌, ◌≤◌, ◌≡◌, refl, ◌∙◌, arith, inl, inr, Bool-cases, List, [], ◌∷◌, ◌++◌, ltb, leb,
  if◌then◌else◌,
}
use ascon_suite_tcc.Hash.Xof.Pieces.{total}
use ascon_suite_tcc.Random.Prng.{
  Prng, Drawn, Call, random_rekey, random_fetch, fetch_fresh, random_reseed,
}

-- A source that counts how often it is drawn from.
unfoldable pub counting : {W : Type 0} → (W → ℕ → Drawn W) → ℕ × W → ℕ → Drawn (ℕ × W)
counting generate w size =
    let drawn = generate w.1 size in
    record { result = drawn.result; seed = drawn.seed; world = (suc w.0, drawn.world) }

-- Fetches of the given lengths, one behind the other.
unfoldable pub fetch_all : {W : Type 0} → (W → ℕ → Drawn W) → Prng → W → List ℕ → Call W
fetch_all generate st w [] = record { prng = st; world = w; result = 0; out = [] }
fetch_all generate st w (n ∷ ns) =
    let now = random_fetch generate st w n in fetch_all generate now.prng now.world ns

module _ {W : Type 0} (generate : W → ℕ → Drawn W) where
  -- the seeds drawn by a fetch, and the counter behind it
  fetch_cases :
      (st : Prng) (w : ℕ × W) (n : ℕ)
      → ((random_fetch (counting generate) st w n).world.0
          ≡ (if leb 16384 st.counter then suc w.0 else w.0))
        × ((random_fetch (counting generate) st w n).prng.counter
            ≡ (if ltb n 16384 then (if leb 16384 st.counter then n else st.counter + n) else 16384))
  unfolding random_fetch fetch_fresh random_reseed random_rekey counting
  fetch_cases st w n = elim (Bool-cases (leb 16384 st.counter)) [
    | inl e ↦ rw e (refl, ground arith)
    | inr e ↦ rw e (refl, ground arith)
  ]

  drawn_le :
      (st : Prng) (w : ℕ × W) (ns : List ℕ) → w.0 ≤ (fetch_all (counting generate) st w ns).world.0
  unfolding fetch_all
  drawn_le st w [] = omega arith
  drawn_le st w (n ∷ ns) =
      let now = random_fetch (counting generate) st w n in
      ground (arith, (fetch_cases st w n).0, drawn_le now.prng now.world ns)

  drawn_lt :
      (st : Prng) (w : ℕ × W) (ns : List ℕ) (last : ℕ)
      → 16384 ≤ st.counter + total ns
      → w.0 < (fetch_all (counting generate) st w (ns ++ (last ∷ []))).world.0
  unfolding fetch_all total
  drawn_lt st w [] last h = ground (arith, (fetch_cases st w last).0)
  drawn_lt st w (n ∷ ns) last h =
      let now = random_fetch (counting generate) st w n in
      let all = ns ++ (last ∷ []) in
      let cases = fetch_cases st w n in
      elim (Bool-cases (leb 16384 st.counter)) [
        | inl e ↦ ground (arith, cases.0, drawn_le now.prng now.world all)
        | inr e ↦
            let same : now.world.0 ≡ w.0 = cases.0 ∙ rw e refl in
            let enough : 16384 ≤ now.prng.counter + total ns = ground (arith, cases.1) in
            let later = drawn_lt now.prng now.world ns last enough in omega (arith, same, later)
      ]

  -- Whatever the system's source gives: when the bytes that a seed has served, as the counter has
  -- them, and the bytes of some fetches reach 16384, those fetches and one more, of any lengths,
  -- draw a new seed.
  pub fetch_all_drawn :
      (st : Prng) (w : W) (ns : List ℕ) (last : ℕ)
      → 16384 ≤ st.counter + total ns
      → 0 < (fetch_all (counting generate) st (0, w) (ns ++ (last ∷ []))).world.0
  fetch_all_drawn st w ns last h = drawn_lt st (0, w) ns last h

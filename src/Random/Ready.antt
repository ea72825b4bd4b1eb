-- ===== src/Random/Ready.antt =====
-- Between two calls the state of the generator is re-keyed, and its counter has not wrapped around.
use ascon_suite_tcc.Base.{
  ℕ, zero, suc, none, some, Option, ◌<◌, ◌≡◌, refl, arith, inl, inr, Bool-cases, List, ltb, leb,
  ◌==◌, ==_iff,
}
use ascon_suite_tcc.Core.Permutation.{permute}
use ascon_suite_tcc.Core.Snp.{State, overwrite_with_zeroes}
use ascon_suite_tcc.Core.Snp.Bounds.{IsState, permute-IsState, init-IsState}
use ascon_suite_tcc.Aead.Common.{absorb_blocks}
use ascon_suite_tcc.Hash.Xof.{Xof, pad, absorb, absorb_left_over, absorb_aligned, sponge_absorb}
use ascon_suite_tcc.Random.Prng.{
  Prng, Drawn, Storage, Call, rekey_rounds, random_rekey, random_init, random_free, random_fetch,
  fetch_fresh, random_reseed, random_feed, save_to, load_from, validated, save_seed, load_seed,
}

-- A state between two calls: the sponge absorbs and has 40 bytes, of which the block is empty, and
-- the counter is less than twice the limit.
pub record IsReady (st : Prng) : Type 0 where
  pub sponge : IsState st.xof.state
  pub empty : st.xof.count ≡ 0
  pub absorbing : st.xof.mode ≡ 0
  pub counted : st.counter < 32768

rounds-IsState : (left : ℕ) (s : State) → IsState (rekey_rounds (suc left) s)
unfolding rekey_rounds
rounds-IsState zero s = permute-IsState (overwrite_with_zeroes s 0 8) 0
rounds-IsState (suc left) s = rounds-IsState left (permute (overwrite_with_zeroes s 0 8) 0)

-- Padding leaves an empty block from either phase.
pad_lem : (st : Xof) → ((pad 0 st).count ≡ 0) × ((pad 0 st).mode ≡ 0)
unfolding pad absorb sponge_absorb absorb_left_over absorb_aligned absorb_blocks
pad_lem st = elim (Bool-cases (st.mode == 0)) [
  | inl e ↦ rw e (elim (Bool-cases (st.count == 0)) [
    | inl f ↦ rw f ((==_iff st.count 0).0 f, (==_iff st.mode 0).0 e)
    | inr f ↦ rw f (refl, (==_iff st.mode 0).0 e)
  ])
  | inr e ↦ rw e (refl, refl)
]

rekey-IsReady : (st : Prng) → st.counter < 32768 → IsReady (random_rekey st)
unfolding random_rekey
rekey-IsReady st h = record {
  sponge = rounds-IsState 3 (pad 0 st.xof).state;
  empty = (pad_lem st.xof).0;
  absorbing = (pad_lem st.xof).1;
  counted = h;
}

free-IsReady : (st : Prng) → IsReady (random_free st)
unfolding random_free
free-IsReady st = record {
  sponge = init-IsState;
  empty = refl;
  absorbing = refl;
  counted = omega arith;
}

feed-IsReady : (st : Prng) (entropy : List ℕ) → IsReady st → IsReady (random_feed st entropy)
unfolding random_feed
feed-IsReady st entropy h = rekey-IsReady _ h.counted

module _ {W : Type 0} (generate : W → ℕ → Drawn W) where
  init-IsReady : (w : W) → IsReady (random_init generate w).prng
  unfolding random_init
  init-IsReady w = rekey-IsReady _ (omega arith)

  pub reseed-IsReady : (st : Prng) (w : W) → IsReady (random_reseed generate st w).prng
  unfolding random_reseed
  reseed-IsReady st w = rekey-IsReady _ (omega arith)

  fresh-IsReady :
      (st : Prng) (w : W) (outlen : ℕ)
      → st.counter < 16384
      → IsReady (fetch_fresh generate st w outlen).prng
  unfolding fetch_fresh
  fresh-IsReady st w outlen h = rekey-IsReady _ (ground arith)

  reseeded_counter : (st : Prng) (w : W) → (random_reseed generate st w).prng.counter ≡ 0
  unfolding random_reseed random_rekey
  reseeded_counter st w = refl

  fetch-IsReady :
      (st : Prng) (w : W) (outlen : ℕ) → IsReady (random_fetch generate st w outlen).prng
  unfolding random_fetch
  fetch-IsReady st w outlen = elim (Bool-cases (leb 16384 st.counter)) [
    | inl e ↦ rw e (
        fresh-IsReady (random_reseed generate st w).prng (random_reseed generate st w).world outlen
          (omega (arith, reseeded_counter st w)))
    | inr e ↦ rw e (fresh-IsReady st w outlen (ground arith))
  ]

  validated-IsReady :
      (go : Storage W → Call W) (st : Prng) (w : W) (storage : Option (Storage W))
      → ((s : Storage W) → IsReady (go s).prng)
      → IsReady st
      → IsReady (validated generate go st w storage).prng
  unfolding validated
  validated-IsReady go st w none h k = k
  validated-IsReady go st w (some storage) h k = elim (Bool-cases (ltb storage.size 32)) [
    | inl e ↦ rw e k
    | inr e ↦ rw e (h storage)
  ]

  save-IsReady :
      (st : Prng) (w : W) (storage : Option (Storage W))
      → IsReady st
      → IsReady (save_seed generate st w storage).prng
  unfolding save_seed save_to
  save-IsReady st w storage h = validated-IsReady _ st w storage (λ s. fetch-IsReady st w 32) h

  load-IsReady :
      (st : Prng) (w : W) (storage : Option (Storage W))
      → IsReady st
      → IsReady (load_seed generate st w storage).prng
  unfolding load_seed load_from
  load-IsReady st w storage h = validated-IsReady _ st w storage (λ s. fetch-IsReady _ _ 32) h

  -- the states that a program can bring the generator to, whatever is outside at each call
  pub data Reachable : Prng → Type 0 where
    initialized : (w : W) → Reachable (random_init generate w).prng
    freed : {st : Prng} → Reachable st → Reachable (random_free st)
    fetched :
        {st : Prng} (w : W) (outlen : ℕ)
        → Reachable st
        → Reachable (random_fetch generate st w outlen).prng
    reseeded : {st : Prng} (w : W) → Reachable st → Reachable (random_reseed generate st w).prng
    fed : {st : Prng} (entropy : List ℕ) → Reachable st → Reachable (random_feed st entropy)
    saved :
        {st : Prng} (w : W) (storage : Option (Storage W))
        → Reachable st
        → Reachable (save_seed generate st w storage).prng
    loaded :
        {st : Prng} (w : W) (storage : Option (Storage W))
        → Reachable st
        → Reachable (load_seed generate st w storage).prng

  -- Whatever calls a program makes, in any order and with any outcome of the system's source and of
  -- the storage, between two calls the sponge absorbs, has 40 bytes and an empty block, and the
  -- counter is below 32768, so that it never wraps around.
  pub Reachable-IsReady : {st : Prng} → Reachable st → IsReady st
  Reachable-IsReady (initialized w) = init-IsReady w
  Reachable-IsReady (freed {st} r) = free-IsReady st
  Reachable-IsReady (fetched {st} w outlen r) = fetch-IsReady st w outlen
  Reachable-IsReady (reseeded {st} w r) = reseed-IsReady st w
  Reachable-IsReady (fed {st} entropy r) = feed-IsReady st entropy (Reachable-IsReady r)
  Reachable-IsReady (saved {st} w storage r) = save-IsReady st w storage (Reachable-IsReady r)
  Reachable-IsReady (loaded {st} w storage r) = load-IsReady st w storage (Reachable-IsReady r)

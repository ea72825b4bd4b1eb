-- ===== src/Random/Seeds.antt =====
-- A seed that one generator saves is the seed that the next one loads, and is replaced.
use ascon_suite_tcc.Base.{
  ap₂, ℕ, some, ◌<◌, ◌≤◌, ◌≡◌, refl, ap, ◌∙◌, arith, true, false, Bool, inl, inr, Bool-cases, List,
  [], ltb, leb, ◌==◌, if◌then◌else◌, length,
}
use ascon_suite_tcc.Hash.Xof.Emit.Append.{length-squeeze}
use ascon_suite_tcc.Random.Prng.{
  Prng, Drawn, Storage, Call, random_fetch, fetch_fresh, random_reseed, random_feed, save_to,
  load_from, validated, save_seed, load_seed,
}
use ascon_suite_tcc.Random.Ready.{IsReady, reseed-IsReady}

-- What the calls rely on in a storage: it has room for a seed, and the 32 bytes that are written at
-- its start are all written and are read back from there.
pub record Keeps {W : Type 0} (s : Storage W) : Type 0 where
  pub room : 32 ≤ s.size
  pub all_written : (w : W) (d : List ℕ) (e : Bool) → length d ≡ 32 → (s.write w 0 d e).0 ≡ 32
  pub all_read :
      (w : W) (d : List ℕ) (e : Bool)
      → length d ≡ 32
      → (s.read (s.write w 0 d e).1 0 32).result ≡ 32
  pub same_read :
      (w : W) (d : List ℕ) (e : Bool) → length d ≡ 32 → (s.read (s.write w 0 d e).1 0 32).seed ≡ d

module _ {W : Type 0} (generate : W → ℕ → Drawn W) where
  length-fetch_fresh :
      (st : Prng) (w : W) (n : ℕ) → st.xof.count < 8 → length (fetch_fresh generate st w n).out ≡ n
  unfolding fetch_fresh
  length-fetch_fresh st w n h = length-squeeze st.xof n h

  length-random_fetch :
      (st : Prng) (w : W) (n : ℕ) → IsReady st → length (random_fetch generate st w n).out ≡ n
  unfolding random_fetch
  length-random_fetch st w n h = elim (Bool-cases (leb 16384 st.counter)) [
    | inl e ↦ rw e (
        let fresh = random_reseed generate st w in
        length-fetch_fresh fresh.prng fresh.world n
          (omega (arith, (reseed-IsReady generate st w).empty)))
    | inr e ↦ rw e (length-fetch_fresh st w n (omega (arith, h.empty)))
  ]

  -- the calls behind a seed that was read
  abbrev pub seeded : Prng → List ℕ → W → Call W
  seeded st seed w =
      let fresh = random_reseed generate (random_feed st seed) w in
      random_fetch generate fresh.prng fresh.world 32

  usable :
      (go : Storage W → Call W) (st : Prng) (w : W) (s : Storage W)
      → 32 ≤ s.size
      → validated generate go st w (some s) ≡ go s
  unfolding validated
  usable go st w s h = let large : ltb s.size 32 ≡ false = ground arith in rw large refl

  save_lem :
      (st : Prng) (w : W) (s : Storage W)
      → 32 ≤ s.size
      → save_seed generate st w (some s) ≡ save_to generate st w s
  unfolding save_seed
  save_lem st w s h = usable (save_to generate st w) st w s h

  load_lem :
      (st : Prng) (w : W) (s : Storage W)
      → 32 ≤ s.size
      → load_seed generate st w (some s) ≡ load_from generate st w s
  unfolding load_seed
  load_lem st w s h = usable (load_from generate st w) st w s h

  abbrev erases : Storage W → Bool
  erases s = if s.erase_size == 0 then false else true

  saved_result :
      (st : Prng) (w : W) (s : Storage W)
      → IsReady st
      → Keeps s
      → (save_to generate st w s).result ≡ 1
  unfolding save_to
  saved_result st w s h k =
      let f = random_fetch generate st w 32 in
      let all = k.all_written f.world f.out (erases s) (length-random_fetch st w 32 h) in
      ap (λ n. if n == 32 then 1 else 0) all

  saved_world :
      (st : Prng) (w : W) (s : Storage W)
      → (save_to generate st w s).world
        ≡ (s.write
            (random_fetch generate st w 32).world
            0
            (random_fetch generate st w 32).out
            (erases s)).1
  unfolding save_to
  saved_world st w s = refl

  loaded_lem :
      (st : Prng) (w : W) (s : Storage W) (seed : List ℕ)
      → (s.read w 0 32).result ≡ 32
      → (s.read w 0 32).seed ≡ seed
      → load_from generate st w s ≡ (
          let f = seeded st seed (s.read w 0 32).world in
          record {
            prng = f.prng;
            world = (s.write f.world 0 f.out (erases s)).1;
            result = 1;
            out = [];
          })
  unfolding load_from
  loaded_lem st w s seed h k =
      let loaded = s.read w 0 32 in
      ap₂
        (λ n d.
          let fed = if n == 32 then random_feed st d else st in
          let fresh = random_reseed generate fed loaded.world in
          let f = random_fetch generate fresh.prng fresh.world 32 in
          record {
            prng = f.prng;
            world = (s.write f.world 0 f.out (erases s)).1;
            result = if n == 32 then 1 else 0;
            out = [];
          })
        h k

  seeded-IsFull : (st : Prng) (seed : List ℕ) (w : W) → length (seeded st seed w).out ≡ 32
  seeded-IsFull st seed w =
      let fresh = random_reseed generate (random_feed st seed) w in
      length-random_fetch fresh.prng fresh.world 32
        (reseed-IsReady generate (random_feed st seed) w)

  -- For a storage that keeps what is written to it and a generator between two calls: the seed that
  -- it saves there is what any generator that loads the storage behind that feeds on, before it
  -- draws a new seed from the system; both calls return 1, where src/ascon/random.h documents zero for
  -- success; and the storage then holds, in place of the seed that was used, 32 bytes that the second
  -- generator gave.
  pub load_seed-save_seed :
      (st st2 : Prng) (w : W) (s : Storage W)
      → IsReady st
      → Keeps s
      → (let saved = save_seed generate st w (some s) in
          let loaded = load_seed generate st2 saved.world (some s) in
          let next =
            seeded st2 (random_fetch generate st w 32).out (s.read saved.world 0 32).world in
          (saved.result ≡ 1)
          × (loaded.result ≡ 1)
          × (loaded.prng ≡ next.prng)
          × ((s.read loaded.world 0 32).seed ≡ next.out))
  load_seed-save_seed st st2 w s h k =
      let seed = (random_fetch generate st w 32).out in
      let size = length-random_fetch st w 32 h in
      let world = (random_fetch generate st w 32).world in
      let saved = save_lem st w s k.room in
      let there = ap (λ c. c.world) saved ∙ saved_world st w s in
      let read = ap (λ v. (s.read v 0 32).result) there ∙ k.all_read world seed (erases s) size in
      let same = ap (λ v. (s.read v 0 32).seed) there ∙ k.same_read world seed (erases s) size in
      let w1 = (save_seed generate st w (some s)).world in
      let loaded = load_lem st2 w1 s k.room ∙ loaded_lem st2 w1 s seed read same in
      let next = seeded st2 seed (s.read w1 0 32).world in
      (
        ap (λ c. c.result) saved ∙ saved_result st w s h k,
        ap (λ c. c.result) loaded,
        ap (λ c. c.prng) loaded,
        ap (λ c. (s.read c.world 0 32).seed) loaded
            ∙ k.same_read next.world next.out (erases s)
                (seeded-IsFull st2 seed (s.read w1 0 32).world),
      )

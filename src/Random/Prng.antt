-- ===== src/Random/Prng.antt =====
-- The SpongePRNG of src/random/ascon-prng.c and the one-call generator of
-- src/random/ascon-random.c. What lies outside, the system's source and the storage, is a state `w`
-- that the calls take and leave.
use ascon_suite_tcc.Base.{
  Bool, ℕ, zero, suc, none, some, Option, ◌+◌, ◌-◌, ◌/◌, ◌%◌, ◌^◌, true, false, List, [], ◌∷◌, ltb,
  leb, ◌==◌, if◌then◌else◌,
}
use ascon_suite_tcc.Core.Permutation.{permute}
use ascon_suite_tcc.Core.Snp.{State, overwrite_with_zeroes}
use ascon_suite_tcc.Aead.Tag.{minus_one}
use ascon_suite_tcc.Hash.Xof.{Xof, xof_rate, absorb, pad, squeeze}
use ascon_suite_tcc.Hash.Xof.Init.{xof_flavour, init_custom, init_fixed, free}

-- `ascon_random_state_t`
pub record Prng : Type 0 where
  pub xof : Xof
  pub counter : ℕ
  pub reserved : ℕ

-- `ascon_trng_generate(out, outlen)`: the return value, the bytes, and what it leaves outside
pub record Drawn (W : Type 0) : Type 0 where
  pub result : ℕ
  pub seed : List ℕ
  pub world : W

-- `ascon_storage_t`: `read(offset, size)` gives a count of bytes and the bytes,
-- `write(offset, data, erase)` a count.
pub record Storage (W : Type 0) : Type 0 where
  pub page_size : ℕ
  pub size : ℕ
  pub erase_size : ℕ
  pub address : ℕ
  pub read : W → ℕ → ℕ → Drawn W
  pub write : W → ℕ → List ℕ → Bool → ℕ × W

-- what a call leaves: the state, outside, the return value, and the bytes written
pub record Call (W : Type 0) : Type 0 where
  pub prng : Prng
  pub world : W
  pub result : ℕ
  pub out : List ℕ

-- `ASCON_RANDOM_RESEED_LIMIT`
abbrev pub reseed_limit : ℕ
reseed_limit = 16384

-- `ASCON_SYSTEM_SEED_SIZE`
abbrev pub system_seed_size : ℕ
system_seed_size = 32

-- `ASCON_RANDOM_SAVED_SEED_SIZE`
abbrev pub saved_seed_size : ℕ
saved_seed_size = 32

-- `for (temp = 0; temp < (40 - ASCON_XOF_RATE); temp += ASCON_XOF_RATE)` of `ascon_random_rekey`,
-- on the rounds left
unfoldable pub rekey_rounds : ℕ → State → State
rekey_rounds zero s = s
rekey_rounds (suc left) s = rekey_rounds left (permute (overwrite_with_zeroes s 0 xof_rate) 0)

-- `ascon_random_rekey`
unfoldable pub random_rekey : Prng → Prng
random_rekey st =
    let xof = pad 0 st.xof in
    record st { xof = record xof { state = rekey_rounds ((40 - xof_rate) / xof_rate) xof.state } }

-- "SpongePRNG"
abbrev pub prng_name : List ℕ
prng_name = 83 ∷ 112 ∷ 111 ∷ 110 ∷ 103 ∷ 101 ∷ 80 ∷ 82 ∷ 78 ∷ 71 ∷ []

-- `ascon_random_free`
unfoldable pub random_free : Prng → Prng
random_free st = record st { xof = free st.xof; counter = 0 }

-- `ascon_random_feed`
unfoldable pub random_feed : Prng → List ℕ → Prng
random_feed st entropy = random_rekey (record st { xof = pad 0 (absorb 0 st.xof entropy) })

module _ {W : Type 0} (generate : W → ℕ → Drawn W) where
  -- `ascon_random_init`, on a state that is not null
  unfoldable pub random_init : W → Call W
  random_init w =
      let xof = init_custom xof_flavour (some prng_name) [] 0 in
      let drawn = generate w system_seed_size in
      record {
        prng = random_rekey (record { xof = absorb 0 xof drawn.seed; counter = 0; reserved = 0 });
        world = drawn.world;
        result = drawn.result;
        out = [];
      }

  -- `ascon_random_reseed`, on a state that is not null
  unfoldable pub random_reseed : Prng → W → Call W
  random_reseed st w =
      let drawn = generate w system_seed_size in
      record {
        prng = random_rekey (record st { xof = absorb 0 st.xof drawn.seed; counter = 0 });
        world = drawn.world;
        result = drawn.result;
        out = [];
      }

  -- the rest of `ascon_random_fetch`, behind the forced re-seed; `counter` is a `uint32_t`
  unfoldable pub fetch_fresh : Prng → W → ℕ → Call W
  fetch_fresh st w outlen =
      let squeezed = squeeze st.xof outlen in
      let counter =
        if ltb outlen reseed_limit then (st.counter + outlen) % 2 ^ 32 else reseed_limit in
      record {
        prng = random_rekey (record st { xof = squeezed.xof; counter = counter });
        world = w;
        result = 0;
        out = squeezed.out;
      }

  -- `ascon_random_fetch`, on a state that is not null
  unfoldable pub random_fetch : Prng → W → ℕ → Call W
  random_fetch st w outlen =
      let fresh = random_reseed st w in
      if leb reseed_limit st.counter
      then fetch_fresh fresh.prng fresh.world outlen
      else fetch_fresh st w outlen

  -- `ascon_random` of src/random/ascon-random.c: the return value, the bytes, and outside
  unfoldable pub ascon_random : W → ℕ → Drawn W
  ascon_random w outlen =
      let drawn = generate w system_seed_size in
      let xof = absorb 0 (init_fixed xof_flavour outlen) drawn.seed in
      record {
        result = if drawn.result == 0 then 0 else 1;
        seed = (squeeze xof outlen).out;
        world = drawn.world;
      }

  -- the calls behind the validation of `ascon_random_save_seed`
  unfoldable pub save_to : Prng → W → Storage W → Call W
  save_to st w storage =
      let fetched = random_fetch st w saved_seed_size in
      let erase = if storage.erase_size == 0 then false else true in
      let written = storage.write fetched.world 0 fetched.out erase in
      record {
        prng = fetched.prng;
        world = written.1;
        result = if written.0 == saved_seed_size then 1 else 0;
        out = [];
      }

  -- the calls behind the validation of `ascon_random_load_seed`
  unfoldable pub load_from : Prng → W → Storage W → Call W
  load_from st w storage =
      let loaded = storage.read w 0 saved_seed_size in
      let fed = if loaded.result == saved_seed_size then random_feed st loaded.seed else st in
      let reseeded = random_reseed fed loaded.world in
      let fetched = random_fetch reseeded.prng reseeded.world saved_seed_size in
      let erase = if storage.erase_size == 0 then false else true in
      let written = storage.write fetched.world 0 fetched.out erase in
      record {
        prng = fetched.prng;
        world = written.1;
        result = if loaded.result == saved_seed_size then 1 else 0;
        out = [];
      }

  -- `!storage || storage->size < ASCON_RANDOM_SAVED_SEED_SIZE`, with what follows a storage that
  -- is large enough
  unfoldable pub validated : (Storage W → Call W) → Prng → W → Option (Storage W) → Call W
  validated go st w none = record { prng = st; world = w; result = minus_one; out = [] }
  validated go st w (some storage) =
      if ltb storage.size saved_seed_size
      then record { prng = st; world = w; result = minus_one; out = [] }
      else go storage

  -- `ascon_random_save_seed` and `ascon_random_load_seed`, on a state that is not null
  -- On success they return 1, the value of the comparison in C, and 0 when the storage fails, where
  -- src/ascon/random.h documents zero and -1.
  unfoldable pub save_seed : Prng → W → Option (Storage W) → Call W
  unfolding validated
  save_seed st w storage = validated (save_to st w) st w storage

  unfoldable pub load_seed : Prng → W → Option (Storage W) → Call W
  unfolding validated
  load_seed st w storage = validated (load_from st w) st w storage

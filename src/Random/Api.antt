-- ===== src/Random/Api.antt =====
-- The functions of src/random/ascon-prng.c under their names, with the check for a null state.
use ascon_suite_tcc.Base.{ℕ, none, some, Option, List, []}
use ascon_suite_tcc.Aead.Tag.{minus_one}
use ascon_suite_tcc.Random.Prng.{
  Prng, Drawn, Storage, Call, random_init, random_free, random_fetch, random_reseed, random_feed,
  save_seed, load_seed, ascon_random,
}

-- what a call through a pointer leaves, which may be null
pub record Answer (W : Type 0) : Type 0 where
  pub prng : Option Prng
  pub world : W
  pub result : ℕ
  pub out : List ℕ

abbrev pub answer : {W : Type 0} → Call W → Answer W
answer c = record { prng = some c.prng; world = c.world; result = c.result; out = c.out }

abbrev pub ascon_random_free : Option Prng → Option Prng
ascon_random_free none = none
ascon_random_free (some st) = some (random_free st)

abbrev pub ascon_random_feed : Option Prng → List ℕ → Option Prng
ascon_random_feed none entropy = none
ascon_random_feed (some st) entropy = some (random_feed st entropy)

module _ {W : Type 0} (generate : W → ℕ → Drawn W) where
  abbrev pub ascon_random_init : Option Prng → W → Answer W
  ascon_random_init none w = record { prng = none; world = w; result = 0; out = [] }
  ascon_random_init (some st) w = answer (random_init generate w)

  abbrev pub ascon_random_fetch : Option Prng → W → ℕ → Answer W
  ascon_random_fetch none w outlen =
      let drawn = ascon_random generate w outlen in
      record { prng = none; world = drawn.world; result = 0; out = drawn.seed }
  ascon_random_fetch (some st) w outlen = answer (random_fetch generate st w outlen)

  abbrev pub ascon_random_reseed : Option Prng → W → Answer W
  ascon_random_reseed none w = record { prng = none; world = w; result = 0; out = [] }
  ascon_random_reseed (some st) w = answer (random_reseed generate st w)

  abbrev pub ascon_random_save_seed : Option Prng → W → Option (Storage W) → Answer W
  ascon_random_save_seed none w storage = record {
    prng = none;
    world = w;
    result = minus_one;
    out = [];
  }
  ascon_random_save_seed (some st) w storage = answer (save_seed generate st w storage)

  abbrev pub ascon_random_load_seed : Option Prng → W → Option (Storage W) → Answer W
  ascon_random_load_seed none w storage = record {
    prng = none;
    world = w;
    result = minus_one;
    out = [];
  }
  ascon_random_load_seed (some st) w storage = answer (load_seed generate st w storage)

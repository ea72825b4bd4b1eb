-- ===== src/Random/Mixer.antt =====
-- The generator of masking material of src/random/ascon-trng-mixer.c, which masking calls: a state that
-- is seeded by the system and permuted when its rate is used up. `read32` and `read64` are how the
-- host reads bytes of memory as `uint32_t` and `uint64_t`.
pub mod Laws
use ascon_suite_tcc.Base.{
  ℕ, ◌+◌, ◌-◌, ◌*◌, ◌/◌, ◌%◌, Bool, true, false, ◌||◌, List, take, drop, ltb, ◌==◌, if◌then◌else◌,
}
use ascon_suite_tcc.Core.Permutation.{permute}
use ascon_suite_tcc.Core.Snp.{State, init, overwrite_bytes, add_bytes, overwrite_with_zeroes}
use ascon_suite_tcc.Random.Prng.{Drawn, system_seed_size}

-- `ascon_trng_state_t` with the mixer
pub record Mixer : Type 0 where
  pub prng : State
  pub posn : ℕ

-- `ASCON_TRNG_MIXER_RATE`
abbrev pub mixer_rate : ℕ
mixer_rate = 8

-- what `ascon_trng_init` and `ascon_trng_reseed` leave: the state, the result, and what is outside
pub record Seeded (W : Type 0) : Type 0 where
  pub mixer : Mixer
  pub result : ℕ
  pub world : W

module _ {W : Type 0} (generate : W → ℕ → Drawn W) where
  -- `ascon_trng_init`
  unfoldable pub trng_init : W → Seeded W
  trng_init w =
      let drawn = generate w system_seed_size in
      let prng = permute (overwrite_bytes init drawn.seed (40 - system_seed_size)) 0 in
      record {
        mixer = record { prng = prng; posn = 0 };
        result = drawn.result;
        world = drawn.world;
      }

  -- `ascon_trng_reseed`
  unfoldable pub trng_reseed : Mixer → W → Seeded W
  trng_reseed state w =
      let drawn = generate w system_seed_size in
      let prng = add_bytes state.prng drawn.seed (40 - system_seed_size) in
      let prng = permute (overwrite_with_zeroes prng 0 8) 0 in
      record {
        mixer = record { prng = prng; posn = 0 };
        result = drawn.result;
        world = drawn.world;
      }

-- the state after `ascon_permute6`, with the rate to read again
abbrev refill : Mixer → Mixer
refill state = record { prng = permute state.prng 6; posn = 0 }

-- `ascon_trng_generate_32`
unfoldable pub generate_32 : (List ℕ → ℕ) → Mixer → ℕ × Mixer
generate_32 read32 state =
    let state = if ltb mixer_rate (state.posn + 4) then refill state else state in
    (
      read32 (take 4 (drop (4 * (state.posn / 4)) state.prng)),
      record state { posn = state.posn + 4 },
    )

-- `ascon_trng_generate_64`
unfoldable pub generate_64 : (List ℕ → ℕ) → Mixer → ℕ × Mixer
generate_64 read64 state =
    let full = ltb mixer_rate (state.posn + 8) || ltb 0 (state.posn % 8) in
    let state = if full then refill state else state in
    (
      read64 (take 8 (drop (8 * (state.posn / 8)) state.prng)),
      record state { posn = state.posn + 8 },
    )

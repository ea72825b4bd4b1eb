-- ===== src/Masking/Key.antt =====
-- The masked keys of src/masking/ascon-masked-key.c: `ascon_masked_key_128_t` and
-- `ascon_masked_key_160_t`. What the build chooses by `ASCON_MASKED_KEY_SHARES` is the parameter `ops`.
pub mod Laws
pub mod Randomize
use ascon_suite_tcc.Base.{ℕ, List, [], ◌∷◌, ◌++◌, drop}
use ascon_suite_tcc.Masking.Word.{Masked}
use ascon_suite_tcc.Masking.Operations.{MaskedOps}

pub record Key128 : Type 0 where
  pub k0 : Masked ℕ
  pub k1 : Masked ℕ

pub record Key160 : Type 0 where
  pub k0 : Masked ℕ
  pub k1 : Masked ℕ
  pub k2 : Masked ℕ
  pub k3 : Masked ℕ
  pub k4 : Masked ℕ
  pub k5 : Masked ℕ

abbrev pub zeroes : List ℕ
zeroes = 0 ∷ 0 ∷ 0 ∷ 0 ∷ []

module _ {T : Type 0} (ops : MaskedOps T) where
  -- `ascon_masked_key_128_init`
  unfoldable pub key_128_init : List ℕ → T → Key128 × T
  key_128_init key t =
      let m0 = ops.load key t in
      let m1 = ops.load (drop 8 key) m0.1 in (record { k0 = m0.0; k1 = m1.0 }, m1.1)

  -- `ascon_masked_key_128_randomize_with_trng`
  unfoldable pub key_128_randomize : Key128 → T → Key128 × T
  key_128_randomize masked t =
      let m0 = ops.randomize masked.k0 masked.k0 t in
      let m1 = ops.randomize masked.k1 masked.k1 m0.1 in (record { k0 = m0.0; k1 = m1.0 }, m1.1)

  -- `ascon_masked_key_128_extract`: the bytes that it writes
  unfoldable pub key_128_extract : Key128 → List ℕ
  key_128_extract masked = ops.store masked.k0 ++ ops.store masked.k1

  -- `ascon_masked_key_160_init`
  unfoldable pub key_160_init : List ℕ → T → Key160 × T
  key_160_init key t =
      let m0 = ops.load key t in
      let m1 = ops.load (drop 8 key) m0.1 in
      let m2 = ops.load_32 (drop 16 key) zeroes m1.1 in
      let m3 = ops.load_32 zeroes key m2.1 in
      let m4 = ops.load (drop 4 key) m3.1 in
      let m5 = ops.load (drop 12 key) m4.1 in
      (record { k0 = m0.0; k1 = m1.0; k2 = m2.0; k3 = m3.0; k4 = m4.0; k5 = m5.0 }, m5.1)

  -- `ascon_masked_key_160_extract`
  unfoldable pub key_160_extract : Key160 → List ℕ
  key_160_extract masked =
      ops.store masked.k0 ++ (ops.store masked.k1 ++ ops.store_partial 4 masked.k2)

-- `ascon_masked_key_160_randomize_with_trng`, which calls `ascon_masked_word_x2_randomize` for every
-- number of shares: `randomize` is that one
unfoldable pub key_160_randomize :
    {T : Type 0} → (Masked ℕ → Masked ℕ → T → Masked ℕ × T) → Key160 → T → Key160 × T
key_160_randomize randomize masked t =
    let m0 = randomize masked.k0 masked.k0 t in
    let m1 = randomize masked.k1 masked.k1 m0.1 in
    let m2 = randomize masked.k2 masked.k2 m1.1 in
    let m3 = randomize masked.k3 masked.k3 m2.1 in
    let m4 = randomize masked.k4 masked.k4 m3.1 in
    let m5 = randomize masked.k5 masked.k5 m4.1 in
    (record { k0 = m0.0; k1 = m1.0; k2 = m2.0; k3 = m3.0; k4 = m4.0; k5 = m5.0 }, m5.1)

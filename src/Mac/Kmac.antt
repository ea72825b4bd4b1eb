-- ===== src/Mac/Kmac.antt =====
-- src/mac/ascon-kmac.c and src/mac/ascon-kmaca.c, src/kdf/ascon-kdf.c and src/kdf/ascon-kdfa.c: the
-- key is absorbed by a sponge that is started with the function's name. The state is the sponge's.
pub mod Laws
use ascon_suite_tcc.Base.{ℕ, some, List, [], ◌∷◌, ◌==◌, if◌then◌else◌}
use ascon_suite_tcc.Hash.Xof.{Xof, Squeezed, absorb, absorb_custom, squeeze, squeeze_a}
use ascon_suite_tcc.Hash.Xof.Init.{
  Flavour, xof_flavour, xofa_flavour, init_table, init_custom, free,
}

-- the bytes of `iv` in `ascon_kmac_init_precomputed` and `ascon_kmaca_init_precomputed`
abbrev pub kmac_iv : List ℕ
kmac_iv =
    0x7a ∷ 0x09 ∷ 0x13 ∷ 0x24 ∷ 0x95 ∷ 0xdf ∷ 0xa1 ∷ 0x76 ∷ 0x1b ∷ 0x19 ∷ 0xe0 ∷ 0x4f ∷ 0x31 ∷ 0xcc
    ∷ 0x4c ∷ 0xae ∷ 0x64 ∷ 0xba ∷ 0x72 ∷ 0xaf ∷ 0xaa ∷ 0x61 ∷ 0xd2 ∷ 0xb1 ∷ 0xd2 ∷ 0x96 ∷ 0x4e
    ∷ 0x09 ∷ 0xa5 ∷ 0x16 ∷ 0x90 ∷ 0x84 ∷ 0x05 ∷ 0xbc ∷ 0x6c ∷ 0x86 ∷ 0x5a ∷ 0xbe ∷ 0x51 ∷ 0x4b ∷ []

abbrev pub kmaca_iv : List ℕ
kmaca_iv =
    0x47 ∷ 0xd4 ∷ 0x5e ∷ 0x03 ∷ 0x42 ∷ 0x22 ∷ 0xe4 ∷ 0x72 ∷ 0xed ∷ 0x0d ∷ 0xa2 ∷ 0xbb ∷ 0x55 ∷ 0x80
    ∷ 0xc3 ∷ 0x0a ∷ 0xed ∷ 0xce ∷ 0xed ∷ 0x89 ∷ 0xce ∷ 0x04 ∷ 0xc7 ∷ 0x65 ∷ 0xff ∷ 0xe0 ∷ 0x52
    ∷ 0xa5 ∷ 0x53 ∷ 0x3e ∷ 0xaa ∷ 0x30 ∷ 0xc8 ∷ 0xbe ∷ 0x49 ∷ 0x56 ∷ 0xf9 ∷ 0x67 ∷ 0xf9 ∷ 0x1a ∷ []

-- "KMAC" and "KDF"
abbrev pub kmac_name : List ℕ
kmac_name = 75 ∷ 77 ∷ 65 ∷ 67 ∷ []

abbrev pub kdf_name : List ℕ
kdf_name = 75 ∷ 68 ∷ 70 ∷ []

-- `ASCON_KMAC_SIZE`
abbrev pub kmac_size : ℕ
kmac_size = 32

module _ (f : Flavour) (iv : List ℕ) where
  -- `ascon_kmac_init` and `ascon_kmaca_init`
  unfoldable pub kmac_init : List ℕ → List ℕ → ℕ → Xof
  kmac_init key custom outlen =
      let precomputed = absorb_custom f.block_round (init_table iv) custom in
      let general = init_custom f (some kmac_name) custom outlen in
      absorb f.block_round (if outlen == kmac_size then precomputed else general) key

  -- `ascon_kmac` and `ascon_kmaca`
  unfoldable pub kmac : List ℕ → List ℕ → List ℕ → ℕ → List ℕ
  kmac key in' custom outlen =
      (f.squeeze_call (absorb f.block_round (kmac_init key custom outlen) in') outlen).out

module _ (f : Flavour) where
  -- `ascon_kdf_init` and `ascon_kdfa_init`
  unfoldable pub kdf_init : List ℕ → List ℕ → ℕ → Xof
  kdf_init key custom outlen =
      absorb f.block_round (init_custom f (some kdf_name) custom outlen) key

  -- `ascon_kdf` and `ascon_kdfa`
  unfoldable pub kdf : List ℕ → List ℕ → ℕ → List ℕ
  kdf key custom outlen = (f.squeeze_call (kdf_init key custom outlen) outlen).out

-- src/mac/ascon-kmac.c
abbrev pub ascon_kmac : List ℕ → List ℕ → List ℕ → ℕ → List ℕ
ascon_kmac = kmac xof_flavour kmac_iv

abbrev pub ascon_kmac_init : List ℕ → List ℕ → ℕ → Xof
ascon_kmac_init = kmac_init xof_flavour kmac_iv

abbrev pub ascon_kmac_reinit : Xof → List ℕ → List ℕ → ℕ → Xof
ascon_kmac_reinit st key custom outlen = kmac_init xof_flavour kmac_iv key custom outlen

abbrev pub ascon_kmac_free : Xof → Xof
ascon_kmac_free = free

abbrev pub ascon_kmac_absorb : Xof → List ℕ → Xof
ascon_kmac_absorb = absorb 0

abbrev pub ascon_kmac_squeeze : Xof → ℕ → Squeezed
ascon_kmac_squeeze = squeeze

-- src/kdf/ascon-kdf.c
abbrev pub ascon_kdf : List ℕ → List ℕ → ℕ → List ℕ
ascon_kdf = kdf xof_flavour

abbrev pub ascon_kdf_init : List ℕ → List ℕ → ℕ → Xof
ascon_kdf_init = kdf_init xof_flavour

abbrev pub ascon_kdf_reinit : Xof → List ℕ → List ℕ → ℕ → Xof
ascon_kdf_reinit st key custom outlen = kdf_init xof_flavour key custom outlen

abbrev pub ascon_kdf_free : Xof → Xof
ascon_kdf_free = free

abbrev pub ascon_kdf_squeeze : Xof → ℕ → Squeezed
ascon_kdf_squeeze = squeeze

-- src/mac/ascon-kmaca.c
abbrev pub ascon_kmaca : List ℕ → List ℕ → List ℕ → ℕ → List ℕ
ascon_kmaca = kmac xofa_flavour kmaca_iv

abbrev pub ascon_kmaca_init : List ℕ → List ℕ → ℕ → Xof
ascon_kmaca_init = kmac_init xofa_flavour kmaca_iv

abbrev pub ascon_kmaca_reinit : Xof → List ℕ → List ℕ → ℕ → Xof
ascon_kmaca_reinit st key custom outlen = kmac_init xofa_flavour kmaca_iv key custom outlen

abbrev pub ascon_kmaca_free : Xof → Xof
ascon_kmaca_free = free

abbrev pub ascon_kmaca_absorb : Xof → List ℕ → Xof
ascon_kmaca_absorb = absorb 4

abbrev pub ascon_kmaca_squeeze : Xof → ℕ → Squeezed
ascon_kmaca_squeeze = squeeze_a

-- src/kdf/ascon-kdfa.c
abbrev pub ascon_kdfa : List ℕ → List ℕ → ℕ → List ℕ
ascon_kdfa = kdf xofa_flavour

abbrev pub ascon_kdfa_init : List ℕ → List ℕ → ℕ → Xof
ascon_kdfa_init = kdf_init xofa_flavour

abbrev pub ascon_kdfa_reinit : Xof → List ℕ → List ℕ → ℕ → Xof
ascon_kdfa_reinit st key custom outlen = kdf_init xofa_flavour key custom outlen

abbrev pub ascon_kdfa_free : Xof → Xof
ascon_kdfa_free = free

abbrev pub ascon_kdfa_squeeze : Xof → ℕ → Squeezed
ascon_kdfa_squeeze = squeeze_a

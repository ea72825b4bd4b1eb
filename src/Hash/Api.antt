-- ===== src/Hash/Api.antt =====
-- The functions of src/hash: the shared text at the tables and rounds of XOF and XOFA.
use ascon_suite_tcc.Base.{ℕ, List, Option}
use ascon_suite_tcc.Hash.Xof.{
  Xof, Squeezed, hash_size, absorb, absorb_custom, pad, squeeze, squeeze_a,
}
use ascon_suite_tcc.Hash.Xof.Init.{
  xof_flavour, xofa_flavour, init, init_fixed, init_custom, hash_init, one_shot, hash, free, copy,
}

-- src/hash/ascon-xof.c
abbrev pub ascon_xof : List ℕ → List ℕ
ascon_xof = one_shot xof_flavour

abbrev pub ascon_xof_init : Xof
ascon_xof_init = init xof_flavour

abbrev pub ascon_xof_init_fixed : ℕ → Xof
ascon_xof_init_fixed = init_fixed xof_flavour

abbrev pub ascon_xof_init_custom : Option (List ℕ) → List ℕ → ℕ → Xof
ascon_xof_init_custom = init_custom xof_flavour

-- The three functions that start a state anew do not read it.
abbrev pub ascon_xof_reinit : Xof → Xof
ascon_xof_reinit st = init xof_flavour

abbrev pub ascon_xof_reinit_fixed : Xof → ℕ → Xof
ascon_xof_reinit_fixed st outlen = init_fixed xof_flavour outlen

abbrev pub ascon_xof_reinit_custom : Xof → Option (List ℕ) → List ℕ → ℕ → Xof
ascon_xof_reinit_custom st function_name custom outlen =
    init_custom xof_flavour function_name custom outlen

abbrev pub ascon_xof_free : Xof → Xof
ascon_xof_free = free

abbrev pub ascon_xof_absorb : Xof → List ℕ → Xof
ascon_xof_absorb = absorb 0

abbrev pub ascon_xof_absorb_custom : Xof → List ℕ → Xof
ascon_xof_absorb_custom = absorb_custom 0

abbrev pub ascon_xof_squeeze : Xof → ℕ → Squeezed
ascon_xof_squeeze = squeeze

abbrev pub ascon_xof_pad : Xof → Xof
ascon_xof_pad = pad 0

abbrev pub ascon_xof_copy : Xof → Xof → Xof
ascon_xof_copy = copy

-- src/hash/ascon-hash.c; the state is the one field `xof`.
abbrev pub ascon_hash : List ℕ → List ℕ
ascon_hash = hash xof_flavour

abbrev pub ascon_hash_init : Xof
ascon_hash_init = hash_init xof_flavour

abbrev pub ascon_hash_reinit : Xof → Xof
ascon_hash_reinit st = hash_init xof_flavour

abbrev pub ascon_hash_free : Xof → Xof
ascon_hash_free = free

abbrev pub ascon_hash_update : Xof → List ℕ → Xof
ascon_hash_update = absorb 0

abbrev pub ascon_hash_finalize : Xof → Squeezed
ascon_hash_finalize st = squeeze st hash_size

abbrev pub ascon_hash_copy : Xof → Xof → Xof
ascon_hash_copy = copy

-- src/hash/ascon-xofa.c
abbrev pub ascon_xofa : List ℕ → List ℕ
ascon_xofa = one_shot xofa_flavour

abbrev pub ascon_xofa_init : Xof
ascon_xofa_init = init xofa_flavour

abbrev pub ascon_xofa_init_fixed : ℕ → Xof
ascon_xofa_init_fixed = init_fixed xofa_flavour

abbrev pub ascon_xofa_init_custom : Option (List ℕ) → List ℕ → ℕ → Xof
ascon_xofa_init_custom = init_custom xofa_flavour

-- The three functions that start a state anew do not read it.
abbrev pub ascon_xofa_reinit : Xof → Xof
ascon_xofa_reinit st = init xofa_flavour

abbrev pub ascon_xofa_reinit_fixed : Xof → ℕ → Xof
ascon_xofa_reinit_fixed st outlen = init_fixed xofa_flavour outlen

abbrev pub ascon_xofa_reinit_custom : Xof → Option (List ℕ) → List ℕ → ℕ → Xof
ascon_xofa_reinit_custom st function_name custom outlen =
    init_custom xofa_flavour function_name custom outlen

abbrev pub ascon_xofa_free : Xof → Xof
ascon_xofa_free = free

abbrev pub ascon_xofa_absorb : Xof → List ℕ → Xof
ascon_xofa_absorb = absorb 4

abbrev pub ascon_xofa_absorb_custom : Xof → List ℕ → Xof
ascon_xofa_absorb_custom = absorb_custom 4

abbrev pub ascon_xofa_squeeze : Xof → ℕ → Squeezed
ascon_xofa_squeeze = squeeze_a

abbrev pub ascon_xofa_pad : Xof → Xof
ascon_xofa_pad = pad 4

abbrev pub ascon_xofa_copy : Xof → Xof → Xof
ascon_xofa_copy = copy

-- src/hash/ascon-hasha.c; the state is the one field `xof`.
abbrev pub ascon_hasha : List ℕ → List ℕ
ascon_hasha = hash xofa_flavour

abbrev pub ascon_hasha_init : Xof
ascon_hasha_init = hash_init xofa_flavour

abbrev pub ascon_hasha_reinit : Xof → Xof
ascon_hasha_reinit st = hash_init xofa_flavour

abbrev pub ascon_hasha_free : Xof → Xof
ascon_hasha_free = free

abbrev pub ascon_hasha_update : Xof → List ℕ → Xof
ascon_hasha_update = absorb 4

abbrev pub ascon_hasha_finalize : Xof → Squeezed
ascon_hasha_finalize st = squeeze_a st hash_size

abbrev pub ascon_hasha_copy : Xof → Xof → Xof
ascon_hasha_copy = copy

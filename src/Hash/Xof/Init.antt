-- ===== src/Hash/Xof/Init.antt =====
-- How a hash state is started: src/hash/ascon-xof.c, src/hash/ascon-xofa.c, src/hash/ascon-hash.c
-- and src/hash/ascon-hasha.c, in the branch of the direct XOR backend.
pub mod Laws
use ascon_suite_tcc.Base.{
  ℕ, ◌*◌, ◌-◌, ◌^◌, Option, none, some, bit_or, List, [], ◌∷◌, ◌++◌, ltb, leb, ◌==◌, if◌then◌else◌,
  length, replicate,
}
use ascon_suite_tcc.Core.Word.{be_store_word64}
use ascon_suite_tcc.Core.Permutation.{permute}
use ascon_suite_tcc.Core.Snp.{overwrite_bytes}
use ascon_suite_tcc.Core.Snp
use ascon_suite_tcc.Hash.Xof.{Xof, Squeezed, hash_size, absorb, absorb_custom, squeeze, squeeze_a}

-- the bytes of `iv` in `ascon_xof_init`, `ascon_hash_init`, `ascon_xofa_init`, `ascon_hasha_init`
abbrev pub xof_iv : List ℕ
xof_iv =
    0xb5 ∷ 0x7e ∷ 0x27 ∷ 0x3b ∷ 0x81 ∷ 0x4c ∷ 0xd4 ∷ 0x16 ∷ 0x2b ∷ 0x51 ∷ 0x04 ∷ 0x25 ∷ 0x62 ∷ 0xae
    ∷ 0x24 ∷ 0x20 ∷ 0x66 ∷ 0xa3 ∷ 0xa7 ∷ 0x76 ∷ 0x8d ∷ 0xdf ∷ 0x22 ∷ 0x18 ∷ 0x5a ∷ 0xad ∷ 0x0a
    ∷ 0x7a ∷ 0x81 ∷ 0x53 ∷ 0x65 ∷ 0x0c ∷ 0x4f ∷ 0x3e ∷ 0x0e ∷ 0x32 ∷ 0x53 ∷ 0x94 ∷ 0x93 ∷ 0xb6 ∷ []

abbrev pub hash_iv : List ℕ
hash_iv =
    0xee ∷ 0x93 ∷ 0x98 ∷ 0xaa ∷ 0xdb ∷ 0x67 ∷ 0xf0 ∷ 0x3d ∷ 0x8b ∷ 0xb2 ∷ 0x18 ∷ 0x31 ∷ 0xc6 ∷ 0x0f
    ∷ 0x10 ∷ 0x02 ∷ 0xb4 ∷ 0x8a ∷ 0x92 ∷ 0xdb ∷ 0x98 ∷ 0xd5 ∷ 0xda ∷ 0x62 ∷ 0x43 ∷ 0x18 ∷ 0x99
    ∷ 0x21 ∷ 0xb8 ∷ 0xf8 ∷ 0xe3 ∷ 0xe8 ∷ 0x34 ∷ 0x8f ∷ 0xa5 ∷ 0xc9 ∷ 0xd5 ∷ 0x25 ∷ 0xe1 ∷ 0x40 ∷ []

abbrev pub xofa_iv : List ℕ
xofa_iv =
    0x44 ∷ 0x90 ∷ 0x65 ∷ 0x68 ∷ 0xb7 ∷ 0x7b ∷ 0x98 ∷ 0x32 ∷ 0xcd ∷ 0x8d ∷ 0x6c ∷ 0xae ∷ 0x53 ∷ 0x45
    ∷ 0x55 ∷ 0x32 ∷ 0xf7 ∷ 0xb5 ∷ 0x21 ∷ 0x27 ∷ 0x56 ∷ 0x42 ∷ 0x21 ∷ 0x29 ∷ 0x24 ∷ 0x68 ∷ 0x85
    ∷ 0xe1 ∷ 0xde ∷ 0x0d ∷ 0x22 ∷ 0x5b ∷ 0xa8 ∷ 0xcb ∷ 0x5c ∷ 0xe3 ∷ 0x34 ∷ 0x49 ∷ 0x97 ∷ 0x3f ∷ []

abbrev pub hasha_iv : List ℕ
hasha_iv =
    0x01 ∷ 0x47 ∷ 0x01 ∷ 0x94 ∷ 0xfc ∷ 0x65 ∷ 0x28 ∷ 0xa6 ∷ 0x73 ∷ 0x8e ∷ 0xc3 ∷ 0x8a ∷ 0xc0 ∷ 0xad
    ∷ 0xff ∷ 0xa7 ∷ 0x2e ∷ 0xc8 ∷ 0xe3 ∷ 0x29 ∷ 0x6c ∷ 0x76 ∷ 0x38 ∷ 0x4c ∷ 0xd6 ∷ 0xf6 ∷ 0xa5
    ∷ 0x4d ∷ 0x7f ∷ 0x52 ∷ 0x37 ∷ 0x7d ∷ 0xa1 ∷ 0x3c ∷ 0x42 ∷ 0xa2 ∷ 0x23 ∷ 0xbe ∷ 0x8d ∷ 0x87 ∷ []

-- In what the two files differ.
pub record Flavour : Type 0 where
  pub iv : List ℕ
  pub fixed_iv : List ℕ
  pub iv_word : ℕ
  pub block_round : ℕ
  pub squeeze_call : Xof → ℕ → Squeezed

abbrev pub xof_flavour : Flavour
xof_flavour = record {
  iv = xof_iv;
  fixed_iv = hash_iv;
  iv_word = 0x00400c0000000000;
  block_round = 0;
  squeeze_call = squeeze;
}

abbrev pub xofa_flavour : Flavour
xofa_flavour = record {
  iv = xofa_iv;
  fixed_iv = hasha_iv;
  iv_word = 0x00400c0400000000;
  block_round = 4;
  squeeze_call = squeeze_a;
}

-- `if (outlen >= (((size_t)1) << 29)) outlen = 0;`
abbrev pub limit_outlen : ℕ → ℕ
limit_outlen outlen = if leb (2 ^ 29) outlen then 0 else outlen

-- `ascon_hash_init`, with its table, and the branch of `ascon_xof_init_fixed` with the same bytes
abbrev pub init_table : List ℕ → Xof
init_table iv = record { state = iv; count = 0; mode = 0 }

module _ (f : Flavour) where
  -- `ascon_xof_init` and `ascon_xofa_init`
  unfoldable pub init : Xof
  init = init_table f.iv

  -- the last branch of `ascon_xof_init_fixed`
  unfoldable pub init_permuted : ℕ → Xof
  init_permuted outlen =
      let iv = be_store_word64 (bit_or f.iv_word (outlen * 8)) in
      record { state = permute (overwrite_bytes Snp.init iv 0) 0; count = 0; mode = 0 }

  -- `ascon_xof_init_fixed` and `ascon_xofa_init_fixed`
  unfoldable pub init_fixed : ℕ → Xof
  init_fixed outlen =
      let outlen' = limit_outlen outlen in
      if outlen' == 0
      then init
      else if outlen' == 32
      then init_table f.fixed_iv
      else init_permuted outlen'

  -- `ascon_hash_init` and `ascon_hasha_init`
  unfoldable pub hash_init : Xof
  hash_init = init_table f.fixed_iv

  -- `ascon_xof` and `ascon_xofa`
  unfoldable pub one_shot : List ℕ → List ℕ
  one_shot in' = (f.squeeze_call (absorb f.block_round init in') hash_size).out

  -- `ascon_hash` and `ascon_hasha`
  unfoldable pub hash : List ℕ → List ℕ
  hash in' = (f.squeeze_call (absorb f.block_round hash_init in') hash_size).out

  -- The 32 bytes of `temp` for the function name, which is the bytes in front of its NUL.
  unfoldable pub format_name : Option (List ℕ) → List ℕ
  format_name none = replicate hash_size 0
  format_name (some name) =
      let fixed = init_fixed hash_size in
      let digest = f.squeeze_call (absorb f.block_round fixed name) hash_size in
      if length name == 0
      then replicate hash_size 0
      else if leb (length name) 32
      then name ++ replicate (hash_size - length name) 0
      else digest.out

  -- `ascon_xof_init_custom` and `ascon_xofa_init_custom`
  unfoldable pub init_custom : Option (List ℕ) → List ℕ → ℕ → Xof
  init_custom function_name custom outlen =
      let temp = format_name function_name in
      let iv = be_store_word64 (bit_or f.iv_word (limit_outlen outlen * 8)) in
      let named = overwrite_bytes Snp.init temp 8 in
      let s = permute (overwrite_bytes named iv 0) 0 in
      absorb_custom f.block_round (record { state = s; count = 0; mode = 0 }) custom

-- `ascon_xof_free`, which clears the state
abbrev pub free : Xof → Xof
free st = record { state = Snp.init; count = 0; mode = 0 }

-- `ascon_xof_copy`; a copy of a state to itself leaves it.
abbrev pub copy : Xof → Xof → Xof
copy dest src = record { state = src.state; count = src.count; mode = src.mode }

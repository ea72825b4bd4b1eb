-- ===== src/Hash/Xof/Init/Laws.antt =====
-- The tables of the initial states are the permuted initial blocks.
use ascon_suite_tcc.Base.{ℕ, ◌≡◌, refl, sym, ap, ◌∙◌, ◌==◌, ==_iff, Bool-cases, inl, inr}
use ascon_suite_tcc.Core.Word.{be_store_word64}
use ascon_suite_tcc.Core.Permutation.{permute}
use ascon_suite_tcc.Core.Snp.{overwrite_bytes}
use ascon_suite_tcc.Hash.Xof.Init.{
  Flavour, xof_flavour, xofa_flavour, limit_outlen, init, init_permuted, init_fixed, hash_init,
}

xof_table : init xof_flavour ≡ init_permuted xof_flavour 0
unfolding init init_permuted be_store_word64 permute overwrite_bytes
xof_table = refl

hash_table : hash_init xof_flavour ≡ init_permuted xof_flavour 32
unfolding hash_init init_permuted be_store_word64 permute overwrite_bytes
hash_table = refl

xofa_table : init xofa_flavour ≡ init_permuted xofa_flavour 0
unfolding init init_permuted be_store_word64 permute overwrite_bytes
xofa_table = refl

hasha_table : hash_init xofa_flavour ≡ init_permuted xofa_flavour 32
unfolding hash_init init_permuted be_store_word64 permute overwrite_bytes
hasha_table = refl

-- A flavour whose tables are right needs no branches.
fixed_lem :
    (f : Flavour) (outlen : ℕ)
    → init f ≡ init_permuted f 0
    → hash_init f ≡ init_permuted f 32
    → init_fixed f outlen ≡ init_permuted f (limit_outlen outlen)
unfolding init_fixed hash_init
fixed_lem f outlen any fixed =
    let n = limit_outlen outlen in
    elim (Bool-cases (n == 0)) [
      | inl e ↦ rw e (any ∙ ap (init_permuted f) (sym ((==_iff n 0).0 e)))
      | inr e ↦ rw e (elim (Bool-cases (n == 32)) [
        | inl e' ↦ rw e' (fixed ∙ ap (init_permuted f) (sym ((==_iff n 32).0 e')))
        | inr e' ↦ rw e' refl
      ])
    ]

-- For every output length, the states that start XOF and XOFA are the initial block of the
-- length, permuted, where a length of `2 ^ 29` or more counts as 0; the states that start HASH
-- and HASHA are those of the length 32, and the tables of XOF and XOFA those of the length 0.
pub init_fixed_lem :
    (outlen : ℕ)
    → (init_fixed xof_flavour outlen ≡ init_permuted xof_flavour (limit_outlen outlen))
      × (init_fixed xofa_flavour outlen ≡ init_permuted xofa_flavour (limit_outlen outlen))
      × (hash_init xof_flavour ≡ init_permuted xof_flavour 32)
      × (hash_init xofa_flavour ≡ init_permuted xofa_flavour 32)
      × (init xof_flavour ≡ init_permuted xof_flavour 0)
      × (init xofa_flavour ≡ init_permuted xofa_flavour 0)
init_fixed_lem outlen = (
  fixed_lem xof_flavour outlen xof_table hash_table,
  fixed_lem xofa_flavour outlen xofa_table hasha_table,
  hash_table,
  hasha_table,
  xof_table,
  xofa_table,
)

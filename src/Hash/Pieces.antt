-- ===== src/Hash/Pieces.antt =====
-- The hash functions of src/hash/ascon-hash.c and src/hash/ascon-hasha.c, updated in pieces.
use ascon_suite_tcc.Base.{ℕ, ◌≡◌, refl, arith, List}
use ascon_suite_tcc.Aead.Incremental.Packet.{flatten}
use ascon_suite_tcc.Hash.Xof.Init.{xof_flavour, xofa_flavour, hash_init, hash}
use ascon_suite_tcc.Hash.Xof.Pieces.{absorb_pieces, absorb_pieces_lem}
use ascon_suite_tcc.Hash.Api.{
  ascon_hash, ascon_hash_init, ascon_hash_finalize, ascon_hasha, ascon_hasha_init,
  ascon_hasha_finalize,
}

-- For both hash functions, a message that is given to updates in any pieces is finalized to the
-- digest that the one-shot function gives of the whole message.
hash_pieces :
    (xs : List (List ℕ))
    → ((ascon_hash_finalize (absorb_pieces 0 ascon_hash_init xs)).out ≡ ascon_hash (flatten xs))
      × ((ascon_hasha_finalize (absorb_pieces 4 ascon_hasha_init xs)).out
          ≡ ascon_hasha (flatten xs))
unfolding hash hash_init
hash_pieces xs = (
  rw (absorb_pieces_lem 0 (hash_init xof_flavour) xs (omega arith, refl)) refl,
  rw (absorb_pieces_lem 4 (hash_init xofa_flavour) xs (omega arith, refl)) refl,
)

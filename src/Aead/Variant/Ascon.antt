-- ===== src/Aead/Variant/Ascon.antt =====
-- The three variants of src/aead.
pub mod Laws
use ascon_suite_tcc.Base.{ℕ, List, [], ◌∷◌, take, drop}
use ascon_suite_tcc.Core.Permutation.{permute}
use ascon_suite_tcc.Core.Snp.{State, xor_block, overwrite_bytes}

-- `ASCON128_IV`, `ASCON128a_IV` and `ASCON80PQ_IV`
abbrev pub ascon128_iv : List ℕ
ascon128_iv = 0x80 ∷ 0x40 ∷ 0x0c ∷ 0x06 ∷ 0x00 ∷ 0x00 ∷ 0x00 ∷ 0x00 ∷ []

abbrev pub ascon128a_iv : List ℕ
ascon128a_iv = 0x80 ∷ 0x80 ∷ 0x0c ∷ 0x08 ∷ 0x00 ∷ 0x00 ∷ 0x00 ∷ 0x00 ∷ []

abbrev pub ascon80pq_iv : List ℕ
ascon80pq_iv = 0xa0 ∷ 0x40 ∷ 0x0c ∷ 0x06 ∷ []

-- `take n k` stands for the first n bytes at the pointer `k`.
unfoldable pub load_128 : State → List ℕ → List ℕ → State
load_128 s k npub =
    overwrite_bytes (overwrite_bytes (overwrite_bytes s ascon128_iv 0) (take 16 k) 8) (take 16 npub)
      24

unfoldable pub load_128a : State → List ℕ → List ℕ → State
load_128a s k npub =
    overwrite_bytes (overwrite_bytes (overwrite_bytes s ascon128a_iv 0) (take 16 k) 8)
      (take 16 npub) 24

unfoldable pub load_80pq : State → List ℕ → List ℕ → State
load_80pq s k npub =
    overwrite_bytes (overwrite_bytes (overwrite_bytes s ascon80pq_iv 0) (take 20 k) 4)
      (take 16 npub) 24

unfoldable pub setup_128 : State → List ℕ → List ℕ → State
setup_128 s k npub = xor_block (permute (load_128 s k npub) 0) (take 16 k) 24

unfoldable pub setup_128a : State → List ℕ → List ℕ → State
setup_128a s k npub = xor_block (permute (load_128a s k npub) 0) (take 16 k) 24

unfoldable pub setup_80pq : State → List ℕ → List ℕ → State
setup_80pq s k npub = xor_block (permute (load_80pq s k npub) 0) (take 20 k) 20

unfoldable pub close_128 : State → List ℕ → State
close_128 s k = xor_block (permute (xor_block s (take 16 k) 8) 0) (take 16 k) 24

unfoldable pub close_128a : State → List ℕ → State
close_128a s k = xor_block (permute (xor_block s (take 16 k) 16) 0) (take 16 k) 24

unfoldable pub close_80pq : State → List ℕ → State
close_80pq s k = xor_block (permute (xor_block s (take 20 k) 8) 0) (take 16 (drop 4 k)) 24

-- ===== src/Siv/Init.antt =====
-- How the three SIV variants load the state: `ascon*_siv_init`.
use ascon_suite_tcc.Base.{ℕ, ◌+◌, ◌++◌, ◌≡◌, refl, arith, List, [], ◌∷◌, take, length}
use ascon_suite_tcc.Base.Slices.{take_all}
use ascon_suite_tcc.Base.Bytes.{IsBytes, take-IsBytes}
use ascon_suite_tcc.Core.Permutation.{permute}
use ascon_suite_tcc.Core.Snp.{State, init, xor_block, overwrite_bytes}
use ascon_suite_tcc.Core.Snp.Bounds.{IsState, permute-IsState, xor_block-IsState}
use ascon_suite_tcc.Core.Snp.Overwrite.{fill_state}
use ascon_suite_tcc.Aead.Variant.Ascon.Laws.{ascon128, ascon128a, ascon80pq}
use ascon_suite_tcc.Siv.{SivVariant}

-- `ASCON128_IV1` and `ASCON128_IV2`, and those of the other two files
abbrev pub siv128_iv1 : List ℕ
siv128_iv1 = 0x81 ∷ 0x40 ∷ 0x0c ∷ 0x06 ∷ 0x00 ∷ 0x00 ∷ 0x00 ∷ 0x00 ∷ []

abbrev pub siv128_iv2 : List ℕ
siv128_iv2 = 0x82 ∷ 0x40 ∷ 0x0c ∷ 0x06 ∷ 0x00 ∷ 0x00 ∷ 0x00 ∷ 0x00 ∷ []

abbrev pub siv128a_iv1 : List ℕ
siv128a_iv1 = 0x81 ∷ 0x80 ∷ 0x0c ∷ 0x08 ∷ 0x00 ∷ 0x00 ∷ 0x00 ∷ 0x00 ∷ []

abbrev pub siv128a_iv2 : List ℕ
siv128a_iv2 = 0x82 ∷ 0x80 ∷ 0x0c ∷ 0x08 ∷ 0x00 ∷ 0x00 ∷ 0x00 ∷ 0x00 ∷ []

abbrev pub siv80pq_iv1 : List ℕ
siv80pq_iv1 = 0xa1 ∷ 0x40 ∷ 0x0c ∷ 0x06 ∷ []

abbrev pub siv80pq_iv2 : List ℕ
siv80pq_iv2 = 0xa2 ∷ 0x40 ∷ 0x0c ∷ 0x06 ∷ []

-- `ascon_init` and the three overwriting calls, for an IV of `ivlen` bytes and a key of `keylen`
unfoldable pub siv_load : List ℕ → ℕ → ℕ → State → List ℕ → List ℕ → State
siv_load iv ivlen keylen s k npub =
    overwrite_bytes (overwrite_bytes (overwrite_bytes s iv 0) (take keylen k) ivlen) (take 16 npub)
      24

-- `ascon128_siv_init` and `ascon128a_siv_init`
unfoldable pub siv_init_128 : List ℕ → State → List ℕ → List ℕ → State
siv_init_128 iv s k npub = xor_block (permute (siv_load iv 8 16 s k npub) 0) (take 16 k) 24

-- `ascon80pq_siv_init`
unfoldable pub siv_init_80pq : List ℕ → State → List ℕ → List ℕ → State
siv_init_80pq iv s k npub = xor_block (permute (siv_load iv 4 20 s k npub) 0) (take 20 k) 20

siv_load_lem :
    (iv : List ℕ) (ivlen keylen : ℕ) (s k npub : List ℕ)
    → length iv ≡ ivlen
    → ivlen + keylen ≡ 24
    → length s ≡ 40
    → length k ≡ keylen
    → length npub ≡ 16
    → siv_load iv ivlen keylen s k npub ≡ iv ++ (k ++ npub)
unfolding siv_load
siv_load_lem iv ivlen keylen s k npub hv e h hk hn =
    rw (take_all k keylen (omega arith), take_all npub 16 (omega arith))
      (fill_state s iv k npub ivlen 24 h hv (omega arith) (omega arith))

pub siv_init_128-IsState :
    (iv : List ℕ) (s : State) (k npub : List ℕ) → IsBytes k → IsState (siv_init_128 iv s k npub)
unfolding siv_init_128
siv_init_128-IsState iv s k npub h =
    xor_block-IsState _ (take 16 k) 24 (permute-IsState _ 0) (take-IsBytes 16 k h)

pub siv_init_80pq-IsState :
    (iv : List ℕ) (s : State) (k npub : List ℕ) → IsBytes k → IsState (siv_init_80pq iv s k npub)
unfolding siv_init_80pq
siv_init_80pq-IsState iv s k npub h =
    xor_block-IsState _ (take 20 k) 20 (permute-IsState _ 0) (take-IsBytes 20 k h)

pub siv_init_128_fresh :
    (iv : List ℕ) (s : State) (k npub : List ℕ)
    → length iv ≡ 8
    → length s ≡ 40
    → length k ≡ 16
    → length npub ≡ 16
    → siv_init_128 iv s k npub ≡ siv_init_128 iv init k npub
unfolding siv_init_128
siv_init_128_fresh iv s k npub hv h hk hn = rw (
  siv_load_lem iv 8 16 s k npub hv (omega arith) h hk hn,
  siv_load_lem iv 8 16 init k npub hv (omega arith) refl hk hn,
)

pub siv_init_80pq_fresh :
    (iv : List ℕ) (s : State) (k npub : List ℕ)
    → length iv ≡ 4
    → length s ≡ 40
    → length k ≡ 20
    → length npub ≡ 16
    → siv_init_80pq iv s k npub ≡ siv_init_80pq iv init k npub
unfolding siv_init_80pq
siv_init_80pq_fresh iv s k npub hv h hk hn = rw (
  siv_load_lem iv 4 20 s k npub hv (omega arith) h hk hn,
  siv_load_lem iv 4 20 init k npub hv (omega arith) refl hk hn,
)

-- The variants: the interface of src/aead with the IV of the authentication phase, and the set-up
-- with the IV of the encryption phase.
abbrev pub siv128 : SivVariant
siv128 = record {
  auth = record ascon128 {
    setup = siv_init_128 siv128_iv1;
    setup_state = siv_init_128-IsState siv128_iv1;
    setup_fresh = λ s k npub. siv_init_128_fresh siv128_iv1 s k npub refl;
  };
  setup2 = siv_init_128 siv128_iv2;
}

abbrev pub siv128a : SivVariant
siv128a = record {
  auth = record ascon128a {
    setup = siv_init_128 siv128a_iv1;
    setup_state = siv_init_128-IsState siv128a_iv1;
    setup_fresh = λ s k npub. siv_init_128_fresh siv128a_iv1 s k npub refl;
  };
  setup2 = siv_init_128 siv128a_iv2;
}

abbrev pub siv80pq : SivVariant
siv80pq = record {
  auth = record ascon80pq {
    setup = siv_init_80pq siv80pq_iv1;
    setup_state = siv_init_80pq-IsState siv80pq_iv1;
    setup_fresh = λ s k npub. siv_init_80pq_fresh siv80pq_iv1 s k npub refl;
  };
  setup2 = siv_init_80pq siv80pq_iv2;
}

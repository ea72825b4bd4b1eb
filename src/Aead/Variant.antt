-- ===== src/Aead/Variant.antt =====
-- What ASCON-128, ASCON-128a and ASCON-80pq do differently: the rate and the rounds, how the key
-- and the nonce are loaded, and how the tag is made. The code repeats this text in
-- src/aead/ascon-aead-{128,128a,80pq}.c and in the incremental ascon-aead-inc-{128,128a,80pq}.c.
pub mod Ascon
use ascon_suite_tcc.Base.{ℕ, ◌<◌, ◌≡◌, List, length}
use ascon_suite_tcc.Base.Bytes.{IsBytes}
use ascon_suite_tcc.Core.Snp.{State, init, squeeze}
use ascon_suite_tcc.Core.Snp.Bounds.{IsState, length-squeeze, squeeze-IsBytes}

pub record Variant : Type 0 where
  pub key_size : ℕ
  pub rate : ℕ
  pub first_round : ℕ
  -- from `ascon_overwrite_bytes` of the IV to the second use of the key, on a given state
  pub setup : State → List ℕ → List ℕ → State
  -- from behind `ascon_pad` to where the tag is taken
  pub close : State → List ℕ → State
  pub rate_pos : 0 < rate
  pub rate_small : rate < 256
  pub setup_state : (s : State) (k npub : List ℕ) → IsBytes k → IsState (setup s k npub)
  -- the state that `setup` starts from is overwritten as a whole
  pub setup_fresh :
      (s : State) (k npub : List ℕ)
      → length s ≡ 40
      → length k ≡ key_size
      → length npub ≡ 16
      → setup s k npub ≡ setup init k npub
  pub close_state : (s : State) (k : List ℕ) → IsBytes k → IsState (close s k)

-- The tag: 16 bytes at position 24, by `ascon_squeeze_16` or `ascon_squeeze_partial`.
abbrev pub finish : Variant → State → List ℕ → List ℕ
finish v s k = squeeze (v.close s k) 24 16

pub length-finish : (v : Variant) (s : State) (k : List ℕ) → length (finish v s k) ≡ 16
length-finish v s k = length-squeeze (v.close s k) 24 16

pub finish-IsBytes : (v : Variant) (s : State) (k : List ℕ) → IsBytes k → IsBytes (finish v s k)
finish-IsBytes v s k h = squeeze-IsBytes (v.close s k) 24 16 (v.close_state s k h)

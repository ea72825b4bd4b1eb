-- ===== src/Aead/Variant/Ascon/Laws.antt =====
-- The variants keep the laws of the interface, and load IV, key and nonce side by side.

use ascon_suite_tcc.Base.{ℕ, ◌<◌, ◌≡◌, refl, arith, List, ◌++◌, take, drop, length}
use ascon_suite_tcc.Base.Slices.{take_all}
use ascon_suite_tcc.Base.Bytes.{IsBytes, take-IsBytes, drop-IsBytes}
use ascon_suite_tcc.Core.Permutation.{permute}
use ascon_suite_tcc.Core.Snp.{State, init, xor_block}
use ascon_suite_tcc.Core.Snp.Bounds.{IsState, permute-IsState, xor_block-IsState}
use ascon_suite_tcc.Core.Snp.Overwrite.{fill_state}
use ascon_suite_tcc.Aead.Variant.{Variant}
use ascon_suite_tcc.Aead.Variant.Ascon.{
  ascon128_iv, ascon128a_iv, ascon80pq_iv, load_128, load_128a, load_80pq, setup_128, setup_128a,
  setup_80pq, close_128, close_128a, close_80pq,
}

pub load_128-eq :
    (s k npub : List ℕ)
    → length s ≡ 40
    → length k ≡ 16
    → length npub ≡ 16
    → load_128 s k npub ≡ ascon128_iv ++ (k ++ npub)
unfolding load_128
load_128-eq s k npub h hk hn =
    rw (take_all k 16 (omega arith), take_all npub 16 (omega arith))
      (fill_state s ascon128_iv k npub 8 24 h refl (omega arith) (omega arith))

pub load_128a-eq :
    (s k npub : List ℕ)
    → length s ≡ 40
    → length k ≡ 16
    → length npub ≡ 16
    → load_128a s k npub ≡ ascon128a_iv ++ (k ++ npub)
unfolding load_128a
load_128a-eq s k npub h hk hn =
    rw (take_all k 16 (omega arith), take_all npub 16 (omega arith))
      (fill_state s ascon128a_iv k npub 8 24 h refl (omega arith) (omega arith))

pub load_80pq-eq :
    (s k npub : List ℕ)
    → length s ≡ 40
    → length k ≡ 20
    → length npub ≡ 16
    → load_80pq s k npub ≡ ascon80pq_iv ++ (k ++ npub)
unfolding load_80pq
load_80pq-eq s k npub h hk hn =
    rw (take_all k 20 (omega arith), take_all npub 16 (omega arith))
      (fill_state s ascon80pq_iv k npub 4 24 h refl (omega arith) (omega arith))

absorbed-IsState :
    (s : State) (k : List ℕ) (n offset : ℕ)
    → IsBytes k
    → IsState (xor_block (permute s 0) (take n k) offset)
absorbed-IsState s k n offset h =
    xor_block-IsState (permute s 0) (take n k) offset (permute-IsState s 0) (take-IsBytes n k h)

pub setup_128-IsState : (s : State) (k npub : List ℕ) → IsBytes k → IsState (setup_128 s k npub)
unfolding setup_128
setup_128-IsState s k npub h = absorbed-IsState (load_128 s k npub) k 16 24 h

pub setup_128_fresh :
    (s : State) (k npub : List ℕ)
    → length s ≡ 40
    → length k ≡ 16
    → length npub ≡ 16
    → setup_128 s k npub ≡ setup_128 init k npub
unfolding setup_128
setup_128_fresh s k npub h hk hn =
    rw (load_128-eq s k npub h hk hn, load_128-eq init k npub refl hk hn)

pub close_128-IsState : (s : State) (k : List ℕ) → IsBytes k → IsState (close_128 s k)
unfolding close_128
close_128-IsState s k h = absorbed-IsState _ k 16 24 h

pub setup_128a-IsState : (s : State) (k npub : List ℕ) → IsBytes k → IsState (setup_128a s k npub)
unfolding setup_128a
setup_128a-IsState s k npub h = absorbed-IsState (load_128a s k npub) k 16 24 h

pub setup_128a_fresh :
    (s : State) (k npub : List ℕ)
    → length s ≡ 40
    → length k ≡ 16
    → length npub ≡ 16
    → setup_128a s k npub ≡ setup_128a init k npub
unfolding setup_128a
setup_128a_fresh s k npub h hk hn =
    rw (load_128a-eq s k npub h hk hn, load_128a-eq init k npub refl hk hn)

pub close_128a-IsState : (s : State) (k : List ℕ) → IsBytes k → IsState (close_128a s k)
unfolding close_128a
close_128a-IsState s k h = absorbed-IsState _ k 16 24 h

pub setup_80pq-IsState : (s : State) (k npub : List ℕ) → IsBytes k → IsState (setup_80pq s k npub)
unfolding setup_80pq
setup_80pq-IsState s k npub h = absorbed-IsState (load_80pq s k npub) k 20 20 h

pub setup_80pq_fresh :
    (s : State) (k npub : List ℕ)
    → length s ≡ 40
    → length k ≡ 20
    → length npub ≡ 16
    → setup_80pq s k npub ≡ setup_80pq init k npub
unfolding setup_80pq
setup_80pq_fresh s k npub h hk hn =
    rw (load_80pq-eq s k npub h hk hn, load_80pq-eq init k npub refl hk hn)

pub close_80pq-IsState : (s : State) (k : List ℕ) → IsBytes k → IsState (close_80pq s k)
unfolding close_80pq
close_80pq-IsState s k h = absorbed-IsState _ (drop 4 k) 16 24 (drop-IsBytes 4 k h)

pub rate_pos_8 : 0 < 8
rate_pos_8 = omega arith

pub rate_small_8 : 8 < 256
rate_small_8 = omega arith

pub rate_pos_16 : 0 < 16
rate_pos_16 = omega arith

pub rate_small_16 : 16 < 256
rate_small_16 = omega arith

-- The variants. The rounds of a block are 6 or 8: the permutation starts at round 6 or 4.
abbrev pub ascon128 : Variant
ascon128 = record {
  key_size = 16;
  rate = 8;
  first_round = 6;
  setup = setup_128;
  close = close_128;
  rate_pos = rate_pos_8;
  rate_small = rate_small_8;
  setup_state = setup_128-IsState;
  setup_fresh = setup_128_fresh;
  close_state = close_128-IsState;
}

abbrev pub ascon128a : Variant
ascon128a = record {
  key_size = 16;
  rate = 16;
  first_round = 4;
  setup = setup_128a;
  close = close_128a;
  rate_pos = rate_pos_16;
  rate_small = rate_small_16;
  setup_state = setup_128a-IsState;
  setup_fresh = setup_128a_fresh;
  close_state = close_128a-IsState;
}

abbrev pub ascon80pq : Variant
ascon80pq = record {
  key_size = 20;
  rate = 8;
  first_round = 6;
  setup = setup_80pq;
  close = close_80pq;
  rate_pos = rate_pos_8;
  rate_small = rate_small_8;
  setup_state = setup_80pq-IsState;
  setup_fresh = setup_80pq_fresh;
  close_state = close_80pq-IsState;
}

-- For a state of 40 bytes and keys and a nonce of their lengths: what each variant puts into the
-- state before its first permutation is its IV, the key and the nonce, side by side.
load_lem :
    (s k k80 npub : List ℕ)
    → length s ≡ 40
    → length k ≡ 16
    → length k80 ≡ 20
    → length npub ≡ 16
    → (load_128 s k npub ≡ ascon128_iv ++ (k ++ npub))
      × (load_128a s k npub ≡ ascon128a_iv ++ (k ++ npub))
      × (load_80pq s k80 npub ≡ ascon80pq_iv ++ (k80 ++ npub))
load_lem s k k80 npub h hk hk80 hn =
    (load_128-eq s k npub h hk hn, load_128a-eq s k npub h hk hn, load_80pq-eq s k80 npub h hk80 hn)

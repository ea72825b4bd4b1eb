-- ===== src/Core/Snp/Bounds.antt =====
-- The shape of the state, 40 bytes, which every primitive keeps.
use ascon_suite_tcc.Base.{
  ℕ, zero, suc, ◌+◌, ◌<◌, ◌≡◌, refl, ◌∙◌, ap, arith, bit_xor, List, [], ◌∷◌, length, get_or, set,
  length-set, ltb, Bool-cases, inl, inr,
}
use ascon_suite_tcc.Base.Bytes.{IsBytes, get_or-lt, set-IsBytes, xor-byte}
use ascon_suite_tcc.Core.Permutation.{permute, store_words}
use ascon_suite_tcc.Core.Word.{be_store_word64}
use ascon_suite_tcc.Core.Snp.{
  State, init, xor_block, squeeze, encrypt_byte, decrypt_byte, pad, separator, overwrite_bytes,
}

pub record IsState (s : State) : Type 0 where
  pub forty : length s ≡ 40
  pub bytes : IsBytes s

pub init-IsState : IsState init
init-IsState = record { forty = refl; bytes = omega arith }

-- The permutation leaves 40 bytes whatever it is given.
pub permute-IsState : (s : State) (first_round : ℕ) → IsState (permute s first_round)
unfolding permute store_words be_store_word64
permute-IsState s first_round = record { forty = refl; bytes = omega arith }

set-IsState : (s : State) (i v : ℕ) → IsState s → v < 256 → IsState (set s i v)
set-IsState s i v h k = record {
  forty = length-set s i v ∙ h.forty;
  bytes = set-IsBytes s i v h.bytes k;
}

-- A byte combined with a byte of the state is a byte.
pub combined-lt : (s : State) (i b : ℕ) → IsState s → b < 256 → bit_xor (get_or s i 0) b < 256
combined-lt s i b h k = xor-byte (get_or s i 0) b (get_or-lt s i h.bytes) k

pub xor_block-IsState :
    (s : State) (src : List ℕ) (offset : ℕ)
    → IsState s
    → IsBytes src
    → IsState (xor_block s src offset)
unfolding xor_block
xor_block-IsState s [] offset h k = h
xor_block-IsState s (b ∷ src) offset h k =
    xor_block-IsState (set s offset (bit_xor (get_or s offset 0) b)) src (offset + 1)
      (set-IsState s offset (bit_xor (get_or s offset 0) b) h (combined-lt s offset b h k.0)) k.1

pub overwrite_bytes-IsState :
    (s : State) (src : List ℕ) (offset : ℕ)
    → IsState s
    → IsBytes src
    → IsState (overwrite_bytes s src offset)
unfolding overwrite_bytes
overwrite_bytes-IsState s [] offset h k = h
overwrite_bytes-IsState s (b ∷ src) offset h k = elim (Bool-cases (ltb offset 40)) [
  | inl inside ↦
      rw inside (
        overwrite_bytes-IsState (set s offset b) src (offset + 1) (set-IsState s offset b h k.0)
          k.1)
  | inr past ↦ rw past h
]

pub encrypt_byte-IsState :
    (s : State) (p b : ℕ) → IsState s → b < 256 → IsState (encrypt_byte s p b).0
unfolding encrypt_byte
encrypt_byte-IsState s p b h k =
    set-IsState s p (bit_xor (get_or s p 0) b) h (combined-lt s p b h k)

pub encrypt_byte-lt : (s : State) (p b : ℕ) → IsState s → b < 256 → (encrypt_byte s p b).1 < 256
unfolding encrypt_byte
encrypt_byte-lt s p b h k = combined-lt s p b h k

pub decrypt_byte-IsState :
    (s : State) (p b : ℕ) → IsState s → b < 256 → IsState (decrypt_byte s p b).0
unfolding decrypt_byte
decrypt_byte-IsState s p b h k = set-IsState s p b h k

pub decrypt_byte-lt : (s : State) (p b : ℕ) → IsState s → b < 256 → (decrypt_byte s p b).1 < 256
unfolding decrypt_byte
decrypt_byte-lt s p b h k = combined-lt s p b h k

pub pad-IsState : (s : State) (p : ℕ) → IsState s → IsState (pad s p)
unfolding pad
pad-IsState s p h =
    set-IsState s p (bit_xor (get_or s p 0) 0x80) h (combined-lt s p 0x80 h (omega arith))

pub separator-IsState : (s : State) → IsState s → IsState (separator s)
unfolding separator
separator-IsState s h =
    set-IsState s 39 (bit_xor (get_or s 39 0) 1) h (combined-lt s 39 1 h (omega arith))

pub length-squeeze : (s : State) (offset count : ℕ) → length (squeeze s offset count) ≡ count
unfolding squeeze
length-squeeze s offset zero = refl
length-squeeze s offset (suc count) = ap suc (length-squeeze s (offset + 1) count)

pub squeeze-IsBytes : (s : State) (offset count : ℕ) → IsState s → IsBytes (squeeze s offset count)
unfolding squeeze
squeeze-IsBytes s offset zero h = tt
squeeze-IsBytes s offset (suc count) h =
    (get_or-lt s offset h.bytes, squeeze-IsBytes s (offset + 1) count h)

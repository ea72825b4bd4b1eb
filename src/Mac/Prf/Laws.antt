-- ===== src/Mac/Prf/Laws.antt =====
-- PRF in pieces is PRF in one call, and the MAC accepts exactly its own tags.

use ascon_suite_tcc.Base.{
  ℕ, ◌<◌, ◌≡◌, ◌≢◌, ◌⊎◌, refl, sym, ap, ◌∙◌, inl, inr, List, [], ◌∷◌, ◌++◌, append-nil, length,
  take, arith,
}
use ascon_suite_tcc.Base.Bytes.{IsBytes}
use ascon_suite_tcc.Base.Slices.{take_all}
use ascon_suite_tcc.Core.Permutation.{permute}
use ascon_suite_tcc.Core.Snp.{State, encrypt_byte, separator}
use ascon_suite_tcc.Core.Snp
use ascon_suite_tcc.Core.Snp.Bounds.{permute-IsState, length-squeeze, squeeze-IsBytes}
use ascon_suite_tcc.Aead.Tag.{minus_one, check_tag}
use ascon_suite_tcc.Aead.Tag.Laws.{check_tag_cases}
use ascon_suite_tcc.Aead.Stream.{stream}
use ascon_suite_tcc.Aead.Stream.Bounds.{stream_posn}
use ascon_suite_tcc.Aead.Incremental.Packet.{flatten}
use ascon_suite_tcc.Hash.Xof.{Xof, squeeze_left_over, squeeze_aligned, squeeze_blocks}
use ascon_suite_tcc.Hash.Xof.Sponge.{sponge_absorb-eq-stream, sponge_absorb-append}
use ascon_suite_tcc.Mac.Prf.{
  ascon_prf_fixed_init, ascon_prf_absorb, ascon_prf_squeeze, ascon_prf, ascon_prf_fixed, ascon_mac,
  ascon_mac_verify,
}

-- One call for each piece.
unfoldable pub prf_pieces : Xof → List (List ℕ) → Xof
prf_pieces st [] = st
prf_pieces st (x ∷ xs) = prf_pieces (ascon_prf_absorb st x) xs

abbrev IsOpen : Xof → Type 0
IsOpen st = (st.count < 32) × (st.mode ≡ 0)

absorb-IsOpen : (st : Xof) (src : List ℕ) → IsOpen st → IsOpen (ascon_prf_absorb st src)
unfolding ascon_prf_absorb
absorb-IsOpen st src h =
    rw (sponge_absorb-eq-stream 32 0 (omega arith) st src h.0, h.1)
      (stream_posn 32 0 encrypt_byte st.state src st.count h.0, refl)

absorb_nothing : (st : Xof) → IsOpen st → ascon_prf_absorb st [] ≡ st
unfolding ascon_prf_absorb stream
absorb_nothing st h = sponge_absorb-eq-stream 32 0 (omega arith) st [] h.0 ∙ rw h.1 refl

ascon_prf_absorb-append :
    (st : Xof) (xs ys : List ℕ)
    → st.count < 32
    → ascon_prf_absorb (ascon_prf_absorb st xs) ys ≡ ascon_prf_absorb st (xs ++ ys)
unfolding ascon_prf_absorb
ascon_prf_absorb-append st xs ys h = sponge_absorb-append 32 0 (omega arith) st xs ys h

pieces_lem :
    (st : Xof) (xs : List (List ℕ))
    → IsOpen st
    → prf_pieces st xs ≡ ascon_prf_absorb st (flatten xs)
unfolding prf_pieces flatten
pieces_lem st [] h = sym (absorb_nothing st h)
pieces_lem st (x ∷ xs) h =
    pieces_lem (ascon_prf_absorb st x) xs (absorb-IsOpen st x h)
    ∙ ascon_prf_absorb-append st x (flatten xs) h.0

init-IsOpen : (key : List ℕ) (outlen : ℕ) → IsOpen (ascon_prf_fixed_init key outlen)
unfolding ascon_prf_fixed_init
init-IsOpen key outlen = (omega arith, refl)

-- For every key and output length, an input that is absorbed in any pieces gives what the one-shot
-- functions give of the whole input: PRF behind the start for any length, PRF of a fixed length
-- behind the start for that length, and the MAC behind the start for 16 bytes.
pub prf_pieces_lem :
    (key : List ℕ) (xs : List (List ℕ)) (outlen : ℕ)
    → ((ascon_prf_squeeze (prf_pieces (ascon_prf_fixed_init key 0) xs) outlen).out
        ≡ ascon_prf outlen (flatten xs) key)
      × ((ascon_prf_squeeze (prf_pieces (ascon_prf_fixed_init key outlen) xs) outlen).out
          ≡ ascon_prf_fixed outlen (flatten xs) key)
      × ((ascon_prf_squeeze (prf_pieces (ascon_prf_fixed_init key 16) xs) 16).out
          ≡ ascon_mac (flatten xs) key)
unfolding ascon_prf ascon_prf_fixed ascon_mac
prf_pieces_lem key xs outlen = (
  ap (λ st. (ascon_prf_squeeze st outlen).out) (pieces_lem _ xs (init-IsOpen key 0)),
  ap (λ st. (ascon_prf_squeeze st outlen).out) (pieces_lem _ xs (init-IsOpen key outlen)),
  ap (λ st. (ascon_prf_squeeze st 16).out) (pieces_lem _ xs (init-IsOpen key 16)),
)

-- A squeeze of one block behind an absorb.
one_block :
    (st : Xof)
    → st.mode ≡ 0
    → (ascon_prf_squeeze st 16).out
      ≡ Snp.squeeze (permute (separator (Snp.pad st.state st.count)) 0) 0 16
unfolding ascon_prf_squeeze squeeze_left_over squeeze_aligned squeeze_blocks
one_block st h = rw h (append-nil _)

ascon_mac_lem :
    (input key : List ℕ) → IsBytes (ascon_mac input key) × (length (ascon_mac input key) ≡ 16)
unfolding ascon_mac
ascon_mac_lem input key =
    let start = ascon_prf_fixed_init key 16 in
    let st = ascon_prf_absorb start input in
    let s = separator (Snp.pad st.state st.count) in
    rw (one_block st (absorb-IsOpen start input (init-IsOpen key 16)).1)
      (squeeze-IsBytes (permute s 0) 0 16 (permute-IsState s 0), length-squeeze (permute s 0) 0 16)

-- For a tag of 16 bytes, any input and any key: either the tag is the MAC of the input and
-- verifying returns 0, or it is another tag and verifying returns -1.
pub ascon_mac_verify_cases :
    (tag input key : List ℕ)
    → IsBytes tag
    → length tag ≡ 16
    → (tag ≡ ascon_mac input key) × (ascon_mac_verify tag input key ≡ 0)
      ⊎ (tag ≢ ascon_mac input key) × (ascon_mac_verify tag input key ≡ minus_one)
unfolding ascon_mac_verify check_tag
ascon_mac_verify_cases tag input key h e =
    let m = ascon_mac_lem input key in
    let whole : take 16 tag ≡ tag = take_all tag 16 (omega arith) in
    elim (check_tag_cases [] tag (ascon_mac input key) (omega arith) h m.0 (e ∙ sym m.1)) [
      | inl (same, done) ↦ inl (same, rw whole (ap (λ c. c.result) done))
      | inr (differ, done) ↦ inr (differ, rw whole (ap (λ c. c.result) done))
    ]

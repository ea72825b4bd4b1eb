-- ===== src/Mac/Hmac/Laws.antt =====
-- HMAC is what RFC 2104 says, however the message is cut into updates.
use ascon_suite_tcc.Base.{
  ℕ, ◌-◌, ◌<◌, ◌≡◌, refl, sym, ap, ap₂, ◌∙◌, arith, inl, inr, Bool-cases, List, ◌++◌, leb,
  if◌then◌else◌, length, replicate,
}
use native.Mathlib.Nat.{le_refl}
use ascon_suite_tcc.Aead.Incremental.Packet.{flatten}
use ascon_suite_tcc.Hash.Xof.{Xof, absorb}
use ascon_suite_tcc.Hash.Xof.Stream.{absorb-append}
use ascon_suite_tcc.Hash.Xof.Emit.Append.{length-squeeze, length-squeeze_a}
use ascon_suite_tcc.Hash.Xof.Init.{Flavour, xof_flavour, xofa_flavour, hash_init, hash}
use ascon_suite_tcc.Hash.Xof.Pieces.{
  absorb_pieces, absorb_pieces_lem, IsAbsorbing, absorb-IsAbsorbing,
}
use ascon_suite_tcc.Mac.Hmac.{
  ipad, opad, xor_pad, digest, absorb_padding, absorb_key, hmac_init, hmac_finalize,
  ascon_hmac_init, ascon_hmac_finalize, ascon_hmaca_init, ascon_hmaca_finalize,
}
use ascon_suite_tcc.Mac.Hmac.Chunks.{xor_pad-append, xor_pad-replicate, chunks_lem, padding_lem}

-- RFC 2104: a key longer than the block is hashed, and zeros fill the block.
abbrev pub key_block : Flavour → List ℕ → List ℕ
key_block f key =
    let short = if leb (length key) 64 then key else hash f key in
    short ++ replicate (64 - length short) 0

abbrev pub rfc_hmac : Flavour → List ℕ → List ℕ → List ℕ
rfc_hmac f key m =
    let block = key_block f key in hash f (xor_pad block opad ++ hash f (xor_pad block ipad ++ m))

module _ (f : Flavour) (length-digest : (st : Xof) → st.count < 8 → length (digest f st) ≡ 32) where
  start-IsAbsorbing : IsAbsorbing (hash_init f)
  unfolding hash_init
  start-IsAbsorbing = (omega arith, refl)

  hash_lem : (m : List ℕ) → hash f m ≡ digest f (absorb f.block_round (hash_init f) m)
  unfolding hash
  hash_lem m = refl

  length-hash : (m : List ℕ) → length (hash f m) ≡ 32
  length-hash m =
      rw (hash_lem m)
        (length-digest _ (absorb-IsAbsorbing f.block_round (hash_init f) m start-IsAbsorbing).0)

  -- the chunks, and the padding behind them
  both_lem :
      (short : List ℕ) (pad : ℕ)
      → absorb_padding f 64
          (absorb f.block_round (hash_init f) (xor_pad short pad))
          (64 - length short)
          pad
        ≡ absorb f.block_round
            (hash_init f)
            (xor_pad (short ++ replicate (64 - length short) 0) pad)
  both_lem short pad =
      let left = 64 - length short in
      let st = hash_init f in
      padding_lem f 64 _ left pad
        (absorb-IsAbsorbing f.block_round st (xor_pad short pad) start-IsAbsorbing) (omega arith)
      ∙ (absorb-append f.block_round st (xor_pad short pad) (replicate left pad) start-IsAbsorbing.0
          ∙ ap (absorb f.block_round st) (
              ap (λ z. xor_pad short pad ++ z) (sym (xor_pad-replicate left pad))
              ∙ sym (xor_pad-append short (replicate left 0) pad)))

  absorb_key_lem :
      (key : List ℕ) (pad : ℕ)
      → absorb_key f (hash_init f) key pad
        ≡ absorb f.block_round (hash_init f) (xor_pad (key_block f key) pad)
  unfolding absorb_key
  absorb_key_lem key pad = elim (Bool-cases (leb (length key) 64)) [
    | inl short ↦
        rw (short, chunks_lem f (length key) (hash_init f) key pad start-IsAbsorbing (le_refl _))
          (both_lem key pad)
    | inr long ↦
        let size : 32 ≡ 64 - length (hash f key) = omega (arith, length-hash key) in
        let now = absorb f.block_round (hash_init f) (xor_pad (hash f key) pad) in
        rw (long, ← hash_lem key)
          (ap (λ n. absorb_padding f 64 now n pad) size ∙ both_lem (hash f key) pad)
  ]

  hash_of-append :
      (xs ys : List ℕ)
      → digest f (absorb f.block_round (absorb f.block_round (hash_init f) xs) ys)
        ≡ hash f (xs ++ ys)
  hash_of-append xs ys =
      ap (digest f) (absorb-append f.block_round (hash_init f) xs ys start-IsAbsorbing.0)
      ∙ sym (hash_lem (xs ++ ys))

  finalize_digest :
      (st : Xof) (key : List ℕ)
      → (hmac_finalize f st key).out
        ≡ digest f (absorb f.block_round (absorb_key f (hash_init f) key opad) (digest f st))
  unfolding hmac_finalize
  finalize_digest st key = refl

  init_lem :
      (key : List ℕ)
      → hmac_init f key ≡ absorb f.block_round (hash_init f) (xor_pad (key_block f key) ipad)
  unfolding hmac_init
  init_lem key = absorb_key_lem key ipad

  pub finalize_lem :
      (key m : List ℕ)
      → (hmac_finalize f (absorb f.block_round (hmac_init f key) m) key).out ≡ rfc_hmac f key m
  finalize_lem key m =
      let inner = xor_pad (key_block f key) ipad in
      let outer = xor_pad (key_block f key) opad in
      let st = absorb f.block_round (hmac_init f key) m in
      let first : digest f st ≡ hash f (inner ++ m) =
        ap (λ z. digest f (absorb f.block_round z m)) (init_lem key) ∙ hash_of-append inner m in
      finalize_digest st key
      ∙ (ap₂ (λ z d. digest f (absorb f.block_round z d)) (absorb_key_lem key opad) first
          ∙ hash_of-append outer (hash f (inner ++ m)))

  hmac_init-IsAbsorbing : (key : List ℕ) → IsAbsorbing (hmac_init f key)
  unfolding hmac_init
  hmac_init-IsAbsorbing key =
      rw (absorb_key_lem key ipad)
        (absorb-IsAbsorbing f.block_round (hash_init f) _ start-IsAbsorbing)

  pub pieces_lem :
      (key : List ℕ) (xs : List (List ℕ))
      → (hmac_finalize f (absorb_pieces f.block_round (hmac_init f key) xs) key).out
        ≡ rfc_hmac f key (flatten xs)
  pieces_lem key xs =
      rw (absorb_pieces_lem f.block_round (hmac_init f key) xs (hmac_init-IsAbsorbing key))
        (finalize_lem key (flatten xs))

  pub length-rfc_hmac : (key m : List ℕ) → length (rfc_hmac f key m) ≡ 32
  length-rfc_hmac key m = length-hash _

pub length-hash_digest : (st : Xof) → st.count < 8 → length (digest xof_flavour st) ≡ 32
length-hash_digest st h = length-squeeze st 32 h

pub length-hasha_digest : (st : Xof) → st.count < 8 → length (digest xofa_flavour st) ≡ 32
length-hasha_digest st h = length-squeeze_a st 32 h

-- For both functions, any key and a message that is given to updates in any pieces, the digest that
-- is finalized is the HMAC of RFC 2104 of the whole message: with a block of 64 bytes that holds
-- the key, or its hash where it is longer, and zeros.
pub hmac_pieces :
    (key : List ℕ) (xs : List (List ℕ))
    → ((ascon_hmac_finalize (absorb_pieces 0 (ascon_hmac_init key) xs) key).out
        ≡ rfc_hmac xof_flavour key (flatten xs))
      × ((ascon_hmaca_finalize (absorb_pieces 4 (ascon_hmaca_init key) xs) key).out
          ≡ rfc_hmac xofa_flavour key (flatten xs))
hmac_pieces key xs = (
  pieces_lem xof_flavour length-hash_digest key xs,
  pieces_lem xofa_flavour length-hasha_digest key xs,
)

-- ===== src/Kdf/Hkdf/Block.antt =====
-- The calls of HMAC in HKDF's expansion make the next block of RFC 5869.

use ascon_suite_tcc.Base.{
  ℕ, zero, suc, ◌<◌, ◌≡◌, refl, ap, ap₂, ◌∙◌, arith, false, List, [], ◌∷◌, ◌==◌, if◌then◌else◌,
  length, drop,
}
use ascon_suite_tcc.Base.Slices.{drop_all}
use ascon_suite_tcc.Hash.Xof.Pieces.{absorb_pieces}
use ascon_suite_tcc.Aead.Incremental.Packet.{flatten}
use ascon_suite_tcc.Hash.Xof.{Xof, absorb}
use ascon_suite_tcc.Hash.Xof.Init.{Flavour}
use ascon_suite_tcc.Mac.Hmac.{digest, hmac_init, hmac_finalize}
use ascon_suite_tcc.Mac.Hmac.Laws.{pieces_lem, length-rfc_hmac}
use ascon_suite_tcc.Kdf.Hkdf.{HkdfState, next_block}
use ascon_suite_tcc.Kdf.Hkdf.Expand.{block}

module _ (f : Flavour) (length-digest : (st : Xof) → st.count < 8 → length (digest f st) ≡ 32)
    (prk info : List ℕ) where
  pub length-block : (i : ℕ) → length (block f prk info (suc i)) ≡ 32
  length-block i = length-rfc_hmac f length-digest prk _

  pub used_up : (i : ℕ) → drop 32 (block f prk info i) ≡ []
  used_up zero = refl
  used_up (suc i) = drop_all (block f prk info (suc i)) 32 (omega (arith, length-block i))

  -- the block that a state with these fields makes
  abbrev made_of : List ℕ → List ℕ → ℕ → List ℕ
  made_of key out counter =
      next_block f (record { prk = key; out = out; counter = counter; posn = 0 }) info

  fields_lem : (st : HkdfState) → next_block f st info ≡ made_of st.prk st.out st.counter
  unfolding next_block
  fields_lem st = refl

  first_lem : (out : List ℕ) → made_of prk out 1 ≡ block f prk info 1
  unfolding next_block absorb_pieces flatten
  first_lem out = pieces_lem f length-digest prk (info ∷ (1 ∷ []) ∷ [])

  later_lem :
      (i : ℕ)
      → made_of prk (block f prk info (suc i)) (suc (suc i)) ≡ block f prk info (suc (suc i))
  unfolding next_block absorb_pieces flatten
  later_lem i =
      let last = block f prk info (suc i) in
      let start = hmac_init f prk in
      let finish : Xof → List ℕ = λ st.
        (hmac_finalize f (absorb f.block_round (absorb f.block_round st info) (suc (suc i) ∷ []))
          prk).out in
      ap (λ b. finish (if b then start else absorb f.block_round start last)) not_first
      ∙ pieces_lem f length-digest prk (last ∷ info ∷ (suc (suc i) ∷ []) ∷ [])
    where
      not_first : (suc (suc i) == 1) ≡ false
      not_first = ground arith

  pub next_block_lem :
      (st : HkdfState) (made : ℕ)
      → st.prk ≡ prk
      → st.counter ≡ suc made
      → (0 < made → st.out ≡ block f prk info made)
      → next_block f st info ≡ block f prk info (suc made)
  next_block_lem st zero p c o =
      fields_lem st ∙ (ap₂ (λ key counter. made_of key st.out counter) p c ∙ first_lem st.out)
  next_block_lem st (suc made) p c o =
      fields_lem st
      ∙ (ap₂ (λ key counter. made_of key st.out counter) p c
          ∙ (ap (λ out. made_of prk out (suc (suc made))) (o (omega arith)) ∙ later_lem made))

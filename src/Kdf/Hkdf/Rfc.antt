-- ===== src/Kdf/Hkdf/Rfc.antt =====
-- HKDF gives the output of RFC 5869, in one call or in pieces, and stops at its limit.
use ascon_suite_tcc.Base.{
  ℕ, zero, suc, ◌+◌, ◌*◌, ◌<◌, ◌≤◌, ◌≡◌, refl, ap, ap₂, ◌∙◌, arith, true, false, inl, inr,
  Bool-cases, List, [], ltb, leb, if◌then◌else◌, length, length-append, take,
}
use ascon_suite_tcc.Aead.Tag.{minus_one}
use ascon_suite_tcc.Hash.Xof.{Xof}
use ascon_suite_tcc.Hash.Xof.Init.{Flavour, xof_flavour, xofa_flavour}
use ascon_suite_tcc.Mac.Hmac.{digest}
use ascon_suite_tcc.Mac.Hmac.Laws.{finalize_lem, rfc_hmac, length-hash_digest, length-hasha_digest}
use ascon_suite_tcc.Kdf.Hkdf.{
  HkdfState, extract, hkdf, ascon_hkdf, ascon_hkdfa, ascon_hkdf_extract, ascon_hkdfa_extract,
  ascon_hkdf_expand, ascon_hkdfa_expand,
}
use ascon_suite_tcc.Kdf.Hkdf.Expand.{block, blocks_from, Supplies, Serves, fill_inside}
use ascon_suite_tcc.Kdf.Hkdf.Block.{length-block}
use ascon_suite_tcc.Kdf.Hkdf.Laws.{expand_lem}

-- RFC 5869: the pseudorandom key is the HMAC of the key material under the salt, and the output
-- material is a part of the 255 blocks that follow.
abbrev pub okm : Flavour → List ℕ → List ℕ → List ℕ → List ℕ
okm f key salt info = blocks_from f (rfc_hmac f salt key) info 255 0

module _ (f : Flavour) (length-digest : (st : Xof) → st.count < 8 → length (digest f st) ≡ 32)
    (key salt info : List ℕ) where
  extract_lem :
      (st : HkdfState)
      → Supplies f (rfc_hmac f salt key) info (extract f st key salt) (okm f key salt info)
  unfolding extract
  extract_lem st = record {
    made = 0;
    more = 255;
    in_all = refl;
    same_prk = finalize_lem f length-digest salt key;
    counted = refl;
    inside = omega arith;
    fresh = λ none. refl;
    last = λ some. absurd (omega arith);
    supply = refl;
  }

  blocks_length : (prk : List ℕ) (n i : ℕ) → length (blocks_from f prk info n i) ≡ 32 * n
  blocks_length prk zero i = refl
  blocks_length prk (suc n) i =
      length-append (block f prk info (suc i)) (blocks_from f prk info n (suc i))
      ∙ ap₂ ◌+◌ (length-block f length-digest prk info i) (blocks_length prk n (suc i))
      ∙ omega arith

  length-okm : length (okm f key salt info) ≡ 8160
  length-okm = blocks_length (rfc_hmac f salt key) 255 0

  inside_lem :
      (st : HkdfState) (outlen : ℕ)
      → outlen ≤ 8160
      → hkdf f st key salt info outlen ≡ (0, take outlen (okm f key salt info))
  unfolding hkdf
  inside_lem st outlen h =
      let all = okm f key salt info in
      let fits : outlen ≤ length all = rw (length-okm) h in
      let served =
        expand_lem f length-digest info (rfc_hmac f salt key) (extract f st key salt) all outlen
          (extract_lem st) in
      let test : ltb 8160 outlen ≡ false = ground arith in
      rw test (ap (λ w. (0, w)) (served.bytes ∙ fill_inside outlen all fits))

  outside_lem :
      (st : HkdfState) (outlen : ℕ)
      → 8160 < outlen
      → hkdf f st key salt info outlen ≡ (minus_one, [])
  unfolding hkdf
  outside_lem st outlen h = let test : ltb 8160 outlen ≡ true = ground arith in rw test refl

module _ (f : Flavour) (length-digest : (st : Xof) → st.count < 8 → length (digest f st) ≡ 32) where
  cases_lem :
      (st : HkdfState) (key salt info : List ℕ) (outlen : ℕ)
      → hkdf f st key salt info outlen
        ≡ (if leb outlen 8160 then (0, take outlen (okm f key salt info)) else (minus_one, []))
  cases_lem st key salt info outlen = elim (Bool-cases (leb outlen 8160)) [
    | inl e ↦ rw e (inside_lem f length-digest key salt info st outlen (ground arith))
    | inr e ↦ rw e (outside_lem f length-digest key salt info st outlen (ground arith))
  ]

-- For both functions, any key, salt and info: an output of at most 255 blocks of 32 bytes is the
-- first bytes of the output material of RFC 5869, with the result 0, and a longer one is refused
-- with -1 and nothing written.
pub hkdf_cases :
    (st : HkdfState) (key salt info : List ℕ) (outlen : ℕ)
    → (ascon_hkdf st key salt info outlen ≡ (
        if leb outlen 8160
        then (0, take outlen (okm xof_flavour key salt info))
        else (minus_one, [])))
      × (ascon_hkdfa st key salt info outlen ≡ (
          if leb outlen 8160
          then (0, take outlen (okm xofa_flavour key salt info))
          else (minus_one, [])))
hkdf_cases st key salt info outlen = (
  cases_lem xof_flavour length-hash_digest st key salt info outlen,
  cases_lem xofa_flavour length-hasha_digest st key salt info outlen,
)

-- For both functions, extraction leaves a state that supplies the output material of RFC 5869.
pub extract-Supplies :
    (st : HkdfState) (key salt info : List ℕ)
    → Supplies xof_flavour
        (rfc_hmac xof_flavour salt key)
        info
        (ascon_hkdf_extract st key salt)
        (okm xof_flavour key salt info)
      × Supplies xofa_flavour
          (rfc_hmac xofa_flavour salt key)
          info
          (ascon_hkdfa_extract st key salt)
          (okm xofa_flavour key salt info)
extract-Supplies st key salt info = (
  extract_lem xof_flavour length-hash_digest key salt info st,
  extract_lem xofa_flavour length-hasha_digest key salt info st,
)

-- For both functions, a state that supplies a stream of bytes under an info serves an expansion of
-- any length from the stream: it writes the next bytes, and zeros where there are no more, returns 0
-- or -1 by whether there were enough, and supplies what is left of the stream.
pub expand-Serves :
    (prk prk_a info : List ℕ) (st st_a : HkdfState) (rest rest_a : List ℕ) (outlen : ℕ)
    → Supplies xof_flavour prk info st rest
    → Supplies xofa_flavour prk_a info st_a rest_a
    → Serves xof_flavour prk info outlen rest (ascon_hkdf_expand st info outlen)
      × Serves xofa_flavour prk_a info outlen rest_a (ascon_hkdfa_expand st_a info outlen)
expand-Serves prk prk_a info st st_a rest rest_a outlen s s_a = (
  expand_lem xof_flavour length-hash_digest info prk st rest outlen s,
  expand_lem xofa_flavour length-hasha_digest info prk_a st_a rest_a outlen s_a,
)

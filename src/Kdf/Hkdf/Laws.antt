-- ===== src/Kdf/Hkdf/Laws.antt =====
-- An expansion of HKDF serves the bytes that the last block still holds, then the loop's.
use ascon_suite_tcc.Base.{
  ℕ, zero, suc, ◌+◌, ◌-◌, ◌<◌, ◌≤◌, ◌≡◌, refl, sym, ap, ◌∙◌, arith, List, ◌++◌, ltb, if◌then◌else◌,
  length, length-append, length-drop, take, drop,
}
use mathlib.Core.Path.{subst}
use ascon_suite_tcc.Base.Slices.{drop-drop}
use ascon_suite_tcc.Hash.Xof.{Xof}
use ascon_suite_tcc.Hash.Xof.Init.{Flavour}
use ascon_suite_tcc.Mac.Hmac.{digest}
use ascon_suite_tcc.Kdf.Hkdf.{HkdfState, expand_blocks, expand}
use ascon_suite_tcc.Kdf.Hkdf.Expand.{
  block, blocks_from, Supplies, Serves, serve_more, take_within, drop_within,
}
use ascon_suite_tcc.Kdf.Hkdf.Loop.{loop_lem}
use ascon_suite_tcc.Kdf.Hkdf.Block.{length-block}

module _ (f : Flavour) (length-digest : (st : Xof) → st.count < 8 → length (digest f st) ≡ 32)
    (info : List ℕ) where
  held_lem :
      (prk : List ℕ) (made posn len : ℕ)
      → (made ≡ 0 → posn ≡ 32)
      → len ≤ 32 - posn
      → len ≤ length (drop posn (block f prk info made))
  held_lem prk zero posn len fresh h = let full = fresh refl in omega arith
  held_lem prk (suc made) posn len fresh h = ground (
    arith,
    length-block f length-digest prk info made,
    length-drop posn (block f prk info (suc made)),
  )

  -- The bytes that the last block still holds are the first of the supply.
  held_bytes :
      (prk : List ℕ) (st : HkdfState) (rest : List ℕ) (s : Supplies f prk info st rest) (len : ℕ)
      → len ≤ 32 - st.posn
      → take len (drop st.posn st.out) ≡ take len rest
  held_bytes prk st rest s len h =
      let behind = blocks_from f prk info s.more s.made in
      let now = drop st.posn (block f prk info s.made) in
      same s.made s.fresh s.last
      ∙ sym (take_within len now behind (held_lem prk s.made st.posn len s.fresh h))
      ∙ ap (take len) (sym s.supply)
    where
      same :
          (made : ℕ)
          → (made ≡ 0 → st.posn ≡ 32)
          → (0 < made → st.out ≡ block f prk info made)
          → take len (drop st.posn st.out) ≡ take len (drop st.posn (block f prk info made))
      same zero fresh last =
          let full = fresh refl in let none : len ≡ 0 = omega arith in rw none refl
      same (suc made) fresh last = ap (λ out. take len (drop st.posn out)) (last (omega arith))

  held_rest :
      (prk : List ℕ) (st : HkdfState) (rest : List ℕ) (s : Supplies f prk info st rest) (len : ℕ)
      → len ≤ 32 - st.posn
      → Supplies f prk info (record st { posn = st.posn + len }) (drop len rest)
  held_rest prk st rest s len h = record {
    made = s.made;
    more = s.more;
    in_all = s.in_all;
    same_prk = s.same_prk;
    counted = s.counted;
    inside = let below = s.inside in omega arith;
    fresh = λ none. let full = s.fresh none in omega arith;
    last = s.last;
    supply =
        let behind = blocks_from f prk info s.more s.made in
        let now = block f prk info s.made in
        ap (drop len) s.supply
        ∙ drop_within len (drop st.posn now) behind (held_lem prk s.made st.posn len s.fresh h)
        ∙ ap (λ xs. xs ++ behind) (drop-drop now st.posn len);
  }

  pub expand_lem :
      (prk : List ℕ) (st : HkdfState) (rest : List ℕ) (outlen : ℕ)
      → Supplies f prk info st rest
      → Serves f prk info outlen rest (expand f st info outlen)
  unfolding expand
  expand_lem prk st rest outlen s =
      let left = 32 - st.posn in
      let len = if ltb outlen left then outlen else left in
      let short : len ≤ outlen = ground arith in
      let inside : len ≤ left = ground arith in
      let below = s.inside in
      let now = drop st.posn (block f prk info s.made) in
      let behind = blocks_from f prk info s.more s.made in
      let enough : len ≤ length rest = rw (s.supply) (
        ground (arith, length-append now behind, held_lem prk s.made st.posn len s.fresh inside)) in
      let e = expand_blocks f outlen (record st { posn = st.posn + len }) info (outlen - len) in
      subst (λ w. Serves f prk info outlen rest (record e { written = w ++ e.written }))
        (sym (held_bytes prk st rest s len inside))
        (serve_more f prk info len outlen rest e short enough (
          loop_lem f length-digest prk info outlen _ (outlen - len) (drop len rest) (omega arith)
            (λ more. ground arith) (held_rest prk st rest s len inside)))

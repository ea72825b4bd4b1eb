-- ===== src/Kdf/Hkdf/Loop.antt =====
-- The loop of HKDF's expansion makes the blocks of RFC 5869, one at a time.
use ascon_suite_tcc.Base.{
  length-append, ℕ, zero, suc, ◌+◌, ◌-◌, ◌%◌, ◌<◌, ◌≤◌, ◌≡◌, refl, sym, ap, ap₂, ◌∙◌, arith, true,
  false, inl, inr, Bool-cases, List, [], ◌++◌, ltb, leb, ◌==◌, ==_iff, if◌then◌else◌, length, take,
  drop, replicate,
}
use mathlib.Core.Path.{subst}
use ascon_suite_tcc.Base.Slices.{drop_all}
use ascon_suite_tcc.Core.Word.{u8}
use ascon_suite_tcc.Aead.Tag.{minus_one}
use ascon_suite_tcc.Hash.Xof.{Xof}
use ascon_suite_tcc.Hash.Xof.Init.{Flavour}
use ascon_suite_tcc.Mac.Hmac.{digest}
use ascon_suite_tcc.Kdf.Hkdf.{HkdfState, Expanded, next_block, expand_blocks}
use ascon_suite_tcc.Kdf.Hkdf.Expand.{
  block, blocks_from, Supplies, Serves, fill_nothing, serve_more, take_within, drop_within,
}
use ascon_suite_tcc.Kdf.Hkdf.Block.{length-block, used_up, next_block_lem}

module _ (f : Flavour) (length-digest : (st : Xof) → st.count < 8 → length (digest f st) ≡ 32)
    (prk info : List ℕ) where
  -- The state behind a block of which `len` bytes are taken.
  after_block :
      (st : HkdfState) (made more len : ℕ)
      → made + suc more ≡ 255
      → st.prk ≡ prk
      → next_block f st info ≡ block f prk info (suc made)
      → st.counter ≡ suc made
      → len ≤ 32
      → Supplies f prk info
          (record st { out = next_block f st info; counter = u8 (st.counter + 1); posn = len })
          (drop len (block f prk info (suc made) ++ blocks_from f prk info more (suc made)))
  after_block st made more len h p b c k = record {
    made = suc made;
    more = more;
    in_all = omega arith;
    same_prk = p;
    counted = ap (λ n. (n + 1) % 256) c;
    inside = k;
    fresh = λ none. absurd (omega arith);
    last = λ some. b;
    supply =
        drop_within len (block f prk info (suc made)) _
          (omega (arith, length-block f length-digest prk info made));
  }

  nothing_left :
      (st : HkdfState) (rest : List ℕ) (s : Supplies f prk info st rest)
      → s.more ≡ 0
      → st.posn ≡ 32
      → rest ≡ []
  nothing_left st rest s none full =
      s.supply
      ∙ ap₂ (λ k n. drop k (block f prk info s.made) ++ blocks_from f prk info n s.made) full none
      ∙ ap (λ xs. xs ++ []) (used_up f length-digest prk info s.made)

  next_left :
      (st : HkdfState) (rest : List ℕ) (s : Supplies f prk info st rest) (more : ℕ)
      → s.more ≡ suc more
      → st.posn ≡ 32
      → rest ≡ block f prk info (suc s.made) ++ blocks_from f prk info more (suc s.made)
  next_left st rest s more some full =
      s.supply
      ∙ ap₂ (λ k n. drop k (block f prk info s.made) ++ blocks_from f prk info n s.made) full some
      ∙ ap (λ xs. xs ++ blocks_from f prk info (suc more) s.made)
          (used_up f length-digest prk info s.made)

  serve_none :
      (st : HkdfState) (outlen : ℕ) (rest : List ℕ)
      → outlen ≡ 0
      → Supplies f prk info st rest
      → Serves f prk info outlen rest (record { state = st; result = 0; written = [] })
  serve_none st zero rest none s = record {
    bytes = refl;
    status = ap (λ b. if b then 0 else minus_one) (sym inside);
    supplies = s;
  }
    where
      inside : leb 0 (length rest) ≡ true
      inside = ground arith
  serve_none st (suc outlen) rest none s = absurd (omega arith)

  serve_zeros :
      (st : HkdfState) (outlen : ℕ) (rest : List ℕ)
      → 0 < outlen
      → rest ≡ []
      → Supplies f prk info st rest
      → Serves f prk info outlen rest
          (record { state = st; result = minus_one; written = replicate outlen 0 })
  serve_zeros st outlen rest h none s =
      subst
        (λ xs.
          Serves f prk info outlen xs
            (record { state = st; result = minus_one; written = replicate outlen 0 }))
        (sym none)
        (record {
          bytes = sym (fill_nothing outlen);
          status = ap (λ b. if b then 0 else minus_one) (sym outside);
          supplies =
              subst (Supplies f prk info st) (none ∙ sym (drop_all [] outlen (omega arith))) s;
        })
    where
      outside : leb outlen 0 ≡ false
      outside = ground arith

  serve_block :
      (outlen len : ℕ) (rest now : List ℕ) (made more : ℕ) (e : Expanded)
      → len ≤ outlen
      → len ≤ 32
      → now ≡ block f prk info (suc made)
      → rest ≡ block f prk info (suc made) ++ blocks_from f prk info more (suc made)
      → Serves f prk info
          (outlen - len)
          (drop len (block f prk info (suc made) ++ blocks_from f prk info more (suc made)))
          e
      → Serves f prk info outlen rest
          (record { state = e.state; result = e.result; written = take len now ++ e.written })
  serve_block outlen len rest now made more e h k b left s =
      let first = block f prk info (suc made) in
      let behind = blocks_from f prk info more (suc made) in
      let fits : len ≤ length first = omega (arith, length-block f length-digest prk info made) in
      let whole : len ≤ length (first ++ behind) = ground (arith, length-append first behind) in
      let same : take len (first ++ behind) ≡ take len now =
        take_within len first behind fits ∙ ap (take len) (sym b) in
      subst
        (λ xs.
          Serves f prk info outlen xs
            (record { state = e.state; result = e.result; written = take len now ++ e.written }))
        (sym left)
        (subst
          (λ w.
            Serves f prk info outlen (first ++ behind)
              (record { state = e.state; result = e.result; written = w ++ e.written }))
          same (serve_more f prk info len outlen (first ++ behind) e h whole s))

  some_left : (made more : ℕ) → made + more ≡ 255 → (made + 1) % 256 ≡ 0 → more ≡ 0
  some_left made more h k = ground arith

  counter_lem : (made more : ℕ) → made + suc more ≡ 255 → (made + 1) % 256 ≡ suc made
  counter_lem made more h = ground arith

  not_over :
      (made more counter : ℕ)
      → made + more ≡ 255
      → counter ≡ (made + 1) % 256
      → (counter == 0) ≡ false
      → more ≡ suc (more - 1)
  not_over made zero counter h c k = absurd (ground arith)
  not_over made (suc more) counter h c k = omega arith

  pub loop_lem :
      (fuel : ℕ) (st : HkdfState) (outlen : ℕ) (rest : List ℕ)
      → outlen ≤ fuel
      → (0 < outlen → st.posn ≡ 32)
      → Supplies f prk info st rest
      → Serves f prk info outlen rest (expand_blocks f fuel st info outlen)
  unfolding expand_blocks
  loop_lem zero st outlen rest h full s = serve_none st outlen rest (omega arith) s
  loop_lem (suc fuel) st outlen rest h full s = elim (Bool-cases (outlen == 0)) [
    | inl e ↦ rw e (serve_none st outlen rest ((==_iff outlen 0).0 e) s)
    | inr e ↦ rw e (
        let some : 0 < outlen = ground arith in
        elim (Bool-cases (st.counter == 0)) [
          | inl over ↦ rw over (
              serve_zeros st outlen rest some
                (nothing_left st rest s
                  (some_left s.made s.more s.in_all (sym s.counted ∙ (==_iff st.counter 0).0 over))
                  (full some))
                s)
          | inr under ↦ rw under (
              let len = if ltb outlen 32 then outlen else 32 in
              let more = s.more - 1 in
              let has : s.more ≡ suc more =
                not_over s.made s.more st.counter s.in_all s.counted under in
              let all : s.made + suc more ≡ 255 = omega arith in
              let count : st.counter ≡ suc s.made = s.counted ∙ counter_lem s.made more all in
              let now = next_block_lem f length-digest prk info st s.made s.same_prk count s.last in
              let short : len ≤ outlen = ground arith in
              let inside : len ≤ 32 = ground arith in
              serve_block outlen len rest (next_block f st info) s.made more _ short inside now
                (next_left st rest s more has (full some))
                (loop_lem fuel _ (outlen - len) _ (ground arith) (λ left. ground arith)
                  (after_block st s.made more len all s.same_prk now count inside)))
        ])
  ]

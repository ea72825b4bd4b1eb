-- ===== src/Masking/Aead/Modes/Laws.antt =====
-- The masked modes compute what the plain one-shot functions compute.

use ascon_suite_tcc.Base.{
  ℕ, ◌≡◌, refl, sym, ap, ap₂, ◌∙◌, arith, bit_xor, List, ◌++◌, length, take, drop, length-take,
  length-drop, take-append-drop,
}
use ascon_suite_tcc.Base.Bits.Laws.{zero_xor}
use ascon_suite_tcc.Base.Bytes.{IsBytes, take-IsBytes, drop-IsBytes}
use ascon_suite_tcc.Base.Slices.{take_all}
use ascon_suite_tcc.Core.Word.{be_load_word64, be_store_word64}
use ascon_suite_tcc.Core.Word.Bytes.{load-IsWord}
use ascon_suite_tcc.Core.Word.Split.{word_of, padded_all, store-word_of}
use ascon_suite_tcc.Core.Permutation.{Words, store_words, permute}
use ascon_suite_tcc.Core.Snp.{xor_block, squeeze}
use ascon_suite_tcc.Masking.Word.{Masked, IsMasked}
use ascon_suite_tcc.Masking.Permute.Laws.{AllShares, words_of}
use ascon_suite_tcc.Masking.Shares.{Preserve, IsPreserve, MaskedState}
use ascon_suite_tcc.Masking.Operations.{IsMaskedOps}
use ascon_suite_tcc.Masking.State.{masked_state_init, no_shares, randomize}
use ascon_suite_tcc.Masking.State.Laws.{StandsFor, randomize_lem}
use ascon_suite_tcc.Masking.Key.{Key128, key_128_extract}
use ascon_suite_tcc.Masking.Key.Laws.{IsKey128}
use ascon_suite_tcc.Masking.Aead.Word.{Pads}
use ascon_suite_tcc.Masking.Aead.Lanes.{permute-store_words}
use ascon_suite_tcc.Masking.Aead.Loops.{plain_state, IsRunning, values-AreWords}
use ascon_suite_tcc.Masking.Aead.Modes.{MaskedBuild, masked_init, masked_tag}
use ascon_suite_tcc.Masking.Aead.Modes.Blocks.{xor_block_24, squeeze_last}

pub record IsMaskedBuild {T : Type 0} (build : MaskedBuild T) (key_value data_value : Masked ℕ → ℕ)
    : Type 0 where
  pub key_laws : IsMaskedOps build.key key_value
  pub data_laws : IsMaskedOps build.data_ops data_value
  pub data_pads : Pads data_value
  pub nothing : key_value no_shares ≡ 0
  pub refresh_lem : (p : Preserve ℕ) (t : T) → IsPreserve p → IsPreserve (build.refresh p t).0
  pub to_data :
      (w : MaskedState) (t : T)
      → AllShares IsMasked w
      → StandsFor data_value (build.key_to_data w t).0 (words_of key_value w)
  pub from_data :
      (w : MaskedState) (t : T)
      → AllShares IsMasked w
      → StandsFor key_value (build.key_from_data w t).0 (words_of data_value w)

no_shares-IsMasked : IsMasked no_shares
no_shares-IsMasked = record {
  word0 = omega arith;
  word1 = omega arith;
  word2 = omega arith;
  word3 = omega arith;
}

start-IsMasked : AllShares IsMasked masked_state_init
start-IsMasked = record {
  s0 = no_shares-IsMasked;
  s1 = no_shares-IsMasked;
  s2 = no_shares-IsMasked;
  s3 = no_shares-IsMasked;
  s4 = no_shares-IsMasked;
}

module _ {T : Type 0} (build : MaskedBuild T) (key_value data_value : Masked ℕ → ℕ)
    (laws : IsMaskedBuild build key_value data_value) where
  abbrev pub key_bytes : Key128 → List ℕ
  key_bytes k = be_store_word64 (key_value k.k0) ++ be_store_word64 (key_value k.k1)

  pub key_bytes_lem : (k : Key128) → key_128_extract build.key k ≡ key_bytes k
  unfolding key_128_extract
  key_bytes_lem k =
      ap₂ (λ x y. x ++ y) (laws.key_laws.store_lem k.k0) (laws.key_laws.store_lem k.k1)

  -- masked words added to shares of zero stand for what the words stand for
  onto_zeros :
      (z m : MaskedState)
      → StandsFor key_value z (words_of key_value masked_state_init)
      → AllShares IsMasked m
      → let xor = build.key.xor in
        let filled : MaskedState = record {
          x0 = xor z.x0 m.x0;
          x1 = xor z.x1 m.x1;
          x2 = xor z.x2 m.x2;
          x3 = xor z.x3 m.x3;
          x4 = xor z.x4 m.x4;
        } in
        StandsFor key_value filled (words_of key_value m)
  onto_zeros z m h k =
      let masked = laws.key_laws.xor-IsMasked in
      let value =
        λ (x y : Masked ℕ) (hx : IsMasked x) (hy : IsMasked y)
            (e : key_value x ≡ key_value no_shares).
          laws.key_laws.xor_lem x y hx hy
          ∙ (ap (λ v. bit_xor v (key_value y)) (e ∙ laws.nothing) ∙ zero_xor (key_value y)) in
      (
        record {
          s0 = masked z.x0 m.x0 h.0.s0 k.s0;
          s1 = masked z.x1 m.x1 h.0.s1 k.s1;
          s2 = masked z.x2 m.x2 h.0.s2 k.s2;
          s3 = masked z.x3 m.x3 h.0.s3 k.s3;
          s4 = masked z.x4 m.x4 h.0.s4 k.s4;
        },
        rw
            (
              value z.x0 m.x0 h.0.s0 k.s0 (ap (λ w. w.x0) h.1),
              value z.x1 m.x1 h.0.s1 k.s1 (ap (λ w. w.x1) h.1),
              value z.x2 m.x2 h.0.s2 k.s2 (ap (λ w. w.x2) h.1),
              value z.x3 m.x3 h.0.s3 k.s3 (ap (λ w. w.x3) h.1),
              value z.x4 m.x4 h.0.s4 k.s4 (ap (λ w. w.x4) h.1),
            )
            refl,
      )

  loaded :
      (d : List ℕ) (t : T)
      → IsBytes d
      → length d ≡ 8
      → IsMasked (build.key.load d t).0 × (key_value (build.key.load d t).0 ≡ word_of d)
  loaded d t h l = (
    laws.key_laws.load-IsMasked d t (load-IsWord d h),
    laws.key_laws.load_lem d t (load-IsWord d h) ∙ ap be_load_word64 (sym (padded_all 8 d l)),
  )

  start_words :
      (iv npub : List ℕ) (k : Key128)
      → length iv ≡ 8
      → length npub ≡ 16
      → IsBytes iv
      → IsBytes npub
      → let w : Words = record {
        x0 = word_of iv;
        x1 = key_value k.k0;
        x2 = key_value k.k1;
        x3 = word_of (take 8 npub);
        x4 = word_of (take 8 (drop 8 npub));
      } in
        store_words w ≡ iv ++ (key_bytes k ++ npub)
  unfolding store_words be_store_word64
  start_words iv npub k l l' h h' =
      let d1 = take 8 npub in
      let d2 = take 8 (drop 8 npub) in
      let l1 : length d1 ≡ 8 = omega (arith, length-take 8 npub) in
      let behind : length (drop 8 npub) ≡ 8 = omega (arith, length-drop 8 npub) in
      let all : d2 ≡ drop 8 npub = take_all (drop 8 npub) 8 (omega (arith, behind)) in
      let l2 : length d2 ≡ 8 = ap length all ∙ behind in
      let k1 = take-IsBytes 8 npub h' in
      let k2 = take-IsBytes 8 (drop 8 npub) (drop-IsBytes 8 npub h') in
      let nonce =
        ap₂ (λ x y. x ++ y) (store-word_of d1 k1 ∙ padded_all 8 d1 l1)
          (store-word_of d2 k2 ∙ (padded_all 8 d2 l2 ∙ all))
        ∙ take-append-drop 8 npub in
      ap₂ (λ x y. x ++ (key_bytes k ++ y)) (store-word_of iv h ∙ padded_all 8 iv l) nonce

  module _ (k : Key128) (hk : IsKey128 k) where
    -- a permutation, and the key at the end of the state
    abbrev keyed_state : MaskedState → Preserve ℕ → MaskedState
    keyed_state w p =
        let w' = (build.key.permute w 0 p).0 in
        record w' { x3 = build.key.xor w'.x3 k.k0; x4 = build.key.xor w'.x4 k.k1 }

    keyed_lem :
        (w : MaskedState) (p : Preserve ℕ)
        → AllShares IsMasked w
        → IsPreserve p
        → AllShares IsMasked (keyed_state w p)
          × (plain_state key_value (keyed_state w p)
              ≡ xor_block (permute (plain_state key_value w) 0) (key_bytes k) 24)
          × IsPreserve (build.key.permute w 0 p).1
    keyed_lem w p h r =
        let key = build.key in
        let run = laws.key_laws.permute_lem w 0 p h r in
        let w' = (key.permute w 0 p).0 in
        let words = words_of key_value w' in
        let plain : permute (plain_state key_value w) 0 ≡ store_words words =
          permute-store_words (words_of key_value w) 0
            (values-AreWords key key_value laws.key_laws w h)
          ∙ ap store_words (sym run.1) in
        let e3 = laws.key_laws.xor_lem w'.x3 k.k0 run.0.s3 hk.m0 in
        let e4 = laws.key_laws.xor_lem w'.x4 k.k1 run.0.s4 hk.m1 in
        (
          record {
            s0 = run.0.s0;
            s1 = run.0.s1;
            s2 = run.0.s2;
            s3 = laws.key_laws.xor-IsMasked w'.x3 k.k0 run.0.s3 hk.m0;
            s4 = laws.key_laws.xor-IsMasked w'.x4 k.k1 run.0.s4 hk.m1;
          },
          ap₂ (λ a b. store_words (record words { x3 = a; x4 = b })) e3 e4
              ∙ (sym (xor_block_24 words (key_value k.k0) (key_value k.k1))
                  ∙ ap (λ s. xor_block s (key_bytes k) 24) (sym plain)),
          run.2,
        )

    pub tag_lem :
        (w : MaskedState) (p : Preserve ℕ)
        → AllShares IsMasked w
        → IsPreserve p
        → masked_tag build w p k
          ≡ squeeze (xor_block (permute (plain_state key_value w) 0) (key_bytes k) 24) 24 16
    unfolding masked_tag
    tag_lem w p h r =
        let w' = keyed_state w p in
        ap₂ (λ x y. x ++ y) (laws.key_laws.store_lem w'.x3) (laws.key_laws.store_lem w'.x4)
        ∙ (sym (squeeze_last (words_of key_value w'))
            ∙ ap (λ s. squeeze s 24 16) (keyed_lem w p h r).1)

    pub init_lem :
        (iv : List ℕ) (preserve : Preserve ℕ) (t : T) (npub : List ℕ)
        → length iv ≡ 8
        → IsBytes iv
        → IsPreserve preserve
        → length npub ≡ 16
        → IsBytes npub
        → let r = masked_init build iv preserve t npub k in
          IsRunning r
          × (plain_state data_value r.state
              ≡ xor_block (permute (iv ++ (key_bytes k ++ npub)) 0) (key_bytes k) 24)
    unfolding masked_init
    init_lem iv preserve t npub l hi hp l' hn =
        let key = build.key in
        let fresh = build.refresh preserve t in
        let start = randomize key masked_state_init fresh.1 in
        let zero_state =
          randomize_lem key_value key laws.key_laws masked_state_init fresh.1 start-IsMasked in
        let word = key.load iv start.1 in
        let n0 = key.load (take 8 npub) word.1 in
        let n1 = key.load (take 8 (drop 8 npub)) n0.1 in
        let d1 = take 8 npub in
        let d2 = take 8 (drop 8 npub) in
        let e0 = loaded iv start.1 hi l in
        let e1 = loaded d1 word.1 (take-IsBytes 8 npub hn) (omega (arith, length-take 8 npub)) in
        let e2 =
          loaded d2 n0.1 (take-IsBytes 8 (drop 8 npub) (drop-IsBytes 8 npub hn))
            (omega (arith, length-take 8 (drop 8 npub), length-drop 8 npub)) in
        let m : MaskedState = record { x0 = word.0; x1 = k.k0; x2 = k.k1; x3 = n0.0; x4 = n1.0 } in
        let hm : AllShares IsMasked m = record {
          s0 = e0.0;
          s1 = hk.m0;
          s2 = hk.m1;
          s3 = e1.0;
          s4 = e2.0;
        } in
        let filled = onto_zeros start.0 m zero_state hm in
        let fresh_words = laws.refresh_lem preserve t hp in
        let full : MaskedState = record {
          x0 = key.xor start.0.x0 word.0;
          x1 = key.xor start.0.x1 k.k0;
          x2 = key.xor start.0.x2 k.k1;
          x3 = key.xor start.0.x3 n0.0;
          x4 = key.xor start.0.x4 n1.0;
        } in
        let v : Words = record {
          x0 = word_of iv;
          x1 = key_value k.k0;
          x2 = key_value k.k1;
          x3 = word_of d1;
          x4 = word_of d2;
        } in
        let same : words_of key_value m ≡ v = rw (e0.1, e1.1, e2.1) refl in
        let bytes = ap store_words (filled.1 ∙ same) ∙ start_words iv npub k l l' hi hn in
        let keyed = keyed_lem full fresh.0 filled.0 fresh_words in
        let turned = laws.to_data (keyed_state full fresh.0) n1.1 keyed.0 in
        (
          record { shares = turned.0; randomness = keyed.2 },
          ap store_words turned.1
              ∙ (keyed.1 ∙ ap (λ b. xor_block (permute b 0) (key_bytes k) 24) bytes),
        )

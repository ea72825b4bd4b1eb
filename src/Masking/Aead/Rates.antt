-- ===== src/Masking/Aead/Rates.antt =====
-- The blocks of 8 and of 16 bytes on a masked state do what the plain ones do.
use ascon_suite_tcc.Base.{
  ℕ, ◌+◌, ◌<◌, ◌≡◌, refl, sym, ap, ap₂, ◌∙◌, arith, Bool, Bool-cases, inl, inr, List, ◌++◌, length,
  take, drop, leb, take-append-drop, length-take, length-drop, bit_xor,
}
use ascon_suite_tcc.Base.Bytes.{IsBytes, take-IsBytes, drop-IsBytes}
use ascon_suite_tcc.Core.Permutation.{Words, store_words}
use ascon_suite_tcc.Core.Snp.{State, Step, each_byte, pad}
use ascon_suite_tcc.Core.Word.{be_store_word64}
use ascon_suite_tcc.Core.Word.Replace.{add_at}
use ascon_suite_tcc.Core.Snp.Local.{overlay, each_byte-append, zip}
use ascon_suite_tcc.Aead.Common.{whole}
use ascon_suite_tcc.Masking.Word.{Masked, IsMasked}
use ascon_suite_tcc.Masking.Permute.Laws.{words_of}
use ascon_suite_tcc.Masking.Operations.{MaskedOps, IsMaskedOps}
use ascon_suite_tcc.Masking.Aead.{
  Running, full_word, partial_word, block_8, block_16, left_over_8, left_over_16, masked_duplex,
}
use ascon_suite_tcc.Masking.Aead.Word.{
  plain_byte, Pads, put_byte, bytes_of, full_word_lem, partial_word_lem,
}
use ascon_suite_tcc.Masking.Aead.Lanes.{
  first_word, second_word, pad_first, pad_second, put_first, put_second, length-overlay, behind0,
  behind1,
}
use ascon_suite_tcc.Masking.Aead.Loops.{plain_state, IsRunning, Simulates, masked_duplex_lem}

module _ {T : Type 0} (ops : MaskedOps T) (value : Masked ℕ → ℕ) (laws : IsMaskedOps ops value)
    (pads : Pads value) (decrypting : Bool) where
  -- the plain step at a position
  abbrev plain : State → List ℕ → ℕ → Step
  plain = each_byte (plain_byte decrypting)

  changed_first :
      (r : Running T) (m : Masked ℕ) (t : T)
      → IsRunning r
      → IsMasked m
      → IsRunning (record r { state = record r.state { x0 = m }; trng = t })
  changed_first r m t h k = record {
    shares = record {
      s0 = k;
      s1 = h.shares.s1;
      s2 = h.shares.s2;
      s3 = h.shares.s3;
      s4 = h.shares.s4;
    };
    randomness = h.randomness;
  }

  changed_both :
      (r : Running T) (m n : Masked ℕ) (t : T)
      → IsRunning r
      → IsMasked m
      → IsMasked n
      → IsRunning (record r { state = record r.state { x0 = m; x1 = n }; trng = t })
  changed_both r m n t h k l = record {
    shares = record { s0 = k; s1 = l; s2 = h.shares.s2; s3 = h.shares.s3; s4 = h.shares.s4 };
    randomness = h.randomness;
  }

  -- The plain step over more than eight bytes: first the eight, then the others at position 8.
  two_words :
      (words : Words) (d : List ℕ) (x : ℕ)
      → length (take 8 d) ≡ 8
      → be_store_word64 x ≡ overlay (put_byte decrypting) (be_store_word64 words.x0) (take 8 d)
      → let second = plain (store_words (record words { x0 = x })) (drop 8 d) 8 in
        plain (store_words words) d 0 ≡ record {
          state = second.state;
          out = zip bit_xor (be_store_word64 words.x0) (take 8 d) ++ second.out;
        }
  two_words words d x l e =
      let whole_input = ap (λ c. plain (store_words words) c 0) (sym (take-append-drop 8 d)) in
      let first = first_word decrypting words (take 8 d) (omega (arith, l)) in
      let b = overlay (put_byte decrypting) (be_store_word64 words.x0) (take 8 d) in
      let stored = put_first words x b e in
      let at : 0 + length (take 8 d) ≡ 8 = omega (arith, l) in
      whole_input
      ∙ (each_byte-append (plain_byte decrypting) (store_words words) (take 8 d) (drop 8 d) 0
          ∙ rw (first, at, stored) refl)

  block_8_lem :
      (r : Running T) (d : List ℕ)
      → IsRunning r
      → IsBytes d
      → length d ≡ 8
      → Simulates value (block_8 ops decrypting r d) (plain (plain_state value r.state) d 0)
  unfolding block_8
  block_8_lem r d h k l =
      let s = full_word_lem ops value laws decrypting r.state.x0 d r.trng h.shares.s0 k l in
      let w = full_word ops decrypting r.state.x0 d r.trng in
      let words = words_of value r.state in
      let b = overlay (put_byte decrypting) (bytes_of value r.state.x0) d in
      let e = first_word decrypting words d (omega arith) in
      record {
        running = changed_first r w.word w.trng h s.masked;
        holds = put_first words (value w.word) b s.holds ∙ sym (ap (λ p. p.state) e);
        gives = s.gives ∙ sym (ap (λ p. p.out) e);
      }

  left_over_8_lem :
      (r : Running T) (d : List ℕ)
      → IsRunning r
      → IsBytes d
      → length d < 8
      → let p = plain (plain_state value r.state) d 0 in
        Simulates value
          (left_over_8 ops decrypting r d)
          (record p { state = pad p.state (length d) })
  unfolding left_over_8
  left_over_8_lem r d h k l =
      let s = partial_word_lem ops value laws pads decrypting r.state.x0 d r.trng h.shares.s0 k l in
      let w = partial_word ops decrypting r.state.x0 d r.trng in
      let words = words_of value r.state in
      let b = overlay (put_byte decrypting) (bytes_of value r.state.x0) d in
      let e = first_word decrypting words d (omega arith) in
      let padded =
        pad_first b (behind0 words) (length d)
          (omega (arith, length-overlay (put_byte decrypting) words.x0 d)) in
      record {
        running = changed_first r w.word w.trng h s.masked;
        holds =
            put_first words (value w.word) (add_at b (length d) 0x80) s.holds
            ∙ (sym padded ∙ sym (ap (λ p. pad p.state (length d)) e));
        gives = s.gives ∙ sym (ap (λ p. p.out) e);
      }

  -- Both words are changed: the first by eight bytes, and then the second.
  block_16_lem :
      (r : Running T) (d : List ℕ)
      → IsRunning r
      → IsBytes d
      → length d ≡ 16
      → Simulates value (block_16 ops decrypting r d) (plain (plain_state value r.state) d 0)
  unfolding block_16
  block_16_lem r d h k l =
      let d1 = take 8 d in
      let d2 = drop 8 d in
      let l1 : length d1 ≡ 8 = omega (arith, length-take 8 d) in
      let l2 : length d2 ≡ 8 = omega (arith, length-drop 8 d) in
      let s =
        full_word_lem ops value laws decrypting r.state.x0 d1 r.trng h.shares.s0
          (take-IsBytes 8 d k) l1 in
      let w = full_word ops decrypting r.state.x0 d1 r.trng in
      let s' =
        full_word_lem ops value laws decrypting r.state.x1 d2 w.trng h.shares.s1
          (drop-IsBytes 8 d k) l2 in
      let v = full_word ops decrypting r.state.x1 d2 w.trng in
      let words = record (words_of value r.state) { x0 = value w.word } in
      let b = overlay (put_byte decrypting) (bytes_of value r.state.x1) d2 in
      let e = two_words (words_of value r.state) d (value w.word) l1 s.holds in
      let e' = second_word decrypting words d2 (omega arith) in
      record {
        running = changed_both r w.word v.word v.trng h s.masked s'.masked;
        holds =
            put_second words (value v.word) b s'.holds
            ∙ (sym (ap (λ p. p.state) e') ∙ sym (ap (λ p. p.state) e));
        gives =
            ap₂ (λ x y. x ++ y) s.gives (s'.gives ∙ sym (ap (λ p. p.out) e'))
            ∙ sym (ap (λ p. p.out) e);
      }

  left_over_16_lem :
      (r : Running T) (d : List ℕ)
      → IsRunning r
      → IsBytes d
      → length d < 16
      → let p = plain (plain_state value r.state) d 0 in
        Simulates value
          (left_over_16 ops decrypting r d)
          (record p { state = pad p.state (length d) })
  unfolding left_over_16
  left_over_16_lem r d h k l = elim (Bool-cases (leb 8 (length d))) [
    | inl full ↦
        let d1 = take 8 d in
        let d2 = drop 8 d in
        let l1 : length d1 ≡ 8 = ground (arith, length-take 8 d) in
        let l2 : length d2 < 8 = ground (arith, length-drop 8 d) in
        let at : length d ≡ 8 + length d2 = ground (arith, length-drop 8 d) in
        let s =
          full_word_lem ops value laws decrypting r.state.x0 d1 r.trng h.shares.s0
            (take-IsBytes 8 d k) l1 in
        let w = full_word ops decrypting r.state.x0 d1 r.trng in
        let s' =
          partial_word_lem ops value laws pads decrypting r.state.x1 d2 w.trng h.shares.s1
            (drop-IsBytes 8 d k) l2 in
        let v = partial_word ops decrypting r.state.x1 d2 w.trng in
        let words = record (words_of value r.state) { x0 = value w.word } in
        let b = overlay (put_byte decrypting) (bytes_of value r.state.x1) d2 in
        let e = two_words (words_of value r.state) d (value w.word) l1 s.holds in
        let e' = second_word decrypting words d2 (omega (arith, l2)) in
        let padded =
          pad_second words.x0 b (behind1 words) (length d2)
            (omega (arith, l2, length-overlay (put_byte decrypting) words.x1 d2)) in
        rw full (record {
          running = changed_both r w.word v.word v.trng h s.masked s'.masked;
          holds =
              put_second words (value v.word) (add_at b (length d2) 0x80) s'.holds
              ∙ (sym padded
                  ∙ (sym (ap (λ p. pad p.state (8 + length d2)) (e'))
                      ∙ ap₂ (λ p n. pad p n) (sym (ap (λ p. p.state) e)) (sym at)));
          gives =
              ap₂ (λ x y. x ++ y) s.gives (s'.gives ∙ sym (ap (λ p. p.out) e'))
              ∙ sym (ap (λ p. p.out) e);
        })
    | inr short ↦ rw short (left_over_8_lem r d h k (ground arith))
  ]

  -- For shares of 64 bits and bytes as input: the masked loops at both rates do what the plain function
  -- does to the bytes that the state stands for, padding included.
  pub masked_8_lem :
      (r : Running T) (first_round : ℕ) (src : List ℕ)
      → IsRunning r
      → IsBytes src
      → let p = whole 8 first_round (plain_byte decrypting) (plain_state value r.state) src in
        Simulates value
          (masked_duplex ops 8 first_round
            (block_8 ops decrypting)
            (left_over_8 ops decrypting)
            r
            src)
          (record { state = pad p.state p.posn; out = p.out })
  masked_8_lem r first_round src h k =
      masked_duplex_lem ops value laws 8 first_round decrypting (block_8 ops decrypting)
        (left_over_8 ops decrypting) block_8_lem r src (omega arith) (omega arith) h k
        left_over_8_lem

  pub masked_16_lem :
      (r : Running T) (first_round : ℕ) (src : List ℕ)
      → IsRunning r
      → IsBytes src
      → let p = whole 16 first_round (plain_byte decrypting) (plain_state value r.state) src in
        Simulates value
          (masked_duplex ops 16 first_round
            (block_16 ops decrypting)
            (left_over_16 ops decrypting)
            r
            src)
          (record { state = pad p.state p.posn; out = p.out })
  masked_16_lem r first_round src h k =
      masked_duplex_lem ops value laws 16 first_round decrypting (block_16 ops decrypting)
        (left_over_16 ops decrypting) block_16_lem r src (omega arith) (omega arith) h k
        left_over_16_lem

-- ===== src/Masking/Aead/Modes/Blocks.antt =====
-- Bytes added to two words of the plain state, and to its last byte.
use ascon_suite_tcc.Base.{ℕ, ◌≡◌, refl, sym, ap, ap₂, ◌∙◌, arith, bit_xor, List, [], ◌++◌, length}
use ascon_suite_tcc.Core.Word.{be_store_word64}
use ascon_suite_tcc.Core.Word.Split.{store-xor}
use ascon_suite_tcc.Core.Word.Replace.{store-separator}
use ascon_suite_tcc.Core.Permutation.{Words, store_words}
use ascon_suite_tcc.Core.Snp.{xor_block, encrypt_byte, separator, squeeze}
use ascon_suite_tcc.Core.Snp.Local.{overlay, zip, each_byte-local, encrypt-ActsBy}
use ascon_suite_tcc.Aead.Stream.Absorb.{xor_block-eq-each_byte}
use ascon_suite_tcc.Masking.Aead.Lanes.{add_at-inside}

overlay_two :
    (x y a b : ℕ)
    → overlay bit_xor
        (be_store_word64 x ++ be_store_word64 y)
        (be_store_word64 a ++ be_store_word64 b)
      ≡ be_store_word64 (bit_xor x a) ++ be_store_word64 (bit_xor y b)
unfolding overlay zip be_store_word64
overlay_two x y a b = sym (ap₂ (λ p q. p ++ q) (store-xor x a) (store-xor y b))

-- Two words added to two words that are side by side.
xor_block_inside :
    (pre : List ℕ) (x y a b : ℕ) (post : List ℕ)
    → xor_block
        (pre ++ ((be_store_word64 x ++ be_store_word64 y) ++ post))
        (be_store_word64 a ++ be_store_word64 b)
        (length pre)
      ≡ pre ++ ((be_store_word64 (bit_xor x a) ++ be_store_word64 (bit_xor y b)) ++ post)
unfolding be_store_word64
xor_block_inside pre x y a b post =
    let mid = be_store_word64 x ++ be_store_word64 y in
    let d = be_store_word64 a ++ be_store_word64 b in
    xor_block-eq-each_byte (pre ++ (mid ++ post)) d (length pre)
    ∙ (ap (λ p. p.state)
          (each_byte-local encrypt_byte bit_xor bit_xor encrypt-ActsBy pre mid post d (omega arith))
        ∙ ap (λ c. pre ++ (c ++ post)) (overlay_two x y a b))

module _ (w : Words) (a b : ℕ) where
  pub xor_block_8 :
      xor_block (store_words w) (be_store_word64 a ++ be_store_word64 b) 8
      ≡ store_words (record w { x1 = bit_xor w.x1 a; x2 = bit_xor w.x2 b })
  unfolding store_words be_store_word64
  xor_block_8 =
      xor_block_inside (be_store_word64 w.x0) w.x1 w.x2 a b
        (be_store_word64 w.x3 ++ be_store_word64 w.x4)

  pub xor_block_16 :
      xor_block (store_words w) (be_store_word64 a ++ be_store_word64 b) 16
      ≡ store_words (record w { x2 = bit_xor w.x2 a; x3 = bit_xor w.x3 b })
  unfolding store_words be_store_word64
  xor_block_16 =
      xor_block_inside (be_store_word64 w.x0 ++ be_store_word64 w.x1) w.x2 w.x3 a b
        (be_store_word64 w.x4)

  pub xor_block_24 :
      xor_block (store_words w) (be_store_word64 a ++ be_store_word64 b) 24
      ≡ store_words (record w { x3 = bit_xor w.x3 a; x4 = bit_xor w.x4 b })
  unfolding store_words be_store_word64
  xor_block_24 =
      xor_block_inside (be_store_word64 w.x0 ++ (be_store_word64 w.x1 ++ be_store_word64 w.x2)) w.x3
        w.x4 a b []

pub separator_last :
    (w : Words) → separator (store_words w) ≡ store_words (record w { x4 = bit_xor w.x4 1 })
unfolding separator store_words be_store_word64
separator_last w =
    let pre =
      be_store_word64 w.x0
      ++ (be_store_word64 w.x1 ++ (be_store_word64 w.x2 ++ be_store_word64 w.x3)) in
    add_at-inside pre (be_store_word64 w.x4) [] 7 1 (omega arith)
    ∙ ap (λ c. pre ++ c) (sym (store-separator w.x4))

pub squeeze_last :
    (w : Words) → squeeze (store_words w) 24 16 ≡ be_store_word64 w.x3 ++ be_store_word64 w.x4
unfolding squeeze store_words be_store_word64
squeeze_last w = refl

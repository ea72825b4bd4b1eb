-- ===== src/Masking/Aead/Word.antt =====
-- What a step on a masked word does to the eight bytes that the word stands for.
use ascon_suite_tcc.Base.{
  ℕ, ◌*◌, ◌<◌, ◌≤◌, ◌≡◌, refl, sym, ap, ◌∙◌, arith, bit_xor, bit_and, bit_or, Bool, true, false,
  List, [], ◌∷◌, length, take, ltb, if◌then◌else◌,
}
use ascon_suite_tcc.Base.Slices.{take_all}
use ascon_suite_tcc.Base.Bytes.{IsBytes}
use ascon_suite_tcc.Core.Word.{be_load_word64, be_store_word64, shr64, not64}
use ascon_suite_tcc.Core.Word.Bytes.{load-IsWord}
use ascon_suite_tcc.Core.Word.Split.{
  word_of, padded_all, eight, overlay-store, take-store, store-word_of,
}
use ascon_suite_tcc.Core.Word.Replace.{add_at, store-replace, store-pad}
use ascon_suite_tcc.Core.Snp.{State, encrypt_byte, decrypt_byte}
use ascon_suite_tcc.Core.Snp.Local.{overlay, zip, padded, ActsBy, encrypt-ActsBy, decrypt-ActsBy}
use ascon_suite_tcc.Masking.Word.{Masked, IsMasked, word_pad, word_separator}
use ascon_suite_tcc.Masking.Partial.Plain.{first_bytes}
use ascon_suite_tcc.Masking.Operations.{MaskedOps, IsMaskedOps, keep_mask}
use ascon_suite_tcc.Masking.Aead.{WordStep, full_word, partial_word}

-- the plain step on a byte, and what it puts into the state
abbrev pub plain_byte : Bool → State → ℕ → ℕ → State × ℕ
plain_byte decrypting = if decrypting then decrypt_byte else encrypt_byte

unfoldable pub put_byte : Bool → ℕ → ℕ → ℕ
put_byte false = bit_xor
put_byte true = λ x b. b

pub plain-ActsBy :
    (decrypting : Bool) → ActsBy (plain_byte decrypting) (put_byte decrypting) bit_xor
unfolding put_byte
plain-ActsBy false = encrypt-ActsBy
plain-ActsBy true = decrypt-ActsBy

-- the bytes that a masked word stands for
abbrev pub bytes_of : (Masked ℕ → ℕ) → Masked ℕ → List ℕ
bytes_of value m = be_store_word64 (value m)

-- Writing all bytes, and writing over bytes that something was added to.
overlay_all : (mid d : List ℕ) → length d ≡ length mid → overlay (put_byte true) mid d ≡ d
unfolding overlay put_byte
overlay_all [] [] h = refl
overlay_all [] (b ∷ d) h = absurd (omega arith)
overlay_all (x ∷ mid) [] h = absurd (omega arith)
overlay_all (x ∷ mid) (b ∷ d) h = ap (λ r. b ∷ r) (overlay_all mid d (omega arith))

overlay_twice :
    (mid d : List ℕ)
    → overlay (put_byte true) (overlay bit_xor mid d) d ≡ overlay (put_byte true) mid d
unfolding overlay put_byte
overlay_twice mid [] = refl
overlay_twice [] (b ∷ d) = refl
overlay_twice (x ∷ mid) (b ∷ d) = ap (λ r. b ∷ r) (overlay_twice mid d)

first_bytes_all : (d : List ℕ) → length d < 8 → first_bytes (length d) d ≡ padded 8 d
unfolding padded
first_bytes_all [] h = refl
first_bytes_all (a ∷ []) h = refl
first_bytes_all (a ∷ b ∷ []) h = refl
first_bytes_all (a ∷ b ∷ c ∷ []) h = refl
first_bytes_all (a ∷ b ∷ c ∷ d ∷ []) h = refl
first_bytes_all (a ∷ b ∷ c ∷ d ∷ e ∷ []) h = refl
first_bytes_all (a ∷ b ∷ c ∷ d ∷ e ∷ f ∷ []) h = refl
first_bytes_all (a ∷ b ∷ c ∷ d ∷ e ∷ f ∷ g ∷ []) h = refl
first_bytes_all (a ∷ b ∷ c ∷ d ∷ e ∷ f ∷ g ∷ i ∷ r) h = absurd (omega arith)

-- the step leaves a masked word for the bytes `b`, and gives the bytes `out`
pub record Steps {T : Type 0} (value : Masked ℕ → ℕ) (w : WordStep T) (b out : List ℕ)
    : Type 0 where
  pub masked : IsMasked w.word
  pub holds : bytes_of value w.word ≡ b
  pub gives : w.out ≡ out

choose :
    (value : Masked ℕ → ℕ) (b : Bool) (x y : Masked ℕ) (mid d : List ℕ)
    → IsMasked x
    → IsMasked y
    → bytes_of value x ≡ overlay (put_byte true) mid d
    → bytes_of value y ≡ overlay bit_xor mid d
    → IsMasked (if b then x else y)
      × (bytes_of value (if b then x else y) ≡ overlay (put_byte b) mid d)
unfolding put_byte
choose value true x y mid d h k e f = (h, e)
choose value false x y mid d h k e f = (k, f)

-- what the padding and the separator of a masked word do to the value
pub record Pads (value : Masked ℕ → ℕ) : Type 0 where
  pub pad-IsMasked : (m : Masked ℕ) (k : ℕ) → IsMasked m → IsMasked (word_pad m k)
  pub pad_lem :
      (m : Masked ℕ) (k : ℕ)
      → IsMasked m
      → value (word_pad m k) ≡ bit_xor (value m) (shr64 0x8000000000000000 (k * 8))
  pub separator-IsMasked : (m : Masked ℕ) → IsMasked m → IsMasked (word_separator m)
  pub separator_lem : (m : Masked ℕ) → IsMasked m → value (word_separator m) ≡ bit_xor (value m) 1

module _ {T : Type 0} (ops : MaskedOps T) (value : Masked ℕ → ℕ)
    (laws : IsMaskedOps ops value) where
  module _ (m w : Masked ℕ) (d : List ℕ) (h : IsMasked m) (k : IsMasked w) (b : IsBytes d)
      (short : length d ≤ 8) (e : value w ≡ word_of d) where
    sum_lem : value (ops.xor m w) ≡ bit_xor (value m) (word_of d)
    sum_lem = laws.xor_lem m w h k ∙ ap (bit_xor (value m)) e

    sum-bytes : bytes_of value (ops.xor m w) ≡ overlay bit_xor (bytes_of value m) d
    sum-bytes = ap be_store_word64 sum_lem ∙ sym (overlay-store (value m) d b short)

    sum-out : take (length d) (bytes_of value (ops.xor m w)) ≡ zip bit_xor (bytes_of value m) d
    sum-out = ap (λ x. take (length d) (be_store_word64 x)) sum_lem ∙ take-store (value m) d b short

  pub full_word_lem :
      (decrypting : Bool) (m : Masked ℕ) (d : List ℕ) (t : T)
      → IsMasked m
      → IsBytes d
      → length d ≡ 8
      → Steps value
          (full_word ops decrypting m d t)
          (overlay (put_byte decrypting) (bytes_of value m) d)
          (zip bit_xor (bytes_of value m) d)
  unfolding full_word put_byte
  full_word_lem decrypting m d t h k l =
      let word = (ops.load d t).0 in
      let hw = laws.load-IsMasked d t (load-IsWord d k) in
      let same : value word ≡ word_of d =
        laws.load_lem d t (load-IsWord d k) ∙ ap be_load_word64 (sym (padded_all 8 d l)) in
      let short : length d ≤ 8 = omega arith in
      let sum = ops.xor m word in
      let all = take_all (bytes_of value sum) (length d) (omega (arith, eight (value sum))) in
      let gives : ops.store sum ≡ zip bit_xor (bytes_of value m) d =
        laws.store_lem sum ∙ (sym all ∙ sum-out m word d h hw k short same) in
      let loaded : bytes_of value word ≡ d =
        ap be_store_word64 same ∙ (store-word_of d k ∙ padded_all 8 d l) in
      let mid = bytes_of value m in
      let long : length d ≡ length mid = omega (arith, eight (value m)) in
      let added = sum-bytes m word d h hw k short same in
      let written =
        choose value decrypting word sum mid d hw (laws.xor-IsMasked m word h hw)
          (loaded ∙ sym (overlay_all mid d long)) added in
      record { masked = written.0; holds = written.1; gives = gives }

  module _ (pads : Pads value) where
    padded_word :
        (m : Masked ℕ) (b : List ℕ) (k : ℕ)
        → IsMasked m
        → k < 8
        → bytes_of value m ≡ b
        → bytes_of value (word_pad m k) ≡ add_at b k 0x80
    padded_word m b k h small e =
        ap be_store_word64 (pads.pad_lem m k h)
        ∙ (store-pad (value m) k small ∙ ap (λ c. add_at c k 0x80) e)

    pub partial_word_lem :
        (decrypting : Bool) (m : Masked ℕ) (d : List ℕ) (t : T)
        → IsMasked m
        → IsBytes d
        → length d < 8
        → Steps value
            (partial_word ops decrypting m d t)
            (add_at (overlay (put_byte decrypting) (bytes_of value m) d) (length d) 0x80)
            (zip bit_xor (bytes_of value m) d)
    unfolding partial_word overlay zip put_byte
    partial_word_lem decrypting m [] t h k l = record {
      masked = pads.pad-IsMasked m 0 h;
      holds = padded_word m (bytes_of value m) 0 h l refl;
      gives = refl;
    }
    partial_word_lem decrypting m (c ∷ r) t h k l =
        let d = c ∷ r in
        let n = length d in
        let word = (ops.load_partial d n t).0 in
        let hw = laws.load_partial-IsMasked d n t k l in
        let same : value word ≡ word_of d =
          laws.load_partial_lem d n t k l ∙ ap be_load_word64 (first_bytes_all d l) in
        let short : n ≤ 8 = omega arith in
        let sum = ops.xor m word in
        let hs = laws.xor-IsMasked m word h hw in
        let gives : ops.store_partial n sum ≡ zip bit_xor (bytes_of value m) d =
          laws.store_partial_lem n sum l hs ∙ sum-out m word d h hw k short same in
        let added = sum-bytes m word d h hw k short same in
        let mid = bytes_of value m in
        let replaced : bytes_of value (ops.replace sum word n) ≡ overlay (put_byte true) mid d =
          ap be_store_word64 (
            laws.replace_lem sum word n hs hw
            ∙ ap (λ y. bit_or (bit_and (value sum) (keep_mask n)) (bit_and y (not64 (keep_mask n))))
                same)
          ∙ (store-replace (value sum) d (laws.value-IsWord sum hs) k l
              ∙ (ap (λ b. overlay (put_byte true) b d) added ∙ overlay_twice mid d)) in
        let taken = if decrypting then ops.replace sum word n else sum in
        let written =
          choose value decrypting (ops.replace sum word n) sum mid d
            (laws.replace-IsMasked sum word n hs hw) hs replaced added in
        let some_bytes : ltb 0 n ≡ true = ground arith in
        rw some_bytes (record {
          masked = pads.pad-IsMasked taken n written.0;
          holds = padded_word taken (overlay (put_byte decrypting) mid d) n written.0 l written.1;
          gives = gives;
        })

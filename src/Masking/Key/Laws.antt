-- ===== src/Masking/Key/Laws.antt =====
-- A masked key stands for its key: initializing, randomizing and extracting.
use ascon_suite_tcc.Base.{
  length-drop, ℕ, ◌*◌, ◌/◌, ◌%◌, ◌^◌, ◌≤◌, ◌≡◌, refl, sym, ap, ap₂, ◌∙◌, arith, bit_xor, List, [],
  ◌∷◌, ◌++◌, take, drop, length,
}
use ascon_suite_tcc.Base.Slices.{take_all, take-append-drop_self, drop-drop}
use ascon_suite_tcc.Base.Bits.Laws.{xor_comm, zero_xor}
use ascon_suite_tcc.Base.Bytes.{IsBytes, drop-IsBytes}
use ascon_suite_tcc.Core.Word.{shl64, be_load_word64, be_load_word32, be_store_word64}
use ascon_suite_tcc.Core.Word.Bits.{IsWord}
use ascon_suite_tcc.Core.Word.Bytes.{load-IsWord, load32-lt, load_number32, store-load}
use ascon_suite_tcc.Masking.Word.{Masked, IsMasked}
use ascon_suite_tcc.Masking.Operations.{MaskedOps, IsMaskedOps}
use ascon_suite_tcc.Masking.Key.{
  Key128, Key160, zeroes, key_128_init, key_128_randomize, key_128_extract, key_160_init,
  key_160_extract, key_160_randomize,
}

pub record IsKey128 (k : Key128) : Type 0 where
  pub m0 : IsMasked k.k0
  pub m1 : IsMasked k.k1

pub record IsKey160 (k : Key160) : Type 0 where
  pub m0 : IsMasked k.k0
  pub m1 : IsMasked k.k1
  pub m2 : IsMasked k.k2
  pub m3 : IsMasked k.k3
  pub m4 : IsMasked k.k4
  pub m5 : IsMasked k.k5

-- randomizing a masked word in place keeps what it stands for
abbrev pub KeepsValue :
    {T : Type 0} → (Masked ℕ → ℕ) → (Masked ℕ → Masked ℕ → T → Masked ℕ × T) → Type 0
KeepsValue {T} value randomize =
    (m : Masked ℕ) (t : T)
    → IsMasked m
    → IsMasked (randomize m m t).0 × (value (randomize m m t).0 ≡ value m)

load_32_zeroes :
    (b : List ℕ)
    → IsBytes b
    → bit_xor (shl64 (be_load_word32 b) 32) (be_load_word32 zeroes) ≡ be_load_word32 b * 2 ^ 32
unfolding be_load_word32
load_32_zeroes b h =
    let l = load32-lt b h in
    let x = shl64 (be_load_word32 b) 32 in
    let high : x ≡ be_load_word32 b * 2 ^ 32 = omega arith in xor_comm x 0 ∙ (zero_xor x ∙ high)

zeroes_load_32 :
    (b : List ℕ) → bit_xor (shl64 (be_load_word32 zeroes) 32) (be_load_word32 b) ≡ be_load_word32 b
unfolding be_load_word32
zeroes_load_32 b = zero_xor (be_load_word32 b)

-- the top four bytes of a word are those of its upper half
top_bytes :
    (b : List ℕ)
    → IsBytes b
    → length b ≡ 4
    → take 4 (be_store_word64 (be_load_word32 b * 2 ^ 32)) ≡ b
unfolding be_store_word64
top_bytes (a ∷ b ∷ c ∷ d ∷ []) h l =
    let e = load_number32 (a ∷ b ∷ c ∷ d ∷ []) h in
    let n = be_load_word32 (a ∷ b ∷ c ∷ d ∷ []) * 2 ^ 32 in
    let ha = h.0 in
    let hb = h.1.0 in
    let hc = h.1.1.0 in
    let hd = h.1.1.1.0 in
    let e0 : n / 2 ^ 56 % 2 ^ 8 ≡ a = omega (arith, e) in
    let e1 : n / 2 ^ 48 % 2 ^ 8 ≡ b = omega (arith, e) in
    let e2 : n / 2 ^ 40 % 2 ^ 8 ≡ c = omega (arith, e) in
    let e3 : n / 2 ^ 32 % 2 ^ 8 ≡ d = omega (arith, e) in rw (e0, e1, e2, e3) refl
top_bytes [] h l = absurd (omega arith)
top_bytes (a ∷ []) h l = absurd (omega arith)
top_bytes (a ∷ b ∷ []) h l = absurd (omega arith)
top_bytes (a ∷ b ∷ c ∷ []) h l = absurd (omega arith)
top_bytes (a ∷ b ∷ c ∷ d ∷ e ∷ r) h l = absurd (omega arith)

module _ {T : Type 0} (value : Masked ℕ → ℕ) (ops : MaskedOps T)
    (laws : IsMaskedOps ops value) where
  loads :
      (bytes : List ℕ) (t : T)
      → IsBytes bytes
      → 8 ≤ length bytes
      → ops.store (ops.load bytes t).0 ≡ take 8 bytes
  loads bytes t h l =
      laws.store_lem (ops.load bytes t).0
      ∙ (ap be_store_word64 (laws.load_lem bytes t (load-IsWord bytes h)) ∙ store-load bytes h l)

  randomizes : (m : Masked ℕ) (t : T) → IsMasked m → ops.store (ops.randomize m m t).0 ≡ ops.store m
  randomizes m t h =
      laws.store_lem (ops.randomize m m t).0
      ∙ (ap be_store_word64 (laws.randomize_lem m m t h h) ∙ sym (laws.store_lem m))

  key_128_init-IsKey128 : (key : List ℕ) (t : T) → IsBytes key → IsKey128 (key_128_init ops key t).0
  unfolding key_128_init
  key_128_init-IsKey128 key t h =
      let m0 = ops.load key t in
      record {
        m0 = laws.load-IsMasked key t (load-IsWord key h);
        m1 = laws.load-IsMasked (drop 8 key) m0.1 (load-IsWord (drop 8 key) (drop-IsBytes 8 key h));
      }

  key_128_randomize_lem :
      (k : Key128) (t : T)
      → IsKey128 k
      → key_128_extract ops (key_128_randomize ops k t).0 ≡ key_128_extract ops k
  unfolding key_128_extract key_128_randomize
  key_128_randomize_lem k t h =
      let m0 = ops.randomize k.k0 k.k0 t in
      ap₂ (◌++◌) (randomizes k.k0 t h.m0) (randomizes k.k1 m0.1 h.m1)

  -- For operations on masked words that keep the value: a key of sixteen bytes that is masked, masked
  -- again with new random words and extracted is the key.
  pub key_128_roundtrip :
      (key : List ℕ) (t t' : T)
      → IsBytes key
      → length key ≡ 16
      → key_128_extract ops (key_128_randomize ops (key_128_init ops key t).0 t').0 ≡ key
  unfolding key_128_init key_128_extract
  key_128_roundtrip key t t' h l =
      let m0 = ops.load key t in
      let long = length-drop 8 key in
      key_128_randomize_lem (key_128_init ops key t).0 t' (key_128_init-IsKey128 key t h)
      ∙ (ap₂ (◌++◌) (loads key t h (omega arith)) (
            loads (drop 8 key) m0.1 (drop-IsBytes 8 key h) (omega (arith, long))
            ∙ take_all (drop 8 key) 8 (omega (arith, long)))
          ∙ sym (take-append-drop_self key 8))

  -- For operations on masked words that keep the value, the words of a masked key of twenty bytes
  -- stand for the key as it is absorbed at the two offsets: its bytes from 0, from 8 and from 16 in
  -- three words, the last one in the upper half, and its bytes from 0 in the lower half of a word,
  -- from 4 and from 12.
  pub key_160_init_lem :
      (key : List ℕ) (t : T)
      → IsBytes key
      → IsKey160 (key_160_init ops key t).0
        × (value (key_160_init ops key t).0.k0 ≡ be_load_word64 key)
        × (value (key_160_init ops key t).0.k1 ≡ be_load_word64 (drop 8 key))
        × (value (key_160_init ops key t).0.k2 ≡ be_load_word32 (drop 16 key) * 2 ^ 32)
        × (value (key_160_init ops key t).0.k3 ≡ be_load_word32 key)
        × (value (key_160_init ops key t).0.k4 ≡ be_load_word64 (drop 4 key))
        × (value (key_160_init ops key t).0.k5 ≡ be_load_word64 (drop 12 key))
  unfolding key_160_init
  key_160_init_lem key t h =
      let b = λ (n : ℕ). drop-IsBytes n key h in
      let m0 = ops.load key t in
      let m1 = ops.load (drop 8 key) m0.1 in
      let m2 = ops.load_32 (drop 16 key) zeroes m1.1 in
      let m3 = ops.load_32 zeroes key m2.1 in
      let m4 = ops.load (drop 4 key) m3.1 in
      let l2 : IsWord (be_load_word32 zeroes) =
        omega (
          arith,
          load32-lt zeroes (omega arith, (omega arith, (omega arith, (omega arith, tt)))),
        ) in
      let l3 : IsWord (be_load_word32 key) = omega (arith, load32-lt key h) in
      (
        record {
          m0 = laws.load-IsMasked key t (load-IsWord key h);
          m1 = laws.load-IsMasked (drop 8 key) m0.1 (load-IsWord (drop 8 key) (b 8));
          m2 = laws.load_32-IsMasked (drop 16 key) zeroes m1.1 l2;
          m3 = laws.load_32-IsMasked zeroes key m2.1 l3;
          m4 = laws.load-IsMasked (drop 4 key) m3.1 (load-IsWord (drop 4 key) (b 4));
          m5 = laws.load-IsMasked (drop 12 key) m4.1 (load-IsWord (drop 12 key) (b 12));
        },
        laws.load_lem key t (load-IsWord key h),
        laws.load_lem (drop 8 key) m0.1 (load-IsWord (drop 8 key) (b 8)),
        laws.load_32_lem (drop 16 key) zeroes m1.1 l2 ∙ load_32_zeroes (drop 16 key) (b 16),
        laws.load_32_lem zeroes key m2.1 l3 ∙ zeroes_load_32 key,
        laws.load_lem (drop 4 key) m3.1 (load-IsWord (drop 4 key) (b 4)),
        laws.load_lem (drop 12 key) m4.1 (load-IsWord (drop 12 key) (b 12)),
      )

  -- For operations on masked words that keep the value, and a way to randomize a word that keeps it:
  -- a key of twenty bytes that is masked, randomized and extracted is the key.
  pub key_160_roundtrip :
      (randomize : Masked ℕ → Masked ℕ → T → Masked ℕ × T) (key : List ℕ) (t t' : T)
      → KeepsValue value randomize
      → IsBytes key
      → length key ≡ 20
      → key_160_extract ops (key_160_randomize randomize (key_160_init ops key t).0 t').0 ≡ key
  unfolding key_160_extract key_160_randomize
  key_160_roundtrip randomize key t t' keeps h l =
      let k = (key_160_init ops key t).0 in
      let i = key_160_init_lem key t h in
      let r0 = randomize k.k0 k.k0 t' in
      let r1 = randomize k.k1 k.k1 r0.1 in
      let r2 = randomize k.k2 k.k2 r1.1 in
      let s0 = keeps k.k0 t' i.0.m0 in
      let s1 = keeps k.k1 r0.1 i.0.m1 in
      let s2 = keeps k.k2 r1.1 i.0.m2 in
      let b8 = drop-IsBytes 8 key h in
      let b16 = drop-IsBytes 16 key h in
      let l8 = length-drop 8 key in
      let l16 = length-drop 16 key in
      let e0 =
        laws.store_lem r0.0 ∙ (ap be_store_word64 (s0.1 ∙ i.1) ∙ store-load key h (omega arith)) in
      let e1 =
        laws.store_lem r1.0
        ∙ (ap be_store_word64 (s1.1 ∙ i.2) ∙ store-load (drop 8 key) b8 (omega (arith, l8))) in
      let e2 =
        laws.store_partial_lem 4 r2.0 (omega arith) s2.0
        ∙ (ap (λ v. take 4 (be_store_word64 v)) (s2.1 ∙ i.3)
            ∙ top_bytes (drop 16 key) b16 (omega (arith, l16))) in
      let tail = ap (λ z. take 8 (drop 8 key) ++ z) (sym (drop-drop key 8 8)) in
      ap₂ (◌++◌) e0 (ap₂ (◌++◌) e1 e2 ∙ (tail ∙ sym (take-append-drop_self (drop 8 key) 8)))
      ∙ sym (take-append-drop_self key 8)

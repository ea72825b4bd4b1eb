-- ===== src/Masking/Permute/Laws.antt =====
-- A masked permutation permutes the value that its shares stand for, for every way of sharing that
-- keeps the laws.
use ascon_suite_tcc.Base.{ℕ, zero, suc, ◌+◌, ◌-◌, ◌<◌, ◌≡◌, refl, ap, ◌∙◌, arith, bit_and, bit_xor}
use ascon_suite_tcc.Base.Bits.Laws.{zero_xor}
use ascon_suite_tcc.Core.Word.{not64}
use ascon_suite_tcc.Core.Word.Bits.{IsWord, not-IsWord}
use ascon_suite_tcc.Core.Permutation.{
  Words, round_constant, substitute, diffuse_word, diffuse, rounds, permute_words,
}
use ascon_suite_tcc.Masking.Permute.{
  Sharing, Five, masked_substitute, masked_diffuse, masked_rounds, masked_permute,
}

pub record SharingLaws (sh : Sharing) : Type 1 where
  pub value : sh.S → ℕ
  pub IsShares : sh.S → Type 0
  pub IsRandom : sh.R → Type 0
  pub both-IsShares : (x y : sh.S) → IsShares x → IsShares y → IsShares (sh.both x y)
  pub both_lem :
      (x y : sh.S) → IsShares x → IsShares y → value (sh.both x y) ≡ bit_xor (value x) (value y)
  pub add-IsShares :
      (x : sh.S) (c : ℕ) → IsShares x → IsWord c → IsShares (sh.first (λ a. bit_xor a c) x)
  pub add_lem :
      (x : sh.S) (c : ℕ)
      → IsShares x
      → IsWord c
      → value (sh.first (λ a. bit_xor a c) x) ≡ bit_xor (value x) c
  pub not-IsShares : (x : sh.S) → IsShares x → IsShares (sh.first not64 x)
  pub not_lem : (x : sh.S) → IsShares x → value (sh.first not64 x) ≡ not64 (value x)
  pub diffuse-IsShares :
      (x : sh.S) (a b : ℕ) → IsShares x → IsShares (sh.each (λ y. diffuse_word y a b) x)
  pub diffuse_lem :
      (x : sh.S) (a b : ℕ)
      → IsShares x
      → a < 64
      → b < 64
      → value (sh.each (λ y. diffuse_word y a b) x) ≡ diffuse_word (value x) a b
  pub and_not_xor-IsShares :
      (x y z : sh.S) → IsShares x → IsShares y → IsShares z → IsShares (sh.and_not_xor x y z)
  pub and_not_xor_lem :
      (x y z : sh.S)
      → IsShares x
      → IsShares y
      → IsShares z
      → value (sh.and_not_xor x y z) ≡ bit_xor (value x) (bit_and (not64 (value y)) (value z))
  pub fresh-IsShares : (r : sh.R) → IsRandom r → IsShares (sh.fresh r)
  pub fresh_lem : (r : sh.R) → IsRandom r → value (sh.fresh r) ≡ 0
  pub advance-IsRandom : (r : sh.R) → IsRandom r → IsRandom (sh.advance r)

constant-IsWord : (round : ℕ) → IsWord (round_constant round)
unfolding round_constant
constant-IsWord round = not-IsWord _

-- the five values of a state
abbrev pub words_of : {S : Type 0} → (S → ℕ) → Five S → Words
words_of f w = record { x0 = f w.x0; x1 = f w.x1; x2 = f w.x2; x3 = f w.x3; x4 = f w.x4 }

pub record AllShares {S : Type 0} (P : S → Type 0) (w : Five S) : Type 0 where
  pub s0 : P w.x0
  pub s1 : P w.x1
  pub s2 : P w.x2
  pub s3 : P w.x3
  pub s4 : P w.x4

module _ (sh : Sharing) (l : SharingLaws sh) where
  open l use {value, IsShares, IsRandom}

  substitute_lem :
      (w : Five sh.S) (r : sh.R)
      → AllShares IsShares w
      → IsRandom r
      → AllShares IsShares (masked_substitute sh w r)
        × (words_of value (masked_substitute sh w r) ≡ substitute (words_of value w))
  unfolding masked_substitute substitute
  substitute_lem w r h k =
      let x0 = sh.both w.x0 w.x4 in
      let x4 = sh.both w.x4 w.x3 in
      let x2 = sh.both w.x2 w.x1 in
      let h0 = l.both-IsShares w.x0 w.x4 h.s0 h.s4 in
      let h4 = l.both-IsShares w.x4 w.x3 h.s4 h.s3 in
      let h2 = l.both-IsShares w.x2 w.x1 h.s2 h.s1 in
      let f = sh.fresh r in
      let hf = l.fresh-IsShares r k in
      let t0 = sh.and_not_xor f x0 w.x1 in
      let y0 = sh.and_not_xor x0 w.x1 x2 in
      let y1 = sh.and_not_xor w.x1 x2 w.x3 in
      let y2 = sh.and_not_xor x2 w.x3 x4 in
      let y3 = sh.and_not_xor w.x3 x4 x0 in
      let ht = l.and_not_xor-IsShares f x0 w.x1 hf h0 h.s1 in
      let k0 = l.and_not_xor-IsShares x0 w.x1 x2 h0 h.s1 h2 in
      let k1 = l.and_not_xor-IsShares w.x1 x2 w.x3 h.s1 h2 h.s3 in
      let k2 = l.and_not_xor-IsShares x2 w.x3 x4 h2 h.s3 h4 in
      let k3 = l.and_not_xor-IsShares w.x3 x4 x0 h.s3 h4 h0 in
      let y4 = sh.both x4 t0 in
      let k4 = l.both-IsShares x4 t0 h4 ht in
      (
        record {
          s0 = l.both-IsShares y0 y4 k0 k4;
          s1 = l.both-IsShares y1 y0 k1 k0;
          s2 = k2;
          s3 = l.both-IsShares y3 y2 k3 k2;
          s4 = k4;
        },
        rw
            (
              l.both_lem y0 y4 k0 k4,
              l.both_lem y1 y0 k1 k0,
              l.both_lem y3 y2 k3 k2,
              l.both_lem x4 t0 h4 ht,
              l.and_not_xor_lem f x0 w.x1 hf h0 h.s1,
              l.and_not_xor_lem x0 w.x1 x2 h0 h.s1 h2,
              l.and_not_xor_lem w.x1 x2 w.x3 h.s1 h2 h.s3,
              l.and_not_xor_lem x2 w.x3 x4 h2 h.s3 h4,
              l.and_not_xor_lem w.x3 x4 x0 h.s3 h4 h0,
              l.both_lem w.x0 w.x4 h.s0 h.s4,
              l.both_lem w.x4 w.x3 h.s4 h.s3,
              l.both_lem w.x2 w.x1 h.s2 h.s1,
              l.fresh_lem r k,
              zero_xor,
            )
            refl,
      )

  diffusion_lem :
      (w : Five sh.S)
      → AllShares IsShares w
      → AllShares IsShares (masked_diffuse sh w)
        × (words_of value (masked_diffuse sh w) ≡ diffuse (words_of value w))
  unfolding masked_diffuse diffuse
  diffusion_lem w h = (
    record {
      s0 = l.diffuse-IsShares w.x0 19 28 h.s0;
      s1 = l.diffuse-IsShares w.x1 61 39 h.s1;
      s2 = l.diffuse-IsShares w.x2 1 6 h.s2;
      s3 = l.diffuse-IsShares w.x3 10 17 h.s3;
      s4 = l.diffuse-IsShares w.x4 7 41 h.s4;
    },
    rw
        (
          l.diffuse_lem w.x0 19 28 h.s0 (omega arith) (omega arith),
          l.diffuse_lem w.x1 61 39 h.s1 (omega arith) (omega arith),
          l.diffuse_lem w.x2 1 6 h.s2 (omega arith) (omega arith),
          l.diffuse_lem w.x3 10 17 h.s3 (omega arith) (omega arith),
          l.diffuse_lem w.x4 7 41 h.s4 (omega arith) (omega arith),
        )
        refl,
  )

  rounds_lem :
      (left first_round : ℕ) (w : Five sh.S) (r : sh.R)
      → AllShares IsShares w
      → IsRandom r
      → AllShares IsShares (masked_rounds sh left first_round w r).0
        × (words_of value (masked_rounds sh left first_round w r).0
            ≡ rounds left first_round (words_of value w))
        × IsRandom (masked_rounds sh left first_round w r).1
  unfolding masked_rounds rounds
  rounds_lem zero first_round w r h k = (h, refl, k)
  rounds_lem (suc left) first_round w r h k =
      let c = round_constant first_round in
      let hc = constant-IsWord first_round in
      let added = record w { x2 = sh.first (λ x. bit_xor x c) w.x2 } in
      let ha : AllShares IsShares added = record {
        s0 = h.s0;
        s1 = h.s1;
        s2 = l.add-IsShares w.x2 c h.s2 hc;
        s3 = h.s3;
        s4 = h.s4;
      } in
      let put = λ (x : ℕ). record (words_of value w) { x2 = x } in
      let ea = ap put (l.add_lem w.x2 c h.s2 hc) in
      let sub = substitute_lem added r ha k in
      let dif = diffusion_lem (masked_substitute sh added r) sub.0 in
      let next = masked_diffuse sh (masked_substitute sh added r) in
      let rest =
        rounds_lem left (first_round + 1) next (sh.advance r) dif.0 (l.advance-IsRandom r k) in
      let step = dif.1 ∙ ap diffuse (sub.1 ∙ ap substitute ea) in
      (rest.0, rest.1 ∙ ap (rounds left (first_round + 1)) step, rest.2)

  pub permute_lem :
      (w : Five sh.S) (first_round : ℕ) (r : sh.R)
      → AllShares IsShares w
      → IsRandom r
      → AllShares IsShares (masked_permute sh w first_round r).0
        × (words_of value (masked_permute sh w first_round r).0
            ≡ permute_words (words_of value w) first_round)
        × IsRandom (masked_permute sh w first_round r).1
  unfolding masked_permute permute_words
  permute_lem w first_round r h k =
      let start = record w { x2 = sh.first not64 w.x2 } in
      let hs : AllShares IsShares start = record {
        s0 = h.s0;
        s1 = h.s1;
        s2 = l.not-IsShares w.x2 h.s2;
        s3 = h.s3;
        s4 = h.s4;
      } in
      let es = ap (λ x. record (words_of value w) { x2 = x }) (l.not_lem w.x2 h.s2) in
      let run = rounds_lem (12 - first_round) first_round start r hs k in
      let hd = run.0 in
      let done = (masked_rounds sh (12 - first_round) first_round start r).0 in
      let ed = run.1 ∙ ap (rounds (12 - first_round) first_round) es in
      let flip = λ (v : Words). record v { x2 = not64 v.x2 } in
      (
        record {
          s0 = hd.s0;
          s1 = hd.s1;
          s2 = l.not-IsShares done.x2 hd.s2;
          s3 = hd.s3;
          s4 = hd.s4;
        },
        ap (λ x. record (words_of value done) { x2 = x }) (l.not_lem done.x2 hd.s2) ∙ ap flip ed,
        run.2,
      )

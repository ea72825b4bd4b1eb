-- ===== src/Masking/Shares.antt =====
-- The shares of src/masking/ascon-x2-c64.c, ascon-x3-c64.c and ascon-x4-c64.c: `and_not_xor`, the
-- random shares of zero, and the rotation of the randomness between rounds. An operation on two or
-- three shares leaves the others of a masked word as they are.
pub mod Symbols
pub mod Padding
pub mod Two
pub mod Three
pub mod Four
use ascon_suite_tcc.Base.{ℕ}
use ascon_suite_tcc.Core.Word.Bits.{IsWord}
use ascon_suite_tcc.Core.Word.Symbolic.{Ops, words}
use ascon_suite_tcc.Core.Permutation.{Words}
use ascon_suite_tcc.Masking.Word.{
  Masked, rotate1, rotate2, rotate3, unrotate1, unrotate2, unrotate3,
}
use ascon_suite_tcc.Masking.Permute.{Sharing, Five, masked_permute}

-- the array `preserve`, of which `n - 1` words are in use for `n` shares
pub record Preserve (W : Type 0) : Type 0 where
  pub p0 : W
  pub p1 : W
  pub p2 : W

pub record IsPreserve (r : Preserve ℕ) : Type 0 where
  pub word0 : IsWord r.p0
  pub word1 : IsWord r.p1
  pub word2 : IsWord r.p2

module _ {W : Type 0} (o : Ops W) where
  -- `and_not_xor` of ascon-x2-c64.c
  unfoldable pub and_not_xor2 : Masked W → Masked W → Masked W → Masked W
  and_not_xor2 x y z =
      let a = o.xor x.s0 (o.and (o.inv y.s0) (unrotate1 o z.s1)) in
      let a = o.xor a (o.and (o.inv y.s0) z.s0) in
      let b = o.xor x.s1 (o.and y.s1 z.s1) in
      let b = o.xor b (o.and y.s1 (rotate1 o z.s0)) in record x { s0 = a; s1 = b }

  -- `and_not_xor` of ascon-x3-c64.c
  unfoldable pub and_not_xor3 : Masked W → Masked W → Masked W → Masked W
  and_not_xor3 x y z =
      let a = o.xor x.s0 (o.and (o.inv y.s0) z.s0) in
      let a = o.xor a (o.and y.s0 (unrotate1 o z.s1)) in
      let a = o.xor a (o.and y.s0 (unrotate2 o z.s2)) in
      let b = o.xor x.s1 (o.and y.s1 (rotate1 o z.s0)) in
      let b = o.xor b (o.and (o.inv y.s1) z.s1) in
      let b = o.xor b (o.and y.s1 (unrotate1 o z.s2)) in
      let c = o.xor x.s2 (o.and y.s2 (rotate2 o (o.inv z.s0))) in
      let c = o.xor c (o.and y.s2 (rotate1 o z.s1)) in
      let c = o.xor c (o.or y.s2 z.s2) in record x { s0 = a; s1 = b; s2 = c }

  -- `and_not_xor` of ascon-x4-c64.c
  unfoldable pub and_not_xor4 : Masked W → Masked W → Masked W → Masked W
  and_not_xor4 x y z =
      let a = o.xor x.s0 (o.and (o.inv y.s0) z.s0) in
      let a = o.xor a (o.and (unrotate1 o y.s1) z.s0) in
      let a = o.xor a (o.and (unrotate2 o y.s2) z.s0) in
      let a = o.xor a (o.and (unrotate3 o y.s3) z.s0) in
      let b = o.xor x.s1 (o.and (rotate1 o (o.inv y.s0)) z.s1) in
      let b = o.xor b (o.and y.s1 z.s1) in
      let b = o.xor b (o.and (unrotate1 o y.s2) z.s1) in
      let b = o.xor b (o.and (unrotate2 o y.s3) z.s1) in
      let c = o.xor x.s2 (o.and (rotate2 o (o.inv y.s0)) z.s2) in
      let c = o.xor c (o.and (rotate1 o y.s1) z.s2) in
      let c = o.xor c (o.and y.s2 z.s2) in
      let c = o.xor c (o.and (unrotate1 o y.s3) z.s2) in
      let d = o.xor x.s3 (o.and (rotate3 o (o.inv y.s0)) z.s3) in
      let d = o.xor d (o.and (rotate2 o y.s1) z.s3) in
      let d = o.xor d (o.and (rotate1 o y.s2) z.s3) in
      let d = o.xor d (o.and y.s3 z.s3) in record { s0 = a; s1 = b; s2 = c; s3 = d }

  -- the shares that `t0` starts a round with; those not in use are zero
  unfoldable pub fresh2 : W → Preserve W → Masked W
  fresh2 zero r = record { s0 = r.p0; s1 = rotate1 o r.p0; s2 = zero; s3 = zero }

  unfoldable pub fresh3 : W → Preserve W → Masked W
  fresh3 zero r = record {
    s0 = r.p0;
    s1 = r.p1;
    s2 = o.xor (rotate2 o r.p0) (rotate1 o r.p1);
    s3 = zero;
  }

  unfoldable pub fresh4 : Preserve W → Masked W
  fresh4 r = record {
    s0 = r.p0;
    s1 = r.p1;
    s2 = r.p2;
    s3 = o.xor (o.xor (rotate3 o r.p0) (rotate2 o r.p1)) (rotate1 o r.p2);
  }

  -- `x ^= y`, share by share
  unfoldable pub both2 : Masked W → Masked W → Masked W
  both2 x y = record x { s0 = o.xor x.s0 y.s0; s1 = o.xor x.s1 y.s1 }

  unfoldable pub both3 : Masked W → Masked W → Masked W
  both3 x y = record x { s0 = o.xor x.s0 y.s0; s1 = o.xor x.s1 y.s1; s2 = o.xor x.s2 y.s2 }

  unfoldable pub both4 : Masked W → Masked W → Masked W
  both4 x y = record {
    s0 = o.xor x.s0 y.s0;
    s1 = o.xor x.s1 y.s1;
    s2 = o.xor x.s2 y.s2;
    s3 = o.xor x.s3 y.s3;
  }

unfoldable pub each2 : (ℕ → ℕ) → Masked ℕ → Masked ℕ
each2 f x = record x { s0 = f x.s0; s1 = f x.s1 }

unfoldable pub each3 : (ℕ → ℕ) → Masked ℕ → Masked ℕ
each3 f x = record x { s0 = f x.s0; s1 = f x.s1; s2 = f x.s2 }

unfoldable pub each4 : (ℕ → ℕ) → Masked ℕ → Masked ℕ
each4 f x = record { s0 = f x.s0; s1 = f x.s1; s2 = f x.s2; s3 = f x.s3 }

-- the rotation of `t0` before the next round
unfoldable pub advance2 : Preserve ℕ → Preserve ℕ
advance2 r = record r { p0 = words.rot r.p0 13 }

unfoldable pub advance3 : Preserve ℕ → Preserve ℕ
advance3 r = record r { p0 = words.rot r.p0 13; p1 = words.rot r.p1 29 }

unfoldable pub advance4 : Preserve ℕ → Preserve ℕ
advance4 r = record { p0 = words.rot r.p0 13; p1 = words.rot r.p1 29; p2 = words.rot r.p2 59 }

abbrev first : (ℕ → ℕ) → Masked ℕ → Masked ℕ
first f x = record x { s0 = f x.s0 }

abbrev pub sharing2 : Sharing
sharing2 = record {
  S = Masked ℕ;
  R = Preserve ℕ;
  each = each2;
  both = both2 words;
  first = first;
  and_not_xor = and_not_xor2 words;
  fresh = fresh2 words 0;
  advance = advance2;
}

abbrev pub sharing3 : Sharing
sharing3 = record {
  S = Masked ℕ;
  R = Preserve ℕ;
  each = each3;
  both = both3 words;
  first = first;
  and_not_xor = and_not_xor3 words;
  fresh = fresh3 words 0;
  advance = advance3;
}

abbrev pub sharing4 : Sharing
sharing4 = record {
  S = Masked ℕ;
  R = Preserve ℕ;
  each = each4;
  both = both4 words;
  first = first;
  and_not_xor = and_not_xor4 words;
  fresh = fresh4 words;
  advance = advance4;
}

-- `ascon_masked_state_t`: the array `M`
abbrev pub MaskedState : Type 0
MaskedState = Five (Masked ℕ)

-- `ascon_x2_permute`, `ascon_x3_permute` and `ascon_x4_permute`: the state and `preserve`
unfoldable pub x2_permute : MaskedState → ℕ → Preserve ℕ → MaskedState × Preserve ℕ
x2_permute = masked_permute sharing2

unfoldable pub x3_permute : MaskedState → ℕ → Preserve ℕ → MaskedState × Preserve ℕ
x3_permute = masked_permute sharing3

unfoldable pub x4_permute : MaskedState → ℕ → Preserve ℕ → MaskedState × Preserve ℕ
x4_permute = masked_permute sharing4

-- ===== src/Masking/Permute.antt =====
-- `ascon_x2_permute`, `ascon_x3_permute` and `ascon_x4_permute` of src/masking/ascon-x{2,3,4}-c64.c.
-- The three files have one text, for each share in turn; what depends on the number of shares is
-- the record `Sharing`. Statements for different shares are taken together.
pub mod Laws
use ascon_suite_tcc.Base.{ℕ, zero, suc, ◌+◌, ◌-◌, bit_xor}
use ascon_suite_tcc.Core.Word.{not64, right_rotate_64}
use ascon_suite_tcc.Core.Permutation.{round_constant, diffuse_word}

-- `S` is the shares of a local variable, and `R` the randomness that the caller preserves.
pub record Sharing : Type 1 where
  pub S : Type 0
  pub R : Type 0
  pub each : (ℕ → ℕ) → S → S
  pub both : S → S → S
  pub first : (ℕ → ℕ) → S → S
  pub and_not_xor : S → S → S → S
  pub fresh : R → S
  pub advance : R → R

-- the five local variables
pub record Five (S : Type 0) : Type 0 where
  pub x0 : S
  pub x1 : S
  pub x2 : S
  pub x3 : S
  pub x4 : S

module _ (sh : Sharing) where
  open sh use {S, R, each, both, first, and_not_xor, fresh, advance}

  -- the substitution layer, with the shares `t0` of zero
  unfoldable pub masked_substitute : Five S → R → Five S
  masked_substitute w r =
      let x0 = both w.x0 w.x4 in
      let x4 = both w.x4 w.x3 in
      let x2 = both w.x2 w.x1 in
      let t1 = x0 in
      let t0 = and_not_xor (fresh r) x0 w.x1 in
      let x0 = and_not_xor x0 w.x1 x2 in
      let x1 = and_not_xor w.x1 x2 w.x3 in
      let x2 = and_not_xor x2 w.x3 x4 in
      let x3 = and_not_xor w.x3 x4 t1 in
      let x4 = both x4 t0 in
      let x1 = both x1 x0 in
      let x0 = both x0 x4 in
      let x3 = both x3 x2 in record { x0 = x0; x1 = x1; x2 = x2; x3 = x3; x4 = x4 }

  -- the linear diffusion layer, on each share
  unfoldable pub masked_diffuse : Five S → Five S
  masked_diffuse w = record {
    x0 = each (λ x. diffuse_word x 19 28) w.x0;
    x1 = each (λ x. diffuse_word x 61 39) w.x1;
    x2 = each (λ x. diffuse_word x 1 6) w.x2;
    x3 = each (λ x. diffuse_word x 10 17) w.x3;
    x4 = each (λ x. diffuse_word x 7 41) w.x4;
  }

  -- `while (first_round < 12)` with `left` rounds to go
  unfoldable pub masked_rounds : ℕ → ℕ → Five S → R → Five S × R
  masked_rounds zero first_round w r = (w, r)
  masked_rounds (suc left) first_round w r =
      let added = record w { x2 = first (λ x. bit_xor x (round_constant first_round)) w.x2 } in
      masked_rounds left (first_round + 1) (masked_diffuse (masked_substitute added r)) (advance r)

  -- the whole function: the state that is stored, and the randomness that is returned
  unfoldable pub masked_permute : Five S → ℕ → R → Five S × R
  masked_permute w first_round r =
      let done =
        masked_rounds (12 - first_round) first_round (record w { x2 = first not64 w.x2 }) r in
      (record (done.0) { x2 = first not64 done.0.x2 }, done.1)

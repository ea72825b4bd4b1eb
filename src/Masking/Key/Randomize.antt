-- ===== src/Masking/Key/Randomize.antt =====
-- `ascon_masked_word_x2_randomize` on words of two, three and four shares, as the key of 160 bits has it.
use ascon_suite_tcc.Base.{ℕ, ◌≡◌, refl}
use ascon_suite_tcc.Core.Word.Bits.{IsWord}
use ascon_suite_tcc.Core.Word.Symbolic.{symbols, blank, words, eval, norm, plus}
use ascon_suite_tcc.Masking.Word.{Masked, IsMasked, value2, value3, value4}
use ascon_suite_tcc.Masking.Operations.Two.{randomize2, draw2, ops2}
use ascon_suite_tcc.Masking.Shares.Symbols.{at, plain, plain-IsMasked, decide_masked, eval-IsMasked}

module _ (m : Masked ℕ) (r : ℕ) (h : IsMasked m) (k : IsWord r) where
  abbrev turned : Masked ℕ
  turned = randomize2 words 0 m m r

  turned-IsMasked : IsMasked turned
  unfolding eval randomize2
  turned-IsMasked =
      let e = randomize2 symbols blank (at 0) (at 0) (at 4).s0 in
      eval-IsMasked m (plain r) m h (plain-IsMasked r k) h e.s0 e.s1 e.s2 e.s3

  keeps2 : value2 words turned ≡ value2 words m
  unfolding eval norm plus randomize2
  keeps2 =
      decide_masked m (plain r) m h (plain-IsMasked r k) h
        (value2 symbols (randomize2 symbols blank (at 0) (at 0) (at 4).s0)) (value2 symbols (at 0))
        refl

  keeps3 : value3 words turned ≡ value3 words m
  unfolding eval norm plus randomize2
  keeps3 =
      decide_masked m (plain r) m h (plain-IsMasked r k) h
        (value3 symbols (randomize2 symbols blank (at 0) (at 0) (at 4).s0)) (value3 symbols (at 0))
        refl

  keeps4 : value4 words turned ≡ value4 words m
  unfolding eval norm plus randomize2
  keeps4 =
      decide_masked m (plain r) m h (plain-IsMasked r k) h
        (value4 symbols (randomize2 symbols blank (at 0) (at 0) (at 4).s0)) (value4 symbols (at 0))
        refl

-- When the generator gives 64-bit words: the call that randomizes the words of a 160-bit key, which
-- is the one for two shares whatever the number of shares is, keeps the value of two, of three and of
-- four shares, and leaves the third and the fourth share as they are.
pub x2_randomize_lem :
    {T : Type 0} (generate : T → ℕ × T) (m : Masked ℕ) (t : T)
    → ((t : T) → IsWord (generate t).0)
    → IsMasked m
    → IsMasked ((ops2 generate).randomize m m t).0
      × (value2 words ((ops2 generate).randomize m m t).0 ≡ value2 words m)
      × (value3 words ((ops2 generate).randomize m m t).0 ≡ value3 words m)
      × (value4 words ((ops2 generate).randomize m m t).0 ≡ value4 words m)
      × (((ops2 generate).randomize m m t).0.s2 ≡ m.s2)
      × (((ops2 generate).randomize m m t).0.s3 ≡ m.s3)
unfolding draw2 randomize2
x2_randomize_lem generate m t small h =
    let r = (generate t).0 in
    let k = small t in
    (turned-IsMasked m r h k, keeps2 m r h k, keeps3 m r h k, keeps4 m r h k, refl, refl)

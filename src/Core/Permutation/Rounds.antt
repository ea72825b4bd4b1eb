-- ===== src/Core/Permutation/Rounds.antt =====
-- The rounds of the permutation as the ASCON submission (doc/) gives them: a round constant is added to
-- `x2`, the S-box is applied to the 64 columns, and the words are diffused.
pub mod Sbox
pub mod Layers
pub mod Laws
use ascon_suite_tcc.Base.{
  ℕ, zero, suc, ◌+◌, ◌-◌, ◌*◌, ◌/◌, ◌%◌, ◌≡◌, bit_xor, List, [], ◌∷◌, get_or,
}
use ascon_suite_tcc.Base.Bits.Laws.{bit}
use ascon_suite_tcc.Core.Word.{not64}
use ascon_suite_tcc.Core.Word.Bits.{IsWord}
use ascon_suite_tcc.Core.Permutation.{Words, substitute, diffuse}

abbrev pub sbox_table : List ℕ
sbox_table =
    0x4 ∷ 0xb ∷ 0x1f ∷ 0x14 ∷ 0x1a ∷ 0x15 ∷ 0x9 ∷ 0x2 ∷ 0x1b ∷ 0x5 ∷ 0x8 ∷ 0x12 ∷ 0x1d ∷ 0x3 ∷ 0x6
    ∷ 0x1c ∷ 0x1e ∷ 0x13 ∷ 0x7 ∷ 0xe ∷ 0x0 ∷ 0xd ∷ 0x11 ∷ 0x18 ∷ 0x10 ∷ 0xc ∷ 0x1 ∷ 0x19 ∷ 0x16
    ∷ 0xa ∷ 0xf ∷ 0x17 ∷ []

-- the five bits at `i`, of which that of `x0` is the highest
abbrev pub column : Words → ℕ → ℕ
column w i = 16 * bit w.x0 i + 8 * bit w.x1 i + 4 * bit w.x2 i + 2 * bit w.x3 i + bit w.x4 i

-- the substitution layer of the code, with its last step
abbrev pub sbox_layer : Words → Words
sbox_layer w = let s = substitute w in record s { x2 = not64 s.x2 }

pub record AreWords (w : Words) : Type 0 where
  pub h0 : IsWord w.x0
  pub h1 : IsWord w.x1
  pub h2 : IsWord w.x2
  pub h3 : IsWord w.x3
  pub h4 : IsWord w.x4

abbrev pub constants : List ℕ
constants = 0xf0 ∷ 0xe1 ∷ 0xd2 ∷ 0xc3 ∷ 0xb4 ∷ 0xa5 ∷ 0x96 ∷ 0x87 ∷ 0x78 ∷ 0x69 ∷ 0x5a ∷ 0x4b ∷ []

-- the word whose bit `i` is `f i`, for `i` below `n`
unfoldable pub word_from : ℕ → (ℕ → ℕ) → ℕ
word_from zero f = 0
word_from (suc n) f = f 0 + 2 * word_from n (λ i. f (i + 1))

-- The substitution layer: each column is replaced by the entry of the table at it.
abbrev pub table_layer : Words → Words
table_layer w =
    let entry = λ (i : ℕ). get_or sbox_table (column w i) 0 in
    record {
      x0 = word_from 64 (λ i. entry i / 16 % 2);
      x1 = word_from 64 (λ i. entry i / 8 % 2);
      x2 = word_from 64 (λ i. entry i / 4 % 2);
      x3 = word_from 64 (λ i. entry i / 2 % 2);
      x4 = word_from 64 (λ i. entry i % 2);
    }

-- The linear layer: each bit is added to the two that are `a` and `b` places above it, round the word.
abbrev pub linear_word : ℕ → ℕ → ℕ → ℕ
linear_word x a b = word_from 64 λ i. (bit x i + bit x ((i + a) % 64) + bit x ((i + b) % 64)) % 2

abbrev pub linear_layer : Words → Words
linear_layer w = record {
  x0 = linear_word w.x0 19 28;
  x1 = linear_word w.x1 61 39;
  x2 = linear_word w.x2 1 6;
  x3 = linear_word w.x3 10 17;
  x4 = linear_word w.x4 7 41;
}

-- one round, and `left` rounds from `first_round` on
abbrev pub published_round : ℕ → Words → Words
published_round c w = linear_layer (table_layer (record w { x2 = bit_xor w.x2 c }))

unfoldable pub published_rounds : ℕ → ℕ → Words → Words
published_rounds zero first_round w = w
published_rounds (suc left) first_round w =
    published_rounds left (first_round + 1) (published_round (get_or constants first_round 0) w)

-- ===== src/Masking/Aead/Modes/Default.antt =====
-- The default build, four shares of the key and two of the data, keeps the laws of masking.
use ascon_suite_tcc.Base.{ℕ, refl}
use ascon_suite_tcc.Core.Word.{right_rotate_64}
use ascon_suite_tcc.Core.Word.Bits.{IsWord}
use ascon_suite_tcc.Core.Word.Symbolic.{words}
use ascon_suite_tcc.Masking.Word.{value2, value4}
use ascon_suite_tcc.Masking.Shares.Padding.{word_pad_lem, word_separator_lem}
use ascon_suite_tcc.Masking.Operations.Two.Laws.{ops2-IsMaskedOps}
use ascon_suite_tcc.Masking.Operations.Four.Laws.{ops4-IsMaskedOps}
use ascon_suite_tcc.Masking.State.Laws.{copies-StandsFor}
use ascon_suite_tcc.Masking.Aead.Word.{Pads}
use ascon_suite_tcc.Masking.Aead.Modes.{default_build}
use ascon_suite_tcc.Masking.Aead.Modes.Laws.{IsMaskedBuild}

two-Pads : Pads (value2 words)
two-Pads = record {
  pad-IsMasked = λ m k h. (word_pad_lem m h k).0;
  pad_lem = λ m k h. (word_pad_lem m h k).1;
  separator-IsMasked = λ m h. (word_separator_lem m h).0;
  separator_lem = λ m h. (word_separator_lem m h).1;
}

module _ {T : Type 0} (generate : T → ℕ × T) (small : (t : T) → IsWord (generate t).0) where
  pub default-IsMaskedBuild : IsMaskedBuild (default_build generate) (value4 words) (value2 words)
  unfolding right_rotate_64
  default-IsMaskedBuild = record {
    key_laws = ops4-IsMaskedOps generate small;
    data_laws = ops2-IsMaskedOps generate small;
    data_pads = two-Pads;
    nothing = refl;
    refresh_lem = λ p t h. record {
      word0 = small t;
      word1 = small (generate t).1;
      word2 = small (generate (generate t).1).1;
    };
    to_data = λ w t h. (copies-StandsFor generate small w t h).1;
    from_data = λ w t h. (copies-StandsFor generate small w t h).4;
  }

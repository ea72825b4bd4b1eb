-- ===== src/Siv.antt =====
-- The SIV modes of src/siv/ascon-siv-{128,128a,80pq}.c: a first pass over the plaintext makes the
-- tag, and a second encrypts under the tag as nonce.
mod Tests
pub mod Init
pub mod Laws
pub mod Api
use ascon_suite_tcc.Base.{
  ℕ, ◌+◌, ◌-◌, false, bit_xor, List, [], ◌∷◌, ◌++◌, ltb, if◌then◌else◌, length, take, drop,
}
use ascon_suite_tcc.Core.Snp.{State, init, squeeze}
use ascon_suite_tcc.Aead.Common.{absorb}
use ascon_suite_tcc.Aead.Tag.{Checked, check_tag}
use ascon_suite_tcc.Aead.Variant.{Variant, finish}
use ascon_suite_tcc.Aead.Oneshot.{Sealed, Opened, too_short, opened, bind_ad}
use ascon_suite_tcc.Aead.Ofb.{ofb}

-- `lw_xor_block_2_src(dest, src1, src2, len)` with the `len` bytes of `src2`
unfoldable pub xor_block_2_src : List ℕ → List ℕ → List ℕ
xor_block_2_src src1 [] = []
xor_block_2_src [] (y ∷ src2) = []
xor_block_2_src (x ∷ src1) (y ∷ src2) = bit_xor x y ∷ xor_block_2_src src1 src2

-- one block of `ascon_siv_encrypt_8` and `ascon_siv_encrypt_16`: the rate is squeezed and added
unfoldable pub siv_block : ℕ → State → List ℕ → List ℕ
siv_block rate s src = xor_block_2_src (squeeze s 0 rate) src

-- In what the three files differ: `auth` sets up with IV1, `setup2` with IV2.
pub record SivVariant : Type 0 where
  pub auth : Variant
  pub setup2 : State → List ℕ → List ℕ → State

module _ (v : SivVariant) where
  -- `ascon_siv_encrypt_8`, `ascon_siv_encrypt_16`, `ascon_siv_encrypt_8_80pq`
  unfoldable pub siv_crypt : State → List ℕ → List ℕ
  siv_crypt s src = (ofb v.auth.rate v.auth.first_round (siv_block v.auth.rate) s src).out

  -- The authentication phase, from `ascon*_siv_init` with IV1 to the tag.
  unfoldable pub siv_tag : List ℕ → List ℕ → List ℕ → List ℕ → List ℕ
  siv_tag m ad npub k =
      let s = bind_ad v.auth (v.auth.setup init k npub) ad in
      finish v.auth (absorb v.auth.rate v.auth.first_round s m false) k

  -- `ascon*_siv_encrypt`
  unfoldable pub siv_encrypt : List ℕ → List ℕ → List ℕ → List ℕ → Sealed
  siv_encrypt m ad npub k =
      let tag = siv_tag m ad npub k in
      record { c = siv_crypt (v.setup2 init k tag) m ++ tag; clen = length m + 16 }

  -- `ascon*_siv_decrypt`
  unfoldable pub siv_decrypt : List ℕ → List ℕ → List ℕ → List ℕ → Opened
  siv_decrypt c ad npub k =
      let clen = length c - 16 in
      let m = siv_crypt (v.setup2 init k (take 16 (drop clen c))) (take clen c) in
      let checked = check_tag m (siv_tag m ad npub k) (take 16 (drop clen c)) in
      if ltb (length c) 16 then too_short else opened checked.result clen checked.plaintext

-- ===== src/Mac/Kmac/Laws.antt =====
-- KMAC as the customizable XOF that it is defined by, with messages and outputs in pieces.
use ascon_suite_tcc.Base.{
  ℕ, [], ◌∷◌, ◌++◌, append-nil, ◌≡◌, refl, sym, ap, ◌∙◌, ◌==◌, ==_iff, Bool-cases, inl, inr, ltb,
  some, List, length, arith,
}
use ascon_suite_tcc.Core.Permutation.{permute}
use ascon_suite_tcc.Core.Word.{be_store_word64}
use ascon_suite_tcc.Core.Snp.{overwrite_bytes}
use ascon_suite_tcc.Aead.Incremental.Packet.{flatten}
use ascon_suite_tcc.Hash.Xof.{Xof, absorb, absorb_custom, squeeze, squeeze_a}
use ascon_suite_tcc.Hash.Xof.Init.{
  Flavour, xof_flavour, xofa_flavour, init_table, init_custom, format_name,
}
use ascon_suite_tcc.Hash.Xof.Pieces.{
  absorb_pieces, squeeze_pieces, total, IsAbsorbing, absorb-IsAbsorbing, xof_pieces, xofa_pieces,
}
use ascon_suite_tcc.Mac.Kmac.{
  kmac_iv, kmaca_iv, kmac_name, kdf_name, kmac_init, kmac, kdf_init, kdf, ascon_kmac, ascon_kmaca,
  ascon_kmac_init, ascon_kmaca_init, ascon_kdf, ascon_kdf_init, ascon_kdfa, ascon_kdfa_init,
}

kmac_table :
    (custom : List ℕ)
    → init_custom xof_flavour (some kmac_name) custom 32
      ≡ absorb_custom 0 (init_table kmac_iv) custom
unfolding init_custom format_name overwrite_bytes permute be_store_word64
kmac_table custom = refl

kmaca_table :
    (custom : List ℕ)
    → init_custom xofa_flavour (some kmac_name) custom 32
      ≡ absorb_custom 4 (init_table kmaca_iv) custom
unfolding init_custom format_name overwrite_bytes permute be_store_word64
kmaca_table custom = refl

general_lem :
    (f : Flavour) (iv key custom : List ℕ) (outlen : ℕ)
    → init_custom f (some kmac_name) custom 32 ≡ absorb_custom f.block_round (init_table iv) custom
    → kmac_init f iv key custom outlen
      ≡ absorb f.block_round (init_custom f (some kmac_name) custom outlen) key
unfolding kmac_init
general_lem f iv key custom outlen table = elim (Bool-cases (outlen == 32)) [
  | inl e ↦ rw e (
      ap (λ st. absorb f.block_round st key)
        (sym table ∙ ap (init_custom f (some kmac_name) custom) (sym ((==_iff outlen 32).0 e))))
  | inr e ↦ rw e refl
]

-- For every output length, the length with a precomputed state among them, KMAC and KMACA start
-- from the sponge that is customised with the name "KMAC" and absorb the key.
kmac_init_lem :
    (key custom : List ℕ) (outlen : ℕ)
    → (ascon_kmac_init key custom outlen
        ≡ absorb 0 (init_custom xof_flavour (some kmac_name) custom outlen) key)
      × (ascon_kmaca_init key custom outlen
          ≡ absorb 4 (init_custom xofa_flavour (some kmac_name) custom outlen) key)
kmac_init_lem key custom outlen = (
  general_lem xof_flavour kmac_iv key custom outlen (kmac_table custom),
  general_lem xofa_flavour kmaca_iv key custom outlen (kmaca_table custom),
)

absorb_custom-IsAbsorbing :
    (block_round : ℕ) (st : Xof) (custom : List ℕ)
    → IsAbsorbing st
    → IsAbsorbing (absorb_custom block_round st custom)
unfolding absorb_custom
absorb_custom-IsAbsorbing block_round st custom h = elim (Bool-cases (ltb 0 (length custom))) [
  | inl e ↦ rw e (omega arith, (absorb-IsAbsorbing block_round st custom h).1)
  | inr e ↦ rw e h
]

pub init_custom-IsAbsorbing :
    (f : Flavour) (name custom : List ℕ) (outlen : ℕ)
    → IsAbsorbing (init_custom f (some name) custom outlen)
unfolding init_custom
init_custom-IsAbsorbing f name custom outlen =
    absorb_custom-IsAbsorbing f.block_round _ custom (omega arith, refl)

kmac_init-IsAbsorbing :
    (key custom : List ℕ) (outlen : ℕ)
    → IsAbsorbing (ascon_kmac_init key custom outlen)
      × IsAbsorbing (ascon_kmaca_init key custom outlen)
kmac_init-IsAbsorbing key custom outlen =
    let e = kmac_init_lem key custom outlen in
    (
      rw e.0 (
          absorb-IsAbsorbing 0 _ key (init_custom-IsAbsorbing xof_flavour kmac_name custom outlen)),
      rw e.1 (
          absorb-IsAbsorbing 4 _ key
            (init_custom-IsAbsorbing xofa_flavour kmac_name custom outlen)),
    )

kmac_any_pieces :
    (key custom : List ℕ) (xs : List (List ℕ)) (ns : List ℕ)
    → (squeeze_pieces squeeze (absorb_pieces 0 (ascon_kmac_init key custom (total ns)) xs) ns
        ≡ ascon_kmac key (flatten xs) custom (total ns))
      × (squeeze_pieces squeeze_a (absorb_pieces 4 (ascon_kmaca_init key custom (total ns)) xs) ns
          ≡ ascon_kmaca key (flatten xs) custom (total ns))
unfolding kmac
kmac_any_pieces key custom xs ns =
    let h = kmac_init-IsAbsorbing key custom (total ns) in
    (xof_pieces _ xs ns h.0, xofa_pieces _ xs ns h.1)

-- KMAC by its definition: the customizable XOF with the function name "KMAC", of the key and behind it
-- the message
abbrev pub kmac_of : Flavour → List ℕ → List ℕ → List ℕ → ℕ → List ℕ
kmac_of f key message custom outlen =
    let named = init_custom f (some (75 ∷ 77 ∷ 65 ∷ 67 ∷ [])) custom outlen in
    (f.squeeze_call (absorb f.block_round named (key ++ message)) outlen).out

-- The incremental functions, as the definition.
kmac_definition :
    (key custom : List ℕ) (xs : List (List ℕ)) (ns : List ℕ)
    → (squeeze_pieces squeeze (absorb_pieces 0 (ascon_kmac_init key custom (total ns)) xs) ns
        ≡ kmac_of xof_flavour key (flatten xs) custom (total ns))
      × (squeeze_pieces squeeze_a (absorb_pieces 4 (ascon_kmaca_init key custom (total ns)) xs) ns
          ≡ kmac_of xofa_flavour key (flatten xs) custom (total ns))
unfolding absorb_pieces flatten
kmac_definition key custom xs ns =
    let e = kmac_init_lem key custom (total ns) in
    let h = init_custom-IsAbsorbing xof_flavour kmac_name custom (total ns) in
    let h' = init_custom-IsAbsorbing xofa_flavour kmac_name custom (total ns) in
    (
      ap (λ st. squeeze_pieces squeeze (absorb_pieces 0 st xs) ns) e.0
          ∙ xof_pieces _ (key ∷ xs) ns h,
      ap (λ st. squeeze_pieces squeeze_a (absorb_pieces 4 st xs) ns) e.1
          ∙ xofa_pieces _ (key ∷ xs) ns h',
    )

-- KMAC and KMACA compute the customizable XOF or XOFA, with the function name "KMAC", the customization
-- string and the output length, of the key and behind it the message. This holds for the one-shot
-- functions, and for a message that is absorbed in any pieces and a tag that is squeezed in any
-- pieces, which have the length asked for together; and for every length, that of the precomputed
-- states among them.
pub kmac_pieces :
    (key custom : List ℕ) (xs : List (List ℕ)) (ns : List ℕ)
    → (squeeze_pieces squeeze (absorb_pieces 0 (ascon_kmac_init key custom (total ns)) xs) ns
        ≡ kmac_of xof_flavour key (flatten xs) custom (total ns))
      × (ascon_kmac key (flatten xs) custom (total ns)
          ≡ kmac_of xof_flavour key (flatten xs) custom (total ns))
      × (squeeze_pieces squeeze_a (absorb_pieces 4 (ascon_kmaca_init key custom (total ns)) xs) ns
          ≡ kmac_of xofa_flavour key (flatten xs) custom (total ns))
      × (ascon_kmaca key (flatten xs) custom (total ns)
          ≡ kmac_of xofa_flavour key (flatten xs) custom (total ns))
kmac_pieces key custom xs ns =
    let pieces = kmac_any_pieces key custom xs ns in
    let named = kmac_definition key custom xs ns in
    (named.0, sym pieces.0 ∙ named.0, named.1, sym pieces.1 ∙ named.1)

-- Key material that is taken in any pieces, which have the length asked for together, is what the
-- one-shot KDF and KDFA give.
kdf_pieces :
    (key custom : List ℕ) (ns : List ℕ)
    → (squeeze_pieces squeeze (ascon_kdf_init key custom (total ns)) ns
        ≡ ascon_kdf key custom (total ns))
      × (squeeze_pieces squeeze_a (ascon_kdfa_init key custom (total ns)) ns
          ≡ ascon_kdfa key custom (total ns))
unfolding kdf kdf_init absorb_pieces flatten
kdf_pieces key custom ns =
    let h = init_custom-IsAbsorbing xof_flavour kdf_name custom (total ns) in
    let h' = init_custom-IsAbsorbing xofa_flavour kdf_name custom (total ns) in
    let whole = append-nil key in
    (
      xof_pieces _ (key ∷ []) ns h ∙ ap (λ k. (squeeze (absorb 0 _ k) (total ns)).out) whole,
      xofa_pieces _ (key ∷ []) ns h' ∙ ap (λ k. (squeeze_a (absorb 4 _ k) (total ns)).out) whole,
    )

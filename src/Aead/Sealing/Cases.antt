-- ===== src/Aead/Sealing/Cases.antt =====
-- Everything that a decryption can do, for every mode that fills the interface.
use mathlib.Core.Path.{subst}
use ascon_suite_tcc.Base.{
  ℕ, ◌-◌, ◌<◌, ◌≤◌, ◌≡◌, ◌≢◌, ◌⊎◌, inl, inr, sym, ap, ◌∙◌, arith, List, ◌++◌, ltb, Bool-cases,
  length, length-append, take, drop, take-append-drop, replicate,
}
use ascon_suite_tcc.Base.Bytes.{IsBytes, take-IsBytes, drop-IsBytes}
use ascon_suite_tcc.Aead.Tag.{minus_one}
use ascon_suite_tcc.Aead.Tag.Laws.{check_tag_self, check_tag_lem, bytes-discrete}
use ascon_suite_tcc.Aead.Oneshot.{Opened, too_short, opened}
use ascon_suite_tcc.Aead.Oneshot.Cases.{append_parts, last_16}
use ascon_suite_tcc.Aead.Sealing.{Sealing, seal, unseal}

-- A decryption: it rejects what is shorter than a tag, and unseals the rest.
module _ (s : Sealing) (decrypt : List ℕ → Opened)
    (short : (c : List ℕ) → length c < 16 → decrypt c ≡ too_short)
    (long : (c tag : List ℕ) → length tag ≡ 16 → decrypt (c ++ tag) ≡ unseal s c tag) where
  pub unseal-seal : (m : List ℕ) → IsBytes m → decrypt (seal s m) ≡ opened 0 (length m) m
  unseal-seal m h =
      let t = s.tag_of m in
      long (s.body t m) t (s.length-tag_of m)
      ∙ rw (s.body_inverse t m, s.length-body t m, check_tag_self m t h)

  abbrev pub Accepted : List ℕ → Type 0
  Accepted c = (m : List ℕ) × (seal s m ≡ c) × (decrypt c ≡ opened 0 (length m) m)

  abbrev pub Rejected : List ℕ → Type 0
  Rejected c =
      (16 ≤ length c)
      × ((m : List ℕ) → seal s m ≢ c)
      × (decrypt c ≡ opened minus_one (length c - 16) (replicate (length c - 16) 0))

  seal_parts :
      (m c tag : List ℕ) → length tag ≡ 16 → seal s m ≡ c ++ tag → s.tag_of (s.body tag c) ≡ tag
  seal_parts m c tag h e =
      let t = s.tag_of m in
      let parts = append_parts (s.body t m) c t tag e (s.length-tag_of m ∙ sym h) in
      rw (← parts.1, ← parts.0, s.body_inverse t m)

  cases_split :
      (c tag : List ℕ)
      → IsBytes c
      → IsBytes tag
      → length tag ≡ 16
      → Accepted (c ++ tag) ⊎ Rejected (c ++ tag)
  cases_split c tag hc ht h =
      let m = s.body tag c in
      let mine =
        check_tag_lem m (s.tag_of m) tag (s.body-IsBytes tag c hc) (s.tag_of-IsBytes m) ht
          (s.length-tag_of m ∙ sym h) in
      elim (bytes-discrete (s.tag_of m) tag) [
        | yes same ↦ inl (
          m,
          ap (λ t. s.body t m ++ t) same ∙ ap (λ b. b ++ tag) (s.body_inverse tag c),
          long c tag h ∙ rw (mine.0 same, s.length-body tag c),
        )
        | no other ↦ inr (
          omega (arith, length-append c tag),
          λ p e. other (seal_parts p c tag h e),
          long c tag h ∙ rw (mine.1 other, s.length-body tag c, mlen),
        )
      ]
    where
      mlen : length (c ++ tag) - 16 ≡ length c
      mlen = omega (arith, length-append c tag)

  pub unseal_cases :
      (c : List ℕ)
      → IsBytes c
      → (length c < 16) × (decrypt c ≡ too_short) ⊎ (Accepted c ⊎ Rejected c)
  unseal_cases c hc = elim (Bool-cases (ltb (length c) 16)) [
    | inl few ↦ inl (ground arith, short c (ground arith))
    | inr many ↦ inr (
        subst (λ z. Accepted z ⊎ Rejected z) (take-append-drop (length c - 16) c)
          (cases_split (take (length c - 16) c) (drop (length c - 16) c)
            (take-IsBytes (length c - 16) c hc) (drop-IsBytes (length c - 16) c hc)
            (last_16 c (ground arith))))
  ]

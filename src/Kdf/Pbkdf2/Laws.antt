-- ===== src/Kdf/Pbkdf2/Laws.antt =====
-- PBKDF2 gives the derived key of RFC 8018.
use ascon_suite_tcc.Base.{
  append-nil, ℕ, zero, suc, some, ◌+◌, ◌-◌, ◌*◌, ◌/◌, ◌%◌, ◌^◌, ◌<◌, ◌≤◌, ◌≡◌, refl, sym, ap, ◌∙◌,
  arith, inl, inr, Bool-cases, List, [], ◌∷◌, ◌++◌, ltb, leb, leb→le, ◌==◌, ==_iff, length, take,
}
use native.Mathlib.Nat.{le_refl}
use ascon_suite_tcc.Core.Word.{be_store_word32}
use ascon_suite_tcc.Aead.Incremental.Packet.{flatten}
use ascon_suite_tcc.Hash.Xof.{absorb, squeeze}
use ascon_suite_tcc.Hash.Xof.Init.{xof_flavour, init_custom}
use ascon_suite_tcc.Hash.Xof.Pieces.{absorb_pieces_lem, absorb-IsAbsorbing}
use ascon_suite_tcc.Hash.Xof.Emit.Append.{length-squeeze}
use ascon_suite_tcc.Mac.Kmac.Laws.{init_custom-IsAbsorbing}
use ascon_suite_tcc.Mac.Hmac.Laws.{rfc_hmac, pieces_lem, length-hash_digest, length-rfc_hmac}
use ascon_suite_tcc.Kdf.Hkdf.Expand.{take_within}
use ascon_suite_tcc.Kdf.Pbkdf2.{
  lw_xor_block, f_rounds, pbkdf2_f, pbkdf2_blocks, pbkdf2, pbkdf2_name, run_xof, run_hmac,
  ascon_pbkdf2, ascon_pbkdf2_hmac,
}

-- RFC 8018, section 5.2, for a pseudorandom function under a password: the results that follow
-- `u`, each made from the one before.
abbrev pub iterates : (List ℕ → List ℕ) → ℕ → List ℕ → List (List ℕ)
iterates prf zero u = []
iterates prf (suc n) u = prf u ∷ iterates prf n (prf u)

abbrev pub sum_of : List ℕ → List (List ℕ) → List ℕ
sum_of t [] = t
sum_of t (u ∷ us) = sum_of (lw_xor_block t u) us

-- F is the sum of `count` results, the first of the salt with the four bytes of the number.
abbrev pub rfc_f : (List ℕ → List ℕ) → List ℕ → ℕ → ℕ → List ℕ
rfc_f prf salt count i =
    let first = prf (salt ++ be_store_word32 i) in sum_of first (iterates prf (count - 1) first)

-- `n` blocks, the first with number `i`
abbrev pub rfc_blocks : (List ℕ → List ℕ) → List ℕ → ℕ → ℕ → ℕ → List ℕ
rfc_blocks prf salt count zero i = []
rfc_blocks prf salt count (suc n) i = rfc_f prf salt count i ++ rfc_blocks prf salt count n (suc i)

-- the first bytes of as many blocks as it takes
abbrev pub rfc_pbkdf2 : (List ℕ → List ℕ) → List ℕ → ℕ → ℕ → List ℕ
rfc_pbkdf2 prf salt count outlen = take outlen (rfc_blocks prf salt count ((outlen + 31) / 32) 1)

length-lw_xor_block : (dest src : List ℕ) → length (lw_xor_block dest src) ≡ length dest
unfolding lw_xor_block
length-lw_xor_block [] src = refl
length-lw_xor_block (x ∷ dest) [] = refl
length-lw_xor_block (x ∷ dest) (y ∷ src) = ap suc (length-lw_xor_block dest src)

length-sum_of : (t : List ℕ) (us : List (List ℕ)) → length (sum_of t us) ≡ length t
length-sum_of t [] = refl
length-sum_of t (u ∷ us) = length-sum_of (lw_xor_block t u) us ∙ length-lw_xor_block t u

module _ (run : List (List ℕ) → List ℕ) (prf : List ℕ → List ℕ)
    (run_lem : (xs : List (List ℕ)) → run xs ≡ prf (flatten xs))
    (length-prf : (m : List ℕ) → length (prf m) ≡ 32) where
  run_one : (u : List ℕ) → run (u ∷ []) ≡ prf u
  unfolding flatten
  run_one u = run_lem (u ∷ []) ∙ ap prf (append-nil u)

  run_first : (salt b : List ℕ) → run (salt ∷ b ∷ []) ≡ prf (salt ++ b)
  unfolding flatten
  run_first salt b = run_lem (salt ∷ b ∷ []) ∙ ap (λ z. prf (salt ++ z)) (append-nil b)

  rounds_lem :
      (fuel : ℕ) (t u : List ℕ) (count : ℕ)
      → count ≤ fuel
      → f_rounds run fuel t u count ≡ sum_of t (iterates prf (count - 2) u)
  unfolding f_rounds
  rounds_lem zero t u count h = let none : count - 2 ≡ 0 = omega arith in rw none refl
  rounds_lem (suc fuel) t u count h = elim (Bool-cases (ltb 2 count)) [
    | inl e ↦ rw e (
        let left : count - 2 ≡ suc (count - 1 - 2) = ground arith in
        rw (left, run_one u)
          (rounds_lem fuel (lw_xor_block t (prf u)) (prf u) (count - 1) (omega arith)))
    | inr e ↦ rw e (let none : count - 2 ≡ 0 = ground arith in rw none refl)
  ]

  f_lem : (salt : List ℕ) (count i : ℕ) → pbkdf2_f run salt count i ≡ rfc_f prf salt count i
  unfolding pbkdf2_f
  f_lem salt count i = elim (Bool-cases (ltb 1 count)) [
    | inl e ↦ rw e (
        let first = prf (salt ++ be_store_word32 i) in
        let left : count - 1 ≡ suc (count - 2) = ground arith in
        rw (left, run_first salt (be_store_word32 i), run_one first)
          (rounds_lem count (lw_xor_block first (prf first)) (prf first) count (le_refl _)))
    | inr e ↦
        rw e
          (let none : count - 1 ≡ 0 = ground arith in rw none (run_first salt (be_store_word32 i)))
  ]

  length-rfc_f : (salt : List ℕ) (count i : ℕ) → length (rfc_f prf salt count i) ≡ 32
  length-rfc_f salt count i =
      let first = prf (salt ++ be_store_word32 i) in
      length-sum_of first (iterates prf (count - 1) first) ∙ length-prf (salt ++ be_store_word32 i)

  take_over :
      (t more : List ℕ) (n : ℕ) → length t ≤ n → take n (t ++ more) ≡ t ++ take (n - length t) more
  take_over [] more n h = ap (λ k. take k more) (omega arith)
  take_over (x ∷ t) more zero h = absurd (omega arith)
  take_over (x ∷ t) more (suc n) h =
      ap (λ r. x ∷ r) (take_over t more n (omega arith))
      ∙ ap (λ k. x ∷ (t ++ take k more)) (omega arith)

  blocks_lem :
      (fuel n : ℕ) (salt : List ℕ) (count i outlen : ℕ)
      → outlen ≤ fuel
      → outlen ≤ 32 * n
      → i + n < 2 ^ 64
      → pbkdf2_blocks run fuel salt count i outlen ≡ take outlen (rfc_blocks prf salt count n i)
  unfolding pbkdf2_blocks
  blocks_lem zero n salt count i outlen h k b = let none : outlen ≡ 0 = omega arith in rw none refl
  blocks_lem (suc fuel) zero salt count i outlen h k b =
      let none : outlen ≡ 0 = omega arith in rw none refl
  blocks_lem (suc fuel) (suc n) salt count i outlen h k b = elim (Bool-cases (outlen == 0)) [
    | inl e ↦ let none = (==_iff outlen 0).0 e in rw none refl
    | inr e ↦ rw e (
        let now = rfc_f prf salt count i in
        let behind = rfc_blocks prf salt count n (suc i) in
        let size = length-rfc_f salt count i in
        elim (Bool-cases (leb 32 outlen)) [
          | inl full ↦
              rw (full, f_lem salt count i)
                (let next : (i + 1) % 2 ^ 64 ≡ suc i = omega arith in
                  let enough : 32 ≤ outlen = leb→le 32 outlen full in
                  rw next (
                    ap (λ z. now ++ z)
                      (blocks_lem fuel n salt count (suc i) (outlen - 32) (omega arith)
                        (omega arith) (omega arith))
                    ∙ sym (
                        take_over now behind outlen (omega (arith, size))
                        ∙ ap (λ m. now ++ take (outlen - m) behind) size)))
          | inr part ↦
              rw (part, f_lem salt count i)
                (let short : outlen ≤ length now = ground (arith, size) in
                  sym (take_within outlen now behind short))
        ])
  ]

  pbkdf2_lem :
      (salt : List ℕ) (count outlen : ℕ)
      → outlen ≤ (2 ^ 32 - 1) * 32
      → pbkdf2 run salt count outlen ≡ rfc_pbkdf2 prf salt count outlen
  unfolding pbkdf2
  pbkdf2_lem salt count outlen h =
      blocks_lem outlen ((outlen + 31) / 32) salt count 1 outlen (le_refl _) (omega arith)
        (omega arith)

-- The pseudorandom function of `ascon_pbkdf2`: XOF with the name "PBKDF2" under the password.
abbrev pub prf_xof : List ℕ → List ℕ → List ℕ
prf_xof password m =
    (squeeze (absorb 0 (init_custom xof_flavour (some pbkdf2_name) password 32) m) 32).out

run_xof_lem :
    (password : List ℕ) (xs : List (List ℕ)) → run_xof password xs ≡ prf_xof password (flatten xs)
run_xof_lem password xs =
    ap (λ st. (squeeze st 32).out)
      (absorb_pieces_lem 0 (init_custom xof_flavour (some pbkdf2_name) password 32) xs
        (init_custom-IsAbsorbing xof_flavour pbkdf2_name password 32))

length-prf_xof : (password m : List ℕ) → length (prf_xof password m) ≡ 32
length-prf_xof password m =
    let st = init_custom xof_flavour (some pbkdf2_name) password 32 in
    length-squeeze (absorb 0 st m) 32
      (absorb-IsAbsorbing 0 st m (init_custom-IsAbsorbing xof_flavour pbkdf2_name password 32)).0

-- For an output of at most 2 ^ 32 - 1 blocks of 32 bytes, as RFC 8018 allows it, any password, salt
-- and count, both functions give the derived key of the RFC: one with XOF under the name "PBKDF2"
-- and the password as pseudorandom function, the other with the HMAC of RFC 2104. A count of 0 is
-- taken as 1.
pub pbkdf2-eq-rfc_pbkdf2 :
    (outlen : ℕ) (password salt : List ℕ) (count : ℕ)
    → outlen ≤ (2 ^ 32 - 1) * 32
    → (ascon_pbkdf2 outlen password salt count ≡ rfc_pbkdf2 (prf_xof password) salt count outlen)
      × (ascon_pbkdf2_hmac outlen password salt count
          ≡ rfc_pbkdf2 (rfc_hmac xof_flavour password) salt count outlen)
pbkdf2-eq-rfc_pbkdf2 outlen password salt count h = (
  pbkdf2_lem (run_xof password) (prf_xof password) (run_xof_lem password) (length-prf_xof password)
      salt count outlen h,
  pbkdf2_lem (run_hmac password) (rfc_hmac xof_flavour password)
      (pieces_lem xof_flavour length-hash_digest password)
      (length-rfc_hmac xof_flavour length-hash_digest password) salt count outlen h,
)

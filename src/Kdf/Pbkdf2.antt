-- ===== src/Kdf/Pbkdf2.antt =====
-- PBKDF2 of src/password/ascon-pbkdf2.c and src/password/ascon-pbkdf2-hmac.c. Their text is the
-- same, with the calls that make one application of the pseudorandom function as a parameter: `run`
-- has the inputs that the calls absorb.
pub mod Laws
use ascon_suite_tcc.Base.{
  ℕ, zero, suc, some, ◌+◌, ◌-◌, ◌%◌, ◌^◌, bit_xor, List, [], ◌∷◌, ◌++◌, ltb, leb, ◌==◌,
  if◌then◌else◌, take,
}
use ascon_suite_tcc.Core.Word.{be_store_word32}
use ascon_suite_tcc.Hash.Xof.{Xof, squeeze}
use ascon_suite_tcc.Hash.Xof.Init.{xof_flavour, init_custom}
use ascon_suite_tcc.Hash.Xof.Pieces.{absorb_pieces}
use ascon_suite_tcc.Mac.Hmac.{ascon_hmac_init, ascon_hmac_finalize}

-- `ASCON_PBKDF2_SIZE`, which is `ASCON_HMAC_SIZE` too
abbrev pub pbkdf2_size : ℕ
pbkdf2_size = 32

-- `lw_xor_block(dest, src, len)` with the `len` bytes of `src`
unfoldable pub lw_xor_block : List ℕ → List ℕ → List ℕ
lw_xor_block [] src = []
lw_xor_block (x ∷ dest) [] = x ∷ dest
lw_xor_block (x ∷ dest) (y ∷ src) = bit_xor x y ∷ lw_xor_block dest src

module _ (run : List (List ℕ) → List ℕ) where
  -- `while (count > 2)` of `ascon_pbkdf2_f`, with `count` as fuel
  unfoldable pub f_rounds : ℕ → List ℕ → List ℕ → ℕ → List ℕ
  f_rounds zero t u count = t
  f_rounds (suc fuel) t u count =
      let u' = run (u ∷ []) in
      let more = f_rounds fuel (lw_xor_block t u') u' (count - 1) in if ltb 2 count then more else t

  -- `ascon_pbkdf2_f` and `ascon_pbkdf2_hmac_f`: what is left in `T`
  unfoldable pub pbkdf2_f : List ℕ → ℕ → ℕ → List ℕ
  pbkdf2_f salt count blocknum =
      let t = run (salt ∷ be_store_word32 blocknum ∷ []) in
      let u = run (t ∷ []) in if ltb 1 count then f_rounds count (lw_xor_block t u) u count else t

  -- `while (outlen > 0)`, with `outlen` as fuel; `blocknum` is an `unsigned long` of 64 bits
  unfoldable pub pbkdf2_blocks : ℕ → List ℕ → ℕ → ℕ → ℕ → List ℕ
  pbkdf2_blocks zero salt count blocknum outlen = []
  pbkdf2_blocks (suc fuel) salt count blocknum outlen =
      let t = pbkdf2_f salt count blocknum in
      let more = pbkdf2_blocks fuel salt count ((blocknum + 1) % 2 ^ 64) (outlen - pbkdf2_size) in
      if outlen == 0 then [] else if leb pbkdf2_size outlen then t ++ more else take outlen t

  unfoldable pub pbkdf2 : List ℕ → ℕ → ℕ → List ℕ
  pbkdf2 salt count outlen = pbkdf2_blocks outlen salt count 1 outlen

-- "PBKDF2"
abbrev pub pbkdf2_name : List ℕ
pbkdf2_name = 80 ∷ 66 ∷ 75 ∷ 68 ∷ 70 ∷ 50 ∷ []

-- The calls of `ascon_pbkdf2_f`: a copy of the state that holds the password, which absorbs and
-- squeezes.
abbrev pub run_xof : List ℕ → List (List ℕ) → List ℕ
run_xof password xs =
    let state = init_custom xof_flavour (some pbkdf2_name) password pbkdf2_size in
    (squeeze (absorb_pieces 0 state xs) pbkdf2_size).out

-- The calls of `ascon_pbkdf2_hmac_f`: HMAC is started again from the password.
abbrev pub run_hmac : List ℕ → List (List ℕ) → List ℕ
run_hmac password xs =
    (ascon_hmac_finalize (absorb_pieces 0 (ascon_hmac_init password) xs) password).out

-- The order of the arguments is that of the C functions, with the output length first.
abbrev pub ascon_pbkdf2 : ℕ → List ℕ → List ℕ → ℕ → List ℕ
ascon_pbkdf2 outlen password salt count = pbkdf2 (run_xof password) salt count outlen

abbrev pub ascon_pbkdf2_hmac : ℕ → List ℕ → List ℕ → ℕ → List ℕ
ascon_pbkdf2_hmac outlen password salt count = pbkdf2 (run_hmac password) salt count outlen

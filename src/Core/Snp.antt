-- ===== src/Core/Snp.antt =====
-- The sponge primitives over the 40 bytes of the state: src/core/ascon-direct-xor.c, and the
-- macros of src/core/ascon-util-snp.h and src/core/ascon-util.h that the direct XOR backend uses.
-- A pointer with a count is the list of the bytes there. A write past the state would change
-- nothing here and a read past it would give 0; the callers' positions stay inside.
pub mod Bounds
pub mod Overwrite
pub mod Extract
pub mod Local
use ascon_suite_tcc.Base.{
  ℕ, zero, suc, ◌+◌, bit_xor, List, [], ◌∷◌, ltb, if◌then◌else◌, get_or, set, replicate,
}

-- `ascon_state_t` as `state->B`
abbrev pub State : Type 0
State = List ℕ

-- What a step that reads and writes leaves: the state, and the bytes stored to the destination.
pub record Step : Type 0 where
  pub state : State
  pub out : List ℕ

-- `ascon_init`
abbrev pub init : State
init = replicate 40 0

-- `ascon_free`, which overwrites the state with zeros
abbrev pub free_state : State → State
free_state s = replicate 40 0

-- `ascon_copy`
abbrev pub copy_state : State → State → State
copy_state dest src = src

-- `ascon_acquire` and `ascon_release`, which do nothing to this representation
abbrev pub acquire : State → State
acquire s = s

abbrev pub release : State → State
release s = s

-- `lw_xor_block(state->B + offset, src, len)`
unfoldable pub xor_block : State → List ℕ → ℕ → State
xor_block s [] offset = s
xor_block s (d ∷ data') offset =
    xor_block (set s offset (bit_xor (get_or s offset 0) d)) data' (offset + 1)

-- `memcpy(dest, state->B + offset, count)`
unfoldable pub squeeze : State → ℕ → ℕ → List ℕ
squeeze s offset zero = []
squeeze s offset (suc count) = get_or s offset 0 ∷ squeeze s (offset + 1) count

-- one round of `lw_xor_block_2_dest`: `*_dest2++ = (*_dest++ ^= *_src++)`
unfoldable pub encrypt_byte : State → ℕ → ℕ → State × ℕ
encrypt_byte s offset m = let c = bit_xor (get_or s offset 0) m in (set s offset c, c)

-- one round of `lw_xor_block_swap`: `*_dest2++ = *_dest ^ _temp; *_dest++ = _temp`
unfoldable pub decrypt_byte : State → ℕ → ℕ → State × ℕ
decrypt_byte s offset c = (set s offset c, bit_xor (get_or s offset 0) c)

-- the loop `while (_len > 0) { ...; --_len; }` of both macros, over the bytes of `src`
unfoldable pub each_byte : (State → ℕ → ℕ → State × ℕ) → State → List ℕ → ℕ → Step
each_byte byte s [] offset = record { state = s; out = [] }
each_byte byte s (b ∷ src) offset =
    let now = byte s offset b in
    let rest = each_byte byte now.0 src (offset + 1) in
    record { state = rest.state; out = now.1 ∷ rest.out }

-- `ascon_encrypt_partial` and, at the length of a block, `ascon_encrypt_8` and `ascon_encrypt_16`
abbrev pub encrypt : State → List ℕ → ℕ → Step
encrypt = each_byte encrypt_byte

-- `ascon_decrypt_partial` and, at the length of a block, `ascon_decrypt_8` and `ascon_decrypt_16`
abbrev pub decrypt : State → List ℕ → ℕ → Step
decrypt = each_byte decrypt_byte

-- `ascon_pad`
unfoldable pub pad : State → ℕ → State
pad s offset = set s offset (bit_xor (get_or s offset 0) 0x80)

-- `ascon_separator`
unfoldable pub separator : State → State
separator s = set s 39 (bit_xor (get_or s 39 0) 0x01)

-- `ascon_overwrite_bytes`
unfoldable pub overwrite_bytes : State → List ℕ → ℕ → State
overwrite_bytes s [] offset = s
overwrite_bytes s (d ∷ data') offset =
    if ltb offset 40 then overwrite_bytes (set s offset d) data' (offset + 1) else s

-- `ascon_add_bytes`
unfoldable pub add_bytes : State → List ℕ → ℕ → State
add_bytes s [] offset = s
add_bytes s (d ∷ data') offset =
    if ltb offset 40
    then add_bytes (set s offset (bit_xor (get_or s offset 0) d)) data' (offset + 1)
    else s

-- `ascon_overwrite_with_zeroes`
unfoldable pub overwrite_with_zeroes : State → ℕ → ℕ → State
overwrite_with_zeroes s offset zero = s
overwrite_with_zeroes s offset (suc size) =
    if ltb offset 40 then overwrite_with_zeroes (set s offset 0) (offset + 1) size else s

-- `ascon_extract_bytes`
unfoldable pub extract_bytes : State → ℕ → ℕ → List ℕ
extract_bytes s offset zero = []
extract_bytes s offset (suc size) =
    if ltb offset 40 then get_or s offset 0 ∷ extract_bytes s (offset + 1) size else []

-- `ascon_extract_and_add_bytes`
unfoldable pub extract_and_add_bytes : State → List ℕ → ℕ → List ℕ
extract_and_add_bytes s [] offset = []
extract_and_add_bytes s (d ∷ input) offset =
    if ltb offset 40
    then bit_xor d (get_or s offset 0) ∷ extract_and_add_bytes s input (offset + 1)
    else []

-- `ascon_extract_and_overwrite_bytes`
unfoldable pub extract_and_overwrite_bytes : State → List ℕ → ℕ → Step
extract_and_overwrite_bytes s [] offset = record { state = s; out = [] }
extract_and_overwrite_bytes s (d ∷ input) offset =
    let rest = extract_and_overwrite_bytes (set s offset d) input (offset + 1) in
    if ltb offset 40
    then record { state = rest.state; out = bit_xor d (get_or s offset 0) ∷ rest.out }
    else record { state = s; out = [] }

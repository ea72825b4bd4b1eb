-- ===== src/Lib.antt =====
-- Verification of the C core of the ASCON suite: permutation, sponge primitives, authenticated
-- encryption, the SIV and ISAP modes, hashing, and the keyed functions KMAC, KDF,
-- PRF, MAC, HMAC, HKDF and PBKDF2, the random number generator, and the masked permutation, keys and
-- authenticated encryption.
--
-- Parts and files:
-- - Base: shared names, tests and lists over the native numbers; Base/Bits the laws of the bit
--   operators, Base/Bytes and Base/Slices lists of bytes and pieces of lists.
-- - Core/Word and Core/Permutation: src/core/ascon-util.h (rotation, big-endian loads and stores) and
--   `ascon_permute` of src/core/ascon-c64.c, on the record `Words` of five words.
--   Core/Word/Bits, Linear, Bytes, Split and Replace are the laws of words, Core/Word/Symbolic decides equations between
--   words that hold for each bit. Core/Permutation/Rounds is the published form of the rounds,
--   with the S-box as a table and the linear layer bit by bit, apart from the code.
-- - Core/Snp: the state as its 40 bytes, and the primitives of src/core/ascon-direct-xor.c with the
--   direct XOR macros of src/core/ascon-util-snp.h. Bounds, Overwrite and Local are facts about them.
-- - Core/Hex: src/core/ascon-hex.c, with the characters as ASCII codes. Core/Hex/Symbols is the table of
--   the characters that a text may have.
-- - Aead/Common and Aead/Tag: src/aead/ascon-aead-common.c. The functions for the two rates have one
--   text, with the rate as a parameter. Aead/Stream is the byte-wise specification of these loops.
-- - Aead/Variant: the interface that the rest is written against, filled for ASCON-128, ASCON-128a
--   and ASCON-80pq in Aead/Variant/Ascon from src/aead/ascon-aead-{128,128a,80pq}.c.
-- - Aead/Oneshot: `ascon*_aead_encrypt` and `ascon*_aead_decrypt`. Aead/Incremental: the functions of
--   src/aead/ascon-aead-inc-{128,128a,80pq}.c on a record `Session`. Aead/Nonce:
--   src/aead/ascon-aead-util.c. Aead/Api gives each C function its own name.
-- - Hash/Xof: the sponge of src/hash/ascon-xof.c and src/hash/ascon-xofa.c on a record `Xof`, whose
--   `mode` says whether it absorbs or squeezes. Absorbing has one text with the rate and the
--   rounds between blocks as parameters; squeezing has one for each file (`squeeze`, `squeeze_a`).
--   Hash/Xof/Init starts a state, by tables or by the permutation. Stream and Emit are the byte-wise
--   specifications.
-- - Hash/Api: each C function of src/hash under its own name, ascon-hash.c and ascon-hasha.c with
--   them. Hash/Pieces is about the hash functions as clients of the sponge.
-- - Mac/Kmac: KMAC of src/mac/ascon-kmac.c and src/mac/ascon-kmaca.c, and KDF of src/kdf/ascon-kdf.c
--   and src/kdf/ascon-kdfa.c, as clients of the sponge.
-- - Mac/Prf: src/mac/ascon-prf.c, which absorbs by the text of the XOF with a rate of 32 bytes and
--   squeezes by it with a rate of 16. Hash/Xof/Sponge is about absorbing with any rate.
-- - Mac/Hmac: HMAC of src/mac/ascon-hmac-common.h, for both hash functions. Chunks is about the
--   key block, Laws compares with RFC 2104.
-- - Kdf/Hkdf: HKDF of src/kdf/ascon-hkdf-common.h. Its state supplies a stream of bytes (Expand);
--   Block and Loop are about the loop, Rfc compares with RFC 5869.
-- - Aead/Sealing: the interface of a mode that encrypts and then checks a tag, with a client that
--   holds for every such mode. Aead/Ofb: the loop by which SIV and ISAP encrypt.
-- - Siv: src/siv/ascon-siv-{128,128a,80pq}.c, on the AEAD loops. Siv/Init sets up, Siv/Api names.
-- - Isap: src/isap/ascon-isap-common.h with what its three users define as a record of parameters.
--   Isap/Keys is about saved keys, Isap/Api names.
-- - Kdf/Pbkdf2: src/password/ascon-pbkdf2.c and ascon-pbkdf2-hmac.c, with the calls of the
--   pseudorandom function as a parameter that is filled for each file.
-- - Random/Prng: src/random/ascon-prng.c and src/random/ascon-random.c on a record `Prng`. The system's
--   source `ascon_trng_generate` and the callbacks of a storage are parameters, with the state outside
--   that they read and change. Random/Api has the checks for null pointers. Ready is the invariant,
--   Limit is about the forced re-seed, Seeds about saved seeds. Random/Mixer:
--   src/random/ascon-trng-mixer.c, with the way that the host reads a word from memory as a parameter.
-- - Masking/Word: `ascon_masked_word_t` of src/masking/ascon-masked-word.h with its four shares, for the
--   word backend of 64 bits with rotated shares. Masking/Permute and Masking/Shares:
--   src/masking/ascon-x{2,3,4}-c64.c, one text with what depends on the number of shares as a record.
-- - Masking/Operations: the functions of src/masking/ascon-masked-word-c64.c for two, three and four
--   shares, which fill an interface; Masking/Partial has the loads and stores of less than eight bytes.
-- - Masking/State: src/masking/ascon-masked-state.c. Masking/Key: src/masking/ascon-masked-key.c. Both are
--   written against the interface. The random number generator `ascon_trng_generate_64` is a parameter.
-- - Masking/Aead: src/aead/ascon-aead-masked-common.c, with Word, Lanes, Loops and Rates about one word,
--   the words in the state, the loops and the two rates. Masking/Aead/Modes:
--   src/aead/ascon-aead-masked-{128,128a}.c, written against a record of what the numbers of shares
--   choose, which Default fills.
--
-- Conventions. A byte is a number below 256 and a word a number below 2 ^ 64, with `% 2 ^ w` written
-- where C wraps; an `int` result is its 32-bit pattern. A pointer with a length is the list of the
-- bytes there, and a function that writes through a pointer returns what it writes; buffers do not
-- overlap. A `size_t` is a natural number, since a length in memory does not reach 2 ^ 64.
--
-- Loops over a counter recur on the rounds left. Loops over full blocks take as fuel the length of
-- their input: each round with a positive rate consumes at least one byte, so the fuel is not used
-- up before the input is shorter than a block. A squeeze and the
-- expansions of HKDF and PBKDF2 have the bytes that they still owe as fuel, the padding of a key block
-- its 64 bytes, and the iterations of PBKDF2 the count.
--
-- Not modelled: the assembly backends and the 32-bit and sliced representations of the state,
-- the 32-bit masked words, the masked mode ASCON-80pq and the branch of the masked modes for data that
-- is not masked, the system's sources of entropy, bindings and tools.
-- Erasing secrets behind a one-shot call has no effect that a caller can see and is left out.
pub mod Base
pub mod Core
pub mod Aead
pub mod Hash
pub mod Mac
pub mod Kdf
pub mod Siv
pub mod Isap
pub mod Random
pub mod Masking

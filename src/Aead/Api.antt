-- ===== src/Aead/Api.antt =====
-- The functions of src/aead, for each variant: the shared text of the
-- one-shot and the incremental files at the variant's rate, IV and key positions.
use ascon_suite_tcc.Base.{ℕ, List, Option}
use ascon_suite_tcc.Aead.Variant.Ascon.Laws.{ascon128, ascon128a, ascon80pq}
use ascon_suite_tcc.Aead.Oneshot.{Sealed, Opened, aead_encrypt, aead_decrypt}
use ascon_suite_tcc.Aead.Incremental.{
  Session, reinit, session_init, start, encrypt_block, encrypt_finalize, decrypt_block,
  decrypt_finalize, session_free,
}

-- src/aead/ascon-aead-128.c and src/aead/ascon-aead-inc-128.c
abbrev pub ascon128_aead_encrypt : List ℕ → List ℕ → List ℕ → List ℕ → Sealed
ascon128_aead_encrypt = aead_encrypt ascon128

abbrev pub ascon128_aead_decrypt : List ℕ → List ℕ → List ℕ → List ℕ → Opened
ascon128_aead_decrypt = aead_decrypt ascon128

abbrev pub ascon128_aead_init : Session → Option (List ℕ) → Option (List ℕ) → Session
ascon128_aead_init = session_init ascon128

abbrev pub ascon128_aead_reinit : Session → Option (List ℕ) → Option (List ℕ) → Session
ascon128_aead_reinit = reinit ascon128

abbrev pub ascon128_aead_start : Session → List ℕ → Session
ascon128_aead_start = start ascon128

abbrev pub ascon128_aead_encrypt_block : Session → List ℕ → Session × List ℕ
ascon128_aead_encrypt_block = encrypt_block ascon128

abbrev pub ascon128_aead_encrypt_finalize : Session → Session × List ℕ
ascon128_aead_encrypt_finalize = encrypt_finalize ascon128

abbrev pub ascon128_aead_decrypt_block : Session → List ℕ → Session × List ℕ
ascon128_aead_decrypt_block = decrypt_block ascon128

abbrev pub ascon128_aead_decrypt_finalize : Session → List ℕ → Session × ℕ
ascon128_aead_decrypt_finalize = decrypt_finalize ascon128

abbrev pub ascon128_aead_free : Session → Session
ascon128_aead_free = session_free ascon128

-- src/aead/ascon-aead-128a.c and src/aead/ascon-aead-inc-128a.c
abbrev pub ascon128a_aead_encrypt : List ℕ → List ℕ → List ℕ → List ℕ → Sealed
ascon128a_aead_encrypt = aead_encrypt ascon128a

abbrev pub ascon128a_aead_decrypt : List ℕ → List ℕ → List ℕ → List ℕ → Opened
ascon128a_aead_decrypt = aead_decrypt ascon128a

abbrev pub ascon128a_aead_init : Session → Option (List ℕ) → Option (List ℕ) → Session
ascon128a_aead_init = session_init ascon128a

abbrev pub ascon128a_aead_reinit : Session → Option (List ℕ) → Option (List ℕ) → Session
ascon128a_aead_reinit = reinit ascon128a

abbrev pub ascon128a_aead_start : Session → List ℕ → Session
ascon128a_aead_start = start ascon128a

abbrev pub ascon128a_aead_encrypt_block : Session → List ℕ → Session × List ℕ
ascon128a_aead_encrypt_block = encrypt_block ascon128a

abbrev pub ascon128a_aead_encrypt_finalize : Session → Session × List ℕ
ascon128a_aead_encrypt_finalize = encrypt_finalize ascon128a

abbrev pub ascon128a_aead_decrypt_block : Session → List ℕ → Session × List ℕ
ascon128a_aead_decrypt_block = decrypt_block ascon128a

abbrev pub ascon128a_aead_decrypt_finalize : Session → List ℕ → Session × ℕ
ascon128a_aead_decrypt_finalize = decrypt_finalize ascon128a

abbrev pub ascon128a_aead_free : Session → Session
ascon128a_aead_free = session_free ascon128a

-- src/aead/ascon-aead-80pq.c and src/aead/ascon-aead-inc-80pq.c
abbrev pub ascon80pq_aead_encrypt : List ℕ → List ℕ → List ℕ → List ℕ → Sealed
ascon80pq_aead_encrypt = aead_encrypt ascon80pq

abbrev pub ascon80pq_aead_decrypt : List ℕ → List ℕ → List ℕ → List ℕ → Opened
ascon80pq_aead_decrypt = aead_decrypt ascon80pq

abbrev pub ascon80pq_aead_init : Session → Option (List ℕ) → Option (List ℕ) → Session
ascon80pq_aead_init = session_init ascon80pq

abbrev pub ascon80pq_aead_reinit : Session → Option (List ℕ) → Option (List ℕ) → Session
ascon80pq_aead_reinit = reinit ascon80pq

abbrev pub ascon80pq_aead_start : Session → List ℕ → Session
ascon80pq_aead_start = start ascon80pq

abbrev pub ascon80pq_aead_encrypt_block : Session → List ℕ → Session × List ℕ
ascon80pq_aead_encrypt_block = encrypt_block ascon80pq

abbrev pub ascon80pq_aead_encrypt_finalize : Session → Session × List ℕ
ascon80pq_aead_encrypt_finalize = encrypt_finalize ascon80pq

abbrev pub ascon80pq_aead_decrypt_block : Session → List ℕ → Session × List ℕ
ascon80pq_aead_decrypt_block = decrypt_block ascon80pq

abbrev pub ascon80pq_aead_decrypt_finalize : Session → List ℕ → Session × ℕ
ascon80pq_aead_decrypt_finalize = decrypt_finalize ascon80pq

abbrev pub ascon80pq_aead_free : Session → Session
ascon80pq_aead_free = session_free ascon80pq

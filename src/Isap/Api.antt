-- ===== src/Isap/Api.antt =====
-- The functions of src/isap: the variants with their key sizes and rounds.
use ascon_suite_tcc.Base.{ℕ, List}
use ascon_suite_tcc.Aead.Oneshot.{Sealed, Opened}
use ascon_suite_tcc.Isap.{
  IsapVariant, KeyState, isap_init, load_key, save_key, isap_free, isap_encrypt, isap_decrypt,
}

-- src/isap/ascon-isap-128.c
abbrev pub isap128 : IsapVariant
isap128 = record { key_size = 16; rounds_h = 12; rounds_e = 12; rounds_b = 12; rounds_k = 12 }

abbrev pub ascon128_isap_aead_init : List ℕ → KeyState
ascon128_isap_aead_init = isap_init isap128

abbrev pub ascon128_isap_aead_load_key : List ℕ → KeyState
ascon128_isap_aead_load_key = load_key

abbrev pub ascon128_isap_aead_save_key : KeyState → List ℕ
ascon128_isap_aead_save_key = save_key

abbrev pub ascon128_isap_aead_free : KeyState → KeyState
ascon128_isap_aead_free = isap_free

abbrev pub ascon128_isap_aead_encrypt : List ℕ → List ℕ → List ℕ → KeyState → Sealed
ascon128_isap_aead_encrypt = isap_encrypt isap128

abbrev pub ascon128_isap_aead_decrypt : List ℕ → List ℕ → List ℕ → KeyState → Opened
ascon128_isap_aead_decrypt = isap_decrypt isap128

-- src/isap/ascon-isap-128a.c
abbrev pub isap128a : IsapVariant
isap128a = record { key_size = 16; rounds_h = 12; rounds_e = 6; rounds_b = 1; rounds_k = 12 }

abbrev pub ascon128a_isap_aead_init : List ℕ → KeyState
ascon128a_isap_aead_init = isap_init isap128a

abbrev pub ascon128a_isap_aead_load_key : List ℕ → KeyState
ascon128a_isap_aead_load_key = load_key

abbrev pub ascon128a_isap_aead_save_key : KeyState → List ℕ
ascon128a_isap_aead_save_key = save_key

abbrev pub ascon128a_isap_aead_free : KeyState → KeyState
ascon128a_isap_aead_free = isap_free

abbrev pub ascon128a_isap_aead_encrypt : List ℕ → List ℕ → List ℕ → KeyState → Sealed
ascon128a_isap_aead_encrypt = isap_encrypt isap128a

abbrev pub ascon128a_isap_aead_decrypt : List ℕ → List ℕ → List ℕ → KeyState → Opened
ascon128a_isap_aead_decrypt = isap_decrypt isap128a

-- src/isap/ascon-isap-80pq.c
abbrev pub isap80pq : IsapVariant
isap80pq = record { key_size = 20; rounds_h = 12; rounds_e = 12; rounds_b = 12; rounds_k = 12 }

abbrev pub ascon80pq_isap_aead_init : List ℕ → KeyState
ascon80pq_isap_aead_init = isap_init isap80pq

abbrev pub ascon80pq_isap_aead_load_key : List ℕ → KeyState
ascon80pq_isap_aead_load_key = load_key

abbrev pub ascon80pq_isap_aead_save_key : KeyState → List ℕ
ascon80pq_isap_aead_save_key = save_key

abbrev pub ascon80pq_isap_aead_free : KeyState → KeyState
ascon80pq_isap_aead_free = isap_free

abbrev pub ascon80pq_isap_aead_encrypt : List ℕ → List ℕ → List ℕ → KeyState → Sealed
ascon80pq_isap_aead_encrypt = isap_encrypt isap80pq

abbrev pub ascon80pq_isap_aead_decrypt : List ℕ → List ℕ → List ℕ → KeyState → Opened
ascon80pq_isap_aead_decrypt = isap_decrypt isap80pq

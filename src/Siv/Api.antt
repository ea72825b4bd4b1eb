-- ===== src/Siv/Api.antt =====
-- The functions of src/siv under their names.
use ascon_suite_tcc.Base.{ℕ, List}
use ascon_suite_tcc.Aead.Oneshot.{Sealed, Opened}
use ascon_suite_tcc.Siv.{siv_encrypt, siv_decrypt}
use ascon_suite_tcc.Siv.Init.{siv128, siv128a, siv80pq}

-- src/siv/ascon-siv-128.c
abbrev pub ascon128_siv_encrypt : List ℕ → List ℕ → List ℕ → List ℕ → Sealed
ascon128_siv_encrypt = siv_encrypt siv128

abbrev pub ascon128_siv_decrypt : List ℕ → List ℕ → List ℕ → List ℕ → Opened
ascon128_siv_decrypt = siv_decrypt siv128

-- src/siv/ascon-siv-128a.c
abbrev pub ascon128a_siv_encrypt : List ℕ → List ℕ → List ℕ → List ℕ → Sealed
ascon128a_siv_encrypt = siv_encrypt siv128a

abbrev pub ascon128a_siv_decrypt : List ℕ → List ℕ → List ℕ → List ℕ → Opened
ascon128a_siv_decrypt = siv_decrypt siv128a

-- src/siv/ascon-siv-80pq.c
abbrev pub ascon80pq_siv_encrypt : List ℕ → List ℕ → List ℕ → List ℕ → Sealed
ascon80pq_siv_encrypt = siv_encrypt siv80pq

abbrev pub ascon80pq_siv_decrypt : List ℕ → List ℕ → List ℕ → List ℕ → Opened
ascon80pq_siv_decrypt = siv_decrypt siv80pq

-- ===== src/Isap/Keys.antt =====
-- Saving and loading the expanded keys.
use ascon_suite_tcc.Base.{
  ℕ, ◌≡◌, refl, sym, ap, ◌∙◌, arith, List, [], ◌++◌, append-nil, length, length-take, length-drop,
  take, drop, take-append-drop,
}
use ascon_suite_tcc.Base.Slices.{take_prefix, drop_here, take_all}
use ascon_suite_tcc.Core.Snp.{State, init, overwrite_bytes, extract_bytes}
use ascon_suite_tcc.Core.Snp.Overwrite.{fill_state}
use ascon_suite_tcc.Core.Snp.Extract.{extract_bytes-eq-slice}
use ascon_suite_tcc.Isap.{KeyState, load_key, save_key}

extract_all : (s : State) → length s ≡ 40 → extract_bytes s 0 40 ≡ s
extract_all s h = extract_bytes-eq-slice s 0 40 h (omega arith) ∙ take_all s 40 (omega arith)

load_all : (b : List ℕ) → length b ≡ 40 → overwrite_bytes init b 0 ≡ b
unfolding overwrite_bytes
load_all b h = fill_state init b [] [] 40 40 refl h refl refl ∙ append-nil b

-- Two lists of 40 bytes in a row are taken apart again.
halves :
    (a b : List ℕ)
    → length a ≡ 40
    → length b ≡ 40
    → (take 40 (a ++ b) ≡ a) × (take 40 (drop 40 (a ++ b)) ≡ b)
halves a b ha hb = (
  ap (λ n. take n (a ++ b)) (sym ha) ∙ take_prefix a b,
  ap (λ n. take 40 (drop n (a ++ b))) (sym ha)
      ∙ (ap (take 40) (drop_here a b) ∙ take_all b 40 (omega arith)),
)

load_key_lem :
    (a b : List ℕ) → length a ≡ 40 → length b ≡ 40 → load_key (a ++ b) ≡ record { ke = a; ka = b }
unfolding load_key
load_key_lem a b ha hb =
    let parts = halves a b ha hb in rw (parts.0, parts.1, load_all a ha, load_all b hb)

save_key_lem :
    (pk : KeyState) → length pk.ke ≡ 40 → length pk.ka ≡ 40 → save_key pk ≡ pk.ke ++ pk.ka
unfolding save_key
save_key_lem pk he ha = rw (extract_all pk.ke he, extract_all pk.ka ha)

-- For a key state of two times 40 bytes, saving and loading it gives it back; and for a saved key
-- of 80 bytes, loading and saving it gives it back.
pub save_load_key :
    (pk : KeyState) (k : List ℕ)
    → length pk.ke ≡ 40
    → length pk.ka ≡ 40
    → length k ≡ 80
    → (load_key (save_key pk) ≡ pk) × (save_key (load_key k) ≡ k)
save_load_key pk k he ha h = (
  ap load_key (save_key_lem pk he ha) ∙ load_key_lem pk.ke pk.ka he ha,
  ap (λ z. save_key (load_key z)) (sym whole)
      ∙ (ap save_key (load_key_lem (take 40 k) (drop 40 k) first second)
          ∙ (save_key_lem (record { ke = take 40 k; ka = drop 40 k }) first second ∙ whole)),
)
  where
    whole : take 40 k ++ drop 40 k ≡ k
    whole = take-append-drop 40 k

    first : length (take 40 k) ≡ 40
    first = omega (arith, length-take 40 k)

    second : length (drop 40 k) ≡ 40
    second = omega (arith, length-drop 40 k)

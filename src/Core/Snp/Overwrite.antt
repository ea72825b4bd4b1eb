-- ===== src/Core/Snp/Overwrite.antt =====
-- Overwriting bytes of the state, as a splice of lists.
use ascon_suite_tcc.Base.{
  ℕ, ◌+◌, ◌≤◌, ◌≡◌, ◌∙◌, ap, arith, List, [], ◌∷◌, ◌++◌, length, take, drop, set, length-set,
  lt→ltb, append_assoc, length-append, length-drop, append-nil,
}
use native.Mathlib.Nat.{add-zero}
use ascon_suite_tcc.Base.Slices.{
  take-set_below, drop-set_above, take-append-drop_self, take_prefix, drop_prefix, drop_all,
  drop-drop,
}
use ascon_suite_tcc.Core.Snp.{State, overwrite_bytes}

-- Bytes written inside the state replace as many bytes of it.
pub overwrite_bytes-eq-splice :
    (s : State) (src : List ℕ) (offset : ℕ)
    → length s ≡ 40
    → offset + length src ≤ 40
    → overwrite_bytes s src offset ≡ take offset s ++ (src ++ drop (offset + length src) s)
unfolding overwrite_bytes
overwrite_bytes-eq-splice s [] offset h k = rw add-zero (take-append-drop_self s offset)
overwrite_bytes-eq-splice s (b ∷ src) offset h k = rw (lt→ltb offset 40 (omega arith)) (
    overwrite_bytes-eq-splice (set s offset b) src (offset + 1) (length-set s offset b ∙ h)
      (omega arith)
    ∙ rw
        (
          take-set_below s offset b (omega arith),
          drop-set_above s offset b (offset + 1 + length src) (omega arith),
          append_assoc,
        )
        (ap (λ n. take offset s ++ (b ∷ (src ++ drop n s))) (omega arith)))

length-drop_to :
    (s pre : List ℕ) → length s ≡ 40 → length pre ≤ 40 → length (pre ++ drop (length pre) s) ≡ 40
length-drop_to s pre h k =
    omega (arith, length-append pre (drop (length pre) s), length-drop (length pre) s)

-- Writing behind a prefix that has been written extends the prefix.
overwrite_next :
    (s pre src : List ℕ)
    → length s ≡ 40
    → length pre + length src ≤ 40
    → overwrite_bytes (pre ++ drop (length pre) s) src (length pre)
      ≡ (pre ++ src) ++ drop (length (pre ++ src)) s
overwrite_next s pre src h k =
    overwrite_bytes-eq-splice (pre ++ drop (length pre) s) src (length pre)
      (length-drop_to s pre h (omega arith)) k
    ∙ rw (
      take_prefix pre (drop (length pre) s),
      drop_prefix pre (drop (length pre) s) (length src),
      drop-drop s (length pre) (length src),
      length-append pre src,
      append_assoc,
    )

fill_pieces :
    (s : State) (a b c : List ℕ)
    → length s ≡ 40
    → length a + length b + length c ≡ 40
    → overwrite_bytes (overwrite_bytes (overwrite_bytes s a 0) b (length a)) c (length a + length b)
      ≡ a ++ (b ++ c)
fill_pieces s a b c h k =
    rw
      (
        overwrite_next s [] a h (omega arith),
        overwrite_next s a b h (omega arith),
        ← length-append a b,
        overwrite_next s (a ++ b) c h (omega (arith, length-append a b)),
        drop_all s (length ((a ++ b) ++ c)) total,
        append-nil,
      )
      (append_assoc a b c)
  where
    total : length s ≤ length ((a ++ b) ++ c)
    total = omega (arith, length-append (a ++ b) c, length-append a b)

-- Three pieces of 40 bytes together, written one behind the other, are the whole state.
pub fill_state :
    (s : State) (a b c : List ℕ) (i j : ℕ)
    → length s ≡ 40
    → length a ≡ i
    → i + length b ≡ j
    → j + length c ≡ 40
    → overwrite_bytes (overwrite_bytes (overwrite_bytes s a 0) b i) c j ≡ a ++ (b ++ c)
fill_state s a b c i j h p q r = rw (← q, ← p) (fill_pieces s a b c h (omega arith))

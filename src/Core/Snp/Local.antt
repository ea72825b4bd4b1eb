-- ===== src/Core/Snp/Local.antt =====
-- The loops over bytes at a place inside the state, which is split there: what is before and behind
-- stays as it is.
use ascon_suite_tcc.Base.{
  ℕ, zero, suc, ◌+◌, ◌<◌, ◌≤◌, ◌≡◌, refl, sym, ap, ◌∙◌, arith, bit_xor, List, [], ◌∷◌, ◌++◌, length,
  take, get_or, set, length-append, append_assoc,
}
use ascon_suite_tcc.Base.Bits.Laws.{xor_comm, zero_xor}
use ascon_suite_tcc.Core.Snp.{State, each_byte, encrypt_byte, decrypt_byte}

-- the bytes of `mid` combined with as many of `d`, and the rest of `mid`
unfoldable pub overlay : (ℕ → ℕ → ℕ) → List ℕ → List ℕ → List ℕ
overlay f mid [] = mid
overlay f [] (b ∷ d) = []
overlay f (x ∷ mid) (b ∷ d) = f x b ∷ overlay f mid d

-- as many bytes as both have
unfoldable pub zip : (ℕ → ℕ → ℕ) → List ℕ → List ℕ → List ℕ
zip f mid [] = []
zip f [] (b ∷ d) = []
zip f (x ∷ mid) (b ∷ d) = f x b ∷ zip f mid d

-- The step puts `f x b` where `x` was, and gives `g x b`.
abbrev pub ActsBy : (State → ℕ → ℕ → State × ℕ) → (ℕ → ℕ → ℕ) → (ℕ → ℕ → ℕ) → Type 0
ActsBy byte f g =
    (pre post : List ℕ) (x b : ℕ)
    → byte (pre ++ (x ∷ post)) (length pre) b ≡ (pre ++ (f x b ∷ post), g x b)

set_here :
    (pre post : List ℕ) (x v : ℕ) → set (pre ++ (x ∷ post)) (length pre) v ≡ pre ++ (v ∷ post)
set_here [] post x v = refl
set_here (y ∷ pre) post x v = ap (λ r. y ∷ r) (set_here pre post x v)

get_here : (pre post : List ℕ) (x : ℕ) → get_or (pre ++ (x ∷ post)) (length pre) 0 ≡ x
get_here [] post x = refl
get_here (y ∷ pre) post x = get_here pre post x

pub encrypt-ActsBy : ActsBy encrypt_byte bit_xor bit_xor
unfolding encrypt_byte
encrypt-ActsBy pre post x b = rw (get_here pre post x, set_here pre post x (bit_xor x b)) refl

pub decrypt-ActsBy : ActsBy decrypt_byte (λ x b. b) bit_xor
unfolding decrypt_byte
decrypt-ActsBy pre post x b = rw (get_here pre post x, set_here pre post x b) refl

module _ (byte : State → ℕ → ℕ → State × ℕ) (f g : ℕ → ℕ → ℕ) (acts : ActsBy byte f g) where
  pub each_byte-local :
      (pre mid post d : List ℕ)
      → length d ≤ length mid
      → each_byte byte (pre ++ (mid ++ post)) d (length pre)
        ≡ record { state = pre ++ (overlay f mid d ++ post); out = zip g mid d }
  unfolding each_byte overlay zip
  each_byte-local pre mid post [] h = refl
  each_byte-local pre [] post (b ∷ d) h = absurd (omega arith)
  each_byte-local pre (x ∷ mid) post (b ∷ d) h =
      let here = acts pre (mid ++ post) x b in
      let pre' = pre ++ (f x b ∷ []) in
      let long : length pre + 1 ≡ length pre' = sym (length-append pre (f x b ∷ [])) in
      let split = append_assoc pre (f x b ∷ []) in
      let rest = each_byte-local pre' mid post d (omega arith) in
      rw (here, long, ← split (mid ++ post), rest, split (overlay f mid d ++ post)) refl

-- A loop over one piece after the other.
pub each_byte-append :
    (byte : State → ℕ → ℕ → State × ℕ) (s : State) (xs ys : List ℕ) (p : ℕ)
    → let first = each_byte byte s xs p in
      let second = each_byte byte first.state ys (p + length xs) in
      each_byte byte s (xs ++ ys) p ≡ record { state = second.state; out = first.out ++ second.out }
unfolding each_byte
each_byte-append byte s [] ys p = let e : p ≡ p + 0 = omega arith in rw (← e) refl
each_byte-append byte s (x ∷ xs) ys p =
    let e : p + 1 + length xs ≡ p + suc (length xs) = omega arith in
    let rest = each_byte-append byte (byte s p x).0 xs ys (p + 1) in rw (rest, e) refl

set_first :
    (mid post : List ℕ) (k v : ℕ) → k < length mid → set (mid ++ post) k v ≡ set mid k v ++ post
set_first [] post k v h = absurd (omega arith)
set_first (x ∷ mid) post zero v h = refl
set_first (x ∷ mid) post (suc k) v h = ap (λ r. x ∷ r) (set_first mid post k v (omega arith))

get_first : (mid post : List ℕ) (k : ℕ) → k < length mid → get_or (mid ++ post) k 0 ≡ get_or mid k 0
get_first [] post k h = absurd (omega arith)
get_first (x ∷ mid) post zero h = refl
get_first (x ∷ mid) post (suc k) h = get_first mid post k (omega arith)

-- A write inside the middle piece.
pub set_inside :
    (pre mid post : List ℕ) (k v : ℕ)
    → k < length mid
    → set (pre ++ (mid ++ post)) (length pre + k) v ≡ pre ++ (set mid k v ++ post)
set_inside (y ∷ pre) mid post k v h =
    let e : suc (length pre) + k ≡ suc (length pre + k) = omega arith in
    rw e (ap (λ r. y ∷ r) (set_inside pre mid post k v h))
set_inside [] mid post k v h = let e : 0 + k ≡ k = omega arith in rw e (set_first mid post k v h)

pub get_inside :
    (pre mid post : List ℕ) (k : ℕ)
    → k < length mid
    → get_or (pre ++ (mid ++ post)) (length pre + k) 0 ≡ get_or mid k 0
get_inside (y ∷ pre) mid post k h =
    let e : suc (length pre) + k ≡ suc (length pre + k) = omega arith in
    rw e (get_inside pre mid post k h)
get_inside [] mid post k h = let e : 0 + k ≡ k = omega arith in rw e (get_first mid post k h)

-- with zeros up to `n` bytes
unfoldable pub padded : ℕ → List ℕ → List ℕ
padded zero d = []
padded (suc n) [] = 0 ∷ padded n []
padded (suc n) (b ∷ d) = b ∷ padded n d

pub xor_zero : (x : ℕ) → bit_xor x 0 ≡ x
xor_zero x = xor_comm x 0 ∙ zero_xor x

-- Adding bytes is adding them with zeros behind.
pub overlay-padded :
    (mid d : List ℕ)
    → length d ≤ length mid
    → overlay bit_xor mid d ≡ zip bit_xor mid (padded (length mid) d)
unfolding overlay zip padded
overlay-padded [] [] h = refl
overlay-padded [] (b ∷ d) h = absurd (omega arith)
overlay-padded (x ∷ mid) [] h =
    rw (xor_zero x) (ap (λ r. x ∷ r) (overlay-padded mid [] (omega arith)))
overlay-padded (x ∷ mid) (b ∷ d) h = ap (λ r. bit_xor x b ∷ r) (overlay-padded mid d (omega arith))

pub take-zip-padded :
    (mid d : List ℕ)
    → length d ≤ length mid
    → take (length d) (zip bit_xor mid (padded (length mid) d)) ≡ zip bit_xor mid d
unfolding zip padded
take-zip-padded mid [] h = refl
take-zip-padded [] (b ∷ d) h = absurd (omega arith)
take-zip-padded (x ∷ mid) (b ∷ d) h =
    ap (λ r. bit_xor x b ∷ r) (take-zip-padded mid d (omega arith))

-- ===== src/Masking/Aead/Loops.antt =====
-- The loops on a masked state do what the plain loops of src/aead/ascon-aead-common.c do to the bytes
-- that the state stands for.
use mathlib.Core.Path.{subst}
use ascon_suite_tcc.Base.{
  ℕ, zero, suc, ◌<◌, ◌≤◌, ◌≡◌, refl, sym, ap, ap₂, ◌∙◌, arith, Bool, true, Bool-cases, inl, inr,
  List, [], ◌∷◌, ◌++◌, length, take, drop, leb, ltb, if◌then◌else◌, append-nil, length-take,
  length-drop,
}
use ascon_suite_tcc.Base.Bytes.{IsBytes, take-IsBytes, drop-IsBytes}
use ascon_suite_tcc.Core.Word.{u8}
use ascon_suite_tcc.Core.Permutation.{store_words, permute}
use ascon_suite_tcc.Core.Snp.{State, Step, each_byte, pad}
use ascon_suite_tcc.Aead.Common.{Blocks, Duplexed, blocks, whole}
use ascon_suite_tcc.Masking.Word.{Masked, IsMasked}
use ascon_suite_tcc.Masking.Permute.Laws.{AllShares, words_of}
use ascon_suite_tcc.Masking.Shares.{IsPreserve, MaskedState}
use ascon_suite_tcc.Masking.Operations.{MaskedOps, IsMaskedOps}
use ascon_suite_tcc.Masking.Aead.{
  Running, StateStep, Looped, permuted, masked_blocks, masked_duplex,
}
use ascon_suite_tcc.Masking.Aead.Word.{plain_byte}
use ascon_suite_tcc.Masking.Aead.Lanes.{AreWords, permute-store_words}

-- the plain state that the shares stand for
abbrev pub plain_state : (Masked ℕ → ℕ) → MaskedState → State
plain_state value w = store_words (words_of value w)

pub record IsRunning {T : Type 0} (r : Running T) : Type 0 where
  pub shares : AllShares IsMasked r.state
  pub randomness : IsPreserve r.preserve

-- the masked step does what the plain step did
pub record Simulates {T : Type 0} (value : Masked ℕ → ℕ) (e : StateStep T) (p : Step) : Type 0 where
  pub running : IsRunning e.now
  pub holds : plain_state value e.now.state ≡ p.state
  pub gives : e.out ≡ p.out

pub record LoopSimulates {T : Type 0} (value : Masked ℕ → ℕ) (e : Looped T) (p : Blocks)
    : Type 0 where
  pub running : IsRunning e.now
  pub holds : plain_state value e.now.state ≡ p.state
  pub gives : e.out ≡ p.out
  pub leaves : e.rest ≡ p.rest

-- the whole function, with its last block whether there are bytes in it or not
finished :
    (byte : State → ℕ → ℕ → State × ℕ) (s : State) (out rest : List ℕ)
    → let last = each_byte byte s rest 0 in
      let with_bytes : Duplexed = record {
        state = last.state;
        out = out ++ last.out;
        posn = u8 (length rest);
      } in
      (if ltb 0 (length rest)
        then with_bytes
        else record { state = s; out = out; posn = u8 (length rest) })
      ≡ with_bytes
unfolding each_byte
finished byte s out [] = ap (λ o. record { state = s; out = o; posn = u8 0 }) (sym (append-nil out))
finished byte s out (b ∷ rest) =
    let some_bytes : ltb 0 (length (b ∷ rest)) ≡ true = ground arith in rw some_bytes refl

module _ {T : Type 0} (ops : MaskedOps T) (value : Masked ℕ → ℕ)
    (laws : IsMaskedOps ops value) where
  pub values-AreWords : (w : MaskedState) → AllShares IsMasked w → AreWords (words_of value w)
  values-AreWords w h = record {
    word0 = laws.value-IsWord w.x0 h.s0;
    word1 = laws.value-IsWord w.x1 h.s1;
    word2 = laws.value-IsWord w.x2 h.s2;
    word3 = laws.value-IsWord w.x3 h.s3;
    word4 = laws.value-IsWord w.x4 h.s4;
  }

  pub permuted_lem :
      (r : Running T) (first_round : ℕ)
      → IsRunning r
      → IsRunning (permuted ops r first_round)
        × (plain_state value (permuted ops r first_round).state
            ≡ permute (plain_state value r.state) first_round)
  unfolding permuted
  permuted_lem r first_round h =
      let p = laws.permute_lem r.state first_round r.preserve h.shares h.randomness in
      (
        record { shares = p.0; randomness = p.2 },
        ap store_words p.1
            ∙ sym (
                permute-store_words (words_of value r.state) first_round
                  (values-AreWords r.state h.shares)),
      )

  module _ (rate first_round : ℕ) (decrypting : Bool)
      (block last : Running T → List ℕ → StateStep T)
      (block_simulates : (r : Running T) (d : List ℕ)
        → IsRunning r
        → IsBytes d
        → length d ≡ rate
        → Simulates value
            (block r d)
            (each_byte (plain_byte decrypting) (plain_state value r.state) d 0)) where
    masked_blocks_lem :
        (fuel : ℕ) (r : Running T) (src : List ℕ)
        → IsRunning r
        → IsBytes src
        → LoopSimulates value
            (masked_blocks ops rate first_round block last fuel r src)
            (blocks rate first_round (plain_byte decrypting) fuel (plain_state value r.state) src)
    unfolding masked_blocks blocks
    masked_blocks_lem zero r src h k = record {
      running = h;
      holds = refl;
      gives = refl;
      leaves = refl;
    }
    masked_blocks_lem (suc fuel) r src h k = elim (Bool-cases (leb rate (length src))) [
      | inl full ↦
          let d = take rate src in
          let now =
            block_simulates r d h (take-IsBytes rate src k)
              (ground (arith, length-take rate src)) in
          let first = (block r d).now in
          let next = permuted_lem first first_round now.running in
          let same = next.1 ∙ ap (λ s. permute s first_round) now.holds in
          let rest =
            subst
              (λ s.
                LoopSimulates value
                  (masked_blocks ops rate first_round block last fuel
                    (permuted ops first first_round) (drop rate src))
                  (blocks rate first_round (plain_byte decrypting) fuel s (drop rate src)))
              same
              (masked_blocks_lem fuel (permuted ops first first_round) (drop rate src) next.0
                (drop-IsBytes rate src k)) in
          rw full (record {
            running = rest.running;
            holds = rest.holds;
            gives = ap₂ (λ x y. x ++ y) now.gives rest.gives;
            leaves = rest.leaves;
          })
      | inr short ↦ rw short (record { running = h; holds = refl; gives = refl; leaves = refl })
    ]

    masked_rest :
        (fuel : ℕ) (r : Running T) (src : List ℕ)
        → 0 < rate
        → length src ≤ fuel
        → IsBytes src
        → let rest = (masked_blocks ops rate first_round block last fuel r src).rest in
          (length rest < rate) × IsBytes rest
    unfolding masked_blocks
    masked_rest zero r src h l k = (omega arith, k)
    masked_rest (suc fuel) r src h l k = elim (Bool-cases (leb rate (length src))) [
      | inl full ↦ rw full (
          masked_rest fuel (permuted ops (block r (take rate src)).now first_round) (drop rate src)
            h (ground (arith, length-drop rate src)) (drop-IsBytes rate src k))
      | inr short ↦ rw short ((ground arith), k)
    ]

    pub masked_duplex_lem :
        (r : Running T) (src : List ℕ)
        → 0 < rate
        → rate < 256
        → IsRunning r
        → IsBytes src
        → ((r : Running T) (d : List ℕ)
            → IsRunning r
            → IsBytes d
            → length d < rate
            → let p = each_byte (plain_byte decrypting) (plain_state value r.state) d 0 in
              Simulates value (last r d) (record p { state = pad p.state (length d) }))
        → let p = whole rate first_round (plain_byte decrypting) (plain_state value r.state) src in
          Simulates value
            (masked_duplex ops rate first_round block last r src)
            (record { state = pad p.state p.posn; out = p.out })
    unfolding masked_duplex whole
    masked_duplex_lem r src pos small h k last_simulates =
        let loop = masked_blocks_lem (length src) r src h k in
        let full = masked_blocks ops rate first_round block last (length src) r src in
        let plain =
          blocks rate first_round (plain_byte decrypting) (length src) (plain_state value r.state)
            src in
        let left = masked_rest (length src) r src pos (omega arith) k in
        let end = last_simulates full.now full.rest loop.running left.1 left.0 in
        let shape = sym (finished (plain_byte decrypting) plain.state plain.out plain.rest) in
        let step = λ (s : State) (d : List ℕ). each_byte (plain_byte decrypting) s d 0 in
        let tail = ap₂ step loop.holds loop.leaves in
        let at : length full.rest ≡ u8 (length plain.rest) =
          ap length loop.leaves ∙ omega (arith, left.0, ap length loop.leaves) in
        record {
          running = end.running;
          holds =
              end.holds ∙ (ap₂ (λ e n. pad e.state n) tail at ∙ ap (λ q. pad q.state q.posn) shape);
          gives =
              ap₂ (λ x y. x ++ y) loop.gives (end.gives ∙ ap (λ e. e.out) tail)
              ∙ ap (λ q. q.out) shape;
        }

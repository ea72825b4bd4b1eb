-- ===== src/Random/Tests.antt =====
-- The theorems on the generator, with a source of constant bytes and a storage in memory.
use ascon_suite_tcc.Base.{
  suc, ℕ, some, ◌<◌, ◌≡◌, ap, ◌∙◌, arith, List, [], ◌∷◌, ◌++◌, length, take, drop, replicate,
}
use ascon_suite_tcc.Base.Slices.{take_all}
use ascon_suite_tcc.Hash.Xof.Pieces.{total}
use ascon_suite_tcc.Core.Word.{be_load_word64}
use ascon_suite_tcc.Core.Snp.{init}
use ascon_suite_tcc.Random.Mixer.{Mixer}
use ascon_suite_tcc.Random.Mixer.Laws.{draws, stream, unread, draws-eq-stream}
use ascon_suite_tcc.Random.Prng.{
  Prng, Drawn, Storage, random_init, random_fetch, random_reseed, save_seed, load_seed,
}
use ascon_suite_tcc.Random.Ready.{IsReady, initialized, fetched, reseeded, Reachable-IsReady}
use ascon_suite_tcc.Random.Limit.{counting, fetch_all, fetch_all_drawn}
use ascon_suite_tcc.Random.Seeds.{Keeps, seeded, load_seed-save_seed}

abbrev source : List ℕ → ℕ → Drawn (List ℕ)
source w n = record { result = 1; seed = replicate n 7; world = w }

abbrev memory : Storage (List ℕ)
memory = record {
  page_size = 4;
  size = 64;
  erase_size = 16;
  address = 0;
  read = λ w offset size. record {
    result = length (take size (drop offset w));
    seed = take size (drop offset w);
    world = w;
  };
  write = λ w offset d erase. (length d, d);
}

memory-Keeps : Keeps memory
memory-Keeps = record {
  room = omega arith;
  all_written = λ w d e h. h;
  all_read = λ w d e h. ap length (take_all d 32 (omega arith)) ∙ h;
  same_read = λ w d e h. take_all d 32 (omega arith);
}

abbrev started : Prng
started = (random_init source []).prng

Reachable-IsReady_example :
    IsReady (random_fetch source (random_reseed source started []).prng [] 20000).prng
Reachable-IsReady_example =
    Reachable-IsReady source (fetched [] 20000 (reseeded [] (initialized [])))

fetch_all_drawn_example :
    0
    < (fetch_all
        (counting source)
        (record started { counter = 16000 })
        (0, [])
        ((300 ∷ 100 ∷ []) ++ (8 ∷ []))).world.0
unfolding total
fetch_all_drawn_example =
    fetch_all_drawn source (record started { counter = 16000 }) [] (300 ∷ 100 ∷ []) 8 (omega arith)

load_seed-save_seed_example :
    let saved = save_seed source started [] (some memory) in
    let loaded = load_seed source started saved.world (some memory) in
    let next =
      seeded source started
        (random_fetch source started [] 32).out
        (memory.read saved.world 0 32).world in
    (saved.result ≡ 1)
    × (loaded.result ≡ 1)
    × (loaded.prng ≡ next.prng)
    × ((memory.read loaded.world 0 32).seed ≡ next.out)
load_seed-save_seed_example =
    load_seed-save_seed source started started [] memory (Reachable-IsReady source (initialized []))
      memory-Keeps

abbrev used_up : Mixer
used_up = record { prng = init; posn = 8 }

-- on a machine that is big-endian
draws-eq-stream_example :
    ((draws be_load_word64 3 used_up).0 ≡ stream be_load_word64 3 (unread used_up))
    × ((draws be_load_word64 (suc 3) used_up).1.posn ≡ 8)
draws-eq-stream_example = draws-eq-stream be_load_word64 3 used_up

-- ===== src/Tests/Caching.antt =====
-- Witnesses for the cache.
use mathlib.Core.Logic.{◌⊎◌}
use mathlib.Core.List.{reverse}
use funkyd.Base.{
  ◌+◌, ◌*◌, ◌-◌, ◌/◌, ◌≤◌, ◌≡◌, refl, true, false, none, some, List, [], ◌∷◌, ◌++◌, arith, All,
  length,
}
use funkyd.Base.Int.{pos}
use funkyd.Base.Time.{second}
use funkyd.Base.Map.{lookup, lookup-insert_self, values}
use funkyd.Dns.{Heap, Msg, empty_msg}
use funkyd.Cache.{
  Response, RecordCache, TrashMan, key_of, format_key, new_cache, add, get, evict, clean,
}
use funkyd.Cache.Crew.{Reach, here, next, flush_responses}
use funkyd.Cache.Crew
use funkyd.Cache.Invariant.{Inv, Reach-Inv}
use funkyd.Cache.Freshness.{get-hit-unexpired}
use funkyd.Cache.HalfLife.{Serves, get-hit-half, get-Serves}
use funkyd.Cache.Lookup.{get-add}
use funkyd.Cache.Refinement.{
  view, Operation, adds, removes_slice, gets, cleans, run, replay, Allowed, run-replay,
}
use funkyd.Cache.Eviction.{clean-select, flush_responses-add, select, has_expired}
use funkyd.Tests.{seconds, seconds-IsExact}

-- "a." with one record, of a TTL of ten seconds.
abbrev heap : Heap
heap p = record { name = b'a' ∷ b'.' ∷ []; rrtype = 1; ttl = 10; rdata = [] }

abbrev reply : Msg
reply = record empty_msg { answer = 1 ∷ [] }

abbrev response : Response
response = record {
  name = b'a' ∷ b'.' ∷ [];
  entry = reply;
  ttl = 0;
  qtype = 1;
  creation_time = 100 * second;
}

abbrev loaded : RecordCache
loaded = add response new_cache

loaded-lookup : lookup (key_of (b'a' ∷ b'.' ∷ []) 1) loaded.cache ≡ some response
unfolding add
loaded-lookup = lookup-insert_self (key_of (b'a' ∷ b'.' ∷ []) 1) response new_cache.cache

-- Four seconds old, it is served.
served : (get seconds (λ _. 104 * second) heap loaded (b'a' ∷ b'.' ∷ []) 1).response ≡ some response
served =
    get-add seconds heap new_cache response (104 * second) seconds-IsExact (omega arith) (tt, tt)
      (omega arith, tt) (omega arith, tt)

get-add_example :
    (get seconds
      (λ _. 104 * second)
      heap
      (add response new_cache)
      response.name
      response.qtype).response
    ≡ some response
get-add_example =
    get-add seconds heap new_cache response (104 * second) seconds-IsExact (omega arith) (tt, tt)
      (omega arith, tt) (omega arith, tt)

-- Six seconds old, it is not, though it has four seconds to live.
get-Serves_example :
    let g = get seconds (λ _. 106 * second) heap loaded (b'a' ∷ b'.' ∷ []) 1 in
    (All (Serves heap response (106 * second)) (1 ∷ [])
      × (g.response ≡ some response)
      × (g.cache ≡ loaded))
    ⊎ ((¬ All (Serves heap response (106 * second)) (1 ∷ []))
        × (g.response ≡ none)
        × (g.cache ≡ evict response loaded))
get-Serves_example =
    get-Serves seconds heap loaded (b'a' ∷ b'.' ∷ []) 1 response (106 * second) seconds-IsExact
      (omega arith) (tt, tt) (omega arith, tt) loaded-lookup refl

get-hit-half_example :
    All (λ p. 2 * (104 * second - 100 * second) ≤ (heap p).ttl * second) (1 ∷ [])
    × All
        (λ p.
          (get seconds (λ _. 104 * second) heap loaded (b'a' ∷ b'.' ∷ []) 1).heap p
          ≡ record (heap p) {
            ttl = ((heap p).ttl * second - (104 * second - 100 * second)) / second;
          })
        (1 ∷ [])
    × ((get seconds (λ _. 104 * second) heap loaded (b'a' ∷ b'.' ∷ []) 1).cache ≡ loaded)
get-hit-half_example =
    get-hit-half seconds heap loaded (b'a' ∷ b'.' ∷ []) 1 response (104 * second) seconds-IsExact
      (omega arith) (tt, tt) (omega arith, tt) served

get-hit-unexpired_example : All (λ p. 104 * second ≤ 100 * second + (heap p).ttl * second) (1 ∷ [])
get-hit-unexpired_example =
    get-hit-unexpired seconds (λ _. 104 * second) heap loaded (b'a' ∷ b'.' ∷ []) 1 response
      (λ i j h. omega arith) (tt, tt) served

crew-Reach : Reach seconds new_cache (add response new_cache)
crew-Reach = next here (Crew.adds response refl)

loaded-Inv : Inv loaded
loaded-Inv = Reach-Inv seconds loaded crew-Reach

Reach-Inv_example : Inv (add response new_cache)
Reach-Inv_example = Reach-Inv seconds (add response new_cache) crew-Reach

clean-select_example : clean (λ _. 200 * second) heap loaded ≡ (
  record loaded {
    evictions =
        reverse (select (has_expired heap (200 * second)) (values loaded.cache))
        ++ loaded.evictions;
  },
  length (select (has_expired heap (200 * second)) (values loaded.cache)),
)
clean-select_example = clean-select heap (200 * second) loaded

-- A trashman with the old response in its queue.
abbrev collecting : TrashMan
collecting = record {
  running = true;
  responses = loaded.cache;
  eviction_batch_size = pos 2;
  paused = false;
}

abbrev fresh : Response
fresh = record response { creation_time = 200 * second }

flush_responses-add_example :
    lookup (format_key fresh) (flush_responses collecting (add fresh loaded)).cache ≡ none
flush_responses-add_example =
    flush_responses-add collecting loaded response fresh loaded-Inv.store loaded-lookup

-- A response is added and found, then removed, together with one that is not there.
abbrev operations : List Operation
operations =
    adds response
    ∷ gets (λ _. 104 * second) (b'a' ∷ b'.' ∷ []) 1
    ∷ removes_slice (record response { qtype = 28 } ∷ response ∷ [])
    ∷ gets (λ _. 104 * second) (b'a' ∷ b'.' ∷ []) 1
    ∷ cleans (λ _. 104 * second)
    ∷ []

run-replay_example :
    (view (run seconds operations heap new_cache).0 ≡ (replay operations (view new_cache)).0)
    × Allowed (run seconds operations heap new_cache).1 (replay operations (view new_cache)).1
run-replay_example = run-replay seconds operations heap new_cache

-- ===== src/Tests/Zoning.antt =====
-- A witness for the zone files.
use funkyd.Base.{◌*◌, ◌≡◌, refl, false, Option, some, List, [], ◌∷◌}
use funkyd.Base.Time.{second}
use funkyd.Base.Map.{lookup}
use funkyd.Dns.{Heap}
use funkyd.Cache.{RecordCache, new_cache, key_of}
use funkyd.ConnPool.Selection.{or_else}
use funkyd.Zones.{Token, load_local_zones, parse_zone_file, add_responses}
use funkyd.Zones.Loading.{tokens_of, responses_of, last_with, load_local_zones-last}

-- Two address records of one name.
abbrev pub heap : Heap
heap p = record { name = b'h' ∷ b'.' ∷ []; rrtype = 1; ttl = 60; rdata = p ∷ [] }

abbrev pub files : List (Option (List Token))
files = some (record { rr = 1; err = false } ∷ record { rr = 2; err = false } ∷ []) ∷ []

abbrev pub hosted : RecordCache
hosted = add_responses (responses_of heap (5 * second) (tokens_of files)) new_cache

files-load : load_local_zones heap (λ _ _. 5 * second) 0 files new_cache ≡ some hosted
unfolding load_local_zones parse_zone_file
files-load = refl

load_local_zones-last_example :
    lookup (key_of (b'h' ∷ b'.' ∷ []) 1) hosted.cache
    ≡ or_else
        (last_with (key_of (b'h' ∷ b'.' ∷ []) 1) (responses_of heap (5 * second) (tokens_of files)))
        (lookup (key_of (b'h' ∷ b'.' ∷ []) 1) new_cache.cache)
load_local_zones-last_example =
    load_local_zones-last heap (5 * second) 0 files new_cache hosted (key_of (b'h' ∷ b'.' ∷ []) 1)
      files-load

-- ===== src/Cache.antt =====
-- cache.go: the cache of responses, without its cleaning crew (Cache/Crew). The lock makes each
-- operation one step; Get, which holds it for reading only, is taken as one step, too. `now i` is
-- the i-th reading of the clock within a call; a reading that a branch does not take is skipped.
-- `uint32_seconds d` is Go's `uint32(d.Seconds())`.
pub mod Crew
pub mod Keys
pub mod Invariant
pub mod Freshness
pub mod HalfLife
pub mod Lookup
pub mod Eviction
pub mod Refinement
use funkyd.Base.{
  ℕ, ◌+◌, ◌*◌, Bool, true, false, not, Option, none, some, List, [], ◌∷◌, ◌==◌, ltb, if◌then◌else◌,
  length,
}
use funkyd.Base.Int.{ℤ, pos}
use funkyd.Base.Text.{Text, sprintf_pair}
use funkyd.Base.Time.{Time, Duration, second, time_sub}
use funkyd.Base.Map.{Map, lookup, insert, delete}
use funkyd.Dns.{Msg, Heap, Ref, write}

pub record Response : Type 0 where
  pub name : Text
  pub entry : Msg
  pub ttl : Duration
  pub qtype : ℕ
  pub creation_time : Time

pub record TrashMan : Type 0 where
  pub running : Bool
  pub responses : Map Response
  pub eviction_batch_size : ℤ
  pub paused : Bool

-- `evictions` holds the responses of the goroutines that Evict has started and that have not yet
-- handed theirs over. `trash_man` is nil until StartCleaningCrew.
pub record RecordCache : Type 0 where
  pub cache : Map Response
  pub evictions : List Response
  pub trash_man : Option TrashMan
  pub janitor_running : Bool

-- The key of a name and a query type.
unfoldable pub key_of : Text → ℕ → Text
key_of name qtype = sprintf_pair name (pos qtype)

abbrev pub format_key : Response → Text
format_key r = key_of r.name r.qtype

unfoldable pub get_expiration_time_from_rr : Heap → Response → Ref → Time
get_expiration_time_from_rr h r p = r.creation_time + (h p).ttl * second

unfoldable pub is_expired : Heap → Response → Time → Ref → Bool
is_expired h r t p = ltb (r.creation_time + (h p).ttl * second) t

unfoldable pub new_cache : RecordCache
new_cache = record { cache = []; evictions = []; trash_man = none; janitor_running = false }

unfoldable pub size : RecordCache → ℕ
size c = length c.cache

unfoldable pub add : Response → RecordCache → RecordCache
add r c = record c { cache = insert (format_key r) r c.cache }

unfoldable pub remove : Response → RecordCache → RecordCache
remove r c = record c { cache = delete (format_key r) c.cache }

unfoldable pub remove_slice : List Response → RecordCache → RecordCache
remove_slice [] c = c
remove_slice (r ∷ rs) c = remove_slice rs (remove r c)

-- The goroutine is started; what it does is `deliver`, in Cache/Crew.
unfoldable pub evict : Response → RecordCache → RecordCache
evict r c = record c { evictions = r ∷ c.evictions }

-- The result of Get: `none` is `Response{}, false`.
pub record GetResult : Type 0 where
  pub heap : Heap
  pub cache : RecordCache
  pub response : Option Response

module _ (uint32_seconds : ℤ → ℕ) (now : ℕ → Time) where
  -- Takes the readings i and i + 1.
  unfoldable pub update_ttl : Heap → Response → ℕ → Ref → Heap
  unfolding is_expired get_expiration_time_from_rr
  update_ttl h r i p =
      let ttl = uint32_seconds (time_sub (get_expiration_time_from_rr h r p) (now (i + 1))) in
      if is_expired h r (now i) p then h else write h p (record (h p) { ttl = ttl })

  -- The loop of Get: the heap afterwards, and whether it met an expired record.
  unfoldable pub scan : Heap → Response → ℕ → List Ref → Heap × Bool
  unfolding update_ttl
  scan h r i [] = (h, false)
  scan h r i (p ∷ ps) =
      let h' = update_ttl h r i p in
      let rest = scan h' r (i + 3) ps in
      if is_expired h' r (now (i + 2)) p then (h', true) else rest

  -- Get, on an entry that was found.
  unfoldable pub get_found : Heap → RecordCache → ℕ → Response → GetResult
  get_found h c qtype r =
      let (h', expired) = scan h r 0 r.entry.answer in
      if not (r.qtype == qtype)
      then record { heap = h; cache = c; response = none }
      else if expired
      then record { heap = h'; cache = evict r c; response = none }
      else record { heap = h'; cache = c; response = some r }

  unfoldable pub get : Heap → RecordCache → Text → ℕ → GetResult
  unfolding get_found
  get h c name qtype = elim (lookup (key_of name qtype) c.cache) [
    | none ↦ record { heap = h; cache = c; response = none }
    | some r ↦ get_found h c qtype r
  ]

module _ (now : ℕ → Time) where
  -- The inner loop of Clean: whether a record has expired.
  unfoldable pub any_expired : Heap → Response → ℕ → List Ref → Bool
  any_expired h r i [] = false
  any_expired h r i (p ∷ ps) =
      let rest = any_expired h r (i + 1) ps in if is_expired h r (now i) p then true else rest

  -- The outer loop of Clean, from reading i on, and its count.
  unfoldable pub clean_entries : Heap → ℕ → Map Response → RecordCache → RecordCache × ℕ
  unfolding any_expired evict
  clean_entries h i [] c = (c, 0)
  clean_entries h i ((_, r) ∷ m) c =
      let expired = any_expired h r i r.entry.answer in
      let (c', n) =
        clean_entries h (i + length r.entry.answer) m (if expired then evict r c else c) in
      (c', if expired then n + 1 else n)

  unfoldable pub clean : Heap → RecordCache → RecordCache × ℕ
  unfolding clean_entries
  clean h c = clean_entries h 0 c.cache c

-- ===== src/Cache/Invariant.antt =====
-- The invariant of a cache and its crew.
use funkyd.Base.{
  ℕ, subst, ◌+◌, ◌≡◌, if◌then◌else◌, Option-cases, refl, ◌⊎◌, inl, inr, Bool, true, false, Option,
  none, some, List, [], ◌∷◌, ◌++◌, arith, All, length, Bool-cases,
}
use funkyd.Base.Int.{ℤ}
use funkyd.Base.Text.{Text}
use funkyd.Base.Time.{Time}
use funkyd.Base.Map.{Map, IsMap, insert, insert-IsMap, delete-IsMap, lookup, values, is_some}
use funkyd.Dns.{Heap}
use funkyd.Cache.{
  Response, TrashMan, RecordCache, format_key, add, remove, remove_slice, evict, get, get_found,
  clean, new_cache, clean_entries, any_expired, key_of,
}
use funkyd.Cache.Crew.{
  reaches, responses_queued, add_response, flush_responses, receive, set_paused,
  start_cleaning_crew, deliver, delivered, Step, adds, gets, removes, cleans, starts, delivers,
  pauses, stops, Reach, here, next,
}
use funkyd.Cache.Keys.{IsKeyed, insert-IsKeyed, delete-IsKeyed}

-- A map of responses under their keys.
pub record IsStore (m : Map Response) : Type 0 where
  pub unique : IsMap m
  pub keyed : All IsKeyed m

-- A batch that is full is flushed at once, unless the trashman is paused.
pub record IsBounded (t : TrashMan) : Type 0 where
  pub queue : IsStore t.responses
  pub bounded :
      (t.paused ≡ true)
      ⊎ ((responses_queued t ≡ 0) ⊎ (reaches (responses_queued t) t.eviction_batch_size ≡ false))

abbrev pub CrewInv : Option TrashMan → Type 0
CrewInv none = Unit {0}
CrewInv (some t) = IsBounded t

pub record Inv (c : RecordCache) : Type 0 where
  pub store : IsStore c.cache
  pub crew : CrewInv c.trash_man

insert-IsStore : (r : Response) (m : Map Response) → IsStore m → IsStore (insert (format_key r) r m)
insert-IsStore r m s = record {
  unique = insert-IsMap (format_key r) r m s.unique;
  keyed = insert-IsKeyed r m s.keyed;
}

add-Inv : (r : Response) (c : RecordCache) → Inv c → Inv (add r c)
unfolding add
add-Inv r c v = record { store = insert-IsStore r c.cache v.store; crew = v.crew }

remove-Inv : (r : Response) (c : RecordCache) → Inv c → Inv (remove r c)
unfolding remove
remove-Inv r c v = record {
  store = record {
    unique = delete-IsMap (format_key r) c.cache v.store.unique;
    keyed = delete-IsKeyed (format_key r) c.cache v.store.keyed;
  };
  crew = v.crew;
}

remove_slice-Inv : (rs : List Response) (c : RecordCache) → Inv c → Inv (remove_slice rs c)
unfolding remove_slice
remove_slice-Inv [] c v = v
remove_slice-Inv (r ∷ rs) c v = remove_slice-Inv rs (remove r c) (remove-Inv r c v)

get_found-Inv :
    (u : ℤ → ℕ) (now : ℕ → Time) (h : Heap) (c : RecordCache) (qtype : ℕ) (r : Response)
    → Inv c
    → Inv (get_found u now h c qtype r).cache
unfolding get_found evict
get_found-Inv u now h c qtype r v = ground arith

get-Inv :
    (u : ℤ → ℕ) (now : ℕ → Time) (h : Heap) (c : RecordCache) (name : Text) (qtype : ℕ)
    → Inv c
    → Inv (get u now h c name qtype).cache
unfolding get
get-Inv u now h c name qtype v = elim (Option-cases (lookup (key_of name qtype) c.cache)) [
  | inl miss ↦ rw (miss, get) v
  | inr (r, hit) ↦ rw (hit, get) (get_found-Inv u now h c qtype r v)
]

clean_entries-Inv :
    (now : ℕ → Time) (h : Heap) (i : ℕ) (m : Map Response) (c : RecordCache)
    → Inv c
    → Inv (clean_entries now h i m c).0
unfolding clean_entries
clean_entries-Inv now h i [] c v = v
clean_entries-Inv now h i ((k, r) ∷ m) c v =
    clean_entries-Inv now h (i + length r.entry.answer) m _
      (if-Inv (any_expired now h r i r.entry.answer) r c v)
  where
    if-Inv : (b : Bool) (s : Response) (d : RecordCache) → Inv d → Inv (if b then evict s d else d)
    if-Inv true s d w = record { store = w.store; crew = w.crew }
    if-Inv false s d w = w

-- The crew
add_response-IsStore :
    (r : Response) (t : TrashMan) → IsStore t.responses → IsStore (add_response r t).responses
unfolding add_response
add_response-IsStore r t s = elim (Bool-cases (is_some (lookup (format_key r) t.responses))) [
  | inl old ↦ rw (old, add_response) s
  | inr new ↦ rw (new, add_response) (insert-IsStore r t.responses s)
]

flush_responses-Inv : (t : TrashMan) (c : RecordCache) → Inv c → Inv (flush_responses t c)
unfolding flush_responses responses_queued
flush_responses-Inv t c v = record {
  store = (remove_slice-Inv (values t.responses) c v).store;
  crew = record { queue = record { unique = tt; keyed = tt }; bounded = inr (inl refl) };
}

receive-Inv :
    (r : Response) (t : TrashMan) (c : RecordCache) → IsBounded t → Inv c → Inv (receive r t c)
unfolding receive
receive-Inv r t c b v =
    ground (arith, flush_responses-Inv (add_response r t) c v, add_response-IsStore r t b.queue)

set_paused-Inv :
    (p : Bool) (t : TrashMan) (c : RecordCache) → IsBounded t → Inv c → Inv (set_paused p t c)
unfolding set_paused
set_paused-Inv p t c b v = ground (arith, flush_responses-Inv (record t { paused = p }) c v)

start_cleaning_crew-Inv :
    (batch : ℤ) (c : RecordCache) (o : Option TrashMan)
    → c.trash_man ≡ o
    → CrewInv o
    → IsStore c.cache
    → Inv (start_cleaning_crew batch c)
unfolding start_cleaning_crew responses_queued
start_cleaning_crew-Inv batch c none e b s =
    rw (e, start_cleaning_crew)
      (record {
        store = s;
        crew = record { queue = record { unique = tt; keyed = tt }; bounded = inr (inl refl) };
      })
start_cleaning_crew-Inv batch c (some t) e b s =
    rw (e, start_cleaning_crew)
      (record { store = s; crew = record { queue = b.queue; bounded = b.bounded } })

deliver-Inv :
    (r : Response) (c d : RecordCache) (o : Option TrashMan)
    → c.trash_man ≡ o
    → CrewInv o
    → Inv c
    → deliver r c ≡ delivered d
    → Inv d
unfolding deliver
deliver-Inv r c d none e b v h = cc
deliver-Inv r c d (some t) e b v h = ground (arith, receive-Inv r t c b v)

-- Every call and every move of the crew keeps the entries under their own keys, each key once, and
-- the trashman's queue below its batch size unless it is paused or empty.
pub Step-Inv : (u : ℤ → ℕ) (c d : RecordCache) → Step u c d → Inv c → Inv d
unfolding responses_queued
Step-Inv u c d (adds r e) v = rw e (add-Inv r c v)
Step-Inv u c d (gets now h name qtype e) v = rw e (get-Inv u now h c name qtype v)
Step-Inv u c d (removes rs e) v = rw e (remove_slice-Inv rs c v)
Step-Inv u c d (cleans now h running e) v =
    rw e (unfold clean in clean_entries-Inv now h 0 c.cache c v)
Step-Inv u c d (starts batch e) v =
    rw e (start_cleaning_crew-Inv batch c c.trash_man refl v.crew v.store)
Step-Inv u c d (delivers xs r ys picked e) v =
    deliver-Inv r (record c { evictions = xs ++ ys }) d c.trash_man refl v.crew
      (record { store = v.store; crew = v.crew }) e
Step-Inv u c d (pauses p t e running f) v =
    let b = subst CrewInv e v.crew in rw f (set_paused-Inv p t c b v)
Step-Inv u c d (stops t e f) v =
    let b = subst CrewInv e v.crew in
    rw f (record { store = v.store; crew = record { queue = b.queue; bounded = b.bounded } })

pub new_cache-Inv : Inv new_cache
unfolding new_cache
new_cache-Inv = record { store = record { unique = tt; keyed = tt }; crew = tt }

-- In each state of a cache that is reached from a new one by calls and by steps of its crew: each
-- response stands under its own key and no key twice, in the cache as in the trashman's queue; and
-- the queue is empty or below the batch size, unless the trashman is paused.
pub Reach-Inv : (u : ℤ → ℕ) (c : RecordCache) → Reach u new_cache c → Inv c
Reach-Inv u c here = new_cache-Inv
Reach-Inv u c (next {d} r s) = Step-Inv u d c s (Reach-Inv u d r)

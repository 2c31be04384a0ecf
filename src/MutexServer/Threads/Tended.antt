-- ===== src/MutexServer/Threads/Tended.antt =====
-- What a cache keeps while its clients and its crew work on it.
use mathlib.Core.Option.{some-injective}
use funkyd.Base.{
  ℕ, ◌+◌, ◌≡◌, refl, sym, subst, ap, ◌∙◌, inl, inr, true, Option, none, some, List, [], ◌∷◌, ◌++◌,
  arith, Option-cases, length, if◌then◌else◌, if_ind, not, ◌&&◌,
}
use funkyd.Base.Int.{ℤ}
use funkyd.Base.Text.{Text}
use funkyd.Base.Map.{Map}
use funkyd.Base.Time.{Time}
use funkyd.Dns.{Heap}
use funkyd.Cache
use funkyd.Cache.{
  Response, RecordCache, TrashMan, new_cache, clean, clean_entries, any_expired, evict,
}
use funkyd.Cache.Crew
use funkyd.Cache.Crew.{
  deliver, delivered, panicked, receive, flush_responses, add_response, reaches, responses_queued,
  start_cleaning_crew, start_trash_man, new_trash_man,
}
use funkyd.Cache.Invariant.{Inv, Step-Inv}
use funkyd.Cache.Refinement.{cache-get}
use funkyd.Zones.{Token, load_local_zones, parse_zone_file, add_responses}
use funkyd.Zones.Hosting.{trash_man-get}

-- The hosted cache holds the zones, and has no crew.
pub record IsHosted (zones c : RecordCache) : Type 0 where
  pub inv : Inv c
  pub same : c.cache ≡ zones.cache
  pub crewless : c.trash_man ≡ none

-- The cache's trashman runs.
pub record IsTended (c : RecordCache) : Type 0 where
  pub inv : Inv c
  pub trash_man : TrashMan
  pub tended : c.trash_man ≡ some trash_man
  pub running : trash_man.running ≡ true

-- An eviction from the hosted cache panics, and one from the cache is handed over.
pub hosted_panics :
    (zones c : RecordCache) (r : Response) → IsHosted zones c → deliver r c ≡ panicked
unfolding deliver
hosted_panics zones c r v = rw (v.crewless, deliver) refl

pub tended_delivers :
    (c : RecordCache) (r : Response) → IsTended c → (d : RecordCache) × (deliver r c ≡ delivered d)
unfolding deliver
tended_delivers c r v = (receive r v.trash_man c, ground (arith, v.tended, v.running))

module _ (u : ℤ → ℕ) where
  add_responses-Inv : (rs : List Response) (c : RecordCache) → Inv c → Inv (add_responses rs c)
  unfolding add_responses
  add_responses-Inv [] c v = v
  add_responses-Inv (r ∷ rs) c v =
      add_responses-Inv rs (Cache.add r c) (Step-Inv u c _ (Crew.adds r refl) v)

  add_responses_crewless :
      (rs : List Response) (c : RecordCache)
      → c.trash_man ≡ none
      → (add_responses rs c).trash_man ≡ none
  unfolding add_responses Cache.add
  add_responses_crewless [] c e = e
  add_responses_crewless (r ∷ rs) c e = add_responses_crewless rs (Cache.add r c) e

  pub load_local_zones-Inv :
      (h : Heap) (now : ℕ → ℕ → Time) (f : ℕ) (files : List (Option (List Token)))
      (c d : RecordCache)
      → load_local_zones h now f files c ≡ some d
      → Inv c
      → c.trash_man ≡ none
      → Inv d × (d.trash_man ≡ none)
  unfolding load_local_zones
  load_local_zones-Inv h now f [] c d e v crewless =
      let same = some-injective _ _ e in (subst Inv same v, rw (← same) crewless)
  load_local_zones-Inv h now f (none ∷ files) c d e v crewless = cc
  load_local_zones-Inv h now f (some ts ∷ files) c d e v crewless =
      elim (Option-cases (parse_zone_file h (now f) 0 ts)) [
        | inl bad ↦ cc (rw (bad, load_local_zones) at e)
        | inr (rs, parsed) ↦
            load_local_zones-Inv h now (f + 1) files (add_responses rs c) d
              (rw (parsed, load_local_zones) at e) (add_responses-Inv rs c v)
              (add_responses_crewless rs c crewless)
      ]

  pub get-IsHosted :
      (now : ℕ → Time) (h : Heap) (zones c : RecordCache) (name : Text) (qtype : ℕ)
      → IsHosted zones c
      → IsHosted zones (Cache.get u now h c name qtype).cache
  get-IsHosted now h zones c name qtype v = record {
    inv = Step-Inv u c _ (Crew.gets now h name qtype refl) v.inv;
    same = cache-get u now h c name qtype ∙ v.same;
    crewless = trash_man-get u now h c name qtype ∙ v.crewless;
  }

  pub get-IsTended :
      (now : ℕ → Time) (h : Heap) (c : RecordCache) (name : Text) (qtype : ℕ)
      → IsTended c
      → IsTended (Cache.get u now h c name qtype).cache
  get-IsTended now h c name qtype v = record {
    inv = Step-Inv u c _ (Crew.gets now h name qtype refl) v.inv;
    trash_man = v.trash_man;
    tended = trash_man-get u now h c name qtype ∙ v.tended;
    running = v.running;
  }

  pub add-IsTended : (r : Response) (c : RecordCache) → IsTended c → IsTended (Cache.add r c)
  unfolding Cache.add
  add-IsTended r c v = record {
    inv = Step-Inv u c _ (Crew.adds r refl) v.inv;
    trash_man = v.trash_man;
    tended = v.tended;
    running = v.running;
  }

  clean_entries-trash_man :
      (now : ℕ → Time) (h : Heap) (i : ℕ) (m : Map Response) (c : RecordCache)
      → (clean_entries now h i m c).0.trash_man ≡ c.trash_man
  unfolding clean_entries evict
  clean_entries-trash_man now h i [] c = refl
  clean_entries-trash_man now h i ((k, r) ∷ m) c =
      clean_entries-trash_man now h (i + length r.entry.answer) m
        (if any_expired now h r i r.entry.answer then evict r c else c)
      ∙ ground arith

  pub clean-IsTended :
      (now : ℕ → Time) (h : Heap) (c : RecordCache)
      → c.janitor_running ≡ true
      → IsTended c
      → IsTended (clean now h c).0
  unfolding clean
  clean-IsTended now h c runs v = record {
    inv = Step-Inv u c _ (Crew.cleans now h runs refl) v.inv;
    trash_man = v.trash_man;
    tended = clean_entries-trash_man now h 0 c.cache c ∙ v.tended;
    running = v.running;
  }

  add_response_running : (r : Response) (t : TrashMan) → (add_response r t).running ≡ t.running
  unfolding add_response
  add_response_running r t = ground arith

  receive_running :
      (r : Response) (t : TrashMan) (c : RecordCache)
      → t.running ≡ true
      → (t' : TrashMan) × ((receive r t c).trash_man ≡ some t') × (t'.running ≡ true)
  unfolding receive flush_responses responses_queued
  receive_running r t c e =
      let t' = add_response r t in
      let runs = add_response_running r t ∙ e in
      if_ind (λ (d : RecordCache). (v : TrashMan) × (d.trash_man ≡ some v) × (v.running ≡ true))
        (reaches (responses_queued t') t'.eviction_batch_size && not t'.paused)
        (record t' { responses = [] }, refl, runs) (t', refl, runs)

  pub deliver-IsTended :
      (c d : RecordCache) (xs : List Response) (r : Response) (ys : List Response)
      → c.evictions ≡ xs ++ r ∷ ys
      → deliver r (record c { evictions = xs ++ ys }) ≡ delivered d
      → IsTended c
      → IsTended d
  unfolding deliver
  deliver-IsTended c d xs r ys e went v =
      let c' : RecordCache = record c { evictions = xs ++ ys } in
      let same : receive r v.trash_man c' ≡ d =
        let sent = rw (v.tended, v.running, deliver) at went in cc in
      let (t', kept, runs) = receive_running r v.trash_man c' v.running in
      record {
        inv = Step-Inv u c d (Crew.delivers xs r ys e went) v.inv;
        trash_man = t';
        tended = ap (λ (d : RecordCache). d.trash_man) (sym same) ∙ kept;
        running = runs;
      }

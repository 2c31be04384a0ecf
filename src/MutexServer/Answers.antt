-- ===== src/MutexServer/Answers.antt =====
-- Answering a request: where the response comes from, and what is left behind.
use funkyd.Base.{ℕ, ◌^◌, ◌≤◌, ◌<◌, ◌≡◌, refl, inl, inr, some, List, arith, All, Option-cases}
use funkyd.Base.Int.{ℤ}
use funkyd.Base.Text.{Text}
use funkyd.Base.Time.{Time}
use funkyd.Base.Floats.{Floats}
use funkyd.Config.{Configuration}
use funkyd.Upstream.{Upstream}
use funkyd.ConnEntry.{ConnEntry}
use funkyd.ConnPool.{ConnPool, SortSlice}
use funkyd.Cache
use funkyd.Cache.{Response, RecordCache, key_of, evict}
use funkyd.Cache.Freshness.{Distinct, IsExact}
use funkyd.Cache.HalfLife.{Serves}
use funkyd.Cache.Lookup.{get-add}
use funkyd.Server.{DnsLib, process_results}
use funkyd.MutexServer.{Environment, Queried, resolved, unresolved, crashed, recursive_query}
use funkyd.MutexServer.Handler.{
  MutexServer, Retrieved, retrieved, not_retrieved, retrieval_crashed, from_cache, from_upstream,
  query_upstream, retrieve_records,
}
use funkyd.MutexServer.Queries.{ReachIn, max_attempts}

module _ {F : Type 0} (fl : Floats F) (sort_slice : SortSlice (Upstream F)) (config : Configuration)
    (u : ℤ → ℕ) (dns : DnsLib) where
  -- What RecursiveQuery resolves stands for the question.
  recursive_query-question :
      (env : Environment) (p q : ConnPool F) (domain : Text) (rrtype : ℕ) (r : Response)
      (address : Text)
      → recursive_query fl sort_slice config dns env p domain rrtype ≡ resolved q r address
      → (r.name ≡ domain) × (r.qtype ≡ rrtype)
  unfolding recursive_query process_results
  recursive_query-question env p q domain rrtype r address e = ground arith

  query_upstream-added :
      (env : Environment) (s s' : MutexServer F) (domain : Text) (rrtype : ℕ) (r : Response)
      (address : Text)
      → query_upstream fl sort_slice config u dns env s domain rrtype
        ≡ retrieved s' r (from_upstream address)
      → (c : RecordCache) × (s'.cache ≡ Cache.add r c) × (r.name ≡ domain) × (r.qtype ≡ rrtype)
  unfolding query_upstream
  query_upstream-added env s s' domain rrtype r address e =
      go (recursive_query fl sort_slice config dns env s.conn_pool domain rrtype) refl
    where
      go :
          (o : Queried F)
          → recursive_query fl sort_slice config dns env s.conn_pool domain rrtype ≡ o
          → (c : RecordCache) × (s'.cache ≡ Cache.add r c) × (r.name ≡ domain) × (r.qtype ≡ rrtype)
      go (resolved p x a) f =
          let same = rw (f, query_upstream) at e in
          let (name, type) = recursive_query-question env s.conn_pool p domain rrtype x a f in
          (s.cache, ground arith, ground arith, ground arith)
      go (unresolved p) f = cc (rw (f, query_upstream) at e)
      go crashed f = cc (rw (f, query_upstream) at e)

  retrieve_records-added :
      (env : Environment) (s s' : MutexServer F) (domain : Text) (rrtype : ℕ) (r : Response)
      (address : Text)
      → retrieve_records fl sort_slice config u dns env s domain rrtype
        ≡ retrieved s' r (from_upstream address)
      → (c : RecordCache) × (s'.cache ≡ Cache.add r c) × (r.name ≡ domain) × (r.qtype ≡ rrtype)
  unfolding retrieve_records
  retrieve_records-added env s s' domain rrtype r address e =
      let g = Cache.get u env.cache_clock s.heap s.cache domain rrtype in
      let h = Cache.get u env.hosted_clock g.heap s.hosted_cache domain rrtype in
      elim (Option-cases g.response) [
        | inr (x, hit) ↦ cc (rw (hit, retrieve_records) at e)
        | inl miss ↦ elim (Option-cases h.response) [
          | inr (x, hosted) ↦ cc (rw (miss, hosted, retrieve_records) at e)
          | inl unhosted ↦
              query_upstream-added env _ s' domain rrtype r address
                (rw (miss, unhosted, retrieve_records) at e)
        ]
      ]

  -- Where uint32_seconds is exact: a response that RetrieveRecords got from an upstream answers the
  -- same question again, from the cache and with the pool left as it was, at any time not before
  -- its creation at which its age is within the whole seconds that are left of each of its records,
  -- if these are distinct and their TTLs below 2^22.
  pub retrieve_records-again :
      (env env' : Environment) (s s' : MutexServer F) (domain : Text) (rrtype : ℕ) (r : Response)
      (address : Text) (t : Time)
      → retrieve_records fl sort_slice config u dns env s domain rrtype
        ≡ retrieved s' r (from_upstream address)
      → IsExact u
      → r.creation_time ≤ t
      → Distinct r.entry.answer
      → All (λ p. (s'.heap p).ttl < 2 ^ 22) r.entry.answer
      → All (Serves s'.heap r t) r.entry.answer
      → env'.cache_clock ≡ (λ _. t)
      → (s'' : MutexServer F) × (retrieve_records fl sort_slice config u dns env' s' domain rrtype
          ≡ retrieved s'' r from_cache)
        × (s''.conn_pool ≡ s'.conn_pool)
  unfolding retrieve_records
  retrieve_records-again env env' s s' domain rrtype r address t e exact born d small ok clock =
      let (c, added, name, type) = retrieve_records-added env s s' domain rrtype r address e in
      let g = Cache.get u env'.cache_clock s'.heap s'.cache domain rrtype in
      let hit : g.response ≡ some r =
        rw (clock, added, ← name, ← type) (get-add u s'.heap c r t exact born d small ok) in
      (record s' { heap = g.heap; cache = g.cache }, rw (hit, retrieve_records), refl)

  -- A retrieval that ends leaves the pool by moves that give back what they took.
  abbrev Leaves : MutexServer F → List (ConnEntry F) → List ℕ → Retrieved F → Type 0
  Leaves s lent opened o = elim o [
    | retrieved s' r source ↦
        ReachIn fl sort_slice config (max_attempts config)
          (record { pool = s.conn_pool; lent = lent; opened = opened }) s'.conn_pool lent
    | not_retrieved s' ↦
        ReachIn fl sort_slice config (max_attempts config)
          (record { pool = s.conn_pool; lent = lent; opened = opened }) s'.conn_pool lent
    | retrieval_crashed ↦ Unit {0}
  ]

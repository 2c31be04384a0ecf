-- ===== src/MutexServer/Handler.antt =====
-- mutex_server.go: RetrieveRecords, HandleDNS and NewMutexServer.
use funkyd.Base.{ℕ, none, some, List, [], ◌∷◌}
use funkyd.Base.Int.{ℤ, pos}
use funkyd.Base.Text.{Text}
use funkyd.Base.Floats.{Floats}
use funkyd.Config.{Configuration}
use funkyd.Dns.{Msg, Heap, empty_msg}
use funkyd.Upstream.{Upstream}
use funkyd.ConnPool.{ConnPool, SortSlice, new_conn_pool, add_upstream}
use funkyd.Cache
use funkyd.Cache.{Response, RecordCache, GetResult, new_cache}
use funkyd.Cache.Crew.{start_cleaning_crew}
use funkyd.Server.{DnsLib, first_question, rcode_server_failure}
use funkyd.MutexServer.{Environment, resolved, unresolved, crashed, recursive_query}

pub record MutexServer (F : Type 0) : Type 0 where
  pub heap : Heap
  pub cache : RecordCache
  pub hosted_cache : RecordCache
  pub conn_pool : ConnPool F

-- Where a response comes from: the string "cache", or the address of an upstream.
pub data Source : Type 0 where
  from_cache : Source
  from_upstream : Text → Source

pub data Retrieved (F : Type 0) : Type 0 where
  retrieved : MutexServer F → Response → Source → Retrieved F
  not_retrieved : MutexServer F → Retrieved F
  retrieval_crashed : Retrieved F

-- What HandleDNS writes to the client.
pub data Handled (F : Type 0) : Type 0 where
  wrote : MutexServer F → Msg → Handled F
  handler_crashed : Handled F

module _ {F : Type 0} where
  -- NewMutexServer: the hosted cache gets no cleaning crew.
  unfoldable pub add_upstreams : F → List Text → ConnPool F → ConnPool F
  add_upstreams zero [] p = p
  add_upstreams zero (name ∷ names) p =
      add_upstreams zero names
        (add_upstream (record { name = name; port = pos 0; weight = zero; wakeup_time = 0 }) p)

  unfoldable pub new_mutex_server : F → Configuration → Heap → MutexServer F
  unfolding add_upstreams
  new_mutex_server zero config heap = record {
    heap = heap;
    cache = start_cleaning_crew config.eviction_batch_size new_cache;
    hosted_cache = new_cache;
    conn_pool = add_upstreams zero config.upstreams new_conn_pool;
  }

module _ {F : Type 0} (fl : Floats F) (sort_slice : SortSlice (Upstream F)) (config : Configuration)
    (uint32_seconds : ℤ → ℕ) (dns : DnsLib) where
  unfoldable pub query_upstream : Environment → MutexServer F → Text → ℕ → Retrieved F
  query_upstream env s domain rrtype =
      elim (recursive_query fl sort_slice config dns env s.conn_pool domain rrtype) [
        | resolved p r address ↦
            retrieved (record s { conn_pool = p; cache = Cache.add r s.cache }) r
              (from_upstream address)
        | unresolved p ↦ not_retrieved (record s { conn_pool = p })
        | crashed ↦ retrieval_crashed
      ]

  -- Get on one of the caches is made whether it hits or not.
  unfoldable pub retrieve_records : Environment → MutexServer F → Text → ℕ → Retrieved F
  retrieve_records env s domain rrtype =
      let g = Cache.get uint32_seconds env.cache_clock s.heap s.cache domain rrtype in
      let s' : MutexServer F = record s { heap = g.heap; cache = g.cache } in
      let h = Cache.get uint32_seconds env.hosted_clock s'.heap s'.hosted_cache domain rrtype in
      let s'' : MutexServer F = record s' { heap = h.heap; hosted_cache = h.cache } in
      elim g.response [
        | some r ↦ retrieved s' r from_cache
        | none ↦ elim h.response [
          | some r ↦ retrieved s'' r from_cache
          | none ↦ query_upstream env s'' domain rrtype
        ]
      ]

  -- What is written once the records are retrieved, or sendServfail.
  unfoldable pub write_reply : Msg → Retrieved F → Handled F
  write_reply request (retrieved s r source) =
      wrote s (dns.set_rcode (dns.copy r.entry) request r.entry.rcode)
  write_reply request (not_retrieved s) =
      wrote s (dns.set_rcode empty_msg request rcode_server_failure)
  write_reply request retrieval_crashed = handler_crashed

  -- The name comes from a reply to the request, the type from the request; a missing question is
  -- an index out of range.
  unfoldable pub handle_dns : Environment → MutexServer F → Msg → Handled F
  unfolding write_reply
  handle_dns env s request = elim (first_question (dns.set_reply request)) [
    | none ↦ handler_crashed
    | some named ↦ elim (first_question request) [
      | none ↦ handler_crashed
      | some asked ↦ write_reply request (retrieve_records env s named.name asked.qtype)
    ]
  ]

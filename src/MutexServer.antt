-- ===== src/MutexServer.antt =====
-- mutex_server.go: a server that handles a query from the cache, the hosted zones or an upstream.
pub mod Handler
pub mod Queries
pub mod Answers
pub mod Attempts
pub mod Replies
pub mod Startup
pub mod Concurrency
pub mod Capacity
pub mod Runs
pub mod Service
pub mod Threads
use funkyd.Base.{
  ℕ, zero, suc, ◌+◌, Bool, true, false, Option, none, some, List, [], ◌∷◌, if◌then◌else◌,
}
use funkyd.Base.Int.{ℤ, pos, negsuc}
use funkyd.Base.Text.{Text}
use funkyd.Base.Time.{Time, Duration}
use funkyd.Base.Floats.{Floats}
use funkyd.Config.{Configuration}
use funkyd.Dns.{Msg, Heap, Question}
use funkyd.Upstream.{Upstream, is_no_upstream, no_upstream}
use funkyd.ConnEntry.{ConnEntry, Dialled, address_of, add_error}
use funkyd.ConnPool
use funkyd.ConnPool.{ConnPool, Got, SortSlice, new_connection, close_connection}
use funkyd.Cache
use funkyd.Cache.{Response, RecordCache, GetResult}
use funkyd.Server.{
  Exchanged, DnsLib, process_results, attempt_exchange, first_question, rcode_server_failure,
}

-- What the clock and the network answer in one attempt.
pub record Attempt : Type 0 where
  pub get_clock : ℕ → Time
  pub dial_clock : Time
  pub dial : Text → Dialled
  pub exchange : Msg → ℕ → Exchanged
  pub close_clock : Time

-- How an attempt ends, with the pool afterwards.
pub data Outcome (F : Type 0) : Type 0 where
  answered : ConnPool F → ConnEntry F → Msg → Outcome F
  failed : ConnPool F → Outcome F
  panicked : Outcome F

-- The results of RecursiveQuery: the response and the upstream's address, or an error.
pub data Queried (F : Type 0) : Type 0 where
  resolved : ConnPool F → Response → Text → Queried F
  unresolved : ConnPool F → Queried F
  crashed : Queried F

-- What the clock says and the network does in the course of a query.
pub record Environment : Type 0 where
  pub cache_clock : ℕ → Time
  pub hosted_clock : ℕ → Time
  pub attempt : ℕ → Attempt
  pub add_clock : Time
  pub reply_clock : Time

-- The message that is sent to the upstreams.
unfoldable pub query_message : DnsLib → Text → ℕ → Msg
query_message dns domain rrtype = record (dns.set_question domain rrtype) {
  recursion_desired = true;
}

module _ {F : Type 0} (fl : Floats F) (sort_slice : SortSlice (Upstream F))
    (config : Configuration) where
  -- GetConnection: the pool, and a connection unless the dial failed. `none` is a panic.
  unfoldable pub get_connection : Attempt → ConnPool F → Option (ConnPool F × Option (ConnEntry F))
  get_connection a p = elim (ConnPool.get fl a.get_clock p) [
    | none ↦ none
    | some g ↦
        if is_no_upstream fl g.upstream
        then some (g.pool, some g.ce)
        else some (new_connection config a.dial_clock g.upstream a.dial g.pool)
  ]

  -- The exchange on a connection, in the method attemptExchange.
  unfoldable pub exchange_on : Msg → Attempt → ConnPool F → ConnEntry F → Outcome F
  exchange_on m a p ce = elim (attempt_exchange config a.exchange m ce) [
    | none ↦ panicked
    | some (ce', some reply) ↦ answered p ce' reply
    | some (ce', none) ↦
        failed (close_connection fl sort_slice config a.close_clock (add_error ce') p)
  ]

  unfoldable pub attempt_query : Msg → Attempt → ConnPool F → Outcome F
  unfolding get_connection exchange_on
  attempt_query m a p = elim (get_connection a p) [
    | none ↦ panicked
    | some (p', none) ↦ failed p'
    | some (p', some ce) ↦ exchange_on m a p' ce
  ]

  -- The loop of RecursiveQuery, with the rounds that are left.
  unfoldable pub query_loop : Msg → (ℕ → Attempt) → ℕ → ℕ → ConnPool F → Outcome F
  query_loop m attempts i zero p = failed p
  query_loop m attempts i (suc rounds) p = elim (attempt_query m (attempts i) p) [
    | answered p' ce reply ↦ answered p' ce reply
    | failed p' ↦ query_loop m attempts (i + 1) rounds p'
    | panicked ↦ panicked
  ]

  -- for i := 0; i <= config.UpstreamRetries; i++: with a negative number of retries no attempt is
  -- made, the error stays nil, and the nil connection is dereferenced.
  unfoldable pub run_queries : Msg → (ℕ → Attempt) → ConnPool F → Outcome F
  unfolding query_loop
  run_queries m attempts p = elim config.upstream_retries [
    | pos n ↦ query_loop m attempts 0 (suc n) p
    | negsuc n ↦ panicked
  ]

  unfoldable pub recursive_query : DnsLib → Environment → ConnPool F → Text → ℕ → Queried F
  unfolding run_queries
  recursive_query dns w p domain rrtype =
      elim (run_queries (query_message dns domain rrtype) w.attempt p) [
        | answered p' ce reply ↦
            resolved (ConnPool.add fl sort_slice config w.add_clock ce p').0
              (process_results w.reply_clock reply domain rrtype) (address_of ce)
        | failed p' ↦ unresolved p'
        | panicked ↦ crashed
      ]

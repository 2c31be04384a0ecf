-- ===== src/MutexServer/Replies.antt =====
-- HandleDNS writes a reply: no step of it panics.
use funkyd.Base.{ℕ, suc, ◌≡◌, refl, inl, inr, some, Option-cases}
use funkyd.Base.Int.{ℤ, pos}
use funkyd.Base.Text.{Text}
use funkyd.Base.Floats.{Floats}
use funkyd.Config.{Configuration}
use funkyd.Dns.{Msg, Question}
use funkyd.Upstream.{Upstream}
use funkyd.ConnEntry.{address_of}
use funkyd.ConnPool
use funkyd.ConnPool.{ConnPool, Got, SortSlice, new_connection}
use funkyd.ConnPool.Sorting.{IsSort}
use funkyd.ConnPool.Soundness.{IsSound, add-IsSound}
use funkyd.Cache
use funkyd.Server.{process_results, DnsLib, first_question}
use funkyd.MutexServer.{
  Environment, Outcome, answered, failed, panicked, query_loop, run_queries, query_message, Queried,
  resolved, unresolved, crashed, recursive_query,
}
use funkyd.MutexServer.Handler.{
  MutexServer, Retrieved, retrieved, not_retrieved, retrieval_crashed, from_upstream, Handled,
  wrote, handler_crashed, query_upstream, retrieve_records, handle_dns, write_reply,
}
use funkyd.MutexServer.Attempts.{Ends, query_loop-Ends}

module _ {F : Type 0} (fl : Floats F) (sort_slice : SortSlice (Upstream F))
    (sort : IsSort fl sort_slice) (config : Configuration) where
  -- No panic, and a sound pool afterwards.
  abbrev Resolves : Queried F → Type 0
  Resolves (resolved p r address) = IsSound p
  Resolves (unresolved p) = IsSound p
  Resolves crashed = ⊥

  abbrev Retrieves : Retrieved F → Type 0
  Retrieves (retrieved s r source) = IsSound s.conn_pool
  Retrieves (not_retrieved s) = IsSound s.conn_pool
  Retrieves retrieval_crashed = ⊥

  abbrev Replies : Handled F → Type 0
  Replies (wrote s reply) = IsSound s.conn_pool
  Replies handler_crashed = ⊥

  module _ (retries : ℕ) (counted : config.upstream_retries ≡ pos retries) (dns : DnsLib) where
    recursive_query-Resolves :
        (env : Environment) (p : ConnPool F) (domain : Text) (rrtype : ℕ)
        → IsSound p
        → Resolves (recursive_query fl sort_slice config dns env p domain rrtype)
    unfolding recursive_query run_queries
    recursive_query-Resolves env p domain rrtype s =
        let m = query_message dns domain rrtype in
        rw (counted, recursive_query, run_queries)
          (go (query_loop fl sort_slice config m env.attempt 0 (suc retries) p)
            (query_loop-Ends fl sort_slice sort config m env.attempt 0 (suc retries) p s))
      where
        go :
            (o : Outcome F)
            → Ends fl sort_slice sort config o
            → Resolves (elim o [
              | answered p' ce reply ↦
                  resolved
                    (ConnPool.add fl sort_slice config env.add_clock ce p').0
                    (process_results env.reply_clock reply domain rrtype)
                    (address_of ce)
              | failed p' ↦ unresolved p'
              | panicked ↦ crashed
            ])
        go (answered q ce reply) e =
            add-IsSound fl sort_slice sort config env.add_clock ce q e.1 e.0
        go (failed q) e = e
        go panicked e = absurd e

    module _ (u : ℤ → ℕ) where
      query_upstream-Retrieves :
          (env : Environment) (s : MutexServer F) (domain : Text) (rrtype : ℕ)
          → IsSound s.conn_pool
          → Retrieves (query_upstream fl sort_slice config u dns env s domain rrtype)
      unfolding query_upstream
      query_upstream-Retrieves env s domain rrtype sound =
          go (recursive_query fl sort_slice config dns env s.conn_pool domain rrtype)
            (recursive_query-Resolves env s.conn_pool domain rrtype sound)
        where
          go :
              (o : Queried F)
              → Resolves o
              → Retrieves (elim o [
                | resolved p r address ↦
                    retrieved
                      (record s { conn_pool = p; cache = Cache.add r s.cache })
                      r
                      (from_upstream address)
                | unresolved p ↦ not_retrieved (record s { conn_pool = p })
                | crashed ↦ retrieval_crashed
              ])
          go (resolved p r address) e = e
          go (unresolved p) e = e
          go crashed e = absurd e

      retrieve_records-Retrieves :
          (env : Environment) (s : MutexServer F) (domain : Text) (rrtype : ℕ)
          → IsSound s.conn_pool
          → Retrieves (retrieve_records fl sort_slice config u dns env s domain rrtype)
      unfolding retrieve_records
      retrieve_records-Retrieves env s domain rrtype sound =
          let g = Cache.get u env.cache_clock s.heap s.cache domain rrtype in
          let h = Cache.get u env.hosted_clock g.heap s.hosted_cache domain rrtype in
          elim (Option-cases g.response) [
            | inr (x, hit) ↦ rw (hit, retrieve_records) sound
            | inl miss ↦ elim (Option-cases h.response) [
              | inr (x, hosted) ↦ rw (miss, hosted, retrieve_records) sound
              | inl unhosted ↦
                  rw (miss, unhosted, retrieve_records)
                    (query_upstream-Retrieves env
                      (record s { heap = h.heap; cache = g.cache; hosted_cache = h.cache }) domain
                      rrtype sound)
            ]
          ]

      write_reply-Replies :
          (request : Msg) (o : Retrieved F)
          → Retrieves o
          → Replies (write_reply fl sort_slice config u dns request o)
      unfolding write_reply
      write_reply-Replies request (retrieved s r source) e = e
      write_reply-Replies request (not_retrieved s) e = e
      write_reply-Replies request retrieval_crashed e = absurd e

      Replies-wrote :
          (o : Handled F)
          → Replies o
          → (s : MutexServer F) × (reply : Msg) × (o ≡ wrote s reply) × IsSound s.conn_pool
      Replies-wrote (wrote s reply) e = (s, reply, refl, e)
      Replies-wrote handler_crashed e = absurd e

      -- Where sort.Slice sorts, the number of retries is not negative, the request and the reply
      -- made from it have a question, and the pool has an upstream, names for all upstreams and no
      -- entry without a connection: HandleDNS writes a reply, whatever the network and the clock
      -- do, and leaves a pool of which the same holds.
      pub handle_dns-IsSound :
          (env : Environment) (s : MutexServer F) (request : Msg) (asked named : Question)
          → first_question request ≡ some asked
          → first_question (dns.set_reply request) ≡ some named
          → IsSound s.conn_pool
          → (s' : MutexServer F) × (reply : Msg) × (handle_dns fl sort_slice config u dns env s
                request
              ≡ wrote s' reply)
            × IsSound s'.conn_pool
      unfolding handle_dns
      handle_dns-IsSound env s request asked named f k sound =
          let reply =
            write_reply-Replies request _
              (retrieve_records-Retrieves env s named.name asked.qtype sound) in
          Replies-wrote (handle_dns fl sort_slice config u dns env s request)
            (rw (k, f, handle_dns) reply)

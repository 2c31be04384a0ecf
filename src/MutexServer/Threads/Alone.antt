-- ===== src/MutexServer/Threads/Alone.antt =====
-- A goroutine that nothing comes between, beside HandleDNS in one piece.
use mathlib.Core.Option.{some-injective}
use funkyd.Base.{
  ℕ, zero, suc, ◌+◌, ◌≡◌, refl, sym, subst, inl, inr, false, some, arith, Option-cases, ◌==◌,
}
use funkyd.Base.Int.{ℤ, pos, negsuc, leb_int}
use funkyd.Base.Floats.{Floats}
use funkyd.Config.{Configuration}
use funkyd.Dns.{Msg}
use funkyd.Upstream.{Upstream}
use funkyd.ConnEntry.{address_of}
use funkyd.ConnPool
use funkyd.ConnPool.{ConnPool, Got, SortSlice, new_connection}
use funkyd.Cache
use funkyd.Server.{DnsLib, process_results, first_question}
use funkyd.MutexServer.{
  Environment, Outcome, answered, failed, panicked, query_loop, run_queries, query_message,
  recursive_query, Queried, resolved, unresolved, crashed,
}
use funkyd.MutexServer.Handler.{
  MutexServer, Retrieved, retrieved, not_retrieved, retrieval_crashed, from_upstream, Handled,
  query_upstream, retrieve_records, write_reply, handle_dns,
}
use funkyd.MutexServer.Threads.{
  Job, Stage, looking, hosting, connecting, replying, refusing, new_job, advance,
}
use funkyd.MutexServer.Threads.Rounds.{
  weather, Finishes, ends, panics, steps, after, message, after_panicked, failed-Finishes,
  round-Finishes, then_loop,
}

module _ {F : Type 0} (fl : Floats F) (sort_slice : SortSlice (Upstream F)) (config : Configuration)
    (u : ℤ → ℕ) (dns : DnsLib) (env : Environment) (job : Job) where
  abbrev Ends : Handled F → MutexServer F → Stage F → Type 0
  Ends = Finishes fl sort_slice config u dns env job

  abbrev rest : MutexServer F → Outcome F → Handled F
  rest = after fl sort_slice config u dns env job

  after_pool :
      (s : MutexServer F) (p : ConnPool F) (o : Outcome F)
      → rest (record s { conn_pool = p }) o ≡ rest s o
  unfolding after
  after_pool s p (answered q ce reply) = refl
  after_pool s p (failed q) = refl
  after_pool s p panicked = refl

  loop-Finishes :
      (n i rounds : ℕ) (s : MutexServer F)
      → config.upstream_retries ≡ pos n
      → i + rounds ≡ suc n
      → Ends
          (rest s (
            query_loop fl sort_slice config
              (message fl sort_slice config u dns env job)
              env.attempt
              i
              rounds
              s.conn_pool))
          s
          (connecting i)
  unfolding query_loop then_loop advance weather
  loop-Finishes n i zero s counted e =
      let over : leb_int (pos i) config.upstream_retries ≡ false = ground arith in
      let failed_all : (i == 0) ≡ false = ground arith in
      steps s refusing (rw (over, failed_all, advance, weather) refl)
        (failed-Finishes fl sort_slice config u dns env job s s.conn_pool)
  loop-Finishes n i (suc rounds) s counted e =
      round-Finishes fl sort_slice config u dns env job s i rounds
        (λ p.
          subst (λ h. Ends h (record s { conn_pool = p }) (connecting (i + 1))) (after_pool s p _)
            (loop-Finishes n (i + 1) rounds (record s { conn_pool = p }) counted (omega arith)))
        (ground arith)

  queries-Finishes :
      (s : MutexServer F)
      → Ends
          (rest s (
            run_queries fl sort_slice config
              (message fl sort_slice config u dns env job)
              env.attempt
              s.conn_pool))
          s
          (connecting 0)
  unfolding run_queries advance weather
  queries-Finishes s = go config.upstream_retries refl
    where
      go :
          (retries : ℤ)
          → config.upstream_retries ≡ retries
          → Ends
              (rest s (elim retries [
                | pos n ↦
                    query_loop fl sort_slice config
                      (message fl sort_slice config u dns env job)
                      env.attempt
                      0
                      (suc n)
                      s.conn_pool
                | negsuc n ↦ panicked
              ]))
              s
              (connecting 0)
      go (pos n) e = loop-Finishes n 0 (suc n) s e (omega arith)
      go (negsuc n) e =
          panics (rw (e, advance, weather) refl)
            (after_panicked fl sort_slice config u dns env job s)

  query_upstream-after :
      (s : MutexServer F)
      → write_reply fl sort_slice config u dns job.request
          (query_upstream fl sort_slice config u dns env s job.domain job.rrtype)
        ≡ rest s (
            run_queries fl sort_slice config
              (message fl sort_slice config u dns env job)
              env.attempt
              s.conn_pool)
  unfolding query_upstream recursive_query after message write_reply
  query_upstream-after s = go (
      run_queries fl sort_slice config (query_message dns job.domain job.rrtype) env.attempt
        s.conn_pool)
    where
      go :
          (o : Outcome F)
          → (let q : Queried F = elim o [
            | answered p' ce reply ↦
                resolved
                  (ConnPool.add fl sort_slice config env.add_clock ce p').0
                  (process_results env.reply_clock reply job.domain job.rrtype)
                  (address_of ce)
            | failed p' ↦ unresolved p'
            | panicked ↦ crashed
          ] in
              let r : Retrieved F = elim q [
                | resolved p r address ↦
                    retrieved
                      (record s { conn_pool = p; cache = Cache.add r s.cache })
                      r
                      (from_upstream address)
                | unresolved p ↦ not_retrieved (record s { conn_pool = p })
                | crashed ↦ retrieval_crashed
              ] in
              write_reply fl sort_slice config u dns job.request r ≡ rest s o)
      go (answered p ce reply) = refl
      go (failed p) = refl
      go panicked = refl

  retrieve_records-Finishes :
      (s : MutexServer F)
      → Ends
          (write_reply fl sort_slice config u dns job.request
            (retrieve_records fl sort_slice config u dns env s job.domain job.rrtype))
          s
          looking
  unfolding retrieve_records advance weather write_reply
  retrieve_records-Finishes s =
      let g = Cache.get u env.cache_clock s.heap s.cache job.domain job.rrtype in
      let s' : MutexServer F = record s { heap = g.heap; cache = g.cache } in
      let h = Cache.get u env.hosted_clock g.heap s.hosted_cache job.domain job.rrtype in
      let s'' : MutexServer F = record s' { heap = h.heap; hosted_cache = h.cache } in
      elim (Option-cases g.response) [
        | inr (r, hit) ↦
            steps s' (replying r) (rw (hit, advance, weather) refl)
              (rw (hit, retrieve_records) (ends _ _ refl refl))
        | inl miss ↦
            steps s' hosting (rw (miss, advance, weather) refl) (elim (Option-cases h.response) [
              | inr (r, hit) ↦
                  steps s'' (replying r) (rw (hit, advance, weather) refl)
                    (rw (miss, hit, retrieve_records) (ends _ _ refl refl))
              | inl unhosted ↦ steps s'' (connecting 0) (rw (unhosted, advance, weather) refl) (
                  rw (miss, unhosted, retrieve_records)
                    (subst (λ o. Ends o s'' (connecting 0)) (sym (query_upstream-after s''))
                      (queries-Finishes s'')))
            ])
      ]

module _ {F : Type 0} (fl : Floats F) (sort_slice : SortSlice (Upstream F)) (config : Configuration)
    (u : ℤ → ℕ) (dns : DnsLib) where
  -- A goroutine of HandleDNS that runs alone makes, step by step, what HandleDNS makes in one:
  -- whatever the network and the clock do, its steps end, with the reply and the server of
  -- HandleDNS, or with a panic where HandleDNS panics.
  pub handle_dns-Finishes :
      (env : Environment) (client : ℕ) (request : Msg) (job : Job) (s : MutexServer F)
      → new_job dns client request ≡ some job
      → Finishes fl sort_slice config u dns env job
          (handle_dns fl sort_slice config u dns env s request)
          s
          looking
  unfolding new_job handle_dns
  handle_dns-Finishes env client request job s e =
      elim (Option-cases (first_question (dns.set_reply request))) [
        | inl unnamed ↦ cc (rw (unnamed, new_job) at e)
        | inr (named, a) ↦ elim (Option-cases (first_question request)) [
          | inl unasked ↦ cc (rw (a, unasked, new_job) at e)
          | inr (asked, b) ↦
              subst
                (λ (j : Job).
                  Finishes fl sort_slice config u dns env j
                    (handle_dns fl sort_slice config u dns env s request) s looking)
                (some-injective _ _ (rw (a, b, new_job) at e))
                (rw (a, b, handle_dns)
                  (retrieve_records-Finishes fl sort_slice config u dns env
                    (record {
                      client = client;
                      request = request;
                      domain = named.name;
                      rrtype = asked.qtype;
                    })
                    s))
        ]
      ]

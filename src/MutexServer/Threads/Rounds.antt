-- ===== src/MutexServer/Threads/Rounds.antt =====
-- One round of the loop of RecursiveQuery, by the steps of a goroutine that nothing comes between.
use funkyd.Base.{
  ℕ, ◌+◌, ◌≡◌, refl, inl, inr, true, none, some, Option-cases, Bool-cases, if◌then◌else◌, ◌==◌,
}
use funkyd.Base.Int.{ℤ, pos, leb_int}
use funkyd.Base.Floats.{Floats}
use funkyd.Config.{Configuration}
use funkyd.Dns.{Msg}
use funkyd.Upstream.{Upstream, is_no_upstream}
use funkyd.ConnEntry.{ConnEntry, add_exchange, add_error, address_of}
use funkyd.ConnPool
use funkyd.ConnPool.{ConnPool, Got, SortSlice, new_connection}
use funkyd.Cache
use funkyd.Server.{DnsLib, process_results, attempt_exchange-conn, attempt_exchange_nil}
use funkyd.MutexServer.{
  Environment, Outcome, answered, failed, panicked, get_connection, exchange_on, attempt_query,
  query_loop, query_message,
}
use funkyd.MutexServer.Handler.{
  MutexServer, retrieved, not_retrieved, from_upstream, Handled, wrote, handler_crashed,
  write_reply,
}
use funkyd.MutexServer.Threads.{
  Job, Stage, looking, hosting, connecting, dialling, exchanging, dropping, returning, storing,
  replying, refusing, goes_on, writes, Weather, advance,
}

-- What a whole query meets, by the stages at which it meets it.
unfoldable pub weather : {F : Type 0} → Environment → Stage F → Weather
weather env looking = record {
  clock = env.cache_clock;
  dial = (env.attempt 0).dial;
  exchange = (env.attempt 0).exchange;
}
weather env hosting = record {
  clock = env.hosted_clock;
  dial = (env.attempt 0).dial;
  exchange = (env.attempt 0).exchange;
}
weather env (connecting i) =
    let a = env.attempt i in record { clock = a.get_clock; dial = a.dial; exchange = a.exchange }
weather env (dialling i u) =
    let a = env.attempt i in
    record { clock = λ _. a.dial_clock; dial = a.dial; exchange = a.exchange }
weather env (exchanging i ce) =
    let a = env.attempt i in record { clock = a.get_clock; dial = a.dial; exchange = a.exchange }
weather env (dropping i ce) =
    let a = env.attempt i in
    record { clock = λ _. a.close_clock; dial = a.dial; exchange = a.exchange }
weather env (returning ce m) = record {
  clock = λ i. if i == 0 then env.add_clock else env.reply_clock;
  dial = (env.attempt 0).dial;
  exchange = (env.attempt 0).exchange;
}
weather env (storing r) = record {
  clock = env.cache_clock;
  dial = (env.attempt 0).dial;
  exchange = (env.attempt 0).exchange;
}
weather env (replying r) = record {
  clock = env.cache_clock;
  dial = (env.attempt 0).dial;
  exchange = (env.attempt 0).exchange;
}
weather env refusing = record {
  clock = env.cache_clock;
  dial = (env.attempt 0).dial;
  exchange = (env.attempt 0).exchange;
}

module _ {F : Type 0} (fl : Floats F) (sort_slice : SortSlice (Upstream F)) (config : Configuration)
    (u : ℤ → ℕ) (dns : DnsLib) (env : Environment) (job : Job) where
  -- The steps of one goroutine, one after another, up to its reply or its panic.
  pub data Finishes (h : Handled F) : MutexServer F → Stage F → Type 0 where
    ends :
        {s : MutexServer F} {stage : Stage F} (s' : MutexServer F) (reply : Msg)
        → advance fl sort_slice config u dns (weather env stage) job s stage
          ≡ some (s', writes reply)
        → h ≡ wrote s' reply
        → Finishes h s stage
    panics :
        {s : MutexServer F} {stage : Stage F}
        → advance fl sort_slice config u dns (weather env stage) job s stage ≡ none
        → h ≡ handler_crashed
        → Finishes h s stage
    steps :
        {s : MutexServer F} {stage : Stage F} (s' : MutexServer F) (stage' : Stage F)
        → advance fl sort_slice config u dns (weather env stage) job s stage
          ≡ some (s', goes_on stage')
        → Finishes h s' stage'
        → Finishes h s stage

  -- What is left of HandleDNS after the loop of RecursiveQuery.
  unfoldable pub after : MutexServer F → Outcome F → Handled F
  after s (answered p ce reply) =
      let r = process_results env.reply_clock reply job.domain job.rrtype in
      write_reply fl sort_slice config u dns job.request (
        retrieved
          (record s {
            conn_pool = (ConnPool.add fl sort_slice config env.add_clock ce p).0;
            cache = Cache.add r s.cache;
          })
          r (from_upstream (address_of ce)))
  after s (failed p) =
      write_reply fl sort_slice config u dns job.request
        (not_retrieved (record s { conn_pool = p }))
  after s panicked = handler_crashed

  unfoldable pub message : Msg
  message = query_message dns job.domain job.rrtype

  pub after_panicked : (s : MutexServer F) → after s panicked ≡ handler_crashed
  unfolding after
  after_panicked s = refl

  pub answered-Finishes :
      (s : MutexServer F) (p : ConnPool F) (ce : ConnEntry F) (reply : Msg)
      → Finishes (after s (answered p ce reply)) (record s { conn_pool = p }) (returning ce reply)
  unfolding after advance weather write_reply
  answered-Finishes s p ce reply = steps _ _ refl (steps _ _ refl (ends _ _ refl refl))

  pub failed-Finishes :
      (s : MutexServer F) (p : ConnPool F)
      → Finishes (after s (failed p)) (record s { conn_pool = p }) refusing
  unfolding after advance weather write_reply
  failed-Finishes s p = ends _ _ refl refl

  module _ (s : MutexServer F) (i rounds : ℕ)
      (again : (p : ConnPool F)
        → Finishes
            (after s (query_loop fl sort_slice config message env.attempt (i + 1) rounds p))
            (record s { conn_pool = p })
            (connecting (i + 1))) where
    -- The rest of the loop, after one attempt.
    unfoldable pub then_loop : Outcome F → Outcome F
    then_loop o = elim o [
      | answered p' ce reply ↦ answered p' ce reply
      | failed p' ↦ query_loop fl sort_slice config message env.attempt (i + 1) rounds p'
      | panicked ↦ panicked
    ]

    exchanging-Finishes :
        (p : ConnPool F) (ce : ConnEntry F)
        → Finishes
            (after s (then_loop (exchange_on fl sort_slice config message (env.attempt i) p ce)))
            (record s { conn_pool = p })
            (exchanging i ce)
    unfolding then_loop exchange_on advance weather message
    exchanging-Finishes p ce = elim (Option-cases ce.conn) [
      | inl nil ↦
          let lost = attempt_exchange_nil config (env.attempt i).exchange message ce nil in
          panics (rw (lost, advance, weather) refl) (rw (lost, exchange_on) (after_panicked s))
      | inr (c, has) ↦
          let x = (env.attempt i).exchange message c in
          let asked = attempt_exchange-conn config (env.attempt i).exchange message ce c has in
          elim (Option-cases x.reply) [
            | inl missing ↦
                steps (record s { conn_pool = p })
                  (dropping i (add_error (add_exchange config x.rtt ce)))
                  (rw (asked, missing, advance, weather) refl)
                  (steps _ _ refl (rw (asked, missing, exchange_on) (again _)))
            | inr (reply, came) ↦
                steps (record s { conn_pool = p }) (returning (add_exchange config x.rtt ce) reply)
                  (rw (asked, came, advance, weather) refl)
                  (rw (asked, came, exchange_on) (answered-Finishes s p _ reply))
          ]
    ]

    dialling-Finishes :
        (p : ConnPool F) (up : Upstream F)
        → let a = env.attempt i in
          let r = new_connection config a.dial_clock up a.dial p in
          Finishes
            (after s (
              then_loop (elim r.1 [
                | none ↦ failed r.0
                | some ce ↦ exchange_on fl sort_slice config message a r.0 ce
              ])))
            (record s { conn_pool = p })
            (dialling i up)
    unfolding then_loop advance weather
    dialling-Finishes p up =
        let a = env.attempt i in
        let r = new_connection config a.dial_clock up a.dial p in
        elim (Option-cases r.1) [
          | inl refused ↦
              steps (record s { conn_pool = r.0 }) (connecting (i + 1))
                (rw (refused, advance, weather) refl) (rw refused (again r.0))
          | inr (ce, reached) ↦
              steps (record s { conn_pool = r.0 }) (exchanging i ce)
                (rw (reached, advance, weather) refl) (rw reached (exchanging-Finishes r.0 ce))
        ]

    -- One round of the loop, where the counter allows it.
    pub round-Finishes :
        leb_int (pos i) config.upstream_retries ≡ true
        → Finishes
            (after s
              (then_loop (attempt_query fl sort_slice config message (env.attempt i) s.conn_pool)))
            s
            (connecting i)
    unfolding then_loop advance weather attempt_query get_connection
    round-Finishes allowed =
        let a = env.attempt i in
        elim (Option-cases (ConnPool.get fl a.get_clock s.conn_pool)) [
          | inl empty ↦
              panics (rw (allowed, empty, advance, weather) refl)
                (rw (empty, attempt_query, get_connection) (after_panicked s))
          | inr (g, got) ↦ elim (Bool-cases (is_no_upstream fl g.upstream)) [
            | inl taken ↦
                steps (record s { conn_pool = g.pool }) (exchanging i g.ce)
                  (rw (allowed, got, taken, advance, weather) refl)
                  (rw (got, taken, attempt_query, get_connection) (exchanging-Finishes g.pool g.ce))
            | inr named ↦
                steps (record s { conn_pool = g.pool }) (dialling i g.upstream)
                  (rw (allowed, got, named, advance, weather) refl)
                  (rw (got, named, attempt_query, get_connection)
                    (dialling-Finishes g.pool g.upstream))
          ]
        ]

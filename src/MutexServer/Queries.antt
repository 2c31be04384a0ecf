-- ===== src/MutexServer/Queries.antt =====
-- A query, seen from the pool: what becomes of the connections that it takes.
use native.Mathlib.Numerals.{add-one}
use funkyd.Base.{
  ◌≡◌, ℕ, zero, suc, ◌+◌, ◌≤◌, refl, inl, inr, Bool, true, false, Option, none, some, List, [], ◌∷◌,
  arith, Option-cases, or_cons, if◌then◌else◌,
}
use funkyd.Base.Int.{ℤ, pos, negsuc}
use funkyd.Base.Text.{Text}
use funkyd.Base.Floats.{Floats}
use funkyd.Config.{Configuration}
use funkyd.Dns.{Msg}
use funkyd.Upstream.{Upstream, get_address, is_no_upstream}
use funkyd.ConnEntry.{ConnEntry, address_of, add_error, add_exchange}
use funkyd.ConnPool
use funkyd.ConnPool.{ConnPool, Got, SortSlice, new_connection, close_connection}
use funkyd.ConnPool.Lifecycle.{
  World, takes, dials, exchanges, fails, returns, closes, purges, Reach, here, next,
}
use funkyd.Server.{DnsLib, attempt_exchange, process_results}
use funkyd.MutexServer.{
  Attempt, Environment, Outcome, answered, failed, panicked, get_connection, exchange_on,
  attempt_query, query_loop, run_queries, query_message, Queried, resolved, unresolved, crashed,
  recursive_query,
}

-- The attempts that the configuration allows.
abbrev pub max_attempts : Configuration → ℕ
max_attempts config = elim config.upstream_retries [ pos n ↦ n + 1 | negsuc n ↦ 0 ]

module _ {F : Type 0} (fl : Floats F) (sort_slice : SortSlice (Upstream F))
    (config : Configuration) where
  -- The dials among the moves, those that fail included.
  abbrev pub dials_of : {u v : World F} → Reach fl sort_slice config u v → ℕ
  dials_of here = 0
  dials_of (next r (takes now g e k)) = dials_of r
  dials_of (next r (dials now u dial k)) = dials_of r + 1
  dials_of (next r (exchanges xs ce ys rtt e k)) = dials_of r
  dials_of (next r (fails xs ce ys e k)) = dials_of r
  dials_of (next r (returns now xs ce ys e k)) = dials_of r
  dials_of (next r (closes now xs ce ys e k)) = dials_of r
  dials_of (next r (purges now xs ce ys e k)) = dials_of r

  pub Reach-trans :
      (u v w : World F)
      → Reach fl sort_slice config u v
      → Reach fl sort_slice config v w
      → Reach fl sort_slice config u w
  Reach-trans u v w r here = r
  Reach-trans u v w r (next {v = x} s m) = next (Reach-trans u v x r s) m

  pub dials_of_trans :
      (u v w : World F) (r : Reach fl sort_slice config u v) (s : Reach fl sort_slice config v w)
      → dials_of (Reach-trans u v w r s) ≡ dials_of r + dials_of s
  unfolding Reach-trans
  dials_of_trans u v w r here = omega arith
  dials_of_trans u v w r (next {v = x} s (takes now g e k)) = dials_of_trans u v x r s
  dials_of_trans u v w r (next {v = x} s (dials now up dial k)) =
      omega (arith, dials_of_trans u v x r s)
  dials_of_trans u v w r (next {v = x} s (exchanges xs ce ys rtt e k)) = dials_of_trans u v x r s
  dials_of_trans u v w r (next {v = x} s (fails xs ce ys e k)) = dials_of_trans u v x r s
  dials_of_trans u v w r (next {v = x} s (returns now xs ce ys e k)) = dials_of_trans u v x r s
  dials_of_trans u v w r (next {v = x} s (closes now xs ce ys e k)) = dials_of_trans u v x r s
  dials_of_trans u v w r (next {v = x} s (purges now xs ce ys e k)) = dials_of_trans u v x r s

  abbrev pub ReachIn : ℕ → World F → ConnPool F → List (ConnEntry F) → Type 0
  ReachIn n w p l =
      (opened : List ℕ) × (r : Reach fl sort_slice config w
        (record { pool = p; lent = l; opened = opened }))
      × (dials_of r ≤ n)

  -- The moves of an attempt, or of a whole loop, with at most n dials.
  abbrev Ends : ℕ → World F → Outcome F → Type 0
  Ends n w (answered p ce reply) = ReachIn n w p (ce ∷ w.lent)
  Ends n w (failed p) = ReachIn n w p w.lent
  Ends n w panicked = Unit {0}

  -- After GetConnection the connection is lent to the query.
  abbrev Connects : World F → Option (ConnPool F × Option (ConnEntry F)) → Type 0
  Connects w none = Unit {0}
  Connects w (some (p, none)) = ReachIn 1 w p w.lent
  Connects w (some (p, some ce)) = ReachIn 1 w p (ce ∷ w.lent)

  Connects-intro :
      (w : World F) (p : ConnPool F) (o : Option (ConnEntry F))
      → ReachIn 1 w p (or_cons o w.lent)
      → Connects w (some (p, o))
  Connects-intro w p none r = r
  Connects-intro w p (some ce) r = r

  Connects-dial :
      (a : Attempt) (u : Upstream F) (w : World F) (p : ConnPool F)
      (r : Reach fl sort_slice config w (record w { pool = p }))
      → dials_of r ≡ 0
      → Connects w (some (new_connection config a.dial_clock u a.dial p))
  Connects-dial a u w p r z =
      let (q, o) = new_connection config a.dial_clock u a.dial p in
      Connects-intro w q o (
        or_cons (a.dial (get_address u)).conn w.opened,
        next r (dials a.dial_clock u a.dial refl),
        omega (arith, z),
      )

  take_or_dial :
      (a : Attempt) (w : World F) (g : Got fl) (b : Bool)
      (r : Reach fl sort_slice config w
        (record { pool = g.pool; lent = if b then g.ce ∷ w.lent else w.lent; opened = w.opened }))
      → dials_of r ≡ 0
      → Connects w (
          if b
          then some (g.pool, some g.ce)
          else some (new_connection config a.dial_clock g.upstream a.dial g.pool))
  take_or_dial a w g true r z = (w.opened, r, omega (arith, z))
  take_or_dial a w g false r z = Connects-dial a g.upstream w g.pool r z

  get_connection-Connects :
      (a : Attempt) (w : World F) → Connects w (get_connection fl sort_slice config a w.pool)
  unfolding get_connection
  get_connection-Connects a w = elim (Option-cases (ConnPool.get fl a.get_clock w.pool)) [
    | inl empty ↦ rw (empty, get_connection) tt
    | inr (g, got) ↦
        let Taken = λ (l : List (ConnEntry F)).
          Reach fl sort_slice config w (record { pool = g.pool; lent = l; opened = w.opened }) in
        let taken : Taken (if is_no_upstream fl g.upstream then g.ce ∷ w.lent else w.lent) =
          next here (takes a.get_clock g got refl) in
        rw (got, get_connection) (take_or_dial a w g (is_no_upstream fl g.upstream) taken refl)
  ]

  exchange_on-Ends :
      (m : Msg) (a : Attempt) (w : World F) (p : ConnPool F) (ce : ConnEntry F)
      → ReachIn 1 w p (ce ∷ w.lent)
      → Ends 1 w (exchange_on fl sort_slice config m a p ce)
  unfolding exchange_on attempt_exchange
  exchange_on-Ends m a w p ce (opened, r, few) = elim (Option-cases ce.conn) [
    | inl nil ↦ rw (nil, exchange_on, attempt_exchange) tt
    | inr (c, conn) ↦
        let e = a.exchange m c in
        let used = next r (exchanges [] ce w.lent e.rtt refl refl) in
        let ce' = add_exchange config e.rtt ce in
        elim (Option-cases e.reply) [
          | inl lost ↦
              let failing = next used (fails [] ce' w.lent refl refl) in
              rw (conn, lost, exchange_on, attempt_exchange)
                (
                  opened,
                  next failing (closes a.close_clock [] (add_error ce') w.lent refl refl),
                  few,
                )
          | inr (reply, came) ↦ rw (conn, came, exchange_on, attempt_exchange) (opened, used, few)
        ]
  ]

  attempt_query-Ends :
      (m : Msg) (a : Attempt) (w : World F)
      → Ends 1 w (attempt_query fl sort_slice config m a w.pool)
  unfolding attempt_query
  attempt_query-Ends m a w =
      go (get_connection fl sort_slice config a w.pool) (get_connection-Connects a w)
    where
      go :
          (o : Option (ConnPool F × Option (ConnEntry F)))
          → Connects w o
          → Ends 1 w (elim o [
            | none ↦ panicked
            | some (p', none) ↦ failed p'
            | some (p', some ce) ↦ exchange_on fl sort_slice config m a p' ce
          ])
      go none c = tt
      go (some (p, none)) c = c
      go (some (p, some ce)) c = exchange_on-Ends m a w p ce c

  Ends-trans :
      (n : ℕ) (w : World F) (p : ConnPool F) (o : Outcome F) (first : ReachIn 1 w p w.lent)
      → Ends n (record { pool = p; lent = w.lent; opened = first.0 }) o
      → Ends (n + 1) w o
  Ends-trans n w p (answered q ce reply) (opened, r, few) (opened', r', few') =
      (opened', Reach-trans w _ _ r r', omega (arith, dials_of_trans w _ _ r r'))
  Ends-trans n w p (failed q) (opened, r, few) (opened', r', few') =
      (opened', Reach-trans w _ _ r r', omega (arith, dials_of_trans w _ _ r r'))
  Ends-trans n w p panicked first e = tt

  query_loop-Ends :
      (m : Msg) (attempts : ℕ → Attempt) (i rounds : ℕ) (w : World F)
      → Ends rounds w (query_loop fl sort_slice config m attempts i rounds w.pool)
  unfolding query_loop
  query_loop-Ends m attempts i zero w = (w.opened, here, omega arith)
  query_loop-Ends m attempts i (suc rounds) w =
      go (attempt_query fl sort_slice config m (attempts i) w.pool)
        (attempt_query-Ends m (attempts i) w)
        (λ p opened.
          query_loop-Ends m attempts (i + 1) rounds
            (record { pool = p; lent = w.lent; opened = opened }))
    where
      go :
          (o : Outcome F)
          → Ends 1 w o
          → ((p : ConnPool F) (opened : List ℕ)
              → Ends rounds
                  (record { pool = p; lent = w.lent; opened = opened })
                  (query_loop fl sort_slice config m attempts (i + 1) rounds p))
          → Ends (suc rounds) w (elim o [
            | answered p' ce reply ↦ answered p' ce reply
            | failed p' ↦ query_loop fl sort_slice config m attempts (i + 1) rounds p'
            | panicked ↦ panicked
          ])
      go (answered p ce reply) (opened, r, few) ih = (opened, r, omega arith)
      go (failed p) first ih = rw (← add-one rounds) (
          Ends-trans rounds w p (query_loop fl sort_slice config m attempts (i + 1) rounds p) first
            (ih p first.0))
      go panicked first ih = tt

  -- A query is over, and holds none of the pool's connections.
  abbrev pub Settles : World F → Queried F → Type 0
  Settles w (resolved p r address) = ReachIn (max_attempts config) w p w.lent
  Settles w (unresolved p) = ReachIn (max_attempts config) w p w.lent
  Settles w crashed = Unit {0}

  run_queries-Ends :
      (m : Msg) (attempts : ℕ → Attempt) (w : World F)
      → Ends (max_attempts config) w (run_queries fl sort_slice config m attempts w.pool)
  unfolding run_queries
  run_queries-Ends m attempts w = go config.upstream_retries
    where
      go :
          (retries : ℤ)
          → Ends
              (elim retries [ pos n ↦ n + 1 | negsuc n ↦ 0 ])
              w
              (elim retries [
                | pos n ↦ query_loop fl sort_slice config m attempts 0 (suc n) w.pool
                | negsuc n ↦ panicked
              ])
      go (pos n) = rw (add-one n) (query_loop-Ends m attempts 0 (suc n) w)
      go (negsuc n) = tt

  -- If RecursiveQuery ends, with a response or an error, it was for the pool a sequence of moves
  -- after which the same connections are lent as before, with at most one dial for each attempt
  -- that the configuration allows.
  pub recursive_query-Settles :
      (dns : DnsLib) (env : Environment) (w : World F) (domain : Text) (rrtype : ℕ)
      → Settles w (recursive_query fl sort_slice config dns env w.pool domain rrtype)
  unfolding recursive_query
  recursive_query-Settles dns env w domain rrtype =
      go (run_queries fl sort_slice config (query_message dns domain rrtype) env.attempt w.pool)
        (run_queries-Ends (query_message dns domain rrtype) env.attempt w)
    where
      go :
          (o : Outcome F)
          → Ends (max_attempts config) w o
          → Settles w (elim o [
            | answered p' ce reply ↦
                resolved
                  (ConnPool.add fl sort_slice config env.add_clock ce p').0
                  (process_results env.reply_clock reply domain rrtype)
                  (address_of ce)
            | failed p' ↦ unresolved p'
            | panicked ↦ crashed
          ])
      go (answered p ce reply) (opened, r, few) =
          (opened, next r (returns env.add_clock [] ce w.lent refl refl), few)
      go (failed p) settled = settled
      go panicked settled = tt

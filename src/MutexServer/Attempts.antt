-- ===== src/MutexServer/Attempts.antt =====
-- The attempts of a query on a sound pool: none of them panics.
use funkyd.Base.{
  ◌⊎◌, ℕ, zero, suc, ◌+◌, ◌≡◌, inl, inr, Bool, true, false, Option, none, some, List, [], arith,
  Option-cases, All, or_cons, if◌then◌else◌,
}
use funkyd.Base.Floats.{Floats}
use funkyd.Config.{Configuration}
use funkyd.Dns.{Msg}
use funkyd.Upstream.{Upstream, is_no_upstream}
use funkyd.ConnEntry.{ConnEntry, add_error, add_exchange}
use funkyd.ConnPool.{ConnPool, Got, SortSlice, new_connection}
use funkyd.ConnPool.Sorting.{IsSort}
use funkyd.ConnPool.Choice.{get-IsSound}
use funkyd.ConnPool.Soundness.{IsSound, has_conn, new_connection-IsSound, close_connection-IsSound}
use funkyd.Server.{attempt_exchange}
use funkyd.MutexServer.{
  Attempt, Outcome, answered, failed, panicked, get_connection, exchange_on, attempt_query,
  query_loop,
}

module _ {F : Type 0} (fl : Floats F) (sort_slice : SortSlice (Upstream F))
    (sort : IsSort fl sort_slice) (config : Configuration) where
  abbrev Live : List (ConnEntry F) → Type 0
  Live ces = All (λ ce. has_conn ce ≡ true) ces

  -- No panic, and a sound pool afterwards.
  abbrev Connects : Option (ConnPool F × Option (ConnEntry F)) → Type 0
  Connects none = ⊥
  Connects (some (p, o)) = IsSound p × Live (or_cons o [])

  abbrev pub Ends : Outcome F → Type 0
  Ends (answered p ce reply) = IsSound p × (has_conn ce ≡ true)
  Ends (failed p) = IsSound p
  Ends panicked = ⊥

  get_connection-Connects :
      (a : Attempt) (p : ConnPool F)
      → IsSound p
      → Connects (get_connection fl sort_slice config a p)
  unfolding get_connection
  get_connection-Connects a p s =
      let (g, got, sound, ready) = get-IsSound fl a.get_clock p s in
      let dialled = new_connection-IsSound fl config a.dial_clock g.upstream a.dial g.pool sound in
      rw (got, get_connection) (go g (is_no_upstream fl g.upstream) sound ready dialled)
    where
      go :
          (g : Got fl) (named : Bool)
          → IsSound g.pool
          → (named ≡ false) ⊎ (has_conn g.ce ≡ true)
          → (let r = new_connection config a.dial_clock g.upstream a.dial g.pool in
              IsSound r.0 × Live (or_cons r.1 []))
          → Connects (
              if named
              then some (g.pool, some g.ce)
              else some (new_connection config a.dial_clock g.upstream a.dial g.pool))
      go g true sound (inl e) d = cc
      go g true sound (inr live) d = (sound, (live, tt))
      go g false sound ready d = d

  exchange_on-Ends :
      (m : Msg) (a : Attempt) (p : ConnPool F) (ce : ConnEntry F)
      → IsSound p
      → has_conn ce ≡ true
      → Ends (exchange_on fl sort_slice config m a p ce)
  unfolding exchange_on attempt_exchange add_exchange add_error
  exchange_on-Ends m a p ce s live = elim (Option-cases ce.conn) [
    | inl nil ↦ cc
    | inr (c, conn) ↦
        let used = add_exchange config (a.exchange m c).rtt ce in
        let still : has_conn used ≡ true = ground arith in
        elim (Option-cases (a.exchange m c).reply) [
          | inl lost ↦
              rw (conn, lost, exchange_on, attempt_exchange)
                (close_connection-IsSound fl sort_slice sort config a.close_clock (add_error used) p
                  still s)
          | inr (reply, came) ↦ rw (conn, came, exchange_on, attempt_exchange) (s, still)
        ]
  ]

  attempt_query-Ends :
      (m : Msg) (a : Attempt) (p : ConnPool F)
      → IsSound p
      → Ends (attempt_query fl sort_slice config m a p)
  unfolding attempt_query
  attempt_query-Ends m a p s =
      go (get_connection fl sort_slice config a p) (get_connection-Connects a p s)
    where
      go :
          (o : Option (ConnPool F × Option (ConnEntry F)))
          → Connects o
          → Ends (elim o [
            | none ↦ panicked
            | some (p', none) ↦ failed p'
            | some (p', some ce) ↦ exchange_on fl sort_slice config m a p' ce
          ])
      go none c = absurd c
      go (some (q, none)) c = c.0
      go (some (q, some ce)) c = exchange_on-Ends m a q ce c.0 c.1.0

  pub query_loop-Ends :
      (m : Msg) (attempts : ℕ → Attempt) (i rounds : ℕ) (p : ConnPool F)
      → IsSound p
      → Ends (query_loop fl sort_slice config m attempts i rounds p)
  unfolding query_loop
  query_loop-Ends m attempts i zero p s = s
  query_loop-Ends m attempts i (suc rounds) p s =
      go (attempt_query fl sort_slice config m (attempts i) p)
        (attempt_query-Ends m (attempts i) p s) (λ q. query_loop-Ends m attempts (i + 1) rounds q)
    where
      go :
          (o : Outcome F)
          → Ends o
          → ((q : ConnPool F)
              → IsSound q
              → Ends (query_loop fl sort_slice config m attempts (i + 1) rounds q))
          → Ends (elim o [
            | answered p' ce reply ↦ answered p' ce reply
            | failed p' ↦ query_loop fl sort_slice config m attempts (i + 1) rounds p'
            | panicked ↦ panicked
          ])
      go (answered q ce reply) e ih = e
      go (failed q) e ih = ih q e
      go panicked e ih = absurd e

-- ===== src/Metrics/Exchanges.antt =====
-- server.go and mutex_server.go: the exchanges of a recursive query, and what it writes to the metrics; what the
-- pool's operations write on the way is in Metrics/Samples. `elapsed` is what the timer measures.
use funkyd.Base.{Bool, true, false, ℕ, zero, suc, ◌+◌, none, some, List, [], ◌∷◌, ◌++◌}
use funkyd.Base.Int.{pos, negsuc}
use funkyd.Base.Text.{Text}
use funkyd.Base.Time.{Duration}
use funkyd.Base.Floats.{Floats}
use funkyd.Config.{Configuration}
use funkyd.Dns.{Msg}
use funkyd.Upstream.{Upstream}
use funkyd.ConnEntry.{ConnEntry, address_of}
use funkyd.ConnPool.{ConnPool, SortSlice}
use funkyd.Server.{DnsLib, attempt_exchange}
use funkyd.MutexServer.{
  Attempt, answered, failed, panicked, Environment, query_message, get_connection, attempt_query,
}
use funkyd.Metrics.{
  reused_connections_counter, recursive_query_counter, exchange_timer, upstream_errors_counter,
}
use funkyd.Metrics.Samples.{Sample, increments, observes, counted}

module _ {F : Type 0} (fl : Floats F) (sort_slice : SortSlice (Upstream F)) (config : Configuration)
    (elapsed : Text → Duration) where
  -- attemptExchange of server.go, and then the method of that name on an error.
  unfoldable pub exchange_samples : Msg → Attempt → ConnEntry F → List (Sample F)
  exchange_samples m a ce =
      let address = address_of ce in
      let timed : Sample F = record {
        metric = exchange_timer;
        labels = address ∷ [];
        change = observes (elapsed address);
      } in
      elim (attempt_exchange config a.exchange m ce) [
        | none ↦ []
        | some (ce', some reply) ↦ timed ∷ []
        | some (ce', none) ↦
            timed
            ∷ counted upstream_errors_counter address
            ∷ counted upstream_errors_counter address
            ∷ []
      ]

  -- GetConnection counts a connection that it has just dialled as reused, too.
  unfoldable pub attempt_samples : Msg → Attempt → ConnPool F → List (Sample F)
  unfolding exchange_samples
  attempt_samples m a p = elim (get_connection fl sort_slice config a p) [
    | none ↦ []
    | some (p', none) ↦ []
    | some (p', some ce) ↦
        counted reused_connections_counter (address_of ce) ∷ exchange_samples m a ce
  ]

  unfoldable pub loop_samples : Msg → (ℕ → Attempt) → ℕ → ℕ → ConnPool F → List (Sample F)
  unfolding attempt_samples
  loop_samples m attempts i zero p = []
  loop_samples m attempts i (suc rounds) p =
      attempt_samples m (attempts i) p
      ++ elim (attempt_query fl sort_slice config m (attempts i) p) [
        | answered p' ce reply ↦ []
        | failed p' ↦ loop_samples m attempts (i + 1) rounds p'
        | panicked ↦ []
      ]

  unfoldable pub recursive_query_samples :
      DnsLib → Environment → ConnPool F → Text → ℕ → List (Sample F)
  unfolding loop_samples
  recursive_query_samples dns w p domain rrtype =
      record { metric = recursive_query_counter; labels = []; change = increments }
      ∷ elim config.upstream_retries [
        | pos n ↦ loop_samples (query_message dns domain rrtype) w.attempt 0 (suc n) p
        | negsuc n ↦ []
      ]

module _ {F : Type 0} (fl : Floats F) (sort_slice : SortSlice (Upstream F))
    (config : Configuration) where
  -- The exchange on a connection: its address, and whether a reply came.
  unfoldable pub exchange_made : Msg → Attempt → ConnEntry F → List (Text × Bool)
  exchange_made m a ce = elim (attempt_exchange config a.exchange m ce) [
    | none ↦ []
    | some (ce', some reply) ↦ (address_of ce, true) ∷ []
    | some (ce', none) ↦ (address_of ce, false) ∷ []
  ]

  unfoldable pub attempt_made : Msg → Attempt → ConnPool F → List (Text × Bool)
  unfolding exchange_made
  attempt_made m a p = elim (get_connection fl sort_slice config a p) [
    | none ↦ []
    | some (p', none) ↦ []
    | some (p', some ce) ↦ exchange_made m a ce
  ]

  unfoldable pub loop_made : Msg → (ℕ → Attempt) → ℕ → ℕ → ConnPool F → List (Text × Bool)
  unfolding attempt_made
  loop_made m attempts i zero p = []
  loop_made m attempts i (suc rounds) p =
      attempt_made m (attempts i) p ++ elim (attempt_query fl sort_slice config m (attempts i) p) [
        | answered p' ce reply ↦ []
        | failed p' ↦ loop_made m attempts (i + 1) rounds p'
        | panicked ↦ []
      ]

  -- The exchanges of RecursiveQuery, in their order.
  unfoldable pub exchanges_made : DnsLib → Environment → ConnPool F → Text → ℕ → List (Text × Bool)
  unfolding loop_made
  exchanges_made dns w p domain rrtype = elim config.upstream_retries [
    | pos n ↦ loop_made (query_message dns domain rrtype) w.attempt 0 (suc n) p
    | negsuc n ↦ []
  ]

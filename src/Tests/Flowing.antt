-- ===== src/Tests/Flowing.antt =====
-- Witnesses for the workers together: two requests, and a failed exchange.
use mathlib.Core.List.{Perm, map}
use funkyd.Base.{List, ℕ, ◌*◌, ◌≡◌, refl, inr, some, [], ◌∷◌, ◌++◌}
use funkyd.Base.Text.{text_eq}
use funkyd.Base.Time.{second, millisecond}
use funkyd.Base.Map.{lookup}
use funkyd.Config.{rtt_timeout}
use funkyd.Upstream.{is_no_upstream, no_upstream}
use funkyd.ConnEntry.{ConnEntry, new_entry, add_exchange}
use funkyd.ConnPool
use funkyd.ConnPool.{ConnPool, get_best_upstream, best_loop, new_connection}
use funkyd.Cache
use funkyd.Cache.{RecordCache, new_cache}
use funkyd.Server.{attempt_exchange}
use funkyd.Pipeline.{
  Query, cacher_inbound, connector_inbound, querier_inbound, new_pipeline, no_query, assign_loop,
  assign_connection, retry_limit, connect, dispatch, fail,
}
use funkyd.Pipeline.Workers.{Write, query, query_step, cache_step, check_cache, handle_query}
use funkyd.Pipeline.System.{
  System, start_system, from_handler, from_cacher, from_connector, Reach, here, next, arrives,
  caches, connects, queries,
}
use funkyd.Pipeline.Clients.{clients, pending}
use funkyd.Pipeline.Delivery.{Reach-Answered}
use funkyd.ConnPool.Lifecycle
use funkyd.ConnPool.Ownership.{held}
use funkyd.Pipeline.Deadlock.{Jammed, Purges, Reach-Jammed}
use funkyd.Tests.{mills, insertion_sort, seconds}
use funkyd.Tests.Pooling.{settings, x}
use funkyd.Tests.Serving.{dns, request, heap}
use funkyd.Tests.Piping.{cold, asking, network, silence}

abbrev Steps : System ℕ → System ℕ → Type 0
Steps = Reach mills insertion_sort settings seconds dns

abbrev first : Query ℕ
first = record asking { writer = some 1 }

abbrev second_query : Query ℕ
second_query = record asking { writer = some 2 }

abbrev dialled : ConnEntry ℕ
dialled = add_exchange settings (20 * millisecond) (new_entry 7 x)

abbrev connected : Query ℕ → Query ℕ
connected q = record q { conn = some dialled; connection_retries = 1 }

abbrev lost : Query ℕ
lost = record (connected first) { conn = some (add_exchange settings second dialled) }

abbrev empty_system : System ℕ
empty_system = start_system cold heap new_cache

abbrev arrived : System ℕ
arrived = record empty_system { handlers = (some cacher_inbound, first) ∷ []; requests = 1 ∷ [] }

abbrev missed : System ℕ
missed = record arrived { handlers = []; cacher = (some connector_inbound, first) ∷ [] }

abbrev assigned_first : System ℕ
assigned_first = record missed {
  cacher = [];
  connector = (some querier_inbound, connected first) ∷ [];
}

abbrev failed_first : System ℕ
failed_first = record assigned_first {
  connector = [];
  querier = (some connector_inbound, lost) ∷ [];
}

abbrev arrived_second : System ℕ
arrived_second = record failed_first {
  handlers = (some cacher_inbound, second_query) ∷ [];
  requests = 2 ∷ 1 ∷ [];
}

abbrev missed_second : System ℕ
missed_second = record arrived_second {
  handlers = [];
  cacher = (some connector_inbound, second_query) ∷ [];
}

-- The connector waits for the querier, and the querier for the connector.
abbrev jammed : System ℕ
jammed = record missed_second {
  cacher = [];
  connector = (some querier_inbound, connected second_query) ∷ [];
}

failed_first-Steps : Steps empty_system failed_first
unfolding handle_query dispatch fail new_pipeline no_query cache_step check_cache Cache.get
    new_cache lookup connect assign_connection assign_loop retry_limit ConnPool.get
    get_best_upstream best_loop is_no_upstream no_upstream new_connection text_eq query_step query
    attempt_exchange add_exchange new_entry rtt_timeout
failed_first-Steps =
    next
      (next
        (next (next here (arrives request 1 refl))
          (caches (λ _. 0) first _ refl refl (from_handler [] [] refl refl) refl))
        (connects (λ _. 0) network first _ cold _ refl refl (from_cacher [] refl refl) refl refl))
      (queries silence (connected first) _ _ refl refl (from_connector [] refl refl) refl refl)

jammed-Steps : Steps empty_system jammed
unfolding handle_query dispatch fail new_pipeline no_query cache_step check_cache Cache.get
    new_cache lookup connect assign_connection assign_loop retry_limit ConnPool.get
    get_best_upstream best_loop is_no_upstream no_upstream new_connection text_eq query_step query
    attempt_exchange add_exchange new_entry rtt_timeout
jammed-Steps =
    next
      (next (next failed_first-Steps (arrives request 2 refl))
        (caches (λ _. 0) second_query _ refl refl (from_handler [] [] refl refl) refl))
      (connects (λ _. 0) network second_query _ cold _ refl refl (from_cacher [] refl refl) refl
        refl)

Reach-Answered_example :
    Perm (clients (pending jammed) ++ map (λ (w : Write). w.0) jammed.writes) jammed.requests
Reach-Answered_example =
    Reach-Answered mills insertion_sort settings seconds dns cold heap new_cache jammed jammed-Steps

abbrev arrived_third : System ℕ
arrived_third = record jammed {
  handlers = (some cacher_inbound, record asking { writer = some 3 }) ∷ [];
  requests = 3 ∷ 2 ∷ 1 ∷ [];
}

arrived_third-Steps : Steps jammed arrived_third
unfolding handle_query dispatch new_pipeline no_query
arrived_third-Steps = next here (arrives request 3 refl)

Reach-Jammed_example :
    (arrived_third.connector ≡ jammed.connector)
    × Purges mills insertion_sort settings jammed.pool arrived_third.pool
    × Perm (held arrived_third.pool) (held jammed.pool)
    × Jammed arrived_third
Reach-Jammed_example =
    Reach-Jammed mills insertion_sort settings seconds dns jammed arrived_third
      (inr (connected second_query, [], lost, [], refl, refl)) arrived_third-Steps

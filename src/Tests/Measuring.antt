-- ===== src/Tests/Measuring.antt =====
-- Witnesses for the metrics.
use funkyd.Base.{◌≡◌, [], ◌∷◌, All, length}
use funkyd.ConnPool.{cached}
use funkyd.ConnPool.Lifecycle.{start}
use funkyd.Upstream.{get_address}
use funkyd.Metrics.Samples.{samples}
use funkyd.Metrics.Sizes.{size_gauge, Reach-size_gauge}
use funkyd.Metrics.Typing.{IsTyped, samples-IsTyped}
use funkyd.Tests.{mills, insertion_sort}
use funkyd.MutexServer.{recursive_query}
use funkyd.Metrics.Exchanges.{recursive_query_samples, exchanges_made}
use funkyd.Metrics.Accounting.{CountedQuery, recursive_query-CountedQuery}
use funkyd.Tests.Serving.{asked, dns, env}
use funkyd.Tests.Pooling.{settings, x, y, returned, returned-Reach}

Reach-size_gauge_example :
    size_gauge
      (get_address x)
      (samples mills insertion_sort settings (λ t. t) (λ t. t) (λ u t. []) returned-Reach)
      0
    ≡ length (cached (get_address x) returned.pool)
Reach-size_gauge_example =
    Reach-size_gauge mills insertion_sort settings (λ t. t) (λ t. t) (λ u t. []) (x ∷ y ∷ [])
      returned returned-Reach (get_address x)

samples-IsTyped_example :
    All IsTyped (samples mills insertion_sort settings (λ t. t) (λ t. t) (λ u t. []) returned-Reach)
samples-IsTyped_example =
    samples-IsTyped mills insertion_sort settings (λ t. t) (λ t. t) (λ u t. []) (start (x ∷ y ∷ []))
      returned returned-Reach

-- A query that is answered on the first exchange.
recursive_query-CountedQuery_example :
    CountedQuery
      (recursive_query mills insertion_sort settings dns env (start (x ∷ y ∷ [])).pool asked.name 1)
      (exchanges_made mills insertion_sort settings dns env (start (x ∷ y ∷ [])).pool asked.name 1)
      (recursive_query_samples mills insertion_sort settings
        (λ a. 0)
        dns
        env
        (start (x ∷ y ∷ [])).pool
        asked.name
        1)
recursive_query-CountedQuery_example =
    recursive_query-CountedQuery mills insertion_sort settings (λ a. 0) dns env
      (start (x ∷ y ∷ [])).pool asked.name 1

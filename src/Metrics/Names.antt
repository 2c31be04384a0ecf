-- ===== src/Metrics/Names.antt =====
-- The names of the metrics.
use funkyd.Base.{◌≡◌, refl, sym, ap, ◌∙◌, Option, none, some, List, [], ◌∷◌, if◌then◌else◌}
use funkyd.Base.Text.{Text, text_eq}
use funkyd.Metrics.{
  Metric, options, metrics, build_info_gauge, eviction_buffer_gauge, upstream_weight_gauge,
  conn_pool_size_gauge, queued_queries_gauge, failed_connections_counter, total_dns_queries_counter,
  cache_size_gauge, cache_hits_counter, hosted_cache_hits_counter, recursive_query_counter,
  upstream_errors_counter, local_servfails_counter, nxdomain_counter, query_timer, exchange_timer,
  tls_timer, new_connection_attempts_counter, reused_connections_counter,
}
use mathlib.Core.Option.{some-injective}

-- The first metric of a list that has a name.
unfoldable metric_named : Text → List Metric → Option Metric
metric_named name [] = none
metric_named name (m ∷ ms) = if text_eq (options m).name name then some m else metric_named name ms

metric_named-name : (m : Metric) → metric_named (options m).name metrics ≡ some m
unfolding metric_named metrics options text_eq
metric_named-name build_info_gauge = refl
metric_named-name eviction_buffer_gauge = refl
metric_named-name upstream_weight_gauge = refl
metric_named-name conn_pool_size_gauge = refl
metric_named-name queued_queries_gauge = refl
metric_named-name failed_connections_counter = refl
metric_named-name total_dns_queries_counter = refl
metric_named-name cache_size_gauge = refl
metric_named-name cache_hits_counter = refl
metric_named-name hosted_cache_hits_counter = refl
metric_named-name recursive_query_counter = refl
metric_named-name upstream_errors_counter = refl
metric_named-name local_servfails_counter = refl
metric_named-name nxdomain_counter = refl
metric_named-name query_timer = refl
metric_named-name exchange_timer = refl
metric_named-name tls_timer = refl
metric_named-name new_connection_attempts_counter = refl
metric_named-name reused_connections_counter = refl

--
pub name-injective : (m n : Metric) → (options m).name ≡ (options n).name → m ≡ n
name-injective m n e =
    some-injective _ _
      (sym (metric_named-name m) ∙ ap (λ name. metric_named name metrics) e ∙ metric_named-name n)

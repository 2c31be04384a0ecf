-- ===== src/Metrics.antt =====
-- prom.go: the metrics that the program registers. The options of a metric are those that the
-- source gives to the library; an objective is in thousandths.
pub mod Names
pub mod Samples
pub mod Sizes
pub mod Typing
pub mod Exchanges
pub mod Accounting
use funkyd.Base.{ℕ, ◌==◌, Bool, true, false, ◌&&◌, List, [], ◌∷◌, length}
use funkyd.Base.Text.{Text, codes}

pub data Kind : Type 0 where
  gauge : Kind
  counter : Kind
  summary : Kind

-- A metric that is no vector has no labels.
pub record Options : Type 0 where
  pub kind : Kind
  pub name : Text
  pub help : Text
  pub labels : List Text
  pub objectives : List (ℕ × ℕ)

pub data Metric : Type 0 where
  build_info_gauge : Metric
  eviction_buffer_gauge : Metric
  upstream_weight_gauge : Metric
  conn_pool_size_gauge : Metric
  queued_queries_gauge : Metric
  failed_connections_counter : Metric
  total_dns_queries_counter : Metric
  cache_size_gauge : Metric
  cache_hits_counter : Metric
  hosted_cache_hits_counter : Metric
  recursive_query_counter : Metric
  upstream_errors_counter : Metric
  local_servfails_counter : Metric
  nxdomain_counter : Metric
  query_timer : Metric
  exchange_timer : Metric
  tls_timer : Metric
  new_connection_attempts_counter : Metric
  reused_connections_counter : Metric

-- The metrics in the order of their declarations, in which they are registered.
unfoldable pub metrics : List Metric
metrics =
    build_info_gauge ∷ eviction_buffer_gauge ∷ upstream_weight_gauge ∷ conn_pool_size_gauge
    ∷ queued_queries_gauge ∷ failed_connections_counter ∷ total_dns_queries_counter
    ∷ cache_size_gauge ∷ cache_hits_counter ∷ hosted_cache_hits_counter ∷ recursive_query_counter
    ∷ upstream_errors_counter ∷ local_servfails_counter ∷ nxdomain_counter ∷ query_timer
    ∷ exchange_timer ∷ tls_timer ∷ new_connection_attempts_counter ∷ reused_connections_counter ∷ []

-- The options of a gauge or of a counter.
abbrev plain : Kind → Text → Text → List Text → Options
plain kind name help labels = record {
  kind = kind;
  name = name;
  help = help;
  labels = labels;
  objectives = [];
}

-- Those of a summary.
abbrev timed : Text → Text → List Text → Options
timed name help labels = record {
  kind = summary;
  name = name;
  help = help;
  labels = labels;
  objectives = (500, 50) ∷ (900, 10) ∷ (990, 1) ∷ [];
}

unfoldable pub options : Metric → Options
options build_info_gauge =
    plain gauge (codes "funkyd_build_info") (codes "information about the current build")
      (codes "version" ∷ [])
options eviction_buffer_gauge =
    plain gauge (codes "funkyd_eviction_buffer_gauge")
      (codes "how many records are queued up for deletion") []
options upstream_weight_gauge =
    plain gauge (codes "funkyd_upstream_weight_gauge")
      (codes
        "the weights of the upstreams in the system, only meaningful when broken down per address")
      (codes "address" ∷ codes "error" ∷ codes "cooling" ∷ [])
options conn_pool_size_gauge =
    plain gauge (codes "funkyd_conn_pool_size")
      (codes "the total size of the connection pool, labelled by destination host")
      (codes "destination" ∷ [])
options queued_queries_gauge =
    plain gauge (codes "funkyd_queued_queries_total")
      (codes "dns queries that have been received, but are waiting on a free worker") []
options failed_connections_counter =
    plain counter (codes "funkyd_failed_connections_counter")
      (codes "attempts to connect to an upstream that failed") (codes "destination" ∷ [])
options total_dns_queries_counter =
    plain counter (codes "funkyd_dns_queries_total")
      (codes "The total number of handled DNS queries") []
options cache_size_gauge =
    plain gauge (codes "funkyd_cache_entries_total") (codes "total size of cache") []
options cache_hits_counter =
    plain counter (codes "funkyd_cache_hits_total") (codes "The total number of local cache hits")
      []
options hosted_cache_hits_counter =
    plain counter (codes "funkyd_hosted_cache_hits_total")
      (codes "The total number of locally hosted hits") []
options recursive_query_counter =
    plain counter (codes "funkyd_recursive_queries_total")
      (codes "The total number of recursive queries run by this server") []
options upstream_errors_counter =
    plain counter (codes "funkyd_upstream_errors_total")
      (codes
        "The total number of times an upstream upstream had errors. This INCLUDES connection closure")
      (codes "destination" ∷ [])
options local_servfails_counter =
    plain counter (codes "funkyd_servfails_total")
      (codes "The total number of times the local server had to throw SERVFAIL") []
options nxdomain_counter =
    plain counter (codes "funkyd_nxdomains_total") (codes "total nxdomains") []
options query_timer = timed (codes "funkyd_query_time") (codes "query timer") []
options exchange_timer =
    timed (codes "funkyd_upstream_exchange_time") (codes "how long the upstreams took to respond")
      (codes "destination" ∷ [])
options tls_timer =
    timed (codes "funkyd_tls_connection_time") (codes "times the pure connection time of tls")
      (codes "destination" ∷ [])
options new_connection_attempts_counter =
    plain counter (codes "funkyd_new_connection_attempts_total")
      (codes "amount of total new connections attempted") (codes "destination" ∷ [])
options reused_connections_counter =
    plain counter (codes "funkyd_reused_connections_total")
      (codes "times that a connection from the server connection pool was reused")
      (codes "destination" ∷ [])

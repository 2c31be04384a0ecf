-- ===== src/Pipeline/Loans.antt =====
-- The pipeline uses the pool as its users may.
use mathlib.Core.List.{Perm}
use mathlib.Core.List.Perm
use funkyd.Base.{ℕ, List, [], ◌++◌}
use funkyd.Base.Int.{ℤ}
use funkyd.Base.Floats.{Floats}
use funkyd.Config.{Configuration}
use funkyd.Upstream.{Upstream}
use funkyd.ConnEntry.{ConnEntry}
use funkyd.ConnPool.{ConnPool, SortSlice}
use funkyd.ConnPool.Lifecycle
use funkyd.Server.{DnsLib}
use funkyd.Pipeline.{new_pipeline}
use funkyd.Pipeline.Workers.{cache_step}
use funkyd.Pipeline.System.{
  System, Step, arrives, caches, connects, adds, closes, queries, purges, finishes, cancels_cacher,
  cancels_connector, cancels_querier, Reach, here, next,
}
use funkyd.Pipeline.Clients.{pending}
use funkyd.Pipeline.Lending.{Lends}
use funkyd.Pipeline.Carried.{carried}
use funkyd.Pipeline.Passing.{left_behind}

module _ {F : Type 0} (fl : Floats F) (sort_slice : SortSlice (Upstream F)) (config : Configuration)
    (u : ℤ → ℕ) (dns : DnsLib) where
  -- The connections that a step leaves behind: those of the queries that the cacher or the querier
  -- is about to hand to the connector.
  abbrev abandons : {s t : System F} → Step fl sort_slice config u dns s t → List ℕ
  abandons (arrives request writer e) = []
  abandons (caches now q r idle on g e) =
      left_behind (cache_step u dns new_pipeline.cacher now r.heap r.cache q).2
  abandons (connects now network q r p sends idle on g e f) = []
  abandons (adds now q r p idle on g e f) = []
  abandons (closes now q r p idle on g e f) = []
  abandons (queries exchange q r sends idle on g e f) = left_behind sends
  abandons (finishes q r write sends idle g e f) = []
  abandons (purges now xs ce ys e f) = []
  abandons (cancels_cacher idle on e) = []
  abandons (cancels_connector idle on e) = []
  abandons (cancels_querier idle on e) = []

  -- The connections that are left behind on the way, the last ones first.
  abbrev pub abandoned : {s t : System F} → Reach fl sort_slice config u dns s t → List ℕ
  abandoned here = []
  abandoned (next r m) = abandons m ++ abandoned r

module _ {F : Type 0} (fl : Floats F) (sort_slice : SortSlice (Upstream F)) (config : Configuration)
    (us : List (Upstream F)) where
  -- The connections that are on their way are lent.
  Borrows : List ℕ → System F → Type 0
  Borrows gone s = Lends fl sort_slice config us gone s.pool (carried (pending s))

-- ===== src/Metrics/Samples.antt =====
-- connpool.go: what the pool's operations tell the metrics, each with its lock held. A duration
-- that a timer observes is a parameter.
use funkyd.Base.{ℕ, Bool, true, false, none, some, List, [], ◌∷◌, ◌++◌, length, if◌then◌else◌}
use funkyd.Base.Text.{Text, codes}
use funkyd.Base.Time.{Time, Duration}
use funkyd.Base.Map.{insert}
use funkyd.Base.Floats.{Floats}
use funkyd.Config.{Configuration, cooldown_duration}
use funkyd.Upstream.{Upstream, get_address, set_weight, cooldown, is_cooling}
use funkyd.ConnEntry.{ConnEntry, Dialled, address_of, get_weight}
use funkyd.ConnPool.{
  ConnPool, SortSlice, cached, purge_upstream, get_upstream_by_address, get_best_upstream, add,
}
use funkyd.ConnPool.Lifecycle.{
  World, Move, takes, dials, exchanges, fails, returns, closes, purges, Reach, here, next,
}
use funkyd.Metrics.{
  Kind, gauge, counter, summary, Metric, conn_pool_size_gauge, upstream_weight_gauge,
  failed_connections_counter, new_connection_attempts_counter, tls_timer,
}

-- The value of a gauge is float64 of a count, or a weight.
pub data Change (F : Type 0) : Type 0 where
  sets_count : ℕ → Change F
  sets_weight : F → Change F
  increments : Change F
  observes : Duration → Change F

-- One call on a metric, with its label values.
pub record Sample (F : Type 0) : Type 0 where
  pub metric : Metric
  pub labels : List Text
  pub change : Change F

module _ {F : Type 0} where
  -- ConnPoolSizeGauge.WithLabelValues(address).Set(float64(len(c.cache[address])))
  unfoldable pub sized : Text → ConnPool F → Sample F
  sized a p = record {
    metric = conn_pool_size_gauge;
    labels = a ∷ [];
    change = sets_count (length (cached a p));
  }

  unfoldable pub purge_samples : Text → ConnPool F → List (Sample F)
  purge_samples a p = sized a (purge_upstream a p) ∷ []

  -- A counter of an address goes up.
  abbrev pub counted : Metric → Text → Sample F
  counted m a = record { metric = m; labels = a ∷ []; change = increments }

  unfoldable pub new_connection_samples :
      Upstream F → (Text → Dialled) → ConnPool F → List (Sample F)
  unfolding purge_samples
  new_connection_samples u dial p =
      let a = get_address u in
      let attempted : List (Sample F) =
        counted new_connection_attempts_counter a
        ∷ record { metric = tls_timer; labels = a ∷ []; change = observes (dial a).duration }
        ∷ [] in
      elim (dial a).conn [
        | some c ↦ attempted
        | none ↦ elim (get_upstream_by_address a p.upstreams) [
          | none ↦ attempted
          | some v ↦ attempted ++ (purge_samples a p ++ counted failed_connections_counter a ∷ [])
        ]
      ]

module _ {F : Type 0} (fl : Floats F) (sort_slice : SortSlice (Upstream F))
    (config : Configuration) where
  unfoldable pub get_samples : (ℕ → Time) → ConnPool F → List (Sample F)
  unfolding sized
  get_samples now p = elim (get_best_upstream fl now p) [
    | none ↦ []
    | some u ↦ elim (cached (get_address u) p) [
      | [] ↦ []
      | ce ∷ rest ↦
          sized (get_address u) (record p { cache = insert (get_address u) rest p.cache }) ∷ []
    ]
  ]

  -- The clock is read twice more, for the labels; `wakeup` prints the time of the second.
  module _ (first second : Time) (wakeup : Upstream F → Time → Text) (now : Time) where
    -- The labels and the value that updateUpstream gives to UpstreamWeightGauge.
    unfoldable pub weighed : ConnEntry F → Upstream F → Sample F
    weighed ce u =
        let w = if fl.eqb (get_weight fl ce) fl.zero then u else set_weight (get_weight fl ce) u in
        let v = if ce.error then cooldown now (cooldown_duration config) w else w in
        record {
          metric = upstream_weight_gauge;
          labels =
              get_address v
              ∷ ((if is_cooling first w then codes "cooling" else codes "no")
                  ++ (if ce.error then codes ", connection" else []))
              ∷ (if is_cooling second v then wakeup v second else codes "0")
              ∷ [];
          change = sets_weight v.weight;
        }

    unfoldable pub update_samples : ConnEntry F → ConnPool F → List (Sample F)
    unfolding purge_samples weighed
    update_samples ce p = elim (get_upstream_by_address (address_of ce) p.upstreams) [
      | none ↦ []
      | some u ↦ (if ce.error then purge_samples (address_of ce) p else []) ++ weighed ce u ∷ []
    ]

    unfoldable pub add_samples : ConnEntry F → ConnPool F → List (Sample F)
    unfolding update_samples sized
    add_samples ce p =
        update_samples ce p ++ sized (address_of ce) (add fl sort_slice config now ce p).0 ∷ []

  module _ (first second : Time → Time) (wakeup : Upstream F → Time → Text) where
    -- What a move tells the metrics.
    unfoldable pub move_samples : {w v : World F} → Move fl sort_slice config w v → List (Sample F)
    move_samples {w} (takes now g e k) = get_samples now w.pool
    move_samples {w} (dials now u dial k) = new_connection_samples u dial w.pool
    move_samples {w} (exchanges xs ce ys rtt e k) = []
    move_samples {w} (fails xs ce ys e k) = []
    move_samples {w} (returns now xs ce ys e k) =
        add_samples (first now) (second now) wakeup now ce w.pool
    move_samples {w} (closes now xs ce ys e k) =
        update_samples (first now) (second now) wakeup now ce w.pool
    move_samples {w} (purges now xs ce ys e k) =
        update_samples (first now) (second now) wakeup now ce (record w.pool { closing = xs ++ ys })

    unfoldable pub samples : {w v : World F} → Reach fl sort_slice config w v → List (Sample F)
    samples here = []
    samples (next r m) = samples r ++ move_samples m

-- A change that the kind of the metric allows.
abbrev pub allows : {F : Type 0} → Kind → Change F → Bool
allows gauge (sets_count n) = true
allows gauge (sets_weight w) = true
allows gauge increments = true
allows gauge (observes d) = false
allows counter (sets_count n) = false
allows counter (sets_weight w) = false
allows counter increments = true
allows counter (observes d) = false
allows summary (sets_count n) = false
allows summary (sets_weight w) = false
allows summary increments = false
allows summary (observes d) = true

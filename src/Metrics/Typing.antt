-- ===== src/Metrics/Typing.antt =====
-- Whether the calls on the metrics fit their declarations.
use funkyd.Base.{
  ℕ, ◌≡◌, refl, true, [], ◌∷◌, All, All-append, length, if◌then◌else◌, Option-cases, List-cases,
  inl, inr, if_ind, length,
}
use funkyd.Base.Text.{Text}
use funkyd.Base.Time.{Time}
use funkyd.Base.Map.{insert}
use funkyd.Base.Floats.{Floats}
use funkyd.Config.{Configuration}
use funkyd.Upstream.{Upstream, get_address}
use funkyd.ConnEntry.{ConnEntry, Dialled, address_of}
use funkyd.ConnPool.{
  ConnPool, SortSlice, cached, purge_upstream, get_upstream_by_address, get_best_upstream, add,
}
use funkyd.ConnPool.Lifecycle.{
  World, Move, takes, dials, exchanges, fails, returns, closes, purges, Reach, here, next,
}
use funkyd.Metrics.{options, new_connection_attempts_counter, tls_timer, failed_connections_counter}
use funkyd.Metrics.Samples.{
  Sample, observes, counted, sized, purge_samples, new_connection_samples, get_samples,
  update_samples, weighed, add_samples, move_samples, samples, allows,
}

-- As many label values as the metric has labels, and a change that its kind allows. Without the
-- first the library panics.
pub record IsTyped {F : Type 0} (s : Sample F) : Type 0 where
  pub labels : length s.labels ≡ length (options s.metric).labels
  pub change : allows (options s.metric).kind s.change ≡ true

module _ {F : Type 0} where
  sized-IsTyped : (a : Text) (p : ConnPool F) → IsTyped (sized a p)
  unfolding sized options
  sized-IsTyped a p = record { labels = refl; change = refl }

  new_connection_samples-IsTyped :
      (u : Upstream F) (dial : Text → Dialled) (p : ConnPool F)
      → All IsTyped (new_connection_samples u dial p)
  unfolding new_connection_samples purge_samples options
  new_connection_samples-IsTyped u dial p =
      let a = get_address u in
      let attempt : IsTyped {F = F} (counted new_connection_attempts_counter a) = record {
        labels = refl;
        change = refl;
      } in
      let timed : IsTyped {F = F}
          (record { metric = tls_timer; labels = a ∷ []; change = observes (dial a).duration }) =
        record { labels = refl; change = refl } in
      elim (Option-cases (dial a).conn) [
        | inr (c, reached) ↦ rw (reached, new_connection_samples) (attempt, (timed, tt))
        | inl failed ↦ elim (Option-cases (get_upstream_by_address a p.upstreams)) [
          | inl unknown ↦ rw (failed, unknown, new_connection_samples) (attempt, (timed, tt))
          | inr (v, known) ↦
              let purged = sized-IsTyped a (purge_upstream a p) in
              let failure : IsTyped {F = F} (counted failed_connections_counter a) = record {
                labels = refl;
                change = refl;
              } in
              rw (failed, known, new_connection_samples) (attempt, (timed, (purged, (failure, tt))))
        ]
      ]

module _ {F : Type 0} (fl : Floats F) (sort_slice : SortSlice (Upstream F))
    (config : Configuration) where
  get_samples-IsTyped :
      (now : ℕ → Time) (p : ConnPool F) → All IsTyped (get_samples fl sort_slice config now p)
  unfolding get_samples
  get_samples-IsTyped now p = elim (Option-cases (get_best_upstream fl now p)) [
    | inl empty ↦ rw (empty, get_samples) tt
    | inr (u, best) ↦ elim (List-cases (cached (get_address u) p)) [
      | inl miss ↦ rw (best, miss, get_samples) tt
      | inr (ce, rest, hit) ↦
          rw (best, hit, get_samples)
            (
              sized-IsTyped (get_address u)
                  (record p { cache = insert (get_address u) rest p.cache }),
              tt,
            )
    ]
  ]

  module _ (first second : Time) (wakeup : Upstream F → Time → Text) (now : Time) where
    update_samples-IsTyped :
        (ce : ConnEntry F) (p : ConnPool F)
        → All IsTyped (update_samples fl sort_slice config first second wakeup now ce p)
    unfolding update_samples purge_samples weighed options
    update_samples-IsTyped ce p =
        elim (Option-cases (get_upstream_by_address (address_of ce) p.upstreams)) [
          | inl unknown ↦ rw (unknown, update_samples) tt
          | inr (u, known) ↦
              rw (known, update_samples)
                (All-append IsTyped (if ce.error then purge_samples (address_of ce) p else [])
                  (weighed fl sort_slice config first second wakeup now ce u ∷ [])
                  (if_ind (All IsTyped) ce.error
                    (sized-IsTyped (address_of ce) (purge_upstream (address_of ce) p), tt) tt)
                  (record { labels = refl; change = refl }, tt))
        ]

    add_samples-IsTyped :
        (ce : ConnEntry F) (p : ConnPool F)
        → All IsTyped (add_samples fl sort_slice config first second wakeup now ce p)
    unfolding add_samples
    add_samples-IsTyped ce p =
        All-append IsTyped (update_samples fl sort_slice config first second wakeup now ce p)
          (sized (address_of ce) (add fl sort_slice config now ce p).0 ∷ [])
          (update_samples-IsTyped ce p)
          (sized-IsTyped (address_of ce) (add fl sort_slice config now ce p).0, tt)

  module _ (first second : Time → Time) (wakeup : Upstream F → Time → Text) where
    move_samples-IsTyped :
        (w v : World F) (m : Move fl sort_slice config w v)
        → All IsTyped (move_samples fl sort_slice config first second wakeup m)
    unfolding move_samples
    move_samples-IsTyped w v (takes now g e k) = get_samples-IsTyped now w.pool
    move_samples-IsTyped w v (dials now u dial k) = new_connection_samples-IsTyped u dial w.pool
    move_samples-IsTyped w v (exchanges xs ce ys rtt e k) = tt
    move_samples-IsTyped w v (fails xs ce ys e k) = tt
    move_samples-IsTyped w v (returns now xs ce ys e k) =
        add_samples-IsTyped (first now) (second now) wakeup now ce w.pool
    move_samples-IsTyped w v (closes now xs ce ys e k) =
        update_samples-IsTyped (first now) (second now) wakeup now ce w.pool
    move_samples-IsTyped w v (purges now xs ce ys e k) =
        update_samples-IsTyped (first now) (second now) wakeup now ce _

    -- Each call that the pool's operations make on a metric, in any sequence of moves, gives as
    -- many label values as the metric has labels, without which the library panics, and makes a
    -- change that is possible for a metric of that kind.
    pub samples-IsTyped :
        (w v : World F) (r : Reach fl sort_slice config w v)
        → All IsTyped (samples fl sort_slice config first second wakeup r)
    unfolding samples
    samples-IsTyped w v here = tt
    samples-IsTyped w v (next {v = x} r m) =
        All-append IsTyped (samples fl sort_slice config first second wakeup r)
          (move_samples fl sort_slice config first second wakeup m) (samples-IsTyped w x r)
          (move_samples-IsTyped x v m)

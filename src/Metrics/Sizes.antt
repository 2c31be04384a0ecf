-- ===== src/Metrics/Sizes.antt =====
-- What the gauge of the pool's size says.
use mathlib.Core.Option.{some-injective}
use funkyd.Base.{
  ℕ, ◌≡◌, refl, sym, ap, ◌∙◌, inl, inr, Bool, false, ◌&&◌, some, List, [], ◌∷◌, ◌++◌, ◌+◌, arith,
  length, if◌then◌else◌, Bool-cases, Option-cases, List-cases,
}
use funkyd.Base.Text.{Text, text_eq, text_eq_iff}
use funkyd.Base.Time.{Time}
use funkyd.Base.Map.{insert, lookup, lookup-insert}
use funkyd.Base.Floats.{Floats}
use funkyd.Config.{Configuration}
use funkyd.Upstream.{Upstream, get_address}
use funkyd.ConnEntry.{ConnEntry, Dialled, address_of}
use funkyd.ConnPool.{
  ConnPool, SortSlice, cached, purge_upstream, cool_and_purge_upstream, get_upstream_by_address,
  get_best_upstream, get, add, Got, update_upstream, weight_upstream, sort_upstreams,
  close_connection, new_connection,
}
use funkyd.ConnPool.Lifecycle.{
  World, start, Move, takes, dials, exchanges, fails, returns, closes, purges, Reach, here, next,
}
use funkyd.Metrics.{options, conn_pool_size_gauge, failed_connections_counter}
use funkyd.Metrics.Samples.{
  Change, sets_count, sets_weight, increments, observes, Sample, sized, counted, purge_samples,
  new_connection_samples, get_samples, update_samples, weighed, add_samples, move_samples, samples,
}

-- The one label of a sample is the address.
abbrev pub labelled : Text → List Text → Bool
labelled a [] = false
labelled a (b ∷ []) = text_eq b a
labelled a (b ∷ c ∷ ls) = false

module _ {F : Type 0} where
  abbrev changed : Change F → ℕ → ℕ
  changed (sets_count m) n = m
  changed (sets_weight w) n = n
  changed increments n = n + 1
  changed (observes d) n = n

  -- ConnPoolSizeGauge for an address, after samples of all metrics: it was n.
  unfoldable pub size_gauge : Text → List (Sample F) → ℕ → ℕ
  size_gauge a [] n = n
  size_gauge a (s ∷ ss) n = size_gauge a ss (
      if text_eq (options s.metric).name (options conn_pool_size_gauge).name && labelled a s.labels
      then changed s.change n
      else n)

  size_gauge-append :
      (a : Text) (xs ys : List (Sample F)) (n : ℕ)
      → size_gauge a (xs ++ ys) n ≡ size_gauge a ys (size_gauge a xs n)
  unfolding size_gauge
  size_gauge-append a [] ys n = refl
  size_gauge-append a (x ∷ xs) ys n = size_gauge-append a xs ys _

  -- What a sample does to the gauge, where it is one of the gauge for an address.
  size_gauge-sized :
      (a b : Text) (p q : ConnPool F)
      → (text_eq b a ≡ false → cached a q ≡ cached a p)
      → size_gauge a (sized b q ∷ []) (length (cached a p)) ≡ length (cached a q)
  unfolding size_gauge sized text_eq options
  size_gauge-sized a b p q others = elim (Bool-cases (text_eq b a)) [
    | inl same ↦ let equal : b ≡ a = (text_eq_iff b a).0 same in rw (same, equal) refl
    | inr other ↦ rw (other, others other) refl
  ]

  cached-insert :
      (a b : Text) (v : List (ConnEntry F)) (p : ConnPool F)
      → text_eq b a ≡ false
      → cached a (record p { cache = insert b v p.cache }) ≡ cached a p
  cached-insert a b v p other = ground (arith, lookup-insert b a v p.cache)

  cached-purge_upstream :
      (a b : Text) (p : ConnPool F)
      → text_eq b a ≡ false
      → cached a (purge_upstream b p) ≡ cached a p
  unfolding purge_upstream
  cached-purge_upstream a b p other = elim (Option-cases (lookup b p.cache)) [
    | inl absent ↦ rw (absent, purge_upstream) refl
    | inr (conns, present) ↦ rw (present, purge_upstream) (cached-insert a b [] p other)
  ]

  size_gauge-purge_samples :
      (a b : Text) (p : ConnPool F)
      → size_gauge a (purge_samples b p) (length (cached a p))
        ≡ length (cached a (purge_upstream b p))
  unfolding purge_samples
  size_gauge-purge_samples a b p =
      size_gauge-sized a b p (purge_upstream b p) (cached-purge_upstream a b p)

  cached-cool_and_purge_upstream :
      (config : Configuration) (now : Time) (a b : Text) (p : ConnPool F)
      → cached a (cool_and_purge_upstream config now b p) ≡ cached a (purge_upstream b p)
  unfolding cool_and_purge_upstream purge_upstream
  cached-cool_and_purge_upstream config now a b p = ground arith

  size_gauge-new_connection :
      (config : Configuration) (now : Time) (a : Text) (u : Upstream F) (dial : Text → Dialled)
      (p : ConnPool F)
      → size_gauge a (new_connection_samples u dial p) (length (cached a p))
        ≡ length (cached a (new_connection config now u dial p).0)
  unfolding new_connection_samples new_connection size_gauge options text_eq
  size_gauge-new_connection config now a u dial p =
      let b = get_address u in
      elim (Option-cases (dial b).conn) [
        | inr (c, reached) ↦ rw (reached, new_connection_samples, new_connection) refl
        | inl failed ↦ elim (Option-cases (get_upstream_by_address b p.upstreams)) [
          | inl unknown ↦ rw (failed, unknown, new_connection_samples, new_connection) refl
          | inr (v, known) ↦
              rw (failed, known, new_connection_samples, new_connection)
                (size_gauge-append a (purge_samples b p) (counted failed_connections_counter b ∷ [])
                    (length (cached a p))
                  ∙ size_gauge-purge_samples a b p
                  ∙ ap length (sym (cached-cool_and_purge_upstream config now a b p)))
        ]
      ]

module _ {F : Type 0} (fl : Floats F) (sort_slice : SortSlice (Upstream F))
    (config : Configuration) where
  size_gauge-get :
      (a : Text) (now : ℕ → Time) (p : ConnPool F) (g : Got fl)
      → get fl now p ≡ some g
      → size_gauge a (get_samples fl sort_slice config now p) (length (cached a p))
        ≡ length (cached a g.pool)
  unfolding get_samples get size_gauge
  size_gauge-get a now p g e = elim (Option-cases (get_best_upstream fl now p)) [
    | inl empty ↦ cc (rw (empty, get) at e)
    | inr (u, best) ↦
        let b = get_address u in
        elim (List-cases (cached b p)) [
          | inl miss ↦
              let same =
                ap (λ (g : Got fl). g.pool) (some-injective _ _ (rw (best, miss, get) at e)) in
              rw (best, miss, get_samples, ← same) refl
          | inr (ce, rest, hit) ↦
              let q : ConnPool F = record p { cache = insert b rest p.cache } in
              let same : q ≡ g.pool =
                ap (λ (g : Got fl). g.pool) (some-injective _ _ (rw (best, hit, get) at e)) in
              rw (best, hit, get_samples, ← same)
                (size_gauge-sized a b p q (cached-insert a b rest p))
        ]
  ]

  module _ (first second : Time) (wakeup : Upstream F → Time → Text) (now : Time) where
    cached-update_upstream :
        (a : Text) (ce : ConnEntry F) (p : ConnPool F) (u : Upstream F)
        → get_upstream_by_address (address_of ce) p.upstreams ≡ some u
        → cached a (update_upstream fl sort_slice config now ce p).0
          ≡ cached a (if ce.error then purge_upstream (address_of ce) p else p)
    unfolding update_upstream weight_upstream sort_upstreams cool_and_purge_upstream purge_upstream
    cached-update_upstream a ce p u known = ground arith

    size_gauge-weighed :
        (a : Text) (ce : ConnEntry F) (u : Upstream F) (n : ℕ)
        → size_gauge a (weighed fl sort_slice config first second wakeup now ce u ∷ []) n ≡ n
    unfolding size_gauge weighed options text_eq
    size_gauge-weighed a ce u n = refl

    size_gauge-update_upstream :
        (a : Text) (ce : ConnEntry F) (p : ConnPool F)
        → size_gauge a
            (update_samples fl sort_slice config first second wakeup now ce p)
            (length (cached a p))
          ≡ length (cached a (update_upstream fl sort_slice config now ce p).0)
    unfolding update_samples size_gauge update_upstream address_of
    size_gauge-update_upstream a ce p =
        elim (Option-cases (get_upstream_by_address (address_of ce) p.upstreams)) [
          | inl unknown ↦ rw (unknown, update_samples, update_upstream) refl
          | inr (u, known) ↦
              let b = address_of ce in
              let purged = if ce.error then purge_samples b p else [] in
              rw (cached-update_upstream a ce p u known, known, update_samples)
                (size_gauge-append a purged
                    (weighed fl sort_slice config first second wakeup now ce u ∷ [])
                    (length (cached a p))
                  ∙ size_gauge-weighed a ce u (size_gauge a purged (length (cached a p)))
                  ∙ elim (Bool-cases ce.error) [
                    | inl erred ↦ rw erred (size_gauge-purge_samples a b p)
                    | inr fine ↦ rw fine refl
                  ])
        ]

    size_gauge-add :
        (a : Text) (ce : ConnEntry F) (p : ConnPool F)
        → size_gauge a
            (add_samples fl sort_slice config first second wakeup now ce p)
            (length (cached a p))
          ≡ length (cached a (add fl sort_slice config now ce p).0)
    unfolding add_samples add
    size_gauge-add a ce p =
        let b = address_of ce in
        let q = (update_upstream fl sort_slice config now ce p).0 in
        let after = (add fl sort_slice config now ce p).0 in
        size_gauge-append a (update_samples fl sort_slice config first second wakeup now ce p)
          (sized b after ∷ []) (length (cached a p))
        ∙ ap (size_gauge a (sized b after ∷ [])) (size_gauge-update_upstream a ce p)
        ∙ size_gauge-sized a b q after (cached-insert a b (cached b q ++ ce ∷ []) q)

  module _ (first second : Time → Time) (wakeup : Upstream F → Time → Text) where
    size_gauge-move_samples :
        (a : Text) (w v : World F) (m : Move fl sort_slice config w v)
        → size_gauge a
            (move_samples fl sort_slice config first second wakeup m)
            (length (cached a w.pool))
          ≡ length (cached a v.pool)
    unfolding move_samples close_connection size_gauge
    size_gauge-move_samples a w v (takes now g e k) = rw k (size_gauge-get a now w.pool g e)
    size_gauge-move_samples a w v (dials now u dial k) =
        rw k (size_gauge-new_connection config now a u dial w.pool)
    size_gauge-move_samples a w v (exchanges xs ce ys rtt e k) = rw k refl
    size_gauge-move_samples a w v (fails xs ce ys e k) = rw k refl
    size_gauge-move_samples a w v (returns now xs ce ys e k) =
        rw k (size_gauge-add (first now) (second now) wakeup now a ce w.pool)
    size_gauge-move_samples a w v (closes now xs ce ys e k) =
        rw k (size_gauge-update_upstream (first now) (second now) wakeup now a ce w.pool)
    size_gauge-move_samples a w v (purges now xs ce ys e k) =
        rw k (size_gauge-update_upstream (first now) (second now) wakeup now a ce _)

    -- In each state of the pool that is reached from a list of upstreams, by any interleaving of
    -- its users and of the goroutines of purgeUpstream: what the pool's operations have written to
    -- ConnPoolSizeGauge for an address is the number of connections that are cached for it, and a
    -- gauge that was never written stands for none.
    pub Reach-size_gauge :
        (us : List (Upstream F)) (w : World F) (r : Reach fl sort_slice config (start us) w)
        (a : Text)
        → size_gauge a (samples fl sort_slice config first second wakeup r) 0
          ≡ length (cached a w.pool)
    unfolding samples size_gauge lookup
    Reach-size_gauge us w here a = refl
    Reach-size_gauge us w (next {v = v} r m) a =
        size_gauge-append a (samples fl sort_slice config first second wakeup r)
          (move_samples fl sort_slice config first second wakeup m) 0
        ∙ ap (size_gauge a (move_samples fl sort_slice config first second wakeup m))
            (Reach-size_gauge us v r a)
        ∙ size_gauge-move_samples a v w m

-- ===== src/ConnPool.antt =====
-- connpool.go: the pool of connections to the upstreams. The lock makes each operation one step.
-- The list of upstreams holds its records: the program's pointers into it are never shared with
-- another pool.
pub mod Ownership
pub mod Lifecycle
pub mod Selection
pub mod Sorting
pub mod Cooling
pub mod Accounting
pub mod Soundness
pub mod Choice
pub mod Loans
use funkyd.Base.{
  ℕ, ◌+◌, Bool, true, false, not, Option, none, some, List, [], ◌∷◌, ◌++◌, if◌then◌else◌, length,
  or_nil,
}
use funkyd.Base.Text.{Text, text_eq}
use funkyd.Base.Time.{Time}
use funkyd.Base.Map.{Map, lookup, insert, is_some}
use funkyd.Config.{Configuration, cooldown_duration}
use funkyd.ConnEntry.{
  ConnEntry, Dialled, address_of, add_exchange, get_weight, no_conn_entry, new_entry,
}
use funkyd.Upstream.{
  Upstream, get_address, set_weight, cooldown, is_cooling, no_upstream, is_no_upstream,
}
use funkyd.Base.Floats.{Floats}

-- `closing` holds the entries of the goroutines that purgeUpstream has started, each to call
-- CloseConnection; `closed` the entries that have been closed, the last one first.
pub record ConnPool (F : Type 0) : Type 0 where
  pub upstreams : List (Upstream F)
  pub cache : Map (List (ConnEntry F))
  pub closing : List (ConnEntry F)
  pub closed : List (ConnEntry F)

module _ {F : Type 0} where
  unfoldable pub new_conn_pool : ConnPool F
  new_conn_pool = record { upstreams = []; cache = []; closing = []; closed = [] }

  unfoldable pub add_upstream : Upstream F → ConnPool F → ConnPool F
  add_upstream u p = record p { upstreams = p.upstreams ++ u ∷ [] }

  -- getUpstreamByAddress: the first upstream with the address
  unfoldable pub get_upstream_by_address : Text → List (Upstream F) → Option (Upstream F)
  get_upstream_by_address a [] = none
  get_upstream_by_address a (u ∷ us) =
      if text_eq (get_address u) a then some u else get_upstream_by_address a us

  -- A write through the pointer that getUpstreamByAddress returns.
  unfoldable pub modify_upstream :
      Text → (Upstream F → Upstream F) → List (Upstream F) → List (Upstream F)
  modify_upstream a f [] = []
  modify_upstream a f (u ∷ us) =
      if text_eq (get_address u) a then f u ∷ us else u ∷ modify_upstream a f us

  abbrev pub cached : Text → ConnPool F → List (ConnEntry F)
  cached a p = or_nil (lookup a p.cache)

  unfoldable pub purge_upstream : Text → ConnPool F → ConnPool F
  purge_upstream a p = elim (lookup a p.cache) [
    | none ↦ p
    | some conns ↦ record p { closing = conns ++ p.closing; cache = insert a [] p.cache }
  ]

  unfoldable pub cool_and_purge_upstream : Configuration → Time → Text → ConnPool F → ConnPool F
  cool_and_purge_upstream config now a p = purge_upstream a (record p {
    upstreams = modify_upstream a (cooldown now (cooldown_duration config)) p.upstreams;
  })

  unfoldable pub total : Map (List (ConnEntry F)) → ℕ
  total [] = 0
  total ((_, conns) ∷ m) = length conns + total m

  unfoldable pub size : ConnPool F → ℕ
  size p = total p.cache

-- The result of getBestUpstream's loop: a return from inside it, or the candidate it ends with.
pub data Pick (F : Type 0) : Type 0 where
  early : Upstream F → Pick F
  candidate : Upstream F → Pick F

-- What sort.Slice does: given the comparison of two elements, it returns the list sorted.
abbrev pub SortSlice : Type 0 → Type 0
SortSlice A = (A → A → Bool) → List A → List A

module _ {F : Type 0} (fl : Floats F) where
  unfoldable pub weight_upstream : Text → ConnEntry F → ConnPool F → ConnPool F
  weight_upstream a ce p = record p {
    upstreams = modify_upstream a (set_weight (get_weight fl ce)) p.upstreams;
  }

  abbrev pub lighter : Upstream F → Upstream F → Bool
  lighter u v = fl.ltb u.weight v.weight

  -- The loop of getBestUpstream; `now i` is the clock's reading in the i-th round.
  unfoldable pub best_loop :
      (ℕ → Time) → ℕ → Map (List (ConnEntry F)) → Upstream F → List (Upstream F) → Pick F
  best_loop now i cache best [] = candidate best
  best_loop now i cache best (u ∷ us) =
      let skip = best_loop now (i + 1) cache best us in
      let keep = best_loop now (i + 1) cache (if is_no_upstream fl best then u else best) us in
      elim (lookup (get_address u) cache) [
        | none ↦ skip
        | some conns ↦
            if is_cooling (now i) u then skip else elim conns [ [] ↦ keep | c ∷ cs ↦ early u ]
      ]

  -- `none` is the panic of `c.upstreams[0]` on an empty list.
  unfoldable pub get_best_upstream : (ℕ → Time) → ConnPool F → Option (Upstream F)
  get_best_upstream now p = elim (best_loop now 0 p.cache (no_upstream fl) p.upstreams) [
    | early u ↦ some u
    | candidate best ↦
        if not (is_no_upstream fl best)
        then some best
        else elim p.upstreams [ [] ↦ none | u ∷ us ↦ some u ]
  ]

  -- The two results of Get, and the pool.
  pub record Got : Type 0 where
    pub pool : ConnPool F
    pub ce : ConnEntry F
    pub upstream : Upstream F

  unfoldable pub get : (ℕ → Time) → ConnPool F → Option Got
  get now p = elim (get_best_upstream now p) [
    | none ↦ none
    | some u ↦ elim (cached (get_address u) p) [
      | [] ↦ some (record { pool = p; ce = no_conn_entry fl; upstream = u })
      | ce ∷ rest ↦ some (record {
        pool = record p { cache = insert (get_address u) rest p.cache };
        ce = ce;
        upstream = no_upstream fl;
      })
    ]
  ]

  module _ (sort_slice : SortSlice (Upstream F)) (config : Configuration) (now : Time) where
    unfoldable pub sort_upstreams : ConnPool F → ConnPool F
    sort_upstreams p = record p { upstreams = sort_slice lighter p.upstreams }

    -- The pool, and whether the upstream was found; without it nothing changes.
    unfoldable pub update_upstream : ConnEntry F → ConnPool F → ConnPool F × Bool
    unfolding weight_upstream sort_upstreams
    update_upstream ce p =
        let a = address_of ce in
        let weighed = if fl.eqb (get_weight fl ce) fl.zero then p else weight_upstream a ce p in
        let cooled = if ce.error then cool_and_purge_upstream config now a weighed else weighed in
        if is_some (get_upstream_by_address a p.upstreams)
        then (sort_upstreams cooled, true)
        else (p, false)

    -- The flag says that there was no error.
    unfoldable pub add : ConnEntry F → ConnPool F → ConnPool F × Bool
    add ce p =
        let (q, found) = update_upstream ce p in
        let a = address_of ce in
        (record q { cache = insert a (cached a q ++ ce ∷ []) q.cache }, found)

    unfoldable pub close_connection : ConnEntry F → ConnPool F → ConnPool F
    close_connection ce p = let q = (update_upstream ce p).0 in record q { closed = ce ∷ q.closed }

module _ {F : Type 0} where
  unfoldable pub new_connection :
      Configuration
      → Time
      → Upstream F
      → (Text → Dialled)
      → ConnPool F
      → ConnPool F × Option (ConnEntry F)
  new_connection config now u dial p =
      let a = get_address u in
      elim (dial a).conn [
        | none ↦
            if is_some (get_upstream_by_address a p.upstreams)
            then (cool_and_purge_upstream config now a p, none)
            else (p, none)
        | some c ↦ (p, some (add_exchange config (dial a).duration (new_entry c u)))
      ]

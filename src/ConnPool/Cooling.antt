-- ===== src/ConnPool/Cooling.antt =====
-- Errors: what becomes of an upstream and its connections.
use funkyd.Base.{
  ℕ, ◌+◌, ◌≡◌, refl, Bool, true, none, some, List, [], ◌∷◌, ◌++◌, arith, if_ind, if_on_true, or_nil,
}
use funkyd.Base.Text.{Text, text_eq_refl}
use funkyd.Base.Time.{Time}
use funkyd.Base.Floats.{Floats}
use funkyd.Base.Map.{is_some, lookup, lookup-insert_self}
use funkyd.Config.{Configuration, cooldown_duration}
use funkyd.Upstream.{Upstream, get_address, set_weight, cooldown, no_upstream}
use funkyd.ConnEntry.{ConnEntry, Dialled, address_of, get_weight, no_conn_entry}
use funkyd.ConnPool.{
  ConnPool, SortSlice, modify_upstream, purge_upstream, cool_and_purge_upstream, weight_upstream,
  update_upstream, sort_upstreams, add, close_connection, new_connection, get,
  get_upstream_by_address, cached, candidate, best_loop, get_best_upstream,
}
use funkyd.ConnPool.Selection.{is_no_upstream-no_upstream}

module _ {F : Type 0} where
  -- A purge empties the upstream's part of the cache, and starts a goroutine for each connection.
  purge_upstream-cached :
      (a : Text) (p : ConnPool F)
      → (cached a (purge_upstream a p) ≡ [])
        × ((purge_upstream a p).closing ≡ cached a p ++ p.closing)
        × ((purge_upstream a p).closed ≡ p.closed)
  unfolding purge_upstream
  purge_upstream-cached a p =
      ground (arith, lookup-insert_self {V = List (ConnEntry F)} a [] p.cache)

module _ {F : Type 0} (fl : Floats F) (sort_slice : SortSlice (Upstream F)) (config : Configuration)
    (now : Time) (ce : ConnEntry F) (p : ConnPool F) where
  update_upstream-error :
      ce.error ≡ true
      → is_some (get_upstream_by_address (address_of ce) p.upstreams) ≡ true
      → let q = (update_upstream fl sort_slice config now ce p).0 in
        (cached (address_of ce) q ≡ [])
        × (q.closing ≡ cached (address_of ce) p ++ p.closing)
        × (q.closed ≡ p.closed)
  unfolding update_upstream sort_upstreams weight_upstream cool_and_purge_upstream
  update_upstream-error e known =
      let a = address_of ce in
      let Purged = λ (q : ConnPool F).
        (cached a q ≡ []) × (q.closing ≡ cached a p ++ p.closing) × (q.closed ≡ p.closed) in
      let cool = λ (w : ConnPool F). cool_and_purge_upstream config now a w in
      if_on_true (λ (r : ConnPool F × Bool). Purged r.0)
        (is_some (get_upstream_by_address a p.upstreams)) _ _ known
        (if_on_true Purged ce.error _ _ e (
          if_ind (λ w. Purged (cool w)) (fl.eqb (get_weight fl ce) fl.zero)
            (purge_upstream-cached a (record p {
              upstreams = modify_upstream a (cooldown now (cooldown_duration config)) p.upstreams;
            }))
            (purge_upstream-cached a (record p {
              upstreams =
                  modify_upstream a (cooldown now (cooldown_duration config))
                    (modify_upstream a (set_weight (get_weight fl ce)) p.upstreams);
            }))))

  -- Closing a connection that has seen an error, to a known upstream, empties that upstream's part
  -- of the cache, gives each connection in it to a goroutine that is to close it, and closes the
  -- connection itself.
  pub close_connection-error :
      ce.error ≡ true
      → is_some (get_upstream_by_address (address_of ce) p.upstreams) ≡ true
      → let q = close_connection fl sort_slice config now ce p in
        (cached (address_of ce) q ≡ [])
        × (q.closing ≡ cached (address_of ce) p ++ p.closing)
        × (q.closed ≡ ce ∷ p.closed)
  unfolding close_connection
  close_connection-error e known =
      let (emptied, given_up, kept) = update_upstream-error e known in (emptied, given_up, rw kept)

  -- Adding a connection that has seen an error, to a known upstream, gives the others that are
  -- cached for that upstream to goroutines that are to close them, and caches this one as its only
  -- connection.
  pub add-error :
      ce.error ≡ true
      → is_some (get_upstream_by_address (address_of ce) p.upstreams) ≡ true
      → let q = (add fl sort_slice config now ce p).0 in
        (cached (address_of ce) q ≡ ce ∷ [])
        × (q.closing ≡ cached (address_of ce) p ++ p.closing)
        × (q.closed ≡ p.closed)
  unfolding add
  add-error e known =
      let (emptied, given_up, kept) = update_upstream-error e known in
      let q = (update_upstream fl sort_slice config now ce p).0 in
      (
        rw
            (
              lookup-insert_self (address_of ce) (cached (address_of ce) q ++ ce ∷ []) q.cache,
              or_nil,
            )
            (rw emptied),
        given_up,
        kept,
      )

best_loop-empty :
    {F : Type 0} (fl : Floats F) (now : ℕ → Time) (i : ℕ) (best : Upstream F)
    (us : List (Upstream F))
    → best_loop fl now i [] best us ≡ candidate best
unfolding best_loop lookup
best_loop-empty fl now i best [] = refl
best_loop-empty fl now i best (u ∷ us) = best_loop-empty fl now (i + 1) best us

-- With an empty cache the choice is the head of the list.
get-empty :
    {F : Type 0} (fl : Floats F) (now : ℕ → Time) (u : Upstream F) (us : List (Upstream F))
    (p : ConnPool F)
    → p.upstreams ≡ u ∷ us
    → p.cache ≡ []
    → get fl now p ≡ some (record { pool = p; ce = no_conn_entry fl; upstream = u })
unfolding get get_best_upstream lookup
get-empty fl now u us p e f =
    ground
      (arith, is_no_upstream-no_upstream fl, best_loop-empty fl now 0 (no_upstream fl) (u ∷ us))

failed_dial :
    {F : Type 0} (config : Configuration) (t : Time) (dial : Text → Dialled) (u : Upstream F)
    (us : List (Upstream F)) (p : ConnPool F)
    → p.upstreams ≡ u ∷ us
    → p.cache ≡ []
    → (dial (get_address u)).conn ≡ none
    → let q = (new_connection config t u dial p).0 in
      (q.upstreams ≡ cooldown t (cooldown_duration config) u ∷ us) × (q.cache ≡ [])
unfolding new_connection cool_and_purge_upstream purge_upstream modify_upstream
    get_upstream_by_address lookup
failed_dial config t dial u us p e f refused = ground (arith, text_eq_refl (get_address u))

-- With an empty cache, if the dial to the first upstream of the list fails, then that upstream is
-- told to cool down, the cache stays empty, and Get, at any time, names this upstream again.
pub get-failed_dial :
    {F : Type 0} (fl : Floats F) (config : Configuration) (t : Time) (now : ℕ → Time)
    (dial : Text → Dialled) (u : Upstream F) (us : List (Upstream F)) (p : ConnPool F)
    → p.upstreams ≡ u ∷ us
    → p.cache ≡ []
    → (dial (get_address u)).conn ≡ none
    → let q = (new_connection config t u dial p).0 in
      (q.upstreams ≡ cooldown t (cooldown_duration config) u ∷ us)
      × (q.cache ≡ [])
      × (get fl now q
          ≡ some (record {
            pool = q;
            ce = no_conn_entry fl;
            upstream = cooldown t (cooldown_duration config) u;
          }))
get-failed_dial fl config t now dial u us p e f refused =
    let (cooled, empty) = failed_dial config t dial u us p e f refused in
    (cooled, empty, get-empty fl now _ us _ cooled empty)

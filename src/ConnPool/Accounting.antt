-- ===== src/ConnPool/Accounting.antt =====
-- No connection is lost, and none is in two places: closed twice, or closed while it is in use.
use mathlib.Core.List.{
  Perm, Nodup, filter_map, filter_map-cons-none, filter_map-cons-some, perm_middle,
}
use mathlib.Core.List.Perm
use funkyd.Base.{
  ℕ, ◌≡◌, refl, ap, ◌∙◌, inl, inr, Option, none, some, List, [], ◌∷◌, ◌++◌, arith, Option-cases,
  or_cons, if_ind, if_on_true, if◌then◌else◌,
}
use funkyd.Base.Text.{Text}
use funkyd.Base.Time.{Time, Duration}
use funkyd.Base.Floats.{Floats}
use funkyd.Base.Map.{is_some}
use funkyd.Config.{Configuration}
use funkyd.Upstream.{Upstream, get_address, is_no_upstream}
use funkyd.ConnEntry.{ConnEntry, Dialled, add_error, add_exchange, new_entry, no_conn_entry}
use funkyd.ConnPool.{
  ConnPool, Got, SortSlice, get, close_connection, new_connection, get_upstream_by_address,
}
use funkyd.ConnPool.Ownership.{
  held, flat, held-cool_and_purge_upstream, held-add, held-close_connection, held-get,
}
use funkyd.ConnPool.Selection.{is_no_upstream-no_upstream}
use funkyd.ConnPool.Lifecycle.{
  World, start, ids, Move, takes, dials, exchanges, fails, returns, closes, purges, Reach, here,
  next, Accounted,
}

module _ {F : Type 0} where
  ids-perm : {xs ys : List (ConnEntry F)} → Perm xs ys → Perm (ids xs) (ids ys)
  ids-perm p = Perm.filter_map (λ ce. ce.conn) p

  -- An entry that is replaced keeps its connection.
  ids-replace :
      (xs ys zs : List (ConnEntry F)) (ce ce' : ConnEntry F)
      → ce'.conn ≡ ce.conn
      → ids ((xs ++ ce' ∷ ys) ++ zs) ≡ ids ((xs ++ ce ∷ ys) ++ zs)
  unfolding filter_map
  ids-replace [] ys zs ce ce' e = rw e
  ids-replace (x ∷ xs) ys zs ce ce' e = rw (ids-replace xs ys zs ce ce' e)

  conn-add_exchange :
      (config : Configuration) (rtt : Duration) (ce : ConnEntry F)
      → (add_exchange config rtt ce).conn ≡ ce.conn
  unfolding add_exchange
  conn-add_exchange config rtt ce = ground arith

  conn-new_entry : (c : ℕ) (u : Upstream F) → (new_entry c u).conn ≡ some c
  unfolding new_entry
  conn-new_entry c u = refl

  -- An entry that goes from the lent ones into the pool.
  move_in :
      (xs ys : List (ConnEntry F)) (ce : ConnEntry F) (h h' : List (ConnEntry F))
      → Perm h' (ce ∷ h)
      → Perm ((xs ++ ys) ++ h') ((xs ++ ce ∷ ys) ++ h)
  move_in xs ys ce h h' p =
      Perm.trans (Perm.append_left (xs ++ ys) p) (
        Perm.trans (perm_middle (xs ++ ys) h) (Perm.append_right h (Perm.symm (perm_middle xs ys))))

conn-no_conn_entry : {F : Type 0} (fl : Floats F) → (no_conn_entry fl).conn ≡ none
unfolding no_conn_entry
conn-no_conn_entry fl = refl

module _ {F : Type 0} (fl : Floats F) (sort_slice : SortSlice (Upstream F))
    (config : Configuration) where
  takes-Accounted :
      (now : ℕ → Time) (w : World F) (g : Got fl)
      → get fl now w.pool ≡ some g
      → Accounted w
      → Accounted (record w {
        pool = g.pool;
        lent = if is_no_upstream fl g.upstream then g.ce ∷ w.lent else w.lent;
      })
  takes-Accounted now w g e a = elim (held-get fl now w.pool g e) [
    | inl (moved, none_needed) ↦
        if_on_true (λ (l : List (ConnEntry F)). Perm (ids (l ++ held g.pool)) w.opened)
          (is_no_upstream fl g.upstream) _ _
          (ap (is_no_upstream fl) none_needed ∙ is_no_upstream-no_upstream fl)
          (Perm.trans
            (ids-perm (
              Perm.trans (Perm.symm (perm_middle w.lent (held g.pool)))
                (Perm.append_left w.lent (Perm.symm moved))))
            a)
    | inr (same, nil, _) ↦
        if_ind (λ (l : List (ConnEntry F)). Perm (ids (l ++ held g.pool)) w.opened)
          (is_no_upstream fl g.upstream)
          (rw
            (
              same,
              filter_map-cons-none (λ (ce : ConnEntry F). ce.conn) g.ce (w.lent ++ held w.pool)
                  (ap (λ (ce : ConnEntry F). ce.conn) nil ∙ conn-no_conn_entry fl),
            )
            a)
          (rw same a)
  ]

  dials-Accounted :
      (now : Time) (u : Upstream F) (dial : Text → Dialled) (w : World F)
      → Accounted w
      → let r = new_connection config now u dial w.pool in
        Perm (ids (or_cons r.1 w.lent ++ held r.0)) (or_cons (dial (get_address u)).conn w.opened)
  unfolding new_connection
  dials-Accounted now u dial w a = elim (Option-cases (dial (get_address u)).conn) [
    | inl refused ↦
        let After = λ (r : ConnPool F × Option (ConnEntry F)).
          Perm (ids (or_cons r.1 w.lent ++ held r.0)) w.opened in
        let cooled = held-cool_and_purge_upstream config now (get_address u) w.pool in
        rw (refused, new_connection, or_cons)
          (if_ind After (is_some (get_upstream_by_address (get_address u) w.pool.upstreams))
            (Perm.trans (ids-perm (Perm.append_left w.lent cooled)) a) a)
    | inr (c, connected) ↦
        let ce = add_exchange config (dial (get_address u)).duration (new_entry c u) in
        rw
          (
            connected,
            new_connection,
            or_cons,
            filter_map-cons-some (λ (e : ConnEntry F). e.conn) ce (w.lent ++ held w.pool)
                (conn-add_exchange config (dial (get_address u)).duration (new_entry c u)
                  ∙ conn-new_entry c u),
          )
          (Perm.cons c a)
  ]

  pub closing-held :
      (now : Time) (xs : List (ConnEntry F)) (ce : ConnEntry F) (ys : List (ConnEntry F))
      (p : ConnPool F)
      → p.closing ≡ xs ++ ce ∷ ys
      → Perm
          (held (close_connection fl sort_slice config now ce (record p { closing = xs ++ ys })))
          (held p)
  closing-held now xs ce ys p e =
      let kept = (xs ++ ys) ++ p.closed in
      Perm.trans
        (held-close_connection fl sort_slice config now ce (record p { closing = xs ++ ys }))
        (Perm.trans (Perm.symm (perm_middle (flat p.cache) kept)) (
          Perm.append_left (flat p.cache)
            (rw e (Perm.symm (Perm.append_right p.closed (perm_middle xs ys))))))

  Move-Accounted : (w v : World F) → Move fl sort_slice config w v → Accounted w → Accounted v
  Move-Accounted w v (takes now g e f) a = rw f (takes-Accounted now w g e a)
  Move-Accounted w v (dials now u dial e) a = rw e (dials-Accounted now u dial w a)
  Move-Accounted w v (exchanges xs ce ys rtt e f) a =
      rw
        (
          f,
          ids-replace xs ys (held w.pool) ce (add_exchange config rtt ce)
              (conn-add_exchange config rtt ce),
        )
        (rw e at a)
  Move-Accounted w v (fails xs ce ys e f) a =
      rw (f, ids-replace xs ys (held w.pool) ce (add_error ce) (unfold add_error in refl))
        (rw e at a)
  Move-Accounted w v (returns now xs ce ys e f) a = rw f (
      Perm.trans
        (ids-perm (move_in xs ys ce (held w.pool) _ (held-add fl sort_slice config now ce w.pool)))
        (rw e at a))
  Move-Accounted w v (closes now xs ce ys e f) a = rw f (
      Perm.trans
        (ids-perm (
          move_in xs ys ce (held w.pool) _
            (held-close_connection fl sort_slice config now ce w.pool)))
        (rw e at a))
  Move-Accounted w v (purges now xs ce ys e f) a =
      rw f (Perm.trans (ids-perm (Perm.append_left w.lent (closing-held now xs ce ys w.pool e))) a)

  -- In each state of the pool that is reached from a list of upstreams, by any interleaving of its
  -- users and of the goroutines of purgeUpstream, the connections that are lent, cached, waiting to
  -- be closed or closed are together, each once, the ones that were dialled.
  pub Reach-Accounted :
      (us : List (Upstream F)) (w : World F) → Reach fl sort_slice config (start us) w → Accounted w
  unfolding filter_map
  Reach-Accounted us w here = Perm.refl []
  Reach-Accounted us w (next {v} r m) = Move-Accounted v w m (Reach-Accounted us v r)

  -- In each state of the pool that is reached from a list of upstreams, if no connection was
  -- dialled twice, then none is in two places: none is closed twice, and none is closed while it is
  -- cached or lent.
  pub Reach-Nodup :
      (us : List (Upstream F)) (w : World F)
      → Reach fl sort_slice config (start us) w
      → Nodup w.opened
      → Nodup (ids (w.lent ++ held w.pool))
  Reach-Nodup us w r d = Perm.nodup (Perm.symm (Reach-Accounted us w r)) d

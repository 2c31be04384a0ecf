-- ===== src/ConnPool/Sorting.antt =====
-- The list of upstreams stays sorted by weight, and keeps its upstreams.
use mathlib.Core.List.{Perm}
use funkyd.Base.{
  ℕ, ◌≡◌, inl, inr, Bool, false, some, List, [], ◌∷◌, ◌++◌, arith, All, Bool-cases, if_ind,
}
use funkyd.Base.Int.{ℤ}
use funkyd.Base.Text.{Text, text_eq}
use funkyd.Base.Time.{Time}
use funkyd.Base.Floats.{Floats}
use funkyd.Base.Map.{is_some}
use funkyd.Config.{Configuration, cooldown_duration}
use funkyd.Upstream.{Upstream, get_address, cooldown}
use funkyd.ConnEntry.{ConnEntry, Dialled, address_of}
use funkyd.ConnPool.{
  ConnPool, Got, SortSlice, lighter, modify_upstream, purge_upstream, cool_and_purge_upstream,
  update_upstream, sort_upstreams, add, close_connection, new_connection, get,
  get_upstream_by_address,
}
use funkyd.ConnPool.Lifecycle.{
  World, start, Move, takes, dials, exchanges, fails, returns, closes, purges, Reach, here, next,
}
use funkyd.ConnPool.Selection.{Ordered}

-- What the program relies on of sort.Slice.
pub record IsSort {F : Type 0} (fl : Floats F) (sort_slice : SortSlice (Upstream F)) : Type 0 where
  pub permutes : (us : List (Upstream F)) → Perm (sort_slice (lighter fl) us) us
  pub sorts : (us : List (Upstream F)) → Ordered fl (sort_slice (lighter fl) us)

module _ {F : Type 0} (fl : Floats F) where
  -- A cooldown moves no upstream in the order.
  All-cooldown :
      (P : F → Type 0) (now : Time) (d : ℤ) (a : Text) (us : List (Upstream F))
      → All (λ u. P u.weight) us
      → All (λ u. P u.weight) (modify_upstream a (cooldown now d) us)
  unfolding modify_upstream cooldown
  All-cooldown P now d a [] h = tt
  All-cooldown P now d a (u ∷ us) h = elim (Bool-cases (text_eq (get_address u) a)) [
    | inl hit ↦ rw hit h
    | inr miss ↦ rw miss (h.0, All-cooldown P now d a us h.1)
  ]

  Ordered-cooldown :
      (now : Time) (d : ℤ) (a : Text) (us : List (Upstream F))
      → Ordered fl us
      → Ordered fl (modify_upstream a (cooldown now d) us)
  unfolding modify_upstream cooldown
  Ordered-cooldown now d a [] o = tt
  Ordered-cooldown now d a (u ∷ us) o = elim (Bool-cases (text_eq (get_address u) a)) [
    | inl hit ↦ rw hit o
    | inr miss ↦ rw miss (
      All-cooldown (λ w. fl.ltb w u.weight ≡ false) now d a us o.0,
      Ordered-cooldown now d a us o.1,
    )
  ]

  pub purge_upstream-upstreams :
      (a : Text) (p : ConnPool F) → (purge_upstream a p).upstreams ≡ p.upstreams
  unfolding purge_upstream
  purge_upstream-upstreams a p = ground arith

  cool-Ordered :
      (config : Configuration) (now : Time) (a : Text) (p : ConnPool F)
      → Ordered fl p.upstreams
      → Ordered fl (cool_and_purge_upstream config now a p).upstreams
  unfolding cool_and_purge_upstream
  cool-Ordered config now a p o =
      rw
        (purge_upstream-upstreams a (record p {
          upstreams = modify_upstream a (cooldown now (cooldown_duration config)) p.upstreams;
        }))
        (Ordered-cooldown now (cooldown_duration config) a p.upstreams o)

module _ {F : Type 0} (fl : Floats F) (sort_slice : SortSlice (Upstream F))
    (s : IsSort fl sort_slice) (config : Configuration) where
  update_upstream-Ordered :
      (now : Time) (ce : ConnEntry F) (p : ConnPool F)
      → Ordered fl p.upstreams
      → Ordered fl (update_upstream fl sort_slice config now ce p).0.upstreams
  unfolding update_upstream sort_upstreams
  update_upstream-Ordered now ce p o =
      if_ind (λ (r : ConnPool F × Bool). Ordered fl r.0.upstreams)
        (is_some (get_upstream_by_address (address_of ce) p.upstreams)) (s.sorts _) o

  get-upstreams :
      (now : ℕ → Time) (p : ConnPool F) (g : Got fl)
      → get fl now p ≡ some g
      → g.pool.upstreams ≡ p.upstreams
  unfolding get
  get-upstreams now p g e = ground arith

  new_connection-Ordered :
      (now : Time) (u : Upstream F) (dial : Text → Dialled) (p : ConnPool F)
      → Ordered fl p.upstreams
      → Ordered fl (new_connection config now u dial p).0.upstreams
  unfolding new_connection
  new_connection-Ordered now u dial p o =
      ground (arith, cool-Ordered fl config now (get_address u) p o)

  Move-Ordered :
      (w v : World F)
      → Move fl sort_slice config w v
      → Ordered fl w.pool.upstreams
      → Ordered fl v.pool.upstreams
  unfolding add close_connection
  Move-Ordered w v (takes now g e f) o = rw (f, get-upstreams now w.pool g e) o
  Move-Ordered w v (dials now u dial e) o = rw e (new_connection-Ordered now u dial w.pool o)
  Move-Ordered w v (exchanges xs ce ys rtt e f) o = rw f o
  Move-Ordered w v (fails xs ce ys e f) o = rw f o
  Move-Ordered w v (returns now xs ce ys e f) o = rw f (update_upstream-Ordered now ce w.pool o)
  Move-Ordered w v (closes now xs ce ys e f) o = rw f (update_upstream-Ordered now ce w.pool o)
  Move-Ordered w v (purges now xs ce ys e f) o =
      rw f (update_upstream-Ordered now ce (record w.pool { closing = xs ++ ys }) o)

  -- Where sort.Slice sorts, and the upstreams are sorted by weight at the start, they are sorted by
  -- weight in each state of the pool that is reached.
  pub Reach-Ordered :
      (us : List (Upstream F)) (w : World F)
      → Ordered fl us
      → Reach fl sort_slice config (start us) w
      → Ordered fl w.pool.upstreams
  Reach-Ordered us w o here = o
  Reach-Ordered us w o (next {v} r m) = Move-Ordered v w m (Reach-Ordered us v o r)

-- ===== src/ConnPool/Lifecycle.antt =====
-- The life of a connection: dialled, lent to a query, put back or closed; and the goroutines that
-- purgeUpstream starts, which run at any later time.
use mathlib.Core.List.{Perm, filter_map}
use funkyd.Base.{ℕ, ◌≡◌, some, List, [], ◌∷◌, ◌++◌, or_cons, if◌then◌else◌}
use funkyd.Base.Text.{Text}
use funkyd.Base.Time.{Time, Duration}
use funkyd.Base.Floats.{Floats}
use funkyd.Config.{Configuration}
use funkyd.Upstream.{Upstream, get_address, is_no_upstream}
use funkyd.ConnEntry.{ConnEntry, Dialled, add_error, add_exchange}
use funkyd.ConnPool.{ConnPool, Got, SortSlice, get, add, close_connection, new_connection}
use funkyd.ConnPool.Ownership.{held}

-- `lent` are the entries that queries work with; `opened` are all connections ever dialled.
pub record World (F : Type 0) : Type 0 where
  pub pool : ConnPool F
  pub lent : List (ConnEntry F)
  pub opened : List ℕ

abbrev pub ids : {F : Type 0} → List (ConnEntry F) → List ℕ
ids = filter_map (λ ce. ce.conn)

-- A pool starts with its upstreams; AddUpstream is called before the first query.
abbrev pub start : {F : Type 0} → List (Upstream F) → World F
start us = record {
  pool = record { upstreams = us; cache = []; closing = []; closed = [] };
  lent = [];
  opened = [];
}

module _ {F : Type 0} (fl : Floats F) (sort_slice : SortSlice (Upstream F))
    (config : Configuration) where
  -- What the users of a pool do, in any order, and the waiting goroutines.
  pub data Move (w v : World F) : Type 0 where
    takes :
        (now : ℕ → Time) (g : Got fl)
        → get fl now w.pool ≡ some g
        → v ≡ record w {
          pool = g.pool;
          lent = if is_no_upstream fl g.upstream then g.ce ∷ w.lent else w.lent;
        }
        → Move w v
    dials :
        (now : Time) (u : Upstream F) (dial : Text → Dialled)
        → v ≡ (
            let (p, o) = new_connection config now u dial w.pool in
            record {
              pool = p;
              lent = or_cons o w.lent;
              opened = or_cons (dial (get_address u)).conn w.opened;
            })
        → Move w v
    exchanges :
        (xs : List (ConnEntry F)) (ce : ConnEntry F) (ys : List (ConnEntry F)) (rtt : Duration)
        → w.lent ≡ xs ++ ce ∷ ys
        → v ≡ record w { lent = xs ++ add_exchange config rtt ce ∷ ys }
        → Move w v
    fails :
        (xs : List (ConnEntry F)) (ce : ConnEntry F) (ys : List (ConnEntry F))
        → w.lent ≡ xs ++ ce ∷ ys
        → v ≡ record w { lent = xs ++ add_error ce ∷ ys }
        → Move w v
    returns :
        (now : Time) (xs : List (ConnEntry F)) (ce : ConnEntry F) (ys : List (ConnEntry F))
        → w.lent ≡ xs ++ ce ∷ ys
        → v ≡ record w { pool = (add fl sort_slice config now ce w.pool).0; lent = xs ++ ys }
        → Move w v
    closes :
        (now : Time) (xs : List (ConnEntry F)) (ce : ConnEntry F) (ys : List (ConnEntry F))
        → w.lent ≡ xs ++ ce ∷ ys
        → v
          ≡ record w { pool = close_connection fl sort_slice config now ce w.pool; lent = xs ++ ys }
        → Move w v
    -- One of the goroutines of purgeUpstream gets the lock.
    purges :
        (now : Time) (xs : List (ConnEntry F)) (ce : ConnEntry F) (ys : List (ConnEntry F))
        → w.pool.closing ≡ xs ++ ce ∷ ys
        → v ≡ record w {
          pool =
              close_connection fl sort_slice config now ce (record w.pool { closing = xs ++ ys });
        }
        → Move w v

  pub data Reach (w : World F) : World F → Type 0 where
    here : Reach w w
    next : {v x : World F} → Reach w v → Move v x → Reach w x

-- Each connection that was dialled is in one place: with a query, in the cache, with a goroutine
-- that is to close it, or closed.
abbrev pub Accounted : {F : Type 0} → World F → Type 0
Accounted w = Perm (ids (w.lent ++ held w.pool)) w.opened

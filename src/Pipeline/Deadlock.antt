-- ===== src/Pipeline/Deadlock.antt =====
-- When the connector and the querier wait forever.
use mathlib.Core.List.{Perm}
use mathlib.Core.List.Perm
use funkyd.Base.{List, ◌++◌, ap, ℕ, ◌≡◌, refl, inl, inr, ◌⊎◌, none, some, [], ◌∷◌, arith, ◌∙◌}
use funkyd.Base.Int.{ℤ}
use funkyd.Base.Floats.{Floats}
use funkyd.Config.{Configuration}
use funkyd.Upstream.{Upstream}
use funkyd.Base.Time.{Time}
use funkyd.ConnEntry.{ConnEntry}
use funkyd.ConnPool.{ConnPool, SortSlice, close_connection}
use funkyd.ConnPool.Ownership.{held}
use funkyd.ConnPool.Accounting.{closing-held}
use funkyd.Server.{DnsLib}
use funkyd.Pipeline.{
  Query, Channel, Sends, cacher_inbound, connector_inbound, querier_inbound, finisher_inbound,
}
use funkyd.Pipeline.System.{
  System, Gives, from_handler, from_cacher, from_connector, from_querier, from_finisher, Step,
  arrives, caches, connects, adds, closes, queries, purges, finishes, cancels_cacher,
  cancels_connector, cancels_querier, Reach, here, next,
}

module _ {F : Type 0} where
  -- The connector's next send is on a nil channel, or it is to the querier while the querier's is to
  -- the connector.
  abbrev pub Jammed : System F → Type 0
  Jammed s =
      ((q : Query F) × (rest : Sends F) × (s.connector ≡ (none, q) ∷ rest))
      ⊎ ((q : Query F) × (rest : Sends F) × (q' : Query F) × (rest' : Sends F) × (s.connector
            ≡ (some querier_inbound, q) ∷ rest)
          × (s.querier ≡ (some connector_inbound, q') ∷ rest'))

  -- A goroutine that gives to another worker than the connector and the querier leaves both.
  Gives-kept :
      (s r : System F) (ch : Channel) (q : Query F)
      → Gives s ch q r
      → Jammed s
      → (ch ≡ cacher_inbound) ⊎ (ch ≡ finisher_inbound)
      → (r.connector ≡ s.connector)
        × (r.pool ≡ s.pool)
        × ((r.querier ≡ s.querier)
            ⊎ ((p : Query F) × (rest : Sends F) × (s.connector ≡ (none, p) ∷ rest)))
  Gives-kept s r ch q (from_handler xs ys e f) j o = ground arith
  Gives-kept s r ch q (from_cacher ys e f) j o = ground arith
  Gives-kept s r ch q (from_connector ys e f) j o = ground arith
  Gives-kept s r ch q (from_querier ys e f) j o = ground arith
  Gives-kept s r ch q (from_finisher ys e f) j o = ground arith

  Jammed-kept :
      (s t : System F)
      → t.connector ≡ s.connector
      → (t.querier ≡ s.querier)
        ⊎ ((p : Query F) × (rest : Sends F) × (s.connector ≡ (none, p) ∷ rest))
      → Jammed s
      → Jammed t
  Jammed-kept s t same (inr (p, rest, e)) j = inl (p, rest, same ∙ e)
  Jammed-kept s t same (inl kept) (inl (p, rest, e)) = inl (p, rest, same ∙ e)
  Jammed-kept s t same (inl kept) (inr (p, rest, p', rest', e, e')) =
      inr (p, rest, p', rest', same ∙ e, kept ∙ e')

  Jammed-connector : (s : System F) → Jammed s → s.connector ≡ [] → ⊥
  Jammed-connector s (inl (p, rest, e)) f = cc
  Jammed-connector s (inr (p, rest, p', rest', e, e')) f = cc

  Gives-querier :
      (s r : System F) (q : Query F)
      → Jammed s
      → s.querier ≡ []
      → Gives s querier_inbound q r
      → (r.connector ≡ s.connector)
        × (r.pool ≡ s.pool)
        × ((p : Query F) × (rest : Sends F) × (s.connector ≡ (none, p) ∷ rest))
  Gives-querier s r q (inl (p, rest, j)) idle (from_handler xs ys e f) =
      (rw f refl, rw f refl, (p, rest, j))
  Gives-querier s r q (inl (p, rest, j)) idle (from_cacher ys e f) =
      (rw f refl, rw f refl, (p, rest, j))
  Gives-querier s r q (inl (p, rest, j)) idle (from_connector ys e f) = cc
  Gives-querier s r q (inl (p, rest, j)) idle (from_querier ys e f) = cc
  Gives-querier s r q (inl (p, rest, j)) idle (from_finisher ys e f) =
      (rw f refl, rw f refl, (p, rest, j))
  Gives-querier s r q (inr (p, rest, p', rest', j, j')) idle g = cc

module _ {F : Type 0} (fl : Floats F) (sort_slice : SortSlice (Upstream F))
    (config : Configuration) where
  -- What goroutines of purgeUpstream make of a pool, one after another.
  pub data Purges (p : ConnPool F) : ConnPool F → Type 0 where
    stays : Purges p p
    closes_one :
        {q r : ConnPool F} (now : Time) (xs : List (ConnEntry F)) (ce : ConnEntry F)
        (ys : List (ConnEntry F))
        → Purges p q
        → q.closing ≡ xs ++ ce ∷ ys
        → r ≡ close_connection fl sort_slice config now ce (record q { closing = xs ++ ys })
        → Purges p r

  Purges-same : (p q : ConnPool F) → q ≡ p → Purges p q
  Purges-same p q e = rw e stays

  Purges-trans : (p q r : ConnPool F) → Purges p q → Purges q r → Purges p r
  Purges-trans p q r a stays = a
  Purges-trans p q r a (closes_one {q = q'} now xs ce ys b e f) =
      closes_one now xs ce ys (Purges-trans p q q' a b) e f

  Purges-held : (p q : ConnPool F) → Purges p q → Perm (held q) (held p)
  Purges-held p q stays = Perm.refl (held p)
  Purges-held p q (closes_one {q = q'} now xs ce ys b e f) =
      rw f (Perm.trans (closing-held fl sort_slice config now xs ce ys q' e) (Purges-held p q' b))

  module _ (u : ℤ → ℕ) (dns : DnsLib) where
    -- What a step leaves of the connector, the querier and the pool.
    abbrev Keeps : System F → System F → Type 0
    Keeps s t = (t.connector ≡ s.connector) × Purges s.pool t.pool × Jammed t

    unchanged :
        (s t : System F)
        → t.connector ≡ s.connector
        → t.pool ≡ s.pool
        → (t.querier ≡ s.querier)
          ⊎ ((p : Query F) × (rest : Sends F) × (s.connector ≡ (none, p) ∷ rest))
        → Jammed s
        → Keeps s t
    unchanged s t connector pool querier j =
        (connector, Purges-same s.pool t.pool pool, Jammed-kept s t connector querier j)

    Step-Keeps : (s t : System F) → Step fl sort_slice config u dns s t → Jammed s → Keeps s t
    Step-Keeps s t (arrives request writer e) j =
        unchanged s t (rw e refl) (rw e refl) (inl (rw e refl)) j
    Step-Keeps s t (caches now q r idle on g e) j =
        let (connector, pool, querier) = Gives-kept s r cacher_inbound q g j (inl refl) in
        unchanged s t (rw e connector) (rw e pool) (rw e querier) j
    Step-Keeps s t (connects now network q r p sends idle on g e f) j =
        absurd (Jammed-connector s j idle)
    Step-Keeps s t (adds now q r p idle on g e f) j = absurd (Jammed-connector s j idle)
    Step-Keeps s t (closes now q r p idle on g e f) j = absurd (Jammed-connector s j idle)
    Step-Keeps s t (queries exchange q r sends idle on g e f) j =
        let (connector, pool, blocked) = Gives-querier s r q j idle g in
        unchanged s t (rw f connector) (rw f pool) (inr blocked) j
    Step-Keeps s t (purges now xs ce ys e f) j = (
      rw f refl,
      closes_one now xs ce ys stays e (ap (λ (s : System F). s.pool) f),
      Jammed-kept s t (rw f refl) (inl (rw f refl)) j,
    )
    Step-Keeps s t (cancels_cacher idle on e) j =
        unchanged s t (rw e refl) (rw e refl) (inl (rw e refl)) j
    Step-Keeps s t (cancels_connector idle on e) j =
        unchanged s t (rw e refl) (rw e refl) (inl (rw e refl)) j
    Step-Keeps s t (cancels_querier idle on e) j =
        unchanged s t (rw e refl) (rw e refl) (inl (rw e refl)) j
    Step-Keeps s t (finishes q r write sends idle g e f) j =
        let (connector, pool, querier) = Gives-kept s r finisher_inbound q g j (inr refl) in
        unchanged s t (rw f connector) (rw f pool) (rw f querier) j

    Reach-Keeps : (s t : System F) → Jammed s → Reach fl sort_slice config u dns s t → Keeps s t
    Reach-Keeps s t j here = (refl, stays, j)
    Reach-Keeps s t j (next {t = r} p m) =
        let (connector, pool, jammed) = Reach-Keeps s r j p in
        let (connector', pool', jammed') = Step-Keeps r t m jammed in
        (connector' ∙ connector, Purges-trans s.pool r.pool t.pool pool pool', jammed')

    -- Once the connector's next send is on a nil channel, or the connector's is to the querier and
    -- the querier's to the connector, it stays so whatever the workers and the goroutines of
    -- purgeUpstream do: the connector makes no further send, and the pool changes by nothing but
    -- what those goroutines do to the connections that wait to be closed, and holds the same
    -- connections.
    pub Reach-Jammed :
        (s t : System F)
        → Jammed s
        → Reach fl sort_slice config u dns s t
        → (t.connector ≡ s.connector)
          × Purges s.pool t.pool
          × Perm (held t.pool) (held s.pool)
          × Jammed t
    Reach-Jammed s t j p =
        let (connector, pool, jammed) = Reach-Keeps s t j p in
        (connector, pool, Purges-held s.pool t.pool pool, jammed)

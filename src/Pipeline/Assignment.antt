-- ===== src/Pipeline/Assignment.antt =====
-- AssignConnection, seen from the pool.
use mathlib.Core.Option.{some-injective}
use funkyd.Base.{
  subst, ◌<◌, ℕ, zero, suc, ◌+◌, ◌-◌, ◌≤◌, ◌≡◌, refl, inl, inr, Bool, true, false, Option, none,
  some, List, ◌∷◌, arith, Option-cases, or_cons, if◌then◌else◌,
}
use funkyd.Base.Time.{Time}
use funkyd.Base.Floats.{Floats}
use funkyd.Config.{Configuration}
use funkyd.Upstream.{Upstream, get_address, is_no_upstream}
use funkyd.ConnEntry.{ConnEntry}
use funkyd.ConnPool
use funkyd.ConnPool.{ConnPool, Got, SortSlice, new_connection}
use funkyd.ConnPool.Lifecycle.{World, takes, dials, Reach, here, next}
use funkyd.MutexServer.Queries.{ReachIn, Reach-trans, dials_of, dials_of_trans}
use funkyd.Pipeline.{
  Query, Dial, Assigned, assigned, unassigned, assign_loop, assign_connection, retry_limit,
}

module _ {F : Type 0} (fl : Floats F) (sort_slice : SortSlice (Upstream F))
    (config : Configuration) where
  -- What a call with n rounds leaves: after an error nothing is lent; else the query has its
  -- connection and, but for the entry that Get returned where there was no round, it is lent.
  abbrev pub Lends : ℕ → World F → Query F → Assigned F → Type 0
  Lends n w q (unassigned p) = ReachIn fl sort_slice config n w p w.lent
  Lends n w q (assigned p q') =
      (ce : ConnEntry F) × (q'
        ≡ record q { conn = some ce; connection_retries = q'.connection_retries })
      × (q'.connection_retries ≤ q.connection_retries + n)
      × ReachIn fl sort_slice config n w p (ce ∷ w.lent)

  -- A round that failed, and then the others.
  Lends-trans :
      (n : ℕ) (w : World F) (q : Query F) (p : ConnPool F) (o : Assigned F)
      (first : ReachIn fl sort_slice config 1 w p w.lent)
      → Lends n
          (record { pool = p; lent = w.lent; opened = first.0 })
          (record q { connection_retries = q.connection_retries + 1 })
          o
      → Lends (suc n) w q o
  Lends-trans n w q p (unassigned p') (opened, r, few) (opened', r', few') = (
    opened',
    Reach-trans fl sort_slice config w _ _ r r',
    omega (arith, dials_of_trans fl sort_slice config w _ _ r r'),
  )
  Lends-trans n w q p (assigned p' q') (opened, r, few) (ce, e, retries, (opened', r', few')) = (
    ce,
    e,
    omega arith,
    (
      opened',
      Reach-trans fl sort_slice config w _ _ r r',
      omega (arith, dials_of_trans fl sort_slice config w _ _ r r'),
    ),
  )

  -- One round, and then the rest of the loop.
  round-Lends :
      (n : ℕ) (w : World F) (q : Query F) (p : ConnPool F) (o : Option (ConnEntry F))
      (rest : Assigned F)
      → ReachIn fl sort_slice config 1 w p (or_cons o w.lent)
      → ((first : ReachIn fl sort_slice config 1 w p w.lent)
          → Lends n
              (record { pool = p; lent = w.lent; opened = first.0 })
              (record q { connection_retries = q.connection_retries + 1 })
              rest)
      → Lends (suc n) w q (elim o [
        | none ↦ rest
        | some ce ↦
            assigned p (record q { conn = some ce; connection_retries = q.connection_retries + 1 })
      ])
  round-Lends n w q p none rest r ih = Lends-trans n w q p rest r (ih r)
  round-Lends n w q p (some ce) rest (opened, r, few) ih =
      (ce, refl, omega arith, (opened, r, omega arith))

  one_dial :
      (d : Dial) (u : Upstream F) (w : World F)
      → let (p, o) = new_connection config d.clock u d.dial w.pool in
        ReachIn fl sort_slice config 1 w p (or_cons o w.lent)
  one_dial d u w = (
    or_cons (d.dial (get_address u)).conn w.opened,
    next here (dials d.clock u d.dial refl),
    omega arith,
  )

  assign_loop-Lends :
      (u : Upstream F) (network : ℕ → Dial) (i rounds : ℕ) (w : World F) (q : Query F)
      (ce : ConnEntry F)
      → Lends rounds w q (assign_loop fl config u network i rounds true w.pool q ce)
  unfolding assign_loop
  assign_loop-Lends u network i zero w q ce = (w.opened, here, omega arith)
  assign_loop-Lends u network i (suc rounds) w q ce =
      let d = network i in
      let (p, o) = new_connection config d.clock u d.dial w.pool in
      round-Lends rounds w q p o _ (one_dial d u w) (λ first.
        assign_loop-Lends u network (i + 1) rounds
          (record { pool = p; lent = w.lent; opened = first.0 })
          (record q { connection_retries = q.connection_retries + 1 }) ce)

  -- The first round has no error behind it.
  assign_loop-Lends-suc :
      (u : Upstream F) (network : ℕ → Dial) (i rounds : ℕ) (w : World F) (q : Query F)
      (ce : ConnEntry F)
      → Lends (suc rounds) w q (assign_loop fl config u network i (suc rounds) false w.pool q ce)
  unfolding assign_loop
  assign_loop-Lends-suc u network i rounds w q ce =
      assign_loop-Lends u network i (suc rounds) w q ce

  -- Moves that dial nothing, before.
  Lends-after :
      (n : ℕ) (w : World F) (q : Query F) (p : ConnPool F) (o : Assigned F)
      (r : Reach fl sort_slice config w (record { pool = p; lent = w.lent; opened = w.opened }))
      → dials_of fl sort_slice config r ≡ 0
      → Lends n (record { pool = p; lent = w.lent; opened = w.opened }) q o
      → Lends n w q o
  Lends-after n w q p (unassigned p') r z (opened, r', few) = (
    opened,
    Reach-trans fl sort_slice config w _ _ r r',
    omega (arith, z, dials_of_trans fl sort_slice config w _ _ r r'),
  )
  Lends-after n w q p (assigned p' q') r z (ce, e, retries, (opened, r', few)) = (
    ce,
    e,
    retries,
    (
      opened,
      Reach-trans fl sort_slice config w _ _ r r',
      omega (arith, z, dials_of_trans fl sort_slice config w _ _ r r'),
    ),
  )

  take_or_dial :
      (network : ℕ → Dial) (w : World F) (q : Query F) (g : Got fl) (taken : Bool) (rounds : ℕ)
      (r : Reach fl sort_slice config w (record {
        pool = g.pool;
        lent = if taken then g.ce ∷ w.lent else w.lent;
        opened = w.opened;
      }))
      → dials_of fl sort_slice config r ≡ 0
      → Lends (suc rounds) w q (
          if taken
          then assigned g.pool (record q { conn = some g.ce })
          else assign_loop fl config g.upstream network 0 (suc rounds) false g.pool q g.ce)
  take_or_dial network w q g true rounds r z =
      (g.ce, refl, omega arith, (w.opened, r, omega (arith, z)))
  take_or_dial network w q g false rounds r z = Lends-after (suc rounds) w q g.pool _ r z (
      assign_loop-Lends-suc g.upstream network 0 rounds
        (record { pool = g.pool; lent = w.lent; opened = w.opened }) q g.ce)

  pub assign_connection-Lends :
      (now : ℕ → Time) (network : ℕ → Dial) (w : World F) (q : Query F) (o : Assigned F)
      → q.connection_retries < retry_limit config
      → assign_connection fl config now network w.pool q ≡ some o
      → Lends (retry_limit config - q.connection_retries) w q o
  unfolding assign_connection
  assign_connection-Lends now network w q o left e =
      elim (Option-cases (ConnPool.get fl now w.pool)) [
        | inl empty ↦ cc (rw (empty, assign_connection) at e)
        | inr (g, got) ↦
            let rounds = retry_limit config - q.connection_retries - 1 in
            let some_rounds : retry_limit config - q.connection_retries ≡ suc rounds =
              omega arith in
            let Taken = λ (l : List (ConnEntry F)).
              Reach fl sort_slice config w
                (record { pool = g.pool; lent = l; opened = w.opened }) in
            let taken : Taken (if is_no_upstream fl g.upstream then g.ce ∷ w.lent else w.lent) =
              next here (takes now g got refl) in
            let same = some-injective _ _ (rw (got, some_rounds, assign_connection) at e) in
            rw some_rounds (
              subst (Lends (suc rounds) w q) same
                (take_or_dial network w q g (is_no_upstream fl g.upstream) rounds taken refl))
      ]

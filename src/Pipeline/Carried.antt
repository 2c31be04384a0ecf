-- ===== src/Pipeline/Carried.antt =====
-- The connections that queries carry through the pipeline.
use mathlib.Core.List.{filter_map}
use mathlib.Core.List.Perm
use mathlib.Core.Option.{some-injective}
use mathlib.Core.Logic.{∥∥₁_elim, ∥∥₁_prop}
use funkyd.Base.{
  ℕ, ◌-◌, ◌≡◌, refl, subst, ap, inl, inr, false, Option, none, some, List, [], ◌∷◌, ◌++◌, arith,
  Option-cases, Bool-cases, if◌then◌else◌, leb,
}
use funkyd.Base.Map.{is_some}
use funkyd.Base.Time.{Time}
use funkyd.Base.Floats.{Floats}
use funkyd.Config.{Configuration}
use funkyd.Upstream.{Upstream, is_no_upstream}
use funkyd.ConnEntry.{ConnEntry, no_conn_entry}
use funkyd.ConnPool
use funkyd.ConnPool.{ConnPool, Got, SortSlice}
use funkyd.MutexServer.Queries.{Reach-trans}
use funkyd.Pipeline.{
  Query, Dial, Channel, cacher_inbound, connector_inbound, querier_inbound, finisher_inbound,
  adding, closing, Sends, new_pipeline, connect, dispatch, fail, no_query, Assigned, assigned,
  unassigned, assign_loop, assign_connection, retry_limit,
}
use funkyd.Pipeline.Assignment
use funkyd.Pipeline.Assignment.{assign_connection-Lends}
use funkyd.Pipeline.Crossing.{missed}
use funkyd.ConnPool.Loans.{Loan-take}
use funkyd.Pipeline.Lending.{Lending, Lends, Lends-lose}

module _ {F : Type 0} where
  -- The connection of a query that is still to be used or put back. A query that goes to the
  -- connector again, or nowhere, keeps its connection from everyone.
  abbrev pub carries : Option Channel × Query F → Option (ConnEntry F)
  carries (some adding, q) = q.conn
  carries (some closing, q) = q.conn
  carries (some cacher_inbound, q) = q.conn
  carries (some connector_inbound, q) = none
  carries (some querier_inbound, q) = elim q.conn [
    | none ↦ none
    | some ce ↦ if is_some ce.conn then some ce else none
  ]
  carries (some finisher_inbound, q) = q.conn
  carries (none, q) = none

  abbrev pub carried : Sends F → List (ConnEntry F)
  carried = filter_map carries

module _ {F : Type 0} (fl : Floats F) (sort_slice : SortSlice (Upstream F)) (config : Configuration)
    (us : List (Upstream F)) (gone : List ℕ) where
  Lent : ConnPool F → List (ConnEntry F) → Type 0
  Lent = Lends fl sort_slice config us gone

  -- The connection that a query is to be asked on, if it has one.
  Lends-querier :
      (p : ConnPool F) (q : Query F) (ce : ConnEntry F) (l : List (ConnEntry F))
      → q.conn ≡ some ce
      → Lends fl sort_slice config us gone p (ce ∷ l)
      → Lends fl sort_slice config us gone p (carried ((some querier_inbound, q) ∷ []) ++ l)
  unfolding filter_map
  Lends-querier p q ce l e v = elim (Bool-cases (is_some ce.conn)) [
    | inl has ↦ rw (e, has) v
    | inr nil ↦
        let none_there : ce.conn ≡ none = ground arith in
        rw (e, nil) (rw none_there at (Lends-lose fl sort_slice config us gone p ce l v))
  ]

  -- What holds after AssignConnection.
  Assigns : List (ConnEntry F) → Assigned F → Type 0
  Assigns l (unassigned p) = Lends fl sort_slice config us gone p l
  Assigns l (assigned p q) =
      Lends fl sort_slice config us gone p (carried ((some querier_inbound, q) ∷ []) ++ l)

  Assigns-Lends :
      (n : ℕ) (p : ConnPool F) (q : Query F) (l : List (ConnEntry F))
      (v : Lending fl sort_slice config us gone p l) (o : Assigned F)
      → Assignment.Lends fl sort_slice config n v.loan.world q o
      → Assigns l o
  unfolding Assigns
  Assigns-Lends n p q l v (unassigned p') (opened, r, few) = ∣ record {
    lost = v.lost;
    gone_are = v.gone_are;
    loan = record {
      world = record { pool = p'; lent = v.loan.world.lent; opened = opened };
      reach = Reach-trans fl sort_slice config _ v.loan.world _ v.loan.reach r;
      pool_is = refl;
      lent_are = v.loan.lent_are;
    };
  } ∣₁
  Assigns-Lends n p q l v (assigned p' q') (ce, e, retries, (opened, r, few)) =
      Lends-querier p' q' ce l (ap (λ (x : Query F). x.conn) e) ∣ record {
        lost = v.lost;
        gone_are = v.gone_are;
        loan = record {
          world = record { pool = p'; lent = ce ∷ v.loan.world.lent; opened = opened };
          reach = Reach-trans fl sort_slice config _ v.loan.world _ v.loan.reach r;
          pool_is = refl;
          lent_are = Perm.cons ce v.loan.lent_are;
        };
      } ∣₁

  Assigns-prop : (l : List (ConnEntry F)) (o : Assigned F) → IsProp (Assigns l o)
  unfolding Assigns
  Assigns-prop l (unassigned p) = ∥∥₁_prop
  Assigns-prop l (assigned p q) = ∥∥₁_prop

  -- Without a round, the query gets what Get returned.
  exhausted-Assigns :
      (now : ℕ → Time) (network : ℕ → Dial) (p : ConnPool F) (q : Query F) (g : Got fl)
      (l : List (ConnEntry F)) (v : Lending fl sort_slice config us gone p l)
      → ConnPool.get fl now p ≡ some g
      → Assigns l (
          if is_no_upstream fl g.upstream
          then assigned g.pool (record q { conn = some g.ce })
          else assign_loop fl config g.upstream network 0 0 false g.pool q g.ce)
  unfolding Assigns assign_loop filter_map no_conn_entry
  exhausted-Assigns now network p q g l v got = elim (Bool-cases (is_no_upstream fl g.upstream)) [
    | inl taken ↦ rw taken (
        Lends-querier g.pool (record q { conn = some g.ce }) g.ce l refl
          ∣ record {
            lost = v.lost;
            gone_are = v.gone_are;
            loan = rw taken at (Loan-take fl sort_slice config us now p g (l ++ v.lost) got v.loan);
          } ∣₁)
    | inr named ↦ let (kept, nil) = missed fl now p g got named in rw (named, kept, nil) (∣ v ∣₁)
  ]

  assign_connection-Assigns :
      (now : ℕ → Time) (network : ℕ → Dial) (p : ConnPool F) (q : Query F) (o : Assigned F)
      (l : List (ConnEntry F))
      → assign_connection fl config now network p q ≡ some o
      → Lends fl sort_slice config us gone p l
      → Assigns l o
  unfolding assign_connection
  assign_connection-Assigns now network p q o l e t = ∥∥₁_elim t (Assigns-prop l o) (λ v.
      elim (Bool-cases (leb (retry_limit config) q.connection_retries)) [
        | inr left ↦ Assigns-Lends _ p q l v o (
            assign_connection-Lends fl sort_slice config now network v.loan.world q o
              (ground (arith, left)) (rw v.loan.pool_is e))
        | inl used ↦ elim (Option-cases (ConnPool.get fl now p)) [
          | inl empty ↦ cc (rw (empty, assign_connection) at e)
          | inr (g, got) ↦
              let no_round : retry_limit config - q.connection_retries ≡ 0 = ground (arith, used) in
              subst (Assigns l) (some-injective _ _ (rw (got, no_round, assign_connection) at e))
                (exhausted-Assigns now network p q g l v got)
        ]
      ])

  pub Lends-connect :
      (now : ℕ → Time) (network : ℕ → Dial) (p p' : ConnPool F) (q : Query F) (sends : Sends F)
      (l : List (ConnEntry F))
      → connect fl config new_pipeline.connector now network p q ≡ some (p', sends)
      → Lends fl sort_slice config us gone p l
      → Lends fl sort_slice config us gone p' (carried sends ++ l)
  unfolding connect dispatch fail new_pipeline filter_map no_query Assigns
  Lends-connect now network p p' q sends l e t =
      go (assign_connection fl config now network p q) refl e
    where
      go :
          (o : Option (Assigned F))
          → assign_connection fl config now network p q ≡ o
          → ◌≡◌ {A = Option (ConnPool F × Sends F)}
              (elim o [
                | none ↦ none
                | some (assigned p' q') ↦ some (p', (some querier_inbound, q') ∷ [])
                | some (unassigned p') ↦
                    some (p', (none, q) ∷ (some querier_inbound, no_query fl) ∷ [])
              ])
              (some (p', sends))
          → Lends fl sort_slice config us gone p' (carried sends ++ l)
      go none f e = cc
      go (some (unassigned r)) f e =
          let same = some-injective _ _ e in
          subst
            (λ (x : ConnPool F × Sends F).
              Lends fl sort_slice config us gone x.0 (carried x.1 ++ l))
            same (assign_connection-Assigns now network p q (unassigned r) l f t)
      go (some (assigned r q')) f e =
          subst
            (λ (x : ConnPool F × Sends F).
              Lends fl sort_slice config us gone x.0 (carried x.1 ++ l))
            (some-injective _ _ e) (assign_connection-Assigns now network p q (assigned r q') l f t)

-- ===== src/Pipeline/Crossing.antt =====
-- A query on its way through the workers.
use funkyd.Base.{
  ℕ, ◌-◌, ◌≤◌, ◌≡◌, refl, inl, inr, false, none, some, [], ◌∷◌, arith, Option-cases, ap,
}
use funkyd.Base.Time.{Time}
use funkyd.Base.Floats.{Floats}
use funkyd.Config.{Configuration}
use funkyd.Dns.{Msg}
use funkyd.Upstream.{is_no_upstream}
use funkyd.ConnEntry.{no_conn_entry}
use funkyd.ConnPool
use funkyd.ConnPool.{ConnPool, Got, SortSlice}
use funkyd.ConnPool.Ownership.{held-get}
use funkyd.ConnPool.Selection.{is_no_upstream-no_upstream}
use funkyd.Server.{Exchanged, DnsLib, attempt_exchange}
use funkyd.Pipeline.{
  Query, Dial, querier_inbound, new_pipeline, dispatch, assign_loop, assign_connection, retry_limit,
  connect,
}
use funkyd.Pipeline.Workers.{question_of, query}

module _ {F : Type 0} (fl : Floats F) where
  query-no_conn_entry :
      (config : Configuration) (dns : DnsLib) (exchange : Msg → ℕ → Exchanged) (q : Query F)
      → q.conn ≡ some (no_conn_entry fl)
      → query config dns exchange q ≡ none
  unfolding query attempt_exchange no_conn_entry
  query-no_conn_entry config dns exchange q e = elim (Option-cases (question_of q)) [
    | inl missing ↦ rw (missing, query) refl
    | inr (asked, found) ↦ rw (found, e, query) refl
  ]

  pub missed :
      (now : ℕ → Time) (p : ConnPool F) (g : Got fl)
      → ConnPool.get fl now p ≡ some g
      → is_no_upstream fl g.upstream ≡ false
      → (g.pool ≡ p) × (g.ce ≡ no_conn_entry fl)
  missed now p g got named = elim (held-get fl now p g got) [
    | inl (moved, none_needed) ↦
        cc (ap (is_no_upstream fl) none_needed, is_no_upstream-no_upstream fl, named)
    | inr (kept, nil, _) ↦ (kept, nil)
  ]

  -- If a query's retries are used up and Get names an upstream to connect to, the connector reports
  -- no error: it leaves the pool as it was and dispatches the query to the querier with the entry
  -- without a connection, on which Query panics.
  pub connect-exhausted :
      (config : Configuration) (dns : DnsLib) (exchange : Msg → ℕ → Exchanged) (now : ℕ → Time)
      (network : ℕ → Dial) (p : ConnPool F) (q : Query F) (g : Got fl)
      → ConnPool.get fl now p ≡ some g
      → is_no_upstream fl g.upstream ≡ false
      → retry_limit config ≤ q.connection_retries
      → let q' : Query F = record q { conn = some (no_conn_entry fl) } in
        (connect fl config new_pipeline.connector now network p q
          ≡ some (p, (some querier_inbound, q') ∷ []))
        × (query config dns exchange q' ≡ none)
  unfolding connect assign_connection assign_loop dispatch new_pipeline
  connect-exhausted config dns exchange now network p q g got named used =
      let (kept, nil) = missed now p g got named in
      let no_round : retry_limit config - q.connection_retries ≡ 0 = omega arith in
      (
        rw (got, connect, assign_connection, named, no_round, kept, nil) refl,
        query-no_conn_entry config dns exchange _ refl,
      )

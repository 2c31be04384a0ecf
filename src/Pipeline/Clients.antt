-- ===== src/Pipeline/Clients.antt =====
-- Whom the sends that are under way are to be answered to.
use mathlib.Core.List.{Perm, filter_map, perm_middle, append_assoc, append-nil, map}
use mathlib.Core.List.Perm
use mathlib.Core.Option.{some-injective}
use funkyd.Base.{
  ◌-◌, ℕ, zero, suc, ◌+◌, ◌≡◌, refl, inl, inr, Bool, true, false, Option, none, some, List, [], ◌∷◌,
  ◌++◌, arith, Option-cases, Bool-cases, or_cons,
}
use funkyd.Base.Perms.{append_left_comm, append_behind}
use funkyd.Base.Int.{ℤ}
use funkyd.Base.Time.{Time}
use funkyd.Base.Floats.{Floats}
use funkyd.Config.{Configuration}
use funkyd.Dns.{Msg, Heap}
use funkyd.Upstream.{Upstream, is_no_upstream}
use funkyd.ConnEntry.{ConnEntry}
use funkyd.ConnPool
use funkyd.ConnPool.{ConnPool, SortSlice, new_connection}
use funkyd.Cache.{RecordCache}
use funkyd.Server.{Exchanged, DnsLib}
use funkyd.Pipeline.{
  Query, Dial, Channel, cacher_inbound, connector_inbound, querier_inbound, finisher_inbound,
  adding, closing, Sends, new_pipeline, connect, dispatch, fail, no_query, Assigned, assigned,
  unassigned, assign_loop, assign_connection, retry_limit,
}
use funkyd.Pipeline.Workers.{Write, cache_step, query_step, finish_step, query}
use funkyd.Pipeline.System.{
  System, Gives, from_handler, from_cacher, from_connector, from_querier, from_finisher,
}

module _ {F : Type 0} where
  -- The client that a send is to be answered to; what goes back to the connector has been.
  abbrev pub client : Option Channel × Query F → Option ℕ
  client (some adding, q) = none
  client (some closing, q) = none
  client (some cacher_inbound, q) = q.writer
  client (some connector_inbound, q) = q.writer
  client (some querier_inbound, q) = q.writer
  client (some finisher_inbound, q) = q.writer
  client (none, q) = q.writer

  abbrev pub clients : Sends F → List ℕ
  clients = filter_map client

  abbrev pub pending : System F → Sends F
  pending s = s.handlers ++ (s.cacher ++ (s.connector ++ (s.querier ++ s.finisher)))

  -- The clients that wait, and those that have been written to.
  abbrev pub Answered : System F → Type 0
  Answered s = Perm (clients (pending s) ++ map (λ (w : Write). w.0) s.writes) s.requests

  pub Gives-pending :
      (s t : System F) (ch : Channel) (q : Query F)
      → Gives s ch q t
      → Perm (pending s) ((some ch, q) ∷ pending t)
  Gives-pending s t ch q (from_handler xs ys e f) =
      rw (e, f, append_assoc xs ys _, append_assoc xs ((some ch, q) ∷ ys) _) (perm_middle xs _)
  Gives-pending s t ch q (from_cacher ys e f) = rw (e, f) (perm_middle s.handlers _)
  Gives-pending s t ch q (from_connector ys e f) =
      rw (e, f)
        (Perm.trans (Perm.append_left s.handlers (perm_middle s.cacher _))
          (perm_middle s.handlers _))
  Gives-pending s t ch q (from_querier ys e f) =
      rw (e, f)
        (Perm.trans
          (Perm.append_left s.handlers (
            Perm.trans (Perm.append_left s.cacher (perm_middle s.connector _))
              (perm_middle s.cacher _)))
          (perm_middle s.handlers _))
  Gives-pending s t ch q (from_finisher ys e f) =
      rw (e, f)
        (Perm.trans
          (Perm.append_left s.handlers (
            Perm.trans
              (Perm.append_left s.cacher (
                Perm.trans (Perm.append_left s.connector (perm_middle s.querier _))
                  (perm_middle s.connector _)))
              (perm_middle s.cacher _)))
          (perm_middle s.handlers _))

  pub Gives-idle :
      (s t : System F) (ch : Channel) (q : Query F)
      → Gives s ch q t
      → (s.cacher ≡ [] → t.cacher ≡ [])
        × (s.connector ≡ [] → t.connector ≡ [])
        × (s.querier ≡ [] → t.querier ≡ [])
        × (s.finisher ≡ [] → t.finisher ≡ [])
  Gives-idle s t ch q (from_handler xs ys e f) = ground arith
  Gives-idle s t ch q (from_cacher ys e f) = ground arith
  Gives-idle s t ch q (from_connector ys e f) = ground arith
  Gives-idle s t ch q (from_querier ys e f) = ground arith
  Gives-idle s t ch q (from_finisher ys e f) = ground arith

  -- Each worker's sends are for the client of the query that it has received, once.
  pub clients-cache_step :
      (u : ℤ → ℕ) (dns : DnsLib) (now : ℕ → Time) (h : Heap) (c : RecordCache) (q : Query F)
      → clients (cache_step u dns new_pipeline.cacher now h c q).2 ≡ or_cons q.writer []
  unfolding cache_step dispatch fail new_pipeline filter_map
  clients-cache_step u dns now h c q = elim (Option-cases q.writer) [
    | inl e ↦ ground arith
    | inr (w, e) ↦ ground arith
  ]

  pub clients-query_step :
      (config : Configuration) (dns : DnsLib) (exchange : Msg → ℕ → Exchanged) (q : Query F)
      (sends : Sends F)
      → query_step config dns new_pipeline.querier exchange q ≡ some sends
      → clients sends ≡ or_cons q.writer []
  unfolding query_step query dispatch fail new_pipeline filter_map
  clients-query_step config dns exchange q sends e = elim (Option-cases q.writer) [
    | inl f ↦ ground arith
    | inr (w, f) ↦ ground arith
  ]

  pub clients-finish_step :
      (q : Query F) (write : Write) (sends : Sends F)
      → finish_step new_pipeline.finisher q ≡ some (write, sends)
      → (clients sends ≡ []) × (q.writer ≡ some write.0)
  unfolding finish_step dispatch new_pipeline filter_map
  clients-finish_step q write sends e = ground arith

  writer-assign_loop :
      (fl : Floats F) (config : Configuration) (u : Upstream F) (network : ℕ → Dial) (i rounds : ℕ)
      (failed : Bool) (p p' : ConnPool F) (q q' : Query F) (ce : ConnEntry F)
      → assign_loop fl config u network i rounds failed p q ce ≡ assigned p' q'
      → q'.writer ≡ q.writer
  unfolding assign_loop
  writer-assign_loop fl config u network i zero failed p p' q q' ce e = ground arith
  writer-assign_loop fl config u network i (suc rounds) failed p p' q q' ce e = ground (
    arith,
    writer-assign_loop fl config u network (i + 1) rounds true
        (new_connection config (network i).clock u (network i).dial p).0 p'
        (record q { connection_retries = q.connection_retries + 1 }) q' ce,
  )

  writer-assign_connection :
      (fl : Floats F) (config : Configuration) (now : ℕ → Time) (network : ℕ → Dial)
      (p p' : ConnPool F) (q q' : Query F)
      → assign_connection fl config now network p q ≡ some (assigned p' q')
      → q'.writer ≡ q.writer
  unfolding assign_connection
  writer-assign_connection fl config now network p p' q q' e =
      elim (Option-cases (ConnPool.get fl now p)) [
        | inl empty ↦ cc (rw (empty, assign_connection) at e)
        | inr (g, got) ↦ elim (Bool-cases (is_no_upstream fl g.upstream)) [
          | inl hit ↦ ground arith
          | inr miss ↦
              writer-assign_loop fl config g.upstream network 0
                (retry_limit config - q.connection_retries) false g.pool p' q q' g.ce
                (some-injective _ _ (rw (got, miss, assign_connection) at e))
        ]
      ]

  pub clients-connect :
      (fl : Floats F) (config : Configuration) (now : ℕ → Time) (network : ℕ → Dial)
      (p p' : ConnPool F) (q : Query F) (sends : Sends F)
      → connect fl config new_pipeline.connector now network p q ≡ some (p', sends)
      → clients sends ≡ or_cons q.writer []
  unfolding connect dispatch fail new_pipeline filter_map no_query
  clients-connect fl config now network p p' q sends e =
      go (assign_connection fl config now network p q) refl e
    where
      go :
          (o : Option (Assigned F))
          → assign_connection fl config now network p q ≡ o
          → ◌≡◌ {A = Option (ConnPool F × Sends F)}
              (elim o [
                | none ↦ none
                | some (assigned p' q') ↦ some (p', (some querier_inbound, q') ∷ [])
                | some (unassigned p') ↦
                    some (p', (none, q) ∷ (some querier_inbound, no_query fl) ∷ [])
              ])
              (some (p', sends))
          → clients sends ≡ or_cons q.writer []
      go none f e = cc
      go (some (unassigned r)) f e = elim (Option-cases q.writer) [
        | inl g ↦ ground arith
        | inr (w, g) ↦ ground arith
      ]
      go (some (assigned r q')) f e =
          let kept = writer-assign_connection fl config now network p r q q' f in
          elim (Option-cases q.writer) [ inl g ↦ ground arith | inr (w, g) ↦ ground arith ]

  -- Where the sends of a goroutine end, and those of the others begin.
  module _ (s : System F) (sends : Sends F) where
    pub put_cacher :
        s.cacher ≡ [] → Perm (pending (record s { cacher = sends })) (sends ++ pending s)
    put_cacher e = rw e (append_left_comm s.handlers sends _)

    pub put_connector :
        s.connector ≡ [] → Perm (pending (record s { connector = sends })) (sends ++ pending s)
    put_connector e = rw e (append_behind s.handlers sends _ (append_left_comm s.cacher sends _))

    pub put_querier :
        s.querier ≡ [] → Perm (pending (record s { querier = sends })) (sends ++ pending s)
    put_querier e = rw e (
        append_behind s.handlers sends _
          (append_behind s.cacher sends _ (append_left_comm s.connector sends _)))

    pub put_finisher :
        s.finisher ≡ [] → Perm (pending (record s { finisher = sends })) (sends ++ pending s)
    put_finisher e =
        let last : Perm (s.querier ++ sends) (sends ++ (s.querier ++ [])) =
          rw (append-nil sends) at (append_left_comm s.querier sends []) in
        rw e (
          append_behind s.handlers sends _
            (append_behind s.cacher sends _ (append_behind s.connector sends _ last)))

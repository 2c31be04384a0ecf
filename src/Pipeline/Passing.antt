-- ===== src/Pipeline/Passing.antt =====
-- What each worker does to the loan of the connection that its query carries.
use mathlib.Core.List.{filter_map}
use mathlib.Core.Option.{some-injective}
use funkyd.Base.{
  ℕ, ◌≡◌, refl, sym, subst, or_cons, Option, none, inl, inr, some, List, [], ◌∷◌, ◌++◌, arith,
  Option-cases,
}
use funkyd.Base.Int.{ℤ}
use funkyd.Base.Time.{Time}
use funkyd.Base.Floats.{Floats}
use funkyd.Config.{Configuration}
use funkyd.Dns.{Msg, Heap}
use funkyd.Upstream.{Upstream}
use funkyd.ConnEntry.{ConnEntry, add_exchange}
use funkyd.ConnPool.{ConnPool, SortSlice}
use funkyd.Cache.{RecordCache}
use funkyd.Server.{Exchanged, DnsLib, attempt_exchange}
use funkyd.MutexServer.{query_message}
use funkyd.Pipeline.{
  Query, Channel, cacher_inbound, connector_inbound, querier_inbound, finisher_inbound, adding,
  closing, Sends, new_pipeline, dispatch, fail,
}
use funkyd.Pipeline.Workers.{
  Write, cache_step, query_step, finish_step, add_step, close_step, query, question_of, check_cache,
}
use funkyd.Pipeline.Lending.{Lends, Lends-lose, Lends-exchange, Lends-return, Lends-close}
use funkyd.Pipeline.Carried.{carried}

-- The connection of a query that is handed to the connector.
abbrev left : {F : Type 0} → Option Channel × Query F → Option ℕ
left (none, q) = none
left (some cacher_inbound, q) = none
left (some connector_inbound, q) = elim q.conn [ none ↦ none | some ce ↦ ce.conn ]
left (some querier_inbound, q) = none
left (some finisher_inbound, q) = none
left (some adding, q) = none
left (some closing, q) = none

-- The connections that sends leave behind: nothing uses them any more, or puts them back.
abbrev pub left_behind : {F : Type 0} → Sends F → List ℕ
left_behind = filter_map left

left_by :
    {F : Type 0} (q : Query F) (ce : ConnEntry F) (gone : List ℕ) (P : List ℕ → Type 0)
    → q.conn ≡ some ce
    → P (or_cons ce.conn gone)
    → P (left_behind ((some connector_inbound, q) ∷ []) ++ gone)
unfolding filter_map
left_by q ce gone P e v = elim (Option-cases ce.conn) [
  | inl nil ↦ rw (e, nil) (rw nil at v)
  | inr (c, has) ↦ rw (e, has) (rw has at v)
]

module _ {F : Type 0} (fl : Floats F) (sort_slice : SortSlice (Upstream F)) (config : Configuration)
    (us : List (Upstream F)) where
  -- From a query that a worker has received to the sends that it makes, and to the others' loans;
  -- the connections `dropped` are lost.
  unfoldable pub Passes : List ℕ → ConnPool F → ConnPool F → Channel → Query F → Sends F → Type 0
  Passes dropped p p' ch q sends =
      (gone : List ℕ) (l : List (ConnEntry F))
      → Lends fl sort_slice config us gone p (carried ((some ch, q) ∷ []) ++ l)
      → Lends fl sort_slice config us (dropped ++ gone) p' (carried sends ++ l)

  pub cache_step-Passes :
      (u : ℤ → ℕ) (dns : DnsLib) (now : ℕ → Time) (h : Heap) (c : RecordCache) (p : ConnPool F)
      (q : Query F)
      → let sends = (cache_step u dns new_pipeline.cacher now h c q).2 in
        Passes (left_behind sends) p p cacher_inbound q sends
  unfolding Passes cache_step dispatch fail new_pipeline filter_map
  cache_step-Passes u dns now h c p q gone l v =
      let Goal = λ (sends : Sends F).
        Lends fl sort_slice config us (left_behind sends ++ gone) p (carried sends ++ l) in
      elim (Option-cases (check_cache u now h c q).response) [
        | inr (x, hit) ↦
            let reply = record q { reply = some (dns.copy x.entry) } in
            let sends : (cache_step u dns new_pipeline.cacher now h c q).2
                ≡ (some finisher_inbound, reply) ∷ [] =
              ground arith in
            subst Goal (sym sends) v
        | inl miss ↦
            let sends : (cache_step u dns new_pipeline.cacher now h c q).2
                ≡ (some connector_inbound, q) ∷ [] =
              ground arith in
            subst Goal (sym sends) (elim (Option-cases q.conn) [
              | inl none_carried ↦ rw none_carried (rw none_carried at v)
              | inr (ce, e) ↦
                  let lost = Lends-lose fl sort_slice config us gone p ce l (rw e at v) in
                  left_by q ce gone (λ g. Lends fl sort_slice config us g p l) e lost
            ])
      ]

  pub finish_step-Passes :
      (p : ConnPool F) (q : Query F) (write : Write) (sends : Sends F)
      → finish_step new_pipeline.finisher q ≡ some (write, sends)
      → Passes [] p p finisher_inbound q sends
  unfolding Passes finish_step dispatch new_pipeline filter_map
  finish_step-Passes p q write sends e gone l v = elim (Option-cases q.writer) [
    | inl missing ↦ cc (rw missing at e)
    | inr (w, f) ↦ elim (Option-cases q.reply) [
      | inl unanswered ↦ cc (rw (f, unanswered) at e)
      | inr (reply, g) ↦
          subst (λ (x : Write × Sends F). Lends fl sort_slice config us gone p (carried x.1 ++ l))
            (some-injective _ _ (rw (f, g) at e)) v
    ]
  ]

  pub add_step-Passes :
      (now : Time) (p p' : ConnPool F) (q : Query F)
      → add_step fl sort_slice config now p q ≡ some p'
      → Passes [] p p' adding q []
  unfolding Passes add_step filter_map
  add_step-Passes now p p' q e gone l v = elim (Option-cases q.conn) [
    | inl missing ↦ cc (rw missing at e)
    | inr (ce, f) ↦
        subst (λ (x : ConnPool F). Lends fl sort_slice config us gone x l)
          (some-injective _ _ (rw f at e))
          (Lends-return fl sort_slice config us gone now p ce l (rw f at v))
  ]

  pub close_step-Passes :
      (now : Time) (p p' : ConnPool F) (q : Query F)
      → close_step fl sort_slice config now p q ≡ some p'
      → Passes [] p p' closing q []
  unfolding Passes close_step filter_map
  close_step-Passes now p p' q e gone l v = elim (Option-cases q.conn) [
    | inl missing ↦ cc (rw missing at e)
    | inr (ce, f) ↦
        subst (λ (x : ConnPool F). Lends fl sort_slice config us gone x l)
          (some-injective _ _ (rw f at e))
          (Lends-close fl sort_slice config us gone now p ce l (rw f at v))
  ]

  -- The connection's statistics change, and after an error it is lost.
  pub query_step-Passes :
      (dns : DnsLib) (exchange : Msg → ℕ → Exchanged) (p : ConnPool F) (q : Query F)
      (sends : Sends F)
      → query_step config dns new_pipeline.querier exchange q ≡ some sends
      → Passes (left_behind sends) p p querier_inbound q sends
  unfolding Passes query_step query attempt_exchange dispatch fail new_pipeline filter_map
  query_step-Passes dns exchange p q sends e gone l v = elim (Option-cases (question_of q)) [
    | inl missing ↦ ground arith
    | inr (asked, f) ↦ elim (Option-cases q.conn) [
      | inl none_carried ↦ ground arith
      | inr (ce, g) ↦ elim (Option-cases ce.conn) [
        | inl nil ↦ ground arith
        | inr (c, has) ↦
            let x = exchange (query_message dns asked.name asked.qtype) c in
            let kept : carried ((some querier_inbound, q) ∷ []) ≡ ce ∷ [] = ground arith in
            let v' =
              Lends-exchange fl sort_slice config us gone x.rtt p ce l
                (subst (λ k. Lends fl sort_slice config us gone p (k ++ l)) kept v) in
            elim (Option-cases x.reply) [
              | inl failed ↦
                  let same : sends
                      ≡ (
                        some connector_inbound,
                        record q { conn = some (add_exchange config x.rtt ce) },
                      )
                        ∷ [] =
                    ground arith in
                  subst
                    (λ (s : Sends F).
                      Lends fl sort_slice config us (left_behind s ++ gone) p (carried s ++ l))
                    (sym same)
                    (left_by (record q { conn = some (add_exchange config x.rtt ce) })
                      (add_exchange config x.rtt ce) gone (λ g. Lends fl sort_slice config us g p l)
                      refl (Lends-lose fl sort_slice config us gone p _ l v'))
              | inr (reply, answered) ↦
                  let q' = record q {
                    conn = some (add_exchange config x.rtt ce);
                    reply = some (dns.copy reply);
                  } in
                  let same : sends ≡ (some finisher_inbound, q') ∷ [] = ground arith in
                  subst
                    (λ (s : Sends F).
                      Lends fl sort_slice config us (left_behind s ++ gone) p (carried s ++ l))
                    (sym same) v'
            ]
      ]
    ]
  ]

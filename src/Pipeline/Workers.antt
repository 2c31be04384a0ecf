-- ===== src/Pipeline/Workers.antt =====
-- pipeline_server.go: the handler, the cacher, the querier, the finisher, and what the connector
-- does with the queries that come back to it. `none` is a panic.
use funkyd.Base.{ℕ, ◌+◌, Bool, true, false, Option, none, some, [], ◌∷◌}
use funkyd.Base.Int.{ℤ}
use funkyd.Base.Time.{Time}
use funkyd.Base.Floats.{Floats}
use funkyd.Config.{Configuration}
use funkyd.Dns.{Msg, Heap, Question}
use funkyd.Upstream.{Upstream}
use funkyd.ConnPool
use funkyd.ConnPool.{ConnPool, SortSlice, close_connection}
use funkyd.Cache
use funkyd.Cache.{Response, RecordCache, GetResult}
use funkyd.Server.{Exchanged, DnsLib, attempt_exchange, first_question}
use funkyd.MutexServer.{query_message}
use funkyd.Pipeline.{Query, Worker, Sends, dispatch, fail, no_query}

-- The message's first question, q.Msg.Question[0].
abbrev pub question_of : {F : Type 0} → Query F → Option Question
question_of q = elim q.msg [ none ↦ none | some m ↦ first_question m ]

-- What is written: the writer, and the message or nil.
abbrev pub Write : Type 0
Write = ℕ × Option Msg

module _ {F : Type 0} where
  -- PipelineQueryHandler.HandleDNS
  unfoldable pub handle_query : Floats F → Worker → Msg → ℕ → Sends F
  unfolding dispatch no_query
  handle_query fl w request writer =
      dispatch w (record (no_query fl) { msg = some request; writer = some writer }) ∷ []

  -- Query: the query that it returns, and whether there was no error. The connection's statistics
  -- are written through a pointer, so each copy of the query sees them.
  unfoldable pub query :
      Configuration → DnsLib → (Msg → ℕ → Exchanged) → Query F → Option (Query F × Bool)
  query config dns exchange q = elim (question_of q) [
    | none ↦ none
    | some asked ↦ elim q.conn [
      | none ↦ none
      | some ce ↦
          elim (attempt_exchange config exchange (query_message dns asked.name asked.qtype) ce) [
            | none ↦ none
            | some (ce', none) ↦
                some (
                  record q { conn = some ce'; connection_retries = q.connection_retries + 1 },
                  false,
                )
            | some (ce', some reply) ↦
                some (record q { conn = some ce'; reply = some (dns.copy reply) }, true)
          ]
    ]
  ]

  -- PipelineQuerier: after an error it sends on the query that it received.
  unfoldable pub query_step :
      Configuration → DnsLib → Worker → (Msg → ℕ → Exchanged) → Query F → Option (Sends F)
  unfolding query dispatch fail
  query_step config dns w exchange q = elim (query config dns exchange q) [
    | none ↦ none
    | some (q', true) ↦ some (dispatch w q' ∷ [])
    | some (q', false) ↦ some (fail w (record q { conn = q'.conn }) ∷ [])
  ]

  unfoldable pub check_cache : (ℤ → ℕ) → (ℕ → Time) → Heap → RecordCache → Query F → GetResult
  check_cache uint32_seconds now h c q = elim (question_of q) [
    | none ↦ record { heap = h; cache = c; response = none }
    | some asked ↦ Cache.get uint32_seconds now h c asked.name asked.qtype
  ]

  -- CacheQuery stores the message of the query, which is the request.
  unfoldable pub cache_query : Time → Query F → RecordCache → Option RecordCache
  cache_query now q c = elim q.msg [
    | none ↦ none
    | some m ↦ elim (first_question m) [
      | none ↦ none
      | some asked ↦ some (
          Cache.add
            (record {
              name = asked.name;
              entry = m;
              ttl = 0;
              qtype = asked.qtype;
              creation_time = now;
            })
            c)
    ]
  ]

  -- PipelineCacher, on a query from its inbound channel.
  unfoldable pub cache_step :
      (ℤ → ℕ)
      → DnsLib
      → Worker
      → (ℕ → Time)
      → Heap
      → RecordCache
      → Query F
      → Heap × RecordCache × Sends F
  unfolding check_cache dispatch fail
  cache_step uint32_seconds dns w now h c q =
      let g = check_cache uint32_seconds now h c q in
      (
        g.heap,
        g.cache,
        elim g.response [
          | some r ↦ dispatch w (record q { reply = some (dns.copy r.entry) }) ∷ []
          | none ↦ fail w q ∷ []
        ],
      )

  -- PipelineFinisher, on a query that is to fail. SetRcode panics without a request, and the library
  -- on a reply that is nil; the reply that is built is only logged.
  unfoldable pub servfail_step : Worker → Query F → Option (Write × Sends F)
  unfolding fail
  servfail_step w q = elim q.msg [
    | none ↦ none
    | some m ↦ elim q.writer [
      | none ↦ none
      | some writer ↦ elim q.reply [
        | none ↦ none
        | some reply ↦ some ((writer, some reply), fail w q ∷ [])
      ]
    ]
  ]

  -- PipelineFinisher, on a query from its inbound channel. A reply that is nil is a panic, in logQuery
  -- at the latest.
  unfoldable pub finish_step : Worker → Query F → Option (Write × Sends F)
  unfolding dispatch
  finish_step w q = elim q.writer [
    | none ↦ none
    | some writer ↦ elim q.reply [
      | none ↦ none
      | some reply ↦ some ((writer, some reply), dispatch w q ∷ [])
    ]
  ]

  -- PipelineConnector, on a query from its adding and from its closing channel.
  module _ (fl : Floats F) (sort_slice : SortSlice (Upstream F)) (config : Configuration) where
    unfoldable pub add_step : Time → ConnPool F → Query F → Option (ConnPool F)
    add_step now p q = elim q.conn [
      | none ↦ none
      | some ce ↦ some (ConnPool.add fl sort_slice config now ce p).0
    ]

    unfoldable pub close_step : Time → ConnPool F → Query F → Option (ConnPool F)
    close_step now p q = elim q.conn [
      | none ↦ none
      | some ce ↦ some (close_connection fl sort_slice config now ce p)
    ]

-- ===== src/Pipeline.antt =====
-- pipeline_server.go: a server whose workers hand a query on over channels. What a worker does with
-- one message is a function: the state afterwards, and the sends that it makes, in their order. A
-- send on a nil channel, `none`, blocks forever.
pub mod Workers
pub mod Assignment
pub mod Crossing
pub mod System
pub mod Clients
pub mod Delivery
pub mod Deadlock
pub mod Lending
pub mod Carried
pub mod Passing
pub mod Loans
use funkyd.Base.{
  ℕ, zero, suc, ◌+◌, ◌-◌, Bool, true, false, Option, none, some, List, [], ◌∷◌, if◌then◌else◌,
}
use funkyd.Base.Int.{ℤ, pos, negsuc}
use funkyd.Base.Text.{Text}
use funkyd.Base.Time.{Time}
use funkyd.Base.Floats.{Floats}
use funkyd.Config.{Configuration}
use funkyd.Dns.{Msg, Heap, Question, empty_msg}
use funkyd.Upstream.{Upstream, is_no_upstream, no_upstream}
use funkyd.ConnEntry.{ConnEntry, Dialled}
use funkyd.ConnPool
use funkyd.ConnPool.{ConnPool, SortSlice, new_connection, close_connection}
use funkyd.Cache
use funkyd.Cache.{Response, RecordCache, GetResult}
use funkyd.Server.{Exchanged, DnsLib, attempt_exchange, first_question, rcode_server_failure}
use funkyd.MutexServer.{query_message}

-- `none` is a nil pointer or a nil interface. A writer is a number.
pub record Query (F : Type 0) : Type 0 where
  pub msg : Option Msg
  pub upstream : Upstream F
  pub conn : Option (ConnEntry F)
  pub connection_retries : ℕ
  pub reply : Option Msg
  pub writer : Option ℕ

-- The channels that NewPipelineServer makes and links, by the worker that receives from them.
pub data Channel : Type 0 where
  cacher_inbound : Channel
  connector_inbound : Channel
  querier_inbound : Channel
  finisher_inbound : Channel
  adding : Channel
  closing : Channel

-- The three channels that a worker sends on.
pub record Worker : Type 0 where
  pub outbound_query_channel : Option Channel
  pub failed_query_channel : Option Channel
  pub servfails_channel : Option Channel

pub record Pipeline : Type 0 where
  pub query_handler : Worker
  pub cacher : Worker
  pub connector : Worker
  pub querier : Worker
  pub finisher : Worker

-- PipelineFinisher's own field servfailsChannel hides the one of its worker, and nothing makes it.
abbrev finisher_servfails_channel : Option Channel
finisher_servfails_channel = none

-- The links that NewPipelineServer sets up.
unfoldable pub new_pipeline : Pipeline
new_pipeline = record {
  query_handler = record {
    outbound_query_channel = some cacher_inbound;
    failed_query_channel = finisher_servfails_channel;
    servfails_channel = finisher_servfails_channel;
  };
  cacher = record {
    outbound_query_channel = some finisher_inbound;
    failed_query_channel = some connector_inbound;
    servfails_channel = finisher_servfails_channel;
  };
  connector = record {
    outbound_query_channel = some querier_inbound;
    failed_query_channel = finisher_servfails_channel;
    servfails_channel = finisher_servfails_channel;
  };
  querier = record {
    outbound_query_channel = some finisher_inbound;
    failed_query_channel = some connector_inbound;
    servfails_channel = finisher_servfails_channel;
  };
  finisher = record {
    outbound_query_channel = some adding;
    failed_query_channel = some closing;
    servfails_channel = none;
  };
}

abbrev pub Sends : Type 0 → Type 0
Sends F = List (Option Channel × Query F)

-- config.UpstreamRetries, or 2
unfoldable pub retry_limit : Configuration → ℕ
retry_limit config = elim config.upstream_retries [
  | pos zero ↦ 2
  | pos (suc n) ↦ suc n
  | negsuc n ↦ 0
]

module _ {F : Type 0} where
  unfoldable pub dispatch : Worker → Query F → Option Channel × Query F
  dispatch w q = (w.outbound_query_channel, q)

  unfoldable pub fail : Worker → Query F → Option Channel × Query F
  fail w q = (w.failed_query_channel, q)

-- The results of AssignConnection: a query, or an error.
pub data Assigned (F : Type 0) : Type 0 where
  assigned : ConnPool F → Query F → Assigned F
  unassigned : ConnPool F → Assigned F

-- What the clock and the network answer to one call of NewConnection.
pub record Dial : Type 0 where
  pub clock : Time
  pub dial : Text → Dialled

module _ {F : Type 0} (fl : Floats F) where
  -- Query{}
  unfoldable pub no_query : Query F
  no_query = record {
    msg = none;
    upstream = no_upstream fl;
    conn = none;
    connection_retries = 0;
    reply = none;
    writer = none;
  }

  module _ (config : Configuration) where
    -- The loop of AssignConnection, with the rounds that are left; `failed` says that err is set.
    unfoldable pub assign_loop :
        Upstream F → (ℕ → Dial) → ℕ → ℕ → Bool → ConnPool F → Query F → ConnEntry F → Assigned F
    assign_loop u dials i zero failed p q ce =
        if failed then unassigned p else assigned p (record q { conn = some ce })
    assign_loop u dials i (suc rounds) failed p q ce =
        let (p', o) = new_connection config (dials i).clock u (dials i).dial p in
        let q' : Query F = record q { connection_retries = q.connection_retries + 1 } in
        let again = assign_loop u dials (i + 1) rounds true p' q' ce in
        elim o [ none ↦ again | some ce' ↦ assigned p' (record q' { conn = some ce' }) ]

    -- `none` is a panic of Get.
    unfoldable pub assign_connection :
        (ℕ → Time) → (ℕ → Dial) → ConnPool F → Query F → Option (Assigned F)
    unfolding assign_loop retry_limit
    assign_connection now dials p q = elim (ConnPool.get fl now p) [
      | none ↦ none
      | some g ↦ some (
          if is_no_upstream fl g.upstream
          then assigned g.pool (record q { conn = some g.ce })
          else assign_loop g.upstream dials 0 (retry_limit config - q.connection_retries) false
              g.pool q g.ce)
    ]

    -- PipelineConnector, on a query from its inbound channel: after a failure it goes on to dispatch
    -- the empty query.
    unfoldable pub connect :
        Worker → (ℕ → Time) → (ℕ → Dial) → ConnPool F → Query F → Option (ConnPool F × Sends F)
    unfolding assign_connection dispatch fail no_query
    connect w now dials p q = elim (assign_connection now dials p q) [
      | none ↦ none
      | some (assigned p' q') ↦ some (p', dispatch w q' ∷ [])
      | some (unassigned p') ↦ some (p', fail w q ∷ dispatch w no_query ∷ [])
    ]

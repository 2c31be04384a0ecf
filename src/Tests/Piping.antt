-- ===== src/Tests/Piping.antt =====
-- Witnesses for the pipeline.
use funkyd.Base.{◌≤◌, ℕ, ◌*◌, ◌≡◌, refl, false, none, some, [], ◌∷◌, arith}
use funkyd.Base.Text.{text_eq}
use funkyd.Base.Time.{second, millisecond}
use funkyd.Base.Map.{lookup}
use funkyd.Dns.{Msg}
use funkyd.Upstream.{is_no_upstream, no_upstream}
use funkyd.ConnEntry.{no_conn_entry, new_entry, add_exchange}
use funkyd.ConnPool
use funkyd.ConnPool.{
  ConnPool, Got, get_best_upstream, best_loop, cool_and_purge_upstream, purge_upstream,
  modify_upstream, get_upstream_by_address,
}
use funkyd.ConnPool.Lifecycle.{start}
use funkyd.Server.{Exchanged}
use funkyd.Pipeline.{Query, Dial, new_pipeline, no_query, retry_limit, connect, querier_inbound}
use funkyd.Pipeline.Workers.{query}
use funkyd.Pipeline.Crossing.{connect-exhausted}
use funkyd.Tests.{mills}
use funkyd.Tests.Pooling.{settings, x, y}
use funkyd.Tests.Serving.{dns, request}

abbrev pub cold : ConnPool ℕ
cold = (start (x ∷ y ∷ [])).pool

abbrev pub asking : Query ℕ
asking = record (no_query mills) { msg = some request; writer = some 4 }

abbrev pub network : ℕ → Dial
network i = record {
  clock = 5 * second;
  dial = λ _. record { conn = some 7; duration = 20 * millisecond };
}

abbrev with_conn : Query ℕ
with_conn = record asking {
  conn = some (add_exchange settings (20 * millisecond) (new_entry 7 x));
  connection_retries = 1;
}

-- A query that has used up its retries.
abbrev tired : Query ℕ
tired = record asking { connection_retries = 2 }

abbrev miss : Got mills
miss = record { pool = cold; ce = no_conn_entry mills; upstream = x }

cold-get : ConnPool.get mills (λ _. 5 * second) cold ≡ some miss
unfolding ConnPool.get get_best_upstream best_loop is_no_upstream no_upstream lookup text_eq
cold-get = refl

named : is_no_upstream mills miss.upstream ≡ false
unfolding is_no_upstream text_eq
named = refl

tired-rounds : retry_limit settings ≤ tired.connection_retries
unfolding retry_limit
tired-rounds = omega arith

abbrev pub silence : Msg → ℕ → Exchanged
silence m c = record { reply = none; rtt = second }

connect-exhausted_example :
    let q' : Query ℕ = record tired { conn = some (no_conn_entry mills) } in
    (connect mills settings new_pipeline.connector (λ _. 5 * second) network cold tired
      ≡ some (cold, (some querier_inbound, q') ∷ []))
    × (query settings dns silence q' ≡ none)
connect-exhausted_example =
    connect-exhausted mills settings dns silence (λ _. 5 * second) network cold tired miss cold-get
      named tired-rounds

-- ===== src/Pipeline/System.antt =====
-- pipeline_server.go: the workers that NewPipelineServer starts, as one system. A channel is not
-- buffered: a send waits until the worker that receives from the channel is idle. Each request has a
-- goroutine of its own, which waits in Dispatch; so has each connection that purgeUpstream closes
-- (connpool.go), which waits for the pool's lock.
use funkyd.Base.{Bool, true, false, ℕ, ◌≡◌, some, List, [], ◌∷◌, ◌++◌}
use funkyd.Base.Int.{ℤ}
use funkyd.Base.Time.{Time}
use funkyd.Base.Floats.{Floats}
use funkyd.Config.{Configuration}
use funkyd.Dns.{Msg, Heap}
use funkyd.Upstream.{Upstream}
use funkyd.ConnEntry.{ConnEntry}
use funkyd.ConnPool.{ConnPool, SortSlice, close_connection}
use funkyd.Cache.{RecordCache}
use funkyd.Server.{Exchanged, DnsLib}
use funkyd.Pipeline.{
  Query, Dial, Channel, cacher_inbound, connector_inbound, querier_inbound, finisher_inbound,
  adding, closing, Sends, new_pipeline, connect,
}
use funkyd.Pipeline.Workers.{
  Write, handle_query, cache_step, query_step, finish_step, add_step, close_step,
}

-- For each goroutine the sends that it has still to make; a worker without one is idle, and one that
-- has been cancelled is stopped. `requests`
-- holds the writers of all requests so far, and `writes` what has been written to them.
pub record System (F : Type 0) : Type 0 where
  pub pool : ConnPool F
  pub heap : Heap
  pub cache : RecordCache
  pub handlers : Sends F
  pub cacher : Sends F
  pub connector : Sends F
  pub querier : Sends F
  pub finisher : Sends F
  pub cacher_stopped : Bool
  pub connector_stopped : Bool
  pub querier_stopped : Bool
  pub requests : List ℕ
  pub writes : List Write

abbrev pub start_system : {F : Type 0} → ConnPool F → Heap → RecordCache → System F
start_system p h c = record {
  pool = p;
  heap = h;
  cache = c;
  handlers = [];
  cacher = [];
  connector = [];
  querier = [];
  finisher = [];
  cacher_stopped = false;
  connector_stopped = false;
  querier_stopped = false;
  requests = [];
  writes = [];
}

-- A goroutine makes its next send, of `q` on `ch`.
pub data Gives {F : Type 0} (s : System F) (ch : Channel) (q : Query F) (t : System F)
    : Type 0 where
  from_handler :
      (xs ys : Sends F)
      → s.handlers ≡ xs ++ (some ch, q) ∷ ys
      → t ≡ record s { handlers = xs ++ ys }
      → Gives s ch q t
  from_cacher :
      (ys : Sends F) → s.cacher ≡ (some ch, q) ∷ ys → t ≡ record s { cacher = ys } → Gives s ch q t
  from_connector :
      (ys : Sends F)
      → s.connector ≡ (some ch, q) ∷ ys
      → t ≡ record s { connector = ys }
      → Gives s ch q t
  from_querier :
      (ys : Sends F)
      → s.querier ≡ (some ch, q) ∷ ys
      → t ≡ record s { querier = ys }
      → Gives s ch q t
  from_finisher :
      (ys : Sends F)
      → s.finisher ≡ (some ch, q) ∷ ys
      → t ≡ record s { finisher = ys }
      → Gives s ch q t

module _ {F : Type 0} (fl : Floats F) (sort_slice : SortSlice (Upstream F)) (config : Configuration)
    (uint32_seconds : ℤ → ℕ) (dns : DnsLib) where
  -- A request arrives, an idle worker receives a query and handles it, or a connection of an upstream
  -- that cools is closed. A panic is no step.
  pub data Step (s t : System F) : Type 0 where
    arrives :
        (request : Msg) (writer : ℕ)
        → t ≡ record s {
          handlers = handle_query fl new_pipeline.query_handler request writer ++ s.handlers;
          requests = writer ∷ s.requests;
        }
        → Step s t
    caches :
        (now : ℕ → Time) (q : Query F) (r : System F)
        → s.cacher ≡ []
        → s.cacher_stopped ≡ false
        → Gives s cacher_inbound q r
        → t ≡ (
            let (h, c, sends) =
              cache_step uint32_seconds dns new_pipeline.cacher now r.heap r.cache q in
            record r { heap = h; cache = c; cacher = sends })
        → Step s t
    connects :
        (now : ℕ → Time) (dials : ℕ → Dial) (q : Query F) (r : System F) (p : ConnPool F)
        (sends : Sends F)
        → s.connector ≡ []
        → s.connector_stopped ≡ false
        → Gives s connector_inbound q r
        → connect fl config new_pipeline.connector now dials r.pool q ≡ some (p, sends)
        → t ≡ record r { pool = p; connector = sends }
        → Step s t
    adds :
        (now : Time) (q : Query F) (r : System F) (p : ConnPool F)
        → s.connector ≡ []
        → s.connector_stopped ≡ false
        → Gives s adding q r
        → add_step fl sort_slice config now r.pool q ≡ some p
        → t ≡ record r { pool = p }
        → Step s t
    closes :
        (now : Time) (q : Query F) (r : System F) (p : ConnPool F)
        → s.connector ≡ []
        → s.connector_stopped ≡ false
        → Gives s closing q r
        → close_step fl sort_slice config now r.pool q ≡ some p
        → t ≡ record r { pool = p }
        → Step s t
    queries :
        (exchange : Msg → ℕ → Exchanged) (q : Query F) (r : System F) (sends : Sends F)
        → s.querier ≡ []
        → s.querier_stopped ≡ false
        → Gives s querier_inbound q r
        → query_step config dns new_pipeline.querier exchange q ≡ some sends
        → t ≡ record r { querier = sends }
        → Step s t
    finishes :
        (q : Query F) (r : System F) (write : Write) (sends : Sends F)
        → s.finisher ≡ []
        → Gives s finisher_inbound q r
        → finish_step new_pipeline.finisher q ≡ some (write, sends)
        → t ≡ record r { finisher = sends; writes = write ∷ r.writes }
        → Step s t
    -- One of the goroutines of purgeUpstream gets the pool's lock.
    purges :
        (now : Time) (xs : List (ConnEntry F)) (ce : ConnEntry F) (ys : List (ConnEntry F))
        → s.pool.closing ≡ xs ++ ce ∷ ys
        → t ≡ record s {
          pool =
              close_connection fl sort_slice config now ce (record s.pool { closing = xs ++ ys });
        }
        → Step s t
    -- An idle worker receives from its cancel channel. The finisher's is given to no one.
    cancels_cacher :
        s.cacher ≡ [] → s.cacher_stopped ≡ false → t ≡ record s { cacher_stopped = true } → Step s t
    cancels_connector :
        s.connector ≡ []
        → s.connector_stopped ≡ false
        → t ≡ record s { connector_stopped = true }
        → Step s t
    cancels_querier :
        s.querier ≡ []
        → s.querier_stopped ≡ false
        → t ≡ record s { querier_stopped = true }
        → Step s t

  pub data Reach (s : System F) : System F → Type 0 where
    here : Reach s s
    next : {t r : System F} → Reach s t → Step t r → Reach s r

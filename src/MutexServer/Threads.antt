-- ===== src/MutexServer/Threads.antt =====
-- mutex_server.go: the goroutines of HandleDNS, between the calls that take a lock. Each call on a
-- cache or on the pool is one step, and so is an exchange; steps of the goroutines, of the janitor
-- and the trashman, and of the goroutines of purgeUpstream follow one another in any order.
pub mod Borrowed
pub mod Rounds
pub mod Alone
pub mod Advances
pub mod Service
pub mod Tended
pub mod Caches
pub mod Replies
pub mod Completion
use funkyd.Base.{
  ℕ, ◌+◌, ◌≡◌, Bool, true, Option, none, some, List, [], ◌∷◌, ◌++◌, ◌==◌, if◌then◌else◌,
}
use funkyd.Base.Int.{ℤ, pos, leb_int}
use funkyd.Base.Text.{Text}
use funkyd.Base.Time.{Time}
use funkyd.Base.Floats.{Floats}
use funkyd.Config.{Configuration}
use funkyd.Dns.{Msg, Question, empty_msg}
use funkyd.Upstream.{Upstream, is_no_upstream}
use funkyd.ConnEntry.{ConnEntry, Dialled, add_error}
use funkyd.ConnPool
use funkyd.ConnPool.{ConnPool, SortSlice, new_connection, close_connection}
use funkyd.Cache
use funkyd.Cache.{Response, RecordCache, clean}
use funkyd.Cache.Crew.{deliver, delivered}
use funkyd.Server.{
  Exchanged, DnsLib, process_results, attempt_exchange, first_question, rcode_server_failure,
}
use funkyd.MutexServer.{query_message}
use funkyd.MutexServer.Handler.{MutexServer}

-- What a goroutine of HandleDNS knows from its start.
pub record Job : Type 0 where
  pub client : ℕ
  pub request : Msg
  pub domain : Text
  pub rrtype : ℕ

-- What a goroutine is about to do. A number is the counter of the loop of RecursiveQuery.
pub data Stage (F : Type 0) : Type 0 where
  looking : Stage F
  hosting : Stage F
  connecting : ℕ → Stage F
  dialling : ℕ → Upstream F → Stage F
  exchanging : ℕ → ConnEntry F → Stage F
  dropping : ℕ → ConnEntry F → Stage F
  returning : ConnEntry F → Msg → Stage F
  storing : Response → Stage F
  replying : Response → Stage F
  refusing : Stage F

pub data Progress (F : Type 0) : Type 0 where
  goes_on : Stage F → Progress F
  writes : Msg → Progress F

-- What the clock and the network answer in one step.
pub record Weather : Type 0 where
  pub clock : ℕ → Time
  pub dial : Text → Dialled
  pub exchange : Msg → ℕ → Exchanged

-- The start of a goroutine: `none` is an index out of range.
unfoldable pub new_job : DnsLib → ℕ → Msg → Option Job
new_job dns client request = elim (first_question (dns.set_reply request)) [
  | none ↦ none
  | some named ↦ elim (first_question request) [
    | none ↦ none
    | some asked ↦
        some
          (record { client = client; request = request; domain = named.name; rrtype = asked.qtype })
  ]
]

module _ {F : Type 0} (fl : Floats F) (sort_slice : SortSlice (Upstream F)) (config : Configuration)
    (uint32_seconds : ℤ → ℕ) (dns : DnsLib) where
  -- One step of a goroutine; `none` is a panic.
  unfoldable pub advance :
      Weather → Job → MutexServer F → Stage F → Option (MutexServer F × Progress F)
  advance w job s looking =
      let g = Cache.get uint32_seconds w.clock s.heap s.cache job.domain job.rrtype in
      some (
        record s { heap = g.heap; cache = g.cache },
        elim g.response [ none ↦ goes_on hosting | some r ↦ goes_on (replying r) ],
      )
  advance w job s hosting =
      let g = Cache.get uint32_seconds w.clock s.heap s.hosted_cache job.domain job.rrtype in
      some (
        record s { heap = g.heap; hosted_cache = g.cache },
        elim g.response [ none ↦ goes_on (connecting 0) | some r ↦ goes_on (replying r) ],
      )
  advance w job s (connecting i) =
      if leb_int (pos i) config.upstream_retries
      then elim (ConnPool.get fl w.clock s.conn_pool) [
        | none ↦ none
        | some g ↦ some (
          record s { conn_pool = g.pool },
          if is_no_upstream fl g.upstream
              then goes_on (exchanging i g.ce)
              else goes_on (dialling i g.upstream),
        )
      ]
      else if i == 0
      then none
      else some (s, goes_on refusing)
  advance w job s (dialling i up) =
      let (p, o) = new_connection config (w.clock 0) up w.dial s.conn_pool in
      some (
        record s { conn_pool = p },
        elim o [ none ↦ goes_on (connecting (i + 1)) | some ce ↦ goes_on (exchanging i ce) ],
      )
  advance w job s (exchanging i ce) =
      elim (attempt_exchange config w.exchange (query_message dns job.domain job.rrtype) ce) [
        | none ↦ none
        | some (ce', some reply) ↦ some (s, goes_on (returning ce' reply))
        | some (ce', none) ↦ some (s, goes_on (dropping i (add_error ce')))
      ]
  advance w job s (dropping i ce) = some (
    record s { conn_pool = close_connection fl sort_slice config (w.clock 0) ce s.conn_pool },
    goes_on (connecting (i + 1)),
  )
  advance w job s (returning ce reply) = some (
    record s { conn_pool = (ConnPool.add fl sort_slice config (w.clock 0) ce s.conn_pool).0 },
    goes_on (storing (process_results (w.clock 1) reply job.domain job.rrtype)),
  )
  advance w job s (storing r) =
      some (record s { cache = Cache.add r s.cache }, goes_on (replying r))
  advance w job s (replying r) =
      some (s, writes (dns.set_rcode (dns.copy r.entry) job.request r.entry.rcode))
  advance w job s refusing =
      some (s, writes (dns.set_rcode empty_msg job.request rcode_server_failure))

-- The goroutines, each with its stage; `received` are the clients of all requests, and `replies` what
-- has been written.
pub record Threads (F : Type 0) : Type 0 where
  pub server : MutexServer F
  pub threads : List (Job × Stage F)
  pub received : List ℕ
  pub replies : List (ℕ × Msg)

abbrev pub start_threads : {F : Type 0} → MutexServer F → Threads F
start_threads s = record { server = s; threads = []; received = []; replies = [] }

module _ {F : Type 0} (fl : Floats F) (sort_slice : SortSlice (Upstream F)) (config : Configuration)
    (u : ℤ → ℕ) (dns : DnsLib) where
  -- The semaphore holds goroutines back before their start, and is not looked at here.
  pub data Turn (t v : Threads F) : Type 0 where
    spawns :
        (client : ℕ) (request : Msg) (job : Job)
        → new_job dns client request ≡ some job
        → v ≡ record t { threads = (job, looking) ∷ t.threads; received = client ∷ t.received }
        → Turn t v
    proceeds :
        (w : Weather) (xs : List (Job × Stage F)) (job : Job) (stage stage' : Stage F)
        (ys : List (Job × Stage F)) (s : MutexServer F)
        → t.threads ≡ xs ++ (job, stage) ∷ ys
        → advance fl sort_slice config u dns w job t.server stage ≡ some (s, goes_on stage')
        → v ≡ record t { server = s; threads = xs ++ (job, stage') ∷ ys }
        → Turn t v
    replies :
        (w : Weather) (xs : List (Job × Stage F)) (job : Job) (stage : Stage F)
        (ys : List (Job × Stage F)) (s : MutexServer F) (reply : Msg)
        → t.threads ≡ xs ++ (job, stage) ∷ ys
        → advance fl sort_slice config u dns w job t.server stage ≡ some (s, writes reply)
        → v ≡ record t { server = s; threads = xs ++ ys; replies = (job.client, reply) ∷ t.replies }
        → Turn t v
    -- A tick of the janitor's timer, and the goroutine of an eviction.
    cleans :
        (now : ℕ → Time)
        → t.server.cache.janitor_running ≡ true
        → v ≡ record t {
          server = record t.server { cache = (clean now t.server.heap t.server.cache).0 };
        }
        → Turn t v
    delivers :
        (xs : List Response) (r : Response) (ys : List Response) (d : RecordCache)
        → t.server.cache.evictions ≡ xs ++ r ∷ ys
        → deliver r (record t.server.cache { evictions = xs ++ ys }) ≡ delivered d
        → v ≡ record t { server = record t.server { cache = d } }
        → Turn t v
    -- A goroutine of purgeUpstream.
    purges :
        (now : Time) (xs : List (ConnEntry F)) (ce : ConnEntry F) (ys : List (ConnEntry F))
        → t.server.conn_pool.closing ≡ xs ++ ce ∷ ys
        → v ≡ record t {
          server = record t.server {
            conn_pool =
                close_connection fl sort_slice config now ce
                  (record t.server.conn_pool { closing = xs ++ ys });
          };
        }
        → Turn t v

  pub data Course (t : Threads F) : Threads F → Type 0 where
    here : Course t t
    next : {v x : Threads F} → Course t v → Turn v x → Course t x

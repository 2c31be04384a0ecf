-- ===== src/Tests/Serving.antt =====
-- Witnesses for the server.
use funkyd.Base.{true, All, none, ℕ, ◌*◌, ◌≡◌, refl, some, [], ◌∷◌, arith}
use funkyd.Base.Text.{text_eq}
use funkyd.Base.Time.{second, millisecond}
use funkyd.Base.Map.{lookup}
use funkyd.Config.{rtt_timeout}
use funkyd.Dns.{Heap, Msg, Question, empty_msg}
use funkyd.Upstream.{is_no_upstream, no_upstream}
use funkyd.ConnEntry.{ConnEntry, add_exchange, new_entry, address_of}
use funkyd.ConnPool
use funkyd.ConnPool.{ConnPool, get, get_best_upstream, best_loop, new_connection}
use funkyd.ConnPool.Lifecycle.{start}
use funkyd.Cache
use funkyd.Cache.{Response, RecordCache, new_cache}
use funkyd.Server.{DnsLib, process_results, attempt_exchange}
use funkyd.MutexServer.{
  Attempt, Environment, recursive_query, run_queries, query_loop, attempt_query, get_connection,
  exchange_on,
}
use funkyd.MutexServer.Handler.{
  new_mutex_server, MutexServer, retrieved, from_cache, from_upstream, wrote, retrieve_records,
  query_upstream, handle_dns, write_reply,
}
use funkyd.MutexServer.Answers.{retrieve_records-again}
use funkyd.ConnPool.Soundness.{IsSound}
use funkyd.MutexServer.Replies.{handle_dns-IsSound}
use funkyd.MutexServer.Startup.{is_name, new_mutex_server-IsSound}
use funkyd.Tests.{insertion_sort-IsSort, mills, insertion_sort, seconds, seconds-IsExact}
use funkyd.Tests.Pooling.{settings, x, y}

abbrev pub asked : Question
asked = record { name = b'a' ∷ b'.' ∷ []; qtype = 1 }

abbrev pub dns : DnsLib
dns = record {
  set_question = λ n t. record empty_msg { question = record { name = n; qtype = t } ∷ [] };
  set_reply = λ m. record empty_msg { question = m.question };
  copy = λ m. m;
  set_rcode = λ m request code. record m { rcode = code; question = request.question };
}

abbrev pub request : Msg
request = record empty_msg { question = asked ∷ [] }

abbrev pub answer : Msg
answer = record empty_msg { question = asked ∷ []; answer = 1 ∷ [] }

-- One record, of a TTL of ten seconds.
abbrev pub heap : Heap
heap p = record { name = b'a' ∷ b'.' ∷ []; rrtype = 1; ttl = 10; rdata = [] }

-- A network that answers, at 100 s and later.
abbrev pub attempt : Attempt
attempt = record {
  get_clock = λ _. 100 * second;
  dial_clock = 100 * second;
  dial = λ _. record { conn = some 7; duration = 20 * millisecond };
  exchange = λ m c. record { reply = some answer; rtt = 30 * millisecond };
  close_clock = 100 * second;
}

abbrev pub env : Environment
env = record {
  cache_clock = λ _. 100 * second;
  hosted_clock = λ _. 100 * second;
  attempt = λ _. attempt;
  add_clock = 100 * second;
  reply_clock = 100 * second;
}

abbrev later : Environment
later = record env { cache_clock = λ _. 103 * second }

abbrev pub server : MutexServer ℕ
server = record {
  heap = heap;
  cache = new_cache;
  hosted_cache = new_cache;
  conn_pool = (start (x ∷ y ∷ [])).pool;
}

abbrev used : ConnEntry ℕ
used =
    add_exchange settings (30 * millisecond)
      (add_exchange settings (20 * millisecond) (new_entry 7 x))

abbrev resolved_response : Response
resolved_response = process_results (100 * second) answer asked.name 1

abbrev pub afterwards : MutexServer ℕ
afterwards = record server {
  cache = Cache.add resolved_response new_cache;
  conn_pool = (ConnPool.add mills insertion_sort settings (100 * second) used server.conn_pool).0;
}

server-retrieves :
    retrieve_records mills insertion_sort settings seconds dns env server asked.name 1
    ≡ retrieved afterwards resolved_response (from_upstream (address_of used))
unfolding retrieve_records query_upstream recursive_query run_queries query_loop attempt_query
    get_connection exchange_on attempt_exchange get get_best_upstream best_loop is_no_upstream
    no_upstream new_connection lookup text_eq Cache.get new_cache new_entry add_exchange rtt_timeout
server-retrieves = refl

pub server-handles :
    handle_dns mills insertion_sort settings seconds dns env server request
    ≡ wrote afterwards answer
unfolding handle_dns write_reply process_results
server-handles = rw server-retrieves refl

-- Three seconds later.
retrieve_records-again_example :
    (s : MutexServer ℕ) × (retrieve_records mills insertion_sort settings seconds dns later
        afterwards asked.name 1
      ≡ retrieved s resolved_response from_cache)
    × (s.conn_pool ≡ afterwards.conn_pool)
unfolding process_results
retrieve_records-again_example =
    retrieve_records-again mills insertion_sort settings seconds dns env later server afterwards
      asked.name 1 resolved_response (address_of used) (103 * second) server-retrieves
      seconds-IsExact (omega arith) (tt, tt) (omega arith, tt) (omega arith, tt) refl

abbrev new_server : MutexServer ℕ
new_server = new_mutex_server 0 settings heap

pub settings-names : All (λ n. is_name n ≡ true) settings.upstreams
unfolding text_eq
settings-names = (refl, (refl, tt))

new_server-IsSound : IsSound new_server.conn_pool
new_server-IsSound = new_mutex_server-IsSound 0 settings heap settings-names refl

-- A network in which every dial fails.
abbrev pub offline : Environment
offline = record env {
  attempt = λ _. record attempt { dial = λ _. record { conn = none; duration = second } };
}

handle_dns-IsSound_example :
    (s : MutexServer ℕ) × (reply : Msg) × (handle_dns mills insertion_sort settings seconds dns
        offline new_server request
      ≡ wrote s reply)
    × IsSound s.conn_pool
handle_dns-IsSound_example =
    handle_dns-IsSound mills insertion_sort insertion_sort-IsSort settings 2 refl dns seconds
      offline new_server request asked asked refl refl new_server-IsSound

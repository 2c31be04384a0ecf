-- ===== src/Tests/Threading.antt =====
-- Witnesses for the goroutines of HandleDNS.
use funkyd.Base.{ℕ, ◌*◌, ◌≡◌, refl, some, [], ◌∷◌}
use funkyd.Base.Time.{second, millisecond}
use funkyd.Base.{Option}
use funkyd.Base.Text.{text_eq}
use funkyd.Base.Map.{lookup}
use funkyd.Config.{rtt_timeout}
use funkyd.Upstream.{is_no_upstream, no_upstream}
use funkyd.ConnEntry.{ConnEntry, add_exchange, new_entry}
use funkyd.ConnPool.{ConnPool, get, get_best_upstream, best_loop, new_connection}
use funkyd.ConnPool.Soundness.{IsSound}
use funkyd.Cache
use funkyd.MutexServer.Handler.{MutexServer}
use funkyd.MutexServer.Threads.{
  Job, new_job, looking, hosting, connecting, dialling, exchanging, Weather, advance, Threads,
  start_threads, spawns, proceeds, Course, here, next, Progress,
}
use mathlib.Core.List.{Perm}
use funkyd.Base.{◌++◌, ◌+◌, ◌<◌, ◌≤◌}
use funkyd.ConnPool.Lifecycle
use funkyd.MutexServer.Handler.{handle_dns}
use funkyd.MutexServer.Threads.Alone.{handle_dns-Finishes}
use funkyd.MutexServer.Threads.Rounds.{Finishes}
use funkyd.MutexServer.Threads.Advances.{left_after, steps_left}
use funkyd.MutexServer.Threads.Service.{work, turns, Course-advance, Course-turns}
use funkyd.MutexServer.Threads.Completion.{Meets, Course-completes}
use funkyd.MutexServer.Threads.Replies.{waiting, replied}
use funkyd.Tests.{mills, insertion_sort, insertion_sort-IsSort, seconds}
use funkyd.Tests.Pooling.{settings, x}
use funkyd.Tests.Serving.{asked, dns, request, attempt, env, server}

abbrev pub job : Job
job = record { client = 1; request = request; domain = asked.name; rrtype = 1 }

abbrev pub fair : Weather
fair = record { clock = attempt.get_clock; dial = attempt.dial; exchange = attempt.exchange }

spawned :
    Course mills insertion_sort settings seconds dns
      (start_threads server)
      (record { server = server; threads = (job, looking) ∷ []; received = 1 ∷ []; replies = [] })
unfolding new_job
spawned = next here (spawns 1 request job refl refl)

-- A goroutine that has missed both caches, and then dials the first upstream.
abbrev connects : Threads ℕ
connects = record {
  server = server;
  threads = (job, connecting 0) ∷ [];
  received = 1 ∷ [];
  replies = [];
}

connects-Course : Course mills insertion_sort settings seconds dns (start_threads server) connects
unfolding advance Cache.get Cache.new_cache lookup
connects-Course =
    next (next spawned (proceeds fair [] job looking hosting [] server refl refl refl))
      (proceeds fair [] job hosting (connecting 0) [] server refl refl refl)

abbrev dialled : ConnPool ℕ × Option (ConnEntry ℕ)
dialled = new_connection settings (100 * second) x attempt.dial server.conn_pool

abbrev asks : Threads ℕ
asks = record {
  server = record server { conn_pool = dialled.0 };
  threads = (job, exchanging 0 (add_exchange settings (20 * millisecond) (new_entry 7 x))) ∷ [];
  received = 1 ∷ [];
  replies = [];
}

asks-Course : Course mills insertion_sort settings seconds dns (start_threads server) asks
unfolding advance get get_best_upstream best_loop is_no_upstream no_upstream new_connection lookup
    text_eq new_entry add_exchange rtt_timeout
asks-Course =
    next
      (next connects-Course
        (proceeds fair [] job (connecting 0) (dialling 0 x) [] server refl refl refl))
      (proceeds fair [] job (dialling 0 x)
        (exchanging 0 (add_exchange settings (20 * millisecond) (new_entry 7 x))) [] asks.server
        refl refl refl)

server-IsSound : IsSound server.conn_pool
unfolding text_eq is_no_upstream
server-IsSound = record { named = ((refl, (refl, tt)), refl); connected = tt }

handle_dns-Finishes_example :
    Finishes mills insertion_sort settings seconds dns env job
      (handle_dns mills insertion_sort settings seconds dns env server request)
      server
      looking
unfolding new_job
handle_dns-Finishes_example =
    handle_dns-Finishes mills insertion_sort settings seconds dns env 1 request job server refl

Course-advance_example :
    (o : MutexServer ℕ × Progress ℕ) × (advance mills insertion_sort settings seconds dns fair job
        asks.server
        (exchanging 0 (add_exchange settings (20 * millisecond) (new_entry 7 x)))
      ≡ some o)
    × IsSound o.0.conn_pool
    × (left_after 2 o.1
        < steps_left {F = ℕ} 2
            (exchanging 0 (add_exchange settings (20 * millisecond) (new_entry 7 x))))
Course-advance_example =
    Course-advance mills insertion_sort insertion_sort-IsSort settings 2 refl seconds dns server
      asks fair [] job (exchanging 0 (add_exchange settings (20 * millisecond) (new_entry 7 x))) []
      server-IsSound asks-Course refl

Course-turns_example :
    (turns mills insertion_sort settings seconds dns asks-Course + work 2 asks.threads ≤ 18 * 1)
    × Perm (waiting asks.threads ++ replied asks) (1 ∷ [])
Course-turns_example =
    Course-turns mills insertion_sort insertion_sort-IsSort settings 2 refl seconds dns server asks
      server-IsSound asks-Course

Course-completes_example :
    (v : Threads ℕ) × (onward : Course mills insertion_sort settings seconds dns asks v) × Meets
      mills insertion_sort settings seconds dns
      (λ t. fair)
      onward
    × (v.threads ≡ [])
    × (v.received ≡ 1 ∷ [])
    × Perm (replied v) (1 ∷ [])
Course-completes_example =
    Course-completes mills insertion_sort insertion_sort-IsSort settings 2 refl seconds dns
      (λ t. fair) server server-IsSound asks asks-Course

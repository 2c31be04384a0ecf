-- ===== src/MutexServer/Concurrency.antt =====
-- mutex_server.go: HandleDNS for many requests. Each waits for the semaphore and then runs in a
-- goroutine of its own, which gives the semaphore back when it ends, after an answer or a failure.
use funkyd.Base.{ℕ, suc, ◌≤◌, ◌≡◌, Option, some, List, [], ◌∷◌, ◌++◌, if◌then◌else◌}
use funkyd.Base.Int.{ℤ, pos, is_zero}
use funkyd.Base.Floats.{Floats}
use funkyd.Config.{Configuration}
use funkyd.Dns.{Msg, Question}
use funkyd.Upstream.{Upstream}
use funkyd.ConnPool.{SortSlice}
use funkyd.Server.{DnsLib, first_question}
use funkyd.MutexServer.{Environment}
use funkyd.MutexServer.Handler.{MutexServer, wrote, handle_dns}

-- golang.org/x/sync/semaphore: a weighted semaphore, by Acquire and Release of weight 1. An Acquire
-- that has to wait is `none`.
pub record Semaphore (S : Type 0) : Type 0 where
  pub new_weighted : ℤ → S
  pub acquire : S → Option S
  pub release : S → S

-- Its documented behaviour: at most the size is held, an Acquire does not wait while less is held, and
-- what is released is not held any more.
pub record IsSemaphore {S : Type 0} (sem : Semaphore S) : Type 0 where
  pub size : S → ℤ
  pub held : S → ℕ
  pub new_size : (n : ℤ) → size (sem.new_weighted n) ≡ n
  pub new_held : (n : ℤ) → held (sem.new_weighted n) ≡ 0
  pub acquire_size : (s s' : S) → sem.acquire s ≡ some s' → size s' ≡ size s
  pub acquire_held : (s s' : S) → sem.acquire s ≡ some s' → held s' ≡ suc (held s)
  pub acquire_fits :
      (s s' : S) → sem.acquire s ≡ some s' → (n : ℕ) × (size s ≡ pos n) × (suc (held s) ≤ n)
  pub acquire_free :
      (s : S) (n : ℕ) → size s ≡ pos n → suc (held s) ≤ n → (s' : S) × (sem.acquire s ≡ some s')
  pub release_size : (s : S) → size (sem.release s) ≡ size s
  pub release_held : (s : S) (n : ℕ) → held s ≡ suc n → held (sem.release s) ≡ n

-- int64(config.ConcurrentQueries), or the number of processors that Go uses.
unfoldable pub concurrency : ℕ → Configuration → ℤ
concurrency max_procs config =
    if is_zero config.concurrent_queries then pos max_procs else config.concurrent_queries

-- A request, by the client that it comes from.
abbrev pub Request : Type 0
Request = ℕ × Msg

-- `queued` are the calls of HandleDNS that wait, `running` the goroutines; `received` are all
-- requests so far and `replies` what has been written, each to its client.
pub record Front (F S : Type 0) : Type 0 where
  pub server : MutexServer F
  pub sem : S
  pub queued : List Request
  pub running : List Request
  pub received : List Request
  pub replies : List Request

module _ {F S : Type 0} (sem : Semaphore S) where
  unfoldable pub new_front : ℕ → Configuration → MutexServer F → Front F S
  unfolding concurrency
  new_front max_procs config server = record {
    server = server;
    sem = sem.new_weighted (concurrency max_procs config);
    queued = [];
    running = [];
    received = [];
    replies = [];
  }

  -- The three points at which HandleDNS is seen by other queries; a panic, as on a reply without a
  -- question before the semaphore, is no step. What a query does to the caches and the pool is one
  -- step, `ends`; the pool's own interleavings are in ConnPool/Lifecycle.
  pub data Serves (fl : Floats F) (sort_slice : SortSlice (Upstream F)) (config : Configuration)
      (u : ℤ → ℕ) (dns : DnsLib) (f g : Front F S) : Type 0 where
    receives :
        (r : Request) (named : Question)
        → first_question (dns.set_reply r.1) ≡ some named
        → g ≡ record f { queued = r ∷ f.queued; received = r ∷ f.received }
        → Serves fl sort_slice config u dns f g
    acquires :
        (xs : List Request) (r : Request) (ys : List Request) (s : S)
        → f.queued ≡ xs ++ r ∷ ys
        → sem.acquire f.sem ≡ some s
        → g ≡ record f { sem = s; queued = xs ++ ys; running = r ∷ f.running }
        → Serves fl sort_slice config u dns f g
    ends :
        (env : Environment) (xs : List Request) (r : Request) (ys : List Request)
        (server : MutexServer F) (reply : Msg)
        → f.running ≡ xs ++ r ∷ ys
        → handle_dns fl sort_slice config u dns env f.server r.1 ≡ wrote server reply
        → g ≡ record f {
          server = server;
          sem = sem.release f.sem;
          running = xs ++ ys;
          replies = (r.0, reply) ∷ f.replies;
        }
        → Serves fl sort_slice config u dns f g

  pub data Run (fl : Floats F) (sort_slice : SortSlice (Upstream F)) (config : Configuration)
      (u : ℤ → ℕ) (dns : DnsLib) (f : Front F S) : Front F S → Type 0 where
    here : Run fl sort_slice config u dns f f
    next :
        {g h : Front F S}
        → Run fl sort_slice config u dns f g
        → Serves fl sort_slice config u dns g h
        → Run fl sort_slice config u dns f h

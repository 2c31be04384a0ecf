-- ===== src/Tests/Crowding.antt =====
-- Witnesses for many requests at a time: a semaphore, and two requests.
use mathlib.Core.List.{Perm, map}
use funkyd.Base.{
  ℕ, zero, suc, ◌≤◌, ◌≡◌, refl, ap, ◌⊎◌, Option, none, some, [], ◌∷◌, ◌++◌, leb, arith, length,
  if◌then◌else◌,
}
use funkyd.Base.Int.{ℤ, pos, negsuc}
use funkyd.MutexServer.Concurrency.{
  Semaphore, IsSemaphore, concurrency, Request, Front, new_front, receives, acquires, ends, Run,
  here, next,
}
use funkyd.MutexServer.Capacity.{Run-length}
use funkyd.Tests.{insertion_sort-IsSort, mills, insertion_sort, seconds}
use funkyd.Tests.Pooling.{settings}
use funkyd.Cache.{new_cache}
use funkyd.MutexServer.Handler.{MutexServer, new_mutex_server}
use funkyd.MutexServer.Runs.{Meets}
use funkyd.MutexServer.Service.{Run-completes}
use funkyd.Tests.Serving.{
  asked, heap, offline, settings-names, dns, request, answer, env, server, afterwards,
  server-handles,
}

-- The size, and how often it is held.
unfoldable acquire : ℤ × ℕ → Option (ℤ × ℕ)
acquire (pos n, k) = if leb (suc k) n then some (pos n, suc k) else none
acquire (negsuc n, k) = none

unfoldable release : ℤ × ℕ → ℤ × ℕ
release (n, zero) = (n, zero)
release (n, suc k) = (n, k)

abbrev semaphore : Semaphore (ℤ × ℕ)
semaphore = record { new_weighted = λ n. (n, 0); acquire = acquire; release = release }

acquired :
    (s s' : ℤ × ℕ)
    → acquire s ≡ some s'
    → (n : ℕ) × (s.0 ≡ pos n) × (suc s.1 ≤ n) × (s' ≡ (s.0, suc s.1))
unfolding acquire
acquired (pos n, k) s' e = (n, refl, ground arith, ground arith)
acquired (negsuc n, k) s' e = ground arith

free : (s : ℤ × ℕ) (n : ℕ) → s.0 ≡ pos n → suc s.1 ≤ n → (s' : ℤ × ℕ) × (acquire s ≡ some s')
unfolding acquire
free (pos m, k) n e room = ((pos m, suc k), ground arith)
free (negsuc m, k) n e room = ground arith

release_size : (s : ℤ × ℕ) → (release s).0 ≡ s.0
unfolding release
release_size (z, zero) = refl
release_size (z, suc k) = refl

release_held : (s : ℤ × ℕ) (n : ℕ) → s.1 ≡ suc n → (release s).1 ≡ n
unfolding release
release_held (z, zero) n e = ground arith
release_held (z, suc k) n e = ground arith

semaphore-IsSemaphore : IsSemaphore semaphore
semaphore-IsSemaphore = record {
  size = λ s. s.0;
  held = λ s. s.1;
  new_size = λ n. refl;
  new_held = λ n. refl;
  acquire_size = λ s s' e. let (n, z, room, k) = acquired s s' e in ap (λ (p : ℤ × ℕ). p.0) k;
  acquire_held = λ s s' e. let (n, z, room, k) = acquired s s' e in ap (λ (p : ℤ × ℕ). p.1) k;
  acquire_fits = λ s s' e. let (n, z, room, k) = acquired s s' e in (n, z, room);
  acquire_free = free;
  release_size = release_size;
  release_held = release_held;
}

abbrev Runs : Front ℕ (ℤ × ℕ) → Front ℕ (ℤ × ℕ) → Type 0
Runs = Run semaphore mills insertion_sort settings seconds dns

abbrev idle : MutexServer ℕ → Front ℕ (ℤ × ℕ)
idle s = new_front semaphore 4 settings s

abbrev full : MutexServer ℕ → Front ℕ (ℤ × ℕ)
full s = record (idle s) {
  sem = (pos 2, 2);
  queued = (3, request) ∷ [];
  running = (2, request) ∷ (1, request) ∷ [];
  received = (3, request) ∷ (2, request) ∷ (1, request) ∷ [];
}

-- Two requests run, a third waits.
full-Runs : (s : MutexServer ℕ) → Runs (idle s) (full s)
unfolding new_front concurrency acquire
full-Runs s =
    next
      (next
        (next
          (next (next here (receives (1, request) asked refl refl))
            (acquires [] (1, request) [] _ refl refl refl))
          (receives (2, request) asked refl refl))
        (acquires [] (2, request) [] _ refl refl refl))
      (receives (3, request) asked refl refl)

abbrev answered_first : Front ℕ (ℤ × ℕ)
answered_first = record (full server) {
  server = afterwards;
  sem = (pos 2, 1);
  running = (2, request) ∷ [];
  replies = (1, answer) ∷ [];
}

answered_first-Runs : Runs (idle server) answered_first
unfolding release new_front
answered_first-Runs =
    next (full-Runs server)
      (ends env ((2, request) ∷ []) (1, request) [] afterwards answer refl server-handles refl)

Run-length_example :
    ((length answered_first.running ≡ 0)
      ⊎ ((n : ℕ) × (concurrency 4 settings ≡ pos n) × (length answered_first.running ≤ n)))
    × Perm
        (map
          (λ (r : Request). r.0)
          (answered_first.queued ++ (answered_first.running ++ answered_first.replies)))
        (map (λ (r : Request). r.0) answered_first.received)
Run-length_example =
    Run-length semaphore semaphore-IsSemaphore mills insertion_sort settings seconds dns 4 server
      answered_first answered_first-Runs

-- Two requests run and a third waits in the server that NewMutexServer builds, which can reach no
-- upstream.
abbrev started : MutexServer ℕ
started = record (new_mutex_server 0 settings heap) { hosted_cache = new_cache }

limit : concurrency 4 settings ≡ pos 2
unfolding concurrency
limit = refl

Run-completes_example :
    (g : Front ℕ (ℤ × ℕ)) × (run : Runs (full started) g) × Meets semaphore mills insertion_sort
      settings seconds dns
      (λ f. offline)
      run
    × (g.queued ≡ [])
    × (g.running ≡ [])
    × (g.received ≡ (full started).received)
    × Perm (map (λ (r : Request). r.0) g.replies) (map (λ (r : Request). r.0) g.received)
Run-completes_example =
    Run-completes semaphore semaphore-IsSemaphore mills insertion_sort insertion_sort-IsSort
      settings 2 refl seconds dns (λ m q e. (q, e)) 1 (λ f. offline) 0 heap new_cache 4
      (full started) settings-names refl limit (full-Runs started) ((asked, refl), tt)
      ((asked, refl), ((asked, refl), tt))

-- ===== src/MutexServer/Threads/Completion.antt =====
-- How the goroutines come to their ends.
use mathlib.Core.List.{Perm}
use funkyd.Base.{
  ℕ, zero, suc, ◌≤◌, ◌<◌, ◌≡◌, refl, ap, ◌∙◌, ◌⊎◌, inl, inr, some, List, [], ◌∷◌, arith,
}
use funkyd.Base.Int.{ℤ, pos}
use funkyd.Base.Floats.{Floats}
use funkyd.Config.{Configuration}
use funkyd.Dns.{Msg}
use funkyd.Upstream.{Upstream}
use funkyd.ConnPool.{SortSlice}
use funkyd.ConnPool.Sorting.{IsSort}
use funkyd.ConnPool.Soundness.{IsSound}
use funkyd.Server.{DnsLib}
use funkyd.MutexServer.Handler.{MutexServer}
use funkyd.MutexServer.Threads.{
  Job, Stage, Progress, goes_on, writes, Weather, Threads, start_threads, spawns, proceeds, cleans,
  delivers, purges, replies, Course, here, next,
}
use funkyd.MutexServer.Threads.Advances.{steps_left}
use funkyd.MutexServer.Threads.Service.{work, Course-advance}
use funkyd.MutexServer.Threads.Replies.{replied, Course-received}

Progress-cases :
    {F : Type 0} (p : Progress F)
    → ((stage : Stage F) × (p ≡ goes_on stage)) ⊎ ((reply : Msg) × (p ≡ writes reply))
Progress-cases (goes_on stage) = inl (stage, refl)
Progress-cases (writes reply) = inr (reply, refl)

module _ {F : Type 0} (fl : Floats F) (sort_slice : SortSlice (Upstream F)) (config : Configuration)
    (u : ℤ → ℕ) (dns : DnsLib) (weather : Threads F → Weather) where
  -- The clock and the network answer the goroutines as they do in the state at hand.
  abbrev pub Meets : {t v : Threads F} → Course fl sort_slice config u dns t v → Type 0
  Meets here = Unit
  Meets (next c (spawns client request job e k)) = Meets c
  Meets (next {v = x} c (proceeds w xs job stage stage' ys s e went k)) = Meets c × (w ≡ weather x)
  Meets (next {v = x} c (replies w xs job stage ys s reply e went k)) = Meets c × (w ≡ weather x)
  Meets (next c (cleans now runs k)) = Meets c
  Meets (next c (delivers xs r ys d e went k)) = Meets c
  Meets (next c (purges now xs ce ys e k)) = Meets c

module _ {F : Type 0} (fl : Floats F) (sort_slice : SortSlice (Upstream F))
    (sort : IsSort fl sort_slice) (config : Configuration) (n : ℕ)
    (counted : config.upstream_retries ≡ pos n) (u : ℤ → ℕ) (dns : DnsLib)
    (weather : Threads F → Weather) (s : MutexServer F) (sound : IsSound s.conn_pool) where
  -- A state that is reached from `here_on`, and from the start, in which no goroutine is left.
  record Completes (here_on : Threads F) (received : List ℕ) : Type 0 where
    end : Threads F
    course : Course fl sort_slice config u dns (start_threads s) end
    onward : Course fl sort_slice config u dns here_on end
    meets : Meets fl sort_slice config u dns weather onward
    idle : end.threads ≡ []
    same : end.received ≡ received

  completes :
      (k : ℕ) (origin t : Threads F) (threads : List (Job × Stage F))
      → t.threads ≡ threads
      → work n threads ≤ k
      → Course fl sort_slice config u dns (start_threads s) t
      → (d : Course fl sort_slice config u dns origin t)
      → Meets fl sort_slice config u dns weather d
      → Completes origin t.received
  completes k origin t [] e enough c d m = record {
    end = t;
    course = c;
    onward = d;
    meets = m;
    idle = e;
    same = refl;
  }
  completes zero origin t ((job, stage) ∷ ys) e enough c d m =
      let (o, comes, kept, less) =
        Course-advance fl sort_slice sort config n counted u dns s t (weather t) [] job stage ys
          sound c e in
      absurd (omega (arith, less))
  completes (suc k) origin t ((job, stage) ∷ ys) e enough c d m =
      let (o, comes, kept, less) =
        Course-advance fl sort_slice sort config n counted u dns s t (weather t) [] job stage ys
          sound c e in
      elim (Progress-cases o.1) [
        | inl (stage', on) ↦
            let fewer : steps_left n stage' < steps_left n stage = rw on at less in
            let step =
              proceeds (weather t) [] job stage stage' ys o.0 e (comes ∙ ap (λ p. some (o.0, p)) on)
                refl in
            completes k origin (record t { server = o.0; threads = (job, stage') ∷ ys })
              ((job, stage') ∷ ys) refl (omega (arith, fewer)) (next c step) (next d step) (m, refl)
        | inr (reply, done) ↦
            let step =
              replies (weather t) [] job stage ys o.0 reply e (comes ∙ ap (λ p. some (o.0, p)) done)
                refl in
            completes k origin
              (record t { server = o.0; threads = ys; replies = (job.client, reply) ∷ t.replies })
              ys refl (omega (arith, less)) (next c step) (next d step) (m, refl)
      ]

  -- Where sort.Slice sorts, the number of retries is not negative, and the pool that the server
  -- starts with has an upstream, names for all upstreams and no entry without a connection,
  -- whatever the network and the clock answer in each state: from each state that is reached the
  -- goroutines can go on, under these answers, to a state in which none is left, no further request
  -- has come, and the clients that have a reply are the clients of all requests, each as often as
  -- it has asked.
  pub Course-completes :
      (t : Threads F)
      → Course fl sort_slice config u dns (start_threads s) t
      → (v : Threads F) × (onward : Course fl sort_slice config u dns t v) × Meets fl sort_slice
          config u dns weather onward
        × (v.threads ≡ [])
        × (v.received ≡ t.received)
        × Perm (replied v) t.received
  Course-completes t c =
      let done = completes (work n t.threads) t t t.threads refl (omega arith) c here tt in
      let all = Course-received fl sort_slice config u dns s done.end done.course in
      (done.end, done.onward, done.meets, done.idle, done.same, rw (done.idle, done.same) at all)

-- ===== src/MutexServer/Threads/Service.antt =====
-- The steps of all goroutines together, and what they have left to do.
use mathlib.Core.List.{Perm}
use mathlib.Core.List.Perm
use mathlib.Core.Option.{some-injective}
use native.Mathlib.Nat.{mul-suc}
use funkyd.Base.{
  ℕ, ◌+◌, ◌*◌, ◌<◌, ◌≤◌, ◌≡◌, refl, sym, subst, ap, ◌∙◌, some, List, [], ◌∷◌, ◌++◌, arith, All,
  All-middle, All_insert, length,
}
use funkyd.Base.Int.{ℤ, pos}
use funkyd.Base.Perms.{All-perm}
use funkyd.Base.Time.{Time}
use funkyd.Base.Floats.{Floats}
use funkyd.Config.{Configuration}
use funkyd.Dns.{Msg}
use funkyd.Upstream.{Upstream}
use funkyd.ConnEntry.{ConnEntry}
use funkyd.ConnPool.{ConnPool, SortSlice, close_connection}
use funkyd.ConnPool.Sorting.{IsSort}
use funkyd.ConnPool.Ownership.{held-close_connection}
use funkyd.ConnPool.Accounting.{closing-held}
use funkyd.ConnPool.Soundness.{IsSound, has_conn, close_connection-IsSound}
use funkyd.Server.{DnsLib}
use funkyd.MutexServer.Handler.{MutexServer}
use funkyd.MutexServer.Threads.{
  Job, Stage, looking, Progress, goes_on, writes, Weather, advance, Threads, start_threads, spawns,
  proceeds, replies, cleans, delivers, purges, Course, here, next,
}
use funkyd.MutexServer.Threads.Advances.{
  Fits, FitsAfter, left_after, steps_left, Advances, advance-Advances,
}
use funkyd.MutexServer.Threads.Replies.{waiting, replied, Course-received}

purge-IsSound :
    {F : Type 0} (fl : Floats F) (sort_slice : SortSlice (Upstream F)) (sort : IsSort fl sort_slice)
    (config : Configuration) (now : Time) (p : ConnPool F) (xs : List (ConnEntry F))
    (ce : ConnEntry F) (ys : List (ConnEntry F))
    → p.closing ≡ xs ++ ce ∷ ys
    → IsSound p
    → IsSound (close_connection fl sort_slice config now ce (record p { closing = xs ++ ys }))
purge-IsSound fl sort_slice sort config now p xs ce ys e s =
    let p' : ConnPool _ = record p { closing = xs ++ ys } in
    let moved =
      Perm.trans (Perm.symm (closing-held fl sort_slice config now xs ce ys p e))
        (held-close_connection fl sort_slice config now ce p') in
    let (has, others) = All-perm has_conn moved s.connected in
    close_connection-IsSound fl sort_slice sort config now ce p' has
      (record { named = s.named; connected = others })

module _ {F : Type 0} (n : ℕ) where
  -- The steps that all goroutines together have left to make, at most.
  abbrev pub work : List (Job × Stage F) → ℕ
  work [] = 0
  work ((job, stage) ∷ ts) = steps_left n stage + work ts

  work-append_cons :
      (xs : List (Job × Stage F)) (job : Job) (stage : Stage F) (ys : List (Job × Stage F))
      → work (xs ++ (job, stage) ∷ ys) ≡ steps_left n stage + work (xs ++ ys)
  work-append_cons [] job stage ys = refl
  work-append_cons ((j, s) ∷ xs) job stage ys = omega (arith, work-append_cons xs job stage ys)

module _ {F : Type 0} (fl : Floats F) (sort_slice : SortSlice (Upstream F)) (config : Configuration)
    (u : ℤ → ℕ) (dns : DnsLib) where
  -- The steps that goroutines of HandleDNS make in a course.
  abbrev pub turns : {t v : Threads F} → Course fl sort_slice config u dns t v → ℕ
  turns here = 0
  turns (next c (spawns client request job e k)) = turns c
  turns (next c (proceeds w xs job stage stage' ys s e went k)) = turns c + 1
  turns (next c (replies w xs job stage ys s reply e went k)) = turns c + 1
  turns (next c (cleans now runs k)) = turns c
  turns (next c (delivers xs r ys d e went k)) = turns c
  turns (next c (purges now xs ce ys e k)) = turns c

module _ {F : Type 0} (fl : Floats F) (sort_slice : SortSlice (Upstream F))
    (sort : IsSort fl sort_slice) (config : Configuration) (n : ℕ)
    (counted : config.upstream_retries ≡ pos n) (u : ℤ → ℕ) (dns : DnsLib) where
  record IsReady (t : Threads F) : Type 0 where
    pub sound : IsSound t.server.conn_pool
    pub fits : All (λ (th : Job × Stage F). Fits n th.1) t.threads

  -- What the step that a goroutine has made leaves.
  went_on :
      (w : Weather) (t : Threads F) (xs : List (Job × Stage F)) (job : Job) (stage : Stage F)
      (ys : List (Job × Stage F)) (o : MutexServer F × Progress F)
      → t.threads ≡ xs ++ (job, stage) ∷ ys
      → IsReady t
      → advance fl sort_slice config u dns w job t.server stage ≡ some o
      → (a : Advances fl sort_slice sort config n counted u dns w job t.server stage) × (a.result
          ≡ o)
        × All (λ (th : Job × Stage F). Fits n th.1) (xs ++ ys)
  went_on w t xs job stage ys o e v went =
      let (fits, others) =
        All-middle (λ (th : Job × Stage F). Fits n th.1) xs (job, stage) ys
          (subst (All (λ (th : Job × Stage F). Fits n th.1)) e v.fits) in
      let a =
        advance-Advances fl sort_slice sort config n counted u dns w job t.server v.sound stage
          fits in
      (a, some-injective _ _ (sym a.comes ∙ went), others)

  -- The steps that so many requests take, at most.
  abbrev budget : List ℕ → ℕ
  budget [] = 0
  budget (client ∷ clients) = steps_left {F = F} n looking + budget clients

  -- A turn that makes `k` steps.
  record Costs (t v : Threads F) (k : ℕ) : Type 0 where
    pub ready : IsReady v
    pub spent : k + work n v.threads + budget t.received ≤ work n t.threads + budget v.received

  proceeds-Costs :
      (w : Weather) (t : Threads F) (xs : List (Job × Stage F)) (job : Job) (stage stage' : Stage F)
      (ys : List (Job × Stage F)) (s : MutexServer F)
      → t.threads ≡ xs ++ (job, stage) ∷ ys
      → IsReady t
      → advance fl sort_slice config u dns w job t.server stage ≡ some (s, goes_on stage')
      → Costs t (record t { server = s; threads = xs ++ (job, stage') ∷ ys }) 1
  proceeds-Costs w t xs job stage stage' ys s e v went =
      let (a, same, others) = went_on w t xs job stage ys _ e v went in
      record {
        ready = record {
          sound = subst (λ (o : MutexServer F × Progress F). IsSound o.0.conn_pool) same a.sound;
          fits =
              All_insert _ xs (job, stage') ys
                (subst (λ (o : MutexServer F × Progress F). FitsAfter n o.1) same a.fits) others;
        };
        spent = omega (
          arith,
          subst (λ (o : MutexServer F × Progress F). left_after n o.1 < steps_left n stage) same
              a.less,
          ap (work n) e,
          work-append_cons n xs job stage ys,
          work-append_cons n xs job stage' ys,
        );
      }

  replies-Costs :
      (w : Weather) (t : Threads F) (xs : List (Job × Stage F)) (job : Job) (stage : Stage F)
      (ys : List (Job × Stage F)) (o : MutexServer F × Progress F) (rs : List (ℕ × Msg))
      → t.threads ≡ xs ++ (job, stage) ∷ ys
      → IsReady t
      → advance fl sort_slice config u dns w job t.server stage ≡ some o
      → Costs t (record t { server = o.0; threads = xs ++ ys; replies = rs }) 1
  replies-Costs w t xs job stage ys o rs e v went =
      let (a, same, others) = went_on w t xs job stage ys o e v went in
      record {
        ready = record {
          sound = subst (λ (o : MutexServer F × Progress F). IsSound o.0.conn_pool) same a.sound;
          fits = others;
        };
        spent = omega (arith, a.less, ap (work n) e, work-append_cons n xs job stage ys);
      }

  budget-length : (clients : List ℕ) → budget clients ≡ (4 * n + 10) * length clients
  budget-length [] = omega arith
  budget-length (client ∷ clients) =
      omega (arith, budget-length clients, mul-suc (4 * n + 10) (length clients))

  -- A change of the caches only.
  same_pool :
      (t : Threads F) (s : MutexServer F)
      → s.conn_pool ≡ t.server.conn_pool
      → IsReady t
      → Costs t (record t { server = s }) 0
  same_pool t s e v = record {
    ready = record { sound = rw e v.sound; fits = v.fits };
    spent = omega arith;
  }

  Course-Costs :
      (s : MutexServer F) (t : Threads F)
      → IsSound s.conn_pool
      → (c : Course fl sort_slice config u dns (start_threads s) t)
      → IsReady t × (turns fl sort_slice config u dns c + work n t.threads ≤ budget t.received)
  Course-Costs s t sound here = (record { sound = sound; fits = tt }, omega arith)
  Course-Costs s t sound (next {v = x} c (spawns client request job e k)) =
      let (v, spent) = Course-Costs s x sound c in
      rw k (record { sound = v.sound; fits = (tt, v.fits) }, omega (arith, spent))
  Course-Costs s t sound (next {v = x} c (proceeds w xs job stage stage' ys s' e went k)) =
      let (v, spent) = Course-Costs s x sound c in
      let costs = proceeds-Costs w x xs job stage stage' ys s' e v went in
      rw k (costs.ready, omega (arith, spent, costs.spent))
  Course-Costs s t sound (next {v = x} c (replies w xs job stage ys s' reply e went k)) =
      let (v, spent) = Course-Costs s x sound c in
      let costs =
        replies-Costs w x xs job stage ys (s', writes reply) ((job.client, reply) ∷ x.replies) e v
          went in
      rw k (costs.ready, omega (arith, spent, costs.spent))
  Course-Costs s t sound (next {v = x} c (cleans now runs k)) =
      let (v, spent) = Course-Costs s x sound c in
      rw k (record { sound = v.sound; fits = v.fits }, spent)
  Course-Costs s t sound (next {v = x} c (delivers xs r ys d e went k)) =
      let (v, spent) = Course-Costs s x sound c in
      rw k (record { sound = v.sound; fits = v.fits }, spent)
  Course-Costs s t sound (next {v = x} c (purges now xs ce ys e k)) =
      let (v, spent) = Course-Costs s x sound c in
      rw k (
        record {
          sound = purge-IsSound fl sort_slice sort config now x.server.conn_pool xs ce ys e v.sound;
          fits = v.fits;
        },
        spent,
      )

  -- Where sort.Slice sorts, the number of retries is not negative, and the pool that the server
  -- starts with has an upstream, names for all upstreams and no entry without a connection: in each
  -- state that is reached, whatever the goroutines have done in whatever order, and whatever the
  -- network and the clock do next, the next step of each goroutine does not panic; it leaves such a
  -- pool, and fewer steps to make than before.
  pub Course-advance :
      (s : MutexServer F) (t : Threads F) (w : Weather) (xs : List (Job × Stage F)) (job : Job)
      (stage : Stage F) (ys : List (Job × Stage F))
      → IsSound s.conn_pool
      → Course fl sort_slice config u dns (start_threads s) t
      → t.threads ≡ xs ++ (job, stage) ∷ ys
      → (o : MutexServer F × Progress F) × (advance fl sort_slice config u dns w job t.server stage
          ≡ some o)
        × IsSound o.0.conn_pool
        × (left_after n o.1 < steps_left n stage)
  Course-advance s t w xs job stage ys sound c e =
      let v = (Course-Costs s t sound c).0 in
      let fits =
        (All-middle (λ (th : Job × Stage F). Fits n th.1) xs (job, stage) ys
          (subst (All (λ (th : Job × Stage F). Fits n th.1)) e v.fits)).0 in
      let a =
        advance-Advances fl sort_slice sort config n counted u dns w job t.server v.sound stage
          fits in
      (a.result, a.comes, a.sound, a.less)

  -- Where sort.Slice sorts, the number n of retries is not negative, and the pool that the server
  -- starts with has an upstream, names for all upstreams and no entry without a connection: in each
  -- state that is reached, the steps that the goroutines have made, with those that they have left,
  -- are at most 4 * n + 10 for each request received; and the clients of the goroutines that are at
  -- work, with those that have a reply, are the clients of all requests, each as often as it has
  -- asked.
  pub Course-turns :
      (s : MutexServer F) (t : Threads F)
      → IsSound s.conn_pool
      → (c : Course fl sort_slice config u dns (start_threads s) t)
      → (turns fl sort_slice config u dns c + work n t.threads ≤ (4 * n + 10) * length t.received)
        × Perm (waiting t.threads ++ replied t) t.received
  Course-turns s t sound c = (
    omega (arith, (Course-Costs s t sound c).1, budget-length t.received),
    Course-received fl sort_slice config u dns s t c,
  )

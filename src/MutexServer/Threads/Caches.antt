-- ===== src/MutexServer/Threads/Caches.antt =====
-- The caches while requests are handled and the crew is at work.
use mathlib.Core.Option.{some-injective}
use funkyd.Base.{
  ℕ, ◌≡◌, refl, subst, ap, inl, inr, Option, none, some, List, Option-cases, Bool-cases, ◌==◌,
}
use funkyd.Base.Int.{ℤ, pos, leb_int}
use funkyd.Base.Time.{Time}
use funkyd.Base.Floats.{Floats}
use funkyd.Config.{Configuration}
use funkyd.Dns.{Heap}
use funkyd.Upstream.{Upstream}
use funkyd.Cache.{RecordCache, new_cache}
use funkyd.Cache.Crew
use funkyd.Cache.Crew.{
  deliver, delivered, panicked, receive, flush_responses, add_response, reaches, responses_queued,
  start_cleaning_crew, start_trash_man, new_trash_man,
}
use funkyd.Cache.Invariant.{Step-Inv, new_cache-Inv}
use funkyd.ConnPool
use funkyd.ConnPool.{ConnPool, SortSlice}
use funkyd.Server.{DnsLib, attempt_exchange}
use funkyd.MutexServer.{query_message}
use funkyd.MutexServer.Handler.{MutexServer, new_mutex_server}
use funkyd.MutexServer.Threads.{
  Job, Stage, looking, hosting, connecting, dialling, exchanging, dropping, returning, storing,
  replying, refusing, Progress, goes_on, writes, Weather, advance, Threads, start_threads, spawns,
  proceeds, replies, cleans, delivers, purges, Course, here, next,
}
use funkyd.Zones.{Token, load_local_zones}
use funkyd.MutexServer.Threads.Tended.{
  IsHosted, IsTended, get-IsHosted, get-IsTended, clean-IsTended, deliver-IsTended, add-IsTended,
  load_local_zones-Inv,
}

pub record IsCaching {F : Type 0} (zones : RecordCache) (s : MutexServer F) : Type 0 where
  pub cache : IsTended s.cache
  pub hosted_cache : IsHosted zones s.hosted_cache

module _ {F : Type 0} (fl : Floats F) (sort_slice : SortSlice (Upstream F)) (config : Configuration)
    (u : ℤ → ℕ) (dns : DnsLib) (zones : RecordCache) where
  -- A step that only takes the pool.
  pool_only :
      (s v : MutexServer F) (q : ConnPool F) (o p : Progress F)
      → Path
          (Option (MutexServer F × Progress F))
          (some (record s { conn_pool = q }, o))
          (some (v, p))
      → IsCaching zones s
      → IsCaching zones v
  pool_only s v q o p e c =
      subst (IsCaching zones) (ap (λ (o : MutexServer F × Progress F). o.0) (some-injective _ _ e))
        (record { cache = c.cache; hosted_cache = c.hosted_cache })

  advance-IsCaching :
      (w : Weather) (job : Job) (s v : MutexServer F) (stage : Stage F) (p : Progress F)
      → advance fl sort_slice config u dns w job s stage ≡ some (v, p)
      → IsCaching zones s
      → IsCaching zones v
  unfolding advance
  advance-IsCaching w job s v looking p e c =
      let same = ap (λ (o : MutexServer F × Progress F). o.0) (some-injective _ _ e) in
      subst (IsCaching zones) same (record {
        cache = get-IsTended u w.clock s.heap s.cache job.domain job.rrtype c.cache;
        hosted_cache = c.hosted_cache;
      })
  advance-IsCaching w job s v hosting p e c =
      let same = ap (λ (o : MutexServer F × Progress F). o.0) (some-injective _ _ e) in
      subst (IsCaching zones) same (record {
        cache = c.cache;
        hosted_cache =
            get-IsHosted u w.clock s.heap zones s.hosted_cache job.domain job.rrtype c.hosted_cache;
      })
  advance-IsCaching w job s v (connecting i) p e c =
      elim (Bool-cases (leb_int (pos i) config.upstream_retries)) [
        | inr over ↦ elim (Bool-cases (i == 0)) [
          | inl first ↦ cc (rw (over, first, advance) at e)
          | inr later ↦ pool_only s v s.conn_pool _ p (rw (over, later, advance) at e) c
        ]
        | inl again ↦ elim (Option-cases (ConnPool.get fl w.clock s.conn_pool)) [
          | inl nil ↦ cc (rw (again, nil, advance) at e)
          | inr (g, got) ↦ pool_only s v g.pool _ p (rw (again, got, advance) at e) c
        ]
      ]
  advance-IsCaching w job s v (dialling i up) p e c = pool_only s v _ _ p e c
  advance-IsCaching w job s v (exchanging i ce) p e c =
      elim (Option-cases
        (attempt_exchange config w.exchange (query_message dns job.domain job.rrtype) ce)) [
          | inl nil ↦ cc (rw (nil, advance) at e)
          | inr ((ce', none), lost) ↦ pool_only s v s.conn_pool _ p (rw (lost, advance) at e) c
          | inr ((ce', some reply), came) ↦
              pool_only s v s.conn_pool _ p (rw (came, advance) at e) c
        ]
  advance-IsCaching w job s v (dropping i ce) p e c = pool_only s v _ _ p e c
  advance-IsCaching w job s v (returning ce reply) p e c = pool_only s v _ _ p e c
  advance-IsCaching w job s v (storing r) p e c =
      let same = ap (λ (o : MutexServer F × Progress F). o.0) (some-injective _ _ e) in
      subst (IsCaching zones) same
        (record { cache = add-IsTended u r s.cache c.cache; hosted_cache = c.hosted_cache })
  advance-IsCaching w job s v (replying r) p e c = pool_only s v s.conn_pool _ p e c
  advance-IsCaching w job s v refusing p e c = pool_only s v s.conn_pool _ p e c

  pub Course-IsCaching :
      (s : MutexServer F) (t : Threads F)
      → IsCaching zones s
      → Course fl sort_slice config u dns (start_threads s) t
      → IsCaching zones t.server
  Course-IsCaching s t v here = v
  Course-IsCaching s t v (next {v = x} c (spawns client request job e k)) =
      rw k (Course-IsCaching s x v c)
  Course-IsCaching s t v (next {v = x} c (proceeds w xs job stage stage' ys s' e went k)) =
      rw k
        (advance-IsCaching w job x.server s' stage (goes_on stage') went (Course-IsCaching s x v c))
  Course-IsCaching s t v (next {v = x} c (replies w xs job stage ys s' reply e went k)) =
      rw k
        (advance-IsCaching w job x.server s' stage (writes reply) went (Course-IsCaching s x v c))
  Course-IsCaching s t v (next {v = x} c (cleans now runs k)) =
      let both = Course-IsCaching s x v c in
      rw k (record {
        cache = clean-IsTended u now x.server.heap x.server.cache runs both.cache;
        hosted_cache = both.hosted_cache;
      })
  Course-IsCaching s t v (next {v = x} c (delivers xs r ys d e went k)) =
      let both = Course-IsCaching s x v c in
      rw k (record {
        cache = deliver-IsTended u x.server.cache d xs r ys e went both.cache;
        hosted_cache = both.hosted_cache;
      })
  Course-IsCaching s t v (next {v = x} c (purges now xs ce ys e k)) =
      let both = Course-IsCaching s x v c in
      rw k (record { cache = both.cache; hosted_cache = both.hosted_cache })

  pub new_mutex_server-IsCaching :
      (zero : F) (h : Heap) (z : Heap) (now : ℕ → ℕ → Time) (files : List (Option (List Token)))
      → load_local_zones z now 0 files new_cache ≡ some zones
      → IsCaching zones (record (new_mutex_server zero config h) { hosted_cache = zones })
  unfolding new_mutex_server start_cleaning_crew start_trash_man new_cache
  new_mutex_server-IsCaching zero h z now files e =
      let (inv, crewless) =
        load_local_zones-Inv u z now 0 files new_cache zones e new_cache-Inv refl in
      record {
        cache = record {
          inv = Step-Inv u new_cache _ (Crew.starts config.eviction_batch_size refl) new_cache-Inv;
          trash_man = start_trash_man (new_trash_man config.eviction_batch_size);
          tended = refl;
          running = refl;
        };
        hosted_cache = record { inv = inv; same = refl; crewless = crewless };
      }

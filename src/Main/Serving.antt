-- ===== src/Main/Serving.antt =====
-- The caches of the server that the program runs, while it handles requests.
use mathlib.Core.List.{map}
use funkyd.Base.{ℕ, ◌≡◌, sym, subst, ap, some}
use funkyd.Base.Int.{ℤ}
use funkyd.Base.Floats.{Floats}
use funkyd.Cache.{Response, RecordCache, new_cache}
use funkyd.Cache.Crew.{deliver, delivered, panicked}
use funkyd.Cache.Invariant.{Inv}
use funkyd.Config.{Configuration, init_configuration}
use funkyd.ConnPool.{SortSlice}
use funkyd.Server.{DnsLib}
use funkyd.Upstream.{Upstream}
use funkyd.MutexServer.Handler.{MutexServer}
use funkyd.MutexServer.Threads.{Threads, start_threads, Course}
use funkyd.MutexServer.Threads.Caches.{IsCaching, Course-IsCaching, new_mutex_server-IsCaching}
use funkyd.MutexServer.Threads.Tended.{hosted_panics, tended_delivers}
use funkyd.Zones.{load_local_zones}
use funkyd.Main.{World, main}
use funkyd.Main.Listening.{main-IsStarted}

-- The configuration that the program reads.
abbrev pub read_config : World → Configuration → Configuration
read_config w initial = (init_configuration w.decode w.marshal w.open_file w.conf_file initial).0

module _ {F : Type 0} (fl : Floats F) (sort_slice : SortSlice (Upstream F)) (u : ℤ → ℕ)
    (dns : DnsLib) (zero : F) (w : World) (initial : Configuration) where
  -- If the program ends with a server that handles requests, then the zone files of the
  -- configuration that was read were loaded, and in each state that its goroutines reach with this
  -- configuration: both caches satisfy the invariant of caches; the hosted cache maps its keys as
  -- it did when the zones were loaded; the goroutine of an eviction from the hosted cache panics,
  -- and one from the cache hands its response over to the trashman.
  pub main-Course :
      (server : MutexServer F) (t : Threads F) (r : Response)
      → (main zero w initial).handler ≡ some server
      → Course fl sort_slice (read_config w initial) u dns (start_threads server) t
      → (zones : RecordCache) × (load_local_zones w.heap w.zone_clock 0
            (map w.parse_zone (read_config w initial).zone_files)
            new_cache
          ≡ some zones)
        × Inv t.server.cache
        × Inv t.server.hosted_cache
        × (t.server.hosted_cache.cache ≡ zones.cache)
        × (deliver r t.server.hosted_cache ≡ panicked)
        × ((d : RecordCache) × (deliver r t.server.cache ≡ delivered d))
  main-Course server t r e c =
      let v = main-IsStarted zero w initial server e in
      let same : v.config ≡ read_config w initial = ap (λ i. i.0) (sym v.read) in
      let loaded =
        subst
          (λ (config : Configuration).
            load_local_zones w.heap w.zone_clock 0 (map w.parse_zone config.zone_files) new_cache
            ≡ some v.hosted)
          same v.zones in
      let starts =
        new_mutex_server-IsCaching fl sort_slice v.config u dns v.hosted zero w.heap w.heap
          w.zone_clock (map w.parse_zone v.config.zone_files) v.zones in
      let caching =
        Course-IsCaching fl sort_slice (read_config w initial) u dns v.hosted server t
          (subst (IsCaching v.hosted) (sym v.server_is) starts) c in
      (
        v.hosted,
        loaded,
        caching.cache.inv,
        caching.hosted_cache.inv,
        caching.hosted_cache.same,
        hosted_panics v.hosted t.server.hosted_cache r caching.hosted_cache,
        tended_delivers t.server.cache r caching.cache,
      )

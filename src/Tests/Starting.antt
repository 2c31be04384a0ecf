-- ===== src/Tests/Starting.antt =====
-- Witnesses for the start of the program and for the HTTP API.
use funkyd.Base.{not, ◌&&◌, ℕ, ◌*◌, ◌≡◌, refl, true, false, none, some, List, [], ◌∷◌}
use funkyd.Base.Int.{pos}
use funkyd.Base.Text.{codes, text_eq}
use funkyd.Base.Time.{second}
use funkyd.Config.{Configuration, init_configuration}
use funkyd.Zones.{Token, load_local_zones, parse_zone_file}
use funkyd.MutexServer.Handler.{MutexServer, new_mutex_server}
use funkyd.Base.Map.{is_some}
use funkyd.Http.{Api, version_route, serve_http}
use funkyd.Http.Errors.{stops_at_error, is_version, stops_at_error-serve_http}
use funkyd.Main.{World, validate_conf_file, listen_and_serve, start_servers, serve, main}
use funkyd.Main.Listening.{IsStarted, main-IsStarted}
use mathlib.Core.List.{map}
use funkyd.Base.Map.{lookup}
use funkyd.Cache
use funkyd.Cache.{RecordCache, new_cache}
use funkyd.Cache.Invariant.{Inv}
use funkyd.Cache.Crew.{deliver, delivered, panicked, start_cleaning_crew}
use funkyd.MutexServer.Threads.{
  new_job, looking, hosting, advance, Threads, start_threads, spawns, proceeds, Course, here, next,
}
use funkyd.Zones.{zone_response}
use funkyd.Main.Serving.{read_config, main-Course}
use funkyd.Tests.{mills, insertion_sort, seconds}
use funkyd.Tests.Threading.{job, fair}
use funkyd.Tests.Serving.{dns, request}
use funkyd.Tests.Pooling.{settings}
use funkyd.Tests.Zoning.{heap, hosted}

abbrev read_settings : Configuration
read_settings = record settings { zone_files = codes "/etc/zone" ∷ [] }

abbrev zone : List Token
zone = record { rr = 1; err = false } ∷ record { rr = 2; err = false } ∷ []

-- A configuration file that names one zone file.
abbrev world : World
world = record {
  version_flag = false;
  conf_file = codes "/etc/funkyd.json";
  version = record {
    hostname = codes "host";
    branch = codes "master";
    tag = [];
    date = [];
    revision = [];
  };
  stat = λ _. none;
  open_file = λ _. some [];
  decode = λ _ _. (read_settings, true);
  marshal = λ _. some [];
  printers = record { marshal = λ _. some []; show_map = λ _. []; show_logger = λ _. [] };
  log_files = record { null_opens = true; open_file = λ _. none };
  when = λ _. [];
  heap = heap;
  parse_zone = λ _. some zone;
  zone_clock = λ _ _. 5 * second;
  load_key_pair = λ _. false;
  listen = λ _. true;
}

abbrev started : MutexServer ℕ
started = record (new_mutex_server 0 read_settings heap) { hosted_cache = hosted }

world-starts : (main 0 world settings).handler ≡ some started
unfolding main init_configuration validate_conf_file text_eq serve load_local_zones parse_zone_file
    start_servers listen_and_serve new_mutex_server
world-starts = refl

main-IsStarted_example : IsStarted 0 world settings started (main 0 world settings)
main-IsStarted_example = main-IsStarted 0 world settings started world-starts

-- A goroutine that has looked into the cache.
abbrev looked : Threads ℕ
looked = record { server = started; threads = (job, hosting) ∷ []; received = 1 ∷ []; replies = [] }

looked-Course :
    Course mills insertion_sort
      (read_config world settings)
      seconds
      dns
      (start_threads started)
      looked
unfolding advance new_job Cache.get new_cache lookup new_mutex_server start_cleaning_crew
looked-Course =
    next (next here (spawns 1 request job refl refl))
      (proceeds fair [] job looking hosting [] started refl refl refl)

main-Course_example :
    (zones : RecordCache) × (load_local_zones heap world.zone_clock 0
        (map world.parse_zone (read_config world settings).zone_files)
        new_cache
      ≡ some zones)
    × Inv looked.server.cache
    × Inv looked.server.hosted_cache
    × (looked.server.hosted_cache.cache ≡ zones.cache)
    × (deliver (zone_response heap (5 * second) 1) looked.server.hosted_cache ≡ panicked)
    × ((d : RecordCache) × (deliver (zone_response heap (5 * second) 1) looked.server.cache
          ≡ delivered d))
main-Course_example =
    main-Course mills insertion_sort seconds dns 0 world settings started looked
      (zone_response heap (5 * second) 1) world-starts looked-Course

-- An API whose version cannot be printed.
abbrev api : Api
api = record {
  version = world.version;
  configuration = read_settings;
  servers = (codes "udp", pos 53) ∷ (codes "tcp", pos 53) ∷ [];
  marshal_version = λ _. none;
  marshal_configuration = λ _. some (codes "{}");
  write_fails = λ _. false;
}

stops_at_error-serve_http_example :
    stops_at_error (serve_http api version_route)
    ≡ not (is_version version_route && not (is_some (api.marshal_version api.version)))
stops_at_error-serve_http_example = stops_at_error-serve_http api version_route

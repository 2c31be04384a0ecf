-- ===== src/Main/Listening.antt =====
-- When the program gets to listen, and with which server.
use mathlib.Core.List.{map}
use funkyd.Base.{
  ◌≡◌, refl, sym, ap, subst, ◌∙◌, inl, inr, true, false, none, some, List, [], ◌∷◌, ◌++◌, arith,
  Bool-cases, Option-cases, if◌then◌else◌,
}
use funkyd.Base.Text.{codes}
use funkyd.Cache.{RecordCache, new_cache}
use funkyd.Config.{Configuration, init_configuration}
use funkyd.MutexServer.Handler.{MutexServer, new_mutex_server}
use funkyd.Zones.{load_local_zones}
use funkyd.Log.{Loggers, init_loggers}
use funkyd.Main.{
  World, Listener, Ended, no_loggers, validate_conf_file, run_blackhole_server, dns_port,
  listen_and_serve, start_servers, serve, main,
}

module _ {F : Type 0} (zero : F) (w : World) where
  -- The server of a program that listens.
  pub record IsStarted (initial : Configuration) (server : MutexServer F) (e : Ended F)
      : Type 0 where
    pub no_version : w.version_flag ≡ false
    pub valid : validate_conf_file w ≡ none
    pub config : Configuration
    pub read :
        init_configuration w.decode w.marshal w.open_file w.conf_file initial ≡ (config, true)
    pub hosted : RecordCache
    pub zones :
        load_local_zones w.heap w.zone_clock 0 (map w.parse_zone config.zone_files) new_cache
        ≡ some hosted
    pub server_is : server ≡ record (new_mutex_server zero config w.heap) { hosted_cache = hosted }
    pub before : List Listener
    pub listeners_are :
        e.listeners ≡ before ++ (codes "udp", dns_port config) ∷ (codes "tcp", dns_port config) ∷ []
    pub blackhole_is :
        before ≡ (if config.blackhole then (codes "tcp-tls", config.dns_port) ∷ [] else [])

  start_servers-listeners :
      (c : Configuration) (loggers : Loggers) (s server : MutexServer F)
      → (start_servers w c loggers s).handler ≡ some server
      → (server ≡ s)
        × ((start_servers w c loggers s).listeners
            ≡ (if c.blackhole then (codes "tcp-tls", c.dns_port) ∷ [] else [])
              ++ (codes "udp", dns_port c) ∷ (codes "tcp", dns_port c) ∷ [])
  unfolding start_servers run_blackhole_server listen_and_serve
  start_servers-listeners c loggers s server e = (ground arith, ground arith)

  serve-IsStarted :
      (initial c : Configuration) (server : MutexServer F)
      → w.version_flag ≡ false
      → validate_conf_file w ≡ none
      → init_configuration w.decode w.marshal w.open_file w.conf_file initial ≡ (c, true)
      → (serve zero w c).handler ≡ some server
      → IsStarted initial server (serve zero w c)
  unfolding serve new_mutex_server
  serve-IsStarted initial c server flag valid read e =
      let loggers = (init_loggers w.printers w.log_files w.when c no_loggers).0 in
      elim (Option-cases
        (load_local_zones w.heap w.zone_clock 0 (map w.parse_zone c.zone_files) new_cache)) [
          | inl failed ↦ ground arith
          | inr (hosted, loaded) ↦
              let s : MutexServer F = record (new_mutex_server zero c w.heap) {
                hosted_cache = hosted;
              } in
              let (same, listen) = start_servers-listeners c loggers s server (ground arith) in
              record {
                no_version = flag;
                valid = valid;
                config = c;
                read = read;
                hosted = hosted;
                zones = loaded;
                server_is = same;
                before = if c.blackhole then (codes "tcp-tls", c.dns_port) ∷ [] else [];
                listeners_are = ground (arith, listen);
                blackhole_is = refl;
              }
        ]

  -- If the program ends with a server that handles requests, then no version was asked for, the
  -- configuration file was there and was read, and all its zone files were loaded; the server is
  -- the one that NewMutexServer builds of this configuration, with the loaded zones in its hosted
  -- cache; and it listens by UDP and TCP on the configured port, after the blackhole server if that
  -- is configured.
  pub main-IsStarted :
      (initial : Configuration) (server : MutexServer F)
      → (main zero w initial).handler ≡ some server
      → IsStarted initial server (main zero w initial)
  unfolding main
  main-IsStarted initial server e =
      let i = init_configuration w.decode w.marshal w.open_file w.conf_file initial in
      elim (Bool-cases w.version_flag) [
        | inl version ↦ ground arith
        | inr flag ↦ elim (Option-cases (validate_conf_file w)) [
          | inr (error, invalid) ↦ ground arith
          | inl valid ↦ elim (Bool-cases i.1) [
            | inr unread ↦ ground arith
            | inl read ↦
                let serves : main zero w initial ≡ serve zero w i.0 = ground arith in
                subst (IsStarted initial server) (sym serves) (
                  serve-IsStarted initial i.0 server flag valid (ap (λ b. (i.0, b)) read)
                    (ap (λ (e : Ended F). e.handler) (sym serves) ∙ e))
          ]
        ]
      ]

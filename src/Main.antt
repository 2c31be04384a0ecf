-- ===== src/Main.antt =====
-- main.go, version.go and blackhole_server.go: the start of the program, from its flags to the
-- servers that listen.
pub mod Listening
pub mod Serving
use funkyd.Base.{
  ℕ, ◌+◌, Bool, true, false, ◌||◌, map, Option, none, some, List, [], ◌∷◌, ◌++◌, if◌then◌else◌,
}
use funkyd.Base.Int.{ℤ, pos, is_zero}
use funkyd.Base.Text.{Text, codes, text_eq}
use funkyd.Base.Time.{Time}
use funkyd.Config.{Configuration, TlsConfig, init_configuration}
use funkyd.Dns.{Heap, Msg, Question}
use funkyd.Server.{DnsLib, first_question}
use funkyd.Log.{Printers, Files, Logger, Loggers, Output, init_loggers}
use funkyd.MutexServer.Handler.{MutexServer, new_mutex_server}
use funkyd.Zones.{Token, load_local_zones}

-- Version and its String method.
pub record Version : Type 0 where
  pub hostname : Text
  pub branch : Text
  pub tag : Text
  pub date : Text
  pub revision : Text

unfoldable pub version_string : Version → Text
version_string v =
    v.hostname
    ++ (codes "-"
        ++ (v.branch
            ++ (codes "-" ++ (v.tag ++ (codes "-" ++ (v.date ++ (codes "-" ++ v.revision)))))))

-- What the program finds outside: its flags, the files, the clock, and how the calls of the
-- libraries end.
pub record World : Type 0 where
  pub version_flag : Bool
  pub conf_file : Text
  pub version : Version
  -- The text of os.Stat's error, if there is one.
  pub stat : Text → Option Text
  pub open_file : Text → Option Text
  pub decode : Option Text → Configuration → Configuration × Bool
  pub marshal : Configuration → Option Text
  pub printers : Printers
  pub log_files : Files
  pub when : ℕ → Text
  -- The records that are parsed from the zone files, where the files can be read.
  pub heap : Heap
  pub parse_zone : Text → Option (List Token)
  pub zone_clock : ℕ → ℕ → Time
  -- Whether the key pair can be loaded.
  pub load_key_pair : TlsConfig → Bool
  -- Whether ListenAndServe returns without an error, by the network.
  pub listen : Text → Bool

-- A server that listens: its network and its port.
abbrev pub Listener : Type 0
Listener = Text × ℤ

-- How the program ends: its exit code, the lines that main itself prints with fmt,
-- the loggers, the servers that it has told to listen and the server that handles their requests.
pub record Ended (F : Type 0) : Type 0 where
  pub code : ℕ
  pub printed : List Text
  pub loggers : Loggers
  pub listeners : List Listener
  pub handler : Option (MutexServer F)

-- The text of the error, if there is one.
unfoldable pub validate_conf_file : World → Option Text
validate_conf_file w =
    if text_eq w.conf_file []
    then some (codes "no configuration file specified")
    else w.stat w.conf_file

-- How runBlackholeServer ends: log.Fatalf, or a return, with or without an error, and the listener.
pub data Blackholed : Type 0 where
  fatal : Blackholed
  unsupported : Blackholed
  returned : Listener → Bool → Blackholed

unfoldable pub run_blackhole_server : World → Configuration → Blackholed
run_blackhole_server w c =
    if text_eq c.listen_protocol (codes "tcp-tls")
    then if text_eq c.tls_config.certificate_file [] || text_eq c.tls_config.private_key_file []
      then fatal
      else if w.load_key_pair c.tls_config
      then returned (codes "tcp-tls", c.dns_port) (w.listen (codes "tcp-tls"))
      else fatal
    else unsupported

-- BlackholeServer.ServeDNS: the reply's question and its text record; `none` is a request without a
-- question.
unfoldable pub blackhole_reply : DnsLib → Msg → Option (Msg × Text × Text)
blackhole_reply dns request = elim (first_question (dns.set_reply request)) [
  | none ↦ none
  | some q ↦ some (dns.set_reply request, q.name, codes "Hello world")
]

unfoldable pub dns_port : Configuration → ℤ
dns_port c = if is_zero c.dns_port then pos 53 else c.dns_port

-- The zero values of Logger and QueryLogger.
abbrev pub no_loggers : Loggers
no_loggers = record {
  server = record { level = pos 0; handle = none };
  query = record { level = pos 0; handle = none };
}

module _ {F : Type 0} where
  -- The ends before a server handles requests: the code, what is printed, the loggers, who listens.
  abbrev pub exits : ℕ → List Text → Loggers → List Listener → Ended F
  exits code printed loggers listeners = record {
    code = code;
    printed = printed;
    loggers = loggers;
    listeners = listeners;
    handler = none;
  }

  -- The servers of main: UDP in a goroutine, and TCP, whose return ends the program.
  unfoldable pub listen_and_serve :
      World → Configuration → Loggers → List Listener → MutexServer F → Ended F
  unfolding dns_port
  listen_and_serve w c loggers before server = record {
    code = if w.listen (codes "tcp") then 0 else 1;
    printed = [];
    loggers = loggers;
    listeners = before ++ (codes "udp", dns_port c) ∷ (codes "tcp", dns_port c) ∷ [];
    handler = some server;
  }

  -- After the zones are loaded: perhaps the blackhole server, and then the others.
  unfoldable pub start_servers : World → Configuration → Loggers → MutexServer F → Ended F
  unfolding run_blackhole_server listen_and_serve
  start_servers w c loggers server =
      if c.blackhole
      then elim (run_blackhole_server w c) [
        | fatal ↦ exits 1 [] loggers []
        | unsupported ↦ exits 1 [] loggers []
        | returned l false ↦ exits 1 [] loggers (l ∷ [])
        | returned l true ↦ listen_and_serve w c loggers (l ∷ []) server
      ]
      else listen_and_serve w c loggers [] server

  -- main, once the configuration has been read. An error of InitLoggers is not looked at, InitApi
  -- starts a goroutine of its own (Http), and NewMutexServer has no error to return.
  unfoldable pub serve : F → World → Configuration → Ended F
  unfolding start_servers
  serve zero w c =
      let loggers = (init_loggers w.printers w.log_files w.when c no_loggers).0 in
      let server = new_mutex_server zero c w.heap in
      elim (load_local_zones w.heap w.zone_clock 0 (map w.parse_zone c.zone_files)
        server.hosted_cache) [
          | none ↦ exits 1 [] loggers []
          | some hosted ↦ start_servers w c loggers (record server { hosted_cache = hosted })
        ]

  -- `initial` is the global configuration before it is read.
  unfoldable pub main : F → World → Configuration → Ended F
  unfolding version_string validate_conf_file serve
  main zero w initial =
      let (c, read) = init_configuration w.decode w.marshal w.open_file w.conf_file initial in
      if w.version_flag
      then exits 0 ((codes "current version: " ++ version_string w.version) ∷ []) no_loggers []
      else elim (validate_conf_file w) [
        | some e ↦ exits 1 ((codes "error validating flags: " ++ e) ∷ []) no_loggers []
        | none ↦ if read then serve zero w c else exits 1 [] no_loggers []
      ]

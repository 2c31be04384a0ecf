-- ===== src/Config.antt =====
-- config.go: the configuration, its reading from a file, and the defaults that the parts apply. The
-- periods are in milliseconds, and may be negative. A log's location and level, and the TLS files,
-- are plain data.
use funkyd.Base.{Bool, true, false, Option, none, some, List, if◌then◌else◌}
use funkyd.Base.Int.{ℤ, pos, is_zero}
use funkyd.Base.Text.{Text}
use funkyd.Base.Time.{milliseconds}

pub record LogConfig : Type 0 where
  pub level : ℤ
  pub location : Text

pub record TlsConfig : Type 0 where
  pub private_key_file : Text
  pub certificate_file : Text

pub record Configuration : Type 0 where
  pub cooldown_period : ℤ
  pub use_tfo : Bool
  pub clean_interval : ℤ
  pub eviction_batch_size : ℤ
  pub timeout : ℤ
  pub zone_files : List Text
  pub upstreams : List Text
  pub blackhole : Bool
  pub dns_port : ℤ
  pub http_port : ℤ
  pub concurrent_queries : ℤ
  pub server_log : LogConfig
  pub query_log : LogConfig
  pub listen_protocol : Text
  pub tls_config : TlsConfig
  pub skip_upstream_verification : Bool
  pub upstream_retries : ℤ

-- InitConfiguration: the global configuration afterwards, and whether there was no error. `decode`
-- is the JSON decoder on a file that was opened, or on none: it leaves what it has read up to an
-- error. `marshal` says whether the configuration can be printed.
unfoldable pub init_configuration :
    (Option Text → Configuration → Configuration × Bool)
    → (Configuration → Option Text)
    → (Text → Option Text)
    → Text
    → Configuration
    → Configuration × Bool
init_configuration decode marshal open_file path c =
    let (c', decoded) = decode (open_file path) c in
    if decoded then elim (marshal c') [ none ↦ (c', false) | some _ ↦ (c', true) ] else (c', false)

-- coolAndPurgeUpstream: 500 ms, if nothing else is configured.
unfoldable pub cooldown_duration : Configuration → ℤ
cooldown_duration c =
    if is_zero c.cooldown_period then milliseconds (pos 500) else milliseconds c.cooldown_period

-- AddExchange: the longest round trip that is not an error, 500 ms by default.
unfoldable pub rtt_timeout : Configuration → ℤ
rtt_timeout c = if is_zero c.timeout then milliseconds (pos 500) else milliseconds c.timeout

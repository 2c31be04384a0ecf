-- ===== src/Server.antt =====
-- server.go: what both servers share.
use funkyd.Base.{ℕ, ◌≡◌, arith, Bool, true, Option, none, some, [], ◌∷◌}
use funkyd.Base.Int.{ℤ}
use funkyd.Base.Text.{Text, codes}
use funkyd.Base.Time.{Time, Duration, milliseconds}
use funkyd.Config.{Configuration}
use funkyd.Dns.{Msg, Question}
use funkyd.Cache.{Response}
use funkyd.ConnEntry.{ConnEntry, add_exchange}

-- What Client.ExchangeWithConn returns: a reply or an error, and the round trip's time. The records
-- of a reply stand in the heap from the start.
pub record Exchanged : Type 0 where
  pub reply : Option Msg
  pub rtt : Duration

unfoldable pub process_results : Time → Msg → Text → ℕ → Response
process_results now r domain rrtype = record {
  name = domain;
  entry = r;
  ttl = 0;
  qtype = rrtype;
  creation_time = now;
}

-- The entry afterwards, and the reply. `none` is the panic of GetConn on a nil connection.
unfoldable pub attempt_exchange :
    {F : Type 0}
    → Configuration
    → (Msg → ℕ → Exchanged)
    → Msg
    → ConnEntry F
    → Option (ConnEntry F × Option Msg)
attempt_exchange config exchange m ce = elim ce.conn [
  | none ↦ none
  | some c ↦ some (add_exchange config (exchange m c).rtt ce, (exchange m c).reply)
]

pub attempt_exchange-conn :
    {F : Type 0} (config : Configuration) (exchange : Msg → ℕ → Exchanged) (m : Msg)
    (ce : ConnEntry F) (c : ℕ)
    → ce.conn ≡ some c
    → attempt_exchange config exchange m ce
      ≡ some (add_exchange config (exchange m c).rtt ce, (exchange m c).reply)
unfolding attempt_exchange
attempt_exchange-conn config exchange m ce c has = ground arith

pub attempt_exchange_nil :
    {F : Type 0} (config : Configuration) (exchange : Msg → ℕ → Exchanged) (m : Msg)
    (ce : ConnEntry F)
    → ce.conn ≡ none
    → attempt_exchange config exchange m ce ≡ none
unfolding attempt_exchange
attempt_exchange_nil config exchange m ce nil = ground arith

-- The settings of the client that BuildClient makes, with those of its dialer; `fast_open` is the
-- option that sockoptSetter sets on each socket.
pub record ClientSettings : Type 0 where
  pub single_inflight : Bool
  pub dialer_timeout : ℤ
  pub fast_open : Bool
  pub timeout : ℤ
  pub net : Text
  pub insecure_skip_verify : Bool

unfoldable pub build_client : Configuration → ClientSettings
build_client config =
    let timeout = milliseconds config.timeout in
    record {
      single_inflight = true;
      dialer_timeout = timeout;
      fast_open = config.use_tfo;
      timeout = timeout;
      net = codes "tcp-tls";
      insecure_skip_verify = config.skip_upstream_verification;
    }

-- The functions of github.com/miekg/dns that build messages.
pub record DnsLib : Type 0 where
  pub set_question : Text → ℕ → Msg
  -- m.SetReply(request), for a new m
  pub set_reply : Msg → Msg
  pub copy : Msg → Msg
  -- m.SetRcode(request, rcode), with its result
  pub set_rcode : Msg → Msg → ℕ → Msg

abbrev pub rcode_server_failure : ℕ
rcode_server_failure = 2

abbrev pub first_question : Msg → Option Question
first_question m = elim m.question [ [] ↦ none | q ∷ qs ↦ some q ]

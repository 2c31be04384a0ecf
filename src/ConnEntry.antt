-- ===== src/ConnEntry.antt =====
-- connpool.go: a connection to an upstream, with the statistics that its weight comes from. A
-- connection is a number, and `none` is the nil connection of `&connEntry{}`.
use funkyd.Base.{ℕ, ◌+◌, ◌/◌, Bool, true, false, ◌||◌, Option, none, some, ◌==◌, not, if◌then◌else◌}
use funkyd.Base.Int.{pos, leb_int}
use funkyd.Base.Text.{Text}
use funkyd.Base.Time.{Duration, millisecond}
use funkyd.Base.Floats.{Floats}
use funkyd.Config.{Configuration, rtt_timeout}
use funkyd.Upstream.{Upstream, get_address, no_upstream}

pub record ConnEntry (F : Type 0) : Type 0 where
  pub conn : Option ℕ
  pub upstream : Upstream F
  pub total_rtt : Duration
  pub exchanges : ℕ
  pub error : Bool

-- A dial ends with a connection or an error, after some time.
pub record Dialled : Type 0 where
  pub conn : Option ℕ
  pub duration : Duration

module _ {F : Type 0} where
  unfoldable pub address_of : ConnEntry F → Text
  address_of ce = get_address ce.upstream

  unfoldable pub add_error : ConnEntry F → ConnEntry F
  add_error ce = record ce { error = true }

  unfoldable pub add_exchange : Configuration → Duration → ConnEntry F → ConnEntry F
  unfolding add_error
  add_exchange config rtt ce =
      let ce' = if not (leb_int (pos rtt) (rtt_timeout config)) then add_error ce else ce in
      record ce' { total_rtt = ce'.total_rtt + rtt; exchanges = ce'.exchanges + 1 }

  unfoldable pub new_entry : ℕ → Upstream F → ConnEntry F
  new_entry c u = record {
    conn = some c;
    upstream = u;
    total_rtt = 0;
    exchanges = 0;
    error = false;
  }

module _ {F : Type 0} (fl : Floats F) where
  unfoldable pub get_weight : ConnEntry F → F
  get_weight ce =
      if ce.total_rtt == 0 || ce.exchanges == 0
      then fl.zero
      else fl.quot (ce.total_rtt / millisecond) ce.exchanges

  -- `&connEntry{}`
  unfoldable pub no_conn_entry : ConnEntry F
  no_conn_entry = record {
    conn = none;
    upstream = no_upstream fl;
    total_rtt = 0;
    exchanges = 0;
    error = false;
  }

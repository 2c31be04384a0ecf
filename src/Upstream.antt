-- ===== src/Upstream.antt =====
-- upstream.go: an upstream server, with its weight and its cooldown.
use funkyd.Base.{[], Bool, ◌&&◌, ltb, ◌==◌, if◌then◌else◌}
use funkyd.Base.Int.{ℤ, pos, is_zero}
use funkyd.Base.Text.{Text, text_eq, sprintf_pair}
use funkyd.Base.Time.{Time, time_add}
use funkyd.Base.Floats.{Floats}

pub record Upstream (F : Type 0) : Type 0 where
  pub name : Text
  pub port : ℤ
  pub weight : F
  pub wakeup_time : Time

unfoldable pub effective_port : ℤ → ℤ
effective_port port = if is_zero port then pos 853 else port

module _ {F : Type 0} where
  unfoldable pub get_address : Upstream F → Text
  unfolding effective_port
  get_address u = sprintf_pair u.name (effective_port u.port)

  unfoldable pub set_weight : F → Upstream F → Upstream F
  set_weight w u = record u { weight = w }

  -- The clock's reading comes first.
  unfoldable pub cooldown : Time → ℤ → Upstream F → Upstream F
  cooldown now d u = record u { wakeup_time = time_add now d }

  unfoldable pub is_cooling : Time → Upstream F → Bool
  is_cooling now u = ltb now u.wakeup_time

module _ {F : Type 0} (fl : Floats F) where
  -- Upstream{}
  unfoldable pub no_upstream : Upstream F
  no_upstream = record { name = []; port = pos 0; weight = fl.zero; wakeup_time = 0 }

  -- u == Upstream{}
  unfoldable pub is_no_upstream : Upstream F → Bool
  is_no_upstream u =
      text_eq u.name [] && is_zero u.port && fl.eqb u.weight fl.zero && u.wakeup_time == 0

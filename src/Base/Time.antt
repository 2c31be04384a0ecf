-- ===== src/Base/Time.antt =====
-- time.Time as nanoseconds since the zero time, and time.Duration as nanoseconds: a duration that is
-- measured is not negative, and one that is configured is an integer.
use Prim.Native.Nat.{ℕ, ◌+◌, ◌-◌, ◌*◌}
use funkyd.Base.Tests.{leb, if◌then◌else◌}
use funkyd.Base.Int.{ℤ, pos, negsuc}

abbrev pub Time : Type 0
Time = ℕ

abbrev pub Duration : Type 0
Duration = ℕ

abbrev pub second : Duration
second = 1_000_000_000

abbrev pub millisecond : Duration
millisecond = 1_000_000

-- d * time.Millisecond, which may be negative.
abbrev pub milliseconds : ℤ → ℤ
milliseconds (pos n) = pos (n * millisecond)
milliseconds (negsuc n) = negsuc ((n + 1) * millisecond - 1)

-- t.Add(d), which stops at the zero time.
abbrev pub time_add : Time → ℤ → Time
time_add t (pos n) = t + n
time_add t (negsuc n) = t - (n + 1)

-- t.Sub(u)
abbrev pub time_sub : Time → Time → ℤ
time_sub t u = if leb u t then pos (t - u) else negsuc (u - t - 1)

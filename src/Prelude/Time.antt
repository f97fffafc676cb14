-- ===== src/Prelude/Time.antt =====
-- Go's time package, as far as the engine uses it. A time is a number of nanoseconds since the
-- zero Time (so `IsZero` is the test against 0), a duration is a signed int64 of nanoseconds.
use Prim.Native.Nat.{ℕ, ◌+◌, ◌-◌, ◌*◌, ◌/◌, min}
use mathlib.Core.Bool.{Bool}
use openbao_plugin_secrets_o.Prelude.Tests.{leb, if◌then◌else◌}
use openbao_plugin_secrets_o.Prelude.Int.{ℤ, pos, negsuc, leb_ℤ, int64_limit}

abbrev pub second : ℕ
second = 1000000000

abbrev pub minute : ℕ
minute = 60 * second

abbrev pub hour : ℕ
hour = 60 * minute

abbrev pub zero_time : ℕ
zero_time = 0

-- `now.Sub(t)`: a difference beyond the range of Duration is clamped to its ends.
abbrev pub time_sub : ℕ → ℕ → ℤ
time_sub now t =
    if leb t now
    then pos (min (now - t) (int64_limit - 1))
    else negsuc (min (t - now - 1) (int64_limit - 1))

-- `t.Add(d)`.
abbrev pub time_add : ℕ → ℤ → ℕ
time_add t (pos n) = t + n
time_add t (negsuc n) = t - (n + 1)

-- `now.Sub(t) >= d`.
abbrev pub elapsed : ℕ → ℕ → ℤ → Bool
elapsed now t d = leb_ℤ d (time_sub now t)

-- `t.Truncate(time.Hour)`.
abbrev pub truncate_hour : ℕ → ℕ
truncate_hour t = t / hour * hour

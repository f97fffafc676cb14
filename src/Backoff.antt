-- ===== src/Backoff.antt =====
-- `backoffDelay` of backend/governor.go, on int64 durations: the doubling wraps.
mod Tests
pub mod Exact
use openbao_plugin_secrets_o.Prelude.{
  ℕ, zero, suc, ◌+◌, ◌-◌, ◌*◌, ◌^◌, ◌≤◌, ◌<◌, Bool, if◌then◌else◌,
}
use openbao_plugin_secrets_o.Prelude.Int.{ℤ, pos, negsuc, i64, ltb_ℤ, leb_ℤ}
use openbao_plugin_secrets_o.Prelude.Time.{second, hour}

-- `d *= 2`
abbrev pub double : ℤ → ℤ
double (pos n) = i64 (n * 2)
double (negsuc n) = i64 (2 ^ 65 - (n + 1) * 2)

-- The `for` loop, with the rounds that `i` still has to go.
unfoldable pub backoff_loop : ℕ → ℤ → ℤ → ℤ
backoff_loop zero d max_delay = d
backoff_loop (suc rounds) d max_delay =
    let rest = backoff_loop rounds (double d) max_delay in if ltb_ℤ d max_delay then rest else d

unfoldable pub backoff_delay : ℕ → ℤ → ℤ
unfolding backoff_loop
backoff_delay consecutive_failures max_delay =
    let cap = if leb_ℤ max_delay (pos 0) then pos hour else max_delay in
    let d = backoff_loop (consecutive_failures - 1) (pos second) cap in
    if ltb_ℤ cap d then cap else d

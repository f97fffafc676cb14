-- ===== src/Backoff/Tests.antt =====
-- The third failure, against a refresh interval of an hour.
use openbao_plugin_secrets_o.Prelude.{◌*◌, ◌^◌, ◌-◌, ◌≡◌, refl, min, arith}
use openbao_plugin_secrets_o.Prelude.Int.{pos, i64}
use openbao_plugin_secrets_o.Prelude.Time.{second, hour}
use openbao_plugin_secrets_o.Backoff.{backoff_delay}
use openbao_plugin_secrets_o.Backoff.Exact.{backoff_delay-exact}

backoff_delay-exact_example : backoff_delay 3 (pos hour) ≡ pos (min (second * 2 ^ (3 - 1)) hour)
backoff_delay-exact_example = backoff_delay-exact 3 hour (omega arith) (omega arith)

third_failure : backoff_delay 3 (pos hour) ≡ pos (4 * second)
unfolding backoff_delay i64
third_failure = refl

-- ===== src/Governor/Status.antt =====
-- backend/governor.go: `snapshot`, what the status endpoint shows of the governor.
use openbao_plugin_secrets_o.Prelude.{
  ℕ, ◌*◌, Bool, not, ◌&&◌, List, [], ◌∷◌, ltb, leb, str_eq, if◌then◌else◌,
}
use openbao_plugin_secrets_o.Prelude.Int.{ℤ, pos_part}
use openbao_plugin_secrets_o.Prelude.Time.{hour}
use openbao_plugin_secrets_o.Prelude.Table.{Table}
use openbao_plugin_secrets_o.Governor.{
  GovState, VaultBackoff, ProbeWarning, Governor, prune, count_since, pct_of,
}

pub record Snapshot : Type 0 where
  pub state : GovState
  pub resume_at : ℕ
  pub throttled : Bool
  pub hourly_usage_pct : ℕ
  pub daily_usage_pct : ℕ
  pub usage_pct : ℕ
  pub probe_configured : Bool
  pub probe_healthy : Bool
  pub probe_err : List ℕ
  pub probe_warning : List ProbeWarning
  pub probed_account_pct : ℤ
  pub last_probe_at : ℕ
  pub backoff : Table ℕ
  pub client_init_failures : ℕ
  pub client_init_last_err : List ℕ

-- The loop over the backoffs: those that still hold, with their counts.
pub active_backoffs : ℕ → Table VaultBackoff → Table ℕ
active_backoffs now [] = []
active_backoffs now ((id, b) ∷ bs) =
    let rest = active_backoffs now bs in
    if ltb now b.next_allowed_at then (id, b.consecutive_failures) ∷ rest else rest

unfoldable pub snapshot : Governor → ℕ → Governor × Snapshot
unfolding prune pct_of count_since active_backoffs
snapshot g now =
    let g' = prune g now in
    let hourly = count_since g'.events now hour in
    let hourly_pct = pct_of hourly g'.hourly_limit in
    let daily_pct = pct_of (count_since g'.events now (24 * hour)) g'.daily_limit in
    let pct = if ltb hourly_pct daily_pct then daily_pct else hourly_pct in
    (
      g',
      record {
        state = g'.state;
        resume_at = g'.resume_at;
        throttled =
            ltb 0 (pos_part g'.hourly_limit) && leb (4 * pos_part g'.hourly_limit) (5 * hourly);
        hourly_usage_pct = hourly_pct;
        daily_usage_pct = daily_pct;
        usage_pct =
            if g'.probe_healthy && ltb pct (pos_part g'.probed_account_pct)
            then pos_part g'.probed_account_pct
            else pct;
        probe_configured = not (str_eq g'.probe_cmd "");
        probe_healthy = g'.probe_healthy;
        probe_err = g'.probe_err;
        probe_warning = g'.probe_warning;
        probed_account_pct = g'.probed_account_pct;
        last_probe_at = g'.last_probe_at;
        backoff = active_backoffs now g'.backoff;
        client_init_failures = g'.client_init.consecutive_failures;
        client_init_last_err = g'.client_init.last_err;
      },
    )

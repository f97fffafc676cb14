-- ===== src/Config/Tests.antt =====
-- A configuration that is accepted, and some that are not.
use openbao_plugin_secrets_o.Prelude.{◌*◌, true, none, some, [], ◌∷◌, ◌≡◌, refl, any}
use openbao_plugin_secrets_o.Prelude.Int.{pos}
use openbao_plugin_secrets_o.Prelude.Time.{second, minute}
use openbao_plugin_secrets_o.Prelude.Text.{cut}
use openbao_plugin_secrets_o.Config.{
  Config, not_in_vaults, over_guardrail, Compile, listed, unlisted, validate,
}

abbrev pub never_compiles : Compile
never_compiles s = none

abbrev good : Config
good = record {
  service_account_token = "ops_token";
  vaults = "mail" ∷ "bank" ∷ [];
  write_vaults = "bank" ∷ [];
  refresh_interval = pos (15 * minute);
  daily_request_limit = pos 1000;
  hourly_read_limit = pos 1000;
  passthrough = true;
  passthrough_ceiling_pct = pos 80;
  passthrough_ttl = pos 0;
  serve_stale = true;
  negative_cache_ttl = pos minute;
  path_split = "";
  always_fresh = "mail/otp" ∷ [];
  ratelimit_probe_cmd = "/usr/bin/probe";
}

accepts_good : validate never_compiles good ≡ none
unfolding validate unlisted listed any cut
accepts_good = refl

refuses_foreign_write_vault :
    validate never_compiles (record good { write_vaults = "other" ∷ [] })
    ≡ some (not_in_vaults "other")
unfolding validate unlisted listed any
refuses_foreign_write_vault = refl

refuses_over_budget :
    validate never_compiles (record good { daily_request_limit = pos 1 }) ≡ some over_guardrail
unfolding validate unlisted listed any cut
refuses_over_budget = refl

-- A configuration with the default limits, for one vault.
abbrev pub with_defaults : Config
with_defaults = record {
  service_account_token = "ops_token";
  vaults = "Infra" ∷ [];
  write_vaults = [];
  refresh_interval = pos (15 * minute);
  daily_request_limit = pos 1000;
  hourly_read_limit = pos 1000;
  passthrough = true;
  passthrough_ceiling_pct = pos 25;
  passthrough_ttl = pos minute;
  serve_stale = true;
  negative_cache_ttl = pos (30 * second);
  path_split = "";
  always_fresh = [];
  ratelimit_probe_cmd = "";
}

pub accepts_defaults : validate never_compiles with_defaults ≡ none
unfolding validate unlisted listed any cut
accepts_defaults = refl

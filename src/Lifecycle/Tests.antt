-- ===== src/Lifecycle/Tests.antt =====
-- A configuration that takes a vault out of `vaults`, on an engine whose directory is built.
use openbao_plugin_secrets_o.Client.{OpClient}
use openbao_plugin_secrets_o.Prelude.{ℕ, String, true, none, some, [], ◌∷◌, ◌≡◌, ◌≢◌, refl}
use openbao_plugin_secrets_o.Prelude.Int.{pos}
use openbao_plugin_secrets_o.Prelude.Time.{minute, hour}
use openbao_plugin_secrets_o.Prelude.Table.{lookup}
use openbao_plugin_secrets_o.Onepassword.{ok}
use openbao_plugin_secrets_o.Config.{Config, Compile}
use openbao_plugin_secrets_o.Config.Rules.{IsValid}
use openbao_plugin_secrets_o.Governor.{auth_failed, new_governor}
use openbao_plugin_secrets_o.Fake.{FakeOpClient, new_fake, fake_client}
use openbao_plugin_secrets_o.Probe.{printed}
use openbao_plugin_secrets_o.Engine.{Engine, Clock, Factory, got, resolve_vault_address}
use openbao_plugin_secrets_o.Lifecycle.Allowlist.{
  ticks, allowlist_outlives_config, apply_config-whole,
}
use openbao_plugin_secrets_o.Lifecycle.{ApplyError, Tick, apply_config}

abbrev id_name : ℕ → String
id_name n = "new"

abbrev pub always : Factory FakeOpClient
always token f = (ok (fake_client id_name), f)

abbrev pub no_regexp : Compile
no_regexp s = none

abbrev narrowed : Config
narrowed = record {
  service_account_token = "ops_token";
  vaults = "Other" ∷ [];
  write_vaults = [];
  refresh_interval = pos hour;
  daily_request_limit = pos 1000;
  hourly_read_limit = pos 100;
  passthrough = true;
  passthrough_ceiling_pct = pos 80;
  passthrough_ttl = pos 0;
  serve_stale = true;
  negative_cache_ttl = pos minute;
  path_split = "";
  always_fresh = [];
  ratelimit_probe_cmd = "";
}

abbrev running : Engine FakeOpClient
running = record {
  config = some (record narrowed { vaults = "Infra" ∷ [] });
  client = some (fake_client id_name);
  splitter = none;
  replicas = [];
  gate = new_governor;
  directory = some (("v1", record { id = "v1"; title = "Infra"; active_item_count = 1 }) ∷ []);
  allowlist = ("v1", tt) ∷ [];
  unresolved = [];
  remote = new_fake;
}

abbrev pub noon : Clock
noon = record {
  now = hour;
  client_asked = hour;
  client_built = hour;
  cycle = record { asked = hour; listed = hour; got = hour; done = hour };
}

abbrev pub one_tick : Tick
one_tick = record {
  first = noon;
  cold = λ id. noon;
  now = hour;
  due = λ id. noon;
  percent = λ used limit. pos 0;
  output = printed [];
  probe_asked = hour;
  probe_done = hour;
}

allowlist_outlives_config_example :
    resolve_vault_address
      (ticks always
        (one_tick ∷ one_tick ∷ [])
        (apply_config always no_regexp none narrowed running).0)
      "Infra"
    ≡ resolve_vault_address running "Infra"
allowlist_outlives_config_example =
    allowlist_outlives_config always no_regexp none narrowed running
      (("v1", record { id = "v1"; title = "Infra"; active_item_count = 1 }) ∷ [])
      (one_tick ∷ one_tick ∷ []) "Infra" refl

infra_is_reached : resolve_vault_address running "Infra" ≡ got "v1"
unfolding resolve_vault_address lookup
infra_is_reached = refl

apply_config-whole_example :
    let (e', failure) = apply_config always no_regexp none narrowed running in
    ((x : ApplyError)
      → failure ≡ some x
      → (e'.config ≡ running.config)
        × (e'.client ≡ running.client)
        × (e'.splitter ≡ none)
        × (e'.replicas ≡ [])
        × (e'.gate ≡ new_governor))
    × (failure ≡ none
        → (e'.config ≡ some narrowed)
          × IsValid no_regexp narrowed
          × ((client : OpClient FakeOpClient) × ((always "ops_token" running.remote).0 ≡ ok client)
              × (e'.client ≡ some client))
          × (e'.gate.state ≢ auth_failed))
apply_config-whole_example = apply_config-whole always no_regexp none narrowed running

-- ===== src/Settings/Tests.antt =====
-- A configuration that is written, read back and loaded, on a storage of one entry.
use openbao_plugin_secrets_o.Prelude.{
  String, Option, none, some, [], ◌∷◌, ◌≡◌, refl, if◌then◌else◌, str_eq,
}
use openbao_plugin_secrets_o.Prelude.Int.{ℤ, pos, negsuc, i64}
use openbao_plugin_secrets_o.Onepassword.{ok}
use openbao_plugin_secrets_o.Config.{Config}
use openbao_plugin_secrets_o.Config.Rules.{IsValid}
use openbao_plugin_secrets_o.Config.Tests.{never_compiles, with_defaults, accepts_defaults}
use openbao_plugin_secrets_o.Governor.{new_governor}
use openbao_plugin_secrets_o.Fake.{FakeOpClient, new_fake}
use openbao_plugin_secrets_o.Engine.{Engine}
use openbao_plugin_secrets_o.Lifecycle.{apply_config, apply_client}
use openbao_plugin_secrets_o.Lifecycle.Tests.{always, noon}
use openbao_plugin_secrets_o.Settings.{
  ConfigRequest, Storage, Codec, config_of, config_response_data, ConfigAnswer, config_written,
  apply_and_store, put_config, service_account_token_required, seconds_of, path_config_read,
  path_config_write, initialize,
}
use openbao_plugin_secrets_o.Settings.RoundTrip.{PutsAreRead, Decodes, config_is_kept}

abbrev pub one_entry : Storage (Option Config) Config
one_entry = record { get = λ key s. ok s; put = λ key v s. (some v, none) }

abbrev pub request : ConfigRequest
request = record {
  service_account_token = some "ops_token";
  vaults = some ("Infra" ∷ []);
  write_vaults = none;
  refresh_interval = some (pos 900);
  daily_request_limit = none;
  hourly_read_limit = none;
  passthrough = none;
  passthrough_ceiling_pct = none;
  passthrough_ttl = none;
  serve_stale = none;
  negative_cache_ttl = none;
  path_split = none;
  always_fresh = none;
  ratelimit_probe_cmd = none;
}

abbrev pub parse : String → ℤ
parse s = if str_eq s "15m" then pos 900 else (if str_eq s "1m" then pos 60 else pos 30)

abbrev show : ℤ → String
show d = "a while"

abbrev fresh : Engine FakeOpClient
fresh = record {
  config = none;
  client = none;
  splitter = none;
  replicas = [];
  gate = new_governor;
  directory = none;
  allowlist = [];
  unresolved = [];
  remote = new_fake;
}

-- A codec that keeps the configuration as it is.
abbrev pub plain : Codec Config
plain = record { encode = λ cfg. ok cfg; decode = λ cfg. ok cfg }

puts_are_read : PutsAreRead one_entry
puts_are_read key v s stored = refl

plain-Decodes : Decodes plain
plain-Decodes cfg v h = cc

abbrev first_write : (Engine FakeOpClient × Option Config) × ConfigAnswer
first_write = path_config_write one_entry plain always never_compiles parse request (fresh, none)

asks_for_defaults : config_of parse request ≡ with_defaults
unfolding config_of seconds_of i64
asks_for_defaults = refl

is_written : first_write.1 ≡ config_written
unfolding path_config_write apply_and_store put_config apply_config apply_client
is_written = rw (asks_for_defaults, apply_config, accepts_defaults) refl

config_is_kept_example :
    let cfg = config_of parse request in
    let state = first_write.0 in
    IsValid never_compiles cfg
    × (state.0.config ≡ some cfg)
    × (path_config_read one_entry plain show state.1 ≡ ok (some (config_response_data show cfg)))
    × ((initialize one_entry plain always never_compiles noon (λ id. noon) state.1 fresh).config
        ≡ some cfg)
config_is_kept_example =
    config_is_kept one_entry plain always never_compiles puts_are_read plain-Decodes parse show
      request fresh none noon (λ id. noon) fresh is_written

a_token_is_required :
    path_config_write one_entry plain always never_compiles parse
      (record request { service_account_token = none })
      (fresh, none)
    ≡ ((fresh, none), service_account_token_required)
unfolding path_config_write
a_token_is_required = refl

-- `time.Duration(n) * time.Second` overflows from 2^63 nanoseconds on, and keeps small negatives.
a_minute : seconds_of (pos 60) ≡ pos 60000000000
unfolding seconds_of i64
a_minute = refl

below_zero : seconds_of (negsuc 0) ≡ negsuc 999999999
unfolding seconds_of i64
below_zero = refl

too_long : seconds_of (pos 9223372037) ≡ negsuc 9223372036709551615
unfolding seconds_of i64
too_long = refl

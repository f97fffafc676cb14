-- ===== src/Settings.antt =====
-- backend/paths_config.go pathConfigWrite and pathConfigRead, backend/config.go
-- getConfigFromStorage and configResponseData, and backend/backend.go initialize. The framework's
-- storage, JSON, its parse of a duration and Go's text of one are arguments.
pub mod RoundTrip
pub mod Tests
use openbao_plugin_secrets_o.Prelude.{
  ℕ, suc, ◌-◌, ◌*◌, ◌%◌, ◌^◌, String, Bool, true, false, Option, none, some, List, [], str_eq,
  if◌then◌else◌,
}
use openbao_plugin_secrets_o.Prelude.Int.{ℤ, pos, negsuc, i64}
use openbao_plugin_secrets_o.Prelude.Time.{second}
use openbao_plugin_secrets_o.Onepassword.{SdkError, Result, ok, err}
use openbao_plugin_secrets_o.Config.{Config, Compile}
use openbao_plugin_secrets_o.Engine.{Engine, Clock, Factory}
use openbao_plugin_secrets_o.Lifecycle.{
  ApplyError, invalid, path_split_invalid, client_failed, not_stored, apply_config,
  load_persisted_config, cold_start,
}

-- What the request gives for each field; none where it does not name the field.
pub record ConfigRequest : Type 0 where
  pub service_account_token : Option String
  pub vaults : Option (List String)
  pub write_vaults : Option (List String)
  pub refresh_interval : Option ℤ
  pub daily_request_limit : Option ℤ
  pub hourly_read_limit : Option ℤ
  pub passthrough : Option Bool
  pub passthrough_ceiling_pct : Option ℤ
  pub passthrough_ttl : Option ℤ
  pub serve_stale : Option Bool
  pub negative_cache_ttl : Option ℤ
  pub path_split : Option String
  pub always_fresh : Option (List String)
  pub ratelimit_probe_cmd : Option String

-- `logical.Storage`, with V for an entry's value: a Get reads an entry, if there is one; a Put may
-- fail.
pub record Storage (S V : Type 0) : Type 0 where
  pub get : String → S → Result (Option V)
  pub put : String → V → S → S × Option SdkError

-- `logical.StorageEntryJSON` and `DecodeJSON`.
pub record Codec (V : Type 0) : Type 0 where
  pub encode : Config → Result V
  pub decode : V → Result Config

abbrev pub config_storage_key : String
config_storage_key = "config"

-- The defaults of the schema.
abbrev pub default_refresh_interval : String
default_refresh_interval = "15m"

abbrev pub default_passthrough_ttl : String
default_passthrough_ttl = "1m"

abbrev pub default_negative_cache_ttl : String
default_negative_cache_ttl = "30s"

abbrev pub default_daily_request_limit : ℤ
default_daily_request_limit = pos 1000

abbrev pub default_hourly_read_limit : ℤ
default_hourly_read_limit = pos 1000

abbrev pub default_passthrough_ceiling_pct : ℤ
default_passthrough_ceiling_pct = pos 25

abbrev pub or_default {ℓ} : {A : Type ℓ} → A → Option A → A
or_default a none = a
or_default a (some given) = given

-- `time.Duration(n) * time.Second`, in an int64.
unfoldable pub seconds_of : ℤ → ℤ
seconds_of (pos n) = i64 (n * second)
seconds_of (negsuc n) = i64 (2 ^ 64 - suc n * second % 2 ^ 64)

-- The Config that `pathConfigWrite` builds; `parse` is the framework's for a duration's default.
unfoldable pub config_of : (String → ℤ) → ConfigRequest → Config
unfolding seconds_of
config_of parse req = record {
  service_account_token = or_default "" req.service_account_token;
  vaults = or_default [] req.vaults;
  write_vaults = or_default [] req.write_vaults;
  refresh_interval = seconds_of (or_default (parse default_refresh_interval) req.refresh_interval);
  daily_request_limit = or_default default_daily_request_limit req.daily_request_limit;
  hourly_read_limit = or_default default_hourly_read_limit req.hourly_read_limit;
  passthrough = or_default true req.passthrough;
  passthrough_ceiling_pct = or_default default_passthrough_ceiling_pct req.passthrough_ceiling_pct;
  passthrough_ttl = seconds_of (or_default (parse default_passthrough_ttl) req.passthrough_ttl);
  serve_stale = or_default true req.serve_stale;
  negative_cache_ttl =
      seconds_of (or_default (parse default_negative_cache_ttl) req.negative_cache_ttl);
  path_split = or_default "" req.path_split;
  always_fresh = or_default [] req.always_fresh;
  ratelimit_probe_cmd = or_default "" req.ratelimit_probe_cmd;
}

-- The response to a read: every setting but the token.
pub record ConfigData : Type 0 where
  pub vaults : List String
  pub write_vaults : List String
  pub refresh_interval : String
  pub daily_request_limit : ℤ
  pub hourly_read_limit : ℤ
  pub passthrough : Bool
  pub passthrough_ceiling_pct : ℤ
  pub passthrough_ttl : String
  pub serve_stale : Bool
  pub negative_cache_ttl : String
  pub path_split : String
  pub always_fresh : List String
  pub ratelimit_probe_cmd : String

unfoldable pub config_response_data : (ℤ → String) → Config → ConfigData
config_response_data show cfg = record {
  vaults = cfg.vaults;
  write_vaults = cfg.write_vaults;
  refresh_interval = show cfg.refresh_interval;
  daily_request_limit = cfg.daily_request_limit;
  hourly_read_limit = cfg.hourly_read_limit;
  passthrough = cfg.passthrough;
  passthrough_ceiling_pct = cfg.passthrough_ceiling_pct;
  passthrough_ttl = show cfg.passthrough_ttl;
  serve_stale = cfg.serve_stale;
  negative_cache_ttl = show cfg.negative_cache_ttl;
  path_split = cfg.path_split;
  always_fresh = cfg.always_fresh;
  ratelimit_probe_cmd = cfg.ratelimit_probe_cmd;
}

pub data ConfigAnswer : Type 0 where
  config_written : ConfigAnswer
  service_account_token_required : ConfigAnswer
  config_refused : ApplyError → ConfigAnswer

abbrev pub answer_of : Option ApplyError → ConfigAnswer
answer_of none = config_written
answer_of (some x) = config_refused x

-- Whether `applyConfig` comes as far as the storage.
abbrev pub reaches_storage : Option ApplyError → Bool
reaches_storage none = true
reaches_storage (some (invalid x)) = false
reaches_storage (some (path_split_invalid s)) = false
reaches_storage (some (client_failed x)) = false
reaches_storage (some (not_stored x)) = true

module _ {S V : Type 0} (storage : Storage S V) (codec : Codec V) where
  -- The entry of the configuration is encoded and put.
  unfoldable pub put_config : Config → S → S × Option SdkError
  put_config cfg s = elim (codec.encode cfg) [
    | err x ↦ (s, some x)
    | ok v ↦ storage.put config_storage_key v s
  ]

  abbrev pub decoded : Option V → Result (Option Config)
  decoded none = ok none
  decoded (some v) = elim (codec.decode v) [ err x ↦ err x | ok cfg ↦ ok (some cfg) ]

  unfoldable pub get_config_from_storage : S → Result (Option Config)
  get_config_from_storage s = elim (storage.get config_storage_key s) [
    | err x ↦ err x
    | ok entry ↦ decoded entry
  ]

  unfoldable pub path_config_read : (ℤ → String) → S → Result (Option ConfigData)
  unfolding get_config_from_storage config_response_data
  path_config_read show s = elim (get_config_from_storage s) [
    | err x ↦ err x
    | ok none ↦ ok none
    | ok (some cfg) ↦ ok (some (config_response_data show cfg))
  ]

  module _ {W : Type 0} (factory : Factory W) (compile : Compile) where
    -- `applyConfig` with the storage it writes to.
    unfoldable pub apply_and_store : Config → Engine W × S → (Engine W × S) × Option ApplyError
    unfolding put_config apply_config
    apply_and_store cfg (e, s) =
        let (s', put) = put_config cfg s in
        let (e', failure) = apply_config factory compile put cfg e in
        ((e', if reaches_storage failure then s' else s), failure)

    unfoldable pub path_config_write :
        (String → ℤ) → ConfigRequest → Engine W × S → (Engine W × S) × ConfigAnswer
    unfolding apply_and_store config_of
    path_config_write parse req state =
        let (state', failure) = apply_and_store (config_of parse req) state in
        if str_eq (or_default "" req.service_account_token) ""
        then (state, service_account_token_required)
        else (state', answer_of failure)

    -- The Initialize hook, after a restart.
    unfoldable pub initialize : Clock → (String → Clock) → S → Engine W → Engine W
    unfolding get_config_from_storage load_persisted_config cold_start
    initialize first at s e = elim (get_config_from_storage s) [
      | err x ↦ e
      | ok none ↦ e
      | ok (some cfg) ↦
          let (e', failure) = load_persisted_config factory compile cfg e in
          elim failure [ some x ↦ e | none ↦ cold_start factory first at e' ]
    ]

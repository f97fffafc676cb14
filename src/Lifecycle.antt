-- ===== src/Lifecycle.antt =====
-- backend/config.go applyConfig, and backend/backend.go loadPersistedConfig, coldStart and
-- periodic; backend/paths_invalidate.go and backend/paths_refresh.go. `put` is what the storage
-- answers to the Put of the configuration. `at id` holds the clock readings of the cycle that is
-- run for the vault `id`.
pub mod Allowlist
pub mod Tests
use openbao_plugin_secrets_o.Prelude.{
  ℕ, String, Bool, true, false, not, ◌&&◌, ◌||◌, ◌==◌, Option, none, some, List, [], ◌∷◌, map,
  length, str_eq, if◌then◌else◌,
}
use openbao_plugin_secrets_o.Prelude.Time.{elapsed}
use openbao_plugin_secrets_o.Prelude.Table.{Table, keys}
use openbao_plugin_secrets_o.Prelude.Sort.{sort_strings}
use openbao_plugin_secrets_o.Onepassword.{SdkError, Result, ok, err}
use openbao_plugin_secrets_o.Config.{Config, ConfigError, Compile, Splitter, validate}
use openbao_plugin_secrets_o.Governor.{Governor, periodic, manual, reconfigure}
use openbao_plugin_secrets_o.Probe.{Percent, Output, run_probe_if_due}
use openbao_plugin_secrets_o.Replica.{Replica, clear_negative_cache, invalidate}
use openbao_plugin_secrets_o.Engine.{
  Engine, Clock, EngineError, Factory, Outcome, got, refused, resolve_vault_address, replica_of,
  put_replica, open_replica, run_vault_cycle, refresh_vault_directory,
}

pub data ApplyError : Type 0 where
  invalid : ConfigError → ApplyError
  path_split_invalid : String → ApplyError
  client_failed : SdkError → ApplyError
  not_stored : SdkError → ApplyError

unfoldable pub clear_all : Table Replica → Table Replica
clear_all [] = []
clear_all ((id, r) ∷ rs) = (id, clear_negative_cache r) ∷ clear_all rs

-- The compiled `path_split`, or that it does not compile.
abbrev pub splitter_of : Compile → String → Option (Option Splitter)
splitter_of compile s =
    if str_eq s "" then some none else elim (compile s) [ none ↦ none | some f ↦ some (some f) ]

abbrev pub is_built {ℓ} : {A : Type ℓ} → Option A → Bool
is_built none = false
is_built (some a) = true

-- What the two loops and the probe of one tick read from the clock and the command.
pub record Tick : Type 0 where
  pub first : Clock
  pub cold : String → Clock
  pub now : ℕ
  pub due : String → Clock
  pub percent : Percent
  pub output : Output
  pub probe_asked : ℕ
  pub probe_done : ℕ

module _ {W : Type 0} (factory : Factory W) where
  -- What `applyConfig` stores under `b.mu`, and the governor's part.
  abbrev pub install : Config → Option Splitter → Engine W → Engine W
  install cfg splitter e = record e {
    config = some cfg;
    splitter = splitter;
    replicas = clear_all e.replicas;
    gate = reconfigure e.gate cfg;
  }

  -- Behind the compiled pattern: the client, the storage, the running state.
  unfoldable pub apply_client :
      Option SdkError → Config → Option Splitter → Engine W → Engine W × Option ApplyError
  unfolding clear_all
  apply_client put cfg splitter e =
      let (built, w) = factory cfg.service_account_token e.remote in
      elim built [
        | err x ↦ (record e { remote = w }, some (client_failed x))
        | ok client ↦ elim put [
          | some x ↦ (record e { remote = w }, some (not_stored x))
          | none ↦ (install cfg splitter (record e { remote = w; client = some client }), none)
        ]
      ]

  unfoldable pub apply_config :
      Compile → Option SdkError → Config → Engine W → Engine W × Option ApplyError
  unfolding apply_client
  apply_config compile put cfg e = elim (validate compile cfg) [
    | some x ↦ (e, some (invalid x))
    | none ↦ elim (splitter_of compile cfg.path_split) [
      | none ↦ (e, some (path_split_invalid cfg.path_split))
      | some splitter ↦ apply_client put cfg splitter e
    ]
  ]

  unfoldable pub load_persisted_config : Compile → Config → Engine W → Engine W × Option ApplyError
  load_persisted_config compile cfg e = elim (splitter_of compile cfg.path_split) [
    | none ↦ (e, some (path_split_invalid cfg.path_split))
    | some splitter ↦
        (record e { config = some cfg; splitter = splitter; gate = reconfigure e.gate cfg }, none)
  ]

  -- The loop of `coldStart` over the allowlist: a vault without items gets a cycle.
  unfoldable pub warm_up : (String → Clock) → List String → Engine W → Engine W
  warm_up at [] e = e
  warm_up at (id ∷ ids) e =
      let opened = open_replica e id in
      let ran = run_vault_cycle factory (at id) id periodic opened in
      warm_up at ids (if length (replica_of opened id).overview == 0 then ran else opened)

  abbrev pub build_directory : Clock → Engine W → Engine W
  build_directory at e =
      let built = (refresh_vault_directory factory at e).0 in
      if is_built e.directory then e else built

  unfoldable pub cold_start : Clock → (String → Clock) → Engine W → Engine W
  unfolding warm_up
  cold_start first at e = elim e.config [
    | none ↦ e
    | some cfg ↦ let e' = build_directory first e in warm_up at (keys e'.allowlist) e'
  ]

  -- The loop of `periodic`: a vault that has completed a cycle gets its next one when the refresh
  -- interval has passed.
  unfoldable pub refresh_due : ℕ → Config → (String → Clock) → List String → Engine W → Engine W
  refresh_due now cfg at [] e = e
  refresh_due now cfg at (id ∷ ids) e =
      let opened = open_replica e id in
      let last = (replica_of opened id).last_cycle in
      let ran = run_vault_cycle factory (at id) id periodic opened in
      refresh_due now cfg at ids
        (if last == 0 || not (elapsed now last cfg.refresh_interval) then opened else ran)

  unfoldable pub tick : Tick → Engine W → Engine W
  unfolding cold_start refresh_due
  tick t e = elim e.config [
    | none ↦ e
    | some cfg ↦
        let warm = cold_start t.first t.cold e in
        let fresh = refresh_due t.now cfg t.due (keys warm.allowlist) warm in
        record fresh {
          gate = run_probe_if_due t.percent t.output t.probe_asked t.probe_done fresh.gate;
        }
  ]

  -- `pathInvalidateAllWrite` and `pathInvalidateVaultWrite`.
  unfoldable pub invalidate_vault : ℕ → Engine W → String → Engine W
  invalidate_vault now e id =
      let opened = open_replica e id in
      put_replica opened id (invalidate (replica_of opened id) now)

  unfoldable pub invalidate_all : ℕ → List String → Engine W → Engine W
  unfolding invalidate_vault
  invalidate_all now [] e = e
  invalidate_all now (id ∷ ids) e = invalidate_all now ids (invalidate_vault now e id)

  unfoldable pub path_invalidate_all : ℕ → Engine W → Engine W × List String
  unfolding invalidate_all
  path_invalidate_all now e =
      let ids = sort_strings (keys e.allowlist) in (invalidate_all now ids e, ids)

  unfoldable pub path_invalidate_vault : ℕ → String → Engine W → Engine W × Option EngineError
  unfolding invalidate_vault
  path_invalidate_vault now addr e = elim (resolve_vault_address e addr) [
    | refused x ↦ (e, some x)
    | got id ↦ (invalidate_vault now e id, none)
  ]

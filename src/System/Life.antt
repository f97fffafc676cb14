-- ===== src/System/Life.antt =====
-- Writes of the configuration, restarts and periodic ticks, and a property of every replica.
use mathlib.Core.Path.{subst}
use openbao_plugin_secrets_o.Prelude.{
  ℕ, String, not, ◌==◌, ◌||◌, length, str_eq, Option, none, some, List, [], ◌∷◌, ◌≡◌, refl, inl,
  inr, arith, Bool-cases, Option-cases,
}
use openbao_plugin_secrets_o.Prelude.Int.{ℤ}
use openbao_plugin_secrets_o.Prelude.Time.{elapsed}
use openbao_plugin_secrets_o.Prelude.Table.{Table, lookup, keys}
use openbao_plugin_secrets_o.Onepassword.{SdkError, Result-cases}
use openbao_plugin_secrets_o.Config.{Config, Compile, Splitter, validate}
use openbao_plugin_secrets_o.Governor.{periodic}
use openbao_plugin_secrets_o.Replica.{Replica, clear_negative_cache}
use openbao_plugin_secrets_o.Cycle.Interleave.{clears}
use openbao_plugin_secrets_o.Engine.{
  Engine, Clock, Factory, replica_of, open_replica, refresh_vault_directory, run_vault_cycle,
}
use openbao_plugin_secrets_o.Lifecycle.{
  clear_all, is_built, splitter_of, install, apply_client, apply_config, load_persisted_config,
  warm_up, build_directory, cold_start, refresh_due, Tick, tick,
}
use openbao_plugin_secrets_o.Settings.{
  Storage, Codec, ConfigRequest, or_default, config_of, get_config_from_storage, put_config,
  apply_and_store, path_config_write, initialize,
}
use openbao_plugin_secrets_o.System.Reads.{if-good, run_vault_cycle-good}
use openbao_plugin_secrets_o.System.Closed.{
  IsClosed, AllGood, same_replicas-good, open_replica-good, ensure_client-replicas,
}

abbrev cleared : Option Replica → Option Replica
cleared none = none
cleared (some r) = some (clear_negative_cache r)

lookup-clear_all :
    (id : String) (m : Table Replica) → lookup id (clear_all m) ≡ cleared (lookup id m)
unfolding clear_all lookup
lookup-clear_all id [] = refl
lookup-clear_all id ((j, r) ∷ m) = elim (Bool-cases (str_eq j id)) [
  | inl here ↦ rw here refl
  | inr other ↦ rw other (lookup-clear_all id m)
]

module _ (Good : String → Replica → Type 0) (closed : IsClosed Good) {W : Type 0}
    (factory : Factory W) where
  clear_all-good :
      (m : Table Replica)
      → ((id : String) (r : Replica) → lookup id m ≡ some r → Good id r)
      → (id : String) (r : Replica) → lookup id (clear_all m) ≡ some r
      → Good id r
  clear_all-good m all id r there = elim (Option-cases (lookup id m)) [
    | inl missing ↦ absurd (ground (arith, lookup-clear_all id m, missing, there))
    | inr (s, held) ↦
        let same : clear_negative_cache s ≡ r =
          ground (arith, lookup-clear_all id m, held, there) in
        subst (Good id) same (closed.steps none id (clears s) (all id s held))
  ]

  refresh_vault_directory-replicas :
      (at : Clock) (e : Engine W) → (refresh_vault_directory factory at e).0.replicas ≡ e.replicas
  unfolding refresh_vault_directory
  refresh_vault_directory-replicas at e =
      ground (arith, ensure_client-replicas Good closed factory at e)

  warm_up-good :
      (at : String → Clock) (ids : List String) (e : Engine W)
      → AllGood Good e
      → AllGood Good (warm_up factory at ids e)
  unfolding warm_up
  warm_up-good at [] e all = all
  warm_up-good at (id ∷ ids) e all =
      let opened = open_replica e id in
      let all' = open_replica-good Good closed e id all in
      warm_up-good at ids _ (
        if-good Good closed factory (length (replica_of opened id).overview == 0)
          (run_vault_cycle factory (at id) id periodic opened) opened
          (run_vault_cycle-good Good closed factory (at id) id periodic opened all') all')

  cold_start-good :
      (first : Clock) (at : String → Clock) (e : Engine W)
      → AllGood Good e
      → AllGood Good (cold_start factory first at e)
  unfolding cold_start
  cold_start-good first at e all = elim (Option-cases e.config) [
    | inl missing ↦ rw (cold_start, missing) all
    | inr (cfg, configured) ↦
        let built = (refresh_vault_directory factory first e).0 in
        let all' =
          if-good Good closed factory (is_built e.directory) e built all (
            same_replicas-good Good closed e built (refresh_vault_directory-replicas first e)
              all) in
        rw (cold_start, configured)
          (warm_up-good at (keys (build_directory factory first e).allowlist) _ all')
  ]

  refresh_due-good :
      (now : ℕ) (cfg : Config) (at : String → Clock) (ids : List String) (e : Engine W)
      → AllGood Good e
      → AllGood Good (refresh_due factory now cfg at ids e)
  unfolding refresh_due
  refresh_due-good now cfg at [] e all = all
  refresh_due-good now cfg at (id ∷ ids) e all =
      let opened = open_replica e id in
      let last = (replica_of opened id).last_cycle in
      let all' = open_replica-good Good closed e id all in
      refresh_due-good now cfg at ids _ (
        if-good Good closed factory (last == 0 || not (elapsed now last cfg.refresh_interval))
          opened (run_vault_cycle factory (at id) id periodic opened) all'
          (run_vault_cycle-good Good closed factory (at id) id periodic opened all'))

  pub tick-good : (t : Tick) (e : Engine W) → AllGood Good e → AllGood Good (tick factory t e)
  unfolding tick
  tick-good t e all = elim (Option-cases e.config) [
    | inl missing ↦ rw (tick, missing) all
    | inr (cfg, configured) ↦
        let warm = cold_start factory t.first t.cold e in
        let fresh = refresh_due factory t.now cfg t.due (keys warm.allowlist) warm in
        rw (tick, configured)
          (same_replicas-good Good closed fresh _ refl (
            refresh_due-good t.now cfg t.due (keys warm.allowlist) warm
              (cold_start-good t.first t.cold e all)))
  ]

  install-good :
      (cfg : Config) (splitter : Option Splitter) (e : Engine W)
      → AllGood Good e
      → AllGood Good (install factory cfg splitter e)
  unfolding AllGood
  install-good cfg splitter e all = clear_all-good e.replicas all

  apply_client-good :
      (put : Option SdkError) (cfg : Config) (splitter : Option Splitter) (e : Engine W)
      → AllGood Good e
      → AllGood Good (apply_client factory put cfg splitter e).0
  unfolding apply_client
  apply_client-good put cfg splitter e all =
      elim (Result-cases (factory cfg.service_account_token e.remote).0) [
        | inl (x, refusal) ↦
            rw (apply_client, refusal) (same_replicas-good Good closed e _ refl all)
        | inr (client, built) ↦ elim (Option-cases put) [
          | inr (x, lost) ↦
              rw (apply_client, built, lost) (same_replicas-good Good closed e _ refl all)
          | inl stored ↦
              rw (apply_client, built, stored)
                (install-good cfg splitter
                  (record e {
                    remote = (factory cfg.service_account_token e.remote).1;
                    client = some client;
                  })
                  (same_replicas-good Good closed e _ refl all))
        ]
      ]

  apply_config-good :
      (compile : Compile) (put : Option SdkError) (cfg : Config) (e : Engine W)
      → AllGood Good e
      → AllGood Good (apply_config factory compile put cfg e).0
  unfolding apply_config
  apply_config-good compile put cfg e all = elim (Option-cases (validate compile cfg)) [
    | inr (x, wrong) ↦ rw (apply_config, wrong) all
    | inl fine ↦ elim (Option-cases (splitter_of compile cfg.path_split)) [
      | inl broken ↦ rw (apply_config, fine, broken) all
      | inr (splitter, compiled) ↦
          rw (apply_config, fine, compiled) (apply_client-good put cfg splitter e all)
    ]
  ]

  module _ {S V : Type 0} (storage : Storage S V) (codec : Codec V) (compile : Compile) where
    pub path_config_write-good :
        (parse : String → ℤ) (req : ConfigRequest) (e : Engine W) (s : S)
        → AllGood Good e
        → AllGood Good (path_config_write storage codec factory compile parse req (e, s)).0.0
    unfolding path_config_write apply_and_store
    path_config_write-good parse req e s all =
        let cfg = config_of parse req in
        let all' = apply_config-good compile (put_config storage codec cfg s).1 cfg e all in
        elim (Bool-cases (str_eq (or_default "" req.service_account_token) "")) [
          | inl missing ↦ rw (path_config_write, missing) all
          | inr given ↦ rw (path_config_write, given) all'
        ]

    pub initialize-good :
        (first : Clock) (at : String → Clock) (s : S) (e : Engine W)
        → AllGood Good e
        → AllGood Good (initialize storage codec factory compile first at s e)
    unfolding initialize
    initialize-good first at s e all =
        elim (Result-cases (get_config_from_storage storage codec s)) [
          | inl (x, lost) ↦ rw (initialize, lost) all
          | inr (stored, read) ↦ elim (Option-cases stored) [
            | inl nothing ↦ rw (initialize, read, nothing) all
            | inr (cfg, held) ↦
                let (e', failure) = load_persisted_config factory compile cfg e in
                let kept : e'.replicas ≡ e.replicas =
                  unfold load_persisted_config in ground arith in
                elim (Option-cases failure) [
                  | inr (x, broken) ↦ rw (initialize, read, held, broken) all
                  | inl loaded ↦
                      rw (initialize, read, held, loaded)
                        (cold_start-good first at e' (same_replicas-good Good closed e e' kept all))
                ]
          ]
        ]

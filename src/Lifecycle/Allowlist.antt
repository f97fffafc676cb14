-- ===== src/Lifecycle/Allowlist.antt =====
-- What a write of the configuration changes, and what it does not.
use openbao_plugin_secrets_o.Prelude.{
  ℕ, String, not, ◌||◌, ◌==◌, Option, none, some, List, [], ◌∷◌, ◌≡◌, ◌≢◌, refl, ◌∙◌, length, arith,
  Bool-cases, Option-cases, inl, inr,
}
use openbao_plugin_secrets_o.Prelude.Time.{elapsed}
use openbao_plugin_secrets_o.Prelude.Table.{Table, has, keys}
use openbao_plugin_secrets_o.Onepassword.{VaultOverview, SdkError, ok, Result-cases}
use openbao_plugin_secrets_o.Client.{OpClient}
use openbao_plugin_secrets_o.Config.{Config, Compile, validate}
use openbao_plugin_secrets_o.Config.Rules.{IsValid, validate-IsValid}
use openbao_plugin_secrets_o.Governor.{auth_failed, WorkClass, periodic}
use openbao_plugin_secrets_o.Governor.Lock.{reconfigure-state}
use openbao_plugin_secrets_o.Engine.{
  Engine, Clock, Factory, resolve_vault_address, ensure_client, build_client, replica_of,
  put_replica, open_replica, vault_cycle, run_vault_cycle,
}
use openbao_plugin_secrets_o.Lifecycle.{
  ApplyError, apply_client, apply_config, build_directory, warm_up, cold_start, refresh_due, Tick,
  tick,
}

-- What an address of a vault depends on, and the configuration.
pub record SameVaults {W : Type 0} (e f : Engine W) : Type 0 where
  pub directory : f.directory ≡ e.directory
  pub allowlist : f.allowlist ≡ e.allowlist
  pub config : f.config ≡ e.config

module _ {W : Type 0} where
  pub same_vaults :
      {e f : Engine W}
      → f.directory ≡ e.directory
      → f.allowlist ≡ e.allowlist
      → f.config ≡ e.config
      → SameVaults e f
  same_vaults d a c = record { directory = d; allowlist = a; config = c }

  pub SameVaults-trans : {e f g : Engine W} → SameVaults e f → SameVaults f g → SameVaults e g
  SameVaults-trans s t =
      same_vaults (t.directory ∙ s.directory) (t.allowlist ∙ s.allowlist) (t.config ∙ s.config)

  pub open_replica-SameVaults : (e : Engine W) (id : String) → SameVaults e (open_replica e id)
  unfolding open_replica put_replica
  open_replica-SameVaults e id = elim (Bool-cases (has id e.replicas)) [
    | inl there ↦ rw there (same_vaults refl refl refl)
    | inr new ↦ rw new (same_vaults refl refl refl)
  ]

  module _ (factory : Factory W) where
    pub ensure_client-SameVaults :
        (at : Clock) (e : Engine W) → SameVaults e (ensure_client factory at e).0
    unfolding ensure_client build_client
    ensure_client-SameVaults at e = same_vaults (ground arith) (ground arith) (ground arith)

    pub run_vault_cycle-SameVaults :
        (at : Clock) (id : String) (class : WorkClass) (e : Engine W)
        → SameVaults e (run_vault_cycle factory at id class e)
    unfolding run_vault_cycle vault_cycle put_replica
    run_vault_cycle-SameVaults at id class e =
        let opened = open_replica-SameVaults e id in
        let built = ensure_client-SameVaults at (open_replica e id) in
        let s = SameVaults-trans opened built in
        same_vaults (ground (arith, s.directory)) (ground (arith, s.allowlist))
          (ground (arith, s.config))

    pub warm_up-SameVaults :
        (at : String → Clock) (ids : List String) (e : Engine W)
        → SameVaults e (warm_up factory at ids e)
    unfolding warm_up
    warm_up-SameVaults at [] e = same_vaults refl refl refl
    warm_up-SameVaults at (id ∷ ids) e =
        let opened = open_replica e id in
        let s = open_replica-SameVaults e id in
        elim (Bool-cases (length (replica_of opened id).overview == 0)) [
          | inl cold ↦ rw cold (
              SameVaults-trans s (
                SameVaults-trans (run_vault_cycle-SameVaults (at id) id periodic opened)
                  (warm_up-SameVaults at ids _)))
          | inr warm ↦ rw warm (SameVaults-trans s (warm_up-SameVaults at ids opened))
        ]

    refresh_due-SameVaults :
        (now : ℕ) (cfg : Config) (at : String → Clock) (ids : List String) (e : Engine W)
        → SameVaults e (refresh_due factory now cfg at ids e)
    unfolding refresh_due
    refresh_due-SameVaults now cfg at [] e = same_vaults refl refl refl
    refresh_due-SameVaults now cfg at (id ∷ ids) e =
        let opened = open_replica e id in
        let last = (replica_of opened id).last_cycle in
        let s = open_replica-SameVaults e id in
        elim (Bool-cases (last == 0 || not (elapsed now last cfg.refresh_interval))) [
          | inl wait ↦ rw wait (SameVaults-trans s (refresh_due-SameVaults now cfg at ids opened))
          | inr due ↦ rw due (
              SameVaults-trans s (
                SameVaults-trans (run_vault_cycle-SameVaults (at id) id periodic opened)
                  (refresh_due-SameVaults now cfg at ids _)))
        ]

    cold_start-SameVaults :
        (first : Clock) (at : String → Clock) (e : Engine W) (dir : Table VaultOverview)
        → e.directory ≡ some dir
        → SameVaults e (cold_start factory first at e)
    unfolding cold_start
    cold_start-SameVaults first at e dir built =
        let kept : build_directory factory first e ≡ e = ground (arith, built) in
        let s = warm_up-SameVaults at (keys e.allowlist) e in
        same_vaults (ground (arith, kept, s.directory)) (ground (arith, kept, s.allowlist))
          (ground (arith, kept, s.config))

    tick-SameVaults :
        (t : Tick) (e : Engine W) (dir : Table VaultOverview)
        → e.directory ≡ some dir
        → SameVaults e (tick factory t e)
    unfolding tick
    tick-SameVaults t e dir built = elim (Option-cases e.config) [
      | inl missing ↦ same_vaults (ground arith) (ground arith) (ground arith)
      | inr (cfg, configured) ↦
          let warm = cold_start factory t.first t.cold e in
          let s =
            SameVaults-trans (cold_start-SameVaults t.first t.cold e dir built)
              (refresh_due-SameVaults t.now cfg t.due (keys warm.allowlist) warm) in
          same_vaults (ground (arith, configured, s.directory))
            (ground (arith, configured, s.allowlist)) (ground (arith, configured, s.config))
    ]

    abbrev pub ticks : List Tick → Engine W → Engine W
    ticks [] e = e
    ticks (t ∷ ts) e = ticks ts (tick factory t e)

    ticks-SameVaults :
        (ts : List Tick) (e : Engine W) (dir : Table VaultOverview)
        → e.directory ≡ some dir
        → SameVaults e (ticks ts e)
    ticks-SameVaults [] e dir built = same_vaults refl refl refl
    ticks-SameVaults (t ∷ ts) e dir built =
        let s = tick-SameVaults t e dir built in
        SameVaults-trans s (ticks-SameVaults ts (tick factory t e) dir (s.directory ∙ built))

    apply_config-vaults :
        (compile : Compile) (put : Option SdkError) (cfg : Config) (e : Engine W)
        → let e' = (apply_config factory compile put cfg e).0 in
          (e'.directory ≡ e.directory) × (e'.allowlist ≡ e.allowlist)
    unfolding apply_config apply_client
    apply_config-vaults compile put cfg e = (ground arith, ground arith)

    pub resolve_vault_address-same :
        (e f : Engine W) (name : String)
        → f.directory ≡ e.directory
        → f.allowlist ≡ e.allowlist
        → resolve_vault_address f name ≡ resolve_vault_address e name
    unfolding resolve_vault_address
    resolve_vault_address-same e f name d a = ground (arith, d, a)

    -- Once the directory is built, a write of the configuration changes no vault's address, however
    -- many periodic ticks follow: what `vaults` says then is not looked at.
    pub allowlist_outlives_config :
        (compile : Compile) (put : Option SdkError) (cfg : Config) (e : Engine W)
        (dir : Table VaultOverview) (ts : List Tick) (name : String)
        → e.directory ≡ some dir
        → resolve_vault_address (ticks ts (apply_config factory compile put cfg e).0) name
          ≡ resolve_vault_address e name
    allowlist_outlives_config compile put cfg e dir ts name built =
        let e' = (apply_config factory compile put cfg e).0 in
        let (d, a) = apply_config-vaults compile put cfg e in
        let s = ticks-SameVaults ts e' dir (d ∙ built) in
        resolve_vault_address-same e (ticks ts e') name (s.directory ∙ d) (s.allowlist ∙ a)

    apply_config-client :
        (compile : Compile) (put : Option SdkError) (cfg : Config) (e : Engine W)
        → let (e', failure) = apply_config factory compile put cfg e in
          failure ≡ none
          → (client : OpClient W) × ((factory cfg.service_account_token e.remote).0 ≡ ok client)
            × (e'.client ≡ some client)
    unfolding apply_config apply_client
    apply_config-client compile put cfg e h =
        elim (Result-cases (factory cfg.service_account_token e.remote).0) [
          | inl (x, failed) ↦ absurd (ground arith)
          | inr (client, built) ↦ (client, built, ground arith)
        ]

    -- A write of the configuration is done as a whole or not at all. One that fails leaves the
    -- configuration, the client, the replicas and the governor as they were; one that succeeds has
    -- met every rule, works with the client that the factory builds from the token it is given,
    -- whichever client there was before, and ends an authentication failure.
    pub apply_config-whole :
        (compile : Compile) (put : Option SdkError) (cfg : Config) (e : Engine W)
        → let (e', failure) = apply_config factory compile put cfg e in
          ((x : ApplyError)
            → failure ≡ some x
            → (e'.config ≡ e.config)
              × (e'.client ≡ e.client)
              × (e'.splitter ≡ e.splitter)
              × (e'.replicas ≡ e.replicas)
              × (e'.gate ≡ e.gate))
          × (failure ≡ none
              → (e'.config ≡ some cfg)
                × IsValid compile cfg
                × ((client : OpClient W) × ((factory cfg.service_account_token e.remote).0
                      ≡ ok client)
                    × (e'.client ≡ some client))
                × (e'.gate.state ≢ auth_failed))
    unfolding apply_config apply_client
    apply_config-whole compile put cfg e = (
      λ x h. ground arith,
      λ h.
          let valid : validate compile cfg ≡ none = ground arith in
          let unlocked = (reconfigure-state e.gate cfg).0 in
          (
            ground arith,
            (validate-IsValid compile cfg).0 valid,
            apply_config-client compile put cfg e h,
            λ locked. ground (arith, unlocked),
          ),
    )

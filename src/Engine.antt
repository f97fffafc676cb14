-- ===== src/Engine.antt =====
-- backend/backend.go: the engine's state and what it does for a request. `factory` builds a
-- client from a token (the SDK's constructor), and `remote` is the other side, which only calls of
-- a client change. Requests are taken one at a time; `Clock` holds the readings of the clock that
-- one of them makes. `b.mu` guards single reads and writes of the fields.
pub mod Vaults
pub mod Freshness
pub mod Reads
mod Tests
use openbao_plugin_secrets_o.Prelude.{
  ℕ, String, Bool, true, false, not, ◌&&◌, ◌||◌, ◌==◌, Option, none, some, List, [], ◌∷◌, ◌++◌, map,
  any, length, str_eq, if◌then◌else◌, ◌≡◌, refl, ◌⊎◌, inl, inr,
}
use openbao_plugin_secrets_o.Prelude.Int.{ℤ, pos, pos_part, neg_part, leb_ℤ, ltb_ℤ}
use openbao_plugin_secrets_o.Prelude.Time.{zero_time, time_sub, elapsed}
use openbao_plugin_secrets_o.Prelude.Table.{Table, lookup, insert, has, keys}
use openbao_plugin_secrets_o.Prelude.Text.{cut}
use openbao_plugin_secrets_o.Prelude.Sort.{sort_strings}
use openbao_plugin_secrets_o.Onepassword.{VaultOverview, SdkError, Result, ok, err}
use openbao_plugin_secrets_o.Client.{OpClient}
use openbao_plugin_secrets_o.Config.{Config, Splitter}
use openbao_plugin_secrets_o.Backoff.{double}
use openbao_plugin_secrets_o.Governor.{
  Governor, WorkClass, periodic, miss, client_init_allowed, record_client_init_result, usage_pct,
}
use openbao_plugin_secrets_o.Replica.{
  AddressError, not_found, ambiguous_title, Replica, new_replica, negative_cache_hit,
  negative_cache_store, overview_title,
}
use openbao_plugin_secrets_o.Cycle.{governor_gate, CycleError, Moments, World, do_cycle}
use openbao_plugin_secrets_o.Address.{FieldAddress, field_at, no_field}

pub record Clock : Type 0 where
  pub now : ℕ
  pub client_asked : ℕ
  pub client_built : ℕ
  pub cycle : Moments

pub data EngineError : Type 0 where
  no_client : EngineError
  client_unavailable : EngineError
  replica_empty : EngineError
  address : AddressError → EngineError
  list_vaults_failed : SdkError → EngineError
  stale_serve_disabled : EngineError

pub data VaultCycleError : Type 0 where
  client_refused : EngineError → VaultCycleError
  cycle_failed : CycleError → VaultCycleError

abbrev pub cycle_failure : Option CycleError → Option VaultCycleError
cycle_failure none = none
cycle_failure (some x) = some (cycle_failed x)

pub record Engine (W : Type 0) : Type 0 where
  pub config : Option Config
  pub client : Option (OpClient W)
  pub splitter : Option Splitter
  pub replicas : Table Replica
  pub gate : Governor
  pub directory : Option (Table VaultOverview)
  pub allowlist : Table (Unit {0})
  pub unresolved : List String
  pub remote : W

abbrev pub Factory : Type 0 → Type 0
Factory W = String → W → Result (OpClient W) × W

-- Vault addresses.
abbrev pub has_vault_title : String → Option VaultOverview → Bool
has_vault_title title none = false
has_vault_title title (some ov) = str_eq ov.title title

-- The loop over the allowlist that collects the vaults with the title.
unfoldable pub vaults_titled : Table VaultOverview → String → Table (Unit {0}) → List String
vaults_titled dir title [] = []
vaults_titled dir title ((id, u) ∷ ids) =
    let rest = vaults_titled dir title ids in
    if has_vault_title title (lookup id dir) then id ∷ rest else rest

pub data Outcome {ℓ} (A : Type ℓ) : Type ℓ where
  got : A → Outcome A
  refused : EngineError → Outcome A

-- To split on a computed outcome and keep the equation.
pub Outcome-cases {ℓ} :
    {A : Type ℓ} (o : Outcome A) → ((x : EngineError) × (o ≡ refused x)) ⊎ ((a : A) × (o ≡ got a))
Outcome-cases (got a) = inr (a, refl)
Outcome-cases (refused x) = inl (x, refl)

abbrev pub one_vault : String → List String → Outcome String
one_vault name [] = refused (address not_found)
one_vault name (id ∷ []) = got id
one_vault name (id ∷ id' ∷ ids) =
    refused (address (ambiguous_title name (sort_strings (id ∷ id' ∷ ids))))

-- What a build of the directory allows: the loop over `config.Vaults`.
abbrev pub titled : String → Table VaultOverview → List String
titled title [] = []
titled title ((id, ov) ∷ dir) =
    if str_eq ov.title title then id ∷ titled title dir else titled title dir

abbrev pub admit :
    List String → String → Table (Unit {0}) × List String → Table (Unit {0}) × List String
admit (id ∷ []) entry (allow, unresolved) = (insert id tt allow, unresolved)
admit _ entry (allow, unresolved) = (allow, unresolved ++ entry ∷ [])

unfoldable pub allow_entries :
    Table VaultOverview
    → List String
    → Table (Unit {0}) × List String
    → Table (Unit {0}) × List String
allow_entries dir [] s = s
allow_entries dir (entry ∷ entries) (allow, unresolved) = allow_entries dir entries (
    if has entry dir
    then (insert entry tt allow, unresolved)
    else admit (titled entry dir) entry (allow, unresolved))

unfoldable pub directory_of : List VaultOverview → Table VaultOverview → Table VaultOverview
directory_of [] dir = dir
directory_of (ov ∷ ovs) dir = directory_of ovs (insert ov.id ov dir)

abbrev pub title_of_vault : Option (Table VaultOverview) → String → String
title_of_vault none id = ""
title_of_vault (some dir) id = elim (lookup id dir) [ none ↦ "" | some ov ↦ ov.title ]

-- What a request finds: the item with its field, that it is absent, or an error.
pub data Found : Type 0 where
  found : String → String → String → Found
  absent : Found
  failed : EngineError → Found

abbrev or_new : String → Option Replica → Replica
or_new id none = new_replica id
or_new id (some r) = r

module _ {W : Type 0} where
  unfoldable pub resolve_vault_address : Engine W → String → Outcome String
  unfolding vaults_titled
  resolve_vault_address e name = elim e.directory [
    | none ↦ refused replica_empty
    | some dir ↦
        if has name e.allowlist
        then got name
        else one_vault name (vaults_titled dir name e.allowlist)
  ]

  -- `getOrCreateReplica`: the replica, and the engine that holds it.
  unfoldable pub replica_of : Engine W → String → Replica
  replica_of e id = or_new id (lookup id e.replicas)

  unfoldable pub put_replica : Engine W → String → Replica → Engine W
  put_replica e id r = record e { replicas = insert id r e.replicas }

  unfoldable pub open_replica : Engine W → String → Engine W
  unfolding put_replica
  open_replica e id = if has id e.replicas then e else put_replica e id (new_replica id)

  module _ (factory : Factory W) where
    unfoldable pub build_client : Clock → Config → Engine W → Engine W × Outcome (OpClient W)
    build_client at cfg e =
        let (g, allowed) = client_init_allowed e.gate at.client_asked in
        let (built, w) = factory cfg.service_account_token e.remote in
        if not allowed then (record e { gate = g }, refused client_unavailable) else elim built [
          | err x ↦ (
            record e { gate = record_client_init_result g at.client_built (some x); remote = w },
            refused client_unavailable,
          )
          | ok client ↦ (
            record e {
              gate = record_client_init_result g at.client_built none;
              remote = w;
              client = some client;
            },
            got client,
          )
        ]

    unfoldable pub ensure_client : Clock → Engine W → Engine W × Outcome (OpClient W)
    unfolding build_client
    ensure_client at e = elim e.client [
      | some client ↦ (e, got client)
      | none ↦ elim e.config [ none ↦ (e, refused no_client) | some cfg ↦ build_client at cfg e ]
    ]

    -- `runVaultCycle`, with the error it returns.
    unfoldable pub vault_cycle :
        Clock → String → WorkClass → Engine W → Engine W × Option VaultCycleError
    unfolding ensure_client replica_of put_replica open_replica
    vault_cycle at vault_id class e =
        let (e', client) = ensure_client at (open_replica e vault_id) in
        elim client [
          | refused x ↦ (e', some (client_refused x))
          | got c ↦
              let (s, failure) =
                do_cycle governor_gate c e'.splitter class at.cycle (record {
                  replica = replica_of e' vault_id;
                  gate = e'.gate;
                  remote = e'.remote;
                }) in
              (
                put_replica (record e' { gate = s.gate; remote = s.remote }) vault_id s.replica,
                cycle_failure failure,
              )
        ]

    -- Where the error is dropped.
    unfoldable pub run_vault_cycle : Clock → String → WorkClass → Engine W → Engine W
    unfolding vault_cycle
    run_vault_cycle at vault_id class e = (vault_cycle at vault_id class e).0

    unfoldable pub refresh_vault_directory : Clock → Engine W → Engine W × Option EngineError
    unfolding ensure_client allow_entries directory_of
    refresh_vault_directory at e = elim e.config [
      | none ↦ (e, some no_client)
      | some cfg ↦
          let (e', client) = ensure_client at e in
          elim client [
            | refused x ↦ (e', some x)
            | got c ↦
                let (listed, w) = c.list_vaults e'.remote in
                elim listed [
                  | err x ↦ (record e' { remote = w }, some (list_vaults_failed x))
                  | ok ovs ↦
                      let dir = directory_of ovs [] in
                      let (allow, unresolved) = allow_entries dir cfg.vaults ([], []) in
                      (
                        record e' {
                          remote = w;
                          directory = some dir;
                          allowlist = allow;
                          unresolved = sort_strings unresolved;
                        },
                        none,
                      )
                ]
          ]
    ]

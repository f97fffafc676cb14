-- ===== src/Settings/RoundTrip.antt =====
-- backend/paths_config.go and backend/backend.go initialize: what is written is what is read, and
-- what a restart runs with.
use openbao_plugin_secrets_o.Prelude.{String, Option, none, some, ◌≡◌, refl, arith, inl, inr}
use openbao_plugin_secrets_o.Prelude.Int.{ℤ}
use openbao_plugin_secrets_o.Prelude.Table.{keys}
use openbao_plugin_secrets_o.Onepassword.{Result-cases, ok}
use openbao_plugin_secrets_o.Config.{Config, Compile, Splitter}
use openbao_plugin_secrets_o.Config.Rules.{IsValid}
use openbao_plugin_secrets_o.Engine.{Engine, Clock, Factory, refresh_vault_directory}
use openbao_plugin_secrets_o.Lifecycle.{
  apply_config, apply_client, build_directory, cold_start, load_persisted_config, splitter_of,
}
use openbao_plugin_secrets_o.Lifecycle.Allowlist.{
  ensure_client-SameVaults, warm_up-SameVaults, apply_config-whole,
}
use openbao_plugin_secrets_o.Settings.{
  ConfigRequest, Storage, Codec, config_storage_key, config_of, config_response_data,
  config_written, put_config, get_config_from_storage, path_config_read, apply_and_store,
  path_config_write, initialize,
}

-- A value that was put is what a Get then reads.
abbrev pub PutsAreRead : {S V : Type 0} → Storage S V → Type 0
PutsAreRead {S} {V} storage =
    (key : String) (v : V) (s : S)
    → (storage.put key v s).1 ≡ none
    → storage.get key (storage.put key v s).0 ≡ ok (some v)

-- What was encoded decodes to the configuration it was.
abbrev pub Decodes : {V : Type 0} → Codec V → Type 0
Decodes {V} codec = (cfg : Config) (v : V) → codec.encode cfg ≡ ok v → codec.decode v ≡ ok cfg

module _ {S V : Type 0} (storage : Storage S V) (codec : Codec V) where
  put_config-get :
      PutsAreRead storage
      → Decodes codec
      → (cfg : Config) (s : S) → (put_config storage codec cfg s).1 ≡ none
      → get_config_from_storage storage codec (put_config storage codec cfg s).0 ≡ ok (some cfg)
  unfolding put_config get_config_from_storage
  put_config-get reads decodes cfg s stored = elim (Result-cases (codec.encode cfg)) [
    | inl (x, failed) ↦ ground (arith, failed, stored)
    | inr (v, encoded) ↦
        let put : (storage.put config_storage_key v s).1 ≡ none = ground (arith, encoded, stored) in
        ground (arith, encoded, reads config_storage_key v s put, decodes cfg v encoded)
  ]

module _ {W : Type 0} (factory : Factory W) where
  build_directory-config :
      (at : Clock) (e : Engine W) → (build_directory factory at e).config ≡ e.config
  unfolding refresh_vault_directory
  build_directory-config at e =
      let s = ensure_client-SameVaults factory at e in ground (arith, s.config)

  cold_start-config :
      (first : Clock) (at : String → Clock) (e : Engine W)
      → (cold_start factory first at e).config ≡ e.config
  unfolding cold_start
  cold_start-config first at e =
      let e' = build_directory factory first e in
      let s = warm_up-SameVaults factory at (keys e'.allowlist) e' in
      ground (arith, s.config, build_directory-config first e)

module _ {S V W : Type 0} (storage : Storage S V) (codec : Codec V) (factory : Factory W)
    (compile : Compile) where
  -- What is loaded is what the storage holds, whatever the network does.
  initialize-config :
      (first : Clock) (at : String → Clock) (cfg : Config) (s : S) (e : Engine W)
      → get_config_from_storage storage codec s ≡ ok (some cfg)
      → (splitter : Option Splitter) → splitter_of compile cfg.path_split ≡ some splitter
      → (initialize storage codec factory compile first at s e).config ≡ some cfg
  unfolding initialize load_persisted_config
  initialize-config first at cfg s e held splitter compiled =
      let (e', failure) = load_persisted_config factory compile cfg e in
      ground (arith, held, compiled, cold_start-config factory first at e')

  apply_and_store-put :
      (cfg : Config) (e : Engine W) (s : S)
      → (apply_and_store storage codec factory compile cfg (e, s)).1 ≡ none
      → ((put_config storage codec cfg s).1 ≡ none)
        × ((apply_and_store storage codec factory compile cfg (e, s)).0.1
            ≡ (put_config storage codec cfg s).0)
        × (splitter_of compile cfg.path_split
            ≡ some (apply_and_store storage codec factory compile cfg (e, s)).0.0.splitter)
  unfolding apply_and_store apply_config apply_client
  apply_and_store-put cfg e s done = (ground arith, ground arith, ground arith)

  -- What a write that is accepted is: its configuration is applied and stored.
  path_config_write-done :
      (parse : String → ℤ) (req : ConfigRequest) (state : Engine W × S)
      → let applied = apply_and_store storage codec factory compile (config_of parse req) state in
        let (after, answer) = path_config_write storage codec factory compile parse req state in
        answer ≡ config_written → (applied.1 ≡ none) × (after ≡ applied.0)
  unfolding path_config_write
  path_config_write-done parse req state written = (ground arith, ground arith)

  -- A write of the configuration that is accepted was of a valid one; from then on the engine runs
  -- with it, a read gives it back without the token, and a restart loads it, in whatever state the
  -- engine comes up and whatever 1Password answers. `reads` and `decodes` state that the storage
  -- and the JSON of the framework keep what they are given.
  pub config_is_kept :
      (reads : PutsAreRead storage) (decodes : Decodes codec) (parse : String → ℤ)
      (show : ℤ → String) (req : ConfigRequest) (e : Engine W) (s : S) (first : Clock)
      (at : String → Clock) (restarted : Engine W)
      → let cfg = config_of parse req in
        let (state, answer) = path_config_write storage codec factory compile parse req (e, s) in
        answer ≡ config_written
        → IsValid compile cfg
          × (state.0.config ≡ some cfg)
          × (path_config_read storage codec show state.1
              ≡ ok (some (config_response_data show cfg)))
          × ((initialize storage codec factory compile first at state.1 restarted).config
              ≡ some cfg)
  unfolding path_config_read apply_and_store
  config_is_kept reads decodes parse show req e s first at restarted written =
      let cfg = config_of parse req in
      let (done, after) = path_config_write-done parse req (e, s) written in
      let (stored, state, compiled) = apply_and_store-put cfg e s done in
      let held = put_config-get storage codec reads decodes cfg s stored in
      let (running, valid, client, unlocked) =
        (apply_config-whole factory compile (put_config storage codec cfg s).1 cfg e).1 done in
      rw (after, state)
        (
          valid,
          running,
          rw (path_config_read, held) refl,
          initialize-config first at cfg _ restarted held _ compiled,
        )

-- ===== src/System.antt =====
-- backend/backend.go newBackend: the whole engine, with the handler of each path, the periodic
-- tick and the restart. Each event carries what its handler reads of the request and the clock.
pub mod Closed
pub mod Reads
pub mod Handlers
pub mod Writes
pub mod Puts
pub mod Life
pub mod Dispatch
pub mod Sound
mod Tests
use openbao_plugin_secrets_o.Prelude.{ℕ, String, Option, none, List, [], ◌∷◌}
use openbao_plugin_secrets_o.Prelude.Int.{ℤ}
use openbao_plugin_secrets_o.Config.{Compile}
use openbao_plugin_secrets_o.Governor.{new_governor}
use openbao_plugin_secrets_o.Engine.{Engine, Clock, Factory}
use openbao_plugin_secrets_o.Lifecycle.{Tick, tick, path_invalidate_all, path_invalidate_vault}
use openbao_plugin_secrets_o.Settings.{ConfigRequest, Storage, Codec, path_config_write, initialize}
use openbao_plugin_secrets_o.Requests.{
  ReadClock, path_item_read, path_field_read, path_item_existence, path_refresh_all,
  path_refresh_vault,
}
use openbao_plugin_secrets_o.Listing.{path_vault_items_list}
use openbao_plugin_secrets_o.Status.{path_status_read}
use openbao_plugin_secrets_o.Fields.Body.{Members}
use openbao_plugin_secrets_o.Writes.{Names, ItemWrite, WriteClock}
use openbao_plugin_secrets_o.Writes.Handlers.{path_item_write, path_field_write, path_item_delete}

-- The requests that can change the engine or its storage (a read of the configuration and the
-- list of the vaults change nothing), the tick of PeriodicFunc, and a restart of the plugin.
pub data Event : Type 0 where
  config_write : ConfigRequest → Event
  status_read : ℕ → Event
  items_list : Clock → String → Event
  item_read : ReadClock → String → String → Event
  field_read : ReadClock → String → String → Event
  item_existence : String → String → Event
  item_write : WriteClock → ℕ → String → String → Members → ItemWrite → Event
  field_write : WriteClock → ℕ → String → String → Option String → String → Event
  item_delete : WriteClock → String → String → Event
  refreshes_all : (String → Clock) → Event
  refreshes_vault : Clock → String → Event
  invalidates_all : ℕ → Event
  invalidates_vault : ℕ → String → Event
  periodic_tick : Tick → Event
  restart : Clock → (String → Clock) → Event

-- What the engine is built with: the constructor of the client, and the code outside the repository.
pub record Outside (W S V : Type 0) : Type 0 where
  pub factory : Factory W
  pub compile : Compile
  pub parse : String → ℤ
  pub storage : Storage S V
  pub codec : Codec V
  pub names : Names
  pub fresh_id : ℕ → String

abbrev pub new_backend : {W : Type 0} → W → Engine W
new_backend w = record {
  config = none;
  client = none;
  splitter = none;
  replicas = [];
  gate = new_governor;
  directory = none;
  allowlist = [];
  unresolved = [];
  remote = w;
}

module _ {W S V : Type 0} (out : Outside W S V) where
  unfoldable pub dispatch : Event → Engine W × S → Engine W × S
  unfolding path_config_write path_status_read path_vault_items_list path_item_read path_field_read
      path_item_existence path_item_write path_field_write path_item_delete path_refresh_all
      path_refresh_vault path_invalidate_all path_invalidate_vault tick initialize
  dispatch (config_write req) (e, s) =
      (path_config_write out.storage out.codec out.factory out.compile out.parse req (e, s)).0
  dispatch (status_read now) (e, s) = ((path_status_read now e).0, s)
  dispatch (items_list at vault) (e, s) = ((path_vault_items_list out.factory at vault e).0, s)
  dispatch (item_read at vault item) (e, s) = ((path_item_read out.factory at vault item e).0, s)
  dispatch (field_read at vault rest) (e, s) = ((path_field_read out.factory at vault rest e).0, s)
  dispatch (item_existence vault item) (e, s) =
      ((path_item_existence out.factory vault item e).0, s)
  dispatch (item_write at n vault item raw settings) (e, s) =
      ((path_item_write out.factory out.names out.fresh_id n at vault item raw settings e).0, s)
  dispatch (field_write at n vault rest value typ) (e, s) =
      ((path_field_write out.factory out.names out.fresh_id n at vault rest value typ e).0, s)
  dispatch (item_delete at vault item) (e, s) =
      ((path_item_delete out.factory at vault item e).0, s)
  dispatch (refreshes_all at) (e, s) = ((path_refresh_all out.factory at e).0, s)
  dispatch (refreshes_vault at vault) (e, s) = ((path_refresh_vault out.factory at vault e).0, s)
  dispatch (invalidates_all now) (e, s) = ((path_invalidate_all out.factory now e).0, s)
  dispatch (invalidates_vault now vault) (e, s) =
      ((path_invalidate_vault out.factory now vault e).0, s)
  dispatch (periodic_tick t) (e, s) = (tick out.factory t e, s)
  dispatch (restart first at) (e, s) = (
    initialize out.storage out.codec out.factory out.compile first at s (new_backend e.remote),
    s,
  )

  unfoldable pub dispatch_all : List Event → Engine W × S → Engine W × S
  unfolding dispatch
  dispatch_all [] state = state
  dispatch_all (event ∷ events) state = dispatch_all events (dispatch event state)

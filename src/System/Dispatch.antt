-- ===== src/System/Dispatch.antt =====
-- A property that new replicas have and steps keep holds of every replica of the engine, whatever
-- it is asked.
use openbao_plugin_secrets_o.Prelude.{String, List, [], ◌∷◌, arith}
use openbao_plugin_secrets_o.Prelude.Table.{lookup}
use openbao_plugin_secrets_o.Replica.{Replica}
use openbao_plugin_secrets_o.Engine.{Engine}
use openbao_plugin_secrets_o.System.Closed.{IsClosed, AllGood}
use openbao_plugin_secrets_o.System.Handlers.{
  path_item_read-good, path_field_read-good, path_item_existence-good, path_vault_items_list-good,
  path_refresh_all-good, path_refresh_vault-good, path_invalidate_all-good,
  path_invalidate_vault-good, path_status_read-good,
}
use openbao_plugin_secrets_o.System.Writes.{path_item_delete-good}
use openbao_plugin_secrets_o.System.Puts.{path_item_write-good, path_field_write-good}
use openbao_plugin_secrets_o.System.Life.{path_config_write-good, tick-good, initialize-good}
use openbao_plugin_secrets_o.System.{
  Event, config_write, status_read, items_list, item_read, field_read, item_existence, item_write,
  field_write, item_delete, refreshes_all, refreshes_vault, invalidates_all, invalidates_vault,
  periodic_tick, restart, Outside, new_backend, dispatch, dispatch_all,
}

-- Any property that new replicas have and steps keep holds of every replica of the engine.
module _ (Good : String → Replica → Type 0) (closed : IsClosed Good) {W S V : Type 0}
    (out : Outside W S V) where
  pub new_backend-good : (w : W) → AllGood Good (new_backend w)
  unfolding AllGood lookup
  new_backend-good w id r there = absurd (ground arith)

  dispatch-good :
      (event : Event) (e : Engine W) (s : S)
      → AllGood Good e
      → AllGood Good (dispatch out event (e, s)).0
  unfolding dispatch
  dispatch-good (config_write req) e s all =
      path_config_write-good Good closed out.factory out.storage out.codec out.compile out.parse req
        e s all
  dispatch-good (status_read now) e s all = path_status_read-good Good closed out.factory now e all
  dispatch-good (items_list at vault) e s all =
      path_vault_items_list-good Good closed out.factory at vault e all
  dispatch-good (item_read at vault item) e s all =
      path_item_read-good Good closed out.factory at vault item e all
  dispatch-good (field_read at vault rest) e s all =
      path_field_read-good Good closed out.factory at vault rest e all
  dispatch-good (item_existence vault item) e s all =
      path_item_existence-good Good closed out.factory vault item e all
  dispatch-good (item_write at n vault item raw settings) e s all =
      path_item_write-good Good closed out.factory out.names out.fresh_id n at vault item raw
        settings e all
  dispatch-good (field_write at n vault rest value typ) e s all =
      path_field_write-good Good closed out.factory out.names out.fresh_id n at vault rest value typ
        e all
  dispatch-good (item_delete at vault item) e s all =
      path_item_delete-good Good closed out.factory at vault item e all
  dispatch-good (refreshes_all at) e s all = path_refresh_all-good Good closed out.factory at e all
  dispatch-good (refreshes_vault at vault) e s all =
      path_refresh_vault-good Good closed out.factory at vault e all
  dispatch-good (invalidates_all now) e s all =
      path_invalidate_all-good Good closed out.factory now e all
  dispatch-good (invalidates_vault now vault) e s all =
      path_invalidate_vault-good Good closed out.factory now vault e all
  dispatch-good (periodic_tick t) e s all = tick-good Good closed out.factory t e all
  dispatch-good (restart first at) e s all =
      initialize-good Good closed out.factory out.storage out.codec out.compile first at s
        (new_backend e.remote) (new_backend-good e.remote)

  pub dispatch_all-good :
      (events : List Event) (state : Engine W × S)
      → AllGood Good state.0
      → AllGood Good (dispatch_all out events state).0
  unfolding dispatch_all
  dispatch_all-good [] state all = all
  dispatch_all-good (event ∷ events) state all =
      dispatch_all-good events _ (dispatch-good event state.0 state.1 all)

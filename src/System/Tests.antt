-- ===== src/System/Tests.antt =====
-- A run of the engine from its start: a configuration, ticks, reads, writes and a restart.
use openbao_plugin_secrets_o.Prelude.{◌*◌, String, Option, none, some, List, [], ◌∷◌, ◌≡◌, refl}
use openbao_plugin_secrets_o.Prelude.Time.{hour}
use openbao_plugin_secrets_o.Onepassword.{Item}
use openbao_plugin_secrets_o.Config.{Config}
use openbao_plugin_secrets_o.Config.Tests.{never_compiles, with_defaults}
use openbao_plugin_secrets_o.Replica.{resolved, body, overview_of, new_replica, rebuild_indexes}
use openbao_plugin_secrets_o.Replica.Consistent.{IsWhole}
use openbao_plugin_secrets_o.Address.{resolve_item_from_segments}
use openbao_plugin_secrets_o.Fake.{FakeOpClient, new_fake}
use openbao_plugin_secrets_o.Engine.{
  replica_of, allow_entries, directory_of, vault_cycle, run_vault_cycle, refresh_vault_directory,
  ensure_client, build_client, open_replica, put_replica,
}
use openbao_plugin_secrets_o.Lifecycle.Tests.{always, noon, one_tick}
use openbao_plugin_secrets_o.Requests.Tests.{reading}
use openbao_plugin_secrets_o.Settings.Tests.{one_entry, plain, parse, request}
use openbao_plugin_secrets_o.Writes.Tests.{sdk_names, moments, empty_body, version_of}
use openbao_plugin_secrets_o.Fields.Body.{nothing}
use openbao_plugin_secrets_o.System.Sound.{every_replica_is_sound}
use openbao_plugin_secrets_o.Settings.{initialize, get_config_from_storage}
use openbao_plugin_secrets_o.Prelude.Table.{lookup, insert, delete}
use openbao_plugin_secrets_o.Fake
use openbao_plugin_secrets_o.Client.{chunk_ids}
use openbao_plugin_secrets_o.Governor.{
  client_init_allowed, reconfigure, new_governor, allow, record_client_init_result,
}
use openbao_plugin_secrets_o.Cycle.{
  do_cycle, after_list, after_get, to_fetch, index_active, apply_cycle, absorb_all, absorb,
  remove_all, to_remove, keep_listed,
}
use openbao_plugin_secrets_o.Lifecycle.{load_persisted_config, cold_start, warm_up}
use openbao_plugin_secrets_o.System.{
  dispatch, Event, config_write, item_read, item_write, item_delete, invalidates_all, periodic_tick,
  restart, Outside, new_backend, dispatch_all,
}

abbrev around : Outside FakeOpClient (Option Config) Config
around = record {
  factory = always;
  compile = never_compiles;
  parse = parse;
  storage = one_entry;
  codec = plain;
  names = sdk_names;
  fresh_id = λ n. "id";
}

abbrev far_side : FakeOpClient
far_side = record new_fake {
  vaults = record { id = "v1"; title = "Infra"; active_item_count = 1 } ∷ [];
  items = ("v1", overview_of (version_of 1) ∷ []) ∷ [];
  item_bodies = ("v1", ("a", version_of 1) ∷ []) ∷ [];
}

abbrev day : List Event
day =
    config_write (record request { write_vaults = some ("Infra" ∷ []) })
    ∷ periodic_tick one_tick
    ∷ item_read reading "Infra" "a"
    ∷ item_write moments 0 "Infra" "a" nothing empty_body
    ∷ invalidates_all (2 * hour)
    ∷ restart noon (λ id. noon)
    ∷ item_delete moments "Infra" "a"
    ∷ []

every_replica_is_sound_example :
    let r = replica_of (dispatch_all around day (new_backend far_side, none)).0 "v1" in
    (r.vault_id ≡ "v1")
    × IsWhole r
    × ((segs : List String) (id : String)
        → resolve_item_from_segments r segs ≡ resolved id
        → (item : Item) × (body r id ≡ some item))
every_replica_is_sound_example = every_replica_is_sound around day far_side none "v1"

-- A restart with a stored configuration fills the replica of the vault.
a_restart_fills_the_replica :
    let e =
      (dispatch_all around
        (restart noon (λ id. noon) ∷ [])
        (new_backend far_side, some with_defaults)).0 in
    body (replica_of e "v1") "a" ≡ some (version_of 1)
unfolding dispatch_all dispatch initialize get_config_from_storage load_persisted_config cold_start
    warm_up vault_cycle run_vault_cycle refresh_vault_directory ensure_client build_client
    replica_of open_replica put_replica lookup insert body do_cycle client_init_allowed reconfigure
    new_governor Fake.fake_client new_replica allow record_client_init_result after_list after_get
    chunk_ids to_fetch index_active overview_of apply_cycle rebuild_indexes absorb_all absorb
    remove_all to_remove keep_listed delete allow_entries directory_of
a_restart_fills_the_replica = refl

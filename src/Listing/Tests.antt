-- ===== src/Listing/Tests.antt =====
-- The listings of one vault with one item.
use openbao_plugin_secrets_o.Prelude.{none, some, [], ◌∷◌, ◌≡◌, refl, inl}
use openbao_plugin_secrets_o.Prelude.Table.{lookup, insert, delete, is_some}
use openbao_plugin_secrets_o.Prelude.Text.{split}
use openbao_plugin_secrets_o.Prelude.Sort.{sort_strings}
use openbao_plugin_secrets_o.Onepassword.{Item}
use openbao_plugin_secrets_o.Replica.{
  new_replica, apply_write, rebuild_indexes, overview_of, overview_list, body,
}
use openbao_plugin_secrets_o.Replica.Consistent.{
  IsConsistent, new_replica-IsConsistent, apply_write-IsConsistent,
}
use openbao_plugin_secrets_o.Engine.{replica_of, open_replica, resolve_vault_address, got}
use openbao_plugin_secrets_o.Engine.Freshness.{ensure_vault_window_fresh}
use openbao_plugin_secrets_o.Engine.Reads.{ServesHeld}
use openbao_plugin_secrets_o.Requests.{
  ReadMeta, item_served, add_read_meta, item_response_data, path_item_read,
}
use openbao_plugin_secrets_o.Requests.Tests.{builds, account, quiet, warmed, reading}
use openbao_plugin_secrets_o.Listing.{
  Listing, ItemInfo, path_vaults_list, path_vault_items_list, item_listing, overview_ids,
  item_infos,
}
use openbao_plugin_secrets_o.Listing.Readable.{is_listed, listed_items_are_read}

abbrev infra_items : Listing ItemInfo
infra_items = record {
  listed = "a" ∷ [];
  key_info = ("a", record { title = "bank"; updated_at = 7 }) ∷ [];
}

lists_the_vaults : path_vaults_list warmed ≡ record {
  listed = "v1" ∷ [];
  key_info = ("v1", some (record { title = "Infra"; active_item_count = 1 })) ∷ [];
}
unfolding path_vaults_list sort_strings lookup
lists_the_vaults = refl

lists_the_items : (path_vault_items_list builds reading.clock "Infra" warmed).1 ≡ got infra_items
unfolding path_vault_items_list resolve_vault_address ensure_vault_window_fresh open_replica
    replica_of item_listing overview_ids item_infos overview_list apply_write rebuild_indexes
    overview_of new_replica lookup insert delete sort_strings
lists_the_items = refl

infra-IsConsistent :
    IsConsistent none
      (replica_of (path_vault_items_list builds reading.clock "Infra" warmed).0 "v1")
unfolding path_vault_items_list resolve_vault_address ensure_vault_window_fresh open_replica
    replica_of lookup
infra-IsConsistent =
    apply_write-IsConsistent none (new_replica "v1") account (new_replica-IsConsistent none "v1")

listed_items_are_read_example :
    let e' = (path_vault_items_list builds reading.clock "Infra" warmed).0 in
    let r = replica_of e' "v1" in
    (is_listed infra_items "a" ≡ is_some (body r "a"))
    × ((item : Item)
        → body r "a" ≡ some item
        → (meta : ReadMeta) × ((path_item_read builds reading "Infra" "a" e').1
            ≡ item_served (add_read_meta (item_response_data item) meta) meta))
listed_items_are_read_example =
    listed_items_are_read builds reading.clock reading "Infra" "v1" "a" warmed quiet none
      infra_items (unfold resolve_vault_address lookup in refl) refl refl infra-IsConsistent
      (unfold path_vault_items_list resolve_vault_address ensure_vault_window_fresh open_replica
          replica_of apply_write rebuild_indexes overview_of new_replica lookup insert delete in
        (refl, tt))
      (unfold split in refl) (unfold ServesHeld in inl refl) lists_the_items

-- ===== src/Listing.antt =====
-- backend/paths_vaults.go pathVaultsList and backend/paths_items.go pathVaultItemsList. A listing
-- is what the handler gives to the framework's ListResponseWithInfo.
pub mod Readable
mod Tests
use openbao_plugin_secrets_o.Prelude.{ℕ, String, Option, none, some, List, [], ◌∷◌, map}
use openbao_plugin_secrets_o.Prelude.Table.{Table, lookup, insert, keys}
use openbao_plugin_secrets_o.Prelude.Sort.{sort_strings}
use openbao_plugin_secrets_o.Onepassword.{VaultOverview, ItemOverview}
use openbao_plugin_secrets_o.Replica.{overview_list}
use openbao_plugin_secrets_o.Engine.{
  Engine, Clock, EngineError, Factory, Outcome, got, refused, resolve_vault_address, replica_of,
  open_replica,
}
use openbao_plugin_secrets_o.Engine.Freshness.{ensure_vault_window_fresh}

pub record Listing (I : Type 0) : Type 0 where
  pub listed : List String
  pub key_info : Table I

pub record VaultInfo : Type 0 where
  pub title : String
  pub active_item_count : ℕ

pub record ItemInfo : Type 0 where
  pub title : String
  pub updated_at : ℕ

-- `ov, ok := b.vaultDirectory[id]`; a directory that is not built has no entry.
abbrev pub in_directory : Option (Table VaultOverview) → String → Option VaultOverview
in_directory none id = none
in_directory (some dir) id = lookup id dir

abbrev pub vault_info : Option VaultOverview → Option VaultInfo
vault_info none = none
vault_info (some ov) = some (record { title = ov.title; active_item_count = ov.active_item_count })

-- The loop over the overviews, for the keys and for their infos.
unfoldable pub overview_ids : List ItemOverview → List String
overview_ids [] = []
overview_ids (ov ∷ ovs) = ov.id ∷ overview_ids ovs

unfoldable pub item_infos : List ItemOverview → Table ItemInfo → Table ItemInfo
item_infos [] infos = infos
item_infos (ov ∷ ovs) infos =
    item_infos ovs (insert ov.id (record { title = ov.title; updated_at = ov.updated_at }) infos)

unfoldable pub item_listing : List ItemOverview → Listing ItemInfo
unfolding overview_ids item_infos
item_listing ovs = record { listed = sort_strings (overview_ids ovs); key_info = item_infos ovs [] }

module _ {W : Type 0} where
  unfoldable pub path_vaults_list : Engine W → Listing (Option VaultInfo)
  path_vaults_list e = record {
    listed = sort_strings (keys e.allowlist);
    key_info = map (λ entry. (entry.0, vault_info (in_directory e.directory entry.0))) e.allowlist;
  }

  unfoldable pub path_vault_items_list :
      Factory W → Clock → String → Engine W → Engine W × Outcome (Listing ItemInfo)
  unfolding item_listing
  path_vault_items_list factory at vault_addr e = elim (resolve_vault_address e vault_addr) [
    | refused x ↦ (e, refused x)
    | got vault_id ↦
        let e' = open_replica (ensure_vault_window_fresh factory at vault_id e) vault_id in
        (e', got (item_listing (overview_list (replica_of e' vault_id))))
  ]

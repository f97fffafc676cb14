-- ===== src/Status/Tests.antt =====
-- The status of one vault, and two engines that differ in the order of their maps.
use openbao_plugin_secrets_o.Prelude.{String, [], ◌∷◌, ◌≡◌, refl, any, arith, eq_iff}
use openbao_plugin_secrets_o.Prelude.Table.{lookup, insert, delete}
use openbao_plugin_secrets_o.Prelude.Text.{cut}
use openbao_plugin_secrets_o.Prelude.Time.{hour}
use openbao_plugin_secrets_o.Prelude.Sort.{sort_strings}
use openbao_plugin_secrets_o.Prelude.Unordered.{SameEntries}
use openbao_plugin_secrets_o.Replica.{
  new_replica, apply_write, rebuild_indexes, resolve_item_address,
}
use openbao_plugin_secrets_o.Fake.{FakeOpClient}
use openbao_plugin_secrets_o.Engine.{Engine}
use openbao_plugin_secrets_o.Lifecycle.{path_invalidate_all}
use openbao_plugin_secrets_o.Listing.{path_vaults_list}
use openbao_plugin_secrets_o.Requests.Tests.{builds, quiet, warmed}
use openbao_plugin_secrets_o.Status.{
  path_status_read, unmatched_always_fresh_patterns, unmatched_of,
}
use openbao_plugin_secrets_o.Status.Unordered.{SameMaps, reports_forget_order}

reports_the_pattern_without_an_item :
    unmatched_always_fresh_patterns quiet warmed ≡ "Infra/mail" ∷ []
unfolding unmatched_always_fresh_patterns unmatched_of cut lookup apply_write rebuild_indexes
    new_replica insert delete resolve_item_address any sort_strings
reports_the_pattern_without_an_item = refl

-- Two vaults, and the same two in the other order.
abbrev two : Engine FakeOpClient
two = record warmed { allowlist = ("v1", tt) ∷ ("v2", tt) ∷ [] }

abbrev turned : Engine FakeOpClient
turned = record warmed { allowlist = ("v2", tt) ∷ ("v1", tt) ∷ [] }

turned-entries : SameEntries two.allowlist turned.allowlist
unfolding lookup
turned-entries = record {
  left = (refl, (refl, tt));
  right = (refl, (refl, tt));
  entries = λ k. ground (arith, eq_iff "v1" k, eq_iff "v2" k);
}

two-SameMaps : SameMaps two turned
two-SameMaps = record {
  config = refl;
  gate = refl;
  unresolved = refl;
  directory = λ id. refl;
  allowlist = turned-entries;
  replicas = λ id. refl;
}

reports_forget_order_example :
    ((path_vaults_list two).listed ≡ (path_vaults_list turned).listed)
    × ((id : String)
        → lookup id (path_vaults_list two).key_info ≡ lookup id (path_vaults_list turned).key_info)
    × ((path_status_read hour two).1 ≡ (path_status_read hour turned).1)
    × ((path_invalidate_all builds hour two).1 ≡ (path_invalidate_all builds hour turned).1)
reports_forget_order_example = reports_forget_order builds two turned two-SameMaps hour

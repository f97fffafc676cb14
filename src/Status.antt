-- ===== src/Status.antt =====
-- backend/paths_status.go pathStatusRead and unmatchedAlwaysFreshPatterns. The governor's part of the response is its snapshot,
-- whose backoffs are shown with the vaults.
pub mod Unordered
mod Tests
use openbao_plugin_secrets_o.Prelude.{
  ℕ, String, Bool, true, false, not, ◌&&◌, ◌||◌, any, str_eq, if◌then◌else◌, Option, none, some,
  List, [], ◌∷◌, length, map,
}
use openbao_plugin_secrets_o.Prelude.Text.{cut}
use openbao_plugin_secrets_o.Prelude.Table.{Table, lookup, keys}
use openbao_plugin_secrets_o.Prelude.Sort.{sort_strings}
use openbao_plugin_secrets_o.Onepassword.{VaultOverview}
use openbao_plugin_secrets_o.Config.{Config}
use openbao_plugin_secrets_o.Governor.Status.{Snapshot, snapshot}
use openbao_plugin_secrets_o.Replica.{
  Replica, freshness_snapshot, item_count, consecutive_failure_count, resolved, unresolved,
  resolve_item_address,
}
use openbao_plugin_secrets_o.Engine.{Engine, title_of_vault}
use openbao_plugin_secrets_o.Listing.{in_directory}

abbrev pub sdk_version : String
sdk_version = "0.4.1"

-- What is shown only of a vault that has a replica.
pub record Freshness : Type 0 where
  pub last_refresh : ℕ
  pub stale_suspect : Bool
  pub invalidated_at : ℕ

pub record VaultStatus : Type 0 where
  pub title : Option String
  pub item_count : ℕ
  pub consecutive_failures : ℕ
  pub freshness : Option Freshness
  pub backoff_consecutive_failures : Option ℕ

pub record StatusResponse : Type 0 where
  pub sdk : String
  pub governor : Snapshot
  pub vaults : Table VaultStatus
  pub unresolved_vaults : List String
  pub always_fresh_unmatched : List String

abbrev pub freshness_of : ℕ × Bool × ℕ → Freshness
freshness_of (last_cycle, suspect, invalidated) = record {
  last_refresh = last_cycle;
  stale_suspect = suspect;
  invalidated_at = invalidated;
}

abbrev pub title_in : Option VaultOverview → Option String
title_in none = none
title_in (some ov) = some ov.title

-- One round of the loop over the allowlist.
unfoldable pub vault_status : Option VaultOverview → Option Replica → Option ℕ → VaultStatus
unfolding freshness_snapshot item_count consecutive_failure_count
vault_status ov none failures = record {
  title = title_in ov;
  item_count = 0;
  consecutive_failures = 0;
  freshness = none;
  backoff_consecutive_failures = failures;
}
vault_status ov (some r) failures = record {
  title = title_in ov;
  item_count = item_count r;
  consecutive_failures = consecutive_failure_count r;
  freshness = some (freshness_of (freshness_snapshot r));
  backoff_consecutive_failures = failures;
}

-- `patternMatchesAnyItem` for one vault of the allowlist.
abbrev pub resolves : Option Replica → String → Bool
resolves none title = false
resolves (some r) title = elim (resolve_item_address r title) [
  | resolved id ↦ true
  | unresolved e ↦ false
]

abbrev pub pattern_matches_in :
    Option (Table VaultOverview) → Table Replica → String → String → String → Bool
pattern_matches_in dir replicas vault title id =
    (str_eq vault id || str_eq vault (title_of_vault dir id)) && resolves (lookup id replicas) title

abbrev pub is_unmatched :
    Option (Table VaultOverview) → Table Replica → List String → Option (String × String) → Bool
is_unmatched dir replicas ids none = true
is_unmatched dir replicas ids (some (vault, title)) =
    not (any (pattern_matches_in dir replicas vault title) ids)

unfoldable pub unmatched_of :
    Option (Table VaultOverview) → Table Replica → List String → List String → List String
unmatched_of dir replicas ids [] = []
unmatched_of dir replicas ids (pat ∷ pats) =
    let rest = unmatched_of dir replicas ids pats in
    if is_unmatched dir replicas ids (cut pat) then pat ∷ rest else rest

unfoldable pub unmatched_always_fresh_patterns : {W : Type 0} → Config → Engine W → List String
unfolding unmatched_of
unmatched_always_fresh_patterns cfg e =
    sort_strings (unmatched_of e.directory e.replicas (keys e.allowlist) cfg.always_fresh)

module _ {W : Type 0} where
  abbrev pub vault_entry : Engine W → Table ℕ → String → String × VaultStatus
  vault_entry e backoff id =
      (id, vault_status (in_directory e.directory id) (lookup id e.replicas) (lookup id backoff))

  abbrev pub unmatched : Option Config → Engine W → List String
  unmatched none e = []
  unmatched (some cfg) e = unmatched_always_fresh_patterns cfg e

  unfoldable pub path_status_read : ℕ → Engine W → Engine W × StatusResponse
  unfolding vault_status
  path_status_read now e =
      let (g, snap) = snapshot e.gate now in
      (
        record e { gate = g },
        record {
          sdk = sdk_version;
          governor = snap;
          vaults = map (vault_entry e snap.backoff) (sort_strings (keys e.allowlist));
          unresolved_vaults = e.unresolved;
          always_fresh_unmatched = unmatched e.config e;
        },
      )

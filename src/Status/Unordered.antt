-- ===== src/Status/Unordered.antt =====
-- What the engine reports depends on what its maps hold, and not on the order of their `range`.
use openbao_plugin_secrets_o.Prelude.{
  ℕ, String, Bool, not, fun_ext, map, str_eq, eq_iff, Bool-cases, Option-cases, inl, inr, any,
  Option, none, some, List, [], ◌∷◌, ◌≡◌, refl, sym, ap, ◌∙◌, arith,
}
use openbao_plugin_secrets_o.Prelude.Text.{cut}
use openbao_plugin_secrets_o.Prelude.Table.{Table, lookup, keys}
use openbao_plugin_secrets_o.Prelude.Sort.{sort_strings}
use openbao_plugin_secrets_o.Prelude.Order.{any-sort_strings}
use openbao_plugin_secrets_o.Prelude.Unordered.{SameEntries, sort_keys-same}
use openbao_plugin_secrets_o.Governor.Status.{snapshot}
use openbao_plugin_secrets_o.Engine.{Engine, Factory, title_of_vault}
use openbao_plugin_secrets_o.Listing.{VaultInfo, in_directory, vault_info, path_vaults_list}
use openbao_plugin_secrets_o.Lifecycle.{path_invalidate_all}
use openbao_plugin_secrets_o.Status.{
  sdk_version, vault_entry, path_status_read, is_unmatched, pattern_matches_in, unmatched,
  unmatched_of, unmatched_always_fresh_patterns,
}

any-same :
    {V : Type 0} (p : String → Bool) (m m' : Table V)
    → SameEntries m m'
    → any p (keys m) ≡ any p (keys m')
any-same p m m' same =
    sym (any-sort_strings p (keys m))
    ∙ ap (any p) (sort_keys-same m m' same)
    ∙ any-sort_strings p (keys m')

-- The same engine, but for the order of its maps.
pub record SameMaps {W : Type 0} (e f : Engine W) : Type 0 where
  pub config : f.config ≡ e.config
  pub gate : f.gate ≡ e.gate
  pub unresolved : f.unresolved ≡ e.unresolved
  pub directory : (id : String) → in_directory e.directory id ≡ in_directory f.directory id
  pub allowlist : SameEntries e.allowlist f.allowlist
  pub replicas : (id : String) → lookup id e.replicas ≡ lookup id f.replicas

abbrev known {ℓ κ} : {A : Type ℓ} {B : Type κ} → B → Option A → Option B
known b none = none
known b (some a) = some b

lookup-map :
    {V I : Type 0} (info : String → I) (id : String) (m : Table V)
    → lookup id (map (λ entry. (entry.0, info entry.0)) m) ≡ known (info id) (lookup id m)
unfolding lookup
lookup-map info id [] = refl
lookup-map info id ((j, v) ∷ m) = elim (Bool-cases (str_eq j id)) [
  | inl here ↦ rw (here, (eq_iff j id).0 here) refl
  | inr other ↦ rw other (lookup-map info id m)
]

module _ {W : Type 0} where
  title_of_vault-same :
      (e f : Engine W)
      → SameMaps e f
      → (id : String) → title_of_vault e.directory id ≡ title_of_vault f.directory id
  title_of_vault-same e f same id = ground (arith, same.directory id)

  pattern_matches_in-same :
      (e f : Engine W)
      → SameMaps e f
      → (vault title id : String)
      → pattern_matches_in e.directory e.replicas vault title id
        ≡ pattern_matches_in f.directory f.replicas vault title id
  pattern_matches_in-same e f same vault title id =
      rw (title_of_vault-same e f same id, same.replicas id) refl

  is_unmatched-same :
      (e f : Engine W)
      → SameMaps e f
      → (pat : Option (String × String))
      → is_unmatched e.directory e.replicas (keys e.allowlist) pat
        ≡ is_unmatched f.directory f.replicas (keys f.allowlist) pat
  is_unmatched-same e f same none = refl
  is_unmatched-same e f same (some (vault, title)) = ap not (
      any-same (pattern_matches_in e.directory e.replicas vault title) e.allowlist f.allowlist
        same.allowlist
      ∙ ap (λ p. any p (keys f.allowlist)) (fun_ext (pattern_matches_in-same e f same vault title)))

  unmatched_of-same :
      (e f : Engine W)
      → SameMaps e f
      → (pats : List String)
      → unmatched_of e.directory e.replicas (keys e.allowlist) pats
        ≡ unmatched_of f.directory f.replicas (keys f.allowlist) pats
  unfolding unmatched_of
  unmatched_of-same e f same [] = refl
  unmatched_of-same e f same (pat ∷ pats) =
      rw (is_unmatched-same e f same (cut pat), unmatched_of-same e f same pats) refl

  unmatched-same : (e f : Engine W) → SameMaps e f → unmatched e.config e ≡ unmatched f.config f
  unfolding unmatched_always_fresh_patterns
  unmatched-same e f same = elim (Option-cases e.config) [
    | inl missing ↦ rw (same.config, missing) refl
    | inr (cfg, configured) ↦
        rw (same.config, configured) (ap sort_strings (unmatched_of-same e f same cfg.always_fresh))
  ]

  abbrev vault_info_of : Engine W → String → Option VaultInfo
  vault_info_of e id = vault_info (in_directory e.directory id)

  key_info-same :
      (e f : Engine W)
      → SameMaps e f
      → (id : String)
      → lookup id (path_vaults_list e).key_info ≡ lookup id (path_vaults_list f).key_info
  unfolding path_vaults_list
  key_info-same e f same id =
      lookup-map (vault_info_of e) id e.allowlist
      ∙ rw (same.allowlist.entries id, same.directory id) refl
      ∙ sym (lookup-map (vault_info_of f) id f.allowlist)

  vault_entry-same :
      (e f : Engine W)
      → SameMaps e f
      → (backoff : Table ℕ) (id : String) → vault_entry e backoff id ≡ vault_entry f backoff id
  vault_entry-same e f same backoff id = rw (same.directory id, same.replicas id) refl

  path_status_read-same :
      (e f : Engine W)
      → SameMaps e f
      → (now : ℕ) → (path_status_read now e).1 ≡ (path_status_read now f).1
  unfolding path_status_read
  path_status_read-same e f same now =
      let ids = sort_keys-same e.allowlist f.allowlist same.allowlist in
      let entries = fun_ext (vault_entry-same e f same (snapshot f.gate now).1.backoff) in
      rw (unmatched-same e f same, sym same.gate, sym same.unresolved, ids)
        (ap
          (λ entry. record {
            sdk = sdk_version;
            governor = (snapshot f.gate now).1;
            vaults = map entry (sort_strings (keys f.allowlist));
            unresolved_vaults = f.unresolved;
            always_fresh_unmatched = unmatched f.config f;
          })
          entries)

  -- The vault listing, the status and the answer to an invalidation of all vaults are made of what
  -- the engine's maps hold: where two engines differ only in the order in which a `range` visits
  -- them, the two say the same.
  pub reports_forget_order :
      (factory : Factory W) (e f : Engine W)
      → SameMaps e f
      → (now : ℕ)
      → ((path_vaults_list e).listed ≡ (path_vaults_list f).listed)
        × ((id : String)
            → lookup id (path_vaults_list e).key_info ≡ lookup id (path_vaults_list f).key_info)
        × ((path_status_read now e).1 ≡ (path_status_read now f).1)
        × ((path_invalidate_all factory now e).1 ≡ (path_invalidate_all factory now f).1)
  unfolding path_vaults_list path_invalidate_all
  reports_forget_order factory e f same now =
      let ids = sort_keys-same e.allowlist f.allowlist same.allowlist in
      (ids, key_info-same e f same, path_status_read-same e f same now, ids)

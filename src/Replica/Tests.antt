-- ===== src/Replica/Tests.antt =====
-- Two written items with titles of two parts, and a third that was deleted.
use openbao_plugin_secrets_o.Prelude.{
  ℕ, ◌+◌, ◌-◌, ◌≤◌, ◌<◌, String, true, false, ltb, Option, none, some, List, [], ◌∷◌, ◌≡◌, ◌≢◌,
  refl, arith, take, drop, str_eq, if◌then◌else◌,
}
use openbao_plugin_secrets_o.Prelude.Int.{pos}
use openbao_plugin_secrets_o.Prelude.Table.{lookup, insert, delete, has}
use openbao_plugin_secrets_o.Prelude.Text.{split, join}
use openbao_plugin_secrets_o.Onepassword.{Item}
use openbao_plugin_secrets_o.Config.{Splitter}
use openbao_plugin_secrets_o.Replica.{
  Replica, new_replica, resolved, resolve_item_address, resolve_split_path, body, index_splits,
  no_splits, collisions, overview_of, is_newer, apply_write, apply_delete, rebuild_indexes,
  negative_cache_hit, negative_cache_store,
}
use openbao_plugin_secrets_o.Replica.Index.{
  ids_where, has_split_key, sole, crowded, rebuild_indexes-split_paths,
}
use openbao_plugin_secrets_o.Replica.Consistent.{
  IsConsistent, new_replica-IsConsistent, apply_write-IsConsistent, apply_delete-IsConsistent,
}
use openbao_plugin_secrets_o.Replica.Resolve.{resolve_split_path-longest}
use openbao_plugin_secrets_o.Replica.Writes.{apply_write-reads}
use openbao_plugin_secrets_o.Replica.Misses.{hit-store}

abbrev item_of : String → String → Item
item_of id title = record {
  id = id;
  title = title;
  category = "Login";
  vault_id = "v";
  fields = [];
  sections = [];
  notes = "";
  tags = [];
  websites = [];
  version = 1;
  created_at = 1;
  updated_at = 1;
}

abbrev by_slash : Option Splitter
by_slash = some split

held : Replica
held =
    apply_delete
      (apply_write
        (apply_write (apply_write (new_replica "v") (item_of "a" "team/bank") by_slash)
          (item_of "b" "team/mail") by_slash)
        (item_of "c" "old") by_slash)
      "c" by_slash

-- What a test computes with.
held_code : Unit {0}
unfolding held new_replica apply_write apply_delete rebuild_indexes resolve_item_address
    resolve_split_path lookup insert delete split join body ids_where
held_code = tt

held-IsConsistent : IsConsistent by_slash held
unfolding held
held-IsConsistent = apply_delete-IsConsistent by_slash _ "c" (
    apply_write-IsConsistent by_slash _ (item_of "c" "old") (
      apply_write-IsConsistent by_slash _ (item_of "b" "team/mail") (
        apply_write-IsConsistent by_slash _ (item_of "a" "team/bank")
          (new_replica-IsConsistent by_slash "v"))))

rebuild_indexes-split_paths_example :
    let ids = ids_where (has_split_key split "team/bank") held.overview in
    let s = index_splits split held.overview no_splits in
    (lookup "team/bank" (rebuild_indexes by_slash held).split_paths ≡ sole ids)
    × (has "team/bank" s.poisoned ≡ crowded ids)
    × ((rebuild_indexes by_slash held).split_collision ≡ collisions s)
rebuild_indexes-split_paths_example =
    rebuild_indexes-split_paths split held "team/bank" held-IsConsistent.0.distinct

abbrev field_path : List String
field_path = "team" ∷ "bank" ∷ "password" ∷ []

resolve_split_path-longest_example :
    (k : ℕ) × (0 < k)
    × (k ≤ 3)
    × (ids_where (has_split_key split (join (take k field_path))) held.overview ≡ "a" ∷ [])
    × ("password" ∷ [] ≡ drop k field_path)
    × ((j : ℕ) → k < j → j ≤ 3 → lookup (join (take j field_path)) held.split_paths ≡ none)
    × ((item : Item) × (body held "a" ≡ some item))
resolve_split_path-longest_example =
    resolve_split_path-longest split held field_path "a" ("password" ∷ []) held-IsConsistent
      (unfold held_code in refl)

apply_write-reads_example :
    let item = item_of "d" "new" in
    let r' = apply_write held item by_slash in
    let stale = is_newer (lookup "d" held.bodies) 1 in
    (stale ≡ true → r' ≡ held)
    × (stale ≡ false
        → (body r' "d" ≡ (if str_eq "d" "d" then some item else body held "d"))
          × (lookup "d" r'.overview
              ≡ (if str_eq "d" "d" then some (overview_of item) else lookup "d" held.overview))
          × (has "d" r'.tombstones ≡ false)
          × (resolve_item_address r' "d" ≡ resolved "d"))
apply_write-reads_example = apply_write-reads held (item_of "d" "new") by_slash "d"

abbrev nope : String
nope = "nope"

abbrev elsewhere : String
elsewhere = "other"

hit-store_example :
    let r' = negative_cache_store held nope 10 in
    ((negative_cache_hit r' nope (pos 5) 12).1 ≡ ltb 12 (10 + 5))
    × (5 ≤ 12 - 10 → lookup nope (negative_cache_hit r' nope (pos 5) 12).0.negative_cache ≡ none)
    × (elsewhere ≢ nope
        → lookup elsewhere (negative_cache_hit r' nope (pos 5) 12).0.negative_cache
          ≡ lookup elsewhere held.negative_cache)
hit-store_example = hit-store held nope elsewhere 5 10 12 (omega arith) (omega arith)

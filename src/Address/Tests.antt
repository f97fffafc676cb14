-- ===== src/Address/Tests.antt =====
-- Addresses in a replica of two items.
use openbao_plugin_secrets_o.Prelude.{String, List, none, some, [], ◌∷◌, ◌≡◌, ◌⊎◌, refl}
use openbao_plugin_secrets_o.Prelude.Table.{lookup, insert, delete}
use openbao_plugin_secrets_o.Prelude.Text.{split, join}
use openbao_plugin_secrets_o.Onepassword.{Item}
use openbao_plugin_secrets_o.Replica.{
  Replica, new_replica, resolve_item_address, resolve_split_path, body, apply_write,
  rebuild_indexes,
}
use openbao_plugin_secrets_o.Replica.Consistent.{
  IsConsistent, new_replica-IsConsistent, apply_write-IsConsistent,
}
use openbao_plugin_secrets_o.Address.Found.{
  resolve_item_from_segments-body, resolve_field_address-body, IsTail, IsFlat,
}
use openbao_plugin_secrets_o.Address.{resolve_item_from_segments, resolve_field_address}

abbrev entry : String → String → Item
entry id title = record {
  id = id;
  title = title;
  category = "Login";
  vault_id = "v";
  fields = [];
  sections = [];
  notes = "";
  tags = [];
  websites = [];
  version = 1;
  created_at = 1;
  updated_at = 1;
}

two : Replica
two =
    apply_write (apply_write (new_replica "v") (entry "a" "team/bank") (some split))
      (entry "b" "mail") (some split)

two_code : Unit {0}
unfolding two new_replica apply_write rebuild_indexes resolve_item_from_segments
    resolve_field_address resolve_item_address resolve_split_path lookup insert delete split join
    body
two_code = tt

two-IsConsistent : IsConsistent (some split) two
unfolding two
two-IsConsistent = apply_write-IsConsistent (some split) _ (entry "b" "mail") (
    apply_write-IsConsistent (some split) _ (entry "a" "team/bank")
      (new_replica-IsConsistent (some split) "v"))

resolve_item_from_segments-body_example : (item : Item) × (body two "b" ≡ some item)
resolve_item_from_segments-body_example =
    resolve_item_from_segments-body (some split) two ("mail" ∷ []) "b" two-IsConsistent
      (unfold two_code in refl)

abbrev token_path : List String
token_path = "team" ∷ "bank" ∷ "api" ∷ "token" ∷ []

resolve_field_address-body_example :
    ((item : Item) × (body two "a" ≡ some item))
    × ((rest : List String) × IsTail "api" "token" rest
        × ((resolve_split_path two token_path ≡ some ("a", rest))
            ⊎ ((resolve_split_path two token_path ≡ none) × IsFlat two token_path "a" rest)))
resolve_field_address-body_example =
    resolve_field_address-body (some split) two token_path "a" "api" "token" two-IsConsistent
      (unfold two_code in refl)

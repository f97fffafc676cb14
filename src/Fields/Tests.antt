-- ===== src/Fields/Tests.antt =====
-- An item with a "token" in a section "api" and no top-level field of that label.
use openbao_plugin_secrets_o.Prelude.{
  ℕ, String, false, some, [], ◌∷◌, ◌++◌, ◌≡◌, ◌⊎◌, refl, arith, inl, find_by, eq_iff, true, List,
}
use openbao_plugin_secrets_o.Onepassword.{ItemField, Item}
use openbao_plugin_secrets_o.Address.{lookup_field}
use openbao_plugin_secrets_o.Fields.Merge.{others}
use openbao_plugin_secrets_o.Prelude.Table.{is_some, lookup, insert}
use openbao_plugin_secrets_o.Fields.Body.{
  Members, member, nothing, object, string, bad, not_set, named, parse_field_writes,
}
use openbao_plugin_secrets_o.Fields.Body.Tables.{type_of, value_of}
use openbao_plugin_secrets_o.Fields.Body.Rows.{write_at}
use openbao_plugin_secrets_o.Fields.Body.Named.{write_of, parse_field_writes-names}
use openbao_plugin_secrets_o.Fields.Written.{
  apply_field-reads, apply_field_keeps, bare_write_is_hidden,
}
use openbao_plugin_secrets_o.Fields.{
  FieldWrite, FieldTypes, Applied, applied, section_for, apply_field,
}

abbrev types : FieldTypes
types = record { names = "Text" ∷ "Concealed" ∷ []; text = "Text"; concealed = "Concealed" }

abbrev draw : ℕ → String
draw n = "drawn"

abbrev token : ItemField
token = record {
  id = "f1";
  title = "token";
  section_id = some "s1";
  field_type = "Concealed";
  value = "old";
}

abbrev service : Item
service = record {
  id = "i1";
  title = "service";
  category = "Login";
  vault_id = "v";
  fields = token ∷ [];
  sections = record { id = "s1"; title = "api" } ∷ [];
  notes = "";
  tags = [];
  websites = [];
  version = 4;
  created_at = 1;
  updated_at = 1;
}

abbrev rotate : String → FieldWrite
rotate section = record { section = section; label = "token"; value = "new"; typ = "" }

abbrev item_or_same : Applied → Item
item_or_same (applied item n) = item
item_or_same _ = service

abbrev rotated : String → Item
rotated section = item_or_same (apply_field types draw false (rotate section) service 0)

apply_field-reads_example :
    (f : ItemField) × (lookup_field (rotated "api") "api" "token" ≡ some f) × (f.value ≡ "new")
apply_field-reads_example =
    apply_field-reads types draw false (rotate "api") service (rotated "api") 0 0
      (unfold apply_field in refl) (inl (λ e. ground (arith, eq_iff "api" "")))

apply_field_keeps_example :
    let sid = (section_for draw "api" service 0).0 in
    (others "token" sid (rotated "api").fields ≡ others "token" sid (token ∷ []))
    × ((rotated "api").id ≡ "i1")
    × ((rotated "api").title ≡ "service")
    × ((rotated "api").notes ≡ "")
    × ((rotated "api").tags ≡ [])
    × ((rotated "api").websites ≡ [])
    × ((rotated "api").version ≡ 4)
    × (((rotated "api").sections ≡ service.sections)
        ⊎ ((id : String) × ((rotated "api").sections
              ≡ service.sections ++ record { id = id; title = "api" } ∷ [])))
apply_field_keeps_example =
    apply_field_keeps types draw false (rotate "api") service (rotated "api") 0 0
      (unfold apply_field in refl)

bare_write_is_hidden_example : lookup_field (rotated "") "" "token" ≡ some token
bare_write_is_hidden_example =
    bare_write_is_hidden types draw false (rotate "") service (rotated "") 0 1 token "s1"
      (unfold apply_field in refl) refl (unfold find_by in refl) refl

-- A body with a field, and a field of a section with a type.
abbrev raw_body : Members
raw_body = member "fields" (object (member "user" (string "me") nothing)) (
    member "sections" (object (member "api" (object (member "token" (string "x") nothing)) nothing))
      (member "section_types"
        (object (member "api" (object (member "token" (string "Concealed") nothing)) nothing))
        nothing))

abbrev parsed : List FieldWrite
parsed =
    record { section = ""; label = "user"; value = "me"; typ = "" }
    ∷ record { section = "api"; label = "token"; value = "x"; typ = "Concealed" }
    ∷ []

parse_field_writes-names_example :
    (write_at "api" "token" parsed ≡ write_of raw_body "api" "token")
    × (is_some (type_of raw_body "api" "token") ≡ true
        → is_some (value_of raw_body "api" "token") ≡ true)
unfolding parse_field_writes lookup insert
parse_field_writes-names_example = parse_field_writes-names raw_body parsed refl "api" "token"

types_need_values :
    parse_field_writes
      (member "field_types" (object (member "user" (string "Text") nothing)) nothing)
    ≡ bad (not_set (named "field_types") "user")
unfolding parse_field_writes lookup insert
types_need_values = refl

-- ===== src/Address.antt =====
-- backend/paths_item.go and backend/paths_field.go: how the segments of a request's path lead to
-- an item and to one of its fields. An error is data: that nothing is found, or the ambiguous title.
pub mod Found
mod Tests
use openbao_plugin_secrets_o.Prelude.{
  ℕ, String, Bool, true, false, ◌&&◌, Option, none, some, List, [], ◌∷◌, str_eq, if◌then◌else◌,
  find_by,
}
use openbao_plugin_secrets_o.Onepassword.{ItemSection, ItemField, Item}
use openbao_plugin_secrets_o.Replica.{
  AddressError, not_found, ambiguous_title, Address, resolved, unresolved, Replica,
  resolve_item_address, resolve_split_path,
}

-- A split path that consumes every segment.
abbrev pub whole_path : Option (String × List String) → Address
whole_path (some (id, [])) = resolved id
whole_path (some (id, seg ∷ segs)) = unresolved not_found
whole_path none = unresolved not_found

-- What the flat lookup of a single segment does not find is looked up as a split path.
abbrev pub flat_or : Address → Address → Address
flat_or (resolved id) other = resolved id
flat_or (unresolved (ambiguous_title title ids)) other = unresolved (ambiguous_title title ids)
flat_or (unresolved not_found) other = other

unfoldable pub resolve_item_from_segments : Replica → List String → Address
resolve_item_from_segments r segs =
    let split = whole_path (resolve_split_path r segs) in
    elim segs [
      | [] ↦ split
      | seg ∷ [] ↦ flat_or (resolve_item_address r seg) split
      | seg ∷ seg' ∷ more ↦ split
    ]

-- An item, the section ("" for none) and the label of the field.
pub data FieldAddress : Type 0 where
  field_at : String → String → String → FieldAddress
  no_field : AddressError → FieldAddress

abbrev pub with_field : Address → String → String → FieldAddress
with_field (resolved id) section field = field_at id section field
with_field (unresolved e) section field = no_field e

-- What a split path leaves over: the field, or the section and the field.
abbrev pub left_over : String → List String → FieldAddress
left_over id (field ∷ []) = field_at id "" field
left_over id (section ∷ field ∷ []) = field_at id section field
left_over id _ = no_field not_found

abbrev pub flat_field : Replica → List String → FieldAddress
flat_field r (item ∷ field ∷ []) = with_field (resolve_item_address r item) "" field
flat_field r (item ∷ section ∷ field ∷ []) = with_field (resolve_item_address r item) section field
flat_field r _ = no_field not_found

unfoldable pub resolve_field_address : Replica → List String → FieldAddress
resolve_field_address r segs = elim (resolve_split_path r segs) [
  | some (id, remaining) ↦ left_over id remaining
  | none ↦ flat_field r segs
]

-- The ID of the first section with the title.
unfoldable pub section_id_of : String → List ItemSection → Option String
section_id_of title [] = none
section_id_of title (s ∷ ss) = if str_eq s.title title then some s.id else section_id_of title ss

-- `f.SectionID != nil && *f.SectionID == *sectionID`
abbrev pub lies_in : Option String → String → Bool
lies_in none sid = false
lies_in (some id) sid = str_eq id sid

-- The first field with the label, in the section if one is given.
abbrev pub labelled : String → ItemField → Bool
labelled label f = str_eq f.title label

abbrev pub labelled_in : String → String → ItemField → Bool
labelled_in label sid f = str_eq f.title label && lies_in f.section_id sid

unfoldable pub lookup_field : Item → String → String → Option ItemField
unfolding section_id_of find_by
lookup_field item section field =
    if str_eq section ""
    then find_by (labelled field) item.fields
    else elim (section_id_of section item.sections) [
      | none ↦ none
      | some sid ↦ find_by (labelled_in field sid) item.fields
    ]

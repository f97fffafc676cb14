-- ===== src/Fields.antt =====
-- backend/writes.go: how the fields that a write names are merged over an item. `names` holds the
-- field types of the SDK that the engine knows, `text` and `concealed` are two of them, and
-- `fresh n` is the n-th ID that `newID` draws; a function that draws returns the next number.
pub mod Merge
pub mod Written
pub mod Body
mod Tests
use openbao_plugin_secrets_o.Prelude.{
  ℕ, ◌+◌, String, Bool, true, false, not, ◌&&◌, ◌||◌, Option, none, some, List, [], ◌∷◌, ◌++◌, map,
  any, str_eq, ◌==◌, if◌then◌else◌, filter_by,
}
use openbao_plugin_secrets_o.Prelude.Text.{codes, lower, same_text}
use openbao_plugin_secrets_o.Onepassword.{ItemSection, ItemField, Item, Website}
use openbao_plugin_secrets_o.Address.{section_id_of}

-- One field that a write sets; section "" is the item's top level, type "" names none.
pub record FieldWrite : Type 0 where
  pub section : String
  pub label : String
  pub value : String
  pub typ : String

-- `normName`: lower case, without "_", "-" and " ".
abbrev pub is_name_char : ℕ → Bool
is_name_char c = not (c == b'_' || c == b'-' || c == b' ')

unfoldable pub norm_name : String → List ℕ
unfolding filter_by
norm_name s = filter_by is_name_char (map lower (codes s))

-- `fieldTypeByName[normName(s)]`, the table that `init` fills from the names.
unfoldable pub by_name : List String → List ℕ → Option String
unfolding norm_name same_text
by_name [] key = none
by_name (c ∷ cs) key =
    let later = by_name cs key in
    elim later [ some d ↦ some d | none ↦ if same_text (norm_name c) key then some c else none ]

pub record FieldTypes : Type 0 where
  pub names : List String
  pub text : String
  pub concealed : String

-- `(sectionID == nil) != (f.SectionID == nil) || (… && *f.SectionID != *sectionID)`, negated.
abbrev pub same_section : Option String → Option String → Bool
same_section none none = true
same_section (some a) (some b) = str_eq a b
same_section _ _ = false

abbrev pub matches : String → Option String → ItemField → Bool
matches label sid f = str_eq f.title label && same_section f.section_id sid

-- The first field that passes the test is changed.
unfoldable pub update_first :
    (ItemField → Bool) → (ItemField → ItemField) → List ItemField → List ItemField
update_first p change [] = []
update_first p change (f ∷ fs) =
    let rest = update_first p change fs in if p f then change f ∷ fs else f ∷ rest

-- The value is set, and the type if the write names one.
abbrev pub overwrite : String → Option String → ItemField → ItemField
overwrite value none f = record f { value = value }
overwrite value (some t) f = record f { value = value; field_type = t }

unfoldable pub is_secret_label : String → Bool
unfolding same_text
is_secret_label label =
    same_text (map lower (codes label)) (codes "password")
    || same_text (map lower (codes label)) (codes "credential")

unfoldable pub new_field_type : FieldTypes → Option String → String → String
unfolding is_secret_label
new_field_type types (some t) label = t
new_field_type types none label = if is_secret_label label then types.concealed else types.text

-- An item with the number of IDs drawn, or the type and label of a write that names no type.
pub data Applied : Type 0 where
  applied : Item → ℕ → Applied
  unknown_field_type : String → String → Applied

-- The item's section for the write, made if it is missing.
abbrev pub open_section :
    (ℕ → String) → String → Option String → Item → ℕ → Option String × Item × ℕ
open_section fresh title (some id) item n = (some id, item, n)
open_section fresh title none item n = (
  some (fresh n),
  record item { sections = item.sections ++ record { id = fresh n; title = title } ∷ [] },
  n + 1,
)

unfoldable pub section_for : (ℕ → String) → String → Item → ℕ → Option String × Item × ℕ
unfolding section_id_of
section_for fresh section item n =
    if str_eq section ""
    then (none, item, n)
    else open_section fresh section (section_id_of section item.sections) item n

abbrev pub is_top : Option String → Bool
is_top none = true
is_top (some id) = false

-- The field is changed in place where it exists, and appended where it does not.
unfoldable pub put_field :
    FieldTypes
    → (ℕ → String)
    → Bool
    → FieldWrite
    → Option String
    → Option String
    → Item
    → ℕ
    → Item × ℕ
unfolding update_first new_field_type any
put_field types fresh creating w wanted sid item n =
    if any (matches w.label sid) item.fields
    then (
      record item {
        fields = update_first (matches w.label sid) (overwrite w.value wanted) item.fields;
      },
      n,
    )
    else (
      record item {
        fields =
            item.fields
            ++ record {
              id = if creating && is_top sid then w.label else fresh n;
              title = w.label;
              section_id = sid;
              field_type = new_field_type types wanted w.label;
              value = w.value;
            }
              ∷ [];
      },
      n + 1,
    )

abbrev pub known_type : FieldTypes → String → Option String
known_type types typ = by_name types.names (norm_name typ)

abbrev pub all_applied : Item × ℕ → Applied
all_applied (item, n) = applied item n

-- One round of the loop of `applyFields`.
unfoldable pub apply_field : FieldTypes → (ℕ → String) → Bool → FieldWrite → Item → ℕ → Applied
unfolding section_for put_field
apply_field types fresh creating w item n =
    let (sid, opened, n') = section_for fresh w.section item n in
    if str_eq w.typ ""
    then all_applied (put_field types fresh creating w none sid opened n')
    else elim (known_type types w.typ) [
      | none ↦ unknown_field_type w.typ w.label
      | some t ↦ all_applied (put_field types fresh creating w (some t) sid opened n')
    ]

unfoldable pub apply_fields :
    FieldTypes → (ℕ → String) → Bool → List FieldWrite → Item → ℕ → Applied
unfolding apply_field
apply_fields types fresh creating [] item n = applied item n
apply_fields types fresh creating (w ∷ ws) item n =
    elim (apply_field types fresh creating w item n) [
      | unknown_field_type typ label ↦ unknown_field_type typ label
      | applied item' n' ↦ apply_fields types fresh creating ws item' n'
    ]

-- `setWebsite`: the first entry labelled "website", or a new one; `anywhere` is the SDK's
-- AutofillBehaviorAnywhereOnWebsite.
unfoldable pub set_website : String → String → List Website → List Website
set_website anywhere url [] =
    record { url = url; label = "website"; autofill_behavior = anywhere } ∷ []
set_website anywhere url (w ∷ ws) =
    let rest = set_website anywhere url ws in
    if str_eq w.label "website" then record w { url = url } ∷ ws else w ∷ rest

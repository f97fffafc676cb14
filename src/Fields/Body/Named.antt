-- ===== src/Fields/Body/Named.antt =====
-- Which fields a parsed body sets: exactly those that it names, with their values and types.
use openbao_plugin_secrets_o.Prelude.{
  String, Option, none, some, List, [], ◌≡◌, refl, sym, ◌∙◌, ap, str_eq, arith, if◌then◌else◌, true,
  false, eq_iff, Bool-cases, Option-cases, inl, inr,
}
use openbao_plugin_secrets_o.Prelude.Table.{Table, lookup, is_some}
use openbao_plugin_secrets_o.Fields.{FieldWrite}
use openbao_plugin_secrets_o.Fields.Body.{
  Members, MapName, Parsed, done, bad, orelse, raw_at, or_no_table, string_map, section_map,
  or_empty, add_fields, check_sections, add_sections, sort_writes, parse_field_writes, ◌>>=◌,
}
use openbao_plugin_secrets_o.Fields.Body.Tables.{
  value_of, type_of, section_map-IsTitled, lookup-string_map, lookup_in-section_map,
}
use openbao_plugin_secrets_o.Fields.Body.Rows.{
  check_types-set, check_sections-known, IsTyped-lookup, write_at, write_at-sort, write_for,
  write_at-add_rows, add_fields-parts, write_in, add_sections-writes,
}

-- Inversion of a step that succeeds.
step {ℓ κ} :
    {A : Type ℓ} {B : Type κ} (m : Parsed A) (f : A → Parsed B) {b : B}
    → (m >>= f) ≡ done b
    → (a : A) × (m ≡ done a) × (f a ≡ done b)
step (done a) f h = (a, refl, h)
step (bad e) f h = cc

-- A section without a table has the empty one.
lookup-or_no_table :
    (found : Option (Table String)) (label : String)
    → lookup label (or_no_table found) ≡ elim found [ none ↦ none | some m ↦ lookup label m ]
unfolding lookup
lookup-or_no_table none label = refl
lookup-or_no_table (some m) label = refl

-- The write that a body names for a field.
abbrev pub write_of : Members → String → String → Option FieldWrite
write_of raw section label = elim (value_of raw section label) [
  | none ↦ none
  | some v ↦ some (record {
    section = section;
    label = label;
    value = v;
    typ = or_empty (type_of raw section label);
  })
]

-- The tables of a body that is accepted, and what is built from them.
record IsAccepted (raw : Members) (ws : List FieldWrite) : Type 0 where
  fields : Table String
  types : Table String
  sections : Table (Table String)
  section_types : Table (Table String)
  top : List FieldWrite
  all : List FieldWrite
  fields_read : string_map (raw_at "fields" raw) (MapName.named "fields") ≡ done fields
  types_read : string_map (raw_at "field_types" raw) (MapName.named "field_types") ≡ done types
  sections_read : section_map (raw_at "sections" raw) "sections" ≡ done sections
  section_types_read : section_map (raw_at "section_types" raw) "section_types" ≡ done section_types
  top_added : add_fields "" fields types (MapName.named "field_types") [] ≡ done top
  checked : check_sections sections section_types ≡ done tt
  all_added : add_sections section_types sections top ≡ done all
  sorted : sort_writes all ≡ ws

parse-IsAccepted :
    (raw : Members) (ws : List FieldWrite) → parse_field_writes raw ≡ done ws → IsAccepted raw ws
unfolding parse_field_writes
parse-IsAccepted raw ws h =
    let (fields, fields_read, h₁) = step _ _ h in
    let (types, types_read, h₂) = step _ _ h₁ in
    let (sections, sections_read, h₃) = step _ _ h₂ in
    let (section_types, section_types_read, h₄) = step _ _ h₃ in
    let (top, top_added, h₅) = step _ _ h₄ in
    let (u, checked, h₆) = step _ _ h₅ in
    let (all, all_added, h₇) = step _ _ h₆ in
    record {
      fields = fields;
      types = types;
      sections = sections;
      section_types = section_types;
      top = top;
      all = all;
      fields_read = fields_read;
      types_read = types_read;
      sections_read = sections_read;
      section_types_read = section_types_read;
      top_added = top_added;
      checked = checked;
      all_added = all_added;
      sorted = ground arith;
    }

module _ (raw : Members) (ws : List FieldWrite) (a : IsAccepted raw ws) (label : String) where
  open a use {
    fields, types, sections, section_types, top, all, fields_read, types_read, sections_read,
    section_types_read, top_added, checked, all_added, sorted,
  }

  top-writes :
      (section : String)
      → write_at section label top
        ≡ (if str_eq "" section then write_for "" types label (lookup label fields) else none)
  top-writes section =
      let (set, rows) =
        add_fields-parts "" fields types (MapName.named "field_types") [] top top_added in
      unfold write_at in write_at-add_rows "" types fields [] top section label rows

  all-writes :
      (section : String)
      → write_at section label ws
        ≡ orelse
            (write_at section label top)
            (write_in section_types section label (lookup section sections))
  all-writes section =
      let titled = section_map-IsTitled _ "sections" sections sections_read in
      ap (write_at section label) (sym sorted)
      ∙ write_at-sort section label all
      ∙ (add_sections-writes section_types sections top all titled.0 all_added).1 section label

  named-top : write_at "" label ws ≡ write_of raw "" label
  named-top =
      let titled = section_map-IsTitled _ "sections" sections sections_read in
      let field = lookup-string_map _ (MapName.named "fields") fields label fields_read in
      let type = lookup-string_map _ (MapName.named "field_types") types label types_read in
      all-writes "" ∙ ground (arith, top-writes "", titled.1, field, type)

  named-section :
      (section : String)
      → str_eq section "" ≡ false
      → write_at section label ws ≡ write_of raw section label
  named-section section apart =
      let field = lookup_in-section_map _ "sections" sections section label sections_read in
      let type =
        lookup_in-section_map _ "section_types" section_types section label section_types_read in
      all-writes section
      ∙ ground (
        arith,
        top-writes section,
        apart,
        eq_iff section "",
        eq_iff "" section,
        lookup-or_no_table (lookup section section_types) label,
        field,
        type,
      )

  typed-top : is_some (type_of raw "" label) ≡ true → is_some (value_of raw "" label) ≡ true
  typed-top typed =
      let (set, rows) =
        add_fields-parts "" fields types (MapName.named "field_types") [] top top_added in
      let field = lookup-string_map _ (MapName.named "fields") fields label fields_read in
      let type = lookup-string_map _ (MapName.named "field_types") types label types_read in
      rw (← field) (check_types-set _ fields types tt label set (rw type typed))

  typed-section :
      (section : String)
      → str_eq section "" ≡ false
      → is_some (type_of raw section label) ≡ true
      → is_some (value_of raw section label) ≡ true
  typed-section section apart typed =
      let field = lookup_in-section_map _ "sections" sections section label sections_read in
      let type =
        lookup_in-section_map _ "section_types" section_types section label section_types_read in
      let titled = section_map-IsTitled _ "sections" sections sections_read in
      let ok = (add_sections-writes section_types sections top all titled.0 all_added).0 in
      elim (Option-cases (lookup section sections)) [
        | inl out ↦ absurd (
            ground (
              arith,
              check_sections-known sections section_types tt section checked,
              out,
              type,
              typed,
              apart,
            ))
        | inr (vals, there) ↦ ground (
          arith,
          IsTyped-lookup section_types sections section vals label ok there,
          lookup-or_no_table (lookup section section_types) label,
          there,
          field,
          type,
          typed,
          apart,
        )
      ]

-- A body that is accepted sets exactly the fields that it names: the write of a field is the one
-- with the value and the type that the body gives for it, at the top level or in the section, a
-- field that the body gives no value for is not among the writes, and where the body gives a type
-- it gives a value.
pub parse_field_writes-names :
    (raw : Members) (ws : List FieldWrite)
    → parse_field_writes raw ≡ done ws
    → (section label : String)
    → (write_at section label ws ≡ write_of raw section label)
      × (is_some (type_of raw section label) ≡ true → is_some (value_of raw section label) ≡ true)
parse_field_writes-names raw ws h section label =
    let a = parse-IsAccepted raw ws h in
    elim (Bool-cases (str_eq section "")) [
      | inl top ↦
          let e : section ≡ "" = (eq_iff section "").0 top in
          rw e (named-top raw ws a label, typed-top raw ws a label)
      | inr apart ↦
          (named-section raw ws a label section apart, typed-section raw ws a label section apart)
    ]

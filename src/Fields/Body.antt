-- ===== src/Fields/Body.antt =====
-- backend/writes.go stringMap, sectionMap and parseFieldWrites: how the body of a write names the
-- fields that it sets. `Raw` is a decoded JSON value; a Go map has each key once, and here the last
-- member of a key counts. The order of the members stands for that of a `range` loop.
pub mod Tables
pub mod Rows
pub mod Named
use openbao_plugin_secrets_o.Prelude.{
  String, Bool, true, false, not, ◌&&◌, ◌||◌, Option, none, some, List, [], ◌∷◌, ◌++◌, str_eq,
  if◌then◌else◌,
}
use openbao_plugin_secrets_o.Prelude.Table.{Table, lookup, insert, has}
use openbao_plugin_secrets_o.Prelude.Sort.{str_le}
use openbao_plugin_secrets_o.Fields.{FieldWrite}

mutual
  pub data Raw : Type 0 where
    null : Raw
    string : String → Raw
    object : Members → Raw
    other : Raw

  pub data Members : Type 0 where
    nothing : Members
    member : String → Raw → Members → Members

-- What an error message calls the map that it is about: its name, with a key in brackets.
pub data MapName : Type 0 where
  named : String → MapName
  inside : String → String → MapName

pub data BodyError : Type 0 where
  not_a_map : MapName → BodyError
  not_a_string : MapName → String → BodyError
  empty_title : String → BodyError
  not_set : MapName → String → BodyError
  empty_label : BodyError
  unknown_section : String → BodyError

pub data Parsed {ℓ} (A : Type ℓ) : Type ℓ where
  done : A → Parsed A
  bad : BodyError → Parsed A

infixl 5 ◌>>=◌
abbrev pub ◌>>=◌ {ℓ κ} : {A : Type ℓ} {B : Type κ} → Parsed A → (A → Parsed B) → Parsed B
done a >>= f = f a
bad e >>= f = bad e

abbrev pub orelse {ℓ} : {A : Type ℓ} → Option A → Option A → Option A
orelse (some a) b = some a
orelse none b = b

-- `m[key]`, where a missing key reads as nil.
unfoldable pub member_at : String → Members → Option Raw
member_at key nothing = none
member_at key (member j v ms) =
    let later = member_at key ms in orelse later (if str_eq j key then some v else none)

abbrev or_null : Option Raw → Raw
or_null none = null
or_null (some v) = v

unfoldable pub raw_at : String → Members → Raw
unfolding member_at
raw_at key ms = or_null (member_at key ms)

-- The loop of `stringMap`.
unfoldable pub strings_loop : MapName → Members → Table String → Parsed (Table String)
strings_loop name nothing out = done out
strings_loop name (member k (string s) ms) out = strings_loop name ms (insert k s out)
strings_loop name (member k v ms) out = bad (not_a_string name k)

unfoldable pub string_map : Raw → MapName → Parsed (Table String)
unfolding strings_loop
string_map null name = done []
string_map (object ms) name = strings_loop name ms []
string_map v name = bad (not_a_map name)

-- The loop of `sectionMap`.
unfoldable pub sections_loop :
    String → Members → Table (Table String) → Parsed (Table (Table String))
unfolding string_map
sections_loop name nothing out = done out
sections_loop name (member title v ms) out =
    if str_eq title "" then bad (empty_title name) else elim (string_map v (inside name title)) [
      | bad e ↦ bad e
      | done inner ↦ sections_loop name ms (insert title inner out)
    ]

unfoldable pub section_map : Raw → String → Parsed (Table (Table String))
unfolding sections_loop
section_map null name = done []
section_map (object ms) name = sections_loop name ms []
section_map v name = bad (not_a_map (named name))

-- The first loop of `add`: a type must name a field that is set.
unfoldable pub check_types : MapName → Table String → Table String → Parsed (Unit {0})
check_types name vals [] = done tt
check_types name vals ((k, t) ∷ typs) =
    let rest = check_types name vals typs in if has k vals then rest else bad (not_set name k)

abbrev pub or_empty : Option String → String
or_empty none = ""
or_empty (some s) = s

abbrev pub row : String → Table String → String → String → FieldWrite
row section typs label value = record {
  section = section;
  label = label;
  value = value;
  typ = or_empty (lookup label typs);
}

-- The second loop of `add`.
unfoldable pub add_rows :
    String → Table String → Table String → List FieldWrite → Parsed (List FieldWrite)
add_rows section typs [] out = done out
add_rows section typs ((label, v) ∷ vals) out =
    let rest = add_rows section typs vals (out ++ row section typs label v ∷ []) in
    if str_eq label "" then bad empty_label else rest

unfoldable pub add_fields :
    String → Table String → Table String → MapName → List FieldWrite → Parsed (List FieldWrite)
unfolding check_types add_rows
add_fields section vals typs name out = do
  checked ← check_types name vals typs
  add_rows section typs vals out

unfoldable pub check_sections : Table (Table String) → Table (Table String) → Parsed (Unit {0})
check_sections sections [] = done tt
check_sections sections ((title, typs) ∷ rest) =
    let more = check_sections sections rest in
    if has title sections then more else bad (unknown_section title)

abbrev pub or_no_table : Option (Table String) → Table String
or_no_table none = []
or_no_table (some t) = t

unfoldable pub add_sections :
    Table (Table String) → Table (Table String) → List FieldWrite → Parsed (List FieldWrite)
unfolding add_fields
add_sections types [] out = done out
add_sections types ((title, vals) ∷ sections) out =
    elim (add_fields title vals (or_no_table (lookup title types)) (inside "section_types" title)
      out) [ bad e ↦ bad e | done out' ↦ add_sections types sections out' ]

-- By section, then by label.
abbrev pub write_le : FieldWrite → FieldWrite → Bool
write_le v w =
    if str_eq v.section w.section then str_le v.label w.label else str_le v.section w.section

unfoldable pub insert_write : FieldWrite → List FieldWrite → List FieldWrite
insert_write w [] = w ∷ []
insert_write w (v ∷ vs) =
    let rest = insert_write w vs in if write_le w v then w ∷ v ∷ vs else v ∷ rest

-- `sort.Slice`; no two of the writes are for the same field.
unfoldable pub sort_writes : List FieldWrite → List FieldWrite
unfolding insert_write
sort_writes [] = []
sort_writes (w ∷ ws) = insert_write w (sort_writes ws)

unfoldable pub parse_field_writes : Members → Parsed (List FieldWrite)
unfolding raw_at string_map section_map add_fields check_sections add_sections sort_writes
parse_field_writes raw = do
  fields ← string_map (raw_at "fields" raw) (named "fields")
  types ← string_map (raw_at "field_types" raw) (named "field_types")
  sections ← section_map (raw_at "sections" raw) "sections"
  section_types ← section_map (raw_at "section_types" raw) "section_types"
  top ← add_fields "" fields types (named "field_types") []
  checked ← check_sections sections section_types
  all ← add_sections section_types sections top
  done (sort_writes all)

-- ===== src/Fields/Body/Rows.antt =====
-- The writes that parseFieldWrites makes of its tables, by the field that they are for.
use openbao_plugin_secrets_o.Prelude.{
  String, true, ◌&&◌, Option, none, some, List, [], ◌∷◌, ◌++◌, ◌≡◌, refl, ◌∙◌, str_eq, eq_iff,
  arith, if◌then◌else◌, Bool-cases, inl, inr,
}
use text.Mathlib.TextPositions.{compare_refl}
use openbao_plugin_secrets_o.Prelude.Table.{Table, lookup, has, Distinct}
use openbao_plugin_secrets_o.Fields.{FieldWrite}
use openbao_plugin_secrets_o.Fields.Body.{
  MapName, done, orelse, check_types, row, add_rows, add_fields, check_sections, or_no_table,
  add_sections, write_le, insert_write, sort_writes,
}
use openbao_plugin_secrets_o.Fields.Body.Tables.{Parsed-cases}

-- The write of a field among the writes.
unfoldable pub write_at : String → String → List FieldWrite → Option FieldWrite
write_at section label [] = none
write_at section label (w ∷ ws) =
    let later = write_at section label ws in
    if str_eq w.section section && str_eq w.label label then some w else later

-- Sorting leaves the write of a field in place.
write_le-same : (v w : FieldWrite) → v.section ≡ w.section → v.label ≡ w.label → write_le v w ≡ true
write_le-same v w s l = rw (s, l) (ground (arith, eq_iff w.section w.section, compare_refl w.label))

write_at-insert :
    (section label : String) (w : FieldWrite) (ws : List FieldWrite)
    → write_at section label (insert_write w ws) ≡ write_at section label (w ∷ ws)
unfolding write_at insert_write
write_at-insert section label w [] = refl
write_at-insert section label w (v ∷ vs) = elim (Bool-cases (write_le w v)) [
  | inl before ↦ rw before
  | inr behind ↦
      rw (behind, write_at-insert section label w vs)
        (ground (
          arith,
          write_le-same w v,
          eq_iff v.section section,
          eq_iff v.label label,
          eq_iff w.section section,
          eq_iff w.label label,
        ))
]

pub write_at-sort :
    (section label : String) (ws : List FieldWrite)
    → write_at section label (sort_writes ws) ≡ write_at section label ws
unfolding sort_writes write_at
write_at-sort section label [] = refl
write_at-sort section label (w ∷ ws) =
    write_at-insert section label w (sort_writes ws) ∙ rw (write_at-sort section label ws)

pub write_at-append :
    (section label : String) (xs ys : List FieldWrite)
    → write_at section label (xs ++ ys)
      ≡ orelse (write_at section label xs) (write_at section label ys)
unfolding write_at
write_at-append section label [] ys = refl
write_at-append section label (x ∷ xs) ys = ground (arith, write_at-append section label xs ys)

-- The writes that a table of values comes to.
abbrev pub write_for : String → Table String → String → Option String → Option FieldWrite
write_for section typs label none = none
write_for section typs label (some v) = some (row section typs label v)

pub write_at-add_rows :
    (title : String) (typs vals : Table String) (out all : List FieldWrite) (section label : String)
    → add_rows title typs vals out ≡ done all
    → write_at section label all
      ≡ orelse
          (write_at section label out)
          (if str_eq title section then write_for title typs label (lookup label vals) else none)
unfolding add_rows lookup write_at
write_at-add_rows title typs [] out all section label h = ground arith
write_at-add_rows title typs ((k, v) ∷ vals) out all section label h =
    let more = out ++ row title typs k v ∷ [] in
    elim (Bool-cases (str_eq k "")) [
      | inl empty ↦ absurd (ground (arith, empty))
      | inr fine ↦ ground (
        arith,
        write_at-add_rows title typs vals more all section label,
        write_at-append section label out (row title typs k v ∷ []),
        eq_iff k label,
        eq_iff title section,
      )
    ]

pub check_types-set :
    (name : MapName) (vals typs : Table String) (u : Unit {0}) (k : String)
    → check_types name vals typs ≡ done u
    → has k typs ≡ true
    → has k vals ≡ true
unfolding check_types lookup
check_types-set name vals [] u k h there = cc
check_types-set name vals ((j, t) ∷ typs) u k h there =
    ground (arith, check_types-set name vals typs u k, eq_iff j k)

pub add_fields-parts :
    (title : String) (vals typs : Table String) (name : MapName) (out all : List FieldWrite)
    → add_fields title vals typs name out ≡ done all
    → (check_types name vals typs ≡ done tt) × (add_rows title typs vals out ≡ done all)
unfolding add_fields
add_fields-parts title vals typs name out all h = elim (Parsed-cases (check_types name vals typs)) [
  | inl (e, wrong) ↦ absurd (ground (arith, wrong))
  | inr (tt, right) ↦ (right, ground (arith, right))
]

-- The writes of a table of sections.
abbrev pub write_in :
    Table (Table String) → String → String → Option (Table String) → Option FieldWrite
write_in types section label none = none
write_in types section label (some vals) =
    write_for section (or_no_table (lookup section types)) label (lookup label vals)

abbrev pub IsTyped : Table (Table String) → Table (Table String) → Type 0
IsTyped types [] = Unit {0}
IsTyped types ((title, vals) ∷ sections) =
    ((k : String) → has k (or_no_table (lookup title types)) ≡ true → has k vals ≡ true)
    × IsTyped types sections

pub add_sections-writes :
    (types sections : Table (Table String)) (out all : List FieldWrite)
    → Distinct sections
    → add_sections types sections out ≡ done all
    → IsTyped types sections
      × ((section label : String)
          → write_at section label all
            ≡ orelse
                (write_at section label out)
                (write_in types section label (lookup section sections)))
unfolding add_sections lookup
add_sections-writes types [] out all d h = (tt, λ section label. ground arith)
add_sections-writes types ((title, vals) ∷ sections) out all d h =
    let typs = or_no_table (lookup title types) in
    let name = MapName.inside "section_types" title in
    elim (Parsed-cases (add_fields title vals typs name out)) [
      | inl (e, wrong) ↦ absurd (ground (arith, wrong))
      | inr (mid, right) ↦
          let (checked, rows) = add_fields-parts title vals typs name out mid right in
          let (typed, writes) =
            add_sections-writes types sections mid all d.1 (ground (arith, right)) in
          (
            (λ k. check_types-set name vals typs tt k checked, typed),
            λ section label. ground (
              arith,
              writes section label,
              write_at-add_rows title typs vals out mid section label rows,
              eq_iff title section,
              d.0,
            ),
          )
    ]

pub IsTyped-lookup :
    (types sections : Table (Table String)) (section : String) (vals : Table String) (k : String)
    → IsTyped types sections
    → lookup section sections ≡ some vals
    → has k (or_no_table (lookup section types)) ≡ true
    → has k vals ≡ true
unfolding lookup
IsTyped-lookup types [] section vals k t found typed = cc
IsTyped-lookup types ((title, ws) ∷ sections) section vals k t found typed =
    ground (arith, eq_iff title section, t.0 k, IsTyped-lookup types sections section vals k t.1)

pub check_sections-known :
    (sections types : Table (Table String)) (u : Unit {0}) (section : String)
    → check_sections sections types ≡ done u
    → has section types ≡ true
    → has section sections ≡ true
unfolding check_sections lookup
check_sections-known sections [] u section h there = cc
check_sections-known sections ((title, typs) ∷ types) u section h there =
    ground (arith, eq_iff title section, check_sections-known sections types u section)

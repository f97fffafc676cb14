-- ===== src/Fields/Body/Tables.antt =====
-- What the tables hold that stringMap and sectionMap read from a body.
use openbao_plugin_secrets_o.Prelude.{
  String, false, Option, none, some, [], ◌≡◌, refl, str_eq, eq_iff, arith, if◌then◌else◌, inl, inr,
  ◌⊎◌,
}
use openbao_plugin_secrets_o.Prelude.Table.{
  Table, lookup, insert, has, Distinct, lookup-insert, insert-Distinct,
}
use openbao_plugin_secrets_o.Fields.Body.{
  Raw, null, string, object, other, Members, nothing, member, MapName, BodyError, Parsed, done, bad,
  member_at, raw_at, strings_loop, string_map, sections_loop, section_map,
}

-- What a JSON value says of a label, and of a label in a section.
abbrev pub text_of : Raw → Option String
text_of (string s) = some s
text_of v = none

abbrev pub text_at : String → Raw → Option String
text_at label (object ms) = elim (member_at label ms) [ none ↦ none | some v ↦ text_of v ]
text_at label v = none

abbrev pub text_in : String → String → Raw → Option String
text_in title label (object ms) = elim (member_at title ms) [
  | none ↦ none
  | some v ↦ text_at label v
]
text_in title label v = none

-- The value and the type that a body has for a field; section "" is the top level.
abbrev pub value_of : Members → String → String → Option String
value_of raw section label =
    if str_eq section ""
    then text_at label (raw_at "fields" raw)
    else text_in section label (raw_at "sections" raw)

abbrev pub type_of : Members → String → String → Option String
type_of raw section label =
    if str_eq section ""
    then text_at label (raw_at "field_types" raw)
    else text_in section label (raw_at "section_types" raw)

pub Parsed-cases {ℓ} :
    {A : Type ℓ} (p : Parsed A) → ((e : BodyError) × (p ≡ bad e)) ⊎ ((a : A) × (p ≡ done a))
Parsed-cases (done a) = inr (a, refl)
Parsed-cases (bad e) = inl (e, refl)

-- The tables that the loops build.
lookup-strings_loop :
    (name : MapName) (ms : Members) (out t : Table String) (k : String)
    → strings_loop name ms out ≡ done t
    → lookup k t ≡ elim (member_at k ms) [ none ↦ lookup k out | some v ↦ text_of v ]
unfolding strings_loop member_at
lookup-strings_loop name nothing out t k h = ground arith
lookup-strings_loop name (member j (string s) ms) out t k h =
    ground (arith, lookup-strings_loop name ms (insert j s out) t k h, lookup-insert j k s out)
lookup-strings_loop name (member j null ms) out t k h = cc
lookup-strings_loop name (member j (object fs) ms) out t k h = cc
lookup-strings_loop name (member j other ms) out t k h = cc

pub lookup-string_map :
    (v : Raw) (name : MapName) (t : Table String) (k : String)
    → string_map v name ≡ done t
    → lookup k t ≡ text_at k v
unfolding string_map lookup
lookup-string_map null name t k h = ground arith
lookup-string_map (object ms) name t k h = lookup-strings_loop name ms [] t k h
lookup-string_map (string s) name t k h = cc
lookup-string_map other name t k h = cc

-- The same of two levels.
abbrev pub lookup_in : String → String → Table (Table String) → Option String
lookup_in title label t = elim (lookup title t) [ none ↦ none | some m ↦ lookup label m ]

lookup_in-sections_loop :
    (name : String) (ms : Members) (out t : Table (Table String)) (title k : String)
    → sections_loop name ms out ≡ done t
    → lookup_in title k t
      ≡ elim (member_at title ms) [ none ↦ lookup_in title k out | some v ↦ text_at k v ]
unfolding sections_loop member_at
lookup_in-sections_loop name nothing out t title k h = ground arith
lookup_in-sections_loop name (member j v ms) out t title k h =
    elim (Parsed-cases (string_map v (MapName.inside name j))) [
      | inl (e, wrong) ↦ absurd (ground (arith, wrong))
      | inr (inner, right) ↦ ground (
        arith,
        lookup_in-sections_loop name ms (insert j inner out) t title k,
        lookup-insert j title inner out,
        lookup-string_map v (MapName.inside name j) inner k right,
      )
    ]

pub lookup_in-section_map :
    (v : Raw) (name : String) (t : Table (Table String)) (title k : String)
    → section_map v name ≡ done t
    → lookup_in title k t ≡ text_in title k v
unfolding section_map lookup
lookup_in-section_map null name t title k h = ground arith
lookup_in-section_map (object ms) name t title k h = lookup_in-sections_loop name ms [] t title k h
lookup_in-section_map (string s) name t title k h = cc
lookup_in-section_map other name t title k h = cc

-- A section is there once, and has a title.
abbrev pub IsTitled : Table (Table String) → Type 0
IsTitled t = Distinct t × (has "" t ≡ false)

sections_loop-IsTitled :
    (name : String) (ms : Members) (out t : Table (Table String))
    → sections_loop name ms out ≡ done t
    → IsTitled out
    → IsTitled t
unfolding sections_loop
sections_loop-IsTitled name nothing out t h i = let same : out ≡ t = ground arith in rw (← same) i
sections_loop-IsTitled name (member j v ms) out t h i =
    elim (Parsed-cases (string_map v (MapName.inside name j))) [
      | inl (e, wrong) ↦ absurd (ground (arith, wrong))
      | inr (inner, right) ↦
          sections_loop-IsTitled name ms (insert j inner out) t (ground (arith, right)) (
            insert-Distinct j inner out i.0,
            ground (arith, eq_iff j "", lookup-insert j "" inner out, i.1),
          )
    ]

pub section_map-IsTitled :
    (v : Raw) (name : String) (t : Table (Table String)) → section_map v name ≡ done t → IsTitled t
unfolding section_map lookup
section_map-IsTitled null name t h = let same : [] ≡ t = ground arith in rw (← same) (tt, refl)
section_map-IsTitled (object ms) name t h = sections_loop-IsTitled name ms [] t h (tt, refl)
section_map-IsTitled (string s) name t h = cc
section_map-IsTitled other name t h = cc

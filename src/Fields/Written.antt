-- ===== src/Fields/Written.antt =====
-- `applyFields` on one field: what is read afterwards, and what stays as it was.
use openbao_plugin_secrets_o.Prelude.{
  ℕ, String, Bool, true, false, Option, none, some, [], ◌∷◌, ◌++◌, ◌≡◌, ◌≢◌, refl, ◌∙◌, ap, any,
  find_by, str_eq, eq_iff, arith, Bool-cases, Option-cases, inl, inr, ◌⊎◌,
}
use mathlib.Core.Path.{subst}
use openbao_plugin_secrets_o.Onepassword.{ItemField, Item}
use openbao_plugin_secrets_o.Address.{section_id_of, labelled, labelled_in, lookup_field}
use openbao_plugin_secrets_o.Fields.Merge.{
  section_id_of-append, others, overwrite-keeps, Reads, Sees-section, Sees-top, put_field-others,
  put_field-Reads, put_field-hidden,
}
use openbao_plugin_secrets_o.Fields.{
  FieldWrite, FieldTypes, matches, applied, section_for, put_field, known_type, apply_field,
}

-- What a write of fields leaves of an item.
record Kept (i j : Item) : Type 0 where
  id : j.id ≡ i.id
  title : j.title ≡ i.title
  notes : j.notes ≡ i.notes
  tags : j.tags ≡ i.tags
  websites : j.websites ≡ i.websites
  version : j.version ≡ i.version

Kept-same :
    {i j : Item}
    → j.id ≡ i.id
    → j.title ≡ i.title
    → j.notes ≡ i.notes
    → j.tags ≡ i.tags
    → j.websites ≡ i.websites
    → j.version ≡ i.version
    → Kept i j
Kept-same a b c d e f = record { id = a; title = b; notes = c; tags = d; websites = e; version = f }

section_for-Kept :
    (fresh : ℕ → String) (section : String) (item : Item) (n : ℕ)
    → let opened = (section_for fresh section item n).1 in
      Kept item opened
      × (opened.fields ≡ item.fields)
      × ((opened.sections ≡ item.sections)
          ⊎ ((id : String) × (opened.sections
                ≡ item.sections ++ record { id = id; title = section } ∷ [])))
unfolding section_for
section_for-Kept fresh section item n = elim (Bool-cases (str_eq section "")) [
  | inl top ↦ rw top (Kept-same refl refl refl refl refl refl, refl, inl refl)
  | inr named ↦ elim (Option-cases (section_id_of section item.sections)) [
    | inl missing ↦
        rw (named, missing) (Kept-same refl refl refl refl refl refl, refl, inr (fresh n, refl))
    | inr (sid, found) ↦ rw (named, found) (Kept-same refl refl refl refl refl refl, refl, inl refl)
  ]
]

section_for-section :
    (fresh : ℕ → String) (section : String) (item : Item) (n : ℕ)
    → section ≢ ""
    → (sid : String) × ((section_for fresh section item n).0 ≡ some sid)
      × (section_id_of section (section_for fresh section item n).1.sections ≡ some sid)
      × ((section_for fresh section item n).1.fields ≡ item.fields)
unfolding section_for
section_for-section fresh section item n h =
    let named : str_eq section "" ≡ false = ground (arith, eq_iff section "") in
    rw named (elim (Option-cases (section_id_of section item.sections)) [
      | inl missing ↦
          rw missing
            (fresh n, refl, section_id_of-append section (fresh n) item.sections missing, refl)
      | inr (sid, found) ↦ rw found (sid, refl, found, refl)
    ])

section_for-top :
    (fresh : ℕ → String) (item : Item) (n : ℕ) → section_for fresh "" item n ≡ (none, item, n)
unfolding section_for
section_for-top fresh item n = refl

lookup_field-section :
    (item : Item) (section label sid : String)
    → section ≢ ""
    → section_id_of section item.sections ≡ some sid
    → lookup_field item section label ≡ find_by (labelled_in label sid) item.fields
unfolding lookup_field
lookup_field-section item section label sid h found =
    let named : str_eq section "" ≡ false = ground (arith, eq_iff section "") in
    rw (named, found) refl

lookup_field-top :
    (item : Item) (label : String)
    → lookup_field item "" label ≡ find_by (labelled label) item.fields
unfolding lookup_field
lookup_field-top item label = refl

matches→labelled_in :
    (label sid : String) (f : ItemField)
    → matches label (some sid) f ≡ true
    → labelled_in label sid f ≡ true
matches→labelled_in label sid f e = ground arith

matches→labelled :
    (label : String) (f : ItemField) → matches label none f ≡ true → labelled label f ≡ true
matches→labelled label f e = ground arith

module _ (types : FieldTypes) (fresh : ℕ → String) (creating : Bool) (w : FieldWrite) where
  put_field-sections :
      (wanted sid : Option String) (item : Item) (n : ℕ)
      → (put_field types fresh creating w wanted sid item n).0.sections ≡ item.sections
  unfolding put_field
  put_field-sections wanted sid item n = ground arith

  put_field-Kept :
      (wanted sid : Option String) (item : Item) (n : ℕ)
      → Kept item (put_field types fresh creating w wanted sid item n).0
  unfolding put_field
  put_field-Kept wanted sid item n = elim (Bool-cases (any (matches w.label sid) item.fields)) [
    | inl known ↦ rw known (Kept-same refl refl refl refl refl refl)
    | inr new ↦ rw new (Kept-same refl refl refl refl refl refl)
  ]

  apply_field-applied :
      (item item' : Item) (n n' : ℕ)
      → apply_field types fresh creating w item n ≡ applied item' n'
      → let (sid, opened, m) = section_for fresh w.section item n in
        (wanted : Option String) × ((put_field types fresh creating w wanted sid opened m).0
          ≡ item')
  unfolding apply_field
  apply_field-applied item item' n n' h = elim (Bool-cases (str_eq w.typ "")) [
    | inl kept ↦ (none, ground arith)
    | inr named ↦ elim (Option-cases (known_type types w.typ)) [
      | inl missing ↦ absurd (ground arith)
      | inr (t, found) ↦ (some t, ground arith)
    ]
  ]

  section_write_is_read :
      (item : Item) (n : ℕ) (wanted : Option String)
      → w.section ≢ ""
      → let (sid, opened, m) = section_for fresh w.section item n in
        let item' = (put_field types fresh creating w wanted sid opened m).0 in
        (f : ItemField) × (lookup_field item' w.section w.label ≡ some f) × (f.value ≡ w.value)
  section_write_is_read item n wanted h =
      let (sid, opened, m) = section_for fresh w.section item n in
      let (id, here, found, same) = section_for-section fresh w.section item n h in
      let item' = (put_field types fresh creating w wanted sid opened m).0 in
      let read =
        lookup_field-section item' w.section w.label id h
          (rw (put_field-sections wanted sid opened m) found) in
      let r : Reads (labelled_in w.label id) item'.fields w.value = rw here (
        put_field-Reads types fresh creating w (labelled_in w.label id) wanted (some id) opened m
          (matches→labelled_in w.label id)
          (λ f. let k = overwrite-keeps w.value wanted f in rw (k.1, k.2) refl)
          (Sees-section w.label id (matches→labelled_in w.label id) opened.fields)) in
      rw read r

  bare_write_is_read :
      (item : Item) (n : ℕ) (wanted : Option String)
      → ((f : ItemField) → find_by (labelled w.label) item.fields ≡ some f → f.section_id ≡ none)
      → let item' = (put_field types fresh creating w wanted none item n).0 in
        Reads (labelled w.label) item'.fields w.value
  bare_write_is_read item n wanted h =
      put_field-Reads types fresh creating w (labelled w.label) wanted none item n
        (matches→labelled w.label) (λ f. let k = overwrite-keeps w.value wanted f in rw k.1 refl)
        (Sees-top w.label (matches→labelled w.label) item.fields h)

  -- A field that is written is read back at its address: always where the write names a section,
  -- and for a bare label where no field of a section comes first with that label.
  pub apply_field-reads :
      (item item' : Item) (n n' : ℕ)
      → apply_field types fresh creating w item n ≡ applied item' n'
      → (w.section ≢ "")
        ⊎ ((w.section ≡ "")
            × ((f : ItemField)
                → find_by (labelled w.label) item.fields ≡ some f
                → f.section_id ≡ none))
      → (f : ItemField) × (lookup_field item' w.section w.label ≡ some f) × (f.value ≡ w.value)
  apply_field-reads item item' n n' done (inl h) =
      let (wanted, same) = apply_field-applied item item' n n' done in
      rw (← same) (section_write_is_read item n wanted h)
  apply_field-reads item item' n n' done (inr (top, h)) =
      let (wanted, same) =
        subst
          (λ (t : Option String × Item × ℕ).
            (wanted : Option String) × ((put_field types fresh creating w wanted t.0 t.1 t.2).0
              ≡ item'))
          (rw top (section_for-top fresh item n)) (apply_field-applied item item' n n' done) in
      let (f, found, set) =
        subst (λ (i : Item). Reads (labelled w.label) i.fields w.value) same
          (bare_write_is_read item n wanted h) in
      (f, ap (λ s. lookup_field item' s w.label) top ∙ lookup_field-top item' w.label ∙ found, set)

  -- A write of one field changes no other: the fields with another label or in another section
  -- are those of before, in their order, and so are the item's ID, title, notes, tags, websites
  -- and version; sections are kept, and at most the named one is added at the end.
  pub apply_field_keeps :
      (item item' : Item) (n n' : ℕ)
      → apply_field types fresh creating w item n ≡ applied item' n'
      → let sid = (section_for fresh w.section item n).0 in
        (others w.label sid item'.fields ≡ others w.label sid item.fields)
        × (item'.id ≡ item.id)
        × (item'.title ≡ item.title)
        × (item'.notes ≡ item.notes)
        × (item'.tags ≡ item.tags)
        × (item'.websites ≡ item.websites)
        × (item'.version ≡ item.version)
        × ((item'.sections ≡ item.sections)
            ⊎ ((id : String) × (item'.sections
                  ≡ item.sections ++ record { id = id; title = w.section } ∷ [])))
  apply_field_keeps item item' n n' done =
      let (wanted, same) = apply_field-applied item item' n n' done in
      let (sid, opened, m) = section_for fresh w.section item n in
      let k = section_for-Kept fresh w.section item n in
      let kept : Kept opened (put_field types fresh creating w wanted sid opened m).0 =
        put_field-Kept wanted sid opened m in
      let fields = put_field-others types fresh creating w wanted sid opened m in
      let sections = put_field-sections wanted sid opened m in
      rw (← same) (
        fields ∙ ap (others w.label sid) k.1,
        kept.id ∙ k.0.id,
        kept.title ∙ k.0.title,
        kept.notes ∙ k.0.notes,
        kept.tags ∙ k.0.tags,
        kept.websites ∙ k.0.websites,
        kept.version ∙ k.0.version,
        rw sections k.2,
      )

  -- A bare label whose first field lies in a section reads as before, whatever is written to it:
  -- the write goes to the top level, behind the field that the reader finds.
  pub bare_write_is_hidden :
      (item item' : Item) (n n' : ℕ) (f : ItemField) (sid : String)
      → apply_field types fresh creating w item n ≡ applied item' n'
      → w.section ≡ ""
      → find_by (labelled w.label) item.fields ≡ some f
      → f.section_id ≡ some sid
      → lookup_field item' w.section w.label ≡ some f
  bare_write_is_hidden item item' n n' f sid done top first inside =
      let (wanted, same) =
        subst
          (λ (t : Option String × Item × ℕ).
            (wanted : Option String) × ((put_field types fresh creating w wanted t.0 t.1 t.2).0
              ≡ item'))
          (rw top (section_for-top fresh item n)) (apply_field-applied item item' n n' done) in
      ap (λ s. lookup_field item' s w.label) top
      ∙ lookup_field-top item' w.label
      ∙ subst (λ (i : Item). find_by (labelled w.label) i.fields ≡ some f) same
          (put_field-hidden types fresh creating w wanted item n f sid first inside)

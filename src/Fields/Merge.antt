-- ===== src/Fields/Merge.antt =====
-- What a write of a field leaves to be read, and what it leaves alone.
use openbao_plugin_secrets_o.Prelude.{
  ℕ, String, Bool, true, false, not, Option, none, some, List, [], ◌∷◌, ◌++◌, ◌≡◌, refl, any,
  find_by, filter_by, eq_iff, arith, Bool-cases, inl, inr,
}
use openbao_plugin_secrets_o.Onepassword.{ItemSection, ItemField, Item}
use openbao_plugin_secrets_o.Address.{section_id_of, labelled, labelled_in}
use openbao_plugin_secrets_o.Fields.{
  FieldWrite, FieldTypes, same_section, matches, update_first, overwrite, put_field,
}

pub section_id_of-append :
    (title id : String) (ss : List ItemSection)
    → section_id_of title ss ≡ none
    → section_id_of title (ss ++ record { id = id; title = title } ∷ []) ≡ some id
unfolding section_id_of
section_id_of-append title id [] h = ground (arith, eq_iff title title)
section_id_of-append title id (s ∷ ss) h = ground (arith, section_id_of-append title id ss)

-- The fields that a write does not name.
abbrev pub others : String → Option String → List ItemField → List ItemField
others label sid = filter_by (λ f. not (matches label sid f))

others-update_first :
    (label value : String) (sid wanted : Option String) (fs : List ItemField)
    → others label sid (update_first (matches label sid) (overwrite value wanted) fs)
      ≡ others label sid fs
unfolding update_first filter_by
others-update_first label value sid wanted [] = refl
others-update_first label value sid none (f ∷ fs) =
    ground (arith, others-update_first label value sid none fs)
others-update_first label value sid (some t) (f ∷ fs) =
    ground (arith, others-update_first label value sid (some t) fs)

others-append :
    (label : String) (sid : Option String) (fs : List ItemField) (f : ItemField)
    → matches label sid f ≡ true
    → others label sid (fs ++ f ∷ []) ≡ others label sid fs
unfolding filter_by
others-append label sid [] f h = ground arith
others-append label sid (g ∷ fs) f h = ground (arith, others-append label sid fs f h)

same_section_refl : (sid : Option String) → same_section sid sid ≡ true
same_section_refl none = refl
same_section_refl (some id) = ground (arith, eq_iff id id)

-- What a reader finds under a test: a field with this value.
abbrev pub Reads : (ItemField → Bool) → List ItemField → String → Type 0
Reads p fs value = (f : ItemField) × (find_by p fs ≡ some f) × (f.value ≡ value)

pub overwrite-keeps :
    (value : String) (wanted : Option String) (f : ItemField)
    → ((overwrite value wanted f).value ≡ value)
      × ((overwrite value wanted f).title ≡ f.title)
      × ((overwrite value wanted f).section_id ≡ f.section_id)
overwrite-keeps value none f = (refl, refl, refl)
overwrite-keeps value (some t) f = (refl, refl, refl)

-- A reader that passes over no field but to the one that the writer changes.
module _ (p : ItemField → Bool) (label : String) (sid : Option String)
    (meets : (f : ItemField) → matches label sid f ≡ true → p f ≡ true) where
  abbrev pub Sees : List ItemField → Type 0
  Sees [] = Unit {0}
  Sees (f ∷ fs) = (p f ≡ true → matches label sid f ≡ true) × (p f ≡ false → Sees fs)

  Reads-update_first :
      (value : String) (wanted : Option String) (fs : List ItemField)
      → ((f : ItemField) → p (overwrite value wanted f) ≡ p f)
      → any (matches label sid) fs ≡ true
      → Sees fs
      → Reads p (update_first (matches label sid) (overwrite value wanted) fs) value
  unfolding update_first any find_by
  Reads-update_first value wanted [] kept h s = absurd (ground arith)
  Reads-update_first value wanted (f ∷ fs) kept h s = elim (Bool-cases (matches label sid f)) [
    | inl here ↦ (
      overwrite value wanted f,
      rw (here, kept f, meets f here) refl,
      (overwrite-keeps value wanted f).0,
    )
    | inr there ↦
        let past : p f ≡ false = ground (arith, s.0, there) in
        let (g, found, set) =
          Reads-update_first value wanted fs kept (ground (arith, there)) (s.1 past) in
        (g, rw (there, past) found, set)
  ]

  Reads-append :
      (fs : List ItemField) (f : ItemField)
      → any (matches label sid) fs ≡ false
      → Sees fs
      → p f ≡ true
      → find_by p (fs ++ f ∷ []) ≡ some f
  unfolding any find_by
  Reads-append [] f h s e = rw e refl
  Reads-append (g ∷ fs) f h s e =
      let past : p g ≡ false = ground (arith, s.0) in
      rw past (Reads-append fs f (ground arith) (s.1 past) e)

-- The reader of a section sees what its writer matches.
pub Sees-section :
    (label sid : String)
    (meets : (f : ItemField) → matches label (some sid) f ≡ true → labelled_in label sid f ≡ true)
    (fs : List ItemField)
    → Sees (labelled_in label sid) label (some sid) meets fs
Sees-section label sid meets [] = tt
Sees-section label sid meets (f ∷ fs) = (λ e. ground arith, λ e. Sees-section label sid meets fs)

-- The reader of a bare label sees a top-level field if the first one with the label is one.
pub Sees-top :
    (label : String)
    (meets : (f : ItemField) → matches label none f ≡ true → labelled label f ≡ true)
    (fs : List ItemField)
    → ((f : ItemField) → find_by (labelled label) fs ≡ some f → f.section_id ≡ none)
    → Sees (labelled label) label none meets fs
unfolding find_by
Sees-top label meets [] h = tt
Sees-top label meets (f ∷ fs) h = (
  λ e. let top = h f (rw e refl) in rw (e, top) refl,
  λ e. Sees-top label meets fs (λ g found. h g (rw e found)),
)

hidden-update_first :
    (label value : String) (wanted : Option String) (fs : List ItemField) (f : ItemField)
    (sid : String)
    → find_by (labelled label) fs ≡ some f
    → f.section_id ≡ some sid
    → find_by (labelled label) (update_first (matches label none) (overwrite value wanted) fs)
      ≡ some f
unfolding find_by update_first
hidden-update_first label value wanted [] f sid first inside = first
hidden-update_first label value wanted (g ∷ fs) f sid first inside =
    ground (arith, hidden-update_first label value wanted fs f sid)

hidden-append :
    (label : String) (fs : List ItemField) (g f : ItemField)
    → find_by (labelled label) fs ≡ some f
    → find_by (labelled label) (fs ++ g ∷ []) ≡ some f
unfolding find_by
hidden-append label [] g f first = absurd (ground arith)
hidden-append label (h ∷ fs) g f first = ground (arith, hidden-append label fs g f)

module _ (types : FieldTypes) (fresh : ℕ → String) (creating : Bool) (w : FieldWrite) where
  pub put_field-others :
      (wanted sid : Option String) (item : Item) (n : ℕ)
      → others w.label sid (put_field types fresh creating w wanted sid item n).0.fields
        ≡ others w.label sid item.fields
  unfolding put_field
  put_field-others wanted sid item n = elim (Bool-cases (any (matches w.label sid) item.fields)) [
    | inl known ↦ rw known (others-update_first w.label w.value sid wanted item.fields)
    | inr new ↦ rw new (
        others-append w.label sid item.fields _
          (ground (arith, eq_iff w.label w.label, same_section_refl sid)))
  ]

  pub put_field-Reads :
      (p : ItemField → Bool) (wanted sid : Option String) (item : Item) (n : ℕ)
      (meets : (f : ItemField) → matches w.label sid f ≡ true → p f ≡ true)
      → ((f : ItemField) → p (overwrite w.value wanted f) ≡ p f)
      → Sees p w.label sid meets item.fields
      → Reads p (put_field types fresh creating w wanted sid item n).0.fields w.value
  unfolding put_field
  put_field-Reads p wanted sid item n meets kept s =
      elim (Bool-cases (any (matches w.label sid) item.fields)) [
        | inl known ↦
            rw known
              (Reads-update_first p w.label sid meets w.value wanted item.fields kept known s)
        | inr new ↦ rw new (
          _,
          Reads-append p w.label sid meets item.fields _ new s
              (meets _ (ground (arith, eq_iff w.label w.label, same_section_refl sid))),
          refl,
        )
      ]

  -- A field of a section that comes first under a bare label stays the first.
  pub put_field-hidden :
      (wanted : Option String) (item : Item) (n : ℕ) (f : ItemField) (sid : String)
      → find_by (labelled w.label) item.fields ≡ some f
      → f.section_id ≡ some sid
      → find_by (labelled w.label) (put_field types fresh creating w wanted none item n).0.fields
        ≡ some f
  unfolding put_field
  put_field-hidden wanted item n f sid first inside =
      elim (Bool-cases (any (matches w.label none) item.fields)) [
        | inl known ↦
            rw known (hidden-update_first w.label w.value wanted item.fields f sid first inside)
        | inr new ↦ rw new (hidden-append w.label item.fields _ f first)
      ]

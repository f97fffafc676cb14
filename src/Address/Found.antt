-- ===== src/Address/Found.antt =====
-- What an address of an item or of a field leads to.
use openbao_plugin_secrets_o.Prelude.{
  String, Option, none, some, List, [], ◌∷◌, ◌≡◌, refl, arith, Option-cases, inl, inr, ◌⊎◌,
}
use openbao_plugin_secrets_o.Onepassword.{Item}
use openbao_plugin_secrets_o.Config.{Splitter}
use openbao_plugin_secrets_o.Replica.{
  not_found, ambiguous_title, Address, resolved, unresolved, Replica, resolve_item_address,
  resolve_split_path, body,
}
use openbao_plugin_secrets_o.Replica.Consistent.{IsConsistent}
use openbao_plugin_secrets_o.Replica.Resolve.{resolve_item_address-body, resolve_split_path-body}
use openbao_plugin_secrets_o.Address.{
  whole_path, flat_or, resolve_item_from_segments, field_at, with_field, left_over, flat_field,
  resolve_field_address,
}

-- Either the flat lookup has the item, or what is resolved is the split path.
resolve_item_address-cases :
    (a : Address)
    → ((id : String) × (a ≡ resolved id))
      ⊎ ((other : Address) (id : String) → flat_or a other ≡ resolved id → other ≡ resolved id)
resolve_item_address-cases (resolved id) = inl (id, refl)
resolve_item_address-cases (unresolved not_found) = inr (λ other id e. e)
resolve_item_address-cases (unresolved (ambiguous_title title ids)) =
    inr (λ other id e. absurd (ground arith))

whole_path-body :
    (splitter : Option Splitter) (r : Replica) (segs : List String) (id : String)
    → IsConsistent splitter r
    → whole_path (resolve_split_path r segs) ≡ resolved id
    → (item : Item) × (body r id ≡ some item)
whole_path-body splitter r segs id c e = elim (Option-cases (resolve_split_path r segs)) [
  | inl missing ↦ absurd (ground (arith, missing))
  | inr ((id', []), found) ↦ resolve_split_path-body splitter r segs id [] c (ground arith)
  | inr ((id', seg ∷ more), found) ↦ absurd (ground arith)
]

-- Whatever path of an item is resolved, the item's body is there to be served.
pub resolve_item_from_segments-body :
    (splitter : Option Splitter) (r : Replica) (segs : List String) (id : String)
    → IsConsistent splitter r
    → resolve_item_from_segments r segs ≡ resolved id
    → (item : Item) × (body r id ≡ some item)
unfolding resolve_item_from_segments
resolve_item_from_segments-body splitter r [] id c e = whole_path-body splitter r [] id c e
resolve_item_from_segments-body splitter r (seg ∷ []) id c e =
    elim (resolve_item_address-cases (resolve_item_address r seg)) [
      | inl (id', here) ↦ resolve_item_address-body splitter r seg id c (ground arith)
      | inr elsewhere ↦
          whole_path-body splitter r (seg ∷ []) id c
            (elsewhere (whole_path (resolve_split_path r (seg ∷ []))) id e)
    ]
resolve_item_from_segments-body splitter r (seg ∷ seg' ∷ more) id c e =
    whole_path-body splitter r (seg ∷ seg' ∷ more) id c e

-- The segments that name the field: its label, or the section and the label.
abbrev pub IsTail : String → String → List String → Type 0
IsTail section field rest = ((section ≡ "") × (rest ≡ field ∷ [])) ⊎ (rest ≡ section ∷ field ∷ [])

left_over-names :
    (id' id section field : String) (rest : List String)
    → left_over id' rest ≡ field_at id section field
    → (id' ≡ id) × IsTail section field rest
left_over-names id' id section field [] e = absurd (ground arith)
left_over-names id' id section field (a ∷ []) e = (ground arith, inl (ground arith, ground arith))
left_over-names id' id section field (a ∷ b ∷ []) e = (ground arith, inr (ground arith))
left_over-names id' id section field (a ∷ b ∷ d ∷ more) e = absurd (ground arith)

with_field-names :
    (a : Address) (s f id section field : String)
    → with_field a s f ≡ field_at id section field
    → (a ≡ resolved id) × (s ≡ section) × (f ≡ field)
with_field-names (resolved i) s f id section field e = (ground arith, ground arith, ground arith)
with_field-names (unresolved x) s f id section field e = absurd (ground arith)

-- A flat address: the item's ID or title, and behind it the segments that name the field.
abbrev pub IsFlat : Replica → List String → String → List String → Type 0
IsFlat r segs id rest =
    (seg : String) × (segs ≡ seg ∷ rest) × (resolve_item_address r seg ≡ resolved id)

flat_field-names :
    (r : Replica) (segs : List String) (id section field : String)
    → flat_field r segs ≡ field_at id section field
    → (rest : List String) × IsTail section field rest × IsFlat r segs id rest
flat_field-names r [] id section field e = absurd (ground arith)
flat_field-names r (a ∷ []) id section field e = absurd (ground arith)
flat_field-names r (a ∷ b ∷ []) id section field e =
    let (here, s, f) = with_field-names (resolve_item_address r a) "" b id section field e in
    (b ∷ [], inl (ground (arith, s), ground (arith, f)), (a, refl, here))
flat_field-names r (a ∷ b ∷ d ∷ []) id section field e =
    let (here, s, f) = with_field-names (resolve_item_address r a) b d id section field e in
    (b ∷ d ∷ [], inr (ground (arith, s, f)), (a, refl, here))
flat_field-names r (a ∷ b ∷ d ∷ f ∷ more) id section field e = absurd (ground arith)

-- In a replica whose indexes agree with its overview, a field's address that leads to a field of
-- an item leads to one whose body is there, and its last segments are the field's label, or the
-- section and the field's label. What stands in front of them is the path that resolve_split_path
-- takes for the item's, or where it finds none, one segment that is an address of the item.
pub resolve_field_address-body :
    (splitter : Option Splitter) (r : Replica) (segs : List String) (id section field : String)
    → IsConsistent splitter r
    → resolve_field_address r segs ≡ field_at id section field
    → ((item : Item) × (body r id ≡ some item))
      × ((rest : List String) × IsTail section field rest
          × ((resolve_split_path r segs ≡ some (id, rest))
              ⊎ ((resolve_split_path r segs ≡ none) × IsFlat r segs id rest)))
unfolding resolve_field_address
resolve_field_address-body splitter r segs id section field c e =
    elim (Option-cases (resolve_split_path r segs)) [
      | inr ((id', rest), found) ↦
          let (same, tail) = left_over-names id' id section field rest (ground (arith, found)) in
          let here : resolve_split_path r segs ≡ some (id, rest) = ground (arith, found, same) in
          (resolve_split_path-body splitter r segs id rest c here, (rest, tail, inl here))
      | inl missing ↦
          let (rest, tail, (seg, split, here)) =
            flat_field-names r segs id section field (ground (arith, missing)) in
          (
            resolve_item_address-body splitter r seg id c here,
            (rest, tail, inr (missing, (seg, split, here))),
          )
    ]

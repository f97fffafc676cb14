-- ===== src/Replica/Resolve.antt =====
-- How an address leads to an item.
use native.Mathlib.Decide.{ℕ_discrete}
use openbao_plugin_secrets_o.Prelude.{
  ℕ, zero, suc, ◌≤◌, ◌<◌, String, Bool, true, Option, none, some, List, [], ◌∷◌, ◌≡◌, refl, ◌∙◌,
  sym, length, take, drop, eq_iff, arith, if◌then◌else◌, Bool-cases, Option-cases, inl, inr,
}
use openbao_plugin_secrets_o.Prelude.Table.{Table, lookup, has}
use openbao_plugin_secrets_o.Prelude.Text.{join}
use openbao_plugin_secrets_o.Onepassword.{ItemOverview, Item}
use openbao_plugin_secrets_o.Config.{Splitter}
use openbao_plugin_secrets_o.Replica.{
  Replica, resolved, of_candidates, resolve_item_address, split_path_loop, resolve_split_path, body,
}
use openbao_plugin_secrets_o.Replica.Index.{ids_where, has_title, has_split_key, sole}
use openbao_plugin_secrets_o.Replica.Consistent.{IsConsistent, IsWhole}

ids_where-has :
    (p : ItemOverview → Bool) (m : Table ItemOverview) (id : String) (ids : List String)
    → ids_where p m ≡ id ∷ ids
    → has id m ≡ true
unfolding ids_where lookup
ids_where-has p [] id ids e = cc
ids_where-has p ((j, ov) ∷ m) id ids e = ground (arith, eq_iff j id, ids_where-has p m id ids)

-- An address is an item's ID or its exact title: an ID in the overview is taken first, and
-- otherwise the outcome is the one item with that title, the list of candidates where several
-- bear it, or that there is none.
pub resolve_item_address_lem :
    (splitter : Option Splitter) (r : Replica) (addr : String)
    → IsConsistent splitter r
    → resolve_item_address r addr ≡ (
        if has addr r.overview
        then resolved addr
        else of_candidates addr (ids_where (has_title addr) r.overview))
unfolding resolve_item_address
resolve_item_address_lem splitter r addr c = rw (← c.1.titled addr) refl

has-body :
    (r : Replica) (id : String)
    → IsWhole r
    → has id r.overview ≡ true
    → (item : Item) × (body r id ≡ some item)
unfolding body
has-body r id w h = elim (Option-cases (lookup id r.bodies)) [
  | inl missing ↦ absurd (ground (arith, w.together id))
  | inr found ↦ found
]

of_candidates-resolved :
    (title id : String) (ids : List String) → of_candidates title ids ≡ resolved id → ids ≡ id ∷ []
of_candidates-resolved title id [] e = ground arith
of_candidates-resolved title id (x ∷ []) e = ground arith
of_candidates-resolved title id (x ∷ y ∷ ids) e = ground arith

-- Whatever ID or title leads to an item, its body is there to be served.
pub resolve_item_address-body :
    (splitter : Option Splitter) (r : Replica) (addr id : String)
    → IsConsistent splitter r
    → resolve_item_address r addr ≡ resolved id
    → (item : Item) × (body r id ≡ some item)
unfolding resolve_item_address
resolve_item_address-body splitter r addr id c e = elim (Bool-cases (has addr r.overview)) [
  | inl here ↦ has-body r id c.0 (ground arith)
  | inr absent ↦ has-body r id c.0 (
      ids_where-has (has_title addr) r.overview id []
        (sym (c.1.titled addr) ∙ of_candidates-resolved addr id _ (ground arith)))
]

sole-some : (ids : List String) (id : String) → sole ids ≡ some id → ids ≡ id ∷ []
sole-some [] id e = cc
sole-some (x ∷ []) id e = ground arith
sole-some (x ∷ y ∷ ids) id e = cc

-- The first segments that a split path may consume.
abbrev pub known_at : Table String → List String → ℕ → Option String
known_at paths segs k = lookup (join (take k segs)) paths

split_path_loop-some :
    (paths : Table String) (segs : List String) (n : ℕ) (id : String) (rest : List String)
    → split_path_loop paths segs n ≡ some (id, rest)
    → (k : ℕ) × (0 < k)
      × (k ≤ n)
      × (known_at paths segs k ≡ some id)
      × (rest ≡ drop k segs)
      × ((j : ℕ) → k < j → j ≤ n → known_at paths segs j ≡ none)
unfolding split_path_loop
split_path_loop-some paths segs zero id rest e = cc
split_path_loop-some paths segs (suc n) id rest e =
    elim (Option-cases (known_at paths segs (suc n))) [
      | inl missing ↦
          let (k, p, below, found, left, longer) =
            split_path_loop-some paths segs n id rest (ground arith) in
          (
            k,
            p,
            omega arith,
            found,
            left,
            λ j lt le. elim (ℕ_discrete j (suc n)) [
              | yes last ↦ rw last missing
              | no inner ↦ longer j lt (omega arith)
            ],
          )
      | inr (id', found) ↦ (
        suc n,
        omega arith,
        omega arith,
        ground arith,
        ground arith,
        λ j lt le. absurd (omega arith),
      )
    ]

split_path_loop-none :
    (paths : Table String) (segs : List String) (n : ℕ)
    → split_path_loop paths segs n ≡ none
    → (j : ℕ) → 0 < j
    → j ≤ n
    → known_at paths segs j ≡ none
unfolding split_path_loop
split_path_loop-none paths segs zero e j p h = absurd (omega arith)
split_path_loop-none paths segs (suc n) e j p h = elim (ℕ_discrete j (suc n)) [
  | yes last ↦ rw last (ground arith)
  | no inner ↦ split_path_loop-none paths segs n (ground arith) j p (omega arith)
]

-- A split path is resolved by its longest known prefix: the item is the only one whose title
-- splits to that prefix and its body is there, what is left are the segments behind it, and no
-- longer prefix is known.
pub resolve_split_path-longest :
    (splitter : Splitter) (r : Replica) (segs : List String) (id : String) (rest : List String)
    → IsConsistent (some splitter) r
    → resolve_split_path r segs ≡ some (id, rest)
    → (k : ℕ) × (0 < k)
      × (k ≤ length segs)
      × (ids_where (has_split_key splitter (join (take k segs))) r.overview ≡ id ∷ [])
      × (rest ≡ drop k segs)
      × ((j : ℕ) → k < j → j ≤ length segs → lookup (join (take j segs)) r.split_paths ≡ none)
      × ((item : Item) × (body r id ≡ some item))
unfolding resolve_split_path
resolve_split_path-longest splitter r segs id rest c e =
    let (k, p, below, found, left, longer) =
      split_path_loop-some r.split_paths segs (length segs) id rest e in
    let only = sole-some _ id (sym (c.1.split (join (take k segs))) ∙ found) in
    (
      k,
      p,
      below,
      only,
      left,
      longer,
      has-body r id c.0
          (ids_where-has (has_split_key splitter (join (take k segs))) r.overview id [] only),
    )

-- A split path is not resolved only if no prefix of it is known.
pub resolve_split_path-none :
    (r : Replica) (segs : List String) (j : ℕ)
    → resolve_split_path r segs ≡ none
    → 0 < j
    → j ≤ length segs
    → lookup (join (take j segs)) r.split_paths ≡ none
unfolding resolve_split_path
resolve_split_path-none r segs j e p h =
    split_path_loop-none r.split_paths segs (length segs) e j p h

-- The item of a split path is there to be served.
pub resolve_split_path-body :
    (splitter : Option Splitter) (r : Replica) (segs : List String) (id : String)
    (rest : List String)
    → IsConsistent splitter r
    → resolve_split_path r segs ≡ some (id, rest)
    → (item : Item) × (body r id ≡ some item)
unfolding resolve_split_path
resolve_split_path-body none r segs id rest c e =
    let (k, _, _, found, _, _) = split_path_loop-some r.split_paths segs (length segs) id rest e in
    absurd (ground (arith, c.1.split (join (take k segs)), found))
resolve_split_path-body (some splitter) r segs id rest c e =
    (resolve_split_path-longest splitter r segs id rest c e).6

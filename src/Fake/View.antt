-- ===== src/Fake/View.antt =====
-- What a vault of the fake client holds, by ID, and how its operations change that.
use openbao_plugin_secrets_o.Prelude.{
  ℕ, ◌+◌, ◌<◌, String, true, false, Option, none, some, List, [], ◌∷◌, ◌++◌, ◌≡◌, refl, ◌∙◌, str_eq,
  eq_iff, arith, if◌then◌else◌, Option-cases, inl, inr,
}
use openbao_plugin_secrets_o.Prelude.Table.{lookup, insert, delete, lookup-insert, lookup-delete}
use openbao_plugin_secrets_o.Onepassword.{ItemOverview, Item, ItemCreateParams, ok, err, SdkError}
use openbao_plugin_secrets_o.Cycle.{is_active}
use openbao_plugin_secrets_o.Cycle.Sync.{lists_active}
use openbao_plugin_secrets_o.Replica.{is_newer}
use openbao_plugin_secrets_o.Fake.{
  FakeOpClient, list_or_empty, overview_of, upsert, store_locked, without, create_item, put_item,
  delete_item,
}

abbrev pub listing : FakeOpClient → String → List ItemOverview
listing f vault_id = list_or_empty (lookup vault_id f.items)

abbrev pub stored : FakeOpClient → String → String → Option Item
stored f vault_id id = lookup id (list_or_empty (lookup vault_id f.item_bodies))

-- An item counts if an overview of it is active.
unfoldable pub view : FakeOpClient → String → String → Option Item
view f vault_id id = if lists_active id (listing f vault_id) then stored f vault_id id else none

lists_active-upsert :
    (ov : ItemOverview) (ovs : List ItemOverview) (id : String)
    → is_active ov.state ≡ true
    → lists_active id (upsert ov ovs) ≡ (if str_eq ov.id id then true else lists_active id ovs)
unfolding upsert
lists_active-upsert ov [] id live = ground arith
lists_active-upsert ov (x ∷ xs) id live =
    ground
      (arith, eq_iff x.id ov.id, eq_iff x.id id, eq_iff ov.id id, lists_active-upsert ov xs id live)

lists_active-without :
    (gone : String) (ovs : List ItemOverview) (id : String)
    → lists_active id (without gone ovs) ≡ (if str_eq gone id then false else lists_active id ovs)
unfolding without
lists_active-without gone [] id = ground arith
lists_active-without gone (x ∷ xs) id =
    ground
      (arith, eq_iff x.id gone, eq_iff x.id id, eq_iff gone id, lists_active-without gone xs id)

-- A stored item is there, and no other item changes; `g` is `f` but for the records of calls.
view-store_locked :
    (item : Item) (f g : FakeOpClient) (vault_id id : String)
    → item.vault_id ≡ vault_id
    → g.items ≡ f.items
    → g.item_bodies ≡ f.item_bodies
    → view (store_locked item g) vault_id id
      ≡ (if str_eq item.id id then some item else view f vault_id id)
unfolding view store_locked
view-store_locked item f g vault_id id here items bodies = ground (
  arith,
  eq_iff item.vault_id vault_id,
  lookup-insert item.vault_id vault_id (upsert (overview_of item) (listing g item.vault_id))
      g.items,
  lookup-insert item.vault_id vault_id
      (insert item.id item (list_or_empty (lookup item.vault_id g.item_bodies))) g.item_bodies,
  lookup-insert item.id id item (list_or_empty (lookup item.vault_id g.item_bodies)),
  lists_active-upsert (overview_of item) (listing g item.vault_id) id,
)

-- A deleted item is not there, and no other item changes.
pub view-delete_item :
    (vault_id gone : String) (f : FakeOpClient) (u : Unit {0}) (id : String)
    → (delete_item vault_id gone f).0 ≡ ok u
    → view (delete_item vault_id gone f).1 vault_id id
      ≡ (if str_eq gone id then none else view f vault_id id)
unfolding view delete_item
view-delete_item vault_id gone f u id h = ground (
  arith,
  eq_iff vault_id vault_id,
  lookup-insert vault_id vault_id (without gone (listing f vault_id)) f.items,
  lookup-insert vault_id vault_id (delete gone (list_or_empty (lookup vault_id f.item_bodies)))
      f.item_bodies,
  lookup-delete gone id (list_or_empty (lookup vault_id f.item_bodies)),
  lists_active-without gone (listing f vault_id) id,
)

pub view-delete_failed :
    (vault_id gone : String) (f : FakeOpClient) (e : SdkError) (id : String)
    → (delete_item vault_id gone f).0 ≡ err e
    → view (delete_item vault_id gone f).1 vault_id id ≡ view f vault_id id
unfolding view delete_item
view-delete_failed vault_id gone f e id h = ground arith

put_item-state :
    (item : Item) (f : FakeOpClient) (out : Item)
    → (put_item item f).0 ≡ ok out
    → (cur : Item) × (stored f item.vault_id item.id ≡ some cur)
      × (cur.version < out.version)
      × (out.id ≡ item.id)
      × (out.vault_id ≡ item.vault_id)
      × ((put_item item f).1 ≡ store_locked out (record f { put_calls = f.put_calls ++ item ∷ [] }))
unfolding put_item
put_item-state item f out h = elim (Option-cases f.put_err) [
  | inr (e, bad) ↦ absurd (ground (arith, bad))
  | inl fine ↦ elim (Option-cases (lookup item.vault_id f.item_bodies)) [
    | inl missing ↦ absurd (ground (arith, fine, missing))
    | inr (bodies, found) ↦ elim (Option-cases (lookup item.id bodies)) [
      | inl missing ↦ absurd (ground (arith, fine, found, missing))
      | inr (cur, held) ↦
          (cur, ground arith, ground arith, ground arith, ground arith, ground arith)
    ]
  ]
]

-- What a successful `PutItem` returns is the item in its place, at a higher version.
pub put_item-stores :
    (item : Item) (f : FakeOpClient) (vault_id : String) (out : Item)
    → item.vault_id ≡ vault_id
    → (put_item item f).0 ≡ ok out
    → (is_newer (view f vault_id out.id) out.version ≡ false)
      × ((id : String)
          → view (put_item item f).1 vault_id id
            ≡ (if str_eq out.id id then some out else view f vault_id id))
put_item-stores item f vault_id out own h =
    let (cur, held, up, same, vault, state) = put_item-state item f out h in
    (
      newest cur held up same,
      λ id. rw state (view-store_locked out f _ vault_id id (vault ∙ own) refl refl),
    )
  where
    newest :
        (cur : Item)
        → stored f item.vault_id item.id ≡ some cur
        → cur.version < out.version
        → out.id ≡ item.id
        → is_newer (view f vault_id out.id) out.version ≡ false
    newest cur held up same = rw (same, ← own) (unfold view in ground (arith, held))

pub put_item-failed :
    (item : Item) (f : FakeOpClient) (e : SdkError) (vault_id id : String)
    → (put_item item f).0 ≡ err e
    → view (put_item item f).1 vault_id id ≡ view f vault_id id
unfolding view put_item
put_item-failed item f e vault_id id h = elim (Option-cases f.put_err) [
  | inr (x, bad) ↦ ground (arith, bad)
  | inl fine ↦ elim (Option-cases (lookup item.vault_id f.item_bodies)) [
    | inl missing ↦ ground (arith, fine, missing)
    | inr (bodies, found) ↦ elim (Option-cases (lookup item.id bodies)) [
      | inl missing ↦ ground (arith, fine, found, missing)
      | inr (cur, held) ↦ absurd (ground arith)
    ]
  ]
]

create_item-state :
    (name : ℕ → String) (params : ItemCreateParams) (f : FakeOpClient) (out : Item)
    → (create_item name params f).0 ≡ ok out
    → (out.id ≡ name (f.next_id + 1))
      × (out.vault_id ≡ params.vault_id)
      × ((create_item name params f).1
          ≡ store_locked out
              (record f { create_calls = f.create_calls ++ params ∷ []; next_id = f.next_id + 1 }))
unfolding create_item
create_item-state name params f out h = elim (Option-cases f.create_err) [
  | inr (e, bad) ↦ absurd (ground (arith, bad))
  | inl fine ↦ (ground arith, ground arith, ground arith)
]

-- What a successful `CreateItem` returns is the item under its new ID.
pub create_item-stores :
    (name : ℕ → String) (params : ItemCreateParams) (f : FakeOpClient) (vault_id : String)
    (out : Item)
    → params.vault_id ≡ vault_id
    → view f vault_id (name (f.next_id + 1)) ≡ none
    → (create_item name params f).0 ≡ ok out
    → (is_newer (view f vault_id out.id) out.version ≡ false)
      × ((id : String)
          → view (create_item name params f).1 vault_id id
            ≡ (if str_eq out.id id then some out else view f vault_id id))
create_item-stores name params f vault_id out own free h =
    let (same, vault, state) = create_item-state name params f out h in
    (
      rw (same, free) refl,
      λ id. rw state (view-store_locked out f _ vault_id id (vault ∙ own) refl refl),
    )

pub create_item-failed :
    (name : ℕ → String) (params : ItemCreateParams) (f : FakeOpClient) (e : SdkError)
    (vault_id id : String)
    → (create_item name params f).0 ≡ err e
    → view (create_item name params f).1 vault_id id ≡ view f vault_id id
unfolding view create_item
create_item-failed name params f e vault_id id h = elim (Option-cases f.create_err) [
  | inr (x, bad) ↦ ground (arith, bad)
  | inl fine ↦ absurd (ground arith)
]

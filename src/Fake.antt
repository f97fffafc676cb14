-- ===== src/Fake.antt =====
-- backend/opclient_fake.go: the scriptable in-memory client. Its state is the record; the field
-- `clock` stands for what `time.Now()` answers. A nil map reads as empty.
pub mod View
pub mod Serves
use openbao_plugin_secrets_o.Prelude.{
  ℕ, ◌+◌, String, false, ◌==◌, Option, none, some, List, [], ◌∷◌, ◌++◌, str_eq, if◌then◌else◌, ltb,
}
use openbao_plugin_secrets_o.Prelude.Time.{second}
use openbao_plugin_secrets_o.Prelude.Table.{Table, lookup, insert, delete}
use openbao_plugin_secrets_o.Prelude.Text.{codes}
use openbao_plugin_secrets_o.Onepassword.{
  VaultOverview, ItemOverview, Item, ItemCreateParams, active, SdkError, Result, ok, err, Fetch,
  fetched, failed, not_found, ItemResult,
}
use openbao_plugin_secrets_o.Client.{OpClient, chunk_ids, max_get_all_ids}

pub record FakeOpClient : Type 0 where
  pub vaults : List VaultOverview
  pub vaults_err : Option SdkError
  pub items : Table (List ItemOverview)
  pub items_err : Table SdkError
  pub item_bodies : Table (Table Item)
  pub get_items_err : Table SdkError
  pub get_items_chunk_size : ℕ
  pub create_err : Option SdkError
  pub put_err : Option SdkError
  pub delete_err : Option SdkError
  pub create_calls : List ItemCreateParams
  pub put_calls : List Item
  pub delete_calls : List (String × String)
  pub next_id : ℕ
  pub list_vaults_calls : ℕ
  pub list_items_calls : ℕ
  pub get_items_calls : ℕ
  pub clock : ℕ

abbrev pub new_fake : FakeOpClient
new_fake = record {
  vaults = [];
  vaults_err = none;
  items = [];
  items_err = [];
  item_bodies = [];
  get_items_err = [];
  get_items_chunk_size = 0;
  create_err = none;
  put_err = none;
  delete_err = none;
  create_calls = [];
  put_calls = [];
  delete_calls = [];
  next_id = 0;
  list_vaults_calls = 0;
  list_items_calls = 0;
  get_items_calls = 0;
  clock = 0;
}

abbrev pub list_or_empty {ℓ} : {A : Type ℓ} → Option (List A) → List A
list_or_empty none = []
list_or_empty (some l) = l

unfoldable pub list_vaults : FakeOpClient → Result (List VaultOverview) × FakeOpClient
list_vaults f =
    let f' = record f { list_vaults_calls = f.list_vaults_calls + 1 } in
    elim f.vaults_err [ some e ↦ (err e, f') | none ↦ (ok f.vaults, f') ]

unfoldable pub list_items : String → FakeOpClient → Result (List ItemOverview) × FakeOpClient
list_items vault_id f =
    let f' = record f { list_items_calls = f.list_items_calls + 1 } in
    elim (lookup vault_id f.items_err) [
      | some e ↦ (err e, f')
      | none ↦ (ok (list_or_empty (lookup vault_id f.items)), f')
    ]

abbrev pub fetch_body : String → Option Item → Fetch
fetch_body id (some item) = fetched item
fetch_body id none = failed (not_found id)

-- The loop over one chunk.
unfoldable pub fetch_chunk : Table Item → List String → List ItemResult
fetch_chunk bodies [] = []
fetch_chunk bodies (id ∷ ids) =
    record { id = id; fetch = fetch_body id (lookup id bodies) } ∷ fetch_chunk bodies ids

-- The loop over the chunks; each counts as a call before it may fail.
unfoldable pub fetch_chunks :
    Option SdkError
    → Table Item
    → List (List String)
    → List ItemResult
    → FakeOpClient
    → Result (List ItemResult) × FakeOpClient
unfolding fetch_chunk
fetch_chunks e bodies [] results f = (ok results, f)
fetch_chunks (some e) bodies (chunk ∷ chunks) results f =
    (err e, record f { get_items_calls = f.get_items_calls + 1 })
fetch_chunks none bodies (chunk ∷ chunks) results f =
    fetch_chunks none bodies chunks (results ++ fetch_chunk bodies chunk)
      (record f { get_items_calls = f.get_items_calls + 1 })

abbrev pub chunk_size : FakeOpClient → ℕ
chunk_size f = if f.get_items_chunk_size == 0 then max_get_all_ids else f.get_items_chunk_size

unfoldable pub get_items :
    String → List String → FakeOpClient → Result (List ItemResult) × FakeOpClient
unfolding fetch_chunks
get_items vault_id ids f =
    fetch_chunks (lookup vault_id f.get_items_err) (list_or_empty (lookup vault_id f.item_bodies))
      (chunk_ids ids (chunk_size f)) [] f

abbrev pub overview_of : Item → ItemOverview
overview_of item = record {
  id = item.id;
  title = item.title;
  category = item.category;
  vault_id = item.vault_id;
  websites = item.websites;
  tags = item.tags;
  created_at = item.created_at;
  updated_at = item.updated_at;
  state = active;
}

-- The loop that replaces the overview of the same ID, or appends one.
unfoldable pub upsert : ItemOverview → List ItemOverview → List ItemOverview
upsert ov [] = ov ∷ []
upsert ov (x ∷ xs) = let rest = upsert ov xs in if str_eq x.id ov.id then ov ∷ xs else x ∷ rest

unfoldable pub store_locked : Item → FakeOpClient → FakeOpClient
unfolding upsert
store_locked item f = record f {
  item_bodies =
      insert item.vault_id
        (insert item.id item (list_or_empty (lookup item.vault_id f.item_bodies))) f.item_bodies;
  items =
      insert item.vault_id
        (upsert (overview_of item) (list_or_empty (lookup item.vault_id f.items))) f.items;
}

abbrev text_or_empty : Option String → String
text_or_empty none = ""
text_or_empty (some s) = s

-- The new ID is made by `name`, which stands for `fmt.Sprintf("new%d", n)`.
unfoldable pub create_item :
    (ℕ → String) → ItemCreateParams → FakeOpClient → Result Item × FakeOpClient
unfolding store_locked
create_item name params f =
    let f' = record f { create_calls = f.create_calls ++ params ∷ [] } in
    elim f.create_err [
      | some e ↦ (err e, f')
      | none ↦
          let n = f.next_id + 1 in
          let item : Item = record {
            id = name n;
            title = params.title;
            category = params.category;
            vault_id = params.vault_id;
            fields = params.fields;
            sections = params.sections;
            notes = text_or_empty params.notes;
            tags = params.tags;
            websites = params.websites;
            version = 1;
            created_at = f.clock;
            updated_at = f.clock;
          } in
          (ok item, store_locked item (record f' { next_id = n }))
    ]

-- `fmt.Errorf("1password: item %q not found", id)`, for an ID with no character that %q escapes.
abbrev absent : String → SdkError
absent id = record {
  rate_limited = false;
  message = codes "1password: item " ++ b'"' ∷ (codes id ++ b'"' ∷ codes " not found");
}

abbrev body_of : Option (Table Item) → String → Option Item
body_of none id = none
body_of (some bodies) id = lookup id bodies

unfoldable pub put_item : Item → FakeOpClient → Result Item × FakeOpClient
unfolding store_locked
put_item item f =
    let f' = record f { put_calls = f.put_calls ++ item ∷ [] } in
    elim f.put_err [
      | some e ↦ (err e, f')
      | none ↦ elim (body_of (lookup item.vault_id f.item_bodies) item.id) [
        | none ↦ (err (absent item.id), f')
        | some cur ↦
            let item' = record item {
              version = cur.version + 1;
              updated_at = if ltb cur.updated_at f.clock then f.clock else cur.updated_at + second;
            } in
            (ok item', store_locked item' f')
      ]
    ]

-- The loop that keeps the other overviews.
unfoldable pub without : String → List ItemOverview → List ItemOverview
without id [] = []
without id (x ∷ xs) = let rest = without id xs in if str_eq x.id id then rest else x ∷ rest

unfoldable pub delete_item : String → String → FakeOpClient → Result (Unit {0}) × FakeOpClient
unfolding without
delete_item vault_id item_id f =
    let f' = record f { delete_calls = f.delete_calls ++ (vault_id, item_id) ∷ [] } in
    elim f.delete_err [
      | some e ↦ (err e, f')
      | none ↦ elim (body_of (lookup vault_id f.item_bodies) item_id) [
        | none ↦ (err (absent item_id), f')
        | some cur ↦ (
          ok tt,
          record f' {
            item_bodies =
                insert vault_id (delete item_id (list_or_empty (lookup vault_id f.item_bodies)))
                  f.item_bodies;
            items =
                insert vault_id (without item_id (list_or_empty (lookup vault_id f.items))) f.items;
          },
        )
      ]
    ]

unfoldable pub fake_client : (ℕ → String) → OpClient FakeOpClient
unfolding list_vaults list_items get_items create_item put_item delete_item
fake_client name = record {
  list_vaults = list_vaults;
  list_items = list_items;
  get_items = get_items;
  create_item = create_item name;
  put_item = put_item;
  delete_item = delete_item;
}

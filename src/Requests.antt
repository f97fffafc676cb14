-- ===== src/Requests.antt =====
-- backend/paths_item.go pathItemRead, backend/paths_field.go pathFieldRead,
-- backend/paths_refresh.go, backend/writes.go pathItemExistence, backend/backend.go readMetaFor.
-- `served` and `marked` are the two readings of the clock behind the freshness check.
pub mod Served
pub mod Tests
use openbao_plugin_secrets_o.Prelude.{
  ℕ, String, Bool, true, false, not, ◌&&◌, ◌||◌, Option, none, some, List, [], ◌∷◌, any, str_eq,
  if◌then◌else◌,
}
use openbao_plugin_secrets_o.Prelude.Int.{ℤ}
use openbao_plugin_secrets_o.Prelude.Time.{time_sub}
use openbao_plugin_secrets_o.Prelude.Table.{Table, lookup, keys}
use openbao_plugin_secrets_o.Prelude.Text.{split, cut}
use openbao_plugin_secrets_o.Prelude.Sort.{sort_strings}
use openbao_plugin_secrets_o.Onepassword.{VaultOverview, ItemField, ItemSection, Item}
use openbao_plugin_secrets_o.Config.{Config}
use openbao_plugin_secrets_o.Governor.{manual, is_vault_failing}
use openbao_plugin_secrets_o.Replica.{
  AddressError, not_found, ambiguous_title, Address, resolved, unresolved, Replica, body,
  overview_updated_at, resolve_item_address,
}
use openbao_plugin_secrets_o.Address.{
  FieldAddress, with_field, resolve_item_from_segments, resolve_field_address, lookup_field,
}
use openbao_plugin_secrets_o.Engine.{
  Engine, Clock, EngineError, address, Factory, Outcome, got, refused, Found, found, absent, failed,
  resolve_vault_address, replica_of, open_replica, VaultCycleError, vault_cycle, title_of_vault,
}
use openbao_plugin_secrets_o.Engine.Freshness.{ensure_item_fresh, check_serve_stale_allowed}

-- `readMeta`; the age is kept in nanoseconds.
pub record ReadMeta : Type 0 where
  pub replica_age : ℤ
  pub item_updated_at : ℕ
  pub stale : Bool
  pub stale_suspect : Bool

-- The response to a read of an item: what it shows of the item, and the freshness.
pub record ItemData : Type 0 where
  pub id : String
  pub title : String
  pub category : String
  pub vault_id : String
  pub fields : List ItemField
  pub sections : List ItemSection
  pub notes : String
  pub tags : List String
  pub version : ℕ
  pub created_at : ℕ
  pub updated_at : ℕ

unfoldable pub item_response_data : Item → ItemData
item_response_data item = record {
  id = item.id;
  title = item.title;
  category = item.category;
  vault_id = item.vault_id;
  fields = item.fields;
  sections = item.sections;
  notes = item.notes;
  tags = item.tags;
  version = item.version;
  created_at = item.created_at;
  updated_at = item.updated_at;
}

-- `addReadMeta` on it: the time of the overview takes the place of the item's own.
unfoldable pub add_read_meta : ItemData → ReadMeta → ItemData
add_read_meta shown meta = record shown { updated_at = meta.item_updated_at }

pub data ReadResponse : Type 0 where
  item_served : ItemData → ReadMeta → ReadResponse
  field_served : ItemField → ReadMeta → ReadResponse
  read_refused : EngineError → ReadResponse

pub data RefreshError : Type 0 where
  no_vault : EngineError → RefreshError
  cycle_failed : VaultCycleError → RefreshError

abbrev pub refresh_failure : Option VaultCycleError → Option RefreshError
refresh_failure none = none
refresh_failure (some x) = some (cycle_failed x)

pub record ReadClock : Type 0 where
  pub clock : Clock
  pub served : ℕ
  pub marked : ℕ

-- `checkServeStaleAllowed`, where there is a configuration.
abbrev pub stale_check : Option Config → Replica → ℕ → Option EngineError
stale_check none r now = none
stale_check (some cfg) r now = check_serve_stale_allowed cfg r now

-- The same segments in the two handlers: those of an item, and those of a field.
abbrev pub item_address : String → Replica → FieldAddress
item_address addr r = with_field (resolve_item_from_segments r (split addr)) "" ""

abbrev pub field_address : String → Replica → FieldAddress
field_address rest r = resolve_field_address r (split rest)

abbrev pub refused_not_found : ReadResponse
refused_not_found = read_refused (address not_found)

module _ {W : Type 0} (factory : Factory W) where
  unfoldable pub read_meta_for : Engine W → String → String → ℕ → ReadMeta
  read_meta_for e vault_id id now =
      let r = replica_of e vault_id in
      record {
        replica_age = time_sub now r.last_cycle;
        item_updated_at = overview_updated_at r id;
        stale = is_vault_failing e.gate now vault_id;
        stale_suspect = r.stale_suspect;
      }

  -- Behind the freshness check, down to the body; `respond` makes the response of it.
  unfoldable pub serve :
      ReadClock
      → String
      → (Item → String → String → ReadMeta → ReadResponse)
      → Engine W × Found
      → Engine W × ReadResponse
  unfolding read_meta_for
  serve at vault_id respond (e, failed x) = (e, read_refused x)
  serve at vault_id respond (e, absent) = (e, refused_not_found)
  serve at vault_id respond (e, found id section label) =
      elim (stale_check e.config (replica_of e vault_id) at.served) [
        | some x ↦ (e, read_refused x)
        | none ↦ elim (body (replica_of e vault_id) id) [
          | none ↦ (e, refused_not_found)
          | some item ↦ (e, respond item section label (read_meta_for e vault_id id at.marked))
        ]
      ]

  abbrev pub respond_item : Item → String → String → ReadMeta → ReadResponse
  respond_item item section label meta =
      item_served (add_read_meta (item_response_data item) meta) meta

  abbrev pub respond_field : Item → String → String → ReadMeta → ReadResponse
  respond_field item section label meta = elim (lookup_field item section label) [
    | none ↦ refused_not_found
    | some f ↦ field_served f meta
  ]

  unfoldable pub path_item_read : ReadClock → String → String → Engine W → Engine W × ReadResponse
  unfolding serve
  path_item_read at vault_addr item_addr e = elim (resolve_vault_address e vault_addr) [
    | refused x ↦ (e, read_refused x)
    | got vault_id ↦ serve at vault_id respond_item (
        ensure_item_fresh factory at.clock vault_id item_addr (item_address item_addr)
          (open_replica e vault_id))
  ]

  unfoldable pub path_field_read : ReadClock → String → String → Engine W → Engine W × ReadResponse
  unfolding serve
  path_field_read at vault_addr rest e = elim (resolve_vault_address e vault_addr) [
    | refused x ↦ (e, read_refused x)
    | got vault_id ↦ serve at vault_id respond_field (
        ensure_item_fresh factory at.clock vault_id rest (field_address rest)
          (open_replica e vault_id))
  ]

  -- `pathItemExistence`: an ambiguous title exists.
  abbrev pub exists_at : Address → Bool
  exists_at (resolved id) = true
  exists_at (unresolved (ambiguous_title title ids)) = true
  exists_at (unresolved not_found) = false

  unfoldable pub path_item_existence : String → String → Engine W → Engine W × Bool
  path_item_existence vault_addr item_addr e = elim (resolve_vault_address e vault_addr) [
    | refused x ↦ (e, false)
    | got vault_id ↦
        let opened = open_replica e vault_id in
        (
          opened,
          exists_at (resolve_item_from_segments (replica_of opened vault_id) (split item_addr)),
        )
  ]

  -- `pathRefreshAllWrite`: a result for each vault, none where its cycle succeeded.
  unfoldable pub refresh_all :
      (String → Clock) → List String → Engine W → Engine W × Table (Option VaultCycleError)
  refresh_all at [] e = (e, [])
  refresh_all at (id ∷ ids) e =
      let (e', failure) = vault_cycle factory (at id) id manual e in
      let (e'', results) = refresh_all at ids e' in (e'', (id, failure) ∷ results)

  unfoldable pub path_refresh_all :
      (String → Clock) → Engine W → Engine W × Table (Option VaultCycleError)
  unfolding refresh_all
  path_refresh_all at e = refresh_all at (sort_strings (keys e.allowlist)) e

  unfoldable pub path_refresh_vault : Clock → String → Engine W → Engine W × Option RefreshError
  path_refresh_vault at vault_addr e = elim (resolve_vault_address e vault_addr) [
    | refused x ↦ (e, some (no_vault x))
    | got vault_id ↦
        let (e', failure) = vault_cycle factory at vault_id manual e in
        (e', refresh_failure failure)
  ]

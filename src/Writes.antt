-- ===== src/Writes.antt =====
-- backend/writes.go: what the handlers that change an item have in common, from beginWrite to the
-- item's way into the replica. The handlers stand in Writes/Handlers.
pub mod Handlers
pub mod Guard
pub mod Deletes
pub mod Spend
pub mod Mirror
pub mod Starts
pub mod Whole
pub mod Tests
mod Examples
use openbao_plugin_secrets_o.Prelude.{
  ℕ, ◌+◌, String, Bool, true, false, not, ◌&&◌, ◌||◌, ◌==◌, Option, none, some, List, [], ◌∷◌, any,
  length, leb, str_eq, if◌then◌else◌,
}
use openbao_plugin_secrets_o.Prelude.Table.{Table, lookup, has}
use openbao_plugin_secrets_o.Prelude.Text.{codes, split}
use openbao_plugin_secrets_o.Onepassword.{
  Website, Item, ItemCreateParams, SdkError, Result, ok, err, Fetch, ItemResult,
}
use openbao_plugin_secrets_o.Onepassword
use openbao_plugin_secrets_o.Client.{OpClient}
use openbao_plugin_secrets_o.Config.{Config, Splitter}
use openbao_plugin_secrets_o.Classify.{ErrClass, classify_error}
use openbao_plugin_secrets_o.Governor.{
  Governor, GovState, auth_failed, manual, allow, record_request,
}
use openbao_plugin_secrets_o.Replica.{
  AddressError, not_found, ambiguous_title, Address, resolved, unresolved, Replica, apply_write,
  apply_delete,
}
use openbao_plugin_secrets_o.Address.{
  FieldAddress, field_at, no_field, with_field, resolve_item_from_segments, resolve_field_address,
}
use openbao_plugin_secrets_o.Fields.{
  norm_name, by_name, FieldWrite, FieldTypes, Applied, applied, unknown_field_type, apply_fields,
  set_website,
}
use openbao_plugin_secrets_o.Fields.Body.{BodyError}
use openbao_plugin_secrets_o.Engine.{
  Engine, Clock, EngineError, client_unavailable, no_client, address, replica_empty, Factory,
  Outcome, got, refused, Found, found, absent, failed, title_of_vault, resolve_vault_address,
  replica_of, put_replica, open_replica, ensure_client,
}
use openbao_plugin_secrets_o.Engine.Freshness.{ensure_item_fresh, is_ambiguous}
use openbao_plugin_secrets_o.Governor.Status.{snapshot}

-- What a write answers.
pub data Response : Type 0 where
  written : Item → Bool → Response
  deleted : Response
  engine_error : EngineError → Response
  not_writable : String → Response
  write_auth_failed : Response
  deferred : GovState → Response
  rate_limit_exceeded : Response
  sdk_failed : List ℕ → Response
  vanished : String → Response
  bad_body : BodyError → Response
  bad_field_type : String → String → Response
  id_never_creates : String → Response
  multi_segment : Response
  value_required : Response
  unknown_category : String → Response
  item_not_found : Response
  empty_response : Response

-- The SDK's names: field types, categories with the default one, and the autofill behaviour.
pub record Names : Type 0 where
  pub types : FieldTypes
  pub categories : List String
  pub login : String
  pub anywhere : String

-- The body of a write of an item; a category of "" is none.
pub record ItemWrite : Type 0 where
  pub category : String
  pub writes : List FieldWrite
  pub notes : Option String
  pub tags : Option (List String)
  pub url : String

-- `itemIDShape`, `^[a-z0-9]{26}$`
abbrev pub is_id_char : ℕ → Bool
is_id_char c = leb b'a' c && leb c b'z' || leb b'0' c && leb c b'9'

pub is_id_shape : String → Bool
is_id_shape s = length (codes s) == 26 && not (any (λ c. not (is_id_char c)) (codes s))

abbrev pub or_else {ℓ} : {A : Type ℓ} → Option A → A → A
or_else none a = a
or_else (some b) a = b

abbrev pub websites_with : String → String → List Website → List Website
websites_with anywhere url ws = if str_eq url "" then ws else set_website anywhere url ws

-- The settings of the body that are no fields, over the fetched item.
abbrev pub with_settings : Names → ItemWrite → Item → Item
with_settings names body item = record item {
  notes = or_else body.notes item.notes;
  tags = or_else body.tags item.tags;
  websites = websites_with names.anywhere body.url item.websites;
}

abbrev pub new_item : String → String → String → Item
new_item title category vault_id = record {
  id = "";
  title = title;
  category = category;
  vault_id = vault_id;
  fields = [];
  sections = [];
  notes = "";
  tags = [];
  websites = [];
  version = 0;
  created_at = 0;
  updated_at = 0;
}

abbrev pub create_params : Names → ItemWrite → Item → ItemCreateParams
create_params names body item = record {
  category = item.category;
  vault_id = item.vault_id;
  title = item.title;
  fields = item.fields;
  sections = item.sections;
  notes = body.notes;
  tags = or_else body.tags [];
  websites = websites_with names.anywhere body.url [];
}

-- `isWriteVault`
abbrev pub writable : List String → String → String → Bool
writable ws vault_id title =
    any (λ w. str_eq w vault_id || (not (str_eq title "") && str_eq w title)) ws

-- What the reads of the clock give a write, one for each call that it may record.
pub record WriteClock : Type 0 where
  pub allowed : ℕ
  pub fetched : ℕ
  pub written : ℕ
  pub clock : Clock

pub data Begun (W : Type 0) : Type 0 where
  begun : String → OpClient W → Begun W
  stopped : Response → Begun W

-- The item that an update starts from, or why there is none.
pub data FreshItem : Type 0 where
  fresh : Item → FreshItem
  no_item : Response → FreshItem

module _ {W : Type 0} (factory : Factory W) where
  pub is_write_vault : Engine W → String → Bool
  is_write_vault e vault_id = elim e.config [
    | none ↦ false
    | some cfg ↦ writable cfg.write_vaults vault_id (title_of_vault e.directory vault_id)
  ]

  abbrev pub refuse_write : GovState → Response
  refuse_write auth_failed = write_auth_failed
  refuse_write s = deferred s

  -- The part behind the governor's consent.
  unfoldable pub begin_client : WriteClock → String → Engine W → Engine W × Begun W
  begin_client at vault_id e =
      let (e', client) = ensure_client factory at.clock e in
      elim client [
        | refused x ↦ (e', stopped (engine_error x))
        | got c ↦ (open_replica e' vault_id, begun vault_id c)
      ]

  -- `snapshot` prunes the events once more.
  abbrev pub ask_governor : WriteClock → String → Engine W → Engine W × Begun W
  ask_governor at vault_id e =
      let (g, ok_to_go) = allow e.gate at.allowed vault_id manual in
      let (g', snap) = snapshot g at.allowed in
      if ok_to_go
      then begin_client at vault_id (record e { gate = g })
      else (record e { gate = g' }, stopped (refuse_write snap.state))

  unfoldable pub begin_write : WriteClock → String → Engine W → Engine W × Begun W
  unfolding is_write_vault begin_client
  begin_write at vault_addr e = elim e.config [
    | none ↦ (e, stopped (engine_error no_client))
    | some cfg ↦ elim (resolve_vault_address e vault_addr) [
      | refused x ↦ (e, stopped (engine_error x))
      | got vault_id ↦
          if not (is_write_vault e vault_id)
          then (e, stopped (not_writable vault_addr))
          else ask_governor at vault_id e
    ]
  ]

  -- `sdkErrNoRecord`
  abbrev pub failed_call : SdkError → Response
  failed_call x = elim (classify_error x) [
    | ErrClass.rate_limited ↦ rate_limit_exceeded
    | _ ↦ sdk_failed x.message
  ]

  abbrev pub spend : ℕ → String → Option SdkError → Engine W → Engine W
  spend now vault_id x e = record e { gate = record_request e.gate now vault_id 1 x }

  -- An empty replica that has completed a cycle reads as an absent item.
  abbrev pub empty_is_absent : String → Engine W × Found → Engine W × Found
  empty_is_absent vault_id (e, failed replica_empty) =
      if (replica_of e vault_id).last_cycle == 0 then (e, failed replica_empty) else (e, absent)
  empty_is_absent vault_id (e, outcome) = (e, outcome)

  unfoldable pub locate_item :
      WriteClock → String → String → (Replica → FieldAddress) → Engine W → Engine W × Found
  locate_item at vault_id key resolve e = elim (resolve (replica_of e vault_id)) [
    | field_at id section field ↦ (e, found id section field)
    | no_field (ambiguous_title title ids) ↦ (e, failed (address (ambiguous_title title ids)))
    | no_field not_found ↦
        empty_is_absent vault_id (ensure_item_fresh factory at.clock vault_id key resolve e)
  ]

  -- The one result that a fetch of one ID has.
  abbrev pub sole_result : String → List ItemResult → FreshItem
  sole_result id (r ∷ []) = elim r.fetch [
    | Onepassword.fetched item ↦ fresh item
    | Onepassword.failed x ↦ no_item (vanished id)
  ]
  sole_result id _ = no_item (vanished id)

  unfoldable pub fetch_fresh :
      WriteClock → OpClient W → String → String → Engine W → Engine W × FreshItem
  fetch_fresh at client vault_id id e =
      let (results, w) = client.get_items vault_id (id ∷ []) e.remote in
      elim results [
        | err x ↦
            (spend at.fetched vault_id (some x) (record e { remote = w }), no_item (failed_call x))
        | ok rs ↦ (spend at.fetched vault_id none (record e { remote = w }), sole_result id rs)
      ]

  -- What a Put or a Create comes to: the returned item goes into the replica.
  unfoldable pub finish_write :
      WriteClock → String → Bool → Result Item × W → Engine W → Engine W × Response
  finish_write at vault_id warned (result, w) e = elim result [
    | err x ↦ (spend at.written vault_id (some x) (record e { remote = w }), failed_call x)
    | ok out ↦
        let e' = spend at.written vault_id none (record e { remote = w }) in
        (
          put_replica e' vault_id (apply_write (replica_of e' vault_id) out e'.splitter),
          written out warned,
        )
  ]

  unfoldable pub finish_delete :
      WriteClock → String → String → Result (Unit {0}) × W → Engine W → Engine W × Response
  finish_delete at vault_id id (result, w) e = elim result [
    | err x ↦ (spend at.written vault_id (some x) (record e { remote = w }), failed_call x)
    | ok u ↦
        let e' = spend at.written vault_id none (record e { remote = w }) in
        (put_replica e' vault_id (apply_delete (replica_of e' vault_id) id e'.splitter), deleted)
  ]

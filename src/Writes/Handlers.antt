-- ===== src/Writes/Handlers.antt =====
-- backend/writes.go: pathItemDelete, pathItemWrite and pathFieldWrite. The SDK's names, the draws
-- of `newID` and the number of the next draw are parameters of a write.
use openbao_plugin_secrets_o.Prelude.{
  ℕ, String, Bool, true, false, not, ◌&&◌, ◌==◌, Option, none, some, List, [], ◌∷◌, length, str_eq,
  if◌then◌else◌,
}
use openbao_plugin_secrets_o.Prelude.Text.{split}
use openbao_plugin_secrets_o.Onepassword.{Item}
use openbao_plugin_secrets_o.Client.{OpClient}
use openbao_plugin_secrets_o.Replica.{Replica}
use openbao_plugin_secrets_o.Address.{
  FieldAddress, with_field, resolve_item_from_segments, resolve_field_address,
}
use openbao_plugin_secrets_o.Fields.{
  norm_name, by_name, Applied, applied, unknown_field_type, apply_fields,
}
use openbao_plugin_secrets_o.Fields.Body.{Members, done, bad, parse_field_writes}
use openbao_plugin_secrets_o.Engine.{Engine, Factory, Found, found, absent, failed}
use openbao_plugin_secrets_o.Writes.{
  Response, Names, ItemWrite, is_id_shape, with_settings, new_item, create_params, WriteClock,
  FreshItem, begin_write, locate_item, fetch_fresh, finish_write, finish_delete, deleted,
  engine_error, bad_body, bad_field_type, id_never_creates, multi_segment, value_required,
  unknown_category, item_not_found, empty_response, begun, stopped, fresh, no_item,
}

module _ {W : Type 0} (factory : Factory W) where
  abbrev pub by_segments : List String → Replica → FieldAddress
  by_segments segs r = with_field (resolve_item_from_segments r segs) "" ""

  -- `pathItemDelete` behind `beginWrite`.
  unfoldable pub delete_located :
      WriteClock → String → OpClient W → Engine W × Found → Engine W × Response
  unfolding finish_delete
  delete_located at vault_id client (e, failed x) = (e, engine_error x)
  delete_located at vault_id client (e, absent) = (e, deleted)
  delete_located at vault_id client (e, found id section field) =
      finish_delete factory at vault_id id (client.delete_item vault_id id e.remote) e

  unfoldable pub path_item_delete : WriteClock → String → String → Engine W → Engine W × Response
  unfolding begin_write locate_item delete_located
  path_item_delete at vault_addr item_addr e =
      let (e', start) = begin_write factory at vault_addr e in
      elim start [
        | stopped response ↦ (e', response)
        | begun vault_id client ↦
            delete_located at vault_id client
              (locate_item factory at vault_id item_addr (by_segments (split item_addr)) e')
      ]

  module _ (names : Names) (fresh_id : ℕ → String) (n : ℕ) where
    -- The fetched item with the fields merged, put back.
    abbrev pub put_applied :
        WriteClock
        → String
        → OpClient W
        → ItemWrite
        → Bool
        → Applied
        → Engine W
        → Engine W × Response
    put_applied at vault_id client body warned (unknown_field_type typ label) e =
        (e, bad_field_type typ label)
    put_applied at vault_id client body warned (applied merged m) e =
        finish_write factory at vault_id warned
          (client.put_item (with_settings names body merged) e.remote) e

    unfoldable pub put_merged :
        WriteClock → String → OpClient W → ItemWrite → Bool → Item → Engine W → Engine W × Response
    unfolding finish_write
    put_merged at vault_id client body warned cur e =
        if str_eq cur.id ""
        then (e, empty_response)
        else put_applied at vault_id client body warned
            (apply_fields names.types fresh_id false body.writes cur n) e

    abbrev pub ignores_category : String → Item → Bool
    ignores_category category cur = not (str_eq category "") && not (str_eq category cur.category)

    abbrev pub put_fetched :
        WriteClock → String → OpClient W → ItemWrite → Engine W × FreshItem → Engine W × Response
    put_fetched at vault_id client body (e, no_item response) = (e, response)
    put_fetched at vault_id client body (e, fresh cur) =
        put_merged at vault_id client body (ignores_category body.category cur) cur e

    abbrev pub create_applied :
        WriteClock → String → OpClient W → ItemWrite → Applied → Engine W → Engine W × Response
    create_applied at vault_id client body (unknown_field_type typ label) e =
        (e, bad_field_type typ label)
    create_applied at vault_id client body (applied item m) e =
        finish_write factory at vault_id false
          (client.create_item (create_params names body item) e.remote) e

    unfoldable pub create_new :
        WriteClock → String → OpClient W → String → ItemWrite → Engine W → Engine W × Response
    unfolding finish_write
    create_new at vault_id client title body e =
        let category = if str_eq body.category "" then names.login else body.category in
        create_applied at vault_id client body
          (apply_fields names.types fresh_id true body.writes (new_item title category vault_id) n)
          e

    -- `pathItemWrite` behind `locateItem`; the category is the SDK's name by now.
    unfoldable pub write_located :
        WriteClock
        → String
        → OpClient W
        → String
        → ItemWrite
        → Engine W × Found
        → Engine W × Response
    unfolding put_merged create_new fetch_fresh is_id_shape
    write_located at vault_id client item_addr body (e, failed x) = (e, engine_error x)
    write_located at vault_id client item_addr body (e, found id section field) =
        put_fetched at vault_id client body (fetch_fresh factory at client vault_id id e)
    write_located at vault_id client item_addr body (e, absent) =
        if is_id_shape item_addr
        then (e, id_never_creates item_addr)
        else (if not (length (split item_addr) == 1)
            then (e, multi_segment)
            else create_new at vault_id client item_addr body e)

    abbrev pub category_of : String → Option String
    category_of category =
        if str_eq category "" then some "" else by_name names.categories (norm_name category)

    -- `pathItemWrite` behind `parseFieldWrites`.
    unfoldable pub write_parsed :
        WriteClock → String → String → ItemWrite → Engine W → Engine W × Response
    unfolding begin_write locate_item write_located
    write_parsed at vault_addr item_addr body e = elim (category_of body.category) [
      | none ↦ (e, unknown_category body.category)
      | some category ↦
          let (e', start) = begin_write factory at vault_addr e in
          elim start [
            | stopped response ↦ (e', response)
            | begun vault_id client ↦
                write_located at vault_id client item_addr (record body { category = category })
                  (locate_item factory at vault_id item_addr (by_segments (split item_addr)) e')
          ]
    ]

    -- `raw` is the body; `settings` has what the request gives besides the fields.
    unfoldable pub path_item_write :
        WriteClock → String → String → Members → ItemWrite → Engine W → Engine W × Response
    unfolding write_parsed parse_field_writes
    path_item_write at vault_addr item_addr raw settings e = elim (parse_field_writes raw) [
      | bad x ↦ (e, bad_body x)
      | done ws ↦ write_parsed at vault_addr item_addr (record settings { writes = ws }) e
    ]

    -- The body of a field write: one field, nothing else.
    abbrev pub one_field : String → String → String → String → ItemWrite
    one_field section label value typ = record {
      category = "";
      writes = record { section = section; label = label; value = value; typ = typ } ∷ [];
      notes = none;
      tags = none;
      url = "";
    }

    unfoldable pub field_located :
        WriteClock → String → OpClient W → String → String → Engine W × Found → Engine W × Response
    unfolding put_merged fetch_fresh
    field_located at vault_id client value typ (e, failed x) = (e, engine_error x)
    field_located at vault_id client value typ (e, absent) = (e, item_not_found)
    field_located at vault_id client value typ (e, found id section label) =
        put_fetched at vault_id client (one_field section label value typ)
          (fetch_fresh factory at client vault_id id e)

    -- `value` is what the request gives, if it gives any.
    unfoldable pub path_field_write :
        WriteClock → String → String → Option String → String → Engine W → Engine W × Response
    unfolding begin_write locate_item field_located
    path_field_write at vault_addr rest none typ e = (e, value_required)
    path_field_write at vault_addr rest (some value) typ e =
        let (e', start) = begin_write factory at vault_addr e in
        elim start [
          | stopped response ↦ (e', response)
          | begun vault_id client ↦
              field_located at vault_id client value typ (
                locate_item factory at vault_id rest (λ r. resolve_field_address r (split rest)) e')
        ]

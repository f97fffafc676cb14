-- ===== src/System/Puts.antt =====
-- The handlers that create or update an item, and a property of every replica.
use openbao_plugin_secrets_o.Prelude.{
  ℕ, String, Bool, false, Option, none, some, ◌==◌, length, str_eq, inl, inr, Bool-cases,
  Option-cases,
}
use openbao_plugin_secrets_o.Prelude.Text.{split}
use openbao_plugin_secrets_o.Client.{OpClient}
use openbao_plugin_secrets_o.Replica.{Replica}
use openbao_plugin_secrets_o.Address.{resolve_field_address}
use openbao_plugin_secrets_o.Engine.{Engine, Factory, Found, found, absent, failed}
use openbao_plugin_secrets_o.Fields.{Applied, applied, unknown_field_type}
use openbao_plugin_secrets_o.Fields.Body.{Members, parse_field_writes}
use openbao_plugin_secrets_o.Writes.{
  Names, ItemWrite, WriteClock, FreshItem, fresh, no_item, begin_write, fetch_fresh, is_id_shape,
}
use openbao_plugin_secrets_o.Writes.Handlers.{
  by_segments, put_applied, put_merged, put_fetched, create_applied, create_new, write_located,
  category_of, write_parsed, path_item_write, one_field, field_located, path_field_write,
}
use openbao_plugin_secrets_o.Fields.Body.Tables.{Parsed-cases}
use openbao_plugin_secrets_o.Writes.Whole.{Begun-cases}
use openbao_plugin_secrets_o.System.Writes.{
  begin_write-good, locate_item-good, fetch_fresh-good, finish_write-good,
}
use openbao_plugin_secrets_o.System.Closed.{IsClosed, AllGood}

module _ (Good : String → Replica → Type 0) (closed : IsClosed Good) {W : Type 0}
    (factory : Factory W) where
  module _ (names : Names) (fresh_id : ℕ → String) (n : ℕ) where
    put_applied-good :
        (at : WriteClock) (vault_id : String) (client : OpClient W) (body : ItemWrite)
        (warned : Bool) (result : Applied) (e : Engine W)
        → AllGood Good e
        → AllGood Good
            (put_applied factory names fresh_id n at vault_id client body warned result e).0
    put_applied-good at vault_id client body warned (unknown_field_type typ label) e all = all
    put_applied-good at vault_id client body warned (applied merged m) e all =
        finish_write-good Good closed factory at vault_id warned _ _ e all

    put_fetched-good :
        (at : WriteClock) (vault_id : String) (client : OpClient W) (body : ItemWrite)
        (e : Engine W) (item : FreshItem)
        → AllGood Good e
        → AllGood Good (put_fetched factory names fresh_id n at vault_id client body (e, item)).0
    unfolding put_merged
    put_fetched-good at vault_id client body e (no_item response) all = all
    put_fetched-good at vault_id client body e (fresh cur) all =
        elim (Bool-cases (str_eq cur.id "")) [
          | inl bare ↦ rw (put_merged, bare) all
          | inr named ↦ rw (put_merged, named) (put_applied-good at vault_id client body _ _ e all)
        ]

    create_applied-good :
        (at : WriteClock) (vault_id : String) (client : OpClient W) (body : ItemWrite)
        (result : Applied) (e : Engine W)
        → AllGood Good e
        → AllGood Good (create_applied factory names fresh_id n at vault_id client body result e).0
    create_applied-good at vault_id client body (unknown_field_type typ label) e all = all
    create_applied-good at vault_id client body (applied item m) e all =
        finish_write-good Good closed factory at vault_id false _ _ e all

    write_located-good :
        (at : WriteClock) (vault_id : String) (client : OpClient W) (item_addr : String)
        (body : ItemWrite) (e : Engine W) (outcome : Found)
        → AllGood Good e
        → AllGood Good
            (write_located factory names fresh_id n at vault_id client item_addr body
              (e, outcome)).0
    unfolding write_located create_new
    write_located-good at vault_id client item_addr body e (failed x) all = all
    write_located-good at vault_id client item_addr body e (found id section field) all =
        put_fetched-good at vault_id client body _ (fetch_fresh factory at client vault_id id e).1
          (fetch_fresh-good Good closed factory at client vault_id id e all)
    write_located-good at vault_id client item_addr body e absent all =
        elim (Bool-cases (is_id_shape item_addr)) [
          | inl shaped ↦ rw (write_located, shaped) all
          | inr free ↦ elim (Bool-cases (length (split item_addr) == 1)) [
            | inr several ↦ rw (write_located, free, several) all
            | inl one ↦
                rw (write_located, free, one) (create_applied-good at vault_id client body _ e all)
          ]
        ]

    write_parsed-good :
        (at : WriteClock) (vault_addr item_addr : String) (body : ItemWrite) (e : Engine W)
        → AllGood Good e
        → AllGood Good (write_parsed factory names fresh_id n at vault_addr item_addr body e).0
    unfolding write_parsed
    write_parsed-good at vault_addr item_addr body e all =
        let (e', start) = begin_write factory at vault_addr e in
        let all' = begin_write-good Good closed factory at vault_addr e all in
        elim (Option-cases (category_of factory names fresh_id n body.category)) [
          | inl unknown ↦ rw (write_parsed, unknown) all
          | inr (category, known) ↦ elim (Begun-cases start) [
            | inl (response, stop) ↦ rw (write_parsed, known, stop) all'
            | inr (vault_id, client, go) ↦
                rw (write_parsed, known, go)
                  (write_located-good at vault_id client item_addr
                    (record body { category = category }) _ _
                    (locate_item-good Good closed factory at vault_id item_addr
                      (by_segments factory (split item_addr)) e' all'))
          ]
        ]

    pub path_item_write-good :
        (at : WriteClock) (vault_addr item_addr : String) (raw : Members) (settings : ItemWrite)
        (e : Engine W)
        → AllGood Good e
        → AllGood Good
            (path_item_write factory names fresh_id n at vault_addr item_addr raw settings e).0
    unfolding path_item_write
    path_item_write-good at vault_addr item_addr raw settings e all =
        elim (Parsed-cases (parse_field_writes raw)) [
          | inl (x, malformed) ↦ rw (path_item_write, malformed) all
          | inr (ws, parsed) ↦
              rw (path_item_write, parsed)
                (write_parsed-good at vault_addr item_addr (record settings { writes = ws }) e all)
        ]

    field_located-good :
        (at : WriteClock) (vault_id : String) (client : OpClient W) (value typ : String)
        (e : Engine W) (outcome : Found)
        → AllGood Good e
        → AllGood Good
            (field_located factory names fresh_id n at vault_id client value typ (e, outcome)).0
    unfolding field_located
    field_located-good at vault_id client value typ e (failed x) all = all
    field_located-good at vault_id client value typ e absent all = all
    field_located-good at vault_id client value typ e (found id section label) all =
        put_fetched-good at vault_id client
          (one_field factory names fresh_id n section label value typ) _
          (fetch_fresh factory at client vault_id id e).1
          (fetch_fresh-good Good closed factory at client vault_id id e all)

    pub path_field_write-good :
        (at : WriteClock) (vault_addr rest : String) (value : Option String) (typ : String)
        (e : Engine W)
        → AllGood Good e
        → AllGood Good (path_field_write factory names fresh_id n at vault_addr rest value typ e).0
    unfolding path_field_write field_located
    path_field_write-good at vault_addr rest none typ e all = all
    path_field_write-good at vault_addr rest (some value) typ e all =
        let (e', start) = begin_write factory at vault_addr e in
        let all' = begin_write-good Good closed factory at vault_addr e all in
        elim (Begun-cases start) [
          | inl (response, stop) ↦ rw (path_field_write, stop) all'
          | inr (vault_id, client, go) ↦
              rw (path_field_write, go)
                (field_located-good at vault_id client value typ _ _ (
                  locate_item-good Good closed factory at vault_id rest
                    (λ r. resolve_field_address r (split rest)) e' all'))
        ]

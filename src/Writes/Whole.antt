-- ===== src/Writes/Whole.antt =====
-- The write handlers as a whole, from the address to what can be read afterwards.
use openbao_plugin_secrets_o.Prelude.{
  ℕ, ◌≤◌, String, Bool, true, false, Option, none, some, ◌≡◌, ◌≢◌, refl, str_eq, arith, length,
  ◌==◌, Bool-cases, Option-cases, inl, inr, ◌⊎◌,
}
use openbao_plugin_secrets_o.Prelude.Table.{has}
use openbao_plugin_secrets_o.Prelude.Text.{split}
use openbao_plugin_secrets_o.Onepassword.{Item, Result, ok, err}
use openbao_plugin_secrets_o.Client.{OpClient}
use openbao_plugin_secrets_o.Replica.{body}
use openbao_plugin_secrets_o.Address.{resolve_field_address}
use openbao_plugin_secrets_o.Engine.Vaults.{resolve_vault_address-allowed}
use openbao_plugin_secrets_o.Fields.Body.{Members, parse_field_writes}
use openbao_plugin_secrets_o.Fields.Body.Tables.{Parsed-cases}
use openbao_plugin_secrets_o.Writes.{
  locate_item, stopped, begun, WriteClock, Response, written, Names, ItemWrite, Begun, FreshItem,
  fresh, no_item, is_write_vault, begin_write, finish_write, is_id_shape, with_settings,
  create_params,
}
use openbao_plugin_secrets_o.Writes.Handlers.{
  by_segments, path_item_write, path_field_write, put_applied, put_merged, put_fetched,
  create_applied, create_new, write_located, category_of, write_parsed, field_located, one_field,
}
use openbao_plugin_secrets_o.Fields.{Applied, applied, unknown_field_type, apply_fields}
use openbao_plugin_secrets_o.Engine.{
  Engine, Factory, Found, found, absent, failed, got, resolve_vault_address, replica_of,
}
use openbao_plugin_secrets_o.Writes.Deletes.{finish_write-reads}
use openbao_plugin_secrets_o.Writes.Starts.{IsNoWrite, begin_write-IsBegun, fetch_fresh-IsNoWrite}

-- The replica holds a body of the item, at its version or a newer one.
abbrev pub Holds : {W : Type 0} → String → Item → Engine W → Type 0
Holds vault_id out e =
    (item : Item) × (body (replica_of e vault_id) out.id ≡ some item) × (out.version ≤ item.version)

pub Begun-cases :
    {W : Type 0} (b : Begun W)
    → ((response : Response) × (b ≡ stopped response))
      ⊎ ((vault_id : String) × (client : OpClient W) × (b ≡ begun vault_id client))
Begun-cases (stopped response) = inl (response, refl)
Begun-cases (begun vault_id client) = inr (vault_id, client, refl)

module _ {W : Type 0} (factory : Factory W) (at : WriteClock) where
  module _ (names : Names) (fresh_id : ℕ → String) (n : ℕ) (vault_id : String) (client : OpClient W)
      (out : Item) (warned : Bool) where
    finish_write-Holds :
        (w : Bool) (result : Result Item × W) (e : Engine W)
        → let (e', response) = finish_write factory at vault_id w result e in
          response ≡ written out warned → Holds vault_id out e'
    unfolding finish_write
    finish_write-Holds w (err x, r) e h = absurd (ground arith)
    finish_write-Holds w (ok item, r) e h =
        let same : out ≡ item = ground arith in
        rw same ((finish_write-reads factory at vault_id e w (ok item, r) item refl).0)

    put_applied-Holds :
        (body : ItemWrite) (w : Bool) (a : Applied) (e : Engine W)
        → let (e', response) = put_applied factory names fresh_id n at vault_id client body w a e in
          response ≡ written out warned → Holds vault_id out e'
    put_applied-Holds body w (unknown_field_type typ label) e h = cc
    put_applied-Holds body w (applied item m) e h =
        finish_write-Holds w (client.put_item (with_settings names body item) e.remote) e h

    create_applied-Holds :
        (body : ItemWrite) (a : Applied) (e : Engine W)
        → let (e', response) =
            create_applied factory names fresh_id n at vault_id client body a e in
          response ≡ written out warned → Holds vault_id out e'
    create_applied-Holds body (unknown_field_type typ label) e h = cc
    create_applied-Holds body (applied item m) e h =
        finish_write-Holds false (client.create_item (create_params names body item) e.remote) e h

    put_fetched-Holds :
        (body : ItemWrite) (f : FreshItem) (e : Engine W)
        → ((r : Response) → f ≡ no_item r → IsNoWrite r)
        → let (e', response) =
            put_fetched factory names fresh_id n at vault_id client body (e, f) in
          response ≡ written out warned → Holds vault_id out e'
    unfolding put_merged
    put_fetched-Holds body (no_item response) e miss h = absurd (miss response refl out warned h)
    put_fetched-Holds body (fresh cur) e miss h = elim (Bool-cases (str_eq cur.id "")) [
      | inl empty ↦ absurd (ground (arith, empty))
      | inr whole ↦
          rw (put_merged, whole)
            (put_applied-Holds body _ (apply_fields names.types fresh_id false body.writes cur n) e
              (rw (put_merged, whole) at h))
    ]

    create_new-Holds :
        (title : String) (body : ItemWrite) (e : Engine W)
        → let (e', response) =
            create_new factory names fresh_id n at vault_id client title body e in
          response ≡ written out warned → Holds vault_id out e'
    unfolding create_new
    create_new-Holds title body e h =
        create_applied-Holds body (apply_fields names.types fresh_id true body.writes _ n) e h

    write_located-Holds :
        (item_addr : String) (body : ItemWrite) (e : Engine W) (outcome : Found)
        → let (e', response) =
            write_located factory names fresh_id n at vault_id client item_addr body (e, outcome) in
          response ≡ written out warned → Holds vault_id out e'
    unfolding write_located
    write_located-Holds item_addr body e (failed x) h = cc
    write_located-Holds item_addr body e (found id section field) h =
        put_fetched-Holds body _ _ (fetch_fresh-IsNoWrite factory at client vault_id id e) h
    write_located-Holds item_addr body e absent h = elim (Bool-cases (is_id_shape item_addr)) [
      | inl shaped ↦ absurd (ground (arith, shaped))
      | inr free ↦ elim (Bool-cases (length (split item_addr) == 1)) [
        | inr many ↦ absurd (ground (arith, free, many))
        | inl single ↦
            rw (write_located, free, single)
              (create_new-Holds item_addr body e (rw (write_located, free, single) at h))
      ]
    ]

    field_located-Holds :
        (value typ : String) (e : Engine W) (outcome : Found)
        → let (e', response) =
            field_located factory names fresh_id n at vault_id client value typ (e, outcome) in
          response ≡ written out warned → Holds vault_id out e'
    unfolding field_located
    field_located-Holds value typ e (failed x) h = cc
    field_located-Holds value typ e absent h = cc
    field_located-Holds value typ e (found id section label) h =
        put_fetched-Holds (one_field factory names fresh_id n section label value typ) _ _
          (fetch_fresh-IsNoWrite factory at client vault_id id e) h

  -- What an accepted write, given by its address, has led to.
  abbrev pub IsWritten : Engine W → String → Item → Engine W → Type 0
  IsWritten e vault_addr out e' =
      (vault_id : String) × (resolve_vault_address e vault_addr ≡ got vault_id)
      × (has vault_id e.allowlist ≡ true)
      × (is_write_vault factory e vault_id ≡ true)
      × Holds vault_id out e'

  module _ (names : Names) (fresh_id : ℕ → String) (n : ℕ) (vault_addr : String) (e : Engine W)
      (out : Item) (warned : Bool) where
    begun_facts :
        (vault_id : String) (client : OpClient W)
        → (begin_write factory at vault_addr e).1 ≡ begun vault_id client
        → (resolve_vault_address e vault_addr ≡ got vault_id)
          × (is_write_vault factory e vault_id ≡ true)
    begun_facts vault_id client start = rw start at (begin_write-IsBegun factory at vault_addr e)

    stopped_writes_nothing :
        (response : Response)
        → (begin_write factory at vault_addr e).1 ≡ stopped response
        → response ≢ written out warned
    stopped_writes_nothing response stop =
        (rw stop at (begin_write-IsBegun factory at vault_addr e)) out warned

    write_parsed-Holds :
        (item_addr : String) (body : ItemWrite)
        → let (e', response) =
            write_parsed factory names fresh_id n at vault_addr item_addr body e in
          response ≡ written out warned → IsWritten e vault_addr out e'
    unfolding write_parsed
    write_parsed-Holds item_addr body h =
        elim (Option-cases (category_of factory names fresh_id n body.category)) [
          | inl unknown ↦ absurd (ground (arith, unknown))
          | inr (category, known) ↦ elim (Begun-cases (begin_write factory at vault_addr e).1) [
            | inl (response, stop) ↦
                absurd (stopped_writes_nothing response stop (ground (arith, known, stop)))
            | inr (vault_id, client, start) ↦
                let (good, writable) = begun_facts vault_id client start in
                let located =
                  locate_item factory at vault_id item_addr (by_segments factory (split item_addr))
                    (begin_write factory at vault_addr e).0 in
                (
                  vault_id,
                  good,
                  resolve_vault_address-allowed e vault_addr vault_id good,
                  writable,
                  rw (write_parsed, known, start)
                      (write_located-Holds names fresh_id n vault_id client out warned item_addr
                        (record body { category = category }) located.0 located.1
                        (rw (write_parsed, known, start) at h)),
                )
          ]
        ]

    field_write-Holds :
        (rest : String) (value : Option String) (typ : String)
        → let (e', response) =
            path_field_write factory names fresh_id n at vault_addr rest value typ e in
          response ≡ written out warned → IsWritten e vault_addr out e'
    unfolding path_field_write
    field_write-Holds rest none typ h = cc
    field_write-Holds rest (some value) typ h =
        elim (Begun-cases (begin_write factory at vault_addr e).1) [
          | inl (response, stop) ↦
              absurd (stopped_writes_nothing response stop (ground (arith, stop)))
          | inr (vault_id, client, start) ↦
              let (good, writable) = begun_facts vault_id client start in
              let located =
                locate_item factory at vault_id rest (λ r. resolve_field_address r (split rest))
                  (begin_write factory at vault_addr e).0 in
              (
                vault_id,
                good,
                resolve_vault_address-allowed e vault_addr vault_id good,
                writable,
                rw (path_field_write, start)
                    (field_located-Holds names fresh_id n vault_id client out warned value typ
                      located.0 located.1 (rw (path_field_write, start) at h)),
              )
        ]

    item_write-Holds :
        (item_addr : String) (raw : Members) (settings : ItemWrite)
        → let (e', response) =
            path_item_write factory names fresh_id n at vault_addr item_addr raw settings e in
          response ≡ written out warned → IsWritten e vault_addr out e'
    unfolding path_item_write
    item_write-Holds item_addr raw settings h = elim (Parsed-cases (parse_field_writes raw)) [
      | inl (x, wrong) ↦ absurd (ground (arith, wrong))
      | inr (ws, right) ↦
          rw (path_item_write, right)
            (write_parsed-Holds item_addr (record settings { writes = ws })
              (rw (path_item_write, right) at h))
    ]

-- A call of one of the handlers that write.
pub data Call : Type 0 where
  item_write : String → Members → ItemWrite → Call
  field_write : String → Option String → String → Call

module _ {W : Type 0} (factory : Factory W) (at : WriteClock) (names : Names)
    (fresh_id : ℕ → String) (n : ℕ) (vault_addr : String) (e : Engine W) where
  abbrev pub handle : Call → Engine W × Response
  handle (item_write item_addr raw settings) =
      path_item_write factory names fresh_id n at vault_addr item_addr raw settings e
  handle (field_write rest value typ) =
      path_field_write factory names fresh_id n at vault_addr rest value typ e

  -- A write that is answered with an item, of an item or of a field, was one of a vault that the
  -- address leads to, that is in the allowlist and in write_vaults, and it can be read back at
  -- once: the vault's replica holds a body of the returned item at its version or a newer one.
  pub writes_read_back :
      (call : Call) (out : Item) (warned : Bool)
      → (handle call).1 ≡ written out warned
      → IsWritten factory at e vault_addr out (handle call).0
  writes_read_back (item_write item_addr raw settings) out warned h =
      item_write-Holds factory at names fresh_id n vault_addr e out warned item_addr raw settings h
  writes_read_back (field_write rest value typ) out warned h =
      field_write-Holds factory at names fresh_id n vault_addr e out warned rest value typ h

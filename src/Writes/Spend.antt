-- ===== src/Writes/Spend.antt =====
-- What a write costs of the request budget.
use openbao_plugin_secrets_o.Prelude.{
  ℕ, ◌+◌, ◌*◌, ◌≤◌, ◌<◌, String, Bool, false, Option, none, some, [], ◌∷◌, ◌≡◌, ◌∙◌, str_eq, arith,
  Bool-cases, inl, inr,
}
use openbao_plugin_secrets_o.Prelude.Time.{hour}
use mathlib.Core.Path.{subst}
use openbao_plugin_secrets_o.Onepassword.{Item, SdkError, Result, Result-cases, ok, err}
use openbao_plugin_secrets_o.Client.{OpClient}
use openbao_plugin_secrets_o.Fields.{Applied, applied, unknown_field_type, apply_fields}
use openbao_plugin_secrets_o.Governor.{count_since}
use openbao_plugin_secrets_o.Governor.Window.{count_since-record_request}
use openbao_plugin_secrets_o.Engine.{Engine, Factory, put_replica}
use openbao_plugin_secrets_o.Writes.{
  WriteClock, written, deleted, Names, ItemWrite, fresh, fetch_fresh, finish_write, finish_delete,
  spend,
}
use openbao_plugin_secrets_o.Writes.Handlers.{
  put_applied, create_applied, put_merged, ignores_category, create_new,
}

-- The requests that the governor counts in a window up to `now`.
abbrev pub spent : {W : Type 0} → Engine W → ℕ → ℕ → ℕ
spent e now window = count_since e.gate.events now window

module _ {W : Type 0} (factory : Factory W) (at : WriteClock) (vault_id : String) (window : ℕ)
    (positive : 0 < window) (within_day : window ≤ 24 * hour) where
  spend-spent :
      (now : ℕ) (x : Option SdkError) (e : Engine W)
      → spent (spend factory now vault_id x e) now window ≡ spent e now window + 1
  spend-spent now x e =
      count_since-record_request e.gate now vault_id 1 x window positive within_day

  finish_write-spent :
      (warned : Bool) (result : Result Item × W) (e : Engine W)
      → spent (finish_write factory at vault_id warned result e).0 at.written window
        ≡ spent e at.written window + 1
  unfolding finish_write put_replica
  finish_write-spent warned (ok item, w) e = spend-spent at.written none (record e { remote = w })
  finish_write-spent warned (err x, w) e = spend-spent at.written (some x) (record e { remote = w })

  finish_delete-spent :
      (id : String) (result : Result (Unit {0}) × W) (e : Engine W)
      → spent (finish_delete factory at vault_id id result e).0 at.written window
        ≡ spent e at.written window + 1
  unfolding finish_delete put_replica
  finish_delete-spent id (ok u, w) e = spend-spent at.written none (record e { remote = w })
  finish_delete-spent id (err x, w) e = spend-spent at.written (some x) (record e { remote = w })

  fetch_fresh-spent :
      (client : OpClient W) (id : String) (e : Engine W)
      → spent (fetch_fresh factory at client vault_id id e).0 at.fetched window
        ≡ spent e at.fetched window + 1
  unfolding fetch_fresh
  fetch_fresh-spent client id e =
      elim (Result-cases (client.get_items vault_id (id ∷ []) e.remote).0) [
        | inl (x, bad) ↦ rw (fetch_fresh, bad) (spend-spent at.fetched (some x) e)
        | inr (rs, good) ↦ rw (fetch_fresh, good) (spend-spent at.fetched none e)
      ]

  module _ (names : Names) (fresh_id : ℕ → String) (n : ℕ) (client : OpClient W)
      (body : ItemWrite) where
    put_applied-spent :
        (warned : Bool) (a : Applied) (e : Engine W) (out : Item)
        → let (e', response) =
            put_applied factory names fresh_id n at vault_id client body warned a e in
          response ≡ written out warned → spent e' at.written window ≡ spent e at.written window + 1
    put_applied-spent warned (unknown_field_type typ label) e out h = absurd (ground arith)
    put_applied-spent warned (applied item m) e out h = finish_write-spent warned _ e

    create_applied-spent :
        (a : Applied) (e : Engine W) (out : Item)
        → let (e', response) =
            create_applied factory names fresh_id n at vault_id client body a e in
          response ≡ written out false → spent e' at.written window ≡ spent e at.written window + 1
    create_applied-spent (unknown_field_type typ label) e out h = absurd (ground arith)
    create_applied-spent (applied item m) e out h = finish_write-spent false _ e

    put_merged-spent :
        (warned : Bool) (cur : Item) (e : Engine W) (out : Item)
        → let (e', response) =
            put_merged factory names fresh_id n at vault_id client body warned cur e in
          response ≡ written out warned → spent e' at.written window ≡ spent e at.written window + 1
    unfolding put_merged
    put_merged-spent warned cur e out h =
        let a = apply_fields names.types fresh_id false body.writes cur n in
        elim (Bool-cases (str_eq cur.id "")) [
          | inl unnamed ↦ absurd (ground (arith, unnamed))
          | inr named ↦
              rw (put_merged, named) (put_applied-spent warned a e out (ground (arith, named)))
        ]

    -- A successful update spends two requests of the budget, the fetch and the Put; a successful
    -- create or delete spends one. (An update's two calls are taken at one reading of the clock.)
    pub writes_spend :
        (e : Engine W) (id title : String) (cur out : Item)
        → at.fetched ≡ at.written
        → (let (e₁, got) = fetch_fresh factory at client vault_id id e in
            let warned = ignores_category factory names fresh_id n body.category cur in
            let (e₂, response) =
              put_merged factory names fresh_id n at vault_id client body warned cur e₁ in
            got ≡ fresh cur
            → response ≡ written out warned
            → spent e₂ at.written window ≡ spent e at.written window + 2)
          × (let (e₁, response) =
                create_new factory names fresh_id n at vault_id client title body e in
              response ≡ written out false
              → spent e₁ at.written window ≡ spent e at.written window + 1)
          × (let (e₁, response) =
                finish_delete factory at vault_id id (client.delete_item vault_id id e.remote) e in
              response ≡ deleted → spent e₁ at.written window ≡ spent e at.written window + 1)
    unfolding create_new
    writes_spend e id title cur out same =
        let e₁ = (fetch_fresh factory at client vault_id id e).0 in
        let warned = ignores_category factory names fresh_id n body.category cur in
        let fetched : spent e₁ at.written window ≡ spent e at.written window + 1 =
          subst (λ (t : ℕ). spent e₁ t window ≡ spent e t window + 1) same
            (fetch_fresh-spent client id e) in
        (
          λ there done. put_merged-spent warned cur e₁ out done ∙ omega (arith, fetched),
          λ done. create_applied-spent _ e out done,
          λ done. finish_delete-spent id _ e,
        )

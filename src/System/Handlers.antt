-- ===== src/System/Handlers.antt =====
-- The handlers that write nothing to 1Password, and a property of every replica.
use openbao_plugin_secrets_o.Prelude.{ℕ, String, none, List, [], ◌∷◌, refl, inl, inr, arith}
use openbao_plugin_secrets_o.Prelude.Table.{keys}
use openbao_plugin_secrets_o.Prelude.Sort.{sort_strings}
use openbao_plugin_secrets_o.Onepassword.{Item}
use openbao_plugin_secrets_o.Governor.{manual}
use openbao_plugin_secrets_o.Replica.{Replica}
use openbao_plugin_secrets_o.Cycle.Interleave.{invalidates}
use openbao_plugin_secrets_o.Engine.{
  Engine, Clock, Factory, Found, Outcome-cases, resolve_vault_address, replica_of, open_replica,
}
use openbao_plugin_secrets_o.Lifecycle.{
  invalidate_vault, invalidate_all, path_invalidate_all, path_invalidate_vault,
}
use openbao_plugin_secrets_o.Requests.{
  ReadClock, ReadMeta, ReadResponse, serve, respond_item, respond_field, item_address,
  field_address, path_item_read, path_field_read, path_item_existence, refresh_all,
  path_refresh_all, path_refresh_vault,
}
use openbao_plugin_secrets_o.Listing.{path_vault_items_list}
use openbao_plugin_secrets_o.Status.{path_status_read}
use openbao_plugin_secrets_o.System.Reads.{ensure_item_fresh-good, ensure_vault_window_fresh-good}
use openbao_plugin_secrets_o.System.Closed.{
  IsClosed, AllGood, put_replica-good, same_replicas-good, replica_of-good, open_replica-good,
  vault_cycle-good,
}

module _ (Good : String → Replica → Type 0) (closed : IsClosed Good) {W : Type 0}
    (factory : Factory W) where
  serve-good :
      (at : ReadClock) (vault_id : String)
      (respond : Item → String → String → ReadMeta → ReadResponse) (e : Engine W) (outcome : Found)
      → AllGood Good e
      → AllGood Good (serve factory at vault_id respond (e, outcome)).0
  unfolding serve
  serve-good at vault_id respond e outcome all =
      same_replicas-good Good closed e _ (ground arith) all

  pub path_item_read-good :
      (at : ReadClock) (vault_addr item_addr : String) (e : Engine W)
      → AllGood Good e
      → AllGood Good (path_item_read factory at vault_addr item_addr e).0
  unfolding path_item_read
  path_item_read-good at vault_addr item_addr e all =
      elim (Outcome-cases (resolve_vault_address e vault_addr)) [
        | inl (x, bad) ↦ rw (path_item_read, bad) all
        | inr (vault_id, resolved) ↦
            rw (path_item_read, resolved)
              (serve-good at vault_id (respond_item factory) _ _ (
                ensure_item_fresh-good Good closed factory at.clock vault_id item_addr
                  (item_address item_addr) _ (open_replica-good Good closed e vault_id all)))
      ]

  pub path_field_read-good :
      (at : ReadClock) (vault_addr rest : String) (e : Engine W)
      → AllGood Good e
      → AllGood Good (path_field_read factory at vault_addr rest e).0
  unfolding path_field_read
  path_field_read-good at vault_addr rest e all =
      elim (Outcome-cases (resolve_vault_address e vault_addr)) [
        | inl (x, bad) ↦ rw (path_field_read, bad) all
        | inr (vault_id, resolved) ↦
            rw (path_field_read, resolved)
              (serve-good at vault_id (respond_field factory) _ _ (
                ensure_item_fresh-good Good closed factory at.clock vault_id rest
                  (field_address rest) _ (open_replica-good Good closed e vault_id all)))
      ]

  pub path_item_existence-good :
      (vault_addr item_addr : String) (e : Engine W)
      → AllGood Good e
      → AllGood Good (path_item_existence factory vault_addr item_addr e).0
  unfolding path_item_existence
  path_item_existence-good vault_addr item_addr e all =
      elim (Outcome-cases (resolve_vault_address e vault_addr)) [
        | inl (x, bad) ↦ rw (path_item_existence, bad) all
        | inr (vault_id, resolved) ↦
            rw (path_item_existence, resolved) (open_replica-good Good closed e vault_id all)
      ]

  pub path_vault_items_list-good :
      (at : Clock) (vault_addr : String) (e : Engine W)
      → AllGood Good e
      → AllGood Good (path_vault_items_list factory at vault_addr e).0
  unfolding path_vault_items_list
  path_vault_items_list-good at vault_addr e all =
      elim (Outcome-cases (resolve_vault_address e vault_addr)) [
        | inl (x, bad) ↦ rw (path_vault_items_list, bad) all
        | inr (vault_id, resolved) ↦
            rw (path_vault_items_list, resolved)
              (open_replica-good Good closed _ vault_id
                (ensure_vault_window_fresh-good Good closed factory at vault_id e all))
      ]

  refresh_all-good :
      (at : String → Clock) (ids : List String) (e : Engine W)
      → AllGood Good e
      → AllGood Good (refresh_all factory at ids e).0
  unfolding refresh_all
  refresh_all-good at [] e all = all
  refresh_all-good at (id ∷ ids) e all =
      refresh_all-good at ids _ (vault_cycle-good Good closed factory (at id) id manual e all)

  pub path_refresh_all-good :
      (at : String → Clock) (e : Engine W)
      → AllGood Good e
      → AllGood Good (path_refresh_all factory at e).0
  unfolding path_refresh_all
  path_refresh_all-good at e all = refresh_all-good at (sort_strings (keys e.allowlist)) e all

  pub path_refresh_vault-good :
      (at : Clock) (vault_addr : String) (e : Engine W)
      → AllGood Good e
      → AllGood Good (path_refresh_vault factory at vault_addr e).0
  unfolding path_refresh_vault
  path_refresh_vault-good at vault_addr e all =
      elim (Outcome-cases (resolve_vault_address e vault_addr)) [
        | inl (x, bad) ↦ rw (path_refresh_vault, bad) all
        | inr (vault_id, resolved) ↦
            rw (path_refresh_vault, resolved)
              (vault_cycle-good Good closed factory at vault_id manual e all)
      ]

  invalidate_vault-good :
      (now : ℕ) (e : Engine W) (id : String)
      → AllGood Good e
      → AllGood Good (invalidate_vault factory now e id)
  unfolding invalidate_vault
  invalidate_vault-good now e id all =
      let opened = open_replica e id in
      let all' = open_replica-good Good closed e id all in
      put_replica-good Good closed opened id _ all' (
        closed.steps none id (invalidates (replica_of opened id) now)
          (replica_of-good Good closed opened id all'))

  invalidate_all-good :
      (now : ℕ) (ids : List String) (e : Engine W)
      → AllGood Good e
      → AllGood Good (invalidate_all factory now ids e)
  unfolding invalidate_all
  invalidate_all-good now [] e all = all
  invalidate_all-good now (id ∷ ids) e all =
      invalidate_all-good now ids _ (invalidate_vault-good now e id all)

  pub path_invalidate_all-good :
      (now : ℕ) (e : Engine W) → AllGood Good e → AllGood Good (path_invalidate_all factory now e).0
  unfolding path_invalidate_all
  path_invalidate_all-good now e all =
      invalidate_all-good now (sort_strings (keys e.allowlist)) e all

  pub path_invalidate_vault-good :
      (now : ℕ) (vault_addr : String) (e : Engine W)
      → AllGood Good e
      → AllGood Good (path_invalidate_vault factory now vault_addr e).0
  unfolding path_invalidate_vault
  path_invalidate_vault-good now vault_addr e all =
      elim (Outcome-cases (resolve_vault_address e vault_addr)) [
        | inl (x, bad) ↦ rw (path_invalidate_vault, bad) all
        | inr (vault_id, resolved) ↦
            rw (path_invalidate_vault, resolved) (invalidate_vault-good now e vault_id all)
      ]

  pub path_status_read-good :
      (now : ℕ) (e : Engine W) → AllGood Good e → AllGood Good (path_status_read now e).0
  unfolding path_status_read
  path_status_read-good now e all = same_replicas-good Good closed e _ refl all

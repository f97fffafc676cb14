-- ===== src/System/Writes.antt =====
-- The parts of a write and a delete, and a property of every replica.
use openbao_plugin_secrets_o.Prelude.{
  String, Bool, ◌≡◌, refl, inl, inr, arith, Bool-cases, Option-cases,
}
use openbao_plugin_secrets_o.Prelude.Text.{split}
use openbao_plugin_secrets_o.Onepassword.{Item, Result, ok, err}
use openbao_plugin_secrets_o.Client.{OpClient}
use openbao_plugin_secrets_o.Governor.{manual, allow}
use openbao_plugin_secrets_o.Replica.{Replica, not_found, ambiguous_title}
use openbao_plugin_secrets_o.Cycle.Interleave.{writes, deletes}
use openbao_plugin_secrets_o.Address.{FieldAddress, field_at, no_field}
use openbao_plugin_secrets_o.Engine.{
  Engine, Factory, Found, found, absent, failed, Outcome-cases, resolve_vault_address, replica_of,
  ensure_client,
}
use openbao_plugin_secrets_o.Writes.{
  WriteClock, is_write_vault, begin_client, begin_write, empty_is_absent, locate_item, fetch_fresh,
  finish_write, finish_delete,
}
use openbao_plugin_secrets_o.Writes.Handlers.{by_segments, delete_located, path_item_delete}
use openbao_plugin_secrets_o.Writes.Whole.{Begun-cases}
use openbao_plugin_secrets_o.System.Reads.{ensure_item_fresh-good}
use openbao_plugin_secrets_o.System.Closed.{
  IsClosed, AllGood, put_replica-good, same_replicas-good, replica_of-good, open_replica-good,
  ensure_client-replicas,
}

module _ (Good : String → Replica → Type 0) (closed : IsClosed Good) {W : Type 0}
    (factory : Factory W) where
  begin_client-good :
      (at : WriteClock) (vault_id : String) (e : Engine W)
      → AllGood Good e
      → AllGood Good (begin_client factory at vault_id e).0
  unfolding begin_client
  begin_client-good at vault_id e all =
      let (e', client) = ensure_client factory at.clock e in
      let all' =
        same_replicas-good Good closed e e' (ensure_client-replicas Good closed factory at.clock e)
          all in
      elim (Outcome-cases client) [
        | inl (x, refusal) ↦ rw (begin_client, refusal) all'
        | inr (c, built) ↦ rw (begin_client, built) (open_replica-good Good closed e' vault_id all')
      ]

  pub begin_write-good :
      (at : WriteClock) (vault_addr : String) (e : Engine W)
      → AllGood Good e
      → AllGood Good (begin_write factory at vault_addr e).0
  unfolding begin_write
  begin_write-good at vault_addr e all = elim (Option-cases e.config) [
    | inl missing ↦ rw (begin_write, missing) all
    | inr (cfg, configured) ↦ elim (Outcome-cases (resolve_vault_address e vault_addr)) [
      | inl (x, refusal) ↦ rw (begin_write, configured, refusal) all
      | inr (vault_id, resolved) ↦ elim (Bool-cases (is_write_vault factory e vault_id)) [
        | inr closed_to_it ↦ rw (begin_write, configured, resolved, closed_to_it) all
        | inl open_to_it ↦ elim (Bool-cases (allow e.gate at.allowed vault_id manual).1) [
          | inr denied ↦
              rw (begin_write, configured, resolved, open_to_it, denied)
                (same_replicas-good Good closed e _ refl all)
          | inl allowed ↦
              rw (begin_write, configured, resolved, open_to_it, allowed)
                (begin_client-good at vault_id _ (same_replicas-good Good closed e _ refl all))
        ]
      ]
    ]
  ]

  empty_is_absent-good :
      (vault_id : String) (e : Engine W) (outcome : Found)
      → AllGood Good e
      → AllGood Good (empty_is_absent factory vault_id (e, outcome)).0
  empty_is_absent-good vault_id e outcome all =
      same_replicas-good Good closed e _ (ground arith) all

  located_at-good :
      (at : WriteClock) (vault_id key : String) (resolve : Replica → FieldAddress)
      (first : FieldAddress) (e : Engine W)
      → resolve (replica_of e vault_id) ≡ first
      → AllGood Good e
      → AllGood Good (locate_item factory at vault_id key resolve e).0
  unfolding locate_item
  located_at-good at vault_id key resolve (field_at id section field) e h all =
      rw (locate_item, h) all
  located_at-good at vault_id key resolve (no_field (ambiguous_title title ids)) e h all =
      rw (locate_item, h) all
  located_at-good at vault_id key resolve (no_field not_found) e h all =
      rw (locate_item, h)
        (empty_is_absent-good vault_id _ _
          (ensure_item_fresh-good Good closed factory at.clock vault_id key resolve e all))

  pub locate_item-good :
      (at : WriteClock) (vault_id key : String) (resolve : Replica → FieldAddress) (e : Engine W)
      → AllGood Good e
      → AllGood Good (locate_item factory at vault_id key resolve e).0
  locate_item-good at vault_id key resolve e all =
      located_at-good at vault_id key resolve (resolve (replica_of e vault_id)) e refl all

  pub fetch_fresh-good :
      (at : WriteClock) (client : OpClient W) (vault_id id : String) (e : Engine W)
      → AllGood Good e
      → AllGood Good (fetch_fresh factory at client vault_id id e).0
  unfolding fetch_fresh
  fetch_fresh-good at client vault_id id e all =
      same_replicas-good Good closed e _ (ground arith) all

  pub finish_write-good :
      (at : WriteClock) (vault_id : String) (warned : Bool) (result : Result Item) (w : W)
      (e : Engine W)
      → AllGood Good e
      → AllGood Good (finish_write factory at vault_id warned (result, w) e).0
  unfolding finish_write
  finish_write-good at vault_id warned (err x) w e all = same_replicas-good Good closed e _ refl all
  finish_write-good at vault_id warned (ok out) w e all =
      put_replica-good Good closed _ vault_id _ (same_replicas-good Good closed e _ refl all) (
        closed.steps e.splitter vault_id (writes _ out)
          (replica_of-good Good closed _ vault_id (same_replicas-good Good closed e _ refl all)))

  finish_delete-good :
      (at : WriteClock) (vault_id id : String) (result : Result (Unit {0})) (w : W) (e : Engine W)
      → AllGood Good e
      → AllGood Good (finish_delete factory at vault_id id (result, w) e).0
  unfolding finish_delete
  finish_delete-good at vault_id id (err x) w e all = same_replicas-good Good closed e _ refl all
  finish_delete-good at vault_id id (ok u) w e all =
      put_replica-good Good closed _ vault_id _ (same_replicas-good Good closed e _ refl all) (
        closed.steps e.splitter vault_id (deletes _ id)
          (replica_of-good Good closed _ vault_id (same_replicas-good Good closed e _ refl all)))

  delete_located-good :
      (at : WriteClock) (vault_id : String) (client : OpClient W) (e : Engine W) (outcome : Found)
      → AllGood Good e
      → AllGood Good (delete_located factory at vault_id client (e, outcome)).0
  unfolding delete_located
  delete_located-good at vault_id client e (failed x) all = all
  delete_located-good at vault_id client e absent all = all
  delete_located-good at vault_id client e (found id section field) all =
      finish_delete-good at vault_id id _ _ e all

  pub path_item_delete-good :
      (at : WriteClock) (vault_addr item_addr : String) (e : Engine W)
      → AllGood Good e
      → AllGood Good (path_item_delete factory at vault_addr item_addr e).0
  unfolding path_item_delete
  path_item_delete-good at vault_addr item_addr e all =
      let (e', start) = begin_write factory at vault_addr e in
      let all' = begin_write-good at vault_addr e all in
      elim (Begun-cases start) [
        | inl (response, stop) ↦ rw (path_item_delete, stop) all'
        | inr (vault_id, client, go) ↦
            rw (path_item_delete, go)
              (delete_located-good at vault_id client _ _ (
                locate_item-good at vault_id item_addr (by_segments factory (split item_addr)) e'
                  all'))
      ]

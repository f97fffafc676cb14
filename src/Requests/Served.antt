-- ===== src/Requests/Served.antt =====
-- What a read that is answered with a value has served.
use openbao_plugin_secrets_o.Prelude.{
  String, true, none, some, ◌≡◌, refl, arith, Option-cases, inl, inr,
}
use openbao_plugin_secrets_o.Onepassword.{ItemField, Item}
use openbao_plugin_secrets_o.Prelude.Table.{has}
use openbao_plugin_secrets_o.Replica.{body}
use openbao_plugin_secrets_o.Address.{field_at, lookup_field}
use openbao_plugin_secrets_o.Engine.{
  Engine, Factory, Outcome-cases, got, Found, found, absent, failed, resolve_vault_address,
  replica_of, open_replica,
}
use openbao_plugin_secrets_o.Engine.Reads.{ensure_item_fresh-found}
use openbao_plugin_secrets_o.Engine.Vaults.{resolve_vault_address-allowed}
use openbao_plugin_secrets_o.Requests.{
  ReadMeta, field_served, ReadClock, stale_check, field_address, read_meta_for, serve,
  respond_field, path_field_read,
}
use openbao_plugin_secrets_o.Engine.Freshness.{ensure_item_fresh}

-- What a served field is: the field at its address, in the body of the item that the address leads
-- to in the replica, which is not too old to be served.
pub record IsServed {W : Type 0} (at : ReadClock) (vault_id rest : String) (f : ItemField)
    (meta : ReadMeta) (e : Engine W) : Type 0 where
  pub id : String
  pub section : String
  pub label : String
  pub item : Item
  pub addressed : field_address rest (replica_of e vault_id) ≡ field_at id section label
  pub holds : body (replica_of e vault_id) id ≡ some item
  pub labelled : lookup_field item section label ≡ some f
  pub fresh : stale_check e.config (replica_of e vault_id) at.served ≡ none
  pub suspect : meta.stale_suspect ≡ (replica_of e vault_id).stale_suspect

respond_field-served :
    {W : Type 0} (factory : Factory W) (item : Item) (section label : String) (meta m : ReadMeta)
    (f : ItemField)
    → respond_field factory item section label meta ≡ field_served f m
    → (lookup_field item section label ≡ some f) × (meta ≡ m)
respond_field-served factory item section label meta m f h =
    elim (Option-cases (lookup_field item section label)) [
      | inl missing ↦ absurd (ground arith)
      | inr (g, there) ↦ (ground arith, ground arith)
    ]

serve-field :
    {W : Type 0} (factory : Factory W) (at : ReadClock) (vault_id rest : String) (e : Engine W)
    (outcome : Found) (f : ItemField) (meta : ReadMeta)
    → ((id section label : String)
        → outcome ≡ found id section label
        → field_address rest (replica_of e vault_id) ≡ field_at id section label)
    → (serve factory at vault_id (respond_field factory) (e, outcome)).1 ≡ field_served f meta
    → IsServed at vault_id rest f meta e
unfolding serve
serve-field factory at vault_id rest e absent f meta current h = absurd (ground arith)
serve-field factory at vault_id rest e (failed x) f meta current h = absurd (ground arith)
serve-field factory at vault_id rest e (found id section label) f meta current h =
    elim (Option-cases (stale_check e.config (replica_of e vault_id) at.served)) [
      | inr (x, old) ↦ absurd (ground arith)
      | inl young ↦ elim (Option-cases (body (replica_of e vault_id) id)) [
        | inl missing ↦ absurd (ground arith)
        | inr (item, held) ↦
            let (there, same) =
              respond_field-served factory item section label
                (read_meta_for factory e vault_id id at.marked) meta f (ground arith) in
            record {
              id = id;
              section = section;
              label = label;
              item = item;
              addressed = current id section label refl;
              holds = held;
              labelled = there;
              fresh = young;
              suspect = rw (← same) (unfold read_meta_for in refl);
            }
      ]
    ]

serve-state :
    {W : Type 0} (factory : Factory W) (at : ReadClock) (vault_id : String) (e : Engine W)
    (outcome : Found)
    → (serve factory at vault_id (respond_field factory) (e, outcome)).0 ≡ e
unfolding serve
serve-state factory at vault_id e absent = refl
serve-state factory at vault_id e (failed x) = refl
serve-state factory at vault_id e (found id section label) = ground arith

-- A field that is served belongs to a vault of the allowlist, is the one that its address leads to
-- in the replica at that moment, stands in the body that the replica holds, and is served only
-- where the replica is not too old for it; the response says whether the replica is suspect.
pub path_field_read-serves :
    {W : Type 0} (factory : Factory W) (at : ReadClock) (vault_addr rest : String) (e : Engine W)
    (f : ItemField) (meta : ReadMeta)
    → let (e', response) = path_field_read factory at vault_addr rest e in
      response ≡ field_served f meta
      → (vault_id : String) × (resolve_vault_address e vault_addr ≡ got vault_id)
        × (has vault_id e.allowlist ≡ true)
        × IsServed at vault_id rest f meta e'
unfolding path_field_read
path_field_read-serves factory at vault_addr rest e f meta h =
    elim (Outcome-cases (resolve_vault_address e vault_addr)) [
      | inl (x, bad) ↦ absurd (ground arith)
      | inr (vault_id, good) ↦
          let (e₁, outcome) =
            ensure_item_fresh factory at.clock vault_id rest (field_address rest)
              (open_replica e vault_id) in
          let current =
            ensure_item_fresh-found factory at.clock vault_id rest (field_address rest)
              (open_replica e vault_id) in
          let served =
            serve-field factory at vault_id rest e₁ outcome f meta (λ i s l k. current i s l k)
              (ground (arith, good)) in
          (
            vault_id,
            good,
            resolve_vault_address-allowed e vault_addr vault_id good,
            rw (path_field_read, good, serve-state factory at vault_id e₁ outcome) served,
          )
    ]

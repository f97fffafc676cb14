-- ===== src/Listing/Readable.antt =====
-- What the listing of a vault shows, and that it can be read.
use openbao_plugin_secrets_o.Prelude.{
  String, Bool, true, any, map, str_eq, eq_iff, Option, some, [], ◌∷◌, ◌≡◌, refl, ap, ◌∙◌, arith,
  inl, inr, Bool-cases, Option-cases,
}
use openbao_plugin_secrets_o.Prelude.Text.{split}
use openbao_plugin_secrets_o.Prelude.Table.{Table, lookup, lookup-insert, has, is_some}
use openbao_plugin_secrets_o.Prelude.Order.{any-sort_strings}
use openbao_plugin_secrets_o.Onepassword.{ItemOverview, Item}
use openbao_plugin_secrets_o.Config.{Config, Splitter}
use openbao_plugin_secrets_o.Governor.{periodic}
use openbao_plugin_secrets_o.Replica.{
  Replica, new_replica, overview_list, body, resolve_item_address,
}
use openbao_plugin_secrets_o.Replica.Consistent.{IsConsistent}
use openbao_plugin_secrets_o.Address.{FieldAddress, field_at, resolve_item_from_segments}
use openbao_plugin_secrets_o.Engine.{
  Engine, Clock, Factory, Found, got, found, resolve_vault_address, replica_of, put_replica,
  open_replica,
}
use openbao_plugin_secrets_o.Engine.Freshness.{
  look_at_ceiling, ensure_vault_window_fresh, ensure_item_fresh, check_serve_stale_allowed,
  fresh_known, settle_item, matches_always_fresh,
}
use openbao_plugin_secrets_o.Engine.Reads.{
  ServesHeld, ensure_item_fresh-held, replica_of-open_replica, open_replica-remote,
}
use openbao_plugin_secrets_o.Lifecycle.Allowlist.{
  SameVaults, same_vaults, SameVaults-trans, open_replica-SameVaults, run_vault_cycle-SameVaults,
  resolve_vault_address-same,
}
use openbao_plugin_secrets_o.Requests.{
  ReadClock, ReadMeta, item_address, item_response_data, add_read_meta, item_served, read_meta_for,
  respond_item, serve, path_item_read,
}
use openbao_plugin_secrets_o.Listing.{
  Listing, ItemInfo, overview_ids, item_listing, path_vault_items_list,
}

-- Each overview stands under its own ID.
abbrev pub IsNamed : Table ItemOverview → Type 0
IsNamed [] = Unit
IsNamed ((id, ov) ∷ m) = (ov.id ≡ id) × IsNamed m

abbrev pub is_listed : {I : Type 0} → Listing I → String → Bool
is_listed l id = any (λ j. str_eq j id) l.listed

overview_ids-any :
    (m : Table ItemOverview) (id : String)
    → IsNamed m
    → any (λ j. str_eq j id) (overview_ids (map (λ e. e.1) m)) ≡ has id m
unfolding overview_ids any lookup
overview_ids-any [] id named = refl
overview_ids-any ((j, ov) ∷ m) id (here, named) =
    ground (arith, overview_ids-any m id named, eq_iff j id, eq_iff ov.id id)

item_listing-is_listed :
    (r : Replica) (id : String)
    → IsNamed r.overview
    → is_listed (item_listing (overview_list r)) id ≡ has id r.overview
unfolding item_listing overview_list
item_listing-is_listed r id named =
    any-sort_strings (λ j. str_eq j id) (overview_ids (map (λ e. e.1) r.overview))
    ∙ overview_ids-any r.overview id named

-- An ID without a slash leads to its item.
item_address-id :
    (r : Replica) (id : String)
    → split id ≡ id ∷ []
    → has id r.overview ≡ true
    → item_address id r ≡ field_at id "" ""
unfolding resolve_item_from_segments resolve_item_address
item_address-id r id whole there = rw (whole, there) refl

open_replica-twice :
    {W : Type 0} (e : Engine W) (id : String)
    → open_replica (open_replica e id) id ≡ open_replica e id
unfolding open_replica put_replica
open_replica-twice e id = elim (Bool-cases (has id e.replicas)) [
  | inl there ↦ ground arith
  | inr new ↦ ground (arith, new, lookup-insert id id (new_replica id) e.replicas, eq_iff id id)
]

module _ {W : Type 0} (factory : Factory W) where
  ensure_vault_window_fresh-SameVaults :
      (at : Clock) (vault_id : String) (e : Engine W)
      → SameVaults e (ensure_vault_window_fresh factory at vault_id e)
  unfolding ensure_vault_window_fresh
  ensure_vault_window_fresh-SameVaults at vault_id e = elim (Option-cases e.config) [
    | inl missing ↦ same_vaults (ground arith) (ground arith) (ground arith)
    | inr (cfg, configured) ↦
        let e' = (look_at_ceiling cfg at.now e).0 in
        let opened = open_replica e' vault_id in
        let first : SameVaults e e' = same_vaults (ground arith) (ground arith) (ground arith) in
        let s = SameVaults-trans first (open_replica-SameVaults e' vault_id) in
        let ran =
          SameVaults-trans s (run_vault_cycle-SameVaults factory at vault_id periodic opened) in
        same_vaults (ground (arith, configured, first.directory, s.directory, ran.directory))
          (ground (arith, configured, first.allowlist, s.allowlist, ran.allowlist))
          (ground (arith, configured, first.config, s.config, ran.config))
  ]

  fresh_known-config :
      (at : Clock) (cfg : Config) (vault_id key : String) (resolve : Replica → FieldAddress)
      (id section field : String) (e : Engine W)
      → ServesHeld e cfg at vault_id id
      → (fresh_known factory at cfg vault_id key resolve (field_at id section field) e).0.config
        ≡ e.config
  unfolding fresh_known settle_item replica_of ServesHeld matches_always_fresh
  fresh_known-config at cfg vault_id key resolve id section field e (inl off) = ground arith
  fresh_known-config at cfg vault_id key resolve id section field e (inr (inl above)) = ground arith
  fresh_known-config at cfg vault_id key resolve id section field e (inr (inr (opened, free))) =
      ground arith

  ensure_item_fresh-config :
      (at : Clock) (vault_id key : String) (resolve : Replica → FieldAddress) (e : Engine W)
      (cfg : Config) (id section field : String)
      → e.config ≡ some cfg
      → resolve (replica_of e vault_id) ≡ field_at id section field
      → ServesHeld (open_replica e vault_id) cfg at vault_id id
      → (ensure_item_fresh factory at vault_id key resolve e).0.config ≡ some cfg
  unfolding ensure_item_fresh
  ensure_item_fresh-config at vault_id key resolve e cfg id section field configured known held =
      let opened = open_replica e vault_id in
      let same = replica_of-open_replica e vault_id in
      let first : resolve (replica_of opened vault_id) ≡ field_at id section field =
        rw same known in
      let kept = open_replica-remote e vault_id in
      ground (
        arith,
        configured,
        first,
        kept,
        fresh_known-config at cfg vault_id key resolve id section field opened held,
      )

  serve-item :
      (at : ReadClock) (vault_id id : String) (e : Engine W) (cfg : Config) (item : Item)
      (outcome : Found)
      → outcome ≡ found id "" ""
      → e.config ≡ some cfg
      → cfg.serve_stale ≡ true
      → body (replica_of e vault_id) id ≡ some item
      → let meta = read_meta_for factory e vault_id id at.marked in
        (serve factory at vault_id (respond_item factory) (e, outcome)).1
        ≡ item_served (add_read_meta (item_response_data item) meta) meta
  unfolding serve check_serve_stale_allowed replica_of
  serve-item at vault_id id e cfg item outcome is_found configured stale held =
      rw (is_found, serve, configured, stale, held) refl

  path_item_read-held :
      (at : ReadClock) (vault_addr vault_id id : String) (e : Engine W) (cfg : Config) (item : Item)
      → resolve_vault_address e vault_addr ≡ got vault_id
      → e.config ≡ some cfg
      → cfg.serve_stale ≡ true
      → split id ≡ id ∷ []
      → has id (replica_of e vault_id).overview ≡ true
      → body (replica_of e vault_id) id ≡ some item
      → ServesHeld (open_replica e vault_id) cfg at.clock vault_id id
      → (meta : ReadMeta) × ((path_item_read factory at vault_addr id e).1
          ≡ item_served (add_read_meta (item_response_data item) meta) meta)
  unfolding path_item_read
  path_item_read-held at vault_addr vault_id id e cfg item resolved configured stale whole there
        held serves =
      let opened = open_replica e vault_id in
      let same = replica_of-open_replica e vault_id in
      let kept = open_replica-remote e vault_id in
      let e' = (ensure_item_fresh factory at.clock vault_id id (item_address id) opened).0 in
      let known : item_address id (replica_of opened vault_id) ≡ field_at id "" "" =
        rw same (item_address-id (replica_of e vault_id) id whole there) in
      let once = open_replica-twice e vault_id in
      let free : ServesHeld (open_replica opened vault_id) cfg at.clock vault_id id =
        rw once serves in
      let (outcome, remote, replica) =
        ensure_item_fresh-held factory at.clock vault_id id (item_address id) opened cfg id "" ""
          (kept.1 ∙ configured) known free in
      let after =
        ensure_item_fresh-config at.clock vault_id id (item_address id) opened cfg id "" ""
          (kept.1 ∙ configured) known free in
      let held' : body (replica_of e' vault_id) id ≡ some item =
        ap (λ r. body r id) (replica ∙ same) ∙ held in
      (
        read_meta_for factory e' vault_id id at.marked,
        rw (path_item_read, resolved)
            (serve-item at vault_id id e' cfg item _ outcome after stale held'),
      )

  -- What a listing that is answered shows, and that it changes no address.
  path_vault_items_list-done :
      (at : Clock) (vault_addr vault_id : String) (e : Engine W) (l : Listing ItemInfo)
      → let (e', outcome) = path_vault_items_list factory at vault_addr e in
        resolve_vault_address e vault_addr ≡ got vault_id
        → outcome ≡ got l
        → SameVaults e e' × (l ≡ item_listing (overview_list (replica_of e' vault_id)))
  unfolding path_vault_items_list
  path_vault_items_list-done at vault_addr vault_id e l resolved listed =
      let fresh = ensure_vault_window_fresh factory at vault_id e in
      let s =
        SameVaults-trans (ensure_vault_window_fresh-SameVaults at vault_id e)
          (open_replica-SameVaults fresh vault_id) in
      (
        same_vaults (ground (arith, resolved, s.directory)) (ground (arith, resolved, s.allowlist))
            (ground (arith, resolved, s.config)),
        ground (arith, resolved, listed),
      )

  -- Where the vault's replica is consistent after the freshness check of the listing, and each
  -- overview stands under its own ID, the listing shows exactly the IDs whose bodies are held. Each
  -- of them without a slash is then served by a read at that ID, with that body, where stale data
  -- may be served and the read's own check finds no cycle due.
  pub listed_items_are_read :
      (listing : Clock) (at : ReadClock) (vault_addr vault_id id : String) (e : Engine W)
      (cfg : Config) (splitter : Option Splitter) (l : Listing ItemInfo)
      → let (e', outcome) = path_vault_items_list factory listing vault_addr e in
        let r = replica_of e' vault_id in
        resolve_vault_address e vault_addr ≡ got vault_id
        → e.config ≡ some cfg
        → cfg.serve_stale ≡ true
        → IsConsistent splitter r
        → IsNamed r.overview
        → split id ≡ id ∷ []
        → ServesHeld (open_replica e' vault_id) cfg at.clock vault_id id
        → outcome ≡ got l
        → (is_listed l id ≡ is_some (body r id))
          × ((item : Item)
              → body r id ≡ some item
              → (meta : ReadMeta) × ((path_item_read factory at vault_addr id e').1
                  ≡ item_served (add_read_meta (item_response_data item) meta) meta))
  unfolding path_vault_items_list body
  listed_items_are_read listing at vault_addr vault_id id e cfg splitter l resolved configured stale
        whole named plain serves listed =
      let (s, shown) = path_vault_items_list-done listing vault_addr vault_id e l resolved listed in
      let e' = (path_vault_items_list factory listing vault_addr e).0 in
      let r = replica_of e' vault_id in
      let address = resolve_vault_address-same factory e e' vault_addr s.directory s.allowlist in
      (
        rw shown (item_listing-is_listed r id named) ∙ whole.0.together id,
        λ item held.
            path_item_read-held at vault_addr vault_id id e' cfg item (address ∙ resolved)
              (s.config ∙ configured) stale plain (whole.0.together id ∙ ap is_some held) held
              serves,
      )

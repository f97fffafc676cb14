-- ===== src/Replica/Writes.antt =====
-- What a write or a delete through the engine leaves to be read.
use openbao_plugin_secrets_o.Prelude.{
  String, true, false, Option, none, some, ◌≡◌, str_eq, eq_iff, arith, if◌then◌else◌,
}
use openbao_plugin_secrets_o.Prelude.Table.{
  lookup, insert, delete, has, lookup-insert, lookup-delete,
}
use openbao_plugin_secrets_o.Onepassword.{Item}
use openbao_plugin_secrets_o.Config.{Splitter}
use openbao_plugin_secrets_o.Replica.{
  Replica, resolved, resolve_item_address, is_newer, apply_write, apply_delete, overview_of, body,
}
use openbao_plugin_secrets_o.Replica.Consistent.{rebuild_indexes_keeps}

pub apply_write-fields :
    (r : Replica) (item : Item) (splitter : Option Splitter)
    → is_newer (lookup item.id r.bodies) item.version ≡ false
    → ((apply_write r item splitter).overview ≡ insert item.id (overview_of item) r.overview)
      × ((apply_write r item splitter).bodies ≡ insert item.id item r.bodies)
      × ((apply_write r item splitter).tombstones ≡ delete item.id r.tombstones)
unfolding apply_write
apply_write-fields r item splitter h =
    let k = rebuild_indexes_keeps splitter (record r {
      tombstones = delete item.id r.tombstones;
      overview = insert item.id (overview_of item) r.overview;
      bodies = insert item.id item r.bodies;
    }) in
    rw h k

-- A write is read back at once: unless a newer version is held already, the body and the overview
-- of the item are those of the write, no other item changes, and the item is no longer dead; where
-- a newer version is held, nothing changes at all.
pub apply_write-reads :
    (r : Replica) (item : Item) (splitter : Option Splitter) (id : String)
    → let r' = apply_write r item splitter in
      let stale = is_newer (lookup item.id r.bodies) item.version in
      (stale ≡ true → r' ≡ r)
      × (stale ≡ false
          → (body r' id ≡ (if str_eq item.id id then some item else body r id))
            × (lookup id r'.overview
                ≡ (if str_eq item.id id then some (overview_of item) else lookup id r.overview))
            × (has item.id r'.tombstones ≡ false)
            × (resolve_item_address r' item.id ≡ resolved item.id))
unfolding body
apply_write-reads r item splitter id = (unchanged, written)
  where
    unchanged :
        is_newer (lookup item.id r.bodies) item.version ≡ true → apply_write r item splitter ≡ r
    unchanged h = unfold apply_write in rw h

    written :
        is_newer (lookup item.id r.bodies) item.version ≡ false
        → (lookup id (apply_write r item splitter).bodies
            ≡ (if str_eq item.id id then some item else lookup id r.bodies))
          × (lookup id (apply_write r item splitter).overview
              ≡ (if str_eq item.id id then some (overview_of item) else lookup id r.overview))
          × (has item.id (apply_write r item splitter).tombstones ≡ false)
          × (resolve_item_address (apply_write r item splitter) item.id ≡ resolved item.id)
    written h =
        let (o, b, t) = apply_write-fields r item splitter h in
        (
          rw b (lookup-insert item.id id item r.bodies),
          rw o (lookup-insert item.id id (overview_of item) r.overview),
          rw t (ground (arith, lookup-delete item.id item.id r.tombstones, eq_iff item.id item.id)),
          unfold resolve_item_address in
              rw o (
                ground (
                  arith,
                  lookup-insert item.id item.id (overview_of item) r.overview,
                  eq_iff item.id item.id,
                )),
        )

pub apply_delete-fields :
    (r : Replica) (item_id : String) (splitter : Option Splitter)
    → ((apply_delete r item_id splitter).overview ≡ delete item_id r.overview)
      × ((apply_delete r item_id splitter).bodies ≡ delete item_id r.bodies)
      × ((apply_delete r item_id splitter).tombstones ≡ insert item_id tt r.tombstones)
unfolding apply_delete
apply_delete-fields r item_id splitter = rebuild_indexes_keeps splitter (record r {
  overview = delete item_id r.overview;
  bodies = delete item_id r.bodies;
  tombstones = insert item_id tt r.tombstones;
})

-- After a delete the item has neither a body nor an overview, it is tombstoned, and no other item
-- has changed.
pub apply_delete-reads :
    (r : Replica) (item_id : String) (splitter : Option Splitter) (id : String)
    → let r' = apply_delete r item_id splitter in
      (body r' id ≡ (if str_eq item_id id then none else body r id))
      × (lookup id r'.overview ≡ (if str_eq item_id id then none else lookup id r.overview))
      × (has item_id r'.tombstones ≡ true)
unfolding body
apply_delete-reads r item_id splitter id =
    let (o, b, t) = apply_delete-fields r item_id splitter in
    (
      rw b (lookup-delete item_id id r.bodies),
      rw o (lookup-delete item_id id r.overview),
      rw t (
          ground
            (arith, lookup-insert item_id item_id (tt {0}) r.tombstones, eq_iff item_id item_id)),
    )

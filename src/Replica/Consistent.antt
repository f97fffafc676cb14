-- ===== src/Replica/Consistent.antt =====
-- The invariant of a replica: the overview and the bodies cover the same items, no deleted item is
-- among them, and the indexes are those of the overview.
use openbao_plugin_secrets_o.Prelude.{
  String, true, false, Option, none, some, ◌≡◌, refl, arith, Bool-cases, inl, inr,
}
use openbao_plugin_secrets_o.Prelude.Table.{
  Table, lookup, insert, delete, has, Distinct, lookup-insert, lookup-delete, insert-Distinct,
  delete-Distinct,
}
use openbao_plugin_secrets_o.Onepassword.{ItemOverview, Item}
use openbao_plugin_secrets_o.Config.{Splitter}
use openbao_plugin_secrets_o.Replica.{
  Replica, new_replica, strings_at, rebuild_indexes, overview_of, is_newer, apply_write,
  apply_delete,
}
use openbao_plugin_secrets_o.Replica.Index.{
  ids_where, has_title, has_split_key, sole, rebuild_indexes-titles, rebuild_indexes-split_paths,
}

-- The item that a split path leads to.
abbrev pub sole_at : Option Splitter → String → Table ItemOverview → Option String
sole_at none key m = none
sole_at (some splitter) key m = sole (ids_where (has_split_key splitter key) m)

pub record IsWhole (r : Replica) : Type 0 where
  pub distinct : Distinct r.overview
  pub distinct_bodies : Distinct r.bodies
  pub together : (id : String) → has id r.overview ≡ has id r.bodies
  pub dead : (id : String) → has id r.tombstones ≡ true → has id r.overview ≡ false

pub record IsIndexed (splitter : Option Splitter) (r : Replica) : Type 0 where
  pub titled :
      (title : String) → strings_at (lookup title r.titles) ≡ ids_where (has_title title) r.overview
  pub split : (key : String) → lookup key r.split_paths ≡ sole_at splitter key r.overview

abbrev pub IsConsistent : Option Splitter → Replica → Type 0
IsConsistent splitter r = IsWhole r × IsIndexed splitter r

pub rebuild_indexes_keeps :
    (splitter : Option Splitter) (r : Replica)
    → ((rebuild_indexes splitter r).overview ≡ r.overview)
      × ((rebuild_indexes splitter r).bodies ≡ r.bodies)
      × ((rebuild_indexes splitter r).tombstones ≡ r.tombstones)
unfolding rebuild_indexes
rebuild_indexes_keeps none r = (refl, refl, refl)
rebuild_indexes_keeps (some splitter) r = (refl, refl, refl)

-- A rebuild changes nothing but the indexes, and makes them those of the overview.
pub rebuild_indexes-IsConsistent :
    (splitter : Option Splitter) (r : Replica)
    → IsWhole r
    → IsConsistent splitter (rebuild_indexes splitter r)
unfolding rebuild_indexes
rebuild_indexes-IsConsistent none r w = (
  record {
    distinct = w.distinct;
    distinct_bodies = w.distinct_bodies;
    together = w.together;
    dead = w.dead;
  },
  record { titled = rebuild_indexes-titles none r; split = λ key. unfold lookup in refl },
)
rebuild_indexes-IsConsistent (some splitter) r w = (
  record {
    distinct = w.distinct;
    distinct_bodies = w.distinct_bodies;
    together = w.together;
    dead = w.dead;
  },
  record {
    titled = rebuild_indexes-titles (some splitter) r;
    split = λ key. (rebuild_indexes-split_paths splitter r key w.distinct).0;
  },
)

pub new_replica-IsConsistent :
    (splitter : Option Splitter) (vault_id : String) → IsConsistent splitter (new_replica vault_id)
unfolding new_replica lookup ids_where
new_replica-IsConsistent none vault_id = (
  record { distinct = tt; distinct_bodies = tt; together = λ id. refl; dead = λ id h. refl },
  record { titled = λ title. refl; split = λ key. refl },
)
new_replica-IsConsistent (some splitter) vault_id = (
  record { distinct = tt; distinct_bodies = tt; together = λ id. refl; dead = λ id h. refl },
  record { titled = λ title. refl; split = λ key. refl },
)

-- Only these fields matter for the invariant.
pub IsConsistent-same :
    (splitter : Option Splitter) (r s : Replica)
    → s.overview ≡ r.overview
    → s.bodies ≡ r.bodies
    → s.tombstones ≡ r.tombstones
    → s.titles ≡ r.titles
    → s.split_paths ≡ r.split_paths
    → IsConsistent splitter r
    → IsConsistent splitter s
IsConsistent-same splitter r s o b t i p c = (
  record {
    distinct = rw o c.0.distinct;
    distinct_bodies = rw b c.0.distinct_bodies;
    together = rw (o, b) c.0.together;
    dead = rw (t, o) c.0.dead;
  },
  record { titled = rw (i, o) c.1.titled; split = rw (p, o) c.1.split },
)

IsWhole-written :
    (r : Replica) (item : Item)
    → IsWhole r
    → IsWhole (record r {
      tombstones = delete item.id r.tombstones;
      overview = insert item.id (overview_of item) r.overview;
      bodies = insert item.id item r.bodies;
    })
IsWhole-written r item w = record {
  distinct = insert-Distinct item.id (overview_of item) r.overview w.distinct;
  distinct_bodies = insert-Distinct item.id item r.bodies w.distinct_bodies;
  together = λ id. ground (
    arith,
    lookup-insert item.id id (overview_of item) r.overview,
    lookup-insert item.id id item r.bodies,
    w.together id,
  );
  dead = λ id h. ground (
    arith,
    lookup-insert item.id id (overview_of item) r.overview,
    lookup-delete item.id id r.tombstones,
    w.dead id,
  );
}

IsWhole-deleted :
    (r : Replica) (item_id : String)
    → IsWhole r
    → IsWhole (record r {
      overview = delete item_id r.overview;
      bodies = delete item_id r.bodies;
      tombstones = insert item_id tt r.tombstones;
    })
IsWhole-deleted r item_id w = record {
  distinct = delete-Distinct item_id r.overview w.distinct;
  distinct_bodies = delete-Distinct item_id r.bodies w.distinct_bodies;
  together = λ id. ground (
    arith,
    lookup-delete item_id id r.overview,
    lookup-delete item_id id r.bodies,
    w.together id,
  );
  dead = λ id h. ground (
    arith,
    lookup-delete item_id id r.overview,
    lookup-insert item_id id (tt {0}) r.tombstones,
    w.dead id,
  );
}

-- A write that is taken, and a delete, rebuild the indexes, whatever these were.
pub apply_write-indexed :
    (splitter : Option Splitter) (r : Replica) (item : Item)
    → is_newer (lookup item.id r.bodies) item.version ≡ false
    → IsWhole r
    → IsConsistent splitter (apply_write r item splitter)
unfolding apply_write
apply_write-indexed splitter r item older w = rw older (
    IsConsistent-same splitter (rebuild_indexes splitter _) _ refl refl refl refl refl
      (rebuild_indexes-IsConsistent splitter _ (IsWhole-written r item w)))

pub apply_delete-indexed :
    (splitter : Option Splitter) (r : Replica) (item_id : String)
    → IsWhole r
    → IsConsistent splitter (apply_delete r item_id splitter)
unfolding apply_delete
apply_delete-indexed splitter r item_id w =
    rebuild_indexes-IsConsistent splitter _ (IsWhole-deleted r item_id w)

-- A write through the engine keeps the replica consistent.
pub apply_write-IsConsistent :
    (splitter : Option Splitter) (r : Replica) (item : Item)
    → IsConsistent splitter r
    → IsConsistent splitter (apply_write r item splitter)
unfolding apply_write
apply_write-IsConsistent splitter r item c =
    elim (Bool-cases (is_newer (lookup item.id r.bodies) item.version)) [
      | inl newer ↦ rw newer c
      | inr older ↦ apply_write-indexed splitter r item older c.0
    ]

-- A delete through the engine keeps the replica consistent.
pub apply_delete-IsConsistent :
    (splitter : Option Splitter) (r : Replica) (item_id : String)
    → IsConsistent splitter r
    → IsConsistent splitter (apply_delete r item_id splitter)
apply_delete-IsConsistent splitter r item_id c = apply_delete-indexed splitter r item_id c.0

-- ===== src/Cycle/Interleave.antt =====
-- A replica under every interleaving: what reads, writes, deletes, invalidations and the parts of
-- cycles do to it, in any order. `doCycle` gives up the mutex between its parts, so a cycle is here
-- what its last part does, with a listing, a diff and results that may be of any age. The pattern
-- of path_split is the same throughout.
use openbao_plugin_secrets_o.Prelude.{
  ℕ, String, Option, some, List, ◌≡◌, refl, inl, inr, Option-cases, Bool-cases,
}
use openbao_plugin_secrets_o.Prelude.Int.{ℤ}
use openbao_plugin_secrets_o.Prelude.Time.{elapsed}
use openbao_plugin_secrets_o.Prelude.Table.{Table, lookup}
use openbao_plugin_secrets_o.Onepassword.{ItemOverview, Item, ItemResult}
use openbao_plugin_secrets_o.Config.{Splitter}
use openbao_plugin_secrets_o.Replica.{
  Replica, new_replica, apply_write, apply_delete, invalidate, negative_cache_hit,
  negative_cache_store, clear_negative_cache, resolved, body, is_newer,
}
use openbao_plugin_secrets_o.Replica.Consistent.{
  IsConsistent, IsConsistent-same, new_replica-IsConsistent, apply_write-IsConsistent,
  apply_delete-IsConsistent, apply_write-indexed, apply_delete-indexed,
}
use openbao_plugin_secrets_o.Address.{resolve_item_from_segments}
use openbao_plugin_secrets_o.Address.Found.{resolve_item_from_segments-body}
use openbao_plugin_secrets_o.Cycle.{apply_cycle, count_failure}
use openbao_plugin_secrets_o.Cycle.Apply.{apply_cycle-IsConsistent}

-- One step of a replica, from the one before to the one after.
pub data Step (splitter : Option Splitter) : Replica → Replica → Type 0 where
  writes : (r : Replica) (item : Item) → Step splitter r (apply_write r item splitter)
  deletes : (r : Replica) (id : String) → Step splitter r (apply_delete r id splitter)
  cycles :
      (r : Replica) (listed : Table ItemOverview) (removed : List String)
      (results : List ItemResult) (now : ℕ)
      → Step splitter r (apply_cycle listed removed results splitter now r)
  fails : (r : Replica) → Step splitter r (count_failure r)
  invalidates : (r : Replica) (now : ℕ) → Step splitter r (invalidate r now)
  clears : (r : Replica) → Step splitter r (clear_negative_cache r)
  looks :
      (r : Replica) (key : String) (ttl : ℤ) (now : ℕ)
      → Step splitter r (negative_cache_hit r key ttl now).0
  remembers :
      (r : Replica) (key : String) (now : ℕ) → Step splitter r (negative_cache_store r key now)

-- The replicas that a new one can become.
pub data Reachable (splitter : Option Splitter) (vault_id : String) : Replica → Type 0 where
  start : Reachable splitter vault_id (new_replica vault_id)
  next :
      {r s : Replica}
      → Reachable splitter vault_id r
      → Step splitter r s
      → Reachable splitter vault_id s

negative_cache_hit-IsConsistent :
    (splitter : Option Splitter) (r : Replica) (key : String) (ttl : ℤ) (now : ℕ)
    → IsConsistent splitter r
    → IsConsistent splitter (negative_cache_hit r key ttl now).0
unfolding negative_cache_hit
negative_cache_hit-IsConsistent splitter r key ttl now c =
    elim (Option-cases (lookup key r.negative_cache)) [
      | inl missing ↦ rw (negative_cache_hit, missing) c
      | inr (t, seen) ↦ elim (Bool-cases (elapsed now t ttl)) [
        | inl old ↦
            rw (negative_cache_hit, seen, old)
              (IsConsistent-same splitter r _ refl refl refl refl refl c)
        | inr young ↦ rw (negative_cache_hit, seen, young) c
      ]
    ]

pub Step-IsConsistent :
    (splitter : Option Splitter) {r s : Replica}
    → Step splitter r s
    → IsConsistent splitter r
    → IsConsistent splitter s
unfolding invalidate clear_negative_cache negative_cache_store count_failure
Step-IsConsistent splitter (writes r item) c = apply_write-IsConsistent splitter r item c
Step-IsConsistent splitter (deletes r id) c = apply_delete-IsConsistent splitter r id c
Step-IsConsistent splitter (cycles r listed removed results now) c =
    apply_cycle-IsConsistent listed removed results splitter now r c.0
Step-IsConsistent splitter (fails r) c = IsConsistent-same splitter r _ refl refl refl refl refl c
Step-IsConsistent splitter (invalidates r now) c =
    IsConsistent-same splitter r _ refl refl refl refl refl c
Step-IsConsistent splitter (clears r) c = IsConsistent-same splitter r _ refl refl refl refl refl c
Step-IsConsistent splitter (looks r key ttl now) c =
    negative_cache_hit-IsConsistent splitter r key ttl now c
Step-IsConsistent splitter (remembers r key now) c =
    IsConsistent-same splitter r _ refl refl refl refl refl c

-- Some pattern of `path_split` that the replica's indexes are those of.
abbrev pub IsIndexedBySome : Replica → Type 0
IsIndexedBySome r = (splitter : Option Splitter) × IsConsistent splitter r

-- A step may come with another pattern than the one that the replica was indexed with.
pub Step-IsIndexedBySome :
    (splitter : Option Splitter) {r s : Replica}
    → Step splitter r s
    → IsIndexedBySome r
    → IsIndexedBySome s
unfolding apply_write
Step-IsIndexedBySome splitter (writes r item) (old, c) =
    elim (Bool-cases (is_newer (lookup item.id r.bodies) item.version)) [
      | inl newer ↦ (old, rw (apply_write, newer) c)
      | inr older ↦ (splitter, apply_write-indexed splitter r item older c.0)
    ]
Step-IsIndexedBySome splitter (deletes r id) (old, c) =
    (splitter, apply_delete-indexed splitter r id c.0)
Step-IsIndexedBySome splitter (cycles r listed removed results now) (old, c) =
    (splitter, apply_cycle-IsConsistent listed removed results splitter now r c.0)
Step-IsIndexedBySome splitter (fails r) (old, c) = (old, Step-IsConsistent old (fails r) c)
Step-IsIndexedBySome splitter (invalidates r now) (old, c) =
    (old, Step-IsConsistent old (invalidates r now) c)
Step-IsIndexedBySome splitter (clears r) (old, c) = (old, Step-IsConsistent old (clears r) c)
Step-IsIndexedBySome splitter (looks r key ttl now) (old, c) =
    (old, Step-IsConsistent old (looks r key ttl now) c)
Step-IsIndexedBySome splitter (remembers r key now) (old, c) =
    (old, Step-IsConsistent old (remembers r key now) c)

-- However writes, deletes, cycles of any age, invalidations and reads come upon a replica, it is
-- consistent, and whatever path of an item it resolves, it holds the item's body.
pub Reachable-IsConsistent :
    (splitter : Option Splitter) (vault_id : String) (r : Replica)
    → Reachable splitter vault_id r
    → IsConsistent splitter r
      × ((segs : List String) (id : String)
          → resolve_item_from_segments r segs ≡ resolved id
          → (item : Item) × (body r id ≡ some item))
Reachable-IsConsistent splitter vault_id r reached = (
  consistent reached,
  λ segs id. resolve_item_from_segments-body splitter r segs id (consistent reached),
)
  where
    consistent : {s : Replica} → Reachable splitter vault_id s → IsConsistent splitter s
    consistent start = new_replica-IsConsistent splitter vault_id
    consistent (next before step) = Step-IsConsistent splitter step (consistent before)

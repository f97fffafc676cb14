-- ===== src/Replica.antt =====
-- backend/replica.go: the in-memory copy of one vault. Each method holds the mutex, so it is one
-- step; a method that changes the replica returns the new one. An error message is data here: the
-- candidates of an ambiguous title, or the colliding split paths with their titles.
mod Tests
pub mod Index
pub mod Consistent
pub mod Resolve
pub mod Writes
pub mod Misses
use openbao_plugin_secrets_o.Prelude.{
  ℕ, zero, suc, ◌+◌, String, Bool, true, false, Option, none, some, List, [], ◌∷◌, ◌++◌, map,
  length, take, drop, ltb, str_eq, if◌then◌else◌,
}
use openbao_plugin_secrets_o.Prelude.Int.{ℤ}
use openbao_plugin_secrets_o.Prelude.Time.{zero_time, elapsed}
use openbao_plugin_secrets_o.Prelude.Table.{Table, lookup, insert, delete, has, keys}
use openbao_plugin_secrets_o.Prelude.Text.{join}
use openbao_plugin_secrets_o.Prelude.Sort.{sort_strings}
use openbao_plugin_secrets_o.Onepassword.{ItemState, active, archived, ItemOverview, Item}
use openbao_plugin_secrets_o.Config.{Splitter}

pub data AddressError : Type 0 where
  not_found : AddressError
  ambiguous_title : String → List String → AddressError

pub data Address : Type 0 where
  resolved : String → Address
  unresolved : AddressError → Address

pub record Replica : Type 0 where
  pub vault_id : String
  pub overview : Table ItemOverview
  pub titles : Table (List String)
  pub bodies : Table Item
  pub split_paths : Table String
  pub split_collision : List (String × List String)
  pub tombstones : Table (Unit {0})
  pub negative_cache : Table ℕ
  pub last_cycle : ℕ
  pub stale_suspect : Bool
  pub invalidated_at : ℕ
  pub consecutive_failures : ℕ

unfoldable pub new_replica : String → Replica
new_replica vault_id = record {
  vault_id = vault_id;
  overview = [];
  titles = [];
  bodies = [];
  split_paths = [];
  split_collision = [];
  tombstones = [];
  negative_cache = [];
  last_cycle = zero_time;
  stale_suspect = false;
  invalidated_at = zero_time;
  consecutive_failures = 0;
}

-- The negative cache.
unfoldable pub negative_cache_hit : Replica → String → ℤ → ℕ → Replica × Bool
negative_cache_hit r key ttl now = elim (lookup key r.negative_cache) [
  | none ↦ (r, false)
  | some t ↦
      if elapsed now t ttl
      then (record r { negative_cache = delete key r.negative_cache }, false)
      else (r, true)
]

unfoldable pub negative_cache_store : Replica → String → ℕ → Replica
negative_cache_store r key now = record r { negative_cache = insert key now r.negative_cache }

unfoldable pub clear_negative_cache : Replica → Replica
clear_negative_cache r = record r { negative_cache = [] }

-- Addressing.
abbrev pub strings_at : Option (List String) → List String
strings_at none = []
strings_at (some ids) = ids

abbrev pub of_candidates : String → List String → Address
of_candidates title [] = unresolved not_found
of_candidates title (id ∷ []) = resolved id
of_candidates title (id ∷ id' ∷ ids) =
    unresolved (ambiguous_title title (sort_strings (id ∷ id' ∷ ids)))

unfoldable pub resolve_title : Replica → String → Address
resolve_title r title = of_candidates title (strings_at (lookup title r.titles))

unfoldable pub resolve_item_address : Replica → String → Address
unfolding resolve_title
resolve_item_address r addr = if has addr r.overview then resolved addr else resolve_title r addr

-- The loop from the longest prefix down; what it finds is the item and the segments left over.
unfoldable pub split_path_loop : Table String → List String → ℕ → Option (String × List String)
split_path_loop paths segs zero = none
split_path_loop paths segs (suc n) =
    let shorter = split_path_loop paths segs n in
    elim (lookup (join (take (suc n) segs)) paths) [
      | some id ↦ some (id, drop (suc n) segs)
      | none ↦ shorter
    ]

unfoldable pub resolve_split_path : Replica → List String → Option (String × List String)
unfolding split_path_loop
resolve_split_path r segs = split_path_loop r.split_paths segs (length segs)

-- Readers.
abbrev pub title_of : Option ItemOverview → String
title_of none = ""
title_of (some ov) = ov.title

unfoldable pub overview_title : Replica → String → String
overview_title r item_id = title_of (lookup item_id r.overview)

unfoldable pub overview_list : Replica → List ItemOverview
overview_list r = map (λ e. e.1) r.overview

unfoldable pub body : Replica → String → Option Item
body r item_id = lookup item_id r.bodies

abbrev pub updated_at_of : Option ItemOverview → ℕ
updated_at_of none = zero_time
updated_at_of (some ov) = ov.updated_at

unfoldable pub overview_updated_at : Replica → String → ℕ
overview_updated_at r item_id = updated_at_of (lookup item_id r.overview)

unfoldable pub freshness_snapshot : Replica → ℕ × Bool × ℕ
freshness_snapshot r = (r.last_cycle, r.stale_suspect, r.invalidated_at)

unfoldable pub invalidate : Replica → ℕ → Replica
unfolding clear_negative_cache
invalidate r now =
    clear_negative_cache
      (record r { last_cycle = zero_time; stale_suspect = true; invalidated_at = now })

unfoldable pub item_count : Replica → ℕ
item_count r = length r.overview

unfoldable pub consecutive_failure_count : Replica → ℕ
consecutive_failure_count r = r.consecutive_failures

-- The indexes. `titles[k] = append(titles[k], s)`:
unfoldable pub append_at : String → String → Table (List String) → Table (List String)
append_at k s m = insert k (strings_at (lookup k m) ++ s ∷ []) m

unfoldable pub index_titles : Table ItemOverview → Table (List String) → Table (List String)
unfolding append_at
index_titles [] titles = titles
index_titles ((id, ov) ∷ rest) titles = index_titles rest (append_at ov.title id titles)

-- The three maps of the split-path loop.
pub record SplitIndex : Type 0 where
  pub paths : Table String
  pub poisoned : Table (Unit {0})
  pub titles_at_key : Table (List String)

unfoldable pub no_splits : SplitIndex
no_splits = record { paths = []; poisoned = []; titles_at_key = [] }

-- What a round does with its key: given up already, free, or taken; a key that is taken by another
-- item is given up for both.
abbrev pub settle : Bool → Option String → String → String → SplitIndex → SplitIndex
settle true found key id s = s
settle false none key id s = record s { paths = insert key id s.paths }
settle false (some existing) key id s =
    if str_eq existing id
    then record s { paths = insert key id s.paths }
    else record s { poisoned = insert key tt s.poisoned; paths = delete key s.paths }

unfoldable pub split_round : String → String → String → SplitIndex → SplitIndex
unfolding append_at
split_round key id title s =
    settle (has key s.poisoned) (lookup key s.paths) key id
      (record s { titles_at_key = append_at key title s.titles_at_key })

abbrev pub split_key : Splitter → ItemOverview → String
split_key splitter ov = join (splitter ov.title)

unfoldable pub index_splits : Splitter → Table ItemOverview → SplitIndex → SplitIndex
unfolding split_round
index_splits splitter [] s = s
index_splits splitter ((id, ov) ∷ rest) s =
    index_splits splitter rest (split_round (split_key splitter ov) id ov.title s)

abbrev pub collisions : SplitIndex → List (String × List String)
collisions s = map (λ e. (e.0, strings_at (lookup e.0 s.titles_at_key))) s.poisoned

unfoldable pub rebuild_indexes : Option Splitter → Replica → Replica
unfolding index_titles index_splits no_splits
rebuild_indexes none r = record r {
  titles = index_titles r.overview [];
  split_paths = [];
  split_collision = [];
}
rebuild_indexes (some splitter) r =
    let s = index_splits splitter r.overview no_splits in
    record r {
      titles = index_titles r.overview [];
      split_paths = s.paths;
      split_collision = collisions s;
    }

-- Writes and deletes that went through the engine.
unfoldable pub overview_of : Item → ItemOverview
overview_of item = record {
  id = item.id;
  title = item.title;
  category = item.category;
  vault_id = item.vault_id;
  websites = item.websites;
  tags = item.tags;
  created_at = item.created_at;
  updated_at = item.updated_at;
  state = active;
}

-- Whether a body is held at a version above the given one.
abbrev pub is_newer : Option Item → ℕ → Bool
is_newer none version = false
is_newer (some cur) version = ltb version cur.version

unfoldable pub apply_write : Replica → Item → Option Splitter → Replica
unfolding rebuild_indexes overview_of
apply_write r item splitter =
    if is_newer (lookup item.id r.bodies) item.version
    then r
    else record (rebuild_indexes splitter (record r {
      tombstones = delete item.id r.tombstones;
      overview = insert item.id (overview_of item) r.overview;
      bodies = insert item.id item r.bodies;
    })) { negative_cache = [] }

unfoldable pub apply_delete : Replica → String → Option Splitter → Replica
unfolding rebuild_indexes
apply_delete r item_id splitter = rebuild_indexes splitter (record r {
  overview = delete item_id r.overview;
  bodies = delete item_id r.bodies;
  tombstones = insert item_id tt r.tombstones;
})

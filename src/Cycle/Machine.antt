-- ===== src/Cycle/Machine.antt =====
-- backend/cycle.go doCycle as it runs against the other users of a replica: the mutex is given up
-- while ListItems and GetItems are under way, so a cycle is a machine of three parts, and writes,
-- deletes, invalidations and reads may come between them. runCycle lets one cycle run at a time.
use openbao_plugin_secrets_o.Prelude.{ℕ, String, Option, List, [], ◌≡◌, ◌≢◌, false}
use openbao_plugin_secrets_o.Prelude.Int.{ℤ}
use openbao_plugin_secrets_o.Prelude.Table.{Table, has}
use openbao_plugin_secrets_o.Onepassword.{ItemOverview, Item, ItemResult}
use openbao_plugin_secrets_o.Config.{Splitter}
use openbao_plugin_secrets_o.Replica.{
  Replica, apply_write, apply_delete, invalidate, negative_cache_hit, negative_cache_store,
  clear_negative_cache,
}
use openbao_plugin_secrets_o.Cycle.Sync.{result_ids}
use openbao_plugin_secrets_o.Cycle.{index_active, to_fetch, to_remove, apply_cycle, count_failure}

-- How far the cycle is: ListItems has been answered, or the diff has been taken.
pub data Phase : Type 0 where
  idle : Phase
  listed : Table ItemOverview → Phase
  fetching : Table ItemOverview → List String → List String → Phase

pub data Machine : Type 0 where
  at : Replica → Phase → Machine

-- What the requests do to a replica.
pub data Touch (splitter : Option Splitter) : Replica → Replica → Type 0 where
  writes : (r : Replica) (item : Item) → Touch splitter r (apply_write r item splitter)
  deletes : (r : Replica) (id : String) → Touch splitter r (apply_delete r id splitter)
  invalidates : (r : Replica) (now : ℕ) → Touch splitter r (invalidate r now)
  clears : (r : Replica) → Touch splitter r (clear_negative_cache r)
  looks :
      (r : Replica) (key : String) (ttl : ℤ) (now : ℕ)
      → Touch splitter r (negative_cache_hit r key ttl now).0
  remembers :
      (r : Replica) (key : String) (now : ℕ) → Touch splitter r (negative_cache_store r key now)

-- The parts of a cycle; the diff is taken of the replica as it is by then. GetItems answers for the
-- IDs that it is asked for.
pub data Move (splitter : Option Splitter) : Machine → Machine → Type 0 where
  touch : {r s : Replica} {p : Phase} → Touch splitter r s → Move splitter (at r p) (at s p)
  list :
      (r : Replica) (ovs : List ItemOverview)
      → Move splitter (at r idle) (at r (listed (index_active ovs [])))
  list_fails : (r : Replica) → Move splitter (at r idle) (at (count_failure r) idle)
  diff :
      (r : Replica) (l : Table ItemOverview)
      → Move splitter
          (at r (listed l))
          (at r (fetching l (to_fetch r.overview l) (to_remove r.overview l)))
  get_fails :
      (r : Replica) (l : Table ItemOverview) (fetch removed : List String)
      → Move splitter (at r (fetching l fetch removed)) (at (count_failure r) idle)
  apply :
      (r : Replica) (l : Table ItemOverview) (fetch removed : List String)
      (results : List ItemResult) (now : ℕ)
      → result_ids results ≡ fetch
      → Move splitter
          (at r (fetching l fetch removed))
          (at (apply_cycle l removed results splitter now r) idle)

-- The runs; each move comes with the pattern of `path_split` that is set by then.
pub data Run (m : Machine) : Machine → Type 0 where
  start : Run m m
  next : {n o : Machine} (splitter : Option Splitter) → Run m n → Move splitter n o → Run m o

-- A move that does not bring an item back: it does not write it, and no listing has it.
abbrev pub Spares :
    (splitter : Option Splitter) (id : String) {m n : Machine} → Move splitter m n → Type 0
Spares splitter id (touch (writes r item)) = item.id ≢ id
Spares splitter id (list r ovs) = has id (index_active ovs []) ≡ false
Spares splitter id _ = Unit {0}

-- The runs of such moves.
pub data Sparing (id : String) (m : Machine) : Machine → Type 0 where
  start : Sparing id m m
  next :
      {n o : Machine} (splitter : Option Splitter) (before : Sparing id m n)
      (move : Move splitter n o)
      → Spares splitter id move
      → Sparing id m o

-- ===== src/Cycle.antt =====
-- backend/cycle.go: the delta cycle of one vault. `doCycle` gives up the replica's mutex between
-- its parts, so the parts are functions of their own: the diff, and the application of what was
-- fetched to the replica as it is by then. `do_cycle` is the run in which nothing comes between.
-- A nil dereference cannot happen: a result without an error carries an item (Onepassword.antt).
pub mod Diff
pub mod Apply
pub mod Races
pub mod Sync
pub mod Spend
pub mod Flight
pub mod Interleave
pub mod Machine
pub mod Deleted
pub mod Runs
pub mod Mirror
pub mod Tests
mod Examples
use openbao_plugin_secrets_o.Prelude.{
  ℕ, zero, suc, ◌+◌, String, Bool, true, false, not, ◌||◌, ◌==◌, Option, none, some, List, [], ◌∷◌,
  ◌++◌, map, length, str_eq, if◌then◌else◌,
}
use openbao_plugin_secrets_o.Prelude.Time.{zero_time}
use openbao_plugin_secrets_o.Prelude.Table.{Table, lookup, insert, delete, has}
use openbao_plugin_secrets_o.Onepassword.{
  ItemState, active, archived, ItemOverview, Item, SdkError, Result, ok, err, Fetch, fetched,
  failed, ItemResult,
}
use openbao_plugin_secrets_o.Client.{OpClient, chunk_ids, max_get_all_ids}
use openbao_plugin_secrets_o.Config.{Splitter}
use openbao_plugin_secrets_o.Governor
use openbao_plugin_secrets_o.Governor.{Governor, WorkClass}
use openbao_plugin_secrets_o.Replica.{Replica, rebuild_indexes, is_newer}

-- `requestGate`: what a cycle asks of the governor. `G` is the gate's state.
pub record RequestGate (G : Type 0) : Type 0 where
  pub allow : G → ℕ → String → WorkClass → G × Bool
  pub record_request : G → ℕ → String → ℕ → Option SdkError → G
  pub record_success : G → String → G

abbrev pub governor_gate : RequestGate Governor
governor_gate = record {
  allow = Governor.allow;
  record_request = Governor.record_request;
  record_success = Governor.record_success;
}

abbrev pub allow_all_gate : RequestGate (Unit {0})
allow_all_gate = record {
  allow = λ g now vault_id class. (g, true);
  record_request = λ g now vault_id units e. g;
  record_success = λ g vault_id. g;
}

pub data CycleError : Type 0 where
  gate_denied : CycleError
  list_items_failed : String → SdkError → CycleError
  get_items_failed : String → SdkError → CycleError

abbrev pub is_active : ItemState → Bool
is_active active = true
is_active archived = false

-- The loop that keeps the active overviews; a later one with the same ID takes the place.
unfoldable pub index_active : List ItemOverview → Table ItemOverview → Table ItemOverview
index_active [] m = m
index_active (ov ∷ ovs) m = index_active ovs (if is_active ov.state then insert ov.id ov m else m)

-- Whether an item is new, or its UpdatedAt differs from the one known.
abbrev pub is_changed : Option ItemOverview → ItemOverview → Bool
is_changed none ov = true
is_changed (some old) ov = not (old.updated_at == ov.updated_at)

unfoldable pub to_fetch : Table ItemOverview → Table ItemOverview → List String
to_fetch known [] = []
to_fetch known ((id, ov) ∷ m) =
    let rest = to_fetch known m in if is_changed (lookup id known) ov then id ∷ rest else rest

unfoldable pub to_remove : Table ItemOverview → Table ItemOverview → List String
to_remove [] listed = []
to_remove ((id, ov) ∷ m) listed =
    let rest = to_remove m listed in if has id listed then rest else id ∷ rest

unfoldable pub remove_all : List String → Replica → Replica
remove_all [] r = r
remove_all (id ∷ ids) r =
    remove_all ids (record r { overview = delete id r.overview; bodies = delete id r.bodies })

-- Tombstones outlive the cycle only for items that are still listed.
unfoldable pub keep_listed : Table (Unit {0}) → Table ItemOverview → Table (Unit {0})
keep_listed [] listed = []
keep_listed ((id, t) ∷ m) listed =
    let rest = keep_listed m listed in if has id listed then (id, t) ∷ rest else rest

-- `active[id]`: the zero overview where the ID is not listed.
abbrev pub overview_or_zero : Option ItemOverview → ItemOverview
overview_or_zero (some ov) = ov
overview_or_zero none = record {
  id = "";
  title = "";
  category = "";
  vault_id = "";
  websites = [];
  tags = [];
  created_at = zero_time;
  updated_at = zero_time;
  state = archived;
}

-- One fetched item: not over a tombstone, nor over a newer version.
unfoldable pub absorb : Table ItemOverview → String → Fetch → Replica → Replica
absorb listed id (failed e) r = r
absorb listed id (fetched item) r =
    if has id r.tombstones
    then r
    else (if is_newer (lookup id r.bodies) item.version then r else record r {
      overview = insert id (overview_or_zero (lookup id listed)) r.overview;
      bodies = insert id item r.bodies;
    })

unfoldable pub absorb_all : Table ItemOverview → List ItemResult → Replica → Replica
absorb_all listed [] r = r
absorb_all listed (res ∷ results) r = absorb_all listed results (absorb listed res.id res.fetch r)

-- The part under the mutex at the end.
unfoldable pub apply_cycle :
    Table ItemOverview → List String → List ItemResult → Option Splitter → ℕ → Replica → Replica
apply_cycle listed removed results splitter now r =
    let r₁ = remove_all removed r in
    let r₂ = record r₁ { tombstones = keep_listed r₁.tombstones listed } in
    record (rebuild_indexes splitter (absorb_all listed results r₂)) {
      negative_cache = [];
      last_cycle = now;
      stale_suspect = false;
      invalidated_at = zero_time;
      consecutive_failures = 0;
    }

unfoldable pub count_failure : Replica → Replica
count_failure r = record r { consecutive_failures = r.consecutive_failures + 1 }

-- When the parts of a cycle read the clock.
pub record Moments : Type 0 where
  pub asked : ℕ
  pub listed : ℕ
  pub got : ℕ
  pub done : ℕ

-- The replica, the gate and the other side.
pub record World (G W : Type 0) : Type 0 where
  pub replica : Replica
  pub gate : G
  pub remote : W

module _ {G W : Type 0} (gate : RequestGate G) (client : OpClient W) where
  -- From the answer to GetItems on.
  unfoldable pub after_get :
      Option Splitter
      → Moments
      → Table ItemOverview
      → List String
      → List String
      → Result (List ItemResult)
      → World G W
      → World G W × Option CycleError
  after_get splitter at listed fetch removed result s =
      let vault_id = s.replica.vault_id in
      let units = length (chunk_ids fetch max_get_all_ids) in
      elim result [
        | err e ↦ (
          record s {
            gate = gate.record_request s.gate at.got vault_id units (some e);
            replica = count_failure s.replica;
          },
          some (get_items_failed vault_id e),
        )
        | ok results ↦ (
          record s {
            gate =
                gate.record_success (gate.record_request s.gate at.got vault_id units none)
                  vault_id;
            replica = apply_cycle listed removed results splitter at.done s.replica;
          },
          none,
        )
      ]

  -- From the answer to ListItems on.
  unfoldable pub after_list :
      Option Splitter
      → Moments
      → Result (List ItemOverview)
      → World G W
      → World G W × Option CycleError
  after_list splitter at result s =
      let vault_id = s.replica.vault_id in
      elim result [
        | err e ↦ (
          record s {
            gate = gate.record_request s.gate at.listed vault_id 1 (some e);
            replica = count_failure s.replica;
          },
          some (list_items_failed vault_id e),
        )
        | ok overviews ↦
            let listed = index_active overviews [] in
            let fetch = to_fetch s.replica.overview listed in
            let removed = to_remove s.replica.overview listed in
            let (results, w) = client.get_items vault_id fetch s.remote in
            after_get splitter at listed fetch removed results
              (record s { gate = gate.record_request s.gate at.listed vault_id 1 none; remote = w })
      ]

  unfoldable pub do_cycle :
      Option Splitter → WorkClass → Moments → World G W → World G W × Option CycleError
  do_cycle splitter class at s =
      let (g, allowed) = gate.allow s.gate at.asked s.replica.vault_id class in
      if not allowed
      then (record s { gate = g }, some gate_denied)
      else let (overviews, w) = client.list_items s.replica.vault_id s.remote in
        after_list splitter at overviews (record s { gate = g; remote = w })

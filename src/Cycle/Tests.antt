-- ===== src/Cycle/Tests.antt =====
-- A vault with two active items and an archived one, on the fake client, and the theorems of the
-- cycle at it.
use openbao_plugin_secrets_o.Prelude.{
  ℕ, ◌+◌, ◌≤◌, String, true, false, Option, none, some, List, [], ◌∷◌, ◌≡◌, ◌≢◌, refl, ◌⊎◌,
}
use openbao_plugin_secrets_o.Prelude.Table.{Table, lookup, insert, delete, has}
use openbao_plugin_secrets_o.Onepassword.{
  ItemState, active, archived, ItemOverview, Item, fetched, ItemResult,
}
use openbao_plugin_secrets_o.Client.{chunk_ids}
use openbao_plugin_secrets_o.Fake
use openbao_plugin_secrets_o.Fake.{FakeOpClient, new_fake, fake_client}
use openbao_plugin_secrets_o.Governor
use openbao_plugin_secrets_o.Governor.{Governor, new_governor, periodic, manual}
use openbao_plugin_secrets_o.Replica.{
  Replica, resolved, body, new_replica, rebuild_indexes, apply_write, apply_delete,
}
use openbao_plugin_secrets_o.Replica.Consistent.{IsConsistent, new_replica-IsConsistent}
use openbao_plugin_secrets_o.Cycle.{
  governor_gate, allow_all_gate, CycleError, gate_denied, list_items_failed, Moments, World,
  index_active, to_fetch, to_remove, apply_cycle, count_failure, after_get, after_list, do_cycle,
  absorb_all, absorb, keep_listed, remove_all,
}
use openbao_plugin_secrets_o.Cycle.Diff.{is_in}
use openbao_plugin_secrets_o.Cycle.Interleave.{
  Reachable, next, writes, deletes, cycles, Reachable-IsConsistent,
}
use openbao_plugin_secrets_o.Address.{resolve_item_from_segments}
use openbao_plugin_secrets_o.Cycle.Races.{apply_cycle_never_regresses, created_after_list_is_lost}
use openbao_plugin_secrets_o.Cycle.Sync.{stamp, steady_state}
use openbao_plugin_secrets_o.Cycle.Flight.{
  Action, enter, finish, clear, release, wake, leading, returned, run, nobody,
}
use openbao_plugin_secrets_o.Cycle.Flight.Shared.{run_shares_one_cycle}
use openbao_plugin_secrets_o.Cycle.Flight.Led.{owns}
use openbao_plugin_secrets_o.Cycle.Flight.Progress.{to_the_end, waiters_return}
use openbao_plugin_secrets_o.Cycle.Spend.{
  counting_gate, cost, do_cycle_spends, do_cycle_failed, do_cycle_syncs,
}

abbrev pub overview_at : String → String → ItemState → ℕ → ItemOverview
overview_at id title state updated_at = record {
  id = id;
  title = title;
  category = "Login";
  vault_id = "v";
  websites = [];
  tags = [];
  created_at = 1;
  updated_at = updated_at;
  state = state;
}

abbrev pub item_at : String → String → ℕ → ℕ → Item
item_at id title version updated_at = record {
  id = id;
  title = title;
  category = "Login";
  vault_id = "v";
  fields = [];
  sections = [];
  notes = "";
  tags = [];
  websites = [];
  version = version;
  created_at = 1;
  updated_at = updated_at;
}

abbrev pub listing : List ItemOverview
listing =
    overview_at "a" "mail" active 10
    ∷ overview_at "b" "bank" active 20
    ∷ overview_at "c" "old" archived 5
    ∷ []

abbrev pub remote : FakeOpClient
remote = record new_fake {
  items = ("v", listing) ∷ [];
  item_bodies = ("v", ("a", item_at "a" "mail" 1 10) ∷ ("b", item_at "b" "bank" 3 20) ∷ []) ∷ [];
}

abbrev pub name : ℕ → String
name n = "new"

abbrev pub at : Moments
at = record { asked = 100; listed = 101; got = 102; done = 103 }

abbrev pub results : List ItemResult
results =
    record { id = "a"; fetch = fetched (item_at "a" "mail" 1 10) }
    ∷ record { id = "b"; fetch = fetched (item_at "b" "bank" 3 20) }
    ∷ []

start : World Governor FakeOpClient
start = record { replica = new_replica "v"; gate = new_governor; remote = remote }

code : Unit {0}
unfolding start chunk_ids apply_write apply_delete rebuild_indexes new_replica new_governor
    Governor.allow Fake.fake_client index_active to_fetch to_remove lookup insert delete is_in
code = tt

do_cycle_syncs_example :
    let (s', e) = do_cycle governor_gate (fake_client name) none periodic at start in
    (e ≡ none)
    × ((id : String)
        → stamp (lookup id s'.replica.overview) ≡ stamp (lookup id (index_active listing [])))
    × IsConsistent none s'.replica
    × (s'.replica.last_cycle ≡ 103)
    × (s'.replica.stale_suspect ≡ false)
    × (s'.replica.consecutive_failures ≡ 0)
unfolding code
do_cycle_syncs_example =
    do_cycle_syncs governor_gate (fake_client name) none periodic at start listing results refl refl
      refl refl (refl, (refl, tt)) (new_replica-IsConsistent none "v").0 (λ id. refl)

-- The replica after that cycle.
warm : Replica
warm = (do_cycle governor_gate (fake_client name) none periodic at start).0.replica

abbrev listed : Table ItemOverview
listed = ("a", overview_at "a" "mail" active 10) ∷ ("b", overview_at "b" "bank" active 20) ∷ []

-- A write, a delete, and a cycle whose listing is older than both.
abbrev disturbed : Replica
disturbed =
    apply_cycle listed [] results none 200
      (apply_delete (apply_write (new_replica "v") (item_at "b" "bank" 7 30) none) "a" none)

Reachable-IsConsistent_example :
    IsConsistent none disturbed
    × ((segs : List String) (id : String)
        → resolve_item_from_segments disturbed segs ≡ resolved id
        → (item : Item) × (body disturbed id ≡ some item))
Reachable-IsConsistent_example = Reachable-IsConsistent none "v" disturbed (
    next (next (next Reachable.start (writes _ (item_at "b" "bank" 7 30))) (deletes _ "a"))
      (cycles _ listed [] results 200))

abbrev newer : Item
newer = item_at "b" "bank" 7 30

apply_cycle_never_regresses_example :
    (item : Item) × (lookup "b"
        (apply_cycle listed [] results none 200 (apply_write warm newer none)).bodies
      ≡ some item)
    × (7 ≤ item.version)
unfolding code after_list after_get apply_cycle absorb_all absorb keep_listed remove_all
apply_cycle_never_regresses_example =
    apply_cycle_never_regresses listed [] results none 200 (apply_write warm newer none) "b" newer
      (unfold warm apply_write code do_cycle Fake.fake_client in refl) refl

created_after_list_is_lost_example :
    let r' = apply_write warm (item_at "n" "new" 1 150) none in
    let removed = to_remove r'.overview listed in
    (has "n" r'.overview ≡ true)
    × (is_in "n" removed ≡ true)
    × (has "n" (apply_cycle listed removed results none 200 r').overview ≡ false)
    × (has "n" (apply_cycle listed removed results none 200 r').bodies ≡ false)
unfolding code warm do_cycle after_list after_get apply_cycle absorb_all absorb keep_listed
    remove_all
created_after_list_is_lost_example =
    created_after_list_is_lost listed results none 200 warm (item_at "n" "new" 1 150)
      (refl, (refl, tt)) refl refl

nothing_to_do_twice : (to_fetch listed listed ≡ []) × (to_remove listed listed ≡ [])
unfolding code
nothing_to_do_twice = steady_state listed listed (refl, (refl, tt)) (λ id. refl)

archived_is_unlisted : has "c" (index_active listing []) ≡ false
unfolding code
archived_is_unlisted = refl

abbrev counted : World ℕ FakeOpClient
counted = record { replica = new_replica "v"; gate = 5; remote = remote }

do_cycle_spends_example :
    (do_cycle counting_gate (fake_client name) none manual at counted).0.gate
    ≡ 5
      + cost
          (fake_client name)
          ((fake_client name).list_items (new_replica "v").vault_id remote).0
          (new_replica "v").overview
do_cycle_spends_example = do_cycle_spends (fake_client name) none manual at counted

costs_two : cost (fake_client name) ((fake_client name).list_items "v" remote).0 [] ≡ 2
unfolding code cost
costs_two = refl

abbrev broken : World (Unit {0}) FakeOpClient
broken = record {
  replica = new_replica "v";
  gate = tt;
  remote = record remote { items_err = ("v", record { rate_limited = true; message = [] }) ∷ [] };
}

abbrev failure : CycleError
failure = list_items_failed "v" (record { rate_limited = true; message = [] })

do_cycle_failed_example :
    let s' = (do_cycle allow_all_gate (fake_client name) none manual at broken).0 in
    ((failure ≡ gate_denied) × (s'.replica ≡ new_replica "v") × (s'.remote ≡ broken.remote))
    ⊎ ((failure ≢ gate_denied) × (s'.replica ≡ count_failure (new_replica "v")))
unfolding code do_cycle after_list
do_cycle_failed_example =
    do_cycle_failed allow_all_gate (fake_client name) none manual at broken failure refl

-- Two callers, the second while the first is at work, and the first again later.
abbrev visits : List Action
visits =
    enter 1 ∷ enter 2 ∷ finish 1 (some gate_denied) ∷ clear 1 ∷ enter 3 ∷ release 1 ∷ wake 2 ∷ []

run_shares_one_cycle_example :
    let g = run nobody visits in
    (g.callers 3 ≡ leading 1 → g.callers 3 ≡ leading 1 → ◌≡◌ {A = ℕ} 3 3)
    × (g.callers 3 ≡ leading 1 → g.inflight ≡ some 1)
    × (g.callers 3 ≡ returned 1 none
        → g.callers 3 ≡ returned 1 none
        → ◌≡◌ {A = Option CycleError} none none)
run_shares_one_cycle_example = run_shares_one_cycle visits 3 3 1 1 none none

waits_for_the_first :
    let g = run nobody visits in
    (g.callers 2 ≡ returned 0 (some gate_denied)) × (g.callers 3 ≡ leading 1)
unfolding run
waits_for_the_first = (refl, refl)

waiters_return_example :
    let g = run nobody (enter 1 ∷ enter 2 ∷ []) in
    (d : ℕ) × (x : Option CycleError) × ((g.released 0 ≡ true) ⊎ (owns (g.callers d) ≡ some 0))
    × ((run g (to_the_end d 2 (some gate_denied))).callers 2 ≡ returned 0 x)
    × ((run g (to_the_end d 2 (some gate_denied))).errs 0 ≡ some x)
    × (g.callers d ≡ leading 0 → x ≡ some gate_denied)
waiters_return_example =
    waiters_return (enter 1 ∷ enter 2 ∷ []) 2 0 (some gate_denied) (unfold run in refl)

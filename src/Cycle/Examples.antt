-- ===== src/Cycle/Examples.antt =====
-- A delete that lands while a cycle is fetching, and a first cycle on the fake client.
use openbao_plugin_secrets_o.Prelude.{
  String, true, false, none, some, List, [], ◌≡◌, ◌≢◌, refl, arith, Bool-cases, inl, inr, str_eq,
}
use openbao_plugin_secrets_o.Prelude.Table.{Table, lookup, insert, has}
use openbao_plugin_secrets_o.Onepassword.{ItemOverview, Item}
use openbao_plugin_secrets_o.Fake.{FakeOpClient, fake_client}
use openbao_plugin_secrets_o.Fake.View.{stored}
use openbao_plugin_secrets_o.Fake.Serves.{fake-Serves, fake-answers}
use openbao_plugin_secrets_o.Governor.{periodic}
use openbao_plugin_secrets_o.Replica.{Replica, new_replica, apply_delete, resolved, body}
use openbao_plugin_secrets_o.Replica.Consistent.{new_replica-IsConsistent}
use openbao_plugin_secrets_o.Address.{resolve_item_from_segments}
use openbao_plugin_secrets_o.Cycle.{
  allow_all_gate, World, index_active, to_fetch, to_remove, apply_cycle, do_cycle,
}
use openbao_plugin_secrets_o.Cycle.Machine.{
  Machine, Phase, idle, fetching, list, diff, apply, Run, Sparing,
}
use openbao_plugin_secrets_o.Cycle.Runs.{do_cycle-Run}
use openbao_plugin_secrets_o.Cycle.Deleted.{deleted_stays_deleted}
use openbao_plugin_secrets_o.Cycle.Mirror.{IsAhead, vault_of, do_cycle_mirrors}
use openbao_plugin_secrets_o.Cycle.Tests.{listing, remote, name, results, item_at}
use openbao_plugin_secrets_o.Cycle.Tests
use openbao_plugin_secrets_o.Cycle.Sync.{lists_active}

-- Both items are being fetched when "a" is deleted; then the results arrive.
seen : Table ItemOverview
seen = index_active listing []

before : Replica
before = new_replica "v"

pub code : Unit {0}
unfolding seen before new_replica index_active to_fetch to_remove lookup insert
code = tt

under_way : Phase
under_way = fetching seen (to_fetch before.overview seen) (to_remove before.overview seen)

after : Replica
after =
    apply_cycle seen (to_remove before.overview seen) results none 200
      (apply_delete before "a" none)

deleted_stays_deleted_example :
    (has "a" after.overview ≡ false)
    × (has "a" after.bodies ≡ false)
    × ((segs : List String) → resolve_item_from_segments after segs ≢ resolved "a")
unfolding under_way after code
deleted_stays_deleted_example =
    deleted_stays_deleted none "v" "a" before after under_way idle
      (Run.next none (Run.next none Run.start (list before listing)) (diff before seen))
      (Sparing.next none Sparing.start
        (apply (apply_delete before "a" none) seen _ _ results 200 refl) tt)

abbrev cold : World (Unit {0}) FakeOpClient
cold = record { replica = new_replica "v"; gate = tt; remote = remote }

all_held :
    (id : String)
    → lists_active id listing ≡ true
    → (item : Item) × (stored remote "v" id ≡ some item)
unfolding lookup
all_held id h = elim (Bool-cases (str_eq "a" id)) [
  | inl a ↦ (item_at "a" "mail" 1 10, ground (arith, a))
  | inr not_a ↦ (item_at "b" "bank" 3 20, ground (arith, not_a, h))
]

cold-IsAhead : IsAhead listing (stored remote "v") (new_replica "v")
unfolding new_replica lookup
cold-IsAhead = record { held = all_held; same = λ id ov there h. cc; older = λ id item there. refl }

do_cycle_mirrors_example :
    let (s', e) = do_cycle allow_all_gate (fake_client name) none periodic Tests.at cold in
    (e ≡ none) × ((id : String) → body s'.replica id ≡ vault_of listing (stored remote "v") id)
unfolding new_replica lookup
do_cycle_mirrors_example =
    do_cycle_mirrors allow_all_gate (fake_client name) none periodic Tests.at cold listing
      (stored remote "v") refl (fake-Serves name remote "v" refl refl)
      (new_replica-IsConsistent none "v").0 (λ id. refl) cold-IsAhead

is_a_run_of_the_machine : Run (Machine.at cold.replica idle) (
    Machine.at
      (do_cycle allow_all_gate (fake_client name) none periodic Tests.at cold).0.replica
      idle)
is_a_run_of_the_machine =
    do_cycle-Run allow_all_gate (fake_client name) none Tests.at periodic cold
      (λ vault_id ids w results. fake-answers name vault_id ids w results)

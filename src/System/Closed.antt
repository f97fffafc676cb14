-- ===== src/System/Closed.antt =====
-- What holds of every replica of the engine, if it holds of a new one and is kept by each step that
-- a replica takes: through cycles, reads and the engine's own bookkeeping.
use mathlib.Core.Path.{subst}
use openbao_plugin_secrets_o.Prelude.{
  String, Option, some, List, ◌≡◌, refl, sym, ap, ◌∙◌, arith, inl, inr, str_eq, eq_iff, Bool-cases,
  Option-cases,
}
use openbao_plugin_secrets_o.Prelude.Table.{Table, lookup, lookup-insert, has}
use openbao_plugin_secrets_o.Onepassword.{ItemResult, ItemOverview, Result, ok, err}
use openbao_plugin_secrets_o.Client.{OpClient}
use openbao_plugin_secrets_o.Config.{Splitter}
use openbao_plugin_secrets_o.Governor.{WorkClass}
use openbao_plugin_secrets_o.Replica.{Replica, new_replica}
use openbao_plugin_secrets_o.Cycle.{
  RequestGate, governor_gate, Moments, World, do_cycle, after_list, after_get,
}
use openbao_plugin_secrets_o.Cycle.Interleave.{Step, cycles, fails}
use openbao_plugin_secrets_o.Engine.{
  Engine, Clock, Factory, Outcome-cases, replica_of, put_replica, open_replica, ensure_client,
  build_client, vault_cycle,
}

-- A property of the replica of a vault that a new replica has and that every step keeps.
pub record IsClosed (Good : String → Replica → Type 0) : Type 0 where
  pub starts : (id : String) → Good id (new_replica id)
  pub steps :
      (splitter : Option Splitter) (id : String) {r s : Replica}
      → Step splitter r s
      → Good id r
      → Good id s

-- Every replica of the engine has the property.
unfoldable pub AllGood : {W : Type 0} → (String → Replica → Type 0) → Engine W → Type 0
AllGood Good e = (id : String) (r : Replica) → lookup id e.replicas ≡ some r → Good id r

module _ (Good : String → Replica → Type 0) (closed : IsClosed Good) where
  module _ {G W : Type 0} (gate : RequestGate G) (client : OpClient W) (splitter : Option Splitter)
      (id : String) where
    after_get-good :
        (at : Moments) (listed : Table ItemOverview) (fetch removed : List String)
        (result : Result (List ItemResult)) (s : World G W)
        → Good id s.replica
        → Good id (after_get gate client splitter at listed fetch removed result s).0.replica
    unfolding after_get
    after_get-good at listed fetch removed (err e) s h =
        closed.steps splitter id (fails s.replica) h
    after_get-good at listed fetch removed (ok results) s h =
        closed.steps splitter id (cycles s.replica listed removed results at.done) h

    after_list-good :
        (at : Moments) (result : Result (List ItemOverview)) (s : World G W)
        → Good id s.replica
        → Good id (after_list gate client splitter at result s).0.replica
    unfolding after_list
    after_list-good at (err e) s h = closed.steps splitter id (fails s.replica) h
    after_list-good at (ok overviews) s h = after_get-good at _ _ _ _ _ h

    do_cycle-good :
        (class : WorkClass) (at : Moments) (s : World G W)
        → Good id s.replica
        → Good id (do_cycle gate client splitter class at s).0.replica
    unfolding do_cycle
    do_cycle-good class at s h =
        elim (Bool-cases (gate.allow s.gate at.asked s.replica.vault_id class).1) [
          | inl allowed ↦ rw allowed (after_list-good at _ _ h)
          | inr denied ↦ rw denied h
        ]

  module _ {W : Type 0} where
    pub put_replica-good :
        (e : Engine W) (id : String) (r : Replica)
        → AllGood Good e
        → Good id r
        → AllGood Good (put_replica e id r)
    unfolding put_replica AllGood
    put_replica-good e id r all good j s there = elim (Bool-cases (str_eq id j)) [
      | inl same ↦
          let e₁ = (eq_iff id j).0 same in
          let r₁ : r ≡ s = ground (arith, same, lookup-insert id j r e.replicas, there) in
          subst (λ k. Good k s) e₁ (subst (Good id) r₁ good)
      | inr other ↦ all j s (ground (arith, other, lookup-insert id j r e.replicas, there))
    ]

    -- Where only other parts of the engine have changed.
    pub same_replicas-good :
        (e f : Engine W) → f.replicas ≡ e.replicas → AllGood Good e → AllGood Good f
    unfolding AllGood
    same_replicas-good e f same all id r there = all id r (ap (lookup id) (sym same) ∙ there)

    pub replica_of-good : (e : Engine W) (id : String) → AllGood Good e → Good id (replica_of e id)
    unfolding replica_of AllGood
    replica_of-good e id all = elim (Option-cases (lookup id e.replicas)) [
      | inl missing ↦ rw missing (closed.starts id)
      | inr (r, there) ↦ rw there (all id r there)
    ]

    pub open_replica-good :
        (e : Engine W) (id : String) → AllGood Good e → AllGood Good (open_replica e id)
    unfolding open_replica
    open_replica-good e id all = elim (Bool-cases (has id e.replicas)) [
      | inl there ↦ rw there all
      | inr new ↦ rw new (put_replica-good e id (new_replica id) all (closed.starts id))
    ]

    pub ensure_client-replicas :
        (factory : Factory W) (at : Clock) (e : Engine W)
        → (ensure_client factory at e).0.replicas ≡ e.replicas
    unfolding ensure_client build_client
    ensure_client-replicas factory at e = ground arith

    module _ (factory : Factory W) where
      pub vault_cycle-good :
          (at : Clock) (id : String) (class : WorkClass) (e : Engine W)
          → AllGood Good e
          → AllGood Good (vault_cycle factory at id class e).0
      unfolding vault_cycle
      vault_cycle-good at id class e all =
          let opened = open_replica e id in
          let (e', client) = ensure_client factory at opened in
          let all' =
            same_replicas-good opened e' (ensure_client-replicas factory at opened)
              (open_replica-good e id all) in
          elim (Outcome-cases client) [
            | inl (x, refusal) ↦ rw (vault_cycle, refusal) all'
            | inr (c, built) ↦
                rw (vault_cycle, built)
                  (put_replica-good _ id _ (same_replicas-good e' _ refl all') (
                    do_cycle-good governor_gate c e'.splitter id class at.cycle _
                      (replica_of-good e' id all')))
          ]

-- ===== src/System/Reads.antt =====
-- What reads, listings, refreshes and invalidations leave of a property of every replica.
use openbao_plugin_secrets_o.Prelude.{
  ℕ, String, Bool, true, false, not, ◌&&◌, ◌||◌, ◌==◌, length, none, inl, inr, arith, if◌then◌else◌,
  Bool-cases, Option-cases,
}
use openbao_plugin_secrets_o.Config.{Config}
use openbao_plugin_secrets_o.Governor.{WorkClass, periodic}
use openbao_plugin_secrets_o.Replica.{Replica, not_found, ambiguous_title, negative_cache_hit}
use openbao_plugin_secrets_o.Cycle.Interleave.{looks, remembers}
use openbao_plugin_secrets_o.Address.{FieldAddress, field_at, no_field}
use openbao_plugin_secrets_o.Engine.{
  Engine, Clock, Factory, replica_of, put_replica, open_replica, run_vault_cycle,
}
use openbao_plugin_secrets_o.Engine.Freshness.{
  look_at_ceiling, settle_item, cycle_then, fresh_known, ensure_item_fresh, plan_cycle, is_known,
  is_ambiguous, item_of, window_expired, matches_always_fresh, ensure_vault_window_fresh,
}
use openbao_plugin_secrets_o.System.Closed.{
  IsClosed, AllGood, put_replica-good, same_replicas-good, replica_of-good, open_replica-good,
  vault_cycle-good,
}

module _ (Good : String → Replica → Type 0) (closed : IsClosed Good) {W : Type 0}
    (factory : Factory W) where
  pub if-good :
      (b : Bool) (e f : Engine W)
      → AllGood Good e
      → AllGood Good f
      → AllGood Good (if b then e else f)
  if-good true e f h k = h
  if-good false e f h k = k

  settle_item-good :
      (now : ℕ) (vault_id key : String) (address : FieldAddress) (e : Engine W)
      → AllGood Good e
      → AllGood Good (settle_item factory now vault_id key address e).0
  unfolding settle_item
  settle_item-good now vault_id key (field_at id section field) e all = all
  settle_item-good now vault_id key (no_field (ambiguous_title title ids)) e all = all
  settle_item-good now vault_id key (no_field not_found) e all =
      elim (Bool-cases (length (replica_of e vault_id).overview == 0)) [
        | inl bare ↦ rw bare all
        | inr warm ↦ rw warm (
            put_replica-good Good closed e vault_id _ all (
              closed.steps none vault_id (remembers (replica_of e vault_id) key now)
                (replica_of-good Good closed e vault_id all)))
      ]

  pub run_vault_cycle-good :
      (at : Clock) (id : String) (class : WorkClass) (e : Engine W)
      → AllGood Good e
      → AllGood Good (run_vault_cycle factory at id class e)
  unfolding run_vault_cycle
  run_vault_cycle-good at id class e all = vault_cycle-good Good closed factory at id class e all

  cycle_then-good :
      (at : Clock) (cfg : Config) (vault_id key : String) (resolve : Replica → FieldAddress)
      (class : WorkClass) (known : Bool) (e : Engine W)
      → AllGood Good e
      → AllGood Good (cycle_then factory at cfg vault_id key resolve class known e).0
  unfolding cycle_then
  cycle_then-good at cfg vault_id key resolve class known e all =
      let (r, hit) = negative_cache_hit (replica_of e vault_id) key cfg.negative_cache_ttl at.now in
      let put = put_replica e vault_id r in
      let put-good = put_replica-good Good closed e vault_id r all (
        closed.steps none vault_id (looks (replica_of e vault_id) key cfg.negative_cache_ttl at.now)
          (replica_of-good Good closed e vault_id all)) in
      let looked-good = if-good known e put all put-good in
      let ran = run_vault_cycle-good at vault_id class (if known then e else put) looked-good in
      elim (Bool-cases (not known && hit)) [
        | inl remembered ↦ rw (cycle_then, remembered) looked-good
        | inr other ↦ rw (cycle_then, other) (settle_item-good at.now vault_id key _ _ ran)
      ]

  fresh_known-good :
      (at : Clock) (cfg : Config) (vault_id key : String) (resolve : Replica → FieldAddress)
      (first : FieldAddress) (e : Engine W)
      → AllGood Good e
      → AllGood Good (fresh_known factory at cfg vault_id key resolve first e).0
  unfolding fresh_known
  fresh_known-good at cfg vault_id key resolve first e all =
      let (e', above) = look_at_ceiling cfg at.now e in
      let all' : AllGood Good e' = same_replicas-good Good closed e e' (ground arith) all in
      let due =
        window_expired cfg (replica_of e' vault_id) at.now
        || matches_always_fresh e' cfg vault_id (item_of first) in
      elim (Option-cases (plan_cycle cfg.passthrough (is_known first) above due)) [
        | inl stays ↦ rw (fresh_known, stays) (settle_item-good at.now vault_id key first e' all')
        | inr (class, planned) ↦
            rw (fresh_known, planned)
              (cycle_then-good at cfg vault_id key resolve class (is_known first) e' all')
      ]

  pub ensure_item_fresh-good :
      (at : Clock) (vault_id key : String) (resolve : Replica → FieldAddress) (e : Engine W)
      → AllGood Good e
      → AllGood Good (ensure_item_fresh factory at vault_id key resolve e).0
  unfolding ensure_item_fresh
  ensure_item_fresh-good at vault_id key resolve e all =
      let opened = open_replica e vault_id in
      let all' = open_replica-good Good closed e vault_id all in
      let first = resolve (replica_of opened vault_id) in
      elim (Option-cases e.config) [
        | inl missing ↦ rw (ensure_item_fresh, missing) all
        | inr (cfg, configured) ↦ elim (Bool-cases (is_ambiguous first)) [
          | inl twice ↦
              rw (ensure_item_fresh, configured, twice)
                (settle_item-good at.now vault_id key first opened all')
          | inr once ↦
              rw (ensure_item_fresh, configured, once)
                (fresh_known-good at cfg vault_id key resolve first opened all')
        ]
      ]

  pub ensure_vault_window_fresh-good :
      (at : Clock) (vault_id : String) (e : Engine W)
      → AllGood Good e
      → AllGood Good (ensure_vault_window_fresh factory at vault_id e)
  unfolding ensure_vault_window_fresh
  ensure_vault_window_fresh-good at vault_id e all = elim (Option-cases e.config) [
    | inl missing ↦ rw (ensure_vault_window_fresh, missing) all
    | inr (cfg, configured) ↦
        let (e', above) = look_at_ceiling cfg at.now e in
        let all' : AllGood Good e' = same_replicas-good Good closed e e' (ground arith) all in
        let opened = open_replica-good Good closed e' vault_id all' in
        let ran = run_vault_cycle-good at vault_id periodic (open_replica e' vault_id) opened in
        rw (ensure_vault_window_fresh, configured) (if-good _ _ _ all' (if-good _ _ _ ran opened))
  ]

-- ===== src/Engine/Freshness.antt =====
-- backend/backend.go: when a request is served from the replica and when a cycle runs before it
-- (matchesAlwaysFresh, ensureItemFresh, ensureVaultWindowFresh, checkServeStaleAllowed).
use openbao_plugin_secrets_o.Prelude.{
  ℕ, String, Bool, true, false, not, ◌&&◌, ◌||◌, ◌==◌, Option, none, some, any, length, str_eq,
  if◌then◌else◌,
}
use openbao_plugin_secrets_o.Prelude.Int.{ℤ, pos, pos_part, neg_part, leb_ℤ, ltb_ℤ}
use openbao_plugin_secrets_o.Prelude.Time.{time_sub, elapsed}
use openbao_plugin_secrets_o.Prelude.Text.{cut}
use openbao_plugin_secrets_o.Config.{Config}
use openbao_plugin_secrets_o.Backoff.{double}
use openbao_plugin_secrets_o.Governor.{WorkClass, periodic, miss, usage_pct}
use openbao_plugin_secrets_o.Replica.{
  not_found, ambiguous_title, Replica, negative_cache_hit, negative_cache_store, overview_title,
}
use openbao_plugin_secrets_o.Address.{FieldAddress, field_at, no_field}
use openbao_plugin_secrets_o.Engine.{
  Clock, Engine, EngineError, no_client, stale_serve_disabled, replica_empty, address, Factory,
  Found, found, absent, failed, title_of_vault, replica_of, put_replica, open_replica,
  run_vault_cycle,
}

abbrev pub is_zero : ℤ → Bool
is_zero d = pos_part d == 0 && neg_part d == 0

-- `cfg.PassthroughTTL == 0 || now.Sub(lastCycle) >= cfg.PassthroughTTL`
abbrev pub window_expired : Config → Replica → ℕ → Bool
window_expired cfg r now =
    is_zero cfg.passthrough_ttl || elapsed now r.last_cycle cfg.passthrough_ttl

abbrev pub part_matches : String → String → String → Bool
part_matches part id title = str_eq part id || (not (str_eq title "") && str_eq part title)

abbrev pub fresh_entry : String → String → String → String → Option (String × String) → Bool
fresh_entry vault_id vault_title item_id item_title none = false
fresh_entry vault_id vault_title item_id item_title (some (vault, title)) =
    part_matches vault vault_id vault_title && part_matches title item_id item_title

-- `checkServeStaleAllowed`; twice the interval wraps as an int64.
unfoldable pub check_serve_stale_allowed : Config → Replica → ℕ → Option EngineError
check_serve_stale_allowed cfg r now =
    if cfg.serve_stale
    then none
    else (if ltb_ℤ (double cfg.refresh_interval) (time_sub now r.last_cycle)
        then some stale_serve_disabled
        else none)

-- Whether a cycle is to run before an item is served, and for what.
abbrev pub plan_cycle : Bool → Bool → Bool → Bool → Option WorkClass
plan_cycle passthrough known above_ceiling due =
    if not passthrough
    then none
    else (if not known
        then some miss
        else (if above_ceiling then none else (if due then some periodic else none)))

abbrev pub is_known : FieldAddress → Bool
is_known (field_at id section field) = true
is_known (no_field e) = false

abbrev pub is_ambiguous : FieldAddress → Bool
is_ambiguous (no_field (ambiguous_title title ids)) = true
is_ambiguous _ = false

abbrev pub item_of : FieldAddress → String
item_of (field_at id section field) = id
item_of (no_field e) = ""

module _ {W : Type 0} where
  unfoldable pub matches_always_fresh : Engine W → Config → String → String → Bool
  unfolding replica_of
  matches_always_fresh e cfg vault_id item_id =
      any
        (λ pat.
          fresh_entry vault_id (title_of_vault e.directory vault_id) item_id
            (overview_title (replica_of e vault_id) item_id) (cut pat))
        cfg.always_fresh

  -- The ceiling is looked at, and the events pruned, only with passthrough on.
  abbrev pub look_at_ceiling : Config → ℕ → Engine W → Engine W × Bool
  look_at_ceiling cfg now e =
      let (g, pct) = usage_pct e.gate now in
      if cfg.passthrough
      then (record e { gate = g }, leb_ℤ cfg.passthrough_ceiling_pct (pos pct))
      else (e, false)

  module _ (factory : Factory W) where
    -- The outcome once no cycle is left to run.
    unfoldable pub settle_item : ℕ → String → String → FieldAddress → Engine W → Engine W × Found
    unfolding replica_of put_replica
    settle_item now vault_id key (field_at id section field) e = (e, found id section field)
    settle_item now vault_id key (no_field (ambiguous_title title ids)) e =
        (e, failed (address (ambiguous_title title ids)))
    settle_item now vault_id key (no_field not_found) e =
        if length (replica_of e vault_id).overview == 0
        then (e, failed replica_empty)
        else (put_replica e vault_id (negative_cache_store (replica_of e vault_id) key now), absent)

    -- A miss that is remembered, and otherwise a cycle and a second look.
    unfoldable pub cycle_then :
        Clock
        → Config
        → String
        → String
        → (Replica → FieldAddress)
        → WorkClass
        → Bool
        → Engine W
        → Engine W × Found
    unfolding replica_of put_replica run_vault_cycle settle_item
    cycle_then at cfg vault_id key resolve class known e =
        let (r, hit) =
          negative_cache_hit (replica_of e vault_id) key cfg.negative_cache_ttl at.now in
        let looked = if known then e else put_replica e vault_id r in
        let ran = run_vault_cycle factory at vault_id class looked in
        if not known && hit
        then (looked, absent)
        else settle_item at.now vault_id key (resolve (replica_of ran vault_id)) ran

    -- `ensureItemFresh` behind the first lookup.
    unfoldable pub fresh_known :
        Clock
        → Config
        → String
        → String
        → (Replica → FieldAddress)
        → FieldAddress
        → Engine W
        → Engine W × Found
    unfolding cycle_then
    fresh_known at cfg vault_id key resolve first e =
        let (e', above) = look_at_ceiling cfg at.now e in
        let due =
          window_expired cfg (replica_of e' vault_id) at.now
          || matches_always_fresh e' cfg vault_id (item_of first) in
        elim (plan_cycle cfg.passthrough (is_known first) above due) [
          | none ↦ settle_item at.now vault_id key first e'
          | some class ↦ cycle_then at cfg vault_id key resolve class (is_known first) e'
        ]

    unfoldable pub ensure_item_fresh :
        Clock → String → String → (Replica → FieldAddress) → Engine W → Engine W × Found
    unfolding fresh_known open_replica
    ensure_item_fresh at vault_id key resolve e = elim e.config [
      | none ↦ (e, failed no_client)
      | some cfg ↦
          let opened = open_replica e vault_id in
          let first = resolve (replica_of opened vault_id) in
          if is_ambiguous first
          then settle_item at.now vault_id key first opened
          else fresh_known at cfg vault_id key resolve first opened
    ]

    -- `ensureVaultWindowFresh`, for a listing.
    unfoldable pub ensure_vault_window_fresh : Clock → String → Engine W → Engine W
    unfolding run_vault_cycle
    ensure_vault_window_fresh at vault_id e = elim e.config [
      | none ↦ e
      | some cfg ↦
          let (e', above) = look_at_ceiling cfg at.now e in
          let opened = open_replica e' vault_id in
          let ran = run_vault_cycle factory at vault_id periodic opened in
          if not cfg.passthrough || above
          then e'
          else (if window_expired cfg (replica_of opened vault_id) at.now then ran else opened)
    ]

-- ===== src/Engine/Reads.antt =====
-- What a read of an item does: when it asks 1Password nothing, and what it returns.
use openbao_plugin_secrets_o.Prelude.{
  ℕ, String, Bool, true, false, ◌||◌, some, ◌≡◌, refl, eq_iff, arith, if◌then◌else◌, Option-cases,
  inl, inr, ◌⊎◌,
}
use openbao_plugin_secrets_o.Prelude.Int.{leb_ℤ, pos}
use openbao_plugin_secrets_o.Prelude.Table.{lookup, lookup-insert}
use openbao_plugin_secrets_o.Config.{Config}
use openbao_plugin_secrets_o.Governor.{WorkClass, periodic, miss, usage_pct}
use openbao_plugin_secrets_o.Replica.{
  not_found, ambiguous_title, Replica, new_replica, negative_cache_hit,
}
use openbao_plugin_secrets_o.Address.{FieldAddress, field_at, no_field}
use openbao_plugin_secrets_o.Engine.{
  run_vault_cycle, Engine, Clock, Factory, found, replica_of, put_replica, open_replica,
}
use openbao_plugin_secrets_o.Engine.Freshness.{
  item_of, settle_item, look_at_ceiling, window_expired, matches_always_fresh, is_known, cycle_then,
  fresh_known, ensure_item_fresh,
}

module _ {W : Type 0} where
  pub replica_of-open_replica :
      (e : Engine W) (id : String) → replica_of (open_replica e id) id ≡ replica_of e id
  unfolding replica_of open_replica put_replica
  replica_of-open_replica e id = elim (Option-cases (lookup id e.replicas)) [
    | inl missing ↦ ground (arith, lookup-insert id id (new_replica id) e.replicas, eq_iff id id)
    | inr (r, there) ↦ ground arith
  ]

  pub open_replica-remote :
      (e : Engine W) (id : String)
      → ((open_replica e id).remote ≡ e.remote)
        × ((open_replica e id).config ≡ e.config)
        × ((open_replica e id).gate ≡ e.gate)
        × ((open_replica e id).directory ≡ e.directory)
  unfolding open_replica put_replica
  open_replica-remote e id = ground arith

-- Why an item that is known is served as it is: passthrough is off, the usage is at the ceiling,
-- or the window has not passed and the item is not to be fresh always.
unfoldable pub ServesHeld : {W : Type 0} → Engine W → Config → Clock → String → String → Type 0
ServesHeld e cfg at vault_id id =
    (cfg.passthrough ≡ false)
    ⊎ (leb_ℤ cfg.passthrough_ceiling_pct (pos (usage_pct e.gate at.now).1) ≡ true)
    ⊎ ((window_expired cfg (replica_of e vault_id) at.now ≡ false)
        × (matches_always_fresh e cfg vault_id id ≡ false))

fresh_known-held :
    {W : Type 0} (factory : Factory W) (at : Clock) (cfg : Config) (vault_id key : String)
    (resolve : Replica → FieldAddress) (id section field : String) (e : Engine W)
    → ServesHeld e cfg at vault_id id
    → let (e', outcome) =
        fresh_known factory at cfg vault_id key resolve (field_at id section field) e in
      (outcome ≡ found id section field)
      × (e'.remote ≡ e.remote)
      × (replica_of e' vault_id ≡ replica_of e vault_id)
unfolding fresh_known settle_item replica_of ServesHeld matches_always_fresh
fresh_known-held factory at cfg vault_id key resolve id section field e (inl off) = ground arith
fresh_known-held factory at cfg vault_id key resolve id section field e (inr (inl above)) =
    ground arith
fresh_known-held factory at cfg vault_id key resolve id section field e
      (inr (inr (open_window, free))) =
    ground arith

-- A known item that is served as it is costs nothing: 1Password is not asked, and the item is the
-- one that its address led to before.
pub ensure_item_fresh-held :
    {W : Type 0} (factory : Factory W) (at : Clock) (vault_id key : String)
    (resolve : Replica → FieldAddress) (e : Engine W) (cfg : Config) (id section field : String)
    → e.config ≡ some cfg
    → resolve (replica_of e vault_id) ≡ field_at id section field
    → ServesHeld (open_replica e vault_id) cfg at vault_id id
    → let (e', outcome) = ensure_item_fresh factory at vault_id key resolve e in
      (outcome ≡ found id section field)
      × (e'.remote ≡ e.remote)
      × (replica_of e' vault_id ≡ replica_of e vault_id)
unfolding ensure_item_fresh
ensure_item_fresh-held factory at vault_id key resolve e cfg id section field configured known
      held =
    let opened = open_replica e vault_id in
    let same = replica_of-open_replica e vault_id in
    let first : resolve (replica_of opened vault_id) ≡ field_at id section field = rw same known in
    let kept = open_replica-remote e vault_id in
    let (served, remote, replica) =
      fresh_known-held factory at cfg vault_id key resolve id section field opened held in
    ground (arith, configured, first, served, remote, replica, same, kept)

settle_item-found :
    {W : Type 0} (factory : Factory W) (now : ℕ) (vault_id key : String) (first : FieldAddress)
    (e : Engine W) (id section field : String)
    → (settle_item factory now vault_id key first e).1 ≡ found id section field
    → (first ≡ field_at id section field)
      × (replica_of (settle_item factory now vault_id key first e).0 vault_id
          ≡ replica_of e vault_id)
unfolding settle_item
settle_item-found factory now vault_id key (field_at i s f) e id section field h =
    (ground arith, refl)
settle_item-found factory now vault_id key (no_field (ambiguous_title t ids)) e id section field h =
    absurd (ground arith)
settle_item-found factory now vault_id key (no_field not_found) e id section field h =
    absurd (ground arith)

cycle_then-found :
    {W : Type 0} (factory : Factory W) (at : Clock) (cfg : Config) (vault_id key : String)
    (resolve : Replica → FieldAddress) (class : WorkClass) (known : Bool) (e : Engine W)
    (id section field : String)
    → let (e', outcome) = cycle_then factory at cfg vault_id key resolve class known e in
      outcome ≡ found id section field
      → resolve (replica_of e' vault_id) ≡ field_at id section field
unfolding cycle_then
cycle_then-found factory at cfg vault_id key resolve class known e id section field h =
    let (r, hit) = negative_cache_hit (replica_of e vault_id) key cfg.negative_cache_ttl at.now in
    let looked = if known then e else put_replica e vault_id r in
    let ran = run_vault_cycle factory at vault_id class looked in
    ground (
      arith,
      settle_item-found factory at.now vault_id key (resolve (replica_of ran vault_id)) ran id
          section field,
    )

fresh_known-found :
    {W : Type 0} (factory : Factory W) (at : Clock) (cfg : Config) (vault_id key : String)
    (resolve : Replica → FieldAddress) (first : FieldAddress) (e : Engine W)
    (id section field : String)
    → resolve (replica_of e vault_id) ≡ first
    → let (e', outcome) = fresh_known factory at cfg vault_id key resolve first e in
      outcome ≡ found id section field
      → resolve (replica_of e' vault_id) ≡ field_at id section field
unfolding fresh_known
fresh_known-found factory at cfg vault_id key resolve first e id section field r h =
    let (e', above) = look_at_ceiling cfg at.now e in
    let gate_only : replica_of e' vault_id ≡ replica_of e vault_id =
      unfold replica_of in ground arith in
    let due =
      window_expired cfg (replica_of e' vault_id) at.now
      || matches_always_fresh e' cfg vault_id (item_of first) in
    ground (
      arith,
      gate_only,
      settle_item-found factory at.now vault_id key first e' id section field,
      cycle_then-found factory at cfg vault_id key resolve miss (is_known first) e' id section
          field,
      cycle_then-found factory at cfg vault_id key resolve periodic (is_known first) e' id section
          field,
    )

-- What is found is what the address leads to in the replica as it is then, whether or not a cycle
-- was run for it.
pub ensure_item_fresh-found :
    {W : Type 0} (factory : Factory W) (at : Clock) (vault_id key : String)
    (resolve : Replica → FieldAddress) (e : Engine W) (id section field : String)
    → let (e', outcome) = ensure_item_fresh factory at vault_id key resolve e in
      outcome ≡ found id section field
      → resolve (replica_of e' vault_id) ≡ field_at id section field
unfolding ensure_item_fresh
ensure_item_fresh-found factory at vault_id key resolve e id section field h =
    let opened = open_replica e vault_id in
    let first = resolve (replica_of opened vault_id) in
    elim (Option-cases e.config) [
      | inl missing ↦ ground arith
      | inr (cfg, configured) ↦ ground (
        arith,
        configured,
        settle_item-found factory at.now vault_id key first opened id section field,
        fresh_known-found factory at cfg vault_id key resolve first opened id section field refl,
      )
    ]

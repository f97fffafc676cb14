-- ===== src/System/Sound.antt =====
-- What holds of every replica, whatever the engine has been asked.
use openbao_plugin_secrets_o.Prelude.{
  String, Option, none, some, List, [], ◌∷◌, ◌≡◌, refl, ◌∙◌, arith, Bool-cases, inl, inr,
}
use openbao_plugin_secrets_o.Prelude.Table.{Table, lookup}
use openbao_plugin_secrets_o.Onepassword.{Item, ItemOverview, ItemResult, Fetch, failed, fetched}
use openbao_plugin_secrets_o.Config.{Splitter}
use openbao_plugin_secrets_o.Replica.{
  Replica, new_replica, is_newer, apply_write, apply_delete, rebuild_indexes, invalidate,
  negative_cache_hit, negative_cache_store, clear_negative_cache, resolved, body,
}
use openbao_plugin_secrets_o.Replica.Consistent.{IsWhole, new_replica-IsConsistent}
use openbao_plugin_secrets_o.Address.{resolve_item_from_segments}
use openbao_plugin_secrets_o.Address.Found.{resolve_item_from_segments-body}
use openbao_plugin_secrets_o.Cycle.{apply_cycle, remove_all, absorb, absorb_all, count_failure}
use openbao_plugin_secrets_o.Cycle.Interleave.{
  Step, writes, deletes, cycles, fails, invalidates, clears, looks, remembers, IsIndexedBySome,
  Step-IsIndexedBySome,
}
use openbao_plugin_secrets_o.Engine.{replica_of}
use openbao_plugin_secrets_o.System.Closed.{IsClosed, replica_of-good}
use openbao_plugin_secrets_o.System.Dispatch.{new_backend-good, dispatch_all-good}
use openbao_plugin_secrets_o.System.{Event, Outside, new_backend, dispatch_all}

rebuild_indexes-vault_id :
    (splitter : Option Splitter) (r : Replica) → (rebuild_indexes splitter r).vault_id ≡ r.vault_id
unfolding rebuild_indexes
rebuild_indexes-vault_id none r = refl
rebuild_indexes-vault_id (some splitter) r = refl

remove_all-vault_id : (ids : List String) (r : Replica) → (remove_all ids r).vault_id ≡ r.vault_id
unfolding remove_all
remove_all-vault_id [] r = refl
remove_all-vault_id (id ∷ ids) r = remove_all-vault_id ids _

absorb-vault_id :
    (listed : Table ItemOverview) (id : String) (f : Fetch) (r : Replica)
    → (absorb listed id f r).vault_id ≡ r.vault_id
unfolding absorb
absorb-vault_id listed id (failed x) r = refl
absorb-vault_id listed id (fetched item) r = ground arith

absorb_all-vault_id :
    (listed : Table ItemOverview) (results : List ItemResult) (r : Replica)
    → (absorb_all listed results r).vault_id ≡ r.vault_id
unfolding absorb_all absorb
absorb_all-vault_id listed [] r = refl
absorb_all-vault_id listed (res ∷ results) r =
    absorb_all-vault_id listed results (absorb listed res.id res.fetch r)
    ∙ absorb-vault_id listed res.id res.fetch r

Step-vault_id :
    (splitter : Option Splitter) {r s : Replica} → Step splitter r s → s.vault_id ≡ r.vault_id
unfolding apply_cycle apply_write apply_delete invalidate clear_negative_cache negative_cache_hit
    negative_cache_store count_failure
Step-vault_id splitter (writes r item) =
    elim (Bool-cases (is_newer (lookup item.id r.bodies) item.version)) [
      | inl newer ↦ rw (apply_write, newer) refl
      | inr older ↦ rw (apply_write, older) (rebuild_indexes-vault_id splitter _)
    ]
Step-vault_id splitter (deletes r id) = rebuild_indexes-vault_id splitter _
Step-vault_id splitter (cycles r listed removed results now) =
    rebuild_indexes-vault_id splitter _
    ∙ absorb_all-vault_id listed results _
    ∙ remove_all-vault_id removed r
Step-vault_id splitter (fails r) = refl
Step-vault_id splitter (invalidates r now) = refl
Step-vault_id splitter (clears r) = refl
Step-vault_id splitter (looks r key ttl now) = ground arith
Step-vault_id splitter (remembers r key now) = refl

-- The replica belongs to its vault, and is consistent for the pattern it was indexed with.
abbrev pub IsSound : String → Replica → Type 0
IsSound id r = (r.vault_id ≡ id) × IsIndexedBySome r

IsSound-IsClosed : IsClosed IsSound
IsSound-IsClosed = record {
  starts = λ id. (unfold new_replica in refl, (none, new_replica-IsConsistent none id));
  steps = λ splitter id step s.
      (Step-vault_id splitter step ∙ s.0, Step-IsIndexedBySome splitter step s.1);
}

-- Whatever the engine has been asked since it started, in whatever order, with ticks, restarts and
-- failures of 1Password among it: the replica that is kept for a vault, or made for it, belongs to that vault, covers the
-- same items with its overview as with its bodies, none of them deleted, and an item's address
-- that it resolves leads to a body that it holds.
pub every_replica_is_sound :
    {W S V : Type 0} (out : Outside W S V) (events : List Event) (w : W) (s : S) (vault_id : String)
    → let r = replica_of (dispatch_all out events (new_backend w, s)).0 vault_id in
      (r.vault_id ≡ vault_id)
      × IsWhole r
      × ((segs : List String) (id : String)
          → resolve_item_from_segments r segs ≡ resolved id
          → (item : Item) × (body r id ≡ some item))
every_replica_is_sound out events w s vault_id =
    let e = (dispatch_all out events (new_backend w, s)).0 in
    let r = replica_of e vault_id in
    let all =
      dispatch_all-good IsSound IsSound-IsClosed out events (new_backend w, s)
        (new_backend-good IsSound IsSound-IsClosed out w) in
    let (own, indexed) = replica_of-good IsSound IsSound-IsClosed e vault_id all in
    let (splitter, c) = indexed in
    (own, c.0, λ segs id. resolve_item_from_segments-body splitter r segs id c)

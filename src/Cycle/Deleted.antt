-- ===== src/Cycle/Deleted.antt =====
-- A deleted item along every run of the cycle's machine.
use openbao_plugin_secrets_o.Prelude.{
  ℕ, String, Bool, true, false, Option, none, some, List, [], ◌∷◌, ◌≡◌, ◌≢◌, refl, sym, ◌∙◌, ◌⊎◌,
  inl, inr, eq_iff, arith, Bool-cases,
}
use openbao_plugin_secrets_o.Prelude.Int.{ℤ}
use openbao_plugin_secrets_o.Prelude.Table.{
  Table, lookup, has, Distinct, lookup-insert, lookup-delete,
}
use openbao_plugin_secrets_o.Onepassword.{ItemOverview, ItemResult}
use openbao_plugin_secrets_o.Config.{Splitter}
use openbao_plugin_secrets_o.Replica.{
  Replica, new_replica, apply_delete, invalidate, negative_cache_hit, negative_cache_store,
  clear_negative_cache, is_newer, resolved, body, overview_of,
}
use openbao_plugin_secrets_o.Replica.Consistent.{new_replica-IsConsistent, apply_delete-indexed}
use openbao_plugin_secrets_o.Replica.Writes.{
  apply_write-reads, apply_delete-reads, apply_write-fields, apply_delete-fields,
}
use openbao_plugin_secrets_o.Address.{resolve_item_from_segments}
use openbao_plugin_secrets_o.Address.Found.{resolve_item_from_segments-body}
use openbao_plugin_secrets_o.Cycle.{to_fetch, apply_cycle, count_failure, is_changed}
use openbao_plugin_secrets_o.Cycle.Diff.{is_in, is_in-to_fetch}
use openbao_plugin_secrets_o.Cycle.Sync.{result_ids, index_active-Distinct}
use openbao_plugin_secrets_o.Cycle.Apply.{AllListed, before_absorb}
use openbao_plugin_secrets_o.Cycle.Races.{
  apply_cycle-lookup, before_absorb-lookup, apply_cycle_never_resurrects, absorb_all-untouched,
}
use openbao_plugin_secrets_o.Cycle.Interleave.{Step, IsIndexedBySome, Step-IsIndexedBySome}
use openbao_plugin_secrets_o.Cycle.Interleave
use openbao_plugin_secrets_o.Cycle.Machine.{
  Phase, idle, listed, fetching, Machine, at, Touch, writes, deletes, invalidates, clears, looks,
  remembers, Move, touch, list, list_fails, diff, get_fails, apply, Run, Spares, Sparing,
}
use openbao_plugin_secrets_o.Cycle.Machine

Touch-Step : (splitter : Option Splitter) {r s : Replica} → Touch splitter r s → Step splitter r s
Touch-Step splitter (writes r item) = Interleave.writes r item
Touch-Step splitter (deletes r id) = Interleave.deletes r id
Touch-Step splitter (invalidates r now) = Interleave.invalidates r now
Touch-Step splitter (clears r) = Interleave.clears r
Touch-Step splitter (looks r key ttl now) = Interleave.looks r key ttl now
Touch-Step splitter (remembers r key now) = Interleave.remembers r key now

-- Only listed items are under way.
abbrev pub AllFrom : Table ItemOverview → List String → Type 0
AllFrom l fetch = (id : String) → is_in id fetch ≡ true → has id l ≡ true

abbrev IsSound : Phase → Type 0
IsSound idle = Unit {0}
IsSound (listed l) = Distinct l
IsSound (fetching l fetch removed) = AllFrom l fetch

abbrev IsFit : Machine → Type 0
IsFit (at r p) = IsIndexedBySome r × IsSound p

pub AllFrom-to_fetch : (known l : Table ItemOverview) → Distinct l → AllFrom l (to_fetch known l)
AllFrom-to_fetch known l d id h = there (lookup id l) (is_in-to_fetch known l id d) h
  where
    there :
        (found : Option ItemOverview) {b : Bool}
        → b ≡ elim found [ none ↦ false | some ov ↦ is_changed (lookup id known) ov ]
        → b ≡ true
        → elim found [ none ↦ false | some ov ↦ true ] ≡ true
    there none e h = cc
    there (some ov) e h = refl

pub AllListed-results :
    (l : Table ItemOverview) (results : List ItemResult)
    → AllFrom l (result_ids results)
    → AllListed l results
unfolding is_in
AllListed-results l [] h = tt
AllListed-results l (res ∷ results) h = (
  h res.id (ground (arith, eq_iff res.id res.id)),
  AllListed-results l results (λ id m. h id (ground (arith, m))),
)

Move-IsFit : (splitter : Option Splitter) {m n : Machine} → Move splitter m n → IsFit m → IsFit n
Move-IsFit splitter (touch t) f = (Step-IsIndexedBySome splitter (Touch-Step splitter t) f.0, f.1)
Move-IsFit splitter (list r ovs) f = (f.0, index_active-Distinct ovs [] tt)
Move-IsFit splitter (list_fails r) f = (Step-IsIndexedBySome splitter (Interleave.fails r) f.0, tt)
Move-IsFit splitter (diff r l) f = (f.0, AllFrom-to_fetch r.overview l f.1)
Move-IsFit splitter (get_fails r l fetch removed) f =
    (Step-IsIndexedBySome splitter (Interleave.fails r) f.0, tt)
Move-IsFit splitter (apply r l fetch removed results now answers) f =
    (Step-IsIndexedBySome splitter (Interleave.cycles r l removed results now) f.0, tt)

-- What keeps a deleted item away: its tombstone, or that the cycle under way has not listed it.
abbrev IsOut : String → Phase → Type 0
IsOut id idle = Unit {0}
IsOut id (listed l) = has id l ≡ false
IsOut id (fetching l fetch removed) = has id l ≡ false

abbrev IsGone : String → Machine → Type 0
IsGone id (at r p) = (has id r.overview ≡ false) × ((has id r.tombstones ≡ true) ⊎ IsOut id p)

hit_keeps :
    (r : Replica) (key : String) (ttl : ℤ) (now : ℕ)
    → ((negative_cache_hit r key ttl now).0.overview ≡ r.overview)
      × ((negative_cache_hit r key ttl now).0.tombstones ≡ r.tombstones)
unfolding negative_cache_hit
hit_keeps r key ttl now = ground arith

-- A request that does not write the item leaves it out, and its tombstone in place.
touch_keeps :
    (splitter : Option Splitter) (id : String) {r s : Replica} (p : Phase) (t : Touch splitter r s)
    → Spares splitter id (touch {p = p} t)
    → has id r.overview ≡ false
    → (has id s.overview ≡ false) × (has id r.tombstones ≡ true → has id s.tombstones ≡ true)
unfolding invalidate clear_negative_cache negative_cache_store
touch_keeps splitter id p (writes r item) other gone =
    elim (Bool-cases (is_newer (lookup item.id r.bodies) item.version)) [
      | inl stale ↦ rw ((apply_write-reads r item splitter id).0 stale) (gone, λ h. h)
      | inr fresh ↦
          let (o, b, t) = apply_write-fields r item splitter fresh in
          rw (o, t)
            (
              ground (
                arith,
                eq_iff item.id id,
                lookup-insert item.id id (overview_of item) r.overview,
                other,
              ),
              λ h. ground (arith, eq_iff item.id id, lookup-delete item.id id r.tombstones, other),
            )
    ]
touch_keeps splitter id p (deletes r j) other gone =
    let (o, b, t) = apply_delete-fields r j splitter in
    rw (o, t)
      (
        ground (arith, lookup-delete j id r.overview),
        λ h. ground (arith, lookup-insert j id (tt {0}) r.tombstones),
      )
touch_keeps splitter id p (invalidates r now) other gone = (gone, λ h. h)
touch_keeps splitter id p (clears r) other gone = (gone, λ h. h)
touch_keeps splitter id p (looks r key ttl now) other gone =
    let (o, t) = hit_keeps r key ttl now in rw (o, t) (gone, λ h. h)
touch_keeps splitter id p (remembers r key now) other gone = (gone, λ h. h)

-- The end of a cycle that has not listed the item leaves it out.
apply_unlisted :
    (l : Table ItemOverview) (removed : List String) (results : List ItemResult)
    (splitter : Option Splitter) (now : ℕ) (r : Replica) (id : String)
    → AllListed l results
    → has id l ≡ false
    → has id r.overview ≡ false
    → has id (apply_cycle l removed results splitter now r).overview ≡ false
apply_unlisted l removed results splitter now r id a out gone =
    let (o, b) = apply_cycle-lookup l removed results splitter now r in
    let before = before_absorb-lookup l removed r id in
    let untouched =
      absorb_all-untouched l results (before_absorb l removed r) id a (ground (arith, out)) in
    rw o (ground (arith, untouched.0, before.0, gone))

Move-IsGone :
    (splitter : Option Splitter) (id : String) {m n : Machine} (move : Move splitter m n)
    → Spares splitter id move
    → IsFit m
    → IsGone id m
    → IsGone id n
unfolding count_failure
Move-IsGone splitter id (touch {p} t) spares f (gone, why) =
    let (still, marked) = touch_keeps splitter id p t spares gone in
    (still, elim why [ inl dead ↦ inl (marked dead) | inr out ↦ inr out ])
Move-IsGone splitter id (list r ovs) spares f (gone, why) = (gone, inr spares)
Move-IsGone splitter id (list_fails r) spares f (gone, why) = (gone, inr tt)
Move-IsGone splitter id (diff r l) spares f (gone, why) = (gone, why)
Move-IsGone splitter id (get_fails r l fetch removed) spares f (gone, why) = (gone, inr tt)
Move-IsGone splitter id (apply r l fetch removed results now answers) spares f (gone, why) =
    let a = AllListed-results l results (rw answers f.1) in
    (
      elim why [
        | inl dead ↦
            (apply_cycle_never_resurrects l removed results splitter now r id f.0.1.0 a dead).0
        | inr out ↦ apply_unlisted l removed results splitter now r id a out gone
      ],
      inr tt,
    )

Run-IsFit : {m n : Machine} → IsFit m → Run m n → IsFit n
Run-IsFit f Machine.start = f
Run-IsFit f (Machine.next splitter before move) = Move-IsFit splitter move (Run-IsFit f before)

Sparing-IsGone :
    (id : String) {m n : Machine} → IsFit m → IsGone id m → Sparing id m n → IsFit n × IsGone id n
Sparing-IsGone id f g Sparing.start = (f, g)
Sparing-IsGone id f g (Sparing.next splitter before move spares) =
    let (f', g') = Sparing-IsGone id f g before in
    (Move-IsFit splitter move f', Move-IsGone splitter id move spares f' g')

-- Whatever has happened to a replica, and wherever in a cycle a delete through the engine lands,
-- the item stays deleted: as long as the item is not written and no list that is answered after
-- the delete has it, no order of the parts of cycles, of writes and deletes of other items and of
-- all else that requests do brings it back into the overview or the bodies, and no path resolves
-- to it. The pattern of `path_split` may change at any time.
pub deleted_stays_deleted :
    (splitter : Option Splitter) (vault_id id : String) (r s : Replica) (p q : Phase)
    → Run (at (new_replica vault_id) idle) (at r p)
    → Sparing id (at (apply_delete r id splitter) p) (at s q)
    → (has id s.overview ≡ false)
      × (has id s.bodies ≡ false)
      × ((segs : List String) → resolve_item_from_segments s segs ≢ resolved id)
unfolding body
deleted_stays_deleted splitter vault_id id r s p q reached spared =
    let (indexed, sound) = Run-IsFit ((none, new_replica-IsConsistent none vault_id), tt) reached in
    let deleted = apply_delete-reads r id splitter id in
    let (f, g) =
      Sparing-IsGone id ((splitter, apply_delete-indexed splitter r id indexed.1.0), sound)
        (ground (arith, deleted.1, eq_iff id id), inl deleted.2) spared in
    let (last, c) = f.0 in
    let none_held : has id s.bodies ≡ false = sym (c.0.together id) ∙ g.0 in
    (
      g.0,
      none_held,
      λ segs leads.
          let (item, held) = resolve_item_from_segments-body last s segs id c leads in
          ground (arith, none_held, held),
    )

-- ===== src/Cycle/Sync.antt =====
-- What a successful cycle makes of a replica that nothing else touches meanwhile.
use openbao_plugin_secrets_o.Prelude.{
  ℕ, String, Bool, false, not, ◌&&◌, ◌||◌, Option, none, some, List, [], ◌∷◌, ◌≡◌, refl, ◌∙◌,
  str_eq, eq_iff, arith, if◌then◌else◌, Bool-cases, inl, inr,
}
use openbao_plugin_secrets_o.Prelude.Table.{
  Table, lookup, insert, has, is_some, Distinct, lookup-insert, insert-Distinct,
}
use openbao_plugin_secrets_o.Onepassword.{ItemOverview, Item, Fetch, fetched, failed, ItemResult}
use openbao_plugin_secrets_o.Config.{Splitter}
use openbao_plugin_secrets_o.Replica.{Replica, is_newer}
use openbao_plugin_secrets_o.Cycle.Diff.{is_in, is_in-to_fetch, is_in-to_remove}
use openbao_plugin_secrets_o.Cycle.Apply.{before_absorb, absorb-other, absorb-tombstones}
use openbao_plugin_secrets_o.Cycle.Races.{apply_cycle-lookup, before_absorb-lookup}
use openbao_plugin_secrets_o.Cycle.{
  index_active, is_active, is_changed, to_fetch, to_remove, overview_or_zero, absorb, absorb_all,
  apply_cycle,
}

abbrev pub result_ids : List ItemResult → List String
result_ids [] = []
result_ids (res ∷ results) = res.id ∷ result_ids results

-- The fetch brought an item, not older than the one held.
abbrev pub Brings : Option Item → Fetch → Type 0
Brings cur (failed e) = ⊥
Brings cur (fetched item) = is_newer cur item.version ≡ false

abbrev pub AllBring : Table Item → List ItemResult → Type 0
AllBring bodies [] = Unit {0}
AllBring bodies (res ∷ results) = Brings (lookup res.id bodies) res.fetch × AllBring bodies results

-- The same, for the results of one ID.
abbrev BringsFor : String → Option Item → List ItemResult → Type 0
BringsFor id cur [] = Unit {0}
BringsFor id cur (res ∷ results) = (res.id ≡ id → Brings cur res.fetch) × BringsFor id cur results

AllBring-for :
    (bodies : Table Item) (results : List ItemResult) (id : String)
    → AllBring bodies results
    → BringsFor id (lookup id bodies) results
AllBring-for bodies [] id b = tt
AllBring-for bodies (res ∷ results) id b = (λ e. rw e at b.0, AllBring-for bodies results id b.1)

absorb_stays :
    (listed : Table ItemOverview) (j : String) (f : Fetch) (r : Replica) (id : String)
    → lookup id r.overview ≡ some (overview_or_zero (lookup id listed))
    → lookup id (absorb listed j f r).overview ≡ some (overview_or_zero (lookup id listed))
unfolding absorb
absorb_stays listed j (failed e) r id h = h
absorb_stays listed j (fetched item) r id h =
    ground (arith, eq_iff j id, lookup-insert j id (overview_or_zero (lookup j listed)) r.overview)

absorb_all_stays :
    (listed : Table ItemOverview) (results : List ItemResult) (r : Replica) (id : String)
    → lookup id r.overview ≡ some (overview_or_zero (lookup id listed))
    → lookup id (absorb_all listed results r).overview ≡ some (overview_or_zero (lookup id listed))
unfolding absorb_all
absorb_all_stays listed [] r id h = h
absorb_all_stays listed (res ∷ results) r id h =
    absorb_all_stays listed results (absorb listed res.id res.fetch r) id
      (absorb_stays listed res.id res.fetch r id h)

absorb_takes :
    (listed : Table ItemOverview) (id : String) (f : Fetch) (r : Replica)
    → has id r.tombstones ≡ false
    → Brings (lookup id r.bodies) f
    → lookup id (absorb listed id f r).overview ≡ some (overview_or_zero (lookup id listed))
unfolding absorb
absorb_takes listed id (failed e) r alive b = absurd b
absorb_takes listed id (fetched item) r alive b =
    ground
      (arith, eq_iff id id, lookup-insert id id (overview_or_zero (lookup id listed)) r.overview)

-- With every result brought, an ID that was asked for has its listed overview, and any other the
-- one that it had.
absorb_all-overview :
    (listed : Table ItemOverview) (results : List ItemResult) (r : Replica) (id : String)
    → has id r.tombstones ≡ false
    → BringsFor id (lookup id r.bodies) results
    → lookup id (absorb_all listed results r).overview ≡ (
        if is_in id (result_ids results)
        then some (overview_or_zero (lookup id listed))
        else lookup id r.overview)
unfolding absorb_all is_in
absorb_all-overview listed [] r id alive b = refl
absorb_all-overview listed (res ∷ results) r id alive b = elim (Bool-cases (str_eq res.id id)) [
  | inl same ↦
      let e : res.id ≡ id = (eq_iff res.id id).0 same in
      rw (same) (
        absorb_all_stays listed results (absorb listed res.id res.fetch r) id
          (rw e (absorb_takes listed id res.fetch r alive (b.0 e))))
  | inr differ ↦
      let other =
        absorb-other listed res.id res.fetch r id (λ e. ground (arith, e, eq_iff res.id id)) in
      let next =
        absorb_all-overview listed results (absorb listed res.id res.fetch r) id
          (rw (absorb-tombstones listed res.id res.fetch r) alive) (rw (other.1) b.1) in
      rw (differ, ← other.0) next
]

Brings-none : (cur : Option Item) (f : Fetch) → Brings cur f → Brings none f
Brings-none cur (failed e) b = b
Brings-none cur (fetched item) b = refl

BringsFor-none :
    (id : String) (cur : Option Item) (results : List ItemResult)
    → BringsFor id cur results
    → BringsFor id none results
BringsFor-none id cur [] b = tt
BringsFor-none id cur (res ∷ results) b =
    (λ e. Brings-none cur res.fetch (b.0 e), BringsFor-none id cur results b.1)

-- The UpdatedAt that the change detection goes by.
abbrev pub stamp : Option ItemOverview → Option ℕ
stamp none = none
stamp (some ov) = some ov.updated_at

stamp-unchanged :
    (known : Option ItemOverview) (ov : ItemOverview)
    → is_changed known ov ≡ false
    → stamp known ≡ some ov.updated_at
stamp-unchanged none ov h = cc
stamp-unchanged (some old) ov h = ground arith

changed-stamp :
    (known : Option ItemOverview) (ov : ItemOverview)
    → stamp known ≡ some ov.updated_at
    → is_changed known ov ≡ false
changed-stamp none ov h = cc
changed-stamp (some old) ov h = ground arith

-- The entry of one ID after the cycle bears the listed UpdatedAt, or is absent if it is not listed.
pub apply_cycle-stamp :
    (listed : Table ItemOverview) (results : List ItemResult) (splitter : Option Splitter) (now : ℕ)
    (r : Replica) (id : String)
    → Distinct listed
    → has id r.tombstones ≡ false
    → result_ids results ≡ to_fetch r.overview listed
    → AllBring r.bodies results
    → stamp (
        lookup id
          (apply_cycle listed (to_remove r.overview listed) results splitter now r).overview)
      ≡ stamp (lookup id listed)
apply_cycle-stamp listed results splitter now r id d alive asked b =
    let removed = to_remove r.overview listed in
    let before = before_absorb-lookup listed removed r id in
    let brought = AllBring-for r.bodies results id b in
    let still : BringsFor id (lookup id (before_absorb listed removed r).bodies) results =
      elim (Bool-cases (is_in id removed)) [
        | inl out ↦ rw (before.1, out) (BringsFor-none id _ results brought)
        | inr kept ↦ rw (before.1, kept) brought
      ] in
    let absorbed =
      absorb_all-overview listed results (before_absorb listed removed r) id
        (ground (arith, before.2, alive)) still in
    let wanted = is_in-to_fetch r.overview listed id d in
    let dropped = is_in-to_remove r.overview listed id in
    rw
      (
        (apply_cycle-lookup listed removed results splitter now r).0,
        absorbed,
        asked,
        wanted,
        before.0,
        dropped,
      )
      (settled (lookup id r.overview) (lookup id listed))
  where
    settled :
        (known found : Option ItemOverview)
        → stamp (
            if elim found [ none ↦ false | some ov ↦ is_changed known ov ]
            then some (overview_or_zero found)
            else (if is_some known && not (is_some found) then none else known))
          ≡ stamp found
    settled none none = refl
    settled (some old) none = refl
    settled known (some ov) = ground (arith, stamp-unchanged known ov)

-- A list without members is empty.
nothing_in : (xs : List String) → ((id : String) → is_in id xs ≡ false) → xs ≡ []
unfolding is_in
nothing_in [] h = refl
nothing_in (x ∷ xs) h = absurd (ground (arith, h x, eq_iff x x))

-- Over a listing whose stamps the replica bears already, a cycle fetches nothing and removes
-- nothing: the steady state.
pub steady_state :
    (known listed : Table ItemOverview)
    → Distinct listed
    → ((id : String) → stamp (lookup id known) ≡ stamp (lookup id listed))
    → (to_fetch known listed ≡ []) × (to_remove known listed ≡ [])
steady_state known listed d same = (nothing_in _ no_fetch, nothing_in _ no_removal)
  where
    fetch_none :
        (k f : Option ItemOverview)
        → stamp k ≡ stamp f
        → elim f [ none ↦ false | some ov ↦ is_changed k ov ] ≡ false
    fetch_none k none e = refl
    fetch_none k (some ov) e = changed-stamp k ov e

    remove_none :
        (k f : Option ItemOverview) → stamp k ≡ stamp f → (is_some k && not (is_some f)) ≡ false
    remove_none none f e = refl
    remove_none (some old) none e = cc
    remove_none (some old) (some ov) e = refl

    no_fetch : (id : String) → is_in id (to_fetch known listed) ≡ false
    no_fetch id =
        is_in-to_fetch known listed id d ∙ fetch_none (lookup id known) (lookup id listed) (same id)

    no_removal : (id : String) → is_in id (to_remove known listed) ≡ false
    no_removal id =
        is_in-to_remove known listed id ∙ remove_none (lookup id known) (lookup id listed) (same id)

pub index_active-Distinct :
    (ovs : List ItemOverview) (m : Table ItemOverview) → Distinct m → Distinct (index_active ovs m)
unfolding index_active
index_active-Distinct [] m d = d
index_active-Distinct (ov ∷ ovs) m d = elim (Bool-cases (is_active ov.state)) [
  | inl live ↦ rw live (index_active-Distinct ovs _ (insert-Distinct ov.id ov m d))
  | inr dead ↦ rw dead (index_active-Distinct ovs m d)
]

abbrev pub lists_active : String → List ItemOverview → Bool
lists_active id [] = false
lists_active id (ov ∷ ovs) = (is_active ov.state && str_eq ov.id id) || lists_active id ovs

-- An item counts as listed exactly if some listed overview with its ID is active: an archived item
-- reads as deleted.
pub has-index_active :
    (ovs : List ItemOverview) (m : Table ItemOverview) (id : String)
    → has id (index_active ovs m) ≡ (lists_active id ovs || has id m)
unfolding index_active
has-index_active [] m id = refl
has-index_active (ov ∷ ovs) m id = ground (
  arith,
  has-index_active ovs (insert ov.id ov m) id,
  has-index_active ovs m id,
  lookup-insert ov.id id ov m,
)

-- ===== src/Cycle/Apply.antt =====
-- What the end of a cycle does to a replica, whatever came between the diff and it.
use openbao_plugin_secrets_o.Prelude.{
  ℕ, String, true, false, ◌&&◌, Option, none, List, [], ◌∷◌, ◌≡◌, refl, eq_iff, arith,
  if◌then◌else◌, Bool-cases, inl, inr,
}
use openbao_plugin_secrets_o.Prelude.Table.{
  Table, lookup, insert, delete, has, lookup-insert, lookup-delete, insert-Distinct,
  delete-Distinct,
}
use openbao_plugin_secrets_o.Onepassword.{ItemOverview, Item, Fetch, fetched, failed, ItemResult}
use openbao_plugin_secrets_o.Config.{Splitter}
use openbao_plugin_secrets_o.Replica.{Replica, is_newer}
use openbao_plugin_secrets_o.Replica.Consistent.{
  IsWhole, IsConsistent, IsConsistent-same, rebuild_indexes-IsConsistent,
}
use openbao_plugin_secrets_o.Cycle.Diff.{is_in}
use openbao_plugin_secrets_o.Cycle.{
  remove_all, keep_listed, overview_or_zero, absorb, absorb_all, apply_cycle,
}

-- What the parts leave alone.
pub remove_all-lookup :
    (ids : List String) (r : Replica) (id : String)
    → (lookup id (remove_all ids r).overview
        ≡ (if is_in id ids then none else lookup id r.overview))
      × (lookup id (remove_all ids r).bodies ≡ (if is_in id ids then none else lookup id r.bodies))
      × ((remove_all ids r).tombstones ≡ r.tombstones)
unfolding remove_all is_in
remove_all-lookup [] r id = (refl, refl, refl)
remove_all-lookup (x ∷ xs) r id = ground (
  arith,
  remove_all-lookup xs (record r { overview = delete x r.overview; bodies = delete x r.bodies }) id,
  lookup-delete x id r.overview,
  lookup-delete x id r.bodies,
)

pub has-keep_listed :
    (m : Table (Unit {0})) (listed : Table ItemOverview) (id : String)
    → has id (keep_listed m listed) ≡ (has id m && has id listed)
unfolding keep_listed lookup
has-keep_listed [] listed id = refl
has-keep_listed ((j, t) ∷ m) listed id = ground (arith, eq_iff j id, has-keep_listed m listed id)

-- Every result is for a listed ID.
abbrev pub AllListed : Table ItemOverview → List ItemResult → Type 0
AllListed listed [] = Unit {0}
AllListed listed (res ∷ results) = (has res.id listed ≡ true) × AllListed listed results

pub absorb-tombstones :
    (listed : Table ItemOverview) (id : String) (f : Fetch) (r : Replica)
    → (absorb listed id f r).tombstones ≡ r.tombstones
unfolding absorb
absorb-tombstones listed id (failed e) r = refl
absorb-tombstones listed id (fetched item) r = ground arith

-- A result touches the entry of its own ID only, and not that of a tombstone.
pub absorb-other :
    (listed : Table ItemOverview) (j : String) (f : Fetch) (r : Replica) (id : String)
    → ((j ≡ id) × (has j r.tombstones ≡ false) → ⊥)
    → (lookup id (absorb listed j f r).overview ≡ lookup id r.overview)
      × (lookup id (absorb listed j f r).bodies ≡ lookup id r.bodies)
unfolding absorb
absorb-other listed j (failed e) r id h = (refl, refl)
absorb-other listed j (fetched item) r id h = ground (
  arith,
  eq_iff j id,
  h,
  lookup-insert j id (overview_or_zero (lookup j listed)) r.overview,
  lookup-insert j id item r.bodies,
)

IsWhole-put :
    (r : Replica) (id : String) (ov : ItemOverview) (item : Item)
    → has id r.tombstones ≡ false
    → IsWhole r
    → IsWhole (record r { overview = insert id ov r.overview; bodies = insert id item r.bodies })
IsWhole-put r id ov item alive w = record {
  distinct = insert-Distinct id ov r.overview w.distinct;
  distinct_bodies = insert-Distinct id item r.bodies w.distinct_bodies;
  together = λ x.
      ground
        (arith, lookup-insert id x ov r.overview, lookup-insert id x item r.bodies, w.together x);
  dead = λ x h. ground (arith, eq_iff id x, lookup-insert id x ov r.overview, w.dead x);
}

absorb-IsWhole :
    (listed : Table ItemOverview) (j : String) (f : Fetch) (r : Replica)
    → IsWhole r
    → IsWhole (absorb listed j f r)
unfolding absorb
absorb-IsWhole listed j (failed e) r w = w
absorb-IsWhole listed j (fetched item) r w = elim (Bool-cases (has j r.tombstones)) [
  | inl dead ↦ rw dead w
  | inr alive ↦ rw alive (elim (Bool-cases (is_newer (lookup j r.bodies) item.version)) [
    | inl newer ↦ rw newer w
    | inr older ↦ rw older (IsWhole-put r j _ item alive w)
  ])
]

absorb_all-IsWhole :
    (listed : Table ItemOverview) (results : List ItemResult) (r : Replica)
    → IsWhole r
    → IsWhole (absorb_all listed results r)
unfolding absorb_all
absorb_all-IsWhole listed [] r w = w
absorb_all-IsWhole listed (res ∷ results) r w =
    absorb_all-IsWhole listed results (absorb listed res.id res.fetch r)
      (absorb-IsWhole listed res.id res.fetch r w)

remove_all-IsWhole : (ids : List String) (r : Replica) → IsWhole r → IsWhole (remove_all ids r)
unfolding remove_all
remove_all-IsWhole [] r w = w
remove_all-IsWhole (x ∷ xs) r w = remove_all-IsWhole xs _ (record {
  distinct = delete-Distinct x r.overview w.distinct;
  distinct_bodies = delete-Distinct x r.bodies w.distinct_bodies;
  together = λ id.
      ground (arith, lookup-delete x id r.overview, lookup-delete x id r.bodies, w.together id);
  dead = λ id h. ground (arith, lookup-delete x id r.overview, w.dead id);
})

-- The replica that the results are absorbed into.
unfoldable pub before_absorb : Table ItemOverview → List String → Replica → Replica
before_absorb listed removed r = record (remove_all removed r) {
  tombstones = keep_listed (remove_all removed r).tombstones listed;
}

before_absorb-IsWhole :
    (listed : Table ItemOverview) (removed : List String) (r : Replica)
    → IsWhole r
    → IsWhole (before_absorb listed removed r)
unfolding before_absorb
before_absorb-IsWhole listed removed r w =
    let v = remove_all-IsWhole removed r w in
    record {
      distinct = v.distinct;
      distinct_bodies = v.distinct_bodies;
      together = v.together;
      dead = λ id h.
          ground (arith, has-keep_listed (remove_all removed r).tombstones listed id, v.dead id);
    }

-- The end of a cycle leaves the replica consistent, whatever was listed, removed and fetched.
pub apply_cycle-IsConsistent :
    (listed : Table ItemOverview) (removed : List String) (results : List ItemResult)
    (splitter : Option Splitter) (now : ℕ) (r : Replica)
    → IsWhole r
    → IsConsistent splitter (apply_cycle listed removed results splitter now r)
unfolding apply_cycle before_absorb
apply_cycle-IsConsistent listed removed results splitter now r w =
    IsConsistent-same splitter _ _ refl refl refl refl refl (
      rebuild_indexes-IsConsistent splitter
        (absorb_all listed results (before_absorb listed removed r))
        (absorb_all-IsWhole listed results _ (before_absorb-IsWhole listed removed r w)))

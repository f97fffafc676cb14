-- ===== src/Cycle/Races.antt =====
-- A cycle against the writes and deletes that land between its parts.
use openbao_plugin_secrets_o.Prelude.{
  ℕ, ◌≤◌, String, true, false, not, ◌&&◌, ◌||◌, Option, none, some, List, [], ◌∷◌, ◌≡◌, refl, ◌∙◌,
  str_eq, eq_iff, arith, if◌then◌else◌, Bool-cases, inl, inr,
}
use openbao_plugin_secrets_o.Prelude.Table.{Table, lookup, has, lookup-insert}
use openbao_plugin_secrets_o.Onepassword.{ItemOverview, Item, Fetch, fetched, failed, ItemResult}
use openbao_plugin_secrets_o.Config.{Splitter}
use openbao_plugin_secrets_o.Replica.{Replica, is_newer, apply_write}
use openbao_plugin_secrets_o.Replica.Consistent.{IsWhole, rebuild_indexes_keeps}
use openbao_plugin_secrets_o.Replica.Writes.{apply_write-reads}
use openbao_plugin_secrets_o.Cycle.Diff.{is_in, is_in-to_remove}
use openbao_plugin_secrets_o.Cycle.Apply.{
  AllListed, remove_all-lookup, has-keep_listed, absorb-other, absorb-tombstones, before_absorb,
}
use openbao_plugin_secrets_o.Cycle.{to_remove, absorb, absorb_all, apply_cycle}

-- What the end of a cycle leaves of the entry of one ID is what absorbing leaves of it.
pub apply_cycle-lookup :
    (listed : Table ItemOverview) (removed : List String) (results : List ItemResult)
    (splitter : Option Splitter) (now : ℕ) (r : Replica)
    → ((apply_cycle listed removed results splitter now r).overview
        ≡ (absorb_all listed results (before_absorb listed removed r)).overview)
      × ((apply_cycle listed removed results splitter now r).bodies
          ≡ (absorb_all listed results (before_absorb listed removed r)).bodies)
unfolding apply_cycle before_absorb
apply_cycle-lookup listed removed results splitter now r =
    let k =
      rebuild_indexes_keeps splitter (absorb_all listed results (before_absorb listed removed r)) in
    (k.0, k.1)

pub before_absorb-lookup :
    (listed : Table ItemOverview) (removed : List String) (r : Replica) (id : String)
    → let s = before_absorb listed removed r in
      (lookup id s.overview ≡ (if is_in id removed then none else lookup id r.overview))
      × (lookup id s.bodies ≡ (if is_in id removed then none else lookup id r.bodies))
      × (has id s.tombstones ≡ (has id r.tombstones && has id listed))
unfolding before_absorb
before_absorb-lookup listed removed r id =
    let k = remove_all-lookup removed r id in
    (k.0, k.1, rw (k.2, has-keep_listed r.tombstones listed id))

-- An entry that no result may touch: a tombstone, or an ID that is not listed.
pub absorb_all-untouched :
    (listed : Table ItemOverview) (results : List ItemResult) (r : Replica) (id : String)
    → AllListed listed results
    → (has id r.tombstones || not (has id listed)) ≡ true
    → (lookup id (absorb_all listed results r).overview ≡ lookup id r.overview)
      × (lookup id (absorb_all listed results r).bodies ≡ lookup id r.bodies)
unfolding absorb_all
absorb_all-untouched listed [] r id a h = (refl, refl)
absorb_all-untouched listed (res ∷ results) r id a h =
    let kept = absorb-tombstones listed res.id res.fetch r in
    let same = absorb-other listed res.id res.fetch r id (λ e. ground (arith, e, h, a.0)) in
    let rest =
      absorb_all-untouched listed results (absorb listed res.id res.fetch r) id a.1 (rw kept h) in
    (rest.0 ∙ same.0, rest.1 ∙ same.1)

-- A deleted item is not resurrected: the end of a cycle, whenever it was listed and whatever was
-- fetched for it, leaves an item that is tombstoned by then out of the overview and the bodies.
pub apply_cycle_never_resurrects :
    (listed : Table ItemOverview) (removed : List String) (results : List ItemResult)
    (splitter : Option Splitter) (now : ℕ) (r : Replica) (id : String)
    → IsWhole r
    → AllListed listed results
    → has id r.tombstones ≡ true
    → (has id (apply_cycle listed removed results splitter now r).overview ≡ false)
      × (has id (apply_cycle listed removed results splitter now r).bodies ≡ false)
apply_cycle_never_resurrects listed removed results splitter now r id w a dead =
    let (o, b) = apply_cycle-lookup listed removed results splitter now r in
    let before = before_absorb-lookup listed removed r id in
    let untouched =
      absorb_all-untouched listed results (before_absorb listed removed r) id a
        (ground (arith, before, dead)) in
    rw (o, b, untouched.0, untouched.1, before.0, before.1)
      (ground (arith, w.dead id dead, w.together id))

absorb-version :
    (listed : Table ItemOverview) (j : String) (f : Fetch) (r : Replica) (id : String) (cur : Item)
    → lookup id r.bodies ≡ some cur
    → (item : Item) × (lookup id (absorb listed j f r).bodies ≡ some item)
      × (cur.version ≤ item.version)
unfolding absorb
absorb-version listed j (failed e) r id cur h = (cur, h, omega arith)
absorb-version listed j (fetched item) r id cur h =
    elim (Bool-cases (has j r.tombstones || is_newer (lookup j r.bodies) item.version)) [
      | inl skipped ↦ (cur, ground arith, omega arith)
      | inr taken ↦ elim (Bool-cases (str_eq j id)) [
        | inl same ↦ (
          item,
          ground (arith, eq_iff j id, lookup-insert j id item r.bodies),
          ground (arith, eq_iff j id),
        )
        | inr differ ↦
            (cur, ground (arith, eq_iff j id, lookup-insert j id item r.bodies), omega arith)
      ]
    ]

absorb_all-version :
    (listed : Table ItemOverview) (results : List ItemResult) (r : Replica) (id : String)
    (cur : Item)
    → lookup id r.bodies ≡ some cur
    → (item : Item) × (lookup id (absorb_all listed results r).bodies ≡ some item)
      × (cur.version ≤ item.version)
unfolding absorb_all
absorb_all-version listed [] r id cur h = (cur, h, omega arith)
absorb_all-version listed (res ∷ results) r id cur h =
    let (mid, found, up) = absorb-version listed res.id res.fetch r id cur h in
    let (item, last, up') =
      absorb_all-version listed results (absorb listed res.id res.fetch r) id mid found in
    (item, last, omega arith)

-- A newer version is not regressed: an item that is held by the end of the cycle, and that the
-- diff did not find gone, is held afterwards at the same version or a higher one.
pub apply_cycle_never_regresses :
    (listed : Table ItemOverview) (removed : List String) (results : List ItemResult)
    (splitter : Option Splitter) (now : ℕ) (r : Replica) (id : String) (cur : Item)
    → lookup id r.bodies ≡ some cur
    → is_in id removed ≡ false
    → (item : Item) × (lookup id (apply_cycle listed removed results splitter now r).bodies
        ≡ some item)
      × (cur.version ≤ item.version)
apply_cycle_never_regresses listed removed results splitter now r id cur h kept =
    let (o, b) = apply_cycle-lookup listed removed results splitter now r in
    let before = before_absorb-lookup listed removed r id in
    let held : lookup id (before_absorb listed removed r).bodies ≡ some cur =
      before.1 ∙ rw kept h in
    rw b (absorb_all-version listed results (before_absorb listed removed r) id cur held)

-- An item that the engine creates after a cycle has listed the vault, and before the cycle takes
-- its diff, is lost from the replica: the diff finds it gone, and the end of the cycle drops it.
pub created_after_list_is_lost :
    (listed : Table ItemOverview) (results : List ItemResult) (splitter : Option Splitter) (now : ℕ)
    (r : Replica) (item : Item)
    → AllListed listed results
    → has item.id listed ≡ false
    → lookup item.id r.bodies ≡ none
    → let r' = apply_write r item splitter in
      let removed = to_remove r'.overview listed in
      (has item.id r'.overview ≡ true)
      × (is_in item.id removed ≡ true)
      × (has item.id (apply_cycle listed removed results splitter now r').overview ≡ false)
      × (has item.id (apply_cycle listed removed results splitter now r').bodies ≡ false)
created_after_list_is_lost listed results splitter now r item a unlisted new =
    let r' = apply_write r item splitter in
    let removed = to_remove r'.overview listed in
    let written = (apply_write-reads r item splitter item.id).1 (ground (arith, new)) in
    let here : has item.id r'.overview ≡ true = ground (arith, written.1, eq_iff item.id item.id) in
    let gone : is_in item.id removed ≡ true =
      is_in-to_remove r'.overview listed item.id ∙ ground (arith, here, unlisted) in
    let (o, b) = apply_cycle-lookup listed removed results splitter now r' in
    let before = before_absorb-lookup listed removed r' item.id in
    let untouched =
      absorb_all-untouched listed results (before_absorb listed removed r') item.id a
        (ground (arith, unlisted)) in
    (
      here,
      gone,
      rw o (ground (arith, untouched.0, before.0, gone)),
      rw b (ground (arith, untouched.1, before.1, gone)),
    )

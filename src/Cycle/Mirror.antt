-- ===== src/Cycle/Mirror.antt =====
-- What a cycle makes of the bodies: the replica of a vault becomes a mirror of what 1Password
-- holds. The abstract view of a vault is a function from IDs to items.
use openbao_plugin_secrets_o.Prelude.{
  ℕ, String, true, false, Option, none, some, List, [], ◌∷◌, ◌≡◌, refl, ◌∙◌, ap, str_eq, eq_iff,
  arith, if◌then◌else◌, Bool-cases, Option-cases, inl, inr,
}
use openbao_plugin_secrets_o.Prelude.Table.{Table, lookup, has, lookup-insert}
use openbao_plugin_secrets_o.Onepassword.{
  ItemOverview, Item, Fetch, fetched, failed, not_found, ItemResult, ok,
}
use openbao_plugin_secrets_o.Config.{Splitter}
use openbao_plugin_secrets_o.Client.{OpClient}
use openbao_plugin_secrets_o.Governor.{WorkClass}
use openbao_plugin_secrets_o.Replica.{Replica, is_newer, body}
use openbao_plugin_secrets_o.Replica.Consistent.{IsWhole}
use openbao_plugin_secrets_o.Cycle.Diff.{is_in, is_in-to_fetch, is_in-to_remove}
use openbao_plugin_secrets_o.Cycle.Apply.{before_absorb, absorb-other, absorb-tombstones}
use openbao_plugin_secrets_o.Cycle.Races.{
  apply_cycle-lookup, before_absorb-lookup, absorb_all-untouched,
}
use openbao_plugin_secrets_o.Cycle.Sync.{
  result_ids, lists_active, index_active-Distinct, has-index_active,
}
use openbao_plugin_secrets_o.Cycle.Deleted.{AllFrom-to_fetch, AllListed-results}
use openbao_plugin_secrets_o.Cycle.Spend.{do_cycle_runs}
use openbao_plugin_secrets_o.Cycle.{
  RequestGate, Moments, World, index_active, is_changed, to_fetch, to_remove, absorb, absorb_all,
  apply_cycle, do_cycle,
}

abbrev pub fetch_of : String → Option Item → Fetch
fetch_of id (some item) = fetched item
fetch_of id none = failed (not_found id)

abbrev pub answers : (String → Option Item) → List String → List ItemResult
answers bodies [] = []
answers bodies (id ∷ ids) = record { id = id; fetch = fetch_of id (bodies id) } ∷ answers bodies ids

pub result_ids-answers :
    (bodies : String → Option Item) (ids : List String) → result_ids (answers bodies ids) ≡ ids
result_ids-answers bodies [] = refl
result_ids-answers bodies (id ∷ ids) = ap (◌∷◌ id) (result_ids-answers bodies ids)

absorb_item :
    (listed : Table ItemOverview) (id : String) (item : Item) (r : Replica)
    → has id r.tombstones ≡ false
    → is_newer (lookup id r.bodies) item.version ≡ false
    → lookup id (absorb listed id (fetched item) r).bodies ≡ some item
unfolding absorb
absorb_item listed id item r alive old =
    ground (arith, eq_iff id id, lookup-insert id id item r.bodies)

-- An ID that is answered has the answered item afterwards.
absorb_all-body :
    (listed : Table ItemOverview) (bodies : String → Option Item) (ids : List String) (r : Replica)
    (id : String) (item : Item)
    → has id r.tombstones ≡ false
    → bodies id ≡ some item
    → is_newer (lookup id r.bodies) item.version ≡ false
    → lookup id (absorb_all listed (answers bodies ids) r).bodies
      ≡ (if is_in id ids then some item else lookup id r.bodies)
unfolding absorb_all is_in
absorb_all-body listed bodies [] r id item alive there old = refl
absorb_all-body listed bodies (x ∷ ids) r id item alive there old =
    let r' = absorb listed x (fetch_of x (bodies x)) r in
    let kept = absorb-tombstones listed x (fetch_of x (bodies x)) r in
    elim (Bool-cases (str_eq x id)) [
      | inl same ↦
          let e : x ≡ id = (eq_iff x id).0 same in
          let held : lookup id r'.bodies ≡ some item =
            rw (e, there) (absorb_item listed id item r alive old) in
          let rest =
            absorb_all-body listed bodies ids r' id item (rw kept alive) there
              (ground (arith, held)) in
          ground (arith, rest, same, held)
      | inr differ ↦
          let other =
            absorb-other listed x (fetch_of x (bodies x)) r id
              (λ h. ground (arith, h, eq_iff x id)) in
          let rest =
            absorb_all-body listed bodies ids r' id item (rw kept alive) there (rw other.1 old) in
          rw differ (rest ∙ rw other.1)
    ]

-- What 1Password holds is no older than what the replica holds, and an item that bears the
-- UpdatedAt that the replica knows is the one that it holds.
pub record IsAhead (ovs : List ItemOverview) (bodies : String → Option Item) (r : Replica)
    : Type 0 where
  pub held : (id : String) → lists_active id ovs ≡ true → (item : Item) × (bodies id ≡ some item)
  pub same :
      (id : String) (ov : ItemOverview)
      → lookup id (index_active ovs []) ≡ some ov
      → is_changed (lookup id r.overview) ov ≡ false
      → lookup id r.bodies ≡ bodies id
  pub older :
      (id : String) (item : Item)
      → bodies id ≡ some item
      → is_newer (lookup id r.bodies) item.version ≡ false

-- The items of a vault, by ID.
abbrev pub vault_of : List ItemOverview → (String → Option Item) → String → Option Item
vault_of ovs bodies id = if lists_active id ovs then bodies id else none

has-listed :
    (ovs : List ItemOverview) (id : String) → has id (index_active ovs []) ≡ lists_active id ovs
unfolding lookup
has-listed ovs id = ground (arith, has-index_active ovs [] id)

module _ (ovs : List ItemOverview) (bodies : String → Option Item) (splitter : Option Splitter)
    (now : ℕ) (r : Replica) (whole : IsWhole r) (id : String) (alive : has id r.tombstones ≡ false)
    (ahead : IsAhead ovs bodies r) where
  abbrev listing : Table ItemOverview
  listing = index_active ovs []

  abbrev wanted : List String
  wanted = to_fetch r.overview listing

  abbrev removed : List String
  removed = to_remove r.overview listing

  abbrev cleared : Replica
  cleared = before_absorb listing removed r

  absorbed-listed :
      (ov : ItemOverview) (item : Item)
      → lookup id listing ≡ some ov
      → bodies id ≡ some item
      → lookup id (absorb_all listing (answers bodies wanted) cleared).bodies ≡ some item
  absorbed-listed ov item there item_there =
      let before = before_absorb-lookup listing removed r id in
      let kept : is_in id removed ≡ false =
        is_in-to_remove r.overview listing id ∙ ground (arith, there) in
      let held : lookup id cleared.bodies ≡ lookup id r.bodies = before.1 ∙ rw kept in
      let asked = is_in-to_fetch r.overview listing id (index_active-Distinct ovs [] tt) in
      let after =
        absorb_all-body listing bodies wanted cleared id item (ground (arith, before.2, alive))
          item_there (rw held (ahead.older id item item_there)) in
      elim (Bool-cases (is_changed (lookup id r.overview) ov)) [
        | inl changed ↦ ground (arith, after, asked, there, changed)
        | inr known ↦
            ground
              (arith, after, asked, there, known, held, ahead.same id ov there known, item_there)
      ]

  absorbed-unlisted :
      lookup id listing ≡ none
      → lookup id (absorb_all listing (answers bodies wanted) cleared).bodies ≡ none
  absorbed-unlisted out =
      let before = before_absorb-lookup listing removed r id in
      let gone = is_in-to_remove r.overview listing id in
      let from = AllFrom-to_fetch r.overview listing (index_active-Distinct ovs [] tt) in
      let untouched =
        absorb_all-untouched listing (answers bodies wanted) cleared id
          (AllListed-results listing _ (rw (result_ids-answers bodies wanted) from))
          (ground (arith, out)) in
      ground (arith, untouched.1, before.1, gone, out, whole.together id)

  -- The end of a cycle with these answers.
  pub apply_cycle-mirrors :
      lookup id (apply_cycle listing removed (answers bodies wanted) splitter now r).bodies
      ≡ vault_of ovs bodies id
  apply_cycle-mirrors =
      let (o, b) = apply_cycle-lookup listing removed (answers bodies wanted) splitter now r in
      let listed = has-listed ovs id in
      rw b (elim (Option-cases (lookup id listing)) [
        | inl out ↦ absorbed-unlisted out ∙ ground (arith, listed, out)
        | inr (ov, there) ↦
            let (item, item_there) = ahead.held id (ground (arith, listed, there)) in
            absorbed-listed ov item there item_there ∙ ground (arith, listed, there, item_there)
      ])

-- A client that answers for one vault, from the state that a cycle calls it in.
pub record Serves {W : Type 0} (client : OpClient W) (vault_id : String) (w : W)
    (ovs : List ItemOverview) (bodies : String → Option Item) : Type 0 where
  pub lists : (client.list_items vault_id w).0 ≡ ok ovs
  pub gets :
      (ids : List String)
      → (client.get_items vault_id ids (client.list_items vault_id w).1).0 ≡ ok (answers bodies ids)

-- A cycle that is allowed, against a client that answers for the vault, makes the replica a mirror
-- of it: where the replica has no tombstone left and is not ahead of 1Password, afterwards the body
-- under each ID is the item that 1Password holds there as active, and there is none where it holds
-- none.
pub do_cycle_mirrors :
    {G W : Type 0} (gate : RequestGate G) (client : OpClient W) (splitter : Option Splitter)
    (class : WorkClass) (at : Moments) (s : World G W) (ovs : List ItemOverview)
    (bodies : String → Option Item)
    → (gate.allow s.gate at.asked s.replica.vault_id class).1 ≡ true
    → Serves client s.replica.vault_id s.remote ovs bodies
    → IsWhole s.replica
    → ((id : String) → has id s.replica.tombstones ≡ false)
    → IsAhead ovs bodies s.replica
    → let (s', e) = do_cycle gate client splitter class at s in
      (e ≡ none) × ((id : String) → body s'.replica id ≡ vault_of ovs bodies id)
unfolding body
do_cycle_mirrors gate client splitter class at s ovs bodies allowed serves whole alive ahead =
    let (fine, same) =
      do_cycle_runs gate client splitter class at s ovs _ allowed serves.lists (serves.gets _) in
    (
      fine,
      λ id.
          rw same
            (apply_cycle-mirrors ovs bodies splitter at.done s.replica whole id (alive id) ahead),
    )

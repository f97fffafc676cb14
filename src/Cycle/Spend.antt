-- ===== src/Cycle/Spend.antt =====
-- What a cycle costs, and what it does when it fails.
use openbao_plugin_secrets_o.Prelude.{
  ℕ, ◌+◌, ◌/◌, String, true, false, Option, none, some, List, [], ◌≡◌, ◌≢◌, refl, ◌∙◌, length,
  arith, Bool-cases, inl, inr, ◌⊎◌,
}
use openbao_plugin_secrets_o.Prelude.Table.{Table, lookup, has}
use openbao_plugin_secrets_o.Onepassword.{ItemOverview, Result, ok, err, ItemResult}
use openbao_plugin_secrets_o.Config.{Splitter}
use openbao_plugin_secrets_o.Client.{OpClient, chunk_ids, max_get_all_ids}
use openbao_plugin_secrets_o.Client.Batches.{chunk_ids-batches}
use openbao_plugin_secrets_o.Governor.{WorkClass}
use openbao_plugin_secrets_o.Replica.Consistent.{IsWhole, IsConsistent}
use openbao_plugin_secrets_o.Cycle.Apply.{apply_cycle-IsConsistent}
use openbao_plugin_secrets_o.Cycle.Sync.{
  result_ids, AllBring, stamp, apply_cycle-stamp, index_active-Distinct,
}
use openbao_plugin_secrets_o.Cycle.{
  RequestGate, CycleError, gate_denied, Moments, World, index_active, to_fetch, to_remove,
  apply_cycle, count_failure, after_get, after_list, do_cycle,
}

-- A gate that lets every cycle through and adds up what it spends.
abbrev pub counting_gate : RequestGate ℕ
counting_gate = record {
  allow = λ g now vault_id class. (g, true);
  record_request = λ g now vault_id units e. g + units;
  record_success = λ g vault_id. g;
}

module _ {W : Type 0} (client : OpClient W) where
  -- The request units of a cycle: one for the list and, if that succeeds, one for each batch of
  -- up to 50 changed or new items.
  unfoldable pub cost : Result (List ItemOverview) → Table ItemOverview → ℕ
  cost (err e) known = 1
  cost (ok ovs) known = 1 + (length (to_fetch known (index_active ovs [])) + 49) / 50

  after_get_spends :
      (splitter : Option Splitter) (at : Moments) (listed : Table ItemOverview)
      (fetch removed : List String) (result : Result (List ItemResult)) (s : World ℕ W)
      → (after_get counting_gate client splitter at listed fetch removed result s).0.gate
        ≡ s.gate + length (chunk_ids fetch max_get_all_ids)
  unfolding after_get
  after_get_spends splitter at listed fetch removed (err e) s = refl
  after_get_spends splitter at listed fetch removed (ok results) s = refl

  after_list_spends :
      (splitter : Option Splitter) (at : Moments) (result : Result (List ItemOverview))
      (s : World ℕ W)
      → (after_list counting_gate client splitter at result s).0.gate
        ≡ s.gate + cost result s.replica.overview
  unfolding after_list cost
  after_list_spends splitter at (err e) s = refl
  after_list_spends splitter at (ok ovs) s =
      let fetch = to_fetch s.replica.overview (index_active ovs []) in
      let batches = (chunk_ids-batches fetch max_get_all_ids (omega arith)).2 in
      after_get_spends splitter at _ fetch _ _ _ ∙ omega (arith, batches)

  -- A cycle spends one request for the list and one for each 50 changed or new items, rounded up,
  -- whether or not the fetch succeeds; a failed list costs the one request.
  pub do_cycle_spends :
      (splitter : Option Splitter) (class : WorkClass) (at : Moments) (s : World ℕ W)
      → (do_cycle counting_gate client splitter class at s).0.gate
        ≡ s.gate + cost (client.list_items s.replica.vault_id s.remote).0 s.replica.overview
  unfolding do_cycle
  do_cycle_spends splitter class at s =
      after_list_spends splitter at (client.list_items s.replica.vault_id s.remote).0 _

module _ {G W : Type 0} (gate : RequestGate G) (client : OpClient W) (splitter : Option Splitter)
    (class : WorkClass) (at : Moments) (s : World G W) where
  after_get_failed :
      (listed : Table ItemOverview) (fetch removed : List String)
      (result : Result (List ItemResult)) (t : World G W) (e : CycleError)
      → (after_get gate client splitter at listed fetch removed result t).1 ≡ some e
      → (e ≢ gate_denied)
        × ((after_get gate client splitter at listed fetch removed result t).0.replica
            ≡ count_failure t.replica)
  unfolding after_get
  after_get_failed listed fetch removed (err x) t e h = (λ d. ground arith, refl)
  after_get_failed listed fetch removed (ok results) t e h = cc

  after_list_failed :
      (result : Result (List ItemOverview)) (t : World G W) (e : CycleError)
      → (after_list gate client splitter at result t).1 ≡ some e
      → (e ≢ gate_denied)
        × ((after_list gate client splitter at result t).0.replica ≡ count_failure t.replica)
  unfolding after_list
  after_list_failed (err x) t e h = (λ d. ground arith, refl)
  after_list_failed (ok ovs) t e h = after_get_failed _ _ _ _ _ e h

  -- A cycle that fails leaves the replica as it was, but that a whole-call error is counted; a
  -- denied cycle makes no call at all.
  pub do_cycle_failed :
      (e : CycleError)
      → (do_cycle gate client splitter class at s).1 ≡ some e
      → let s' = (do_cycle gate client splitter class at s).0 in
        ((e ≡ gate_denied) × (s'.replica ≡ s.replica) × (s'.remote ≡ s.remote))
        ⊎ ((e ≢ gate_denied) × (s'.replica ≡ count_failure s.replica))
  unfolding do_cycle
  do_cycle_failed e h =
      let (g, allowed) = gate.allow s.gate at.asked s.replica.vault_id class in
      elim (Bool-cases allowed) [
        | inr denied ↦ inl (ground (arith, denied))
        | inl admitted ↦ inr (rw admitted (after_list_failed _ _ e (rw admitted at h)))
      ]

  -- What a cycle comes to that is allowed and whose calls succeed.
  pub do_cycle_runs :
      (ovs : List ItemOverview) (results : List ItemResult)
      → (gate.allow s.gate at.asked s.replica.vault_id class).1 ≡ true
      → (client.list_items s.replica.vault_id s.remote).0 ≡ ok ovs
      → (client.get_items s.replica.vault_id
          (to_fetch s.replica.overview (index_active ovs []))
          (client.list_items s.replica.vault_id s.remote).1).0
        ≡ ok results
      → let listed = index_active ovs [] in
        ((do_cycle gate client splitter class at s).1 ≡ none)
        × ((do_cycle gate client splitter class at s).0.replica
            ≡ apply_cycle listed
                (to_remove s.replica.overview listed)
                results
                splitter
                at.done
                s.replica)
  unfolding do_cycle after_list after_get
  do_cycle_runs ovs results allowed listing got =
      rw (allowed, listing, after_list, got, after_get) (refl, refl)

  -- A cycle that is allowed, whose list and fetch succeed and whose results answer the IDs asked
  -- for with items no older than those held, brings a replica without tombstones in step with the
  -- listing: each item is in the overview exactly if it is listed as active, at the listed
  -- UpdatedAt, the replica is consistent, and the freshness window starts anew.
  pub do_cycle_syncs :
      (ovs : List ItemOverview) (results : List ItemResult)
      → (gate.allow s.gate at.asked s.replica.vault_id class).1 ≡ true
      → (client.list_items s.replica.vault_id s.remote).0 ≡ ok ovs
      → (client.get_items s.replica.vault_id
          (to_fetch s.replica.overview (index_active ovs []))
          (client.list_items s.replica.vault_id s.remote).1).0
        ≡ ok results
      → result_ids results ≡ to_fetch s.replica.overview (index_active ovs [])
      → AllBring s.replica.bodies results
      → IsWhole s.replica
      → ((id : String) → has id s.replica.tombstones ≡ false)
      → let (s', e) = do_cycle gate client splitter class at s in
        (e ≡ none)
        × ((id : String)
            → stamp (lookup id s'.replica.overview) ≡ stamp (lookup id (index_active ovs [])))
        × IsConsistent splitter s'.replica
        × (s'.replica.last_cycle ≡ at.done)
        × (s'.replica.stale_suspect ≡ false)
        × (s'.replica.consecutive_failures ≡ 0)
  do_cycle_syncs ovs results allowed listing got asked b w alive =
      let (fine, same) = do_cycle_runs ovs results allowed listing got in
      let d = index_active-Distinct ovs [] tt in
      (
        fine,
        rw same
            (λ id. apply_cycle-stamp _ results splitter at.done s.replica id d (alive id) asked b),
        rw same (apply_cycle-IsConsistent _ _ results splitter at.done s.replica w),
        rw same (unfold apply_cycle in refl),
        rw same (unfold apply_cycle in refl),
        rw same (unfold apply_cycle in refl),
      )

-- ===== src/Cycle/Runs.antt =====
-- That `doCycle`, with nothing between its parts, is a run of the machine of its parts.
use openbao_plugin_secrets_o.Prelude.{String, Option, List, [], ◌≡◌, refl, Bool-cases, inl, inr}
use openbao_plugin_secrets_o.Onepassword.{ItemOverview, Result, ok, err, ItemResult}
use openbao_plugin_secrets_o.Config.{Splitter}
use openbao_plugin_secrets_o.Client.{OpClient}
use openbao_plugin_secrets_o.Governor.{WorkClass}
use openbao_plugin_secrets_o.Replica.{Replica}
use openbao_plugin_secrets_o.Cycle.Sync.{result_ids}
use openbao_plugin_secrets_o.Cycle.{
  RequestGate, Moments, World, index_active, to_fetch, to_remove, after_get, after_list, do_cycle,
}
use openbao_plugin_secrets_o.Cycle.Machine.{
  idle, at, list, list_fails, diff, get_fails, apply, Run, start, next,
}

-- `GetItems` answers for the IDs that it is asked for, in order.
abbrev pub IsAnswering : {W : Type 0} → OpClient W → Type 0
IsAnswering {W} client =
    (vault_id : String) (ids : List String) (w : W) (results : List ItemResult)
    → (client.get_items vault_id ids w).0 ≡ ok results
    → result_ids results ≡ ids

module _ {G W : Type 0} (gate : RequestGate G) (client : OpClient W) (splitter : Option Splitter)
    (clock : Moments) where
  after_get-Run :
      (r : Replica) (g : G) (w : W) (ovs : List ItemOverview) (result : Result (List ItemResult))
      → let l = index_active ovs [] in
        let fetch = to_fetch r.overview l in
        let removed = to_remove r.overview l in
        let s : World G W = record { replica = r; gate = g; remote = w } in
        ((results : List ItemResult) → result ≡ ok results → result_ids results ≡ fetch)
        → Run
            (at r idle)
            (at (after_get gate client splitter clock l fetch removed result s).0.replica idle)
  unfolding after_get
  after_get-Run r g w ovs (err e) answers =
      next splitter (next splitter (next splitter start (list r ovs)) (diff r _))
        (get_fails _ _ _ _)
  after_get-Run r g w ovs (ok results) answers =
      next splitter (next splitter (next splitter start (list r ovs)) (diff r _))
        (apply _ _ _ _ results clock.done (answers results refl))

  after_list-Run :
      (r : Replica) (g : G) (w : W) (result : Result (List ItemOverview))
      → IsAnswering client
      → let s : World G W = record { replica = r; gate = g; remote = w } in
        Run (at r idle) (at (after_list gate client splitter clock result s).0.replica idle)
  unfolding after_list
  after_list-Run r g w (err e) answering = next splitter start (list_fails r)
  after_list-Run r g w (ok ovs) answering =
      after_get-Run r _ _ ovs _ (λ results got. answering _ _ _ results got)

  -- Against a client whose GetItems answers for the IDs that it is asked for, in order, the whole of
  -- `doCycle` with nothing between its parts is a run of the machine of its parts, from no cycle
  -- under way to none, whether it is denied, fails or succeeds.
  pub do_cycle-Run :
      (class : WorkClass) (s : World G W)
      → IsAnswering client
      → Run (at s.replica idle) (at (do_cycle gate client splitter class clock s).0.replica idle)
  unfolding do_cycle
  do_cycle-Run class s answering =
      elim (Bool-cases (gate.allow s.gate clock.asked s.replica.vault_id class).1) [
        | inl admitted ↦ rw admitted (after_list-Run s.replica _ _ _ answering)
        | inr denied ↦ rw denied start
      ]

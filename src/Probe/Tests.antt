-- ===== src/Probe/Tests.antt =====
-- A table as the command prints it.
use openbao_plugin_secrets_o.Prelude.{
  str_eq, ℕ, ◌≤◌, true, false, some, List, [], ◌∷◌, ◌++◌, ◌≡◌, ◌↔◌, refl,
}
use openbao_plugin_secrets_o.Prelude.Int.{pos}
use openbao_plugin_secrets_o.Prelude.Time.{hour, elapsed}
use openbao_plugin_secrets_o.Prelude.Text.{codes}
use openbao_plugin_secrets_o.Governor.{
  Governor, new_governor, periodic, allow, local_pct, usage_pct,
}
use openbao_plugin_secrets_o.Probe.Due.{run_probe_only_tightens}
use openbao_plugin_secrets_o.Probe.{
  Percent, printed, exec_failed, parse_probe_output, row_at, run_probe_if_due,
}

abbrev halves : Percent
halves used limit = pos 50

abbrev table : List ℕ
table =
    codes "TYPE    ACTION     LIMIT USED REMAINING RESET"
    ++ 10 ∷ codes "token   read       1000  3    997       N/A"
    ++ 10 ∷ codes "account read_write 1000  500  500       N/A"
    ++ 10 ∷ []

abbrev watched : Governor
watched = record new_governor { hourly_limit = pos 100; probe_cmd = "/usr/bin/op" }

-- After a probe that said half.
abbrev trusting : Governor
trusting = record watched { probe_healthy = true; probed_account_pct = pos 50 }

finds_the_account :
    row_at (codes "account/read_write") (parse_probe_output table)
    ≡ some (record { key = codes "account/read_write"; limit = pos 1000; used = pos 500 })
unfolding parse_probe_output row_at
finds_the_account = refl

tightens_to_half :
    (usage_pct (run_probe_if_due halves (printed table) hour hour watched) hour).1 ≡ 50
unfolding run_probe_if_due new_governor usage_pct
tightens_to_half = refl

run_probe_only_tightens_example :
    let h = run_probe_if_due halves (exec_failed []) hour hour trusting in
    (((allow h hour "v" periodic).1 ≡ true) ↔ ((allow trusting hour "v" periodic).1 ≡ true))
    × (local_pct trusting hour ≤ (usage_pct h hour).1)
    × (h.probe_healthy ≡ false → (usage_pct h hour).1 ≡ local_pct trusting hour)
    × (str_eq "/usr/bin/op" "" ≡ false
        → elapsed hour 0 trusting.refresh_interval ≡ true
        → Unit {0}
        → ((usage_pct h hour).1 ≡ local_pct trusting hour) × (h.probe_warning ≡ []))
unfolding new_governor
run_probe_only_tightens_example =
    run_probe_only_tightens halves (exec_failed []) hour hour trusting "v" periodic

-- A probe that is due and fails.
the_probe_is_due :
    (str_eq "/usr/bin/op" "" ≡ false) × (elapsed hour 0 trusting.refresh_interval ≡ true)
unfolding new_governor
the_probe_is_due = (refl, refl)

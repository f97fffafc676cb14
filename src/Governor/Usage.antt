-- ===== src/Governor/Usage.antt =====
-- The usage that the passthrough ceiling is held against.
use openbao_plugin_secrets_o.Prelude.{ℕ, ◌*◌, ◌≤◌, ◌≡◌, true, false, arith, ltb, if◌then◌else◌, ◌⊎◌}
use openbao_plugin_secrets_o.Prelude.Int.{pos_part}
use openbao_plugin_secrets_o.Prelude.Time.{hour}
use openbao_plugin_secrets_o.Governor.Window.{count_since-prune_events}
use openbao_plugin_secrets_o.Governor.{
  Governor, periodic, count_since, local_pct, usage_pct, budget_allows,
}
use openbao_plugin_secrets_o.Governor.Status.{snapshot}

-- The probe only tightens: the usage is never below the local counters, and it is above them only
-- where a healthy probe reports more.
pub usage_pct-tightens :
    (g : Governor) (now : ℕ)
    → (local_pct g now ≤ (usage_pct g now).1)
      × (((usage_pct g now).1 ≡ local_pct g now)
          ⊎ ((g.probe_healthy ≡ true) × ((usage_pct g now).1 ≡ pos_part g.probed_account_pct)))
unfolding usage_pct
usage_pct-tightens g now = ground (
  arith,
  count_since-prune_events now hour g.events,
  count_since-prune_events now (24 * hour) g.events,
)

-- The status shows the very usage that the ceiling is held against.
pub snapshot-usage_pct :
    (g : Governor) (now : ℕ) → (snapshot g now).1.usage_pct ≡ (usage_pct g now).1
unfolding snapshot usage_pct
snapshot-usage_pct g now = ground arith

-- The status says "throttled" exactly if an hourly limit is set and the budget refuses periodic work.
pub snapshot-throttled :
    (g : Governor) (now : ℕ)
    → (snapshot g now).1.throttled ≡ (
        if ltb 0 (pos_part g.hourly_limit)
        then (if budget_allows g.hourly_limit (count_since g.events now hour) periodic
            then false
            else true)
        else false)
unfolding snapshot budget_allows
snapshot-throttled g now = ground (arith, count_since-prune_events now hour g.events)

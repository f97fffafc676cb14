-- ===== src/Governor/Tests.antt =====
-- A governor with a limit of ten requests an hour, seven of which are spent.
use openbao_plugin_secrets_o.Prelude.{
  ℕ, ◌+◌, ◌*◌, ◌≤◌, String, true, false, none, some, List, [], ◌∷◌, ◌≡◌, ◌↔◌, ◌⊎◌, refl, arith,
  replicate, length,
}
use openbao_plugin_secrets_o.Prelude.Int.{pos, i64}
use openbao_plugin_secrets_o.Prelude.Text.{codes}
use openbao_plugin_secrets_o.Prelude.Time.{minute, hour}
use openbao_plugin_secrets_o.Onepassword.{SdkError}
use openbao_plugin_secrets_o.Config.{Config}
use openbao_plugin_secrets_o.Classify.{classify_error, rate_limit_resume_at}
use openbao_plugin_secrets_o.Governor.Window.{
  count_since-record_request, IsOrdered, AllRecent, record_request-IsOrdered,
}
use openbao_plugin_secrets_o.Governor.Admission.{Admits, allow-Admits, allow_keeps}
use openbao_plugin_secrets_o.Probe.{exec_failed}
use openbao_plugin_secrets_o.Governor.Lock.{
  probes, Call, allows, records, takes_snapshot, step, run, auth_failed_locks, rate_limit_unlocks,
}
use openbao_plugin_secrets_o.Governor.Recovery.{allow_recovers}
use openbao_plugin_secrets_o.Governor.Status.{snapshot}
use openbao_plugin_secrets_o.Governor.{
  prune, Governor, new_governor, rate_limited, auth_failed, WorkClass, periodic, miss, manual,
  normal, count_since, allow, record_request, client_init_allowed,
}

abbrev noon : ℕ
noon = 100 * hour

abbrev seven : List ℕ
seven = replicate 7 noon

abbrev seven_spent : Governor
seven_spent = record new_governor { hourly_limit = pos 10; events = seven }

refused : SdkError
refused = record { rate_limited = false; message = codes "Forbidden" }

limited : SdkError
limited = record { rate_limited = true; message = codes "rate limit: retry in 5 minutes" }

allow-Admits_example :
    ((allow seven_spent noon "v" periodic).1 ≡ true) ↔ Admits seven_spent noon "v" periodic
allow-Admits_example = allow-Admits seven_spent noon "v" periodic

allows_seven : (allow seven_spent noon "v" periodic).1 ≡ true
unfolding allow new_governor
allows_seven = refl

brakes_eight :
    (allow (record seven_spent { events = replicate 8 noon }) noon "v" periodic).1 ≡ false
unfolding allow new_governor
brakes_eight = refl

admits_eight_for_miss :
    (allow (record seven_spent { events = replicate 8 noon }) noon "v" miss).1 ≡ true
unfolding allow new_governor
admits_eight_for_miss = refl

allow_keeps_example :
    let g' = (allow seven_spent noon "v" manual).0 in
    (count_since g'.events noon hour ≡ count_since seven noon hour)
    × (g'.backoff ≡ new_governor.backoff)
    × (g'.client_init ≡ new_governor.client_init)
    × (g'.hourly_limit ≡ pos 10)
    × ((g'.state ≡ new_governor.state)
        ⊎ ((new_governor.state ≡ rate_limited)
            × (new_governor.resume_at ≤ noon)
            × (g'.state ≡ normal)))
allow_keeps_example = allow_keeps seven_spent noon "v" manual hour (omega arith)

count_since-record_request_example :
    count_since (record_request seven_spent noon "v" 3 (some limited)).events noon hour
    ≡ count_since seven noon hour + 3
count_since-record_request_example =
    count_since-record_request seven_spent noon "v" 3 (some limited) hour (omega arith)
      (omega arith)

seven-IsOrdered : IsOrdered noon seven
seven-IsOrdered = (
  omega arith,
  (omega arith, (omega arith, (omega arith, (omega arith, (omega arith, omega arith))))),
)

two_requests-IsOrdered :
    let ts = (record_request seven_spent noon "v" 2 none).events in
    IsOrdered noon ts × AllRecent noon ts × (count_since ts noon (24 * hour) ≡ length ts)
two_requests-IsOrdered =
    record_request-IsOrdered seven_spent noon noon "v" 2 none (omega arith) seven-IsOrdered

-- What is refused stays refused, whatever is asked in the meantime.
abbrev locked : Governor
locked = record seven_spent { state = auth_failed }

abbrev calls : List (ℕ × Call)
calls =
    (noon, allows "v" manual)
    ∷ (noon, records "v" 1 (some refused))
    ∷ (noon, probes (λ used limit. pos 0) (exec_failed []) noon)
    ∷ []

auth_failed_locks_example :
    ((vault_id : String) (class : WorkClass)
      → (allow (run locked calls) (2 * noon) vault_id class).1 ≡ false)
    × ((client_init_allowed (run locked calls) (2 * noon)).1 ≡ false)
auth_failed_locks_example =
    auth_failed_locks locked calls (2 * noon) refl
      (tt, (unfold classify_error refused in λ d. ground arith, (tt, tt)))

rate_limit_unlocks_example :
    (client_init_allowed (record_request locked noon "v" 1 (some limited)) (2 * noon)).1 ≡ true
rate_limit_unlocks_example =
    rate_limit_unlocks locked noon (2 * noon) "v" 1 limited refl
      (unfold classify_error limited in refl)
      (unfold rate_limit_resume_at limited i64 in omega arith) (unfold new_governor in omega arith)

abbrev some_config : Config
some_config = record {
  service_account_token = "ops_token";
  vaults = "v" ∷ [];
  write_vaults = [];
  refresh_interval = pos hour;
  daily_request_limit = pos 1000;
  hourly_read_limit = pos 100;
  passthrough = true;
  passthrough_ceiling_pct = pos 80;
  passthrough_ttl = pos 0;
  serve_stale = true;
  negative_cache_ttl = pos minute;
  path_split = "";
  always_fresh = [];
  ratelimit_probe_cmd = "";
}

-- A minute into a rate limit of an hour, with a vault that is backing off.
abbrev held_back : Governor
held_back = record new_governor {
  hourly_limit = pos 1;
  events = noon ∷ [];
  state = rate_limited;
  resume_at = noon + hour;
  backoff = ("v", record { consecutive_failures = 1; next_allowed_at = noon + minute }) ∷ [];
}

abbrev asked_twice : List (ℕ × Call)
asked_twice = (noon + 1, allows "v" periodic) ∷ (noon + 2, takes_snapshot) ∷ []

is_held_back : (allow (run held_back asked_twice) (noon + 3) "v" periodic).1 ≡ false
unfolding run step allow snapshot new_governor prune
is_held_back = refl

allow_recovers_example : (allow (run held_back asked_twice) (noon + hour) "v" periodic).1 ≡ true
allow_recovers_example =
    allow_recovers held_back asked_twice (noon + hour) "v" periodic
      (unfold new_governor in λ d. ground arith) (tt, (tt, tt)) (unfold new_governor in omega arith)

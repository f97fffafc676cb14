-- ===== src/Governor/Lock.antt =====
-- The state machine of the governor: what an authentication failure holds back, and for how long.
use openbao_plugin_secrets_o.Prelude.{
  ℕ, ◌≤◌, ◌≡◌, ◌≢◌, String, true, false, Option, none, some, List, [], ◌∷◌, ◌∙◌, arith,
}
use openbao_plugin_secrets_o.Onepassword.{SdkError}
use openbao_plugin_secrets_o.Config.{Config}
use openbao_plugin_secrets_o.Classify.{ErrClass, classify_error, rate_limit_resume_at}
use openbao_plugin_secrets_o.Governor.{
  auth_failed, WorkClass, Governor, reconfigure, client_init_allowed, record_client_init_result,
  allow, record_request, record_success, usage_pct,
}
use openbao_plugin_secrets_o.Governor.Status.{snapshot}
use openbao_plugin_secrets_o.Probe.{Percent, Output, run_probe_if_due}
use openbao_plugin_secrets_o.Probe.Due.{run_probe_if_due-Untouched}

-- Every call that can change the governor. A probe comes with the output of its command and the
-- time at which its interval is looked at; it ends at the time of the call.
pub data Call : Type 0 where
  allows : String → WorkClass → Call
  records : String → ℕ → Option SdkError → Call
  succeeds : String → Call
  asks_client : Call
  records_client : Option SdkError → Call
  reads_usage : Call
  takes_snapshot : Call
  reconfigures : Config → Call
  probes : Percent → Output → ℕ → Call

unfoldable pub step : Governor → ℕ × Call → Governor
step g (now, allows vault_id class) = (allow g now vault_id class).0
step g (now, records vault_id units result) = record_request g now vault_id units result
step g (now, succeeds vault_id) = record_success g vault_id
step g (now, asks_client) = (client_init_allowed g now).0
step g (now, records_client result) = record_client_init_result g now result
step g (now, reads_usage) = (usage_pct g now).0
step g (now, takes_snapshot) = (snapshot g now).0
step g (now, reconfigures cfg) = reconfigure g cfg
step g (now, probes percent out asked) = run_probe_if_due percent out asked now g

unfoldable pub run : Governor → List (ℕ × Call) → Governor
run g [] = g
run g (c ∷ cs) = run (step g c) cs

-- The calls that an authentication failure survives: no write of the configuration, and no
-- failure that is classified as a rate limit.
abbrev pub Keeps : Call → Type 0
Keeps (records vault_id units (some e)) = classify_error e ≢ ErrClass.rate_limited
Keeps (records_client (some e)) = classify_error e ≢ ErrClass.rate_limited
Keeps (reconfigures cfg) = ⊥
Keeps _ = Unit {0}

abbrev pub AllKeep : List (ℕ × Call) → Type 0
AllKeep [] = Unit {0}
AllKeep (c ∷ cs) = Keeps c.1 × AllKeep cs

step-auth_failed :
    (g : Governor) (c : ℕ × Call)
    → g.state ≡ auth_failed
    → Keeps c.1
    → (step g c).state ≡ auth_failed
unfolding step allow record_request record_success client_init_allowed record_client_init_result
    usage_pct snapshot
step-auth_failed g (now, allows vault_id class) h k = ground arith
step-auth_failed g (now, records vault_id units none) h k = h
step-auth_failed g (now, records vault_id units (some e)) h k = ground arith
step-auth_failed g (now, succeeds vault_id) h k = h
step-auth_failed g (now, asks_client) h k = ground arith
step-auth_failed g (now, records_client none) h k = h
step-auth_failed g (now, records_client (some e)) h k = ground arith
step-auth_failed g (now, reads_usage) h k = h
step-auth_failed g (now, takes_snapshot) h k = h
step-auth_failed g (now, reconfigures cfg) h k = absurd k
step-auth_failed g (now, probes percent out asked) h k =
    (run_probe_if_due-Untouched percent out asked now g).state ∙ h

run-auth_failed :
    (g : Governor) (cs : List (ℕ × Call))
    → g.state ≡ auth_failed
    → AllKeep cs
    → (run g cs).state ≡ auth_failed
unfolding run
run-auth_failed g [] h k = h
run-auth_failed g (c ∷ cs) h k = run-auth_failed (step g c) cs (step-auth_failed g c h k.0) k.1

denied :
    (g : Governor) (now : ℕ)
    → g.state ≡ auth_failed
    → ((vault_id : String) (class : WorkClass) → (allow g now vault_id class).1 ≡ false)
      × ((client_init_allowed g now).1 ≡ false)
unfolding allow client_init_allowed
denied g now h = (λ vault_id class. ground arith, ground arith)

-- After an authentication failure every cycle and every client construction is refused, through
-- any calls of the governor in any order and at any times, probes with any output included, as
-- long as none of them is a write of the configuration or a failure classified as a rate limit.
pub auth_failed_locks :
    (g : Governor) (cs : List (ℕ × Call)) (now : ℕ)
    → g.state ≡ auth_failed
    → AllKeep cs
    → ((vault_id : String) (class : WorkClass) → (allow (run g cs) now vault_id class).1 ≡ false)
      × ((client_init_allowed (run g cs) now).1 ≡ false)
auth_failed_locks g cs now h k = denied (run g cs) now (run-auth_failed g cs h k)

-- A rate limit that is reported while authentication has failed takes the place of that state:
-- once its horizon has passed, the client construction is let through (its own backoff allowing),
-- with no write of the configuration.
pub rate_limit_unlocks :
    (g : Governor) (now later : ℕ) (vault_id : String) (units : ℕ) (e : SdkError)
    → g.state ≡ auth_failed
    → classify_error e ≡ ErrClass.rate_limited
    → rate_limit_resume_at e now ≤ later
    → g.client_init.next_allowed_at ≤ later
    → (client_init_allowed (record_request g now vault_id units (some e)) later).1 ≡ true
unfolding record_request client_init_allowed
rate_limit_unlocks g now later vault_id units e h c past free = ground arith

-- A write of the configuration ends an authentication failure and leaves a rate limit, the
-- backoffs and the counted requests as they are.
pub reconfigure-state :
    (g : Governor) (cfg : Config)
    → let g' = reconfigure g cfg in
      (g'.state ≢ auth_failed)
      × (g.state ≢ auth_failed → g'.state ≡ g.state)
      × (g'.resume_at ≡ g.resume_at)
      × (g'.backoff ≡ g.backoff)
      × (g'.events ≡ g.events)
unfolding reconfigure
reconfigure-state g cfg = ground arith

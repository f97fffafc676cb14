-- ===== src/Governor/Recovery.antt =====
-- backend/governor.go: what holds work back passes with time, however often it is asked for.
use openbao_plugin_secrets_o.Prelude.{
  ℕ, ◌+◌, ◌≤◌, max, ◌≡◌, ◌≢◌, ◌⊎◌, inl, inr, refl, String, true, some, List, [], ◌∷◌, ◌∙◌, sym,
  arith,
}
use openbao_plugin_secrets_o.Prelude.Time.{hour}
use openbao_plugin_secrets_o.Prelude.Table.{Table, lookup, delete}
use openbao_plugin_secrets_o.Governor.{
  GovState, normal, rate_limited, auth_failed, WorkClass, VaultBackoff, Governor, prune_events,
  count_since, client_init_allowed, allow, record_success, usage_pct,
}
use openbao_plugin_secrets_o.Governor.Admission.{allow-Admits}
use openbao_plugin_secrets_o.Governor.Status.{snapshot}
use openbao_plugin_secrets_o.Probe.Due.{run_probe_if_due-Untouched}
use openbao_plugin_secrets_o.Governor.Lock.{
  Call, allows, records, succeeds, asks_client, records_client, reads_usage, takes_snapshot,
  reconfigures, probes, step, run,
}

-- The end of the last backoff, and the last counted request.
abbrev pub last_backoff : Table VaultBackoff → ℕ
last_backoff [] = 0
last_backoff ((id, b) ∷ bs) = max b.next_allowed_at (last_backoff bs)

abbrev pub last_event : List ℕ → ℕ
last_event [] = 0
last_event (t ∷ ts) = max t (last_event ts)

-- From when on nothing of what the governor remembers holds work back.
abbrev pub recovery_time : Governor → ℕ
recovery_time g = max g.resume_at (max (last_backoff g.backoff) (last_event g.events + hour))

-- The calls that ask, probes, and the end of a cycle that succeeds: no request is counted, no failure is
-- recorded, the configuration stays.
abbrev pub Asks : Call → Type 0
Asks (records vault_id units result) = ⊥
Asks (records_client result) = ⊥
Asks (reconfigures cfg) = ⊥
Asks _ = Unit {0}

abbrev pub AllAsk : List (ℕ × Call) → Type 0
AllAsk [] = Unit {0}
AllAsk (c ∷ cs) = Asks c.1 × AllAsk cs

-- No time that the governor remembers lies behind `t`.
record IsFreeFrom (t : ℕ) (g : Governor) : Type 0 where
  open_state : g.state ≢ auth_failed
  horizon : g.resume_at ≤ t
  backoffs : last_backoff g.backoff ≤ t
  events : last_event g.events + hour ≤ t

last_event-prune_events : (now : ℕ) (ts : List ℕ) → last_event (prune_events now ts) ≤ last_event ts
unfolding prune_events
last_event-prune_events now [] = omega arith
last_event-prune_events now (t ∷ ts) = ground (arith, last_event-prune_events now ts)

last_backoff-delete :
    (id : String) (bs : Table VaultBackoff) → last_backoff (delete id bs) ≤ last_backoff bs
unfolding delete
last_backoff-delete id [] = omega arith
last_backoff-delete id ((j, b) ∷ bs) = ground (arith, last_backoff-delete id bs)

last_backoff-lookup :
    (id : String) (b : VaultBackoff) (bs : Table VaultBackoff)
    → lookup id bs ≡ some b
    → b.next_allowed_at ≤ last_backoff bs
unfolding lookup
last_backoff-lookup id b [] h = absurd (ground arith)
last_backoff-lookup id b ((j, c) ∷ bs) h = ground (arith, last_backoff-lookup id b bs)

count_since-late :
    (ts : List ℕ) (now : ℕ) → last_event ts + hour ≤ now → count_since ts now hour ≡ 0
unfolding count_since
count_since-late [] now h = refl
count_since-late (t ∷ ts) now h = ground (arith, count_since-late ts now)

step-IsFreeFrom :
    (t : ℕ) (g : Governor) (c : ℕ × Call) → Asks c.1 → IsFreeFrom t g → IsFreeFrom t (step g c)
unfolding step allow client_init_allowed usage_pct snapshot record_success
step-IsFreeFrom t g (now, allows vault_id class) a f = record {
  open_state = λ locked. ground (arith, f.open_state);
  horizon = ground (arith, f.horizon);
  backoffs = ground (arith, f.backoffs);
  events = ground (arith, f.events, last_event-prune_events now g.events);
}
step-IsFreeFrom t g (now, records vault_id units result) a f = absurd a
step-IsFreeFrom t g (now, succeeds vault_id) a f = record {
  open_state = f.open_state;
  horizon = f.horizon;
  backoffs = omega (arith, f.backoffs, last_backoff-delete vault_id g.backoff);
  events = f.events;
}
step-IsFreeFrom t g (now, asks_client) a f = record {
  open_state = λ locked. ground (arith, f.open_state);
  horizon = ground (arith, f.horizon);
  backoffs = ground (arith, f.backoffs);
  events = ground (arith, f.events, last_event-prune_events now g.events);
}
step-IsFreeFrom t g (now, records_client result) a f = absurd a
step-IsFreeFrom t g (now, reads_usage) a f = record {
  open_state = λ locked. ground (arith, f.open_state);
  horizon = ground (arith, f.horizon);
  backoffs = ground (arith, f.backoffs);
  events = ground (arith, f.events, last_event-prune_events now g.events);
}
step-IsFreeFrom t g (now, takes_snapshot) a f = record {
  open_state = λ locked. ground (arith, f.open_state);
  horizon = ground (arith, f.horizon);
  backoffs = ground (arith, f.backoffs);
  events = ground (arith, f.events, last_event-prune_events now g.events);
}
step-IsFreeFrom t g (now, reconfigures cfg) a f = absurd a
step-IsFreeFrom t g (now, probes percent out asked) a f =
    let u = run_probe_if_due-Untouched percent out asked now g in
    record {
      open_state = λ locked. f.open_state (sym u.state ∙ locked);
      horizon = rw u.resume_at f.horizon;
      backoffs = rw u.backoff f.backoffs;
      events = rw u.events f.events;
    }

run-IsFreeFrom :
    (t : ℕ) (g : Governor) (cs : List (ℕ × Call))
    → AllAsk cs
    → IsFreeFrom t g
    → IsFreeFrom t (run g cs)
unfolding run
run-IsFreeFrom t g [] a f = f
run-IsFreeFrom t g (c ∷ cs) a f = run-IsFreeFrom t (step g c) cs a.1 (step-IsFreeFrom t g c a.0 f)

unlocked_states : (s : GovState) → s ≢ auth_failed → (s ≡ normal) ⊎ (s ≡ rate_limited)
unlocked_states normal h = inl refl
unlocked_states rate_limited h = inr refl
unlocked_states auth_failed h = absurd (h refl)

free_now :
    (g : Governor) (now : ℕ) (vault_id : String) (class : WorkClass)
    → IsFreeFrom now g
    → (allow g now vault_id class).1 ≡ true
free_now g now vault_id class f = (allow-Admits g now vault_id class).1 record {
  open_state = elim (unlocked_states g.state f.open_state) [
    | inl at_rest ↦ inl at_rest
    | inr limited ↦ inr (limited, f.horizon)
  ];
  no_backoff = λ b there. omega (arith, f.backoffs, last_backoff-lookup vault_id b g.backoff there);
  under_cap = λ limited. omega (arith, limited, count_since-late g.events now f.events);
  under_brake = λ limited periodic. omega (arith, limited, count_since-late g.events now f.events);
}

-- While authentication has not failed, work is never held back for good: from the end of the rate
-- limit, of the last backoff and of the hour after the last counted request on, work of every
-- class is let through for every vault, however often and whenever it was asked for and refused
-- before, as long as nothing new is recorded and the configuration stays.
pub allow_recovers :
    (g : Governor) (cs : List (ℕ × Call)) (now : ℕ) (vault_id : String) (class : WorkClass)
    → g.state ≢ auth_failed
    → AllAsk cs
    → recovery_time g ≤ now
    → (allow (run g cs) now vault_id class).1 ≡ true
allow_recovers g cs now vault_id class unlocked asks late = free_now (run g cs) now vault_id class (
    run-IsFreeFrom now g cs asks record {
      open_state = unlocked;
      horizon = omega (arith, late);
      backoffs = omega (arith, late);
      events = omega (arith, late);
    })

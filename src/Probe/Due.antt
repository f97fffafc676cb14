-- ===== src/Probe/Due.antt =====
-- What a probe may change of the governor.
use openbao_plugin_secrets_o.Prelude.{
  ℕ, ◌≤◌, none, String, true, false, List, [], ◌∷◌, ◌≡◌, refl, ◌↔◌, arith, str_eq, Bool-cases,
  Option-cases, inl, inr,
}
use openbao_plugin_secrets_o.Prelude.Time.{elapsed}
use openbao_plugin_secrets_o.Prelude.Text.{codes}
use openbao_plugin_secrets_o.Governor.{Governor, WorkClass, allow, usage_pct, local_pct}
use openbao_plugin_secrets_o.Governor.Admission.{Admits, allow-Admits}
use openbao_plugin_secrets_o.Governor.Usage.{usage_pct-tightens}
use openbao_plugin_secrets_o.Probe.{
  Percent, Output, printed, exec_failed, ProbeRow, read_rows, take_output, run_probe_if_due,
  probe_now, row_at, parse_probe_output,
}

-- All that decides on admission is the same.
pub record Untouched (g h : Governor) : Type 0 where
  pub state : h.state ≡ g.state
  pub resume_at : h.resume_at ≡ g.resume_at
  pub backoff : h.backoff ≡ g.backoff
  hourly_limit : h.hourly_limit ≡ g.hourly_limit
  daily_limit : h.daily_limit ≡ g.daily_limit
  pub events : h.events ≡ g.events

by_fields :
    {g h : Governor}
    → h.state ≡ g.state
    → h.resume_at ≡ g.resume_at
    → h.backoff ≡ g.backoff
    → h.hourly_limit ≡ g.hourly_limit
    → h.daily_limit ≡ g.daily_limit
    → h.events ≡ g.events
    → Untouched g h
by_fields a b c d e f = record {
  state = a;
  resume_at = b;
  backoff = c;
  hourly_limit = d;
  daily_limit = e;
  events = f;
}

read_rows-Untouched :
    (percent : Percent) (rows : List ProbeRow) (now : ℕ) (g : Governor)
    → Untouched g (read_rows percent rows (record g { last_probe_at = now }))
read_rows-Untouched percent [] now g = by_fields refl refl refl refl refl refl
read_rows-Untouched percent (row ∷ rows) now g =
    elim (Option-cases (row_at (codes "account/read_write") (row ∷ rows))) [
      | inl missing ↦ rw (read_rows, missing) (by_fields refl refl refl refl refl refl)
      | inr (account, found) ↦ rw (read_rows, found) (by_fields refl refl refl refl refl refl)
    ]

take_output-Untouched :
    (percent : Percent) (out : Output) (now : ℕ) (g : Governor)
    → Untouched g (take_output percent out (record g { last_probe_at = now }))
take_output-Untouched percent (exec_failed text) now g = by_fields refl refl refl refl refl refl
take_output-Untouched percent (printed out) now g =
    read_rows-Untouched percent (parse_probe_output out) now g

pub run_probe_if_due-Untouched :
    (percent : Percent) (out : Output) (asked now : ℕ) (g : Governor)
    → Untouched g (run_probe_if_due percent out asked now g)
unfolding run_probe_if_due
run_probe_if_due-Untouched percent out asked now g = elim (Bool-cases (str_eq g.probe_cmd "")) [
  | inl off ↦ rw off (by_fields refl refl refl refl refl refl)
  | inr on ↦ elim (Bool-cases (elapsed asked g.last_probe_at g.refresh_interval)) [
    | inl due ↦ rw (on, due) (take_output-Untouched percent out now g)
    | inr early ↦ rw (on, early) (by_fields refl refl refl refl refl refl)
  ]
]

Admits-Untouched :
    (g h : Governor) (now : ℕ) (vault_id : String) (class : WorkClass)
    → Untouched g h
    → Admits g now vault_id class ↔ Admits h now vault_id class
Admits-Untouched g h now vault_id class u = (
  λ a. record {
    open_state = rw (u.state, u.resume_at) a.open_state;
    no_backoff = rw u.backoff a.no_backoff;
    under_cap = rw (u.hourly_limit, u.events) a.under_cap;
    under_brake = rw (u.hourly_limit, u.events) a.under_brake;
  },
  λ a. record {
    open_state = rw (← u.state, ← u.resume_at) a.open_state;
    no_backoff = rw (← u.backoff) a.no_backoff;
    under_cap = rw (← u.hourly_limit, ← u.events) a.under_cap;
    under_brake = rw (← u.hourly_limit, ← u.events) a.under_brake;
  },
)

local_pct-Untouched : (g h : Governor) (now : ℕ) → Untouched g h → local_pct h now ≡ local_pct g now
unfolding local_pct
local_pct-Untouched g h now u = rw (u.events, u.hourly_limit, u.daily_limit) refl

-- An output from which the probe gets no usage.
abbrev pub Fails : Output → Type 0
Fails (exec_failed text) = Unit {0}
Fails (printed out) = row_at (codes "account/read_write") (parse_probe_output out) ≡ none

read_rows-failed :
    (percent : Percent) (rows : List ProbeRow) (g : Governor)
    → row_at (codes "account/read_write") rows ≡ none
    → let h = read_rows percent rows g in (h.probe_healthy ≡ false) × (h.probe_warning ≡ [])
read_rows-failed percent [] g missing = (refl, refl)
read_rows-failed percent (row ∷ rows) g missing = rw (read_rows, missing) (refl, refl)

take_output-failed :
    (percent : Percent) (out : Output) (g : Governor)
    → Fails out
    → let h = take_output percent out g in (h.probe_healthy ≡ false) × (h.probe_warning ≡ [])
take_output-failed percent (exec_failed text) g failed = (refl, refl)
take_output-failed percent (printed out) g failed =
    read_rows-failed percent (parse_probe_output out) g failed

run_probe_if_due-failed :
    (percent : Percent) (out : Output) (asked now : ℕ) (g : Governor)
    → let h = run_probe_if_due percent out asked now g in
      str_eq g.probe_cmd "" ≡ false
      → elapsed asked g.last_probe_at g.refresh_interval ≡ true
      → Fails out
      → (h.probe_healthy ≡ false) × (h.probe_warning ≡ [])
unfolding run_probe_if_due probe_now
run_probe_if_due-failed percent out asked now g on due failed =
    rw (on, due) (take_output-failed percent out (record g { last_probe_at = now }) failed)

-- Whatever the probe's command prints, and however it fails, a probe neither lets a cycle through
-- nor holds one back, and it only tightens the usage: the usage after it is at least what the
-- local counters say, and no more than that while the last probe is not taken to be good. A probe
-- that is due and fails, because the command does or because its output has no row for the
-- account, ends what an earlier probe has said: the usage is that of the local counters, and
-- nothing is left of its warning.
pub run_probe_only_tightens :
    (percent : Percent) (out : Output) (asked now : ℕ) (g : Governor) (vault_id : String)
    (class : WorkClass)
    → let h = run_probe_if_due percent out asked now g in
      (((allow h now vault_id class).1 ≡ true) ↔ ((allow g now vault_id class).1 ≡ true))
      × (local_pct g now ≤ (usage_pct h now).1)
      × (h.probe_healthy ≡ false → (usage_pct h now).1 ≡ local_pct g now)
      × (str_eq g.probe_cmd "" ≡ false
          → elapsed asked g.last_probe_at g.refresh_interval ≡ true
          → Fails out
          → ((usage_pct h now).1 ≡ local_pct g now) × (h.probe_warning ≡ []))
run_probe_only_tightens percent out asked now g vault_id class =
    let h = run_probe_if_due percent out asked now g in
    let u = run_probe_if_due-Untouched percent out asked now g in
    let moved = Admits-Untouched g h now vault_id class u in
    let mine = allow-Admits g now vault_id class in
    let theirs = allow-Admits h now vault_id class in
    let local = local_pct-Untouched g h now u in
    let (least, either) = usage_pct-tightens h now in
    (
      (λ a. mine.1 (moved.1 (theirs.0 a)), λ a. theirs.1 (moved.0 (mine.0 a))),
      ground (arith, local, least),
      λ off. ground (arith, either, local, off),
      λ on due failed.
          let (off, cleared) = run_probe_if_due-failed percent out asked now g on due failed in
          (ground (arith, either, local, off), cleared),
    )

-- ===== src/Cycle/Flight.antt =====
-- backend/cycle.go, `runCycle`: callers that come while a cycle of the vault is in flight wait for
-- it and share its result. A caller is known by a number, a flight (a `cycleResult`) by another.
-- Each action is what one goroutine does between two points at which another may run.
pub mod Shared
pub mod Led
pub mod Progress
use openbao_plugin_secrets_o.Prelude.{
  ℕ, suc, ◌+◌, ◌≤◌, ◌<◌, Bool, true, false, ◌==◌, Option, none, some, List, [], ◌∷◌, ◌≡◌, ◌≢◌, refl,
  arith, if◌then◌else◌, Bool-cases, inl, inr,
}
use openbao_plugin_secrets_o.Prelude.Table.{is_some}
use openbao_plugin_secrets_o.Cycle.{CycleError}

-- Where a caller stands: not in `runCycle`; running `doCycle` for a flight; with its result stored;
-- with the flight taken from the replica; waiting for a flight; or back with a result.
pub data Caller : Type 0 where
  outside : Caller
  leading : ℕ → Caller
  stored : ℕ → Caller
  cleared : ℕ → Caller
  waiting : ℕ → Caller
  returned : ℕ → Option CycleError → Caller

pub record Group : Type 0 where
  pub inflight : Option ℕ
  pub begun : ℕ
  pub errs : ℕ → Option (Option CycleError)
  pub released : ℕ → Bool
  pub callers : ℕ → Caller

pub data Action : Type 0 where
  enter : ℕ → Action
  finish : ℕ → Option CycleError → Action
  clear : ℕ → Action
  release : ℕ → Action
  wake : ℕ → Action

abbrev pub set {ℓ} : {A : Type ℓ} → ℕ → A → (ℕ → A) → ℕ → A
set i a f j = if i == j then a else f j

-- `r.err`, which is nil until it is set.
abbrev pub err_of : Option (Option CycleError) → Option CycleError
err_of none = none
err_of (some e) = e

-- The first part of `runCycle`, under `cycleMu`.
abbrev pub entered : ℕ → Option ℕ → Group → Group
entered c (some n) g = record g { callers = set c (waiting n) g.callers }
entered c none g = record g {
  inflight = some g.begun;
  begun = suc g.begun;
  callers = set c (leading g.begun) g.callers;
}

abbrev pub finished : ℕ → Option CycleError → Caller → Group → Group
finished c e (leading n) g = record g {
  errs = set n (some e) g.errs;
  callers = set c (stored n) g.callers;
}
finished c e _ g = g

abbrev pub taken : ℕ → Caller → Group → Group
taken c (stored n) g = record g { inflight = none; callers = set c (cleared n) g.callers }
taken c _ g = g

abbrev pub let_go : ℕ → Caller → Group → Group
let_go c (cleared n) g = record g {
  released = set n true g.released;
  callers = set c (returned n (err_of (g.errs n))) g.callers;
}
let_go c _ g = g

abbrev pub woken : ℕ → Caller → Group → Group
woken c (waiting n) g =
    if g.released n
    then record g { callers = set c (returned n (err_of (g.errs n))) g.callers }
    else g
woken c _ g = g

abbrev pub enters : ℕ → Caller → Group → Group
enters c outside g = entered c g.inflight g
enters c (returned n e) g = entered c g.inflight g
enters c _ g = g

-- One action; one that its caller cannot take where it stands leaves everything as it is.
unfoldable pub step : Group → Action → Group
step g (enter c) = enters c (g.callers c) g
step g (finish c e) = finished c e (g.callers c) g
step g (clear c) = taken c (g.callers c) g
step g (release c) = let_go c (g.callers c) g
step g (wake c) = woken c (g.callers c) g

unfoldable pub run : Group → List Action → Group
unfolding step
run g [] = g
run g (a ∷ more) = run (step g a) more

abbrev pub nobody : Group
nobody = record {
  inflight = none;
  begun = 0;
  errs = λ n. none;
  released = λ n. false;
  callers = λ c. outside;
}

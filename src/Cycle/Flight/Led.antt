-- ===== src/Cycle/Flight/Led.antt =====
-- The invariant of `runCycle` behind its progress: a flight that is waited for has an owner, or is
-- released.
use openbao_plugin_secrets_o.Prelude.{
  ℕ, ◌==◌, ==_iff, true, Option, none, some, List, [], ◌∷◌, ◌≡◌, ◌⊎◌, inl, inr, refl, arith,
  Bool-cases,
}
use openbao_plugin_secrets_o.Cycle.{CycleError}
use openbao_plugin_secrets_o.Cycle.Flight.Shared.{holds}
use openbao_plugin_secrets_o.Cycle.Flight.{
  Caller, outside, leading, stored, cleared, waiting, returned, Group, Action, enter, finish, clear,
  release, wake, set, err_of, entered, finished, taken, let_go, woken, enters, step, run, nobody,
}

-- The flight that a caller has still to release.
abbrev pub owns : Caller → Option ℕ
owns (leading n) = some n
owns (stored n) = some n
owns (cleared n) = some n
owns _ = none

abbrev pub Owned : (ℕ → Caller) → ℕ → Type 0
Owned callers n = (d : ℕ) × (owns (callers d) ≡ some n)

-- Whoever newcomers would wait for has not yet left the flight, and whoever is waited for has
-- still to release it, unless its waiters have been let go.
pub record IsLed (g : Group) : Type 0 where
  pub flown : (n : ℕ) → g.inflight ≡ some n → (d : ℕ) × (holds (g.callers d) ≡ some n)
  pub waited : (c n : ℕ) → g.callers c ≡ waiting n → (g.released n ≡ true) ⊎ Owned g.callers n

-- One caller takes a new place `k`; what it owned it has released or still owns.
moved_waited :
    (c : ℕ) (k : Caller) (g g' : Group)
    → g'.callers ≡ set c k g.callers
    → ((n : ℕ) → g.released n ≡ true → g'.released n ≡ true)
    → ((n : ℕ) → owns (g.callers c) ≡ some n → (g'.released n ≡ true) ⊎ (owns k ≡ some n))
    → ((n : ℕ) → k ≡ waiting n → Owned (set c k g.callers) n)
    → IsLed g
    → (d n : ℕ) → set c k g.callers d ≡ waiting n
    → (g'.released n ≡ true) ⊎ Owned (set c k g.callers) n
moved_waited c k g g' callers released passes waits s d n h = elim (Bool-cases (c == d)) [
  | inl here ↦ inr (waits n (ground arith))
  | inr there ↦ elim (s.waited d n (ground arith)) [
    | inl free ↦ inl (released n free)
    | inr (o, owned) ↦ elim (Bool-cases (c == o)) [
      | inl same ↦ elim (passes n (rw ((==_iff c o).0 same) owned)) [
        | inl free ↦ inl free
        | inr owned' ↦ inr (o, rw same owned')
      ]
      | inr other ↦ inr (o, rw other owned)
    ]
  ]
]

moved_flown :
    (c : ℕ) (k : Caller) (g : Group) (n : ℕ)
    → (holds (g.callers c) ≡ some n → holds k ≡ some n)
    → ((d : ℕ) × (holds (g.callers d) ≡ some n))
    → (d : ℕ) × (holds (set c k g.callers d) ≡ some n)
moved_flown c k g n passes (d, held) = (
  d,
  elim (Bool-cases (c == d)) [
    | inl here ↦ rw here (passes (rw ((==_iff c d).0 here) held))
    | inr there ↦ rw there held
  ],
)

entered-IsLed :
    (c : ℕ) (f : Option ℕ) (g : Group)
    → g.inflight ≡ f
    → owns (g.callers c) ≡ none
    → IsLed g
    → IsLed (entered c f g)
entered-IsLed c none g at out s = record {
  flown = λ n h. (c, ground arith);
  waited =
      moved_waited c (leading g.begun) g (entered c none g) refl (λ n h. h)
        (λ n h. absurd (ground arith)) (λ n h. absurd (ground arith)) s;
}
entered-IsLed c (some i) g at out s =
    let left : holds (g.callers c) ≡ none = ground arith in
    let led : (d : ℕ) × (holds (set c (waiting i) g.callers d) ≡ some i) =
      moved_flown c (waiting i) g i (λ h. absurd (ground arith)) (s.flown i at) in
    record {
      flown = λ n h. moved_flown c (waiting i) g n (λ h. absurd (ground arith)) (s.flown n h);
      waited =
          moved_waited c (waiting i) g (entered c (some i) g) refl (λ n h. h)
            (λ n h. absurd (ground arith)) (λ n h. (led.0, ground arith)) s;
    }

finished-IsLed :
    (c : ℕ) (e : Option CycleError) (k : Caller) (g : Group)
    → g.callers c ≡ k
    → IsLed g
    → IsLed (finished c e k g)
finished-IsLed c e (leading n) g at s = record {
  flown = λ m h. moved_flown c (stored n) g m (λ o. ground arith) (s.flown m h);
  waited =
      moved_waited c (stored n) g (finished c e (leading n) g) refl (λ m h. h)
        (λ m h. inr (ground arith)) (λ m h. absurd (ground arith)) s;
}
finished-IsLed c e outside g at s = s
finished-IsLed c e (returned n x) g at s = s
finished-IsLed c e (stored n) g at s = s
finished-IsLed c e (cleared n) g at s = s
finished-IsLed c e (waiting n) g at s = s

taken-IsLed : (c : ℕ) (k : Caller) (g : Group) → g.callers c ≡ k → IsLed g → IsLed (taken c k g)
taken-IsLed c (stored n) g at s = record {
  flown = λ m h. absurd (ground arith);
  waited =
      moved_waited c (cleared n) g (taken c (stored n) g) refl (λ m h. h)
        (λ m h. inr (ground arith)) (λ m h. absurd (ground arith)) s;
}
taken-IsLed c outside g at s = s
taken-IsLed c (returned n x) g at s = s
taken-IsLed c (leading n) g at s = s
taken-IsLed c (cleared n) g at s = s
taken-IsLed c (waiting n) g at s = s

let_go-IsLed : (c : ℕ) (k : Caller) (g : Group) → g.callers c ≡ k → IsLed g → IsLed (let_go c k g)
let_go-IsLed c (cleared n) g at s =
    let back = returned n (err_of (g.errs n)) in
    record {
      flown = λ m h. moved_flown c back g m (λ o. absurd (ground arith)) (s.flown m h);
      waited =
          moved_waited c back g (let_go c (cleared n) g) refl (λ m h. ground arith)
            (λ m h. inl (ground arith)) (λ m h. absurd (ground arith)) s;
    }
let_go-IsLed c outside g at s = s
let_go-IsLed c (returned n x) g at s = s
let_go-IsLed c (leading n) g at s = s
let_go-IsLed c (stored n) g at s = s
let_go-IsLed c (waiting n) g at s = s

woken-IsLed : (c : ℕ) (k : Caller) (g : Group) → g.callers c ≡ k → IsLed g → IsLed (woken c k g)
woken-IsLed c (waiting n) g at s = elim (Bool-cases (g.released n)) [
  | inl free ↦
      let back = returned n (err_of (g.errs n)) in
      rw free (record {
        flown = λ m h. moved_flown c back g m (λ o. absurd (ground arith)) (s.flown m h);
        waited =
            moved_waited c back g (record g { callers = set c back g.callers }) refl (λ m h. h)
              (λ m h. absurd (ground arith)) (λ m h. absurd (ground arith)) s;
      })
  | inr busy ↦ rw busy s
]
woken-IsLed c outside g at s = s
woken-IsLed c (returned n x) g at s = s
woken-IsLed c (leading n) g at s = s
woken-IsLed c (stored n) g at s = s
woken-IsLed c (cleared n) g at s = s

enters-IsLed : (c : ℕ) (k : Caller) (g : Group) → g.callers c ≡ k → IsLed g → IsLed (enters c k g)
enters-IsLed c outside g at s = entered-IsLed c g.inflight g refl (rw at refl) s
enters-IsLed c (returned n e) g at s = entered-IsLed c g.inflight g refl (rw at refl) s
enters-IsLed c (leading n) g at s = s
enters-IsLed c (stored n) g at s = s
enters-IsLed c (cleared n) g at s = s
enters-IsLed c (waiting n) g at s = s

step-IsLed : (g : Group) (a : Action) → IsLed g → IsLed (step g a)
unfolding step
step-IsLed g (enter c) s = enters-IsLed c (g.callers c) g refl s
step-IsLed g (finish c e) s = finished-IsLed c e (g.callers c) g refl s
step-IsLed g (clear c) s = taken-IsLed c (g.callers c) g refl s
step-IsLed g (release c) s = let_go-IsLed c (g.callers c) g refl s
step-IsLed g (wake c) s = woken-IsLed c (g.callers c) g refl s

pub run-IsLed : (g : Group) (actions : List Action) → IsLed g → IsLed (run g actions)
unfolding run
run-IsLed g [] s = s
run-IsLed g (a ∷ more) s = run-IsLed (step g a) more (step-IsLed g a s)

pub nobody-IsLed : IsLed nobody
nobody-IsLed = record {
  flown = λ n h. absurd (ground arith);
  waited = λ c n h. absurd (ground arith);
}

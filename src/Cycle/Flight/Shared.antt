-- ===== src/Cycle/Flight/Shared.antt =====
-- The callers of `runCycle` share one cycle and its result.
use openbao_plugin_secrets_o.Prelude.{
  ℕ, ◌≤◌, ◌<◌, true, Option, none, some, List, [], ◌∷◌, ◌≡◌, refl, arith, Bool-cases, inl, inr,
}
use openbao_plugin_secrets_o.Prelude.Table.{is_some}
use openbao_plugin_secrets_o.Cycle.{CycleError}
use openbao_plugin_secrets_o.Cycle.Flight.{
  Caller, outside, leading, stored, cleared, waiting, returned, Group, Action, enter, finish, clear,
  release, wake, set, err_of, entered, finished, taken, let_go, woken, enters, step, run, nobody,
}

-- The flight that a caller holds on the replica.
abbrev pub holds : Caller → Option ℕ
holds (leading n) = some n
holds (stored n) = some n
holds _ = none

pub record IsSound (g : Group) : Type 0 where
  held : (c n : ℕ) → holds (g.callers c) ≡ some n → g.inflight ≡ some n
  alone : (c d m n : ℕ) → holds (g.callers c) ≡ some m → holds (g.callers d) ≡ some n → c ≡ d
  unset : (c n : ℕ) → g.callers c ≡ leading n → (g.errs n ≡ none) × (n < g.begun)
  later : (n : ℕ) → g.begun ≤ n → g.errs n ≡ none
  pub answered : (c n : ℕ) (e : Option CycleError) → g.callers c ≡ returned n e → g.errs n ≡ some e
  stays : (c n : ℕ) → g.callers c ≡ stored n → is_some (g.errs n) ≡ true
  leaves : (c n : ℕ) → g.callers c ≡ cleared n → is_some (g.errs n) ≡ true
  free : (n : ℕ) → g.released n ≡ true → is_some (g.errs n) ≡ true

pub nobody-IsSound : IsSound nobody
nobody-IsSound = record {
  held = λ c n h. absurd (ground arith);
  alone = λ c d m n h k. absurd (ground arith);
  unset = λ c n h. absurd (ground arith);
  later = λ n h. refl;
  answered = λ c n e h. absurd (ground arith);
  stays = λ c n h. absurd (ground arith);
  leaves = λ c n h. absurd (ground arith);
  free = λ n h. absurd (ground arith);
}

entered-IsSound :
    (c : ℕ) (f : Option ℕ) (g : Group)
    → g.inflight ≡ f
    → holds (g.callers c) ≡ none
    → IsSound g
    → IsSound (entered c f g)
entered-IsSound c none g at out s = record {
  held = λ d n h. ground (arith, s.held d n);
  alone = λ d e m n h k. ground (arith, s.held d m, s.held e n);
  unset = λ d n h. ground (arith, s.unset d n, s.later g.begun);
  later = λ n h. ground (arith, s.later n);
  answered = λ d n e h. ground (arith, s.answered d n e);
  stays = λ d n h. ground (arith, s.stays d n);
  leaves = λ d n h. ground (arith, s.leaves d n);
  free = s.free;
}
entered-IsSound c (some i) g at out s = record {
  held = λ d n h. ground (arith, s.held d n);
  alone = λ d e m n h k. ground (arith, s.alone d e m n);
  unset = λ d n h. ground (arith, s.unset d n);
  later = s.later;
  answered = λ d n e h. ground (arith, s.answered d n e);
  stays = λ d n h. ground (arith, s.stays d n);
  leaves = λ d n h. ground (arith, s.leaves d n);
  free = s.free;
}

finished-IsSound :
    (c : ℕ) (e : Option CycleError) (n : ℕ) (g : Group)
    → g.callers c ≡ leading n
    → IsSound g
    → IsSound (finished c e (leading n) g)
finished-IsSound c e n g at s = record {
  held = λ d m h. ground (arith, s.held d m, s.held c n);
  alone = λ d f m k h i. ground (arith, s.alone d f m k, s.alone c f n k, s.alone d c m n);
  unset = λ d m h. ground (arith, s.unset d m, s.alone c d n m);
  later = λ m h. ground (arith, s.later m, s.unset c n);
  answered = λ d m x h. ground (arith, s.answered d m x, s.unset c n);
  stays = λ d m h. ground (arith, s.stays d m);
  leaves = λ d m h. ground (arith, s.leaves d m);
  free = λ m h. ground (arith, s.free m);
}

taken-IsSound :
    (c n : ℕ) (g : Group) → g.callers c ≡ stored n → IsSound g → IsSound (taken c (stored n) g)
taken-IsSound c n g at s = record {
  held = λ d m h. ground (arith, s.held d m, s.alone c d n m);
  alone = λ d f m k h i. ground (arith, s.alone d f m k);
  unset = λ d m h. ground (arith, s.unset d m);
  later = s.later;
  answered = λ d m x h. ground (arith, s.answered d m x);
  stays = λ d m h. ground (arith, s.stays d m);
  leaves = λ d m h. ground (arith, s.leaves d m, s.stays c n);
  free = s.free;
}

err_of-is_some : (o : Option (Option CycleError)) → is_some o ≡ true → o ≡ some (err_of o)
err_of-is_some none h = absurd (ground arith)
err_of-is_some (some e) h = refl

-- A caller comes back with the result of a flight whose result is set.
returned-IsSound :
    (c n : ℕ) (g : Group)
    → holds (g.callers c) ≡ none
    → is_some (g.errs n) ≡ true
    → IsSound g
    → IsSound (record g { callers = set c (returned n (err_of (g.errs n))) g.callers })
returned-IsSound c n g out is s = record {
  held = λ d m h. ground (arith, s.held d m);
  alone = λ d f m k h i. ground (arith, s.alone d f m k);
  unset = λ d m h. ground (arith, s.unset d m);
  later = s.later;
  answered = λ d m x h. ground (arith, s.answered d m x, err_of-is_some (g.errs n) is);
  stays = λ d m h. ground (arith, s.stays d m);
  leaves = λ d m h. ground (arith, s.leaves d m);
  free = s.free;
}

released-IsSound :
    (n : ℕ) (g : Group)
    → is_some (g.errs n) ≡ true
    → IsSound g
    → IsSound (record g { released = set n true g.released })
released-IsSound n g is s = record {
  held = s.held;
  alone = s.alone;
  unset = s.unset;
  later = s.later;
  answered = s.answered;
  stays = s.stays;
  leaves = s.leaves;
  free = λ m h. ground (arith, s.free m);
}

enters-IsSound :
    (c : ℕ) (k : Caller) (g : Group) → g.callers c ≡ k → IsSound g → IsSound (enters c k g)
enters-IsSound c outside g at s = entered-IsSound c g.inflight g refl (rw at refl) s
enters-IsSound c (returned n e) g at s = entered-IsSound c g.inflight g refl (rw at refl) s
enters-IsSound c (leading n) g at s = s
enters-IsSound c (stored n) g at s = s
enters-IsSound c (cleared n) g at s = s
enters-IsSound c (waiting n) g at s = s

finishes-IsSound :
    (c : ℕ) (e : Option CycleError) (k : Caller) (g : Group)
    → g.callers c ≡ k
    → IsSound g
    → IsSound (finished c e k g)
finishes-IsSound c e (leading n) g at s = finished-IsSound c e n g at s
finishes-IsSound c e outside g at s = s
finishes-IsSound c e (returned n x) g at s = s
finishes-IsSound c e (stored n) g at s = s
finishes-IsSound c e (cleared n) g at s = s
finishes-IsSound c e (waiting n) g at s = s

takes-IsSound :
    (c : ℕ) (k : Caller) (g : Group) → g.callers c ≡ k → IsSound g → IsSound (taken c k g)
takes-IsSound c (stored n) g at s = taken-IsSound c n g at s
takes-IsSound c outside g at s = s
takes-IsSound c (returned n x) g at s = s
takes-IsSound c (leading n) g at s = s
takes-IsSound c (cleared n) g at s = s
takes-IsSound c (waiting n) g at s = s

lets_go-IsSound :
    (c : ℕ) (k : Caller) (g : Group) → g.callers c ≡ k → IsSound g → IsSound (let_go c k g)
lets_go-IsSound c (cleared n) g at s =
    returned-IsSound c n (record g { released = set n true g.released }) (rw at refl)
      (s.leaves c n at) (released-IsSound n g (s.leaves c n at) s)
lets_go-IsSound c outside g at s = s
lets_go-IsSound c (returned n x) g at s = s
lets_go-IsSound c (leading n) g at s = s
lets_go-IsSound c (stored n) g at s = s
lets_go-IsSound c (waiting n) g at s = s

wakes-IsSound :
    (c : ℕ) (k : Caller) (g : Group) → g.callers c ≡ k → IsSound g → IsSound (woken c k g)
wakes-IsSound c (waiting n) g at s = elim (Bool-cases (g.released n)) [
  | inl done ↦ rw done (returned-IsSound c n g (rw at refl) (s.free n done) s)
  | inr still ↦ rw still s
]
wakes-IsSound c outside g at s = s
wakes-IsSound c (returned n x) g at s = s
wakes-IsSound c (leading n) g at s = s
wakes-IsSound c (stored n) g at s = s
wakes-IsSound c (cleared n) g at s = s

step-IsSound : (g : Group) (a : Action) → IsSound g → IsSound (step g a)
unfolding step
step-IsSound g (enter c) s = enters-IsSound c (g.callers c) g refl s
step-IsSound g (finish c e) s = finishes-IsSound c e (g.callers c) g refl s
step-IsSound g (clear c) s = takes-IsSound c (g.callers c) g refl s
step-IsSound g (release c) s = lets_go-IsSound c (g.callers c) g refl s
step-IsSound g (wake c) s = wakes-IsSound c (g.callers c) g refl s

pub run-IsSound : (g : Group) (actions : List Action) → IsSound g → IsSound (run g actions)
unfolding run
run-IsSound g [] s = s
run-IsSound g (a ∷ more) s = run-IsSound (step g a) more (step-IsSound g a s)

-- However callers come, wait and leave, no two of them run a cycle of the vault at the same time,
-- the one that does is the flight that newcomers wait for, and all callers that come back from one
-- flight have the same result.
pub run_shares_one_cycle :
    (actions : List Action) (c d m n : ℕ) (x y : Option CycleError)
    → let g = run nobody actions in
      (g.callers c ≡ leading m → g.callers d ≡ leading n → c ≡ d)
      × (g.callers c ≡ leading m → g.inflight ≡ some m)
      × (g.callers c ≡ returned m x → g.callers d ≡ returned m y → x ≡ y)
run_shares_one_cycle actions c d m n x y =
    let s = run-IsSound nobody actions nobody-IsSound in
    let g = run nobody actions in
    (
      λ h k. s.alone c d m n (rw h refl) (rw k refl),
      λ h. s.held c m (rw h refl),
      λ h k. ground (arith, s.answered c m x h, s.answered d m y k),
    )

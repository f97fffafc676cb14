-- ===== src/Cycle/Flight/Progress.antt =====
-- backend/cycle.go, `runCycle`: a caller that waits for a flight is never forgotten.
use openbao_plugin_secrets_o.Prelude.{
  ℕ, true, Option, some, List, [], ◌∷◌, ◌≡◌, ◌⊎◌, inl, inr, refl, arith,
}
use openbao_plugin_secrets_o.Cycle.{CycleError}
use openbao_plugin_secrets_o.Cycle.Flight.Led.{owns, run-IsLed, nobody-IsLed}
use openbao_plugin_secrets_o.Cycle.Flight.Shared.{run-IsSound, nobody-IsSound}
use openbao_plugin_secrets_o.Cycle.Flight.{
  Caller, outside, leading, stored, cleared, waiting, returned, Group, Action, finish, clear,
  release, wake, err_of, finished, taken, let_go, woken, step, run, nobody,
}

-- What the owner of a flight and one of its waiters have still to do.
abbrev pub to_the_end : ℕ → ℕ → Option CycleError → List Action
to_the_end d c e = finish d e ∷ clear d ∷ release d ∷ wake c ∷ []

-- The three parts of an owner, by where it stands; a waiter `c` goes on waiting.
finished_stage :
    (g : Group) (c d n : ℕ) (e : Option CycleError) (k : Caller)
    → g.callers d ≡ k
    → owns k ≡ some n
    → g.callers c ≡ waiting n
    → let g' = finished d e k g in
      ((g'.callers d ≡ stored n) ⊎ (g'.callers d ≡ cleared n)) × (g'.callers c ≡ waiting n)
finished_stage g c d n e (leading m) at owned waits = (inl (ground arith), ground arith)
finished_stage g c d n e (stored m) at owned waits = (inl (ground arith), waits)
finished_stage g c d n e (cleared m) at owned waits = (inr (ground arith), waits)
finished_stage g c d n e outside at owned waits = absurd (ground arith)
finished_stage g c d n e (waiting m) at owned waits = absurd (ground arith)
finished_stage g c d n e (returned m x) at owned waits = absurd (ground arith)

taken_stage :
    (g : Group) (c d n : ℕ)
    → (g.callers d ≡ stored n) ⊎ (g.callers d ≡ cleared n)
    → g.callers c ≡ waiting n
    → let g' = taken d (g.callers d) g in (g'.callers d ≡ cleared n) × (g'.callers c ≡ waiting n)
taken_stage g c d n (inl at) waits = rw at (ground arith, ground arith)
taken_stage g c d n (inr at) waits = rw at (at, waits)

released_stage :
    (g : Group) (c d n : ℕ)
    → g.callers d ≡ cleared n
    → g.callers c ≡ waiting n
    → let g' = let_go d (g.callers d) g in (g'.released n ≡ true) × (g'.callers c ≡ waiting n)
released_stage g c d n at waits = rw at (ground arith, ground arith)

woken_stage :
    (g : Group) (c n : ℕ)
    → g.callers c ≡ waiting n
    → g.released n ≡ true
    → (x : Option CycleError) × ((woken c (g.callers c) g).callers c ≡ returned n x)
woken_stage g c n waits free = (err_of (g.errs n), rw (waits, free) (ground arith))

released_returns :
    (g : Group) (c n : ℕ) (e : Option CycleError)
    → g.callers c ≡ waiting n
    → g.released n ≡ true
    → (x : Option CycleError) × ((run g (to_the_end c c e)).callers c ≡ returned n x)
unfolding run step
released_returns g c n e waits free =
    let (x, back) = woken_stage g c n waits free in (x, ground (arith, waits, back))

owned_returns :
    (g : Group) (c d n : ℕ) (e : Option CycleError)
    → g.callers c ≡ waiting n
    → owns (g.callers d) ≡ some n
    → (x : Option CycleError) × ((run g (to_the_end d c e)).callers c ≡ returned n x)
unfolding run step
owned_returns g c d n e waits owned =
    let g₁ = step g (finish d e) in
    let (at₁, waits₁) = finished_stage g c d n e (g.callers d) refl owned waits in
    let g₂ = step g₁ (clear d) in
    let (at₂, waits₂) = taken_stage g₁ c d n at₁ waits₁ in
    let g₃ = step g₂ (release d) in
    let (free, waits₃) = released_stage g₂ c d n at₂ waits₂ in woken_stage g₃ c n waits₃ free

-- What a caller comes back with is the stored result of the flight.
back_with_result :
    (actions more : List Action) (c n : ℕ) (x : Option CycleError)
    → let h = run (run nobody actions) more in h.callers c ≡ returned n x → h.errs n ≡ some x
back_with_result actions more c n x back =
    let s = run-IsSound nobody actions nobody-IsSound in
    (run-IsSound (run nobody actions) more s).answered c n x back

-- The owner that ends its cycle now stores the result it ends with.
ends_with :
    (g : Group) (c d n : ℕ) (e : Option CycleError)
    → g.callers d ≡ leading n
    → g.callers c ≡ waiting n
    → (run g (to_the_end d c e)).callers c ≡ returned n e
unfolding run step
ends_with g c d n e leads waits = ground arith

-- However callers have come, waited and left, no waiter is forgotten: its flight is released
-- already, or there is a caller that owns it. Once that one has finished its cycle, with whatever
-- result, taken the flight from the replica and released it, as far as this has still to be done,
-- the waiter that is then woken comes back with the result that is stored for its flight; where
-- the owner still runs the cycle of the flight, this is the result it ends with.
pub waiters_return :
    (actions : List Action) (c n : ℕ) (e : Option CycleError)
    → let g = run nobody actions in
      g.callers c ≡ waiting n
      → (d : ℕ) × (x : Option CycleError) × ((g.released n ≡ true) ⊎ (owns (g.callers d) ≡ some n))
        × ((run g (to_the_end d c e)).callers c ≡ returned n x)
        × ((run g (to_the_end d c e)).errs n ≡ some x)
        × (g.callers d ≡ leading n → x ≡ e)
waiters_return actions c n e waits =
    let g = run nobody actions in
    elim ((run-IsLed nobody actions nobody-IsLed).waited c n waits) [
      | inl free ↦
          let (x, back) = released_returns g c n e waits free in
          (
            c,
            x,
            inl free,
            back,
            back_with_result actions (to_the_end c c e) c n x back,
            λ leads. absurd (ground (arith, waits, leads)),
          )
      | inr (d, owned) ↦
          let (x, back) = owned_returns g c d n e waits owned in
          (
            d,
            x,
            inr owned,
            back,
            back_with_result actions (to_the_end d c e) c n x back,
            λ leads. ground (arith, back, ends_with g c d n e leads waits),
          )
    ]

-- ===== src/Governor/Window.antt =====
-- The rolling window of request times.
use openbao_plugin_secrets_o.Prelude.{
  ℕ, zero, suc, ◌+◌, ◌*◌, ◌≤◌, ◌<◌, ◌≡◌, refl, String, true, Option, none, some, List, [], ◌∷◌,
  ◌++◌, length, replicate, ltb→lt, lt→ltb, Bool-cases, inl, inr, arith,
}
use openbao_plugin_secrets_o.Prelude.Time.{hour}
use openbao_plugin_secrets_o.Onepassword.{SdkError}
use openbao_plugin_secrets_o.Classify.{classify_error}
use openbao_plugin_secrets_o.Governor.{
  Governor, within, prune_events, prune, count_since, back_off, record_request,
}

-- Pruning drops nothing that a window of up to a day counts.
pub count_since-prune_events :
    (now window : ℕ) (ts : List ℕ)
    → window ≤ 24 * hour
    → count_since (prune_events now ts) now window ≡ count_since ts now window
unfolding count_since prune_events
count_since-prune_events now window [] h = refl
count_since-prune_events now window (t ∷ ts) h =
    ground (arith, count_since-prune_events now window ts h)

count_since-append :
    (now window : ℕ) (ts us : List ℕ)
    → count_since (ts ++ us) now window ≡ count_since ts now window + count_since us now window
unfolding count_since
count_since-append now window [] us = omega arith
count_since-append now window (t ∷ ts) us = ground (arith, count_since-append now window ts us)

count_since-replicate :
    (now window units : ℕ) → 0 < window → count_since (replicate units now) now window ≡ units
unfolding count_since
count_since-replicate now window zero h = refl
count_since-replicate now window (suc units) h =
    ground (arith, count_since-replicate now window units h)

record_request-events :
    (g : Governor) (now : ℕ) (vault_id : String) (units : ℕ) (result : Option SdkError)
    → (record_request g now vault_id units result).events
      ≡ prune_events now (g.events ++ replicate units now)
unfolding record_request prune back_off
record_request-events g now vault_id units none = refl
record_request-events g now vault_id units (some e) = ground (arith, classify_error e)

-- Every request is counted, failed or not: recording `units` of them raises the rolling count of
-- each window of up to a day by exactly `units`.
pub count_since-record_request :
    (g : Governor) (now : ℕ) (vault_id : String) (units : ℕ) (result : Option SdkError) (window : ℕ)
    → 0 < window
    → window ≤ 24 * hour
    → count_since (record_request g now vault_id units result).events now window
      ≡ count_since g.events now window + units
count_since-record_request g now vault_id units result window p h = rw (
  record_request-events g now vault_id units result,
  count_since-prune_events now window (g.events ++ replicate units now) h,
  count_since-append now window g.events (replicate units now),
  count_since-replicate now window units p,
)

-- Times that do not fall, none after `now`.
abbrev pub IsOrdered : ℕ → List ℕ → Type 0
IsOrdered now [] = Unit {0}
IsOrdered now (t ∷ []) = t ≤ now
IsOrdered now (t ∷ u ∷ ts) = (t ≤ u) × IsOrdered now (u ∷ ts)

abbrev pub AllRecent : ℕ → List ℕ → Type 0
AllRecent now [] = Unit {0}
AllRecent now (t ∷ ts) = (within now (24 * hour) t ≡ true) × AllRecent now ts

IsOrdered-recent :
    (now t : ℕ) (ts : List ℕ)
    → IsOrdered now (t ∷ ts)
    → within now (24 * hour) t ≡ true
    → AllRecent now (t ∷ ts)
IsOrdered-recent now t [] o h = (h, tt)
IsOrdered-recent now t (u ∷ ts) o h = (
  h,
  IsOrdered-recent now u ts o.1
      (lt→ltb now (u + 24 * hour) (omega (arith, ltb→lt now (t + 24 * hour) h))),
)

IsOrdered-tail : (now t : ℕ) (ts : List ℕ) → IsOrdered now (t ∷ ts) → IsOrdered now ts
IsOrdered-tail now t [] o = tt
IsOrdered-tail now t (u ∷ ts) o = o.1

prune_events-IsOrdered :
    (now : ℕ) (ts : List ℕ)
    → IsOrdered now ts
    → IsOrdered now (prune_events now ts) × AllRecent now (prune_events now ts)
unfolding prune_events
prune_events-IsOrdered now [] o = (tt, tt)
prune_events-IsOrdered now (t ∷ ts) o = elim (Bool-cases (within now (24 * hour) t)) [
  | inl h ↦ rw h (o, IsOrdered-recent now t ts o h)
  | inr h ↦ rw h (prune_events-IsOrdered now ts (IsOrdered-tail now t ts o))
]

IsOrdered-later : (past now : ℕ) (ts : List ℕ) → past ≤ now → IsOrdered past ts → IsOrdered now ts
IsOrdered-later past now [] h o = tt
IsOrdered-later past now (t ∷ []) h o = omega arith
IsOrdered-later past now (t ∷ u ∷ ts) h o = (o.0, IsOrdered-later past now (u ∷ ts) h o.1)

IsOrdered-replicate : (now units : ℕ) (t : ℕ) → t ≤ now → IsOrdered now (t ∷ replicate units now)
IsOrdered-replicate now zero t h = h
IsOrdered-replicate now (suc units) t h = (h, IsOrdered-replicate now units now (omega arith))

IsOrdered-append :
    (now units : ℕ) (ts : List ℕ) → IsOrdered now ts → IsOrdered now (ts ++ replicate units now)
IsOrdered-append now zero [] o = tt
IsOrdered-append now (suc units) [] o = IsOrdered-replicate now units now (omega arith)
IsOrdered-append now units (t ∷ []) o = IsOrdered-replicate now units t o
IsOrdered-append now units (t ∷ u ∷ ts) o = (o.0, IsOrdered-append now units (u ∷ ts) o.1)

count_recent :
    (now : ℕ) (ts : List ℕ) → AllRecent now ts → count_since ts now (24 * hour) ≡ length ts
unfolding count_since
count_recent now [] a = refl
count_recent now (t ∷ ts) a = ground (arith, count_recent now ts)

-- With a clock that does not run backwards, the governor keeps its request times in order and
-- keeps none older than a day, so the daily count is the number of times kept.
pub record_request-IsOrdered :
    (g : Governor) (past now : ℕ) (vault_id : String) (units : ℕ) (result : Option SdkError)
    → past ≤ now
    → IsOrdered past g.events
    → let ts = (record_request g now vault_id units result).events in
      IsOrdered now ts × AllRecent now ts × (count_since ts now (24 * hour) ≡ length ts)
record_request-IsOrdered g past now vault_id units result h o =
    rw (record_request-events g now vault_id units result) (
      let (ordered, recent) =
        prune_events-IsOrdered now (g.events ++ replicate units now)
          (IsOrdered-append now units g.events (IsOrdered-later past now g.events h o)) in
      (ordered, recent, count_recent now _ recent))

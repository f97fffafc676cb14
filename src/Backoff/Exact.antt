-- ===== src/Backoff/Exact.antt =====
-- The delay in closed form.
use native.Mathlib.Nat.{pow-suc}
use openbao_plugin_secrets_o.Prelude.{
  ℕ, zero, suc, ◌+◌, ◌-◌, ◌*◌, ◌^◌, ◌≤◌, ◌<◌, ◌≡◌, refl, ap, ltb→lt, true, false, leb, min,
  Bool-cases, inl, inr, arith, ltb,
}
use openbao_plugin_secrets_o.Prelude.Int.{pos, i64_small}
use openbao_plugin_secrets_o.Prelude.Time.{second}
use openbao_plugin_secrets_o.Backoff.{double, backoff_loop, backoff_delay}

double_small : (d : ℕ) → d < 2 ^ 62 → double (pos d) ≡ pos (d * 2)
double_small d h = i64_small (d * 2) (omega arith)

ltb→lt-le : (d cap : ℕ) → ltb d cap ≡ true → cap ≤ 2 ^ 62 → d < 2 ^ 62
ltb→lt-le d cap below h = omega (arith, ltb→lt d cap below)

two_pow_pos : (k : ℕ) → 0 < 2 ^ k
two_pow_pos zero = omega arith
two_pow_pos (suc k) = omega (arith, two_pow_pos k, pow-suc 2 k)

min_scaled : (d k cap : ℕ) → 0 < k → cap ≤ d → min d cap ≡ min (d * k) cap
min_scaled d k cap p h = let more : d ≤ d * k = grind arith in omega arith

-- The loop stops early, but not below the cap.
backoff_loop-min :
    (rounds d cap : ℕ)
    → 0 < d
    → cap ≤ 2 ^ 62
    → (x : ℕ) × (backoff_loop rounds (pos d) (pos cap) ≡ pos x)
      × (min x cap ≡ min (d * 2 ^ rounds) cap)
unfolding backoff_loop
backoff_loop-min zero d cap p h = (d, refl, omega arith)
backoff_loop-min (suc rounds) d cap p h = elim (Bool-cases (ltb d cap)) [
  | inl below ↦
      let (x, done, same) = backoff_loop-min rounds (d * 2) cap (omega arith) h in
      (
        x,
        ground (arith, double_small d (ltb→lt-le d cap below h), done),
        omega (arith, same, pow-suc 2 rounds, ap (λ (t : ℕ). d * t) (pow-suc 2 rounds)),
      )
  | inr above ↦
      (d, ground arith, min_scaled d (2 ^ suc rounds) cap (two_pow_pos (suc rounds)) (ground arith))
]

-- Where the refresh interval is at most 2^62 ns (146 years), the delay is exactly
-- 1s * 2^(failures - 1), capped at the interval; no doubling overflows.
pub backoff_delay-exact :
    (failures interval : ℕ)
    → 0 < interval
    → interval ≤ 2 ^ 62
    → backoff_delay failures (pos interval) ≡ pos (min (second * 2 ^ (failures - 1)) interval)
unfolding backoff_delay
backoff_delay-exact failures interval p h =
    let (x, done, same) = backoff_loop-min (failures - 1) second interval (omega arith) h in
    let set : leb (interval + 0) 0 ≡ false = ground arith in rw (set, done) (ground (arith, same))

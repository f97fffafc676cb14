-- ===== src/Governor/Admission.antt =====
-- When `allow` lets a cycle go on.
use openbao_plugin_secrets_o.Prelude.{
  ℕ, ◌*◌, ◌≤◌, ◌<◌, ◌≡◌, ◌↔◌, refl, String, true, false, Option, none, some, ◌⊎◌, arith,
}
use openbao_plugin_secrets_o.Prelude.Int.{pos_part}
use openbao_plugin_secrets_o.Prelude.Time.{hour}
use openbao_plugin_secrets_o.Prelude.Table.{lookup}
use openbao_plugin_secrets_o.Governor.{
  normal, rate_limited, WorkClass, periodic, VaultBackoff, Governor, count_since, in_backoff, allow,
  is_vault_failing,
}
use openbao_plugin_secrets_o.Governor.Window.{count_since-prune_events}

-- The conditions on a cycle of the class for the vault, in terms of the governor as it stands.
pub record Admits (g : Governor) (now : ℕ) (vault_id : String) (class : WorkClass) : Type 0 where
  pub open_state : (g.state ≡ normal) ⊎ ((g.state ≡ rate_limited) × (g.resume_at ≤ now))
  pub no_backoff : (b : VaultBackoff) → lookup vault_id g.backoff ≡ some b → b.next_allowed_at ≤ now
  pub under_cap :
      0 < pos_part g.hourly_limit → count_since g.events now hour < pos_part g.hourly_limit
  pub under_brake :
      0 < pos_part g.hourly_limit
      → class ≡ periodic
      → 5 * count_since g.events now hour < 4 * pos_part g.hourly_limit

not_in_backoff :
    (found : Option VaultBackoff) (now : ℕ)
    → ((b : VaultBackoff) → found ≡ some b → b.next_allowed_at ≤ now)
    → in_backoff found now ≡ false
not_in_backoff none now h = refl
not_in_backoff (some b) now h = ground (arith, h b refl)

allow→Admits :
    (g : Governor) (now : ℕ) (vault_id : String) (class : WorkClass)
    → (allow g now vault_id class).1 ≡ true
    → Admits g now vault_id class
unfolding allow
allow→Admits g now vault_id class h = ground (arith, count_since-prune_events now hour g.events)

Admits→allow :
    (g : Governor) (now : ℕ) (vault_id : String) (class : WorkClass)
    → Admits g now vault_id class
    → (allow g now vault_id class).1 ≡ true
unfolding allow
Admits→allow g now vault_id class a =
    let free = not_in_backoff (lookup vault_id g.backoff) now a.no_backoff in
    ground (arith, count_since-prune_events now hour g.events, free)

-- `allow` lets a cycle go on exactly if nothing holds it back: the engine is not rate limited or
-- its horizon has passed, authentication has not failed, the vault is not backing off, and, where
-- an hourly limit is set, the requests of the last hour are below the limit and, for a periodic
-- cycle, below 80% of it.
pub allow-Admits :
    (g : Governor) (now : ℕ) (vault_id : String) (class : WorkClass)
    → ((allow g now vault_id class).1 ≡ true) ↔ Admits g now vault_id class
allow-Admits g now vault_id class =
    (allow→Admits g now vault_id class, Admits→allow g now vault_id class)

-- Asking spends nothing: whatever `allow` answers, the rolling counts of windows up to a day, the
-- backoffs and the settings are what they were, and so is the state, but for a rate limit whose
-- horizon has passed.
pub allow_keeps :
    (g : Governor) (now : ℕ) (vault_id : String) (class : WorkClass) (window : ℕ)
    → window ≤ 24 * hour
    → let g' = (allow g now vault_id class).0 in
      (count_since g'.events now window ≡ count_since g.events now window)
      × (g'.backoff ≡ g.backoff)
      × (g'.client_init ≡ g.client_init)
      × (g'.hourly_limit ≡ g.hourly_limit)
      × ((g'.state ≡ g.state)
          ⊎ ((g.state ≡ rate_limited) × (g.resume_at ≤ now) × (g'.state ≡ normal)))
unfolding allow
allow_keeps g now vault_id class window h =
    ground (arith, count_since-prune_events now window g.events h)

-- A vault that a cycle is admitted for is not reported as failing.
pub allow-not_failing :
    (g : Governor) (now : ℕ) (vault_id : String) (class : WorkClass)
    → (allow g now vault_id class).1 ≡ true
    → is_vault_failing g now vault_id ≡ false
unfolding allow is_vault_failing
allow-not_failing g now vault_id class h = ground arith

-- ===== src/Config/Rules.antt =====
-- What `validate` accepts.
use openbao_plugin_secrets_o.Prelude.{
  ◌*◌, String, true, Option, none, some, List, [], ◌∷◌, ◌≡◌, ◌≢◌, ◌↔◌, ◌<◌, ◌≤◌, ◌⊎◌, refl, ◌∙◌,
  length, any, eq_iff, arith, Bool-cases, inl, inr,
}
use openbao_plugin_secrets_o.Prelude.Int.{ℤ, pos_part, neg_part}
use openbao_plugin_secrets_o.Prelude.Time.{second}
use openbao_plugin_secrets_o.Prelude.Text.{cut, is_abs}
use openbao_plugin_secrets_o.Config.{
  Config, Compile, listed, unlisted, well_formed, malformed, validate_rest, validate,
}

-- An element of the list.
abbrev pub Member : String → List String → Type 0
Member w [] = ⊥
Member w (v ∷ vs) = (v ≡ w) ⊎ Member w vs

abbrev pub All : (String → Type 0) → List String → Type 0
All P [] = Unit
All P (x ∷ xs) = P x × All P xs

-- "vault/title" with both parts present.
abbrev pub IsVaultTitle : String → Type 0
IsVaultTitle pat =
    (vault : String) × (title : String) × (cut pat ≡ some (vault, title))
    × (vault ≢ "")
    × (title ≢ "")

abbrev IsPositive : ℤ → Type 0
IsPositive a = 0 < pos_part a

abbrev IsNonnegative : ℤ → Type 0
IsNonnegative a = neg_part a ≡ 0

-- The conditions on a configuration, one for each setting.
pub record IsValid (compile : Compile) (c : Config) : Type 0 where
  pub token : c.service_account_token ≢ ""
  pub subset : All (λ w. Member w c.vaults) c.write_vaults
  pub interval : IsPositive c.refresh_interval
  pub daily : IsPositive c.daily_request_limit
  pub hourly : IsPositive c.hourly_read_limit
  pub ceiling : IsNonnegative c.passthrough_ceiling_pct × (pos_part c.passthrough_ceiling_pct ≤ 100)
  pub window : IsNonnegative c.passthrough_ttl
  pub negative_cache : IsNonnegative c.negative_cache_ttl
  pub probe : (c.ratelimit_probe_cmd ≡ "") ⊎ (is_abs c.ratelimit_probe_cmd ≡ true)
  pub separator : (c.path_split ≡ "") ⊎ (compile c.path_split ≢ none)
  pub fresh : All IsVaultTitle c.always_fresh
  pub budget :
      (c.vaults ≡ [])
      ⊎ (4 * (length c.vaults * (86400 * second))
          ≤ pos_part c.daily_request_limit * pos_part c.refresh_interval)

listed→Member : (vs : List String) (w : String) → listed vs w ≡ true → Member w vs
unfolding listed any
listed→Member [] w h = cc
listed→Member (v ∷ vs) w h = ground (arith, eq_iff v w, listed→Member vs w)

Member→listed : (vs : List String) (w : String) → Member w vs → listed vs w ≡ true
unfolding listed any
Member→listed [] w h = absurd h
Member→listed (v ∷ vs) w h = ground (arith, eq_iff v w, Member→listed vs w)

unlisted-none : (vs ws : List String) → (unlisted vs ws ≡ none) ↔ All (λ w. Member w vs) ws
unfolding unlisted
unlisted-none vs [] = (λ _. tt, λ _. refl)
unlisted-none vs (w ∷ ws) = (
  λ h. ground (arith, (unlisted-none vs ws).0, listed→Member vs w),
  λ h. ground (arith, (unlisted-none vs ws).1 h.1, Member→listed vs w h.0),
)

well_formed→IsVaultTitle :
    (pat : String) (p : Option (String × String))
    → cut pat ≡ p
    → well_formed p ≡ true
    → IsVaultTitle pat
unfolding well_formed
well_formed→IsVaultTitle pat none e h = cc
well_formed→IsVaultTitle pat (some (vault, title)) e h =
    (vault, title, e, ground (arith, eq_iff vault ""), ground (arith, eq_iff title ""))

IsVaultTitle→well_formed : (pat : String) → IsVaultTitle pat → well_formed (cut pat) ≡ true
unfolding well_formed
IsVaultTitle→well_formed pat (vault, title, e, hv, ht) =
    rw e (ground (arith, eq_iff vault "", eq_iff title ""))

malformed-none→All : (pats : List String) → malformed pats ≡ none → All IsVaultTitle pats
unfolding malformed
malformed-none→All [] h = tt
malformed-none→All (pat ∷ pats) h = elim (Bool-cases (well_formed (cut pat))) [
  | inl good ↦
      (well_formed→IsVaultTitle pat (cut pat) refl good, malformed-none→All pats (ground arith))
  | inr bad ↦ absurd (ground arith)
]

All→malformed-none : (pats : List String) → All IsVaultTitle pats → malformed pats ≡ none
unfolding malformed
All→malformed-none [] h = refl
All→malformed-none (pat ∷ pats) h =
    rw (IsVaultTitle→well_formed pat h.0) (All→malformed-none pats h.1)

validate_rest-none→ :
    (compile : Compile) (c : Config)
    → validate_rest compile c ≡ none
    → ((c.ratelimit_probe_cmd ≡ "") ⊎ (is_abs c.ratelimit_probe_cmd ≡ true))
      × ((c.path_split ≡ "") ⊎ (compile c.path_split ≢ none))
      × (malformed c.always_fresh ≡ none)
      × ((c.vaults ≡ [])
          ⊎ (4 * (length c.vaults * (86400 * second))
              ≤ pos_part c.daily_request_limit * pos_part c.refresh_interval))
unfolding validate_rest
validate_rest-none→ compile c h =
    ground (arith, eq_iff c.ratelimit_probe_cmd "", eq_iff c.path_split "")

validate_rest-none← :
    (compile : Compile) (c : Config)
    → IsValid compile c
    → malformed c.always_fresh ≡ none
    → validate_rest compile c ≡ none
unfolding validate_rest
validate_rest-none← compile c v h =
    ground (
      arith,
      eq_iff c.ratelimit_probe_cmd "",
      eq_iff c.path_split "",
      v.separator,
      v.probe,
      v.budget,
    )

-- What is left of `validate` once the settings before the probe command are found good.
settings_good :
    (compile : Compile) (c : Config)
    → validate compile c ≡ none
    → (c.service_account_token ≢ "")
      × (unlisted c.vaults c.write_vaults ≡ none)
      × IsPositive c.refresh_interval
      × IsPositive c.daily_request_limit
      × IsPositive c.hourly_read_limit
      × (IsNonnegative c.passthrough_ceiling_pct × (pos_part c.passthrough_ceiling_pct ≤ 100))
      × IsNonnegative c.passthrough_ttl
      × IsNonnegative c.negative_cache_ttl
      × (validate_rest compile c ≡ none)
unfolding validate
settings_good compile c h = ground (arith, eq_iff c.service_account_token "")

good_settings :
    (compile : Compile) (c : Config)
    → IsValid compile c
    → unlisted c.vaults c.write_vaults ≡ none
    → validate compile c ≡ validate_rest compile c
unfolding validate
good_settings compile c v h = rw h (ground (arith, eq_iff c.service_account_token "", v.token))

pub validate-IsValid :
    (compile : Compile) (c : Config) → (validate compile c ≡ none) ↔ IsValid compile c
validate-IsValid compile c = (accepted, accepts)
  where
    accepted : validate compile c ≡ none → IsValid compile c
    accepted h =
        let s = settings_good compile c h in
        let r = validate_rest-none→ compile c s.8 in
        record {
          token = s.0;
          subset = (unlisted-none c.vaults c.write_vaults).0 s.1;
          interval = s.2;
          daily = s.3;
          hourly = s.4;
          ceiling = s.5;
          window = s.6;
          negative_cache = s.7;
          probe = r.0;
          separator = r.1;
          fresh = malformed-none→All c.always_fresh r.2;
          budget = r.3;
        }

    accepts : IsValid compile c → validate compile c ≡ none
    accepts v =
        good_settings compile c v ((unlisted-none c.vaults c.write_vaults).1 v.subset)
        ∙ validate_rest-none← compile c v (All→malformed-none c.always_fresh v.fresh)

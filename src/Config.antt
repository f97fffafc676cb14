-- ===== src/Config.antt =====
-- backend/config.go: the engine's configuration and the rules by which a write of it is refused.
-- What the code calls of Go's regexp is an argument: `compile` is regexp.Compile with the compiled
-- pattern given as its Split function. The floating-point comparison of checkGuardrail is that of
-- the exact numbers: it is reached only where the interval and the limit are positive.
pub mod Tests
pub mod Rules
use openbao_plugin_secrets_o.Prelude.{
  ℕ, ◌*◌, ltb, String, Bool, true, false, not, ◌&&◌, ◌||◌, Option, none, some, List, [], ◌∷◌,
  length, any, str_eq, if◌then◌else◌,
}
use openbao_plugin_secrets_o.Prelude.Int.{ℤ, pos, pos_part, leb_ℤ, ltb_ℤ}
use openbao_plugin_secrets_o.Prelude.Time.{second}
use openbao_plugin_secrets_o.Prelude.Text.{cut, is_abs}

pub record Config : Type 0 where
  pub service_account_token : String
  pub vaults : List String
  pub write_vaults : List String
  pub refresh_interval : ℤ
  pub daily_request_limit : ℤ
  pub hourly_read_limit : ℤ
  pub passthrough : Bool
  pub passthrough_ceiling_pct : ℤ
  pub passthrough_ttl : ℤ
  pub serve_stale : Bool
  pub negative_cache_ttl : ℤ
  pub path_split : String
  pub always_fresh : List String
  pub ratelimit_probe_cmd : String

pub data ConfigError : Type 0 where
  token_required : ConfigError
  not_in_vaults : String → ConfigError
  refresh_interval_not_positive : ConfigError
  daily_request_limit_not_positive : ConfigError
  hourly_read_limit_not_positive : ConfigError
  ceiling_out_of_range : ConfigError
  passthrough_ttl_negative : ConfigError
  negative_cache_ttl_negative : ConfigError
  probe_cmd_not_absolute : String → ConfigError
  path_split_invalid : String → ConfigError
  always_fresh_invalid : String → ConfigError
  over_guardrail : ConfigError

abbrev pub Splitter : Type 0
Splitter = String → List String

abbrev pub Compile : Type 0
Compile = String → Option Splitter

-- `slices.Contains`
pub listed : List String → String → Bool
listed vs w = any (λ v. str_eq v w) vs

-- The loop over write_vaults: the first entry that is not in vaults.
pub unlisted : List String → List String → Option String
unfolding listed
unlisted vs [] = none
unlisted vs (w ∷ ws) = if listed vs w then unlisted vs ws else some w

-- The test of one always_fresh entry.
pub well_formed : Option (String × String) → Bool
well_formed none = false
well_formed (some (vault, title)) = not (str_eq vault "") && not (str_eq title "")

-- The loop over always_fresh: the first entry that is not "vault/title".
pub malformed : List String → Option String
unfolding well_formed
malformed [] = none
malformed (pat ∷ pats) = if well_formed (cut pat) then malformed pats else some pat

-- Whether n * 86400 / interval_s exceeds a quarter of the daily limit, for an interval in
-- nanoseconds.
unfoldable pub over_budget : ℕ → ℤ → ℤ → Bool
over_budget n interval daily = ltb (pos_part daily * pos_part interval) (4 * (n * (86400 * second)))

pub check_guardrail : Config → Option ConfigError
unfolding over_budget
check_guardrail c = elim c.vaults [
  | [] ↦ none
  | v ∷ vs ↦
      if over_budget (length (v ∷ vs)) c.refresh_interval c.daily_request_limit
      then some over_guardrail
      else none
]

-- `regexp.Compile(c.PathSplit)`, which is tried where the setting is not empty.
pub compiles : Compile → String → Bool
compiles compile s = str_eq s "" || elim (compile s) [ none ↦ false | some _ ↦ true ]

pub validate_rest : Compile → Config → Option ConfigError
unfolding malformed compiles check_guardrail
validate_rest compile c =
    if not (str_eq c.ratelimit_probe_cmd "") && not (is_abs c.ratelimit_probe_cmd)
    then some (probe_cmd_not_absolute c.ratelimit_probe_cmd)
    else (if not (compiles compile c.path_split)
        then some (path_split_invalid c.path_split)
        else elim (malformed c.always_fresh) [
          | some pat ↦ some (always_fresh_invalid pat)
          | none ↦ check_guardrail c
        ])

pub validate : Compile → Config → Option ConfigError
unfolding unlisted validate_rest
validate compile c =
    if str_eq c.service_account_token ""
    then some token_required
    else elim (unlisted c.vaults c.write_vaults) [
      | some w ↦ some (not_in_vaults w)
      | none ↦
          if leb_ℤ c.refresh_interval (pos 0)
          then some refresh_interval_not_positive
          else (if leb_ℤ c.daily_request_limit (pos 0)
              then some daily_request_limit_not_positive
              else (if leb_ℤ c.hourly_read_limit (pos 0)
                  then some hourly_read_limit_not_positive
                  else (if ltb_ℤ c.passthrough_ceiling_pct (pos 0)
                        || ltb_ℤ (pos 100) c.passthrough_ceiling_pct
                      then some ceiling_out_of_range
                      else (if ltb_ℤ c.passthrough_ttl (pos 0)
                          then some passthrough_ttl_negative
                          else (if ltb_ℤ c.negative_cache_ttl (pos 0)
                              then some negative_cache_ttl_negative
                              else validate_rest compile c)))))
    ]

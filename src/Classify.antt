-- ===== src/Classify.antt =====
-- backend/governor.go: how an error from 1Password is classified, and until when a rate limit
-- is taken to last.
use openbao_plugin_secrets_o.Prelude.{
  ℕ, ◌+◌, ◌-◌, ◌*◌, Bool, true, false, ◌&&◌, ◌||◌, Option, none, some, List, [], ◌∷◌, any, leb, ltb,
  ◌==◌, if◌then◌else◌,
}
use openbao_plugin_secrets_o.Prelude.Int.{i64, int64_limit}
use openbao_plugin_secrets_o.Prelude.Time.{second, minute, hour, time_add, truncate_hour}
use openbao_plugin_secrets_o.Prelude.Text.{codes, lower, contains}
use openbao_plugin_secrets_o.Onepassword.{SdkError}
use mathlib.Core.List.{map}

pub data ErrClass : Type 0 where
  other rate_limited auth_failed : ErrClass

abbrev pub auth_failure_needles : List (List ℕ)
auth_failure_needles =
    codes "not authenticated"
    ∷ codes "right permissions"
    ∷ codes "bad service account token"
    ∷ codes "forbidden"
    ∷ codes "unauthorized"
    ∷ []

unfoldable pub classify_error : SdkError → ErrClass
unfolding contains any
classify_error e =
    if e.rate_limited
    then rate_limited
    else (if any (contains (map lower e.message)) auth_failure_needles then auth_failed else other)

-- `retryHorizonRe`, `(?i)retry in (\d+)\s*(second|minute|hour)s?`, step by step. Without regard
-- to case, a letter of the pattern stands for both cases of it, and "s" for U+017F as well.
abbrev pub folds : ℕ → ℕ → Bool
folds p c = c == p || (leb b'A' c && leb c b'Z' && c + 32 == p) || (p == b's' && c == 0x17f)

unfoldable pub literal : List ℕ → List ℕ → Option (List ℕ)
literal [] s = some s
literal (p ∷ ps) [] = none
literal (p ∷ ps) (c ∷ s) = if folds p c then literal ps s else none

abbrev pub is_digit : ℕ → Bool
is_digit c = leb b'0' c && leb c b'9'

-- `\s` is a tab, a line feed, a form feed, a carriage return or a space.
abbrev pub is_space : ℕ → Bool
is_space c = c == 9 || c == 10 || c == 12 || c == 13 || c == 32

-- `\d*`, greedily: the value of the digits with those before them, whether there is a digit, and
-- the rest.
unfoldable pub digits_value : List ℕ → ℕ → Bool → ℕ × Bool × List ℕ
digits_value [] n seen = (n, seen, [])
digits_value (c ∷ s) n seen =
    let rest = digits_value s (n * 10 + (c - b'0')) true in
    if is_digit c then rest else (n, seen, c ∷ s)

unfoldable pub skip_spaces : List ℕ → List ℕ
skip_spaces [] = []
skip_spaces (c ∷ s) = if is_space c then skip_spaces s else c ∷ s

-- The unit that `(second|minute|hour)` matched, lower-cased and looked up in the `switch`: an
-- initial U+017F matches, keeps its spelling and leaves the unit 0.
abbrev pub second_unit : List ℕ → ℕ
second_unit [] = 0
second_unit (c ∷ s) = if c == 0x17f then 0 else second

unfoldable pub unit_at : List ℕ → Option ℕ
unfolding literal
unit_at s = elim (literal (codes "second") s) [
  | some _ ↦ some (second_unit s)
  | none ↦ elim (literal (codes "minute") s) [
    | some _ ↦ some minute
    | none ↦ elim (literal (codes "hour") s) [ some _ ↦ some hour | none ↦ none ]
  ]
]

-- `m[1]` as a number, and the unit.
unfoldable pub horizon_digits : ℕ × Bool × List ℕ → Option (ℕ × ℕ)
unfolding skip_spaces unit_at
horizon_digits (n, seen, rest) =
    if seen
    then elim (unit_at (skip_spaces rest)) [ none ↦ none | some unit ↦ some (n, unit) ]
    else none

-- A match that begins at the head of the text.
unfoldable pub horizon_at : List ℕ → Option (ℕ × ℕ)
unfolding literal digits_value horizon_digits
horizon_at s = elim (literal (codes "retry in ") s) [
  | none ↦ none
  | some rest ↦ horizon_digits (digits_value rest 0 false)
]

-- The leftmost match.
unfoldable pub find_horizon : List ℕ → Option (ℕ × ℕ)
unfolding horizon_at
find_horizon [] = none
find_horizon (c ∷ s) =
    let rest = find_horizon s in elim (horizon_at (c ∷ s)) [ some m ↦ some m | none ↦ rest ]

-- `strconv.Atoi` fails on a number that is no int64; a product of durations wraps.
unfoldable pub rate_limit_resume_at : SdkError → ℕ → ℕ
unfolding find_horizon i64
rate_limit_resume_at e now = elim (find_horizon e.message) [
  | some (n, unit) ↦
      if ltb n int64_limit then time_add now (i64 (n * unit)) else truncate_hour now + hour
  | none ↦ truncate_hour now + hour
]

-- ===== src/Probe.antt =====
-- backend/governor.go: the rate-limit probe. The command that it runs is an argument, `Output`:
-- what it prints, or the text of its failure. `percent used limit` is the integer part of the
-- floating-point `float64(used) / float64(limit) * 100`.
pub mod Due
mod Tests
use openbao_plugin_secrets_o.Prelude.{
  ℕ, ◌+◌, ◌-◌, ◌*◌, ◌<◌, String, Bool, true, false, not, ◌&&◌, ◌||◌, ◌==◌, Option, none, some, List,
  [], ◌∷◌, ◌++◌, ltb, leb, str_eq, if◌then◌else◌,
}
use openbao_plugin_secrets_o.Prelude.Int.{ℤ, pos, negsuc, pos_part, neg_part, int64_limit}
use openbao_plugin_secrets_o.Prelude.Time.{elapsed}
use openbao_plugin_secrets_o.Prelude.Text.{codes, same_text}
use openbao_plugin_secrets_o.Classify.{folds, is_digit}
use openbao_plugin_secrets_o.Governor.{Governor, ProbeWarning, token_read_limit, account_limit}

abbrev pub Percent : Type 0
Percent = ℤ → ℤ → ℤ

pub data Output : Type 0 where
  printed : List ℕ → Output
  exec_failed : List ℕ → Output

-- The white space of `strings.Fields`.
abbrev pub is_blank : ℕ → Bool
is_blank c =
    (leb 9 c && leb c 13)
    || c == 32
    || c == 0x85
    || c == 0xa0
    || c == 0x1680
    || (leb 0x2000 c && leb c 0x200a)
    || c == 0x2028
    || c == 0x2029
    || c == 0x202f
    || c == 0x205f
    || c == 0x3000

abbrev pub prepend : ℕ → List (List ℕ) → List (List ℕ)
prepend c [] = (c ∷ []) ∷ []
prepend c (s ∷ ss) = (c ∷ s) ∷ ss

-- `strings.Split(out, "\n")`
unfoldable pub lines : List ℕ → List (List ℕ)
lines [] = [] ∷ []
lines (c ∷ s) = let rest = lines s in if c == 10 then [] ∷ rest else prepend c rest

-- `strings.Fields(line)`; the flag says whether the character before belongs to a field.
unfoldable pub fields_from : Bool → List ℕ → List (List ℕ)
fields_from inside [] = if inside then [] ∷ [] else []
fields_from inside (c ∷ s) =
    let outer = fields_from false s in
    let inner = fields_from true s in
    if is_blank c then (if inside then [] ∷ outer else outer) else prepend c inner

-- `strings.EqualFold(s, "TYPE")`: no letter of it has a fold outside ASCII.
unfoldable pub equal_fold : List ℕ → List ℕ → Bool
equal_fold [] [] = true
equal_fold (p ∷ ps) (c ∷ s) = folds p c && equal_fold ps s
equal_fold _ _ = false

unfoldable pub all_digits : List ℕ → ℕ → Option ℕ
all_digits [] n = some n
all_digits (c ∷ s) n =
    let rest = all_digits s (n * 10 + (c - b'0')) in if is_digit c then rest else none

abbrev pub in_range : Bool → Option ℕ → Option ℤ
in_range negative none = none
in_range false (some n) = if ltb n int64_limit then some (pos n) else none
in_range true (some n) =
    if n == 0 then some (pos 0) else (if leb n int64_limit then some (negsuc (n - 1)) else none)

abbrev pub unsigned : List ℕ → Option ℕ
unsigned [] = none
unsigned (c ∷ s) = all_digits (c ∷ s) 0

-- `strconv.Atoi`
unfoldable pub atoi : List ℕ → Option ℤ
unfolding all_digits
atoi [] = none
atoi (c ∷ s) =
    if c == b'-'
    then in_range true (unsigned s)
    else (if c == b'+' then in_range false (unsigned s) else in_range false (unsigned (c ∷ s)))

pub record ProbeRow : Type 0 where
  pub key : List ℕ
  pub limit : ℤ
  pub used : ℤ

abbrev pub row_of : List ℕ → List ℕ → Option ℤ → Option ℤ → Option ProbeRow
row_of kind action (some limit) (some used) =
    some (record { key = kind ++ b'/' ∷ action; limit = limit; used = used })
row_of kind action _ _ = none

-- One line, which is skipped where it is no row.
unfoldable pub parse_row : List (List ℕ) → Option ProbeRow
unfolding atoi equal_fold
parse_row (kind ∷ action ∷ limit ∷ used ∷ remaining ∷ more) =
    if equal_fold (codes "type") kind then none else row_of kind action (atoi limit) (atoi used)
parse_row _ = none

abbrev pub add_row : Option ProbeRow → List ProbeRow → List ProbeRow
add_row none rows = rows
add_row (some row) rows = row ∷ rows

unfoldable pub parse_lines : List (List ℕ) → List ProbeRow
unfolding parse_row fields_from
parse_lines [] = []
parse_lines (line ∷ rest) = add_row (parse_row (fields_from false line)) (parse_lines rest)

-- `parseProbeOutput`: the rows in the order of the lines, none where there are none.
unfoldable pub parse_probe_output : List ℕ → List ProbeRow
unfolding parse_lines lines
parse_probe_output out = parse_lines (lines out)

-- `rows[key]`: a later row with a key has taken the place of an earlier one.
unfoldable pub row_at : List ℕ → List ProbeRow → Option ProbeRow
unfolding same_text
row_at key [] = none
row_at key (row ∷ rows) =
    let later = row_at key rows in
    elim later [ some found ↦ some found | none ↦ if same_text row.key key then some row else none ]

abbrev pub probe_failed : List ℕ → Governor → Governor
probe_failed text g = record g { probe_healthy = false; probe_err = text; probe_warning = [] }

abbrev pub differs : ℤ → ℤ → Bool
differs a b = not (pos_part a == pos_part b && neg_part a == neg_part b)

abbrev pub token_warning : ℤ → Option ProbeRow → List ProbeWarning
token_warning limit none = []
token_warning limit (some row) =
    if ltb 0 (pos_part limit) && differs row.limit limit
    then token_read_limit row.limit limit ∷ []
    else []

abbrev pub account_warning : ℤ → ProbeRow → List ProbeWarning
account_warning limit row =
    if ltb 0 (pos_part row.limit) && (ltb 0 (pos_part limit) && differs row.limit limit)
    then account_limit row.limit limit ∷ []
    else []

abbrev pub probe_succeeded : Percent → ProbeRow → Option ProbeRow → Governor → Governor
probe_succeeded percent account token g = record g {
  probe_healthy = true;
  probe_err = [];
  probed_account_pct =
      if ltb 0 (pos_part account.limit)
      then percent account.used account.limit
      else g.probed_account_pct;
  probe_warning = token_warning g.hourly_limit token ++ account_warning g.daily_limit account;
}

abbrev pub read_rows : Percent → List ProbeRow → Governor → Governor
read_rows percent [] g = probe_failed (codes "op: ratelimit probe: no parseable rows in output") g
read_rows percent (row ∷ rows) g = elim (row_at (codes "account/read_write") (row ∷ rows)) [
  | none ↦ probe_failed (codes "op: ratelimit probe: missing account/read_write row") g
  | some account ↦ probe_succeeded percent account (row_at (codes "token/read") (row ∷ rows)) g
]

abbrev pub take_output : Percent → Output → Governor → Governor
take_output percent (exec_failed text) g = probe_failed text g
take_output percent (printed out) g = read_rows percent (parse_probe_output out) g

unfoldable pub probe_now : Percent → Output → ℕ → Governor → Governor
unfolding parse_probe_output row_at
probe_now percent out now g =
    if str_eq g.probe_cmd "" then g else take_output percent out (record g { last_probe_at = now })

-- `asked` is when the interval is looked at, `now` when the command has ended.
unfoldable pub run_probe_if_due : Percent → Output → ℕ → ℕ → Governor → Governor
unfolding probe_now
run_probe_if_due percent out asked now g =
    if not (str_eq g.probe_cmd "") && elapsed asked g.last_probe_at g.refresh_interval
    then probe_now percent out now g
    else g

-- ===== src/Governor.antt =====
-- backend/governor.go: the rate governor. A method that reads the clock takes the time as its
-- argument `now`, and one that changes the governor returns the new one. The mutex makes each
-- method one step. Floating-point tests are exact here: `hourly >= 0.8 * limit` is
-- `5 * hourly >= 4 * limit`, and of the probed percentage only its integer part, all that is read, is kept.
mod Tests
pub mod Window
pub mod Admission
pub mod Lock
pub mod Recovery
pub mod Usage
pub mod Status
use openbao_plugin_secrets_o.Prelude.{
  ℕ, zero, suc, ◌+◌, ◌-◌, ◌*◌, ◌/◌, ◌≤◌, ◌<◌, max, String, Bool, true, false, not, ◌&&◌, ◌||◌,
  Option, none, some, List, [], ◌∷◌, ◌++◌, length, replicate, filter_by, ltb, leb, ◌==◌, str_eq,
  if◌then◌else◌,
}
use openbao_plugin_secrets_o.Prelude.Int.{ℤ, pos, negsuc, pos_part}
use openbao_plugin_secrets_o.Prelude.Time.{hour, zero_time, time_add, elapsed}
use openbao_plugin_secrets_o.Prelude.Table.{Table, lookup, insert, delete}
use openbao_plugin_secrets_o.Config.{Config}
use openbao_plugin_secrets_o.Onepassword.{SdkError}
use openbao_plugin_secrets_o.Classify.{ErrClass, classify_error, rate_limit_resume_at}
use openbao_plugin_secrets_o.Backoff.{backoff_delay}

pub data GovState : Type 0 where
  normal rate_limited auth_failed : GovState

-- Why a cycle is triggered (backend/cycle.go).
pub data WorkClass : Type 0 where
  periodic miss manual : WorkClass

pub record VaultBackoff : Type 0 where
  pub consecutive_failures : ℕ
  pub next_allowed_at : ℕ

pub record ClientInitState : Type 0 where
  pub consecutive_failures : ℕ
  pub next_allowed_at : ℕ
  pub last_err : List ℕ

abbrev pub no_client_init : ClientInitState
no_client_init = record { consecutive_failures = 0; next_allowed_at = zero_time; last_err = [] }

pub data ProbeWarning : Type 0 where
  token_read_limit : ℤ → ℤ → ProbeWarning
  account_limit : ℤ → ℤ → ProbeWarning

pub record Governor : Type 0 where
  pub hourly_limit : ℤ
  pub daily_limit : ℤ
  pub refresh_interval : ℤ
  pub events : List ℕ
  pub state : GovState
  pub resume_at : ℕ
  pub backoff : Table VaultBackoff
  pub client_init : ClientInitState
  pub probe_cmd : String
  pub token : String
  pub last_probe_at : ℕ
  pub probe_healthy : Bool
  pub probed_account_pct : ℤ
  pub probe_err : List ℕ
  pub probe_warning : List ProbeWarning

unfoldable pub new_governor : Governor
new_governor = record {
  hourly_limit = pos 0;
  daily_limit = pos 0;
  refresh_interval = pos 0;
  events = [];
  state = normal;
  resume_at = zero_time;
  backoff = [];
  client_init = no_client_init;
  probe_cmd = "";
  token = "";
  last_probe_at = zero_time;
  probe_healthy = false;
  probed_account_pct = pos 0;
  probe_err = [];
  probe_warning = [];
}

abbrev clear_auth : GovState → GovState
clear_auth auth_failed = normal
clear_auth s = s

unfoldable pub reconfigure : Governor → Config → Governor
reconfigure g cfg = record g {
  hourly_limit = cfg.hourly_read_limit;
  daily_limit = cfg.daily_request_limit;
  refresh_interval = cfg.refresh_interval;
  probe_cmd = cfg.ratelimit_probe_cmd;
  token = cfg.service_account_token;
  state = clear_auth g.state;
  client_init = no_client_init;
}

-- The `switch g.state` that `allow` and `clientInitAllowed` begin with: the governor, with an
-- expired rate limit cleared, and whether its state lets work go on.
abbrev pass_state : GovState → Governor → ℕ → Governor × Bool
pass_state normal g now = (g, true)
pass_state rate_limited g now =
    if leb g.resume_at now
    then (record g { state = normal; resume_at = zero_time }, true)
    else (g, false)
pass_state auth_failed g now = (g, false)

unfoldable pub client_init_allowed : Governor → ℕ → Governor × Bool
client_init_allowed g now =
    let (g', open_state) = pass_state g.state g now in
    (g', open_state && leb g'.client_init.next_allowed_at now)

-- A failure that is neither a rate limit nor an authentication failure backs the client off.
unfoldable pub client_init_failed : Governor → ℕ → SdkError → Governor
client_init_failed g now e =
    let n = g.client_init.consecutive_failures + 1 in
    record g {
      client_init = record {
        consecutive_failures = n;
        next_allowed_at = time_add now (backoff_delay n g.refresh_interval);
        last_err = e.message;
      };
    }

abbrev classified : ErrClass → Governor → ℕ → SdkError → Governor → Governor
classified ErrClass.rate_limited g now e backed_off = record g {
  state = rate_limited;
  resume_at = rate_limit_resume_at e now;
}
classified ErrClass.auth_failed g now e backed_off = record g { state = auth_failed }
classified ErrClass.other g now e backed_off = backed_off

unfoldable pub record_client_init_result : Governor → ℕ → Option SdkError → Governor
unfolding client_init_failed
record_client_init_result g now none = record g { client_init = no_client_init }
record_client_init_result g now (some e) =
    classified (classify_error e) g now e (client_init_failed g now e)

-- Whether `t` lies after `now - window`; ages are compared, so `now` may be below `window`.
abbrev pub within : ℕ → ℕ → ℕ → Bool
within now window t = ltb now (t + window)

-- The `for` loop drops events from the front, up to the first that is recent.
unfoldable pub prune_events : ℕ → List ℕ → List ℕ
prune_events now [] = []
prune_events now (t ∷ ts) = if within now (24 * hour) t then t ∷ ts else prune_events now ts

unfoldable pub prune : Governor → ℕ → Governor
unfolding prune_events
prune g now = record g { events = prune_events now g.events }

unfoldable pub count_since : List ℕ → ℕ → ℕ → ℕ
count_since [] now window = 0
count_since (t ∷ ts) now window =
    let n = count_since ts now window in if within now window t then suc n else n

abbrev pub in_backoff : Option VaultBackoff → ℕ → Bool
in_backoff none now = false
in_backoff (some b) now = ltb now b.next_allowed_at

abbrev is_periodic : WorkClass → Bool
is_periodic periodic = true
is_periodic _ = false

-- The budget test of `allow`, for the hourly count.
unfoldable pub budget_allows : ℤ → ℕ → WorkClass → Bool
budget_allows limit hourly class =
    if leb (pos_part limit) hourly
    then false
    else not (is_periodic class && leb (4 * pos_part limit) (5 * hourly))

unfoldable pub allow : Governor → ℕ → String → WorkClass → Governor × Bool
unfolding prune count_since budget_allows lookup
allow g now vault_id class =
    let (g', open_state) = pass_state g.state g now in
    if not open_state
    then (g', false)
    else (if in_backoff (lookup vault_id g'.backoff) now
        then (g', false)
        else (if ltb 0 (pos_part g'.hourly_limit)
            then (
              prune g' now,
              budget_allows g'.hourly_limit (count_since (prune g' now).events now hour) class,
            )
            else (g', true)))

abbrev failures_so_far : Option VaultBackoff → ℕ
failures_so_far none = 0
failures_so_far (some b) = b.consecutive_failures

unfoldable pub back_off : Governor → ℕ → String → Governor
unfolding lookup insert
back_off g now vault_id =
    let n = failures_so_far (lookup vault_id g.backoff) + 1 in
    record g {
      backoff =
          insert vault_id
            (record {
              consecutive_failures = n;
              next_allowed_at = time_add now (backoff_delay n g.refresh_interval);
            })
            g.backoff;
    }

unfoldable pub record_request : Governor → ℕ → String → ℕ → Option SdkError → Governor
unfolding prune back_off
record_request g now vault_id units result =
    let g' = prune (record g { events = g.events ++ replicate units now }) now in
    elim result [
      | none ↦ g'
      | some e ↦ classified (classify_error e) g' now e (back_off g' now vault_id)
    ]

unfoldable pub record_success : Governor → String → Governor
unfolding delete
record_success g vault_id = record g { backoff = delete vault_id g.backoff }

-- `count*100/limit`
unfoldable pub pct_of : ℕ → ℤ → ℕ
pct_of count limit = if ltb 0 (pos_part limit) then count * 100 / pos_part limit else 0

-- The largest of the hourly and the daily share.
unfoldable pub local_pct : Governor → ℕ → ℕ
unfolding pct_of count_since
local_pct g now =
    let hourly = pct_of (count_since g.events now hour) g.hourly_limit in
    let daily = pct_of (count_since g.events now (24 * hour)) g.daily_limit in
    if ltb hourly daily then daily else hourly

unfoldable pub usage_pct : Governor → ℕ → Governor × ℕ
unfolding prune local_pct
usage_pct g now =
    let g' = prune g now in
    let pct = local_pct g' now in
    let probed = pos_part g'.probed_account_pct in
    (g', if g'.probe_healthy && ltb pct probed then probed else pct)

unfoldable pub is_vault_failing : Governor → ℕ → String → Bool
unfolding lookup
is_vault_failing g now vault_id = elim g.state [
  | normal ↦ in_backoff (lookup vault_id g.backoff) now
  | rate_limited ↦ ltb now g.resume_at
  | auth_failed ↦ true
]

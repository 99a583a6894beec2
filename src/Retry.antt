-- ===== src/Retry.antt =====
-- worker/retry.py: an error text becomes a category, and a category a plan.
pub mod Codes
pub mod Plan
mod Tests
use bifrost_platform_plugin.Common.{
  ℕ, ◌+◌, ◌-◌, ◌*◌, String, Bool, true, false, ◌&&◌, ◌||◌, Option, none, some, List, [], ◌∷◌, zero,
  suc, leb, ◌==◌, if◌then◌else◌, any, map, ◌<◌,
}
use bifrost_platform_plugin.Common.Int.{ℤ, floor_at}
use bifrost_platform_plugin.Common.Text.{Text, codes, is_digit, contains}
use bifrost_platform_plugin.Common.Json.{Json, Dict, get, is_blank, int_of}

pub data ErrorCategory : Type 0 where
  not_ready throttled config transient unknown : ErrorCategory

-- ErrorCategory.value
abbrev pub value : ErrorCategory → String
value not_ready = "not_ready"
value throttled = "throttled"
value config = "config"
value transient = "transient"
value unknown = "unknown"

abbrev pub not_ready_codes : List ℕ
not_ready_codes = 1003 ∷ 1004 ∷ 1005 ∷ 1006 ∷ 1007 ∷ 1008 ∷ 1009 ∷ 1019 ∷ 1021 ∷ []

abbrev pub throttled_codes : List ℕ
throttled_codes = 1018 ∷ []

abbrev pub config_codes : List ℕ
config_codes = 1010 ∷ 1011 ∷ 1012 ∷ 1013 ∷ 1014 ∷ 1015 ∷ 1016 ∷ 1017 ∷ 1020 ∷ []

pub config_markers : List Text
config_markers =
    codes "No Flex credentials"
    ∷ codes "Token has expired"
    ∷ codes "Token is invalid"
    ∷ codes "Query is invalid"
    ∷ codes "unknown job kind"
    ∷ []

pub transient_markers : List Text
transient_markers =
    codes "timed out"
    ∷ codes "Connection refused"
    ∷ codes "Connection reset"
    ∷ codes "connection to server"
    ∷ codes "could not connect"
    ∷ codes "Name or service not known"
    ∷ codes "Temporary failure in name resolution"
    ∷ codes "URLError"
    ∷ codes "HTTP Error 5"
    ∷ codes "OperationalError"
    ∷ codes "InterfaceError"
    ∷ codes "did not return report"
    ∷ []

abbrev pub four_digits : ℕ → ℕ → ℕ → ℕ → ℕ
four_digits a b c d = ((a - 48) * 10 + (b - 48)) * 100 + ((c - 48) * 10 + (d - 48))

-- A match of `\[(\d{4})\]` at the head of the text, as the number that it quotes.
unfoldable pub code_at : Text → Option ℕ
unfolding is_digit
code_at (o ∷ a ∷ b ∷ c ∷ d ∷ e ∷ rest) =
    if o == b'[' && is_digit a && is_digit b && is_digit c && is_digit d && e == b']'
    then some (four_digits a b c d)
    else none
code_at _ = none

-- `findall`: after a match the search goes on behind it, so the next `skip` places are passed over.
unfoldable pub find_codes : ℕ → Text → List ℕ
find_codes skip [] = []
find_codes (suc skip) (c ∷ s) = find_codes skip s
find_codes zero (c ∷ s) = elim (code_at (c ∷ s)) [
  | some n ↦ n ∷ find_codes 5 s
  | none ↦ find_codes zero s
]

-- The set of codes, as the list of its members.
unfoldable pub flex_error_codes : Text → List ℕ
unfolding find_codes code_at
flex_error_codes message = find_codes 0 message

-- `codes & members`
abbrev pub meets : List ℕ → List ℕ → Bool
meets found members = any (λ c. any (λ m. m == c) members) found

abbrev pub has_marker : List Text → Text → Bool
has_marker markers msg = any (λ m. contains m msg) markers

unfoldable pub classify_flex_error : Text → ErrorCategory
classify_flex_error msg =
    let found = flex_error_codes msg in
    if meets found throttled_codes
    then throttled
    else if meets found config_codes || has_marker config_markers msg
    then config
    else if meets found not_ready_codes
    then not_ready
    else if has_marker transient_markers msg
    then transient
    else unknown

pub record RetryPolicy : Type 0 where
  pub not_ready_delay_sec : ℕ
  pub throttled_delay_sec : ℕ
  pub transient_delay_sec : ℕ
  pub unknown_delay_sec : ℕ

abbrev pub default_policy : RetryPolicy
default_policy = record {
  not_ready_delay_sec = 1800;
  throttled_delay_sec = 1800;
  transient_delay_sec = 120;
  unknown_delay_sec = 300;
}

-- One field of `from_config`: left at its default if it is absent, blank or no number.
unfoldable pub delay_or : ℕ → Option Json → ℕ
delay_or default none = default
delay_or default (some v) =
    if is_blank v then default else elim (int_of v) [ none ↦ default | some n ↦ floor_at 30 n ]

unfoldable pub from_config : Dict → RetryPolicy
unfolding delay_or
from_config raw = record {
  not_ready_delay_sec = delay_or 1800 (get raw "not_ready_delay_sec");
  throttled_delay_sec = delay_or 1800 (get raw "throttled_delay_sec");
  transient_delay_sec = delay_or 120 (get raw "transient_delay_sec");
  unknown_delay_sec = delay_or 300 (get raw "unknown_delay_sec");
}

-- RetryPlan.status: `pending` is "retry later", `failed` is final.
pub data PlanStatus : Type 0 where
  pending failed : PlanStatus

pub record RetryPlan : Type 0 where
  pub status : PlanStatus
  pub category : ErrorCategory
  pub delay_sec : ℕ
  pub cooldown_all_sec : ℕ

abbrev give_up : ErrorCategory → RetryPlan
give_up category = record {
  status = failed;
  category = category;
  delay_sec = 0;
  cooldown_all_sec = 0;
}

abbrev later : ErrorCategory → ℕ → ℕ → RetryPlan
later category delay cooldown = record {
  status = pending;
  category = category;
  delay_sec = delay;
  cooldown_all_sec = cooldown;
}

-- The attempts that remain, by category; CONFIG is answered before the attempts are looked at.
plan_by_category : RetryPolicy → ErrorCategory → RetryPlan
plan_by_category p not_ready = later not_ready p.not_ready_delay_sec 0
plan_by_category p throttled = later throttled p.throttled_delay_sec p.throttled_delay_sec
plan_by_category p transient = later transient p.transient_delay_sec 0
plan_by_category p category = later category p.unknown_delay_sec 0

unfoldable pub plan_retry : ErrorCategory → ℕ → ℕ → RetryPolicy → RetryPlan
unfolding plan_by_category
plan_retry config attempts max_attempts p = give_up config
plan_retry category attempts max_attempts p =
    if leb max_attempts attempts then give_up category else plan_by_category p category

-- The first category of `order` that is among those seen.
unfoldable pub first_seen : List ErrorCategory → (ErrorCategory → Bool) → ErrorCategory
first_seen [] seen = unknown
first_seen (cat ∷ order) seen = let rest = first_seen order seen in if seen cat then cat else rest

abbrev pub same_category : ErrorCategory → ErrorCategory → Bool
same_category not_ready not_ready = true
same_category throttled throttled = true
same_category config config = true
same_category transient transient = true
same_category unknown unknown = true
same_category _ _ = false

abbrev pub severity_order : List ErrorCategory
severity_order = throttled ∷ config ∷ not_ready ∷ transient ∷ unknown ∷ []

unfoldable pub summarize_categories : List Text → ErrorCategory
unfolding first_seen
summarize_categories messages =
    first_seen severity_order (λ cat. any (same_category cat) (map classify_flex_error messages))

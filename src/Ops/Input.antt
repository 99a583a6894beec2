-- ===== src/Ops/Input.antt =====
-- ops/diagnose.py: what the self-check reads and says, and the slots that were missed.
use bifrost_platform_plugin.Common.{
  ℕ, ◌+◌, ◌*◌, Bool, false, ◌||◌, not, Option, none, some, List, ◌++◌, ltb, leb, length, take,
  filter, if◌then◌else◌,
}
use bifrost_platform_plugin.Common.Text.{Text, codes, is_space}
use bifrost_platform_plugin.Config.{some_text}
use bifrost_platform_plugin.Cron.{split_by}
use bifrost_platform_plugin.Flex.Request.{is_given}
use bifrost_platform_plugin.Ingest.{join}
use bifrost_platform_plugin.Queue.{Job}
use bifrost_platform_plugin.Schema.{FreshnessRow}

-- VERDICT_ORDER has them from the worst on.
pub data Verdict : Type 0 where
  failed missed throttled waiting running queued ok idle unknown : Verdict

pub record KindInput : Type 0 where
  pub kind : Text
  pub job : Option Job
  pub freshness : Option FreshnessRow
  pub planned_last : Option ℕ
  pub planned_next : Option ℕ
  pub kind_max_attempts : ℕ

-- The part of CheckInput that the verdicts read. Times are microseconds.
pub record CheckInput : Type 0 where
  pub now : ℕ
  pub grace_sec : ℕ
  pub cooldown_until : Option ℕ
  pub catchup_enabled : Bool
  pub worker_poll_sec : ℕ

-- An action with the slot of its body.
pub record Action : Type 0 where
  pub id : Text
  pub label : Text
  pub path : Text
  pub slot : Option Text
  pub enabled : Bool
  pub reason : Option Text

pub record KindVerdict : Type 0 where
  pub verdict : Verdict
  pub headline : Text
  pub detail : Option Text
  pub next_at : Option ℕ
  pub job : Option Job
  pub last_success_at : Option ℕ
  pub actions : List Action

abbrev pub micros : ℕ
micros = 1000000

abbrev pub job_since : ℕ → Option Job → Bool
job_since planned none = false
job_since planned (some j) = leb planned j.created_at

-- `_missed_plan`
abbrev pub missed_since : CheckInput → Option Job → Option ℕ → Bool
missed_since inp job none = false
missed_since inp job (some planned) =
    if ltb inp.now (planned + inp.grace_sec * micros) || ltb (planned + 86400 * micros) inp.now
    then false
    else not (job_since planned job)

unfoldable pub missed_plan : KindInput → CheckInput → Bool
missed_plan k inp = missed_since inp k.job k.planned_last

abbrev pub is_cooling : CheckInput → Bool
is_cooling inp = elim inp.cooldown_until [ none ↦ false | some t ↦ ltb inp.now t ]

-- `_short(msg) or None`
abbrev pub short_or_none : Text → Option Text
short_or_none msg =
    let s = join (codes " ") (filter is_given (split_by is_space msg)) in
    some_text (if leb (length s) 220 then s else take 219 s ++ codes "…")

abbrev pub plain_verdict : Verdict → Text → Option Text → List Action → KindVerdict
plain_verdict v headline detail actions = record {
  verdict = v;
  headline = headline;
  detail = detail;
  next_at = none;
  job = none;
  last_success_at = none;
  actions = actions;
}

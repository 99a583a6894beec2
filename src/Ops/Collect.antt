-- ===== src/Ops/Collect.antt =====
-- api/ops.py: what GET /flex/ops/check reads for the self-check. The rows that are no part of this model, the
-- clock in the zone of the schedule and the reading of the coverage are arguments.
pub mod Latest
use bifrost_platform_plugin.Common.{
  ℕ, String, Bool, true, false, ◌&&◌, not, Option, none, some, List, [], ◌∷◌, max, ltb,
  if◌then◌else◌, any, filter, take,
}
use bifrost_platform_plugin.Common.Int.{floor_at}
use bifrost_platform_plugin.Common.Text.{Text, codes, strip, text_eq, is_space}
use bifrost_platform_plugin.Common.Json.{Json, Dict, get, int_of}
use bifrost_platform_plugin.Common.Result.{message, Result, ok, raise, ◌>>=◌}
use bifrost_platform_plugin.Queue.{is_pending, Job, Queue}
use bifrost_platform_plugin.Schema.{FreshnessTable, lookup}
use bifrost_platform_plugin.Cron.{Clock, split_by, first_fire, next_fires, previous_fire}
use bifrost_platform_plugin.Slots.{slot_names, slot_config, slot_budget, cron_of}
use bifrost_platform_plugin.Config.{Environment, resolve_flex_tokens, is_filled}
use bifrost_platform_plugin.Flex.Request.{is_given}
use bifrost_platform_plugin.Ingest.{join}
use bifrost_platform_plugin.Ops.Input.{KindInput, CheckInput}
use bifrost_platform_plugin.Ops.Coverage.{Gap}
use bifrost_platform_plugin.Ops.Checks.{Heartbeat, Tokens, SelfCheck}

abbrev pub default_catchup_grace_sec : ℕ
default_catchup_grace_sec = 2700

-- max(300, int(raw)), or the default where there is no number
unfoldable pub catchup_grace_sec : Option Json → ℕ
catchup_grace_sec none = default_catchup_grace_sec
catchup_grace_sec (some v) = elim (int_of v) [
  | none ↦ default_catchup_grace_sec
  | some n ↦ floor_at 300 n
]

abbrev pub later_of : Job → Option Job → Job
later_of j none = j
later_of j (some k) = if ltb j.id k.id then k else j

-- The row of a kind in SELECT DISTINCT ON (kind) … ORDER BY kind, id DESC: that of the greatest id.
unfoldable pub latest_of : Text → List Job → Option Job
latest_of kind [] = none
latest_of kind (j ∷ rows) =
    let rest = latest_of kind rows in if text_eq j.kind kind then some (later_of j rest) else rest

abbrev pub cooling_row : ℕ → Job → Bool
cooling_row db_now j =
    is_pending j.status
    && elim j.error_category [ none ↦ false | some c ↦ text_eq c (codes "throttled") ]
    && elim j.not_before [ none ↦ false | some t ↦ ltb db_now t ]

abbrev max_time : Option ℕ → Option ℕ → Option ℕ
max_time none u = u
max_time (some t) none = some t
max_time (some t) (some u) = some (max t u)

-- max(not_before) of the pending jobs that cool down from a throttle
unfoldable pub cooldown_of : ℕ → List Job → Option ℕ
cooldown_of db_now [] = none
cooldown_of db_now (j ∷ rows) =
    let rest = cooldown_of db_now rows in
    if cooling_row db_now j then max_time j.not_before rest else rest

abbrev is_disabling : Text → Bool
is_disabling v = any (λ t. text_eq v (codes t)) ("1" ∷ "true" ∷ "yes" ∷ [])

-- FLEX_CATCHUP_DISABLED
unfoldable pub is_catchup_on : Option Text → Bool
unfolding strip
is_catchup_on none = true
is_catchup_on (some v) = not (is_disabling (strip v))

-- What is read besides: `db_now` is clock_timestamp(), `coverage` what read_coverage returns or raises, and
-- `class_name` the name of the class of that exception.
pub record Reads : Type 0 where
  pub now : ℕ
  pub db_now : ℕ
  pub queue : Queue
  pub freshness : FreshnessTable
  pub heartbeat : Option Heartbeat
  pub environment : Environment
  pub issued : Option Text × Option ℕ
  pub data_latest : List (String × Option ℕ)
  pub coverage : Result (List Text × List Gap)
  pub class_name : Text
  pub disabled : Option Text
  pub poll_interval_sec : ℕ
  pub scheduler_cfg : Dict

abbrev or_name : Text → Text → Text
or_name [] name = name
or_name (c ∷ s) name = c ∷ s

-- " ".join(str(exc).split())[:200] or type(exc).__name__
unfoldable pub coverage_error_of : Text → Result (List Text × List Gap) → Option Text
unfolding split_by join
coverage_error_of name (ok c) = none
coverage_error_of name (raise e) =
    some
      (or_name (take 200 (join (codes " ") (filter is_given (split_by is_space (message e))))) name)

abbrev coverage_of : Result (List Text × List Gap) → Option (List Text × List Gap)
coverage_of (ok c) = some c
coverage_of (raise e) = none

-- A budget is not negative, and 0 reads as the default of a slot.
module _ (local : ℕ → Clock) (a : Reads) where
  unfoldable pub kind_input : String → Option ℕ → Option ℕ → ℕ → KindInput
  unfolding latest_of
  kind_input slot planned_last planned_next budget = record {
    kind = codes slot;
    job = latest_of (codes slot) a.queue.rows;
    freshness = lookup a.freshness (codes slot);
    planned_last = planned_last;
    planned_next = planned_next;
    kind_max_attempts = budget;
  }

  -- previous_fire(cron) if cron else None, and the first of next_fires(cron, count=1)
  unfoldable pub planned : Text → Result (Option ℕ × Option ℕ)
  unfolding next_fires
  planned [] = ok (none, none)
  planned (c ∷ cron) = do
    last ← previous_fire (c ∷ cron) local a.now
    upcoming ← next_fires (c ∷ cron) local a.now 1
    ok (last, first_fire upcoming)

  unfoldable pub collect_kind : String → Result KindInput
  unfolding slot_config slot_budget get kind_input planned
  collect_kind slot = do
    scfg ← slot_config a.scheduler_cfg slot
    cron ← cron_of (get scfg "cron")
    plan ← planned cron
    budget ← slot_budget scfg
    ok (kind_input slot plan.0 plan.1 budget)

  unfoldable pub collect_kinds : List String → Result (List KindInput)
  unfolding collect_kind
  collect_kinds [] = ok []
  collect_kinds (slot ∷ slots) = do
    k ← collect_kind slot
    kinds ← collect_kinds slots
    ok (k ∷ kinds)

  unfoldable pub base_input : CheckInput
  unfolding cooldown_of is_catchup_on catchup_grace_sec get
  base_input = record {
    now = a.now;
    grace_sec = catchup_grace_sec (get a.scheduler_cfg "catchup_grace_sec");
    cooldown_until = cooldown_of a.db_now a.queue.rows;
    catchup_enabled = is_catchup_on a.disabled;
    worker_poll_sec = a.poll_interval_sec;
  }

  abbrev pub tokens_of : Tokens
  tokens_of =
      let (host_tok, sec_tok, host_src, sec_src) = resolve_flex_tokens a.environment in
      record {
        host = is_filled host_tok;
        secondary = is_filled sec_tok;
        issued_at = a.issued.0;
        age_days = a.issued.1;
      }

  unfoldable pub collect_check_input : Result SelfCheck
  unfolding collect_kinds base_input coverage_error_of
  collect_check_input = do
    kinds ← collect_kinds slot_names
    ok (record {
      base = base_input;
      kinds = kinds;
      heartbeat = a.heartbeat;
      tokens = tokens_of;
      data_latest = a.data_latest;
      coverage = coverage_of a.coverage;
      coverage_error = coverage_error_of a.class_name a.coverage;
    })

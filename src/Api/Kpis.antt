-- ===== src/Api/Kpis.antt =====
-- api/freshness_kpis.py: the ages and the plan on the overview. An age is a number of microseconds; the two
-- reads of the landed data, and how an instant is printed (iso_z), are left to the caller.
use bifrost_platform_plugin.Common.{
  ℕ, String, ◌-◌, ◌/◌, ◌%◌, Option, none, some, List, [], ◌∷◌, ◌++◌, ltb, leb, ◌==◌, if◌then◌else◌,
  take,
}
use bifrost_platform_plugin.Common.Text.{Text, codes, decimal}
use bifrost_platform_plugin.Common.Json.{Json, obj, Dict, get}
use bifrost_platform_plugin.Common.Result.{Result, ok, ◌>>=◌}
use bifrost_platform_plugin.Queue.{Status, Job, Queue}
use bifrost_platform_plugin.Schema.{FreshnessTable}
use bifrost_platform_plugin.Cron.{Clock, first_fire, next_fires, previous_fire}
use bifrost_platform_plugin.Slots.{slot_names, slot_config, cron_of}
use bifrost_platform_plugin.Worker.{truthy}
use bifrost_platform_plugin.Api.{str_value}
use bifrost_platform_plugin.Api.Jobs.{status_text}

-- _age_seconds: a time to come has the age 0.
abbrev pub age_of : ℕ → Option ℕ → Option ℕ
age_of now none = none
age_of now (some t) = some (now - t)

-- The whole_secs seconds of a number of microseconds.
abbrev whole_secs : ℕ → ℕ
whole_secs us = us / 1000000

abbrev two_units : ℕ → String → ℕ → String → Text
two_units a a_unit b b_unit =
    if b == 0
    then decimal a ++ codes a_unit
    else decimal a ++ (codes a_unit ++ (codes " " ++ (decimal b ++ codes b_unit)))

abbrev age_text : ℕ → Text
age_text s =
    if ltb s 60
    then decimal s ++ codes "s"
    else if ltb s 3600
    then decimal (s / 60) ++ codes "m"
    else if ltb s 86400
    then two_units (s / 3600) "h" (s % 3600 / 60) "m"
    else two_units (s / 86400) "d" (s % 86400 / 3600) "h"

-- _age_label
unfoldable pub age_label : Option ℕ → Text
unfolding decimal
age_label none = codes "—"
age_label (some us) = age_text (whole_secs us) ++ codes " ago"

abbrev until_text : ℕ → Text
until_text s =
    if ltb s 3600
    then decimal (s / 60) ++ codes "m"
    else if ltb s 86400
    then two_units (s / 3600) "h" (s % 3600 / 60) "m"
    else two_units (s / 86400) "d" (s % 86400 / 3600) "h"

-- _until_label of the time from `now` to `at`
unfoldable pub until_label : ℕ → Option ℕ → Text
unfolding decimal
until_label now none = codes "—"
until_label now (some at) =
    if leb at now then codes "overdue" else codes "in " ++ until_text (whole_secs (at - now))

abbrev pub later_instant : Option ℕ → Option ℕ → Option ℕ
later_instant none u = u
later_instant (some t) none = some t
later_instant (some t) (some u) = if ltb t u then some u else some t

-- The newest latest_ts of the freshness rows.
unfoldable pub newest_latest : FreshnessTable → Option ℕ
newest_latest [] = none
newest_latest ((dimension, row) ∷ table) = later_instant row.latest_ts (newest_latest table)

-- max(finished_at) … WHERE status = 'done'
unfoldable pub newest_done : List Job → Option ℕ
newest_done [] = none
newest_done (j ∷ rows) = elim j.status [
  | Status.done ↦ later_instant j.finished_at (newest_done rows)
  | _ ↦ newest_done rows
]

abbrev pub or_next : Option ℕ → Option ℕ → Option ℕ
or_next none u = u
or_next (some t) u = some t

unfoldable pub last_success_of : FreshnessTable → Queue → Option ℕ
unfolding newest_latest newest_done
last_success_of table q = or_next (newest_latest table) (newest_done q.rows)

abbrev pub newer_of : Job → Option Job → Job
newer_of j none = j
newer_of j (some k) = if ltb j.id k.id then k else j

-- ORDER BY id DESC LIMIT 1
unfoldable pub newest_job : List Job → Option Job
newest_job [] = none
newest_job (j ∷ rows) = some (newer_of j (newest_job rows))

pub record LastRun : Type 0 where
  pub at : Option ℕ
  pub status : Option Text
  pub kind : Option Text
  pub error : Option Text
  pub error_category : Option Text
  pub next_retry_at : Option ℕ

-- str(res.get("error"))[:500], where there is one
abbrev error_at : (Json → Text) → Option Json → Option Text
error_at print none = none
error_at print (some v) = if truthy v then some (take 500 (str_value print v)) else none

abbrev run_error : (Json → Text) → Option Json → Option Text
run_error print (some (obj d)) = error_at print (get d "error")
run_error print v = none

abbrev retry_at : Job → Option ℕ
retry_at j = elim j.status [ Status.pending ↦ j.not_before | _ ↦ none ]

unfoldable pub last_run : (Json → Text) → Option Job → LastRun
unfolding truthy get
last_run print none = record {
  at = none;
  status = none;
  kind = none;
  error = none;
  error_category = none;
  next_retry_at = none;
}
last_run print (some j) = record {
  at = or_next j.finished_at (or_next j.started_at (some j.created_at));
  status = some (status_text j.status);
  kind = some j.kind;
  error = run_error print j.result;
  error_category = j.error_category;
  next_retry_at = retry_at j;
}

abbrev sooner : Option (ℕ × String) → Option ℕ → String → Option (ℕ × String)
sooner best none slot = best
sooner none (some t) slot = some (t, slot)
sooner (some (t, name)) (some u) slot = if ltb u t then some (u, slot) else some (t, name)

module _ (local : ℕ → Clock) (now : ℕ) (scheduler_cfg : Dict) where
  cron_at : String → Result Text
  unfolding slot_config get
  cron_at slot = do scfg ← slot_config scheduler_cfg slot; cron_of (get scfg "cron")

  abbrev upcoming : Text → Result (Option ℕ)
  unfolding next_fires
  upcoming [] = ok none
  upcoming (c ∷ cron) = do fires ← next_fires (c ∷ cron) local now 1; ok (first_fire fires)

  abbrev previous : Text → Result (Option ℕ)
  previous [] = ok none
  previous (c ∷ cron) = previous_fire (c ∷ cron) local now

  -- The soonest next fire of the slots, behind the best so far; a tie goes to the earlier slot.
  unfoldable pub next_run_from : Option (ℕ × String) → List String → Result (Option (ℕ × String))
  unfolding cron_at upcoming
  next_run_from best [] = ok best
  next_run_from best (slot ∷ slots) =
      cron_at slot
      >>= (λ cron. upcoming cron >>= (λ fire. next_run_from (sooner best fire slot) slots))

  unfoldable pub last_planned_from : Option ℕ → List String → Result (Option ℕ)
  unfolding cron_at
  last_planned_from best [] = ok best
  last_planned_from best (slot ∷ slots) =
      cron_at slot
      >>= (λ cron. previous cron >>= (λ fire. last_planned_from (later_instant best fire) slots))

pub record Kpis : Type 0 where
  pub last_successful_sync : Option ℕ
  pub last_success_label : Text
  pub run : LastRun
  pub last_run_label : Text
  pub dimensions : FreshnessTable
  pub next_scheduled_run : Option (ℕ × String)
  pub until : Text
  pub last_planned : Option ℕ
  pub last_planned_label : Text

abbrev at_of : Option (ℕ × String) → Option ℕ
at_of none = none
at_of (some (t, slot)) = some t

unfoldable pub freshness_kpis :
    (Json → Text) → (ℕ → Clock) → ℕ → Dict → FreshnessTable → Queue → Result Kpis
unfolding last_success_of last_run newest_job next_run_from last_planned_from age_label until_label
freshness_kpis print local now scheduler_cfg table q = do
  next_run ← next_run_from local now scheduler_cfg none slot_names
  planned ← last_planned_from local now scheduler_cfg none slot_names
  let run = last_run print (newest_job q.rows)
  ok (record {
    last_successful_sync = last_success_of table q;
    last_success_label = age_label (age_of now (last_success_of table q));
    run = run;
    last_run_label = age_label (age_of now run.at);
    dimensions = table;
    next_scheduled_run = next_run;
    until = until_label now (at_of next_run);
    last_planned = planned;
    last_planned_label = age_label (age_of now planned);
  })

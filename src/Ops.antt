-- ===== src/Ops.antt =====
-- ops/diagnose.py: the verdict of the self-check on a kind, and the worst of several. `clock` is fmt_local in
-- the zone of the check, `str_of` is str().
pub mod Input
pub mod Coverage
pub mod Checks
pub mod CoverageCheck
pub mod Diagnose
pub mod Collect
pub mod CatchUp
mod Tests
use bifrost_platform_plugin.Common.{
  ℕ, zero, suc, ◌+◌, ◌*◌, Bool, true, false, ◌&&◌, ◌||◌, not, any, Option, none, some, List, [],
  ◌∷◌, ◌++◌, ltb, leb, length, take, filter, if◌then◌else◌, map,
}
use bifrost_platform_plugin.Common.Text.{Text, codes, text_eq, decimal, is_space}
use bifrost_platform_plugin.Common.Json.{Json, obj, get}
use bifrost_platform_plugin.Config.{some_text}
use bifrost_platform_plugin.Cron.{split_by}
use bifrost_platform_plugin.Flex.Request.{is_given}
use bifrost_platform_plugin.Ingest.{join}
use bifrost_platform_plugin.Queue.{Job, Status}
use bifrost_platform_plugin.Schema.{FreshnessRow}
use bifrost_platform_plugin.Worker.{truthy}
use bifrost_platform_plugin.Ops.Input.{
  failed, missed, throttled, waiting, running, queued, ok, idle, unknown, Action, CheckInput,
  KindInput, KindVerdict, Verdict, is_cooling, job_since, micros, missed_plan, missed_since,
  plain_verdict, short_or_none,
}

module _ (clock : Option ℕ → Text) (str_of : Json → Text) where
  -- `_enqueue_action`
  unfoldable pub enqueue_action : Text → Text → CheckInput → Action
  enqueue_action kind label inp = record {
    id = codes "enqueue";
    label = label;
    path = codes "/flex/ingest/enqueue";
    slot = some kind;
    enabled = not (is_cooling inp);
    reason =
        if is_cooling inp
        then some (codes "IB throttle cooldown until " ++ clock inp.cooldown_until)
        else none;
  }

  -- `_missed_verdict`
  abbrev pub missed_verdict : KindInput → CheckInput → Text → KindVerdict
  missed_verdict k inp tail =
      plain_verdict missed
        (codes "Planned "
          ++ (clock k.planned_last ++ (codes " came and went with no job" ++ (tail ++ codes "."))))
        (some (
          if inp.catchup_enabled
          then codes
              "The worker's catch-up enqueues it on its own after the grace period; press Enqueue to do it now."
          else codes "Catch-up is disabled; enqueue it by hand."))
        (enqueue_action k.kind (codes "Enqueue today's slot") inp ∷ [])

  abbrev pub never_ran : KindInput → CheckInput → KindVerdict
  never_ran k inp = record {
    verdict = idle;
    headline = codes "Never ran.";
    detail = some (codes "Next planned " ++ (clock k.planned_next ++ codes "."));
    next_at = k.planned_next;
    job = none;
    last_success_at = none;
    actions = enqueue_action k.kind (codes "Enqueue now") inp ∷ [];
  }

  abbrev error_value : Option Json → Text
  error_value none = []
  error_value (some v) = if truthy v then str_of v else []

  -- `_job_error`
  abbrev job_error : Option Json → Text
  job_error (some (obj d)) = error_value (get d "error")
  job_error v = []

  abbrev category_of : Job → Text
  category_of j = elim j.error_category [ none ↦ [] | some c ↦ c ]

  abbrev job_budget : KindInput → Job → ℕ
  job_budget k j = elim j.max_attempts [ zero ↦ k.kind_max_attempts | suc n ↦ suc n ]

  -- a/n
  abbrev tries : KindInput → Job → Text
  tries k j = decimal j.attempts ++ (codes "/" ++ decimal (job_budget k j))

  abbrev run_now : Job → Bool → Option Text → Action
  run_now j enabled reason = record {
    id = codes "run_now";
    label = codes "Run now";
    path = codes "/flex/ingest/jobs/" ++ (decimal j.id ++ codes "/run-now");
    slot = none;
    enabled = enabled;
    reason = reason;
  }

  abbrev reason_or : Text → Text → Text
  reason_or [] default = default
  reason_or (c ∷ s) default = c ∷ s

  abbrev waiting_why : Text → Text
  waiting_why category =
      if text_eq category (codes "not_ready")
      then codes "IB has not generated the statement yet"
      else reason_or category (codes "retry scheduled")

  -- A pending job whose time has not come.
  abbrev pub pending_later : KindInput → Job → ℕ → KindVerdict
  pending_later k j t =
      if text_eq (category_of j) (codes "throttled")
      then record {
        verdict = throttled;
        headline =
            codes "IB throttled the token; cooling down until "
            ++ (clock (some t) ++ (codes " (attempt " ++ (tries k j ++ codes ").")));
        detail = short_or_none (job_error j.result);
        next_at = some t;
        job = none;
        last_success_at = none;
        actions =
            run_now j false (
              some (
                codes "IB refused the token ([1018]); a request before "
                ++ (clock (some t) ++ codes " fails again")))
            ∷ [];
      }
      else record {
        verdict = waiting;
        headline =
            waiting_why (category_of j)
            ++ (codes "; the worker retries at "
                ++ (clock (some t) ++ (codes " (attempt " ++ (tries k j ++ codes ")."))));
        detail = short_or_none (job_error j.result);
        next_at = some t;
        job = none;
        last_success_at = none;
        actions = run_now j true none ∷ [];
      }

  abbrev in_queue : CheckInput → KindVerdict
  in_queue inp =
      plain_verdict queued
        (codes "Queued; the worker claims it within "
          ++ (decimal inp.worker_poll_sec ++ codes "s."))
        none []

  abbrev pub pending_at : KindInput → CheckInput → Job → Option ℕ → KindVerdict
  pending_at k inp j none = in_queue inp
  pending_at k inp j (some t) = if ltb inp.now t then pending_later k j t else in_queue inp

  abbrev fix_config : Text → Action
  fix_config kind = record {
    id = codes "fix_config";
    label = codes "Fix config, then enqueue";
    path = codes "/flex/ingest/enqueue";
    slot = some kind;
    enabled = false;
    reason = some (
        codes
          "Expired/invalid token: generate a new one in IB Account Management and run make sync-flex-tokens; bad query id: Config tab");
  }

  abbrev pub failed_job : KindInput → CheckInput → Job → KindVerdict
  failed_job k inp j =
      if text_eq (category_of j) (codes "config")
      then plain_verdict failed (codes "Failed on configuration — retrying cannot fix this.")
          (short_or_none (job_error j.result)) (fix_config k.kind ∷ [])
      else plain_verdict failed
          (codes "Failed for good at "
            ++ (clock j.finished_at
                ++ (codes " ("
                    ++ (reason_or (category_of j) (codes "error")
                        ++ (codes ", " ++ (tries k j ++ codes " attempts)."))))))
          (short_or_none (job_error j.result))
          (enqueue_action k.kind (codes "Enqueue again") inp ∷ [])

  abbrev new_text : Option ℕ → Text
  new_text none = []
  new_text (some n) = codes " (" ++ (decimal n ++ codes " new)")

  abbrev rows_of : Option ℕ → Option ℕ → Text
  rows_of none new_rows = []
  rows_of (some n) new_rows = codes ", " ++ (decimal n ++ (codes " rows" ++ new_text new_rows))

  abbrev rows_text : Option FreshnessRow → Text
  rows_text none = []
  rows_text (some r) = rows_of r.processed_rows r.new_rows

  abbrev pub done_job : KindInput → CheckInput → Job → KindVerdict
  done_job k inp j =
      if missed_plan k inp
      then missed_verdict k inp (codes "; last run was " ++ clock (some j.created_at))
      else record {
        verdict = ok;
        headline =
            codes "Completed "
            ++ (clock j.finished_at
                ++ (rows_text k.freshness
                    ++ (codes "; next planned " ++ (clock k.planned_next ++ codes "."))));
        detail = none;
        next_at = k.planned_next;
        job = none;
        last_success_at = none;
        actions = [];
      }

  abbrev running_job : KindInput → Job → KindVerdict
  running_job k j =
      plain_verdict running
        (codes "Running since "
          ++ (clock j.started_at ++ (codes " (attempt " ++ (tries k j ++ codes ")."))))
        (some (
          codes
            "An IB fetch takes seconds to a few minutes; a run older than two hours is reclaimed automatically."))
        []

  abbrev pub by_status : KindInput → CheckInput → Job → Status → KindVerdict
  by_status k inp j Status.running = running_job k j
  by_status k inp j Status.pending = pending_at k inp j j.not_before
  by_status k inp j Status.failed = failed_job k inp j
  by_status k inp j Status.done = done_job k inp j

  abbrev pub by_job : KindInput → CheckInput → Option Job → KindVerdict
  by_job k inp none = if missed_plan k inp then missed_verdict k inp [] else never_ran k inp
  by_job k inp (some j) = by_status k inp j j.status

  abbrev last_success : Option FreshnessRow → Option ℕ
  last_success none = none
  last_success (some r) = r.latest_ts

  abbrev with_job : KindInput → KindVerdict → KindVerdict
  with_job k v = record v { job = k.job; last_success_at = last_success k.freshness }

  unfoldable pub assess_kind : KindInput → CheckInput → KindVerdict
  unfolding missed_plan enqueue_action
  assess_kind k inp = with_job k (by_job k inp k.job)

abbrev pub same_verdict : Verdict → Verdict → Bool
same_verdict failed failed = true
same_verdict missed missed = true
same_verdict throttled throttled = true
same_verdict waiting waiting = true
same_verdict running running = true
same_verdict queued queued = true
same_verdict ok ok = true
same_verdict idle idle = true
same_verdict unknown unknown = true
same_verdict v w = false

abbrev pub verdict_order : List Verdict
verdict_order = failed ∷ missed ∷ throttled ∷ waiting ∷ running ∷ queued ∷ ok ∷ idle ∷ unknown ∷ []

unfoldable pub first_in : List Verdict → List Verdict → Verdict
first_in [] verdicts = unknown
first_in (v ∷ order) verdicts =
    let rest = first_in order verdicts in if any (same_verdict v) verdicts then v else rest

-- `_worst`
unfoldable pub worst : List Verdict → Verdict
unfolding first_in
worst verdicts = first_in verdict_order verdicts

-- ===== src/Worker.antt =====
-- worker/loop.py: the worker. One turn of the loop claims a job, runs it and settles it, or, on an
-- idle queue, looks after stale jobs and missed slots.
pub mod Db
pub mod Cooldown
pub mod Turn
pub mod Settled
pub mod Returns
pub mod Outcome
pub mod Run
mod Tests
use bifrost_platform_plugin.Common.{
  ℕ, zero, suc, ◌+◌, Bool, true, false, ◌&&◌, Option, none, some, List, [], ◌∷◌, ◌++◌, leb, ◌==◌,
  if◌then◌else◌, length, take, max,
}
use bifrost_platform_plugin.Common.Int.{ℤ, pos, negsuc, floor_at}
use bifrost_platform_plugin.Common.Text.{Text, codes, strip}
use bifrost_platform_plugin.Common.Json.{
  Json, Dict, null, bool, num, str, arr, obj, nil, cons, empty, entry, get, is_blank, int_of,
}
use bifrost_platform_plugin.Common.Result.{Exception, Result, ok, raise, message, ◌>>=◌}
use bifrost_platform_plugin.Retry.{
  RetryPolicy, RetryPlan, PlanStatus, classify_flex_error, plan_retry, value,
}
use bifrost_platform_plugin.Queue.{Job, Queue}
use bifrost_platform_plugin.Queue.Claim.{
  ClaimedJob, claim_next, reclaim_stale_running, mark_done, mark_retry, mark_failed, defer_pending,
  default_stale_running_sec,
}
use bifrost_platform_plugin.Schema.{FreshnessTable, record_freshness}

-- bool(v)
unfoldable pub truthy : Json → Bool
truthy null = false
truthy (bool b) = b
truthy (num (pos zero)) = false
truthy (num n) = true
truthy (str []) = false
truthy (str (c ∷ s)) = true
truthy (arr nil) = false
truthy (arr (cons x xs)) = true
truthy (obj empty) = false
truthy (obj (entry k v d)) = true

-- a or b
abbrev pub or_value : Option Json → Option Json → Option Json
or_value none b = b
or_value (some v) b = if truthy v then some v else b

abbrev stale_of : Option Json → ℕ
stale_of none = default_stale_running_sec
stale_of (some v) =
    if is_blank v
    then default_stale_running_sec
    else elim (int_of v) [ none ↦ default_stale_running_sec | some n ↦ floor_at 60 n ]

-- `_stale_after_sec`; `env` is FLEX_STALE_RUNNING_SEC.
unfoldable pub stale_after_sec : Dict → Option Json → ℕ
unfolding truthy
stale_after_sec worker_cfg env = stale_of (or_value (get worker_cfg "stale_running_sec") env)

pub record Config : Type 0 where
  pub stale_sec : ℕ
  pub requeue_sec : ℕ
  pub reclaim_every : ℕ
  pub policy : RetryPolicy
  pub catchup_enabled : Bool

-- The `state` of the loop. A time stands for the text that `_now_iso` makes of it.
pub record State : Type 0 where
  pub jobs_done : ℕ
  pub jobs_failed : ℕ
  pub jobs_retried : ℕ
  pub catchups : ℕ
  pub last_kind : Option Text
  pub last_claim_at : Option ℕ
  pub last_error : Text
  pub last_error_category : Text
  pub stale_reclaimed : ℕ
  pub db_reconnects : ℕ

-- What the loop and the tables hold between two turns; `heartbeat` is the row that the last
-- successful record_heartbeat wrote, with its seen_at.
pub record World : Type 0 where
  pub state : State
  pub idle_ticks : ℕ
  pub queue : Queue
  pub freshness : FreshnessTable
  pub heartbeat : Option (ℕ × State)

-- What the outside does in one turn: the clock at each statement, the rows that are locked, what
-- dispatch does with the claimed job, what the catch-up does, and whether the writes that the loop
-- does not insist on come through (with their times).
pub record Tick : Type 0 where
  pub is_locked : Job → Bool
  pub reconnects : ℕ
  pub claim_at : ℕ
  pub reclaim_at : ℕ
  pub mark_at : ℕ
  pub defer_at : ℕ
  pub dispatch : ClaimedJob → FreshnessTable → Result Dict × FreshnessTable
  pub catchup : Queue → Result ℕ × Queue
  pub outcome_at : Option ℕ
  pub seen_at : Option ℕ

-- `heartbeat`: a failed write is only logged.
abbrev pub beat : Option ℕ → World → World
beat none w = w
beat (some now) w = record w { heartbeat = some (now, w.state) }

-- `record_ingest_outcome` with ok=False; a failed write is only logged.
abbrev pub note_outcome : Option ℕ → Text → Text → ℕ → World → World
note_outcome none kind error job_id w = w
note_outcome (some now) kind error job_id w = record w {
  freshness = record_freshness now (strip kind) false 0 none (some error) (some job_id) w.freshness;
}

abbrev pub caught_up : Result ℕ × Queue → World → World
caught_up (ok n, q) w = record w {
  queue = q;
  state = record w.state { catchups = w.state.catchups + n };
}
caught_up (raise e, q) w = record w { queue = q }

unfoldable pub look_after : Config → Tick → World → World
look_after cfg t w =
    let (ids, q) = reclaim_stale_running t.reclaim_at cfg.stale_sec cfg.requeue_sec w.queue in
    let w' = record w {
      queue = q;
      idle_ticks = 0;
      state = record w.state { stale_reclaimed = w.state.stale_reclaimed + length ids };
    } in
    beat t.seen_at (if cfg.catchup_enabled then caught_up (t.catchup q) w' else w')

-- The turn that claimed nothing.
unfoldable pub idle_turn : Config → Tick → World → World
unfolding look_after
idle_turn cfg t w =
    if leb cfg.reclaim_every (w.idle_ticks + 1)
    then look_after cfg t w
    else record w { idle_ticks = w.idle_ticks + 1 }

-- After `mark_retry`: a throttled token cools every other pending job down.
abbrev pub cool : ℕ → ℕ → ℕ → Queue → Queue
cool now cooldown job_id q =
    if cooldown == 0 then q else (defer_pending now cooldown (some job_id) q).1

-- What becomes of the job in the queue, and of the counters.
unfoldable pub settle_as : PlanStatus → Tick → ClaimedJob → RetryPlan → Text → World → Result World
settle_as PlanStatus.pending t job plan msg w = do
  q ← mark_retry t.mark_at job.id msg (codes (value plan.category)) plan.delay_sec w.queue
  ok (record w {
    queue = cool t.defer_at plan.cooldown_all_sec job.id q;
    state = record w.state { jobs_retried = w.state.jobs_retried + 1 };
  })
settle_as PlanStatus.failed t job plan msg w = ok (record w {
  queue = mark_failed t.mark_at job.id msg (codes (value plan.category)) w.queue;
  state = record w.state { jobs_failed = w.state.jobs_failed + 1 };
})

abbrev pub with_error : Text → RetryPlan → World → World
with_error msg plan w = record w {
  state = record w.state {
    last_error = take 500 msg;
    last_error_category = codes (value plan.category);
  };
}

-- The `except Exception` of the loop.
unfoldable pub failure_turn : Config → Tick → ClaimedJob → Exception → World → Result World
unfolding settle_as
failure_turn cfg t job e w = do
  let msg = message e
  let plan = plan_retry (classify_flex_error msg) job.attempts job.max_attempts cfg.policy
  w' ← settle_as plan.status t job plan msg (with_error msg plan w)
  ok (
      beat t.seen_at (
        note_outcome t.outcome_at job.kind (codes (value plan.category) ++ (codes ": " ++ msg))
          job.id w'))

unfoldable pub success_turn : Tick → ClaimedJob → Dict → World → World
success_turn t job result w = beat t.seen_at (record w {
  queue = mark_done t.mark_at job.id result w.queue;
  state = record w.state {
    jobs_done = w.state.jobs_done + 1;
    last_error = [];
    last_error_category = [];
  };
})

abbrev pub settle_run : Config → Tick → ClaimedJob → World → Result Dict → Result World
settle_run cfg t job w (ok result) = ok (success_turn t job result w)
settle_run cfg t job w (raise e) = failure_turn cfg t job e w

-- The world in which the run of the job ends.
abbrev pub ran : Tick → ClaimedJob → World → World
ran t job w = record w {
  idle_ticks = 0;
  state = record w.state { last_claim_at = some t.claim_at; last_kind = some job.kind };
  freshness = (t.dispatch job w.freshness).1;
}

-- The turn that claimed a job.
unfoldable pub job_turn : Config → Tick → ClaimedJob → World → Result World
job_turn cfg t job w = settle_run cfg t job (ran t job w) (t.dispatch job w.freshness).0

abbrev pub after_claim : Config → Tick → World → Option ClaimedJob × Queue → Result World
after_claim cfg t w (none, q) = ok (idle_turn cfg t (record w { queue = q }))
after_claim cfg t w (some job, q) = job_turn cfg t job (record w { queue = q })

-- One turn of `while True`. A raised exception leaves the loop and ends the process.
unfoldable pub turn : Config → Tick → World → Result World
turn cfg t w =
    after_claim cfg t (record w { state = record w.state { db_reconnects = t.reconnects } })
      (claim_next t.is_locked t.claim_at w.queue)

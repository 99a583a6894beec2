-- ===== src/Queue/Claim.antt =====
-- worker/claim.py: claim, defer, finish. Each operation takes the reading of clock_timestamp().
pub mod Choice
use bifrost_platform_plugin.Common.{
  ℕ, ◌+◌, Bool, true, false, ◌&&◌, not, Option, none, some, List, [], ◌∷◌, ◌++◌, max, ltb, leb,
  ◌==◌, if◌then◌else◌, any, take,
}
use bifrost_platform_plugin.Common.Int.{pos, ltb_ℤ}
use bifrost_platform_plugin.Common.Text.{Text, codes, decimal}
use bifrost_platform_plugin.Common.Json.{Json, Dict, null, num, str, obj, empty, entry}
use bifrost_platform_plugin.Common.Result.{Result, ok, raise, integrity_error}
use bifrost_platform_plugin.Queue.{
  Status, pending, running, done, failed, is_pending, is_running, is_active, Job, Queue, secs,
  clash, update_where, has_id, ids_where,
}

abbrev pub default_stale_running_sec : ℕ
default_stale_running_sec = 7200

abbrev pub default_reclaim_requeue_sec : ℕ
default_reclaim_requeue_sec = 600

-- not_before IS NULL OR not_before <= now
abbrev pub is_due : ℕ → Option ℕ → Bool
is_due now none = true
is_due now (some t) = leb t now

unfoldable pub is_runnable : ℕ → Job → Bool
is_runnable now j = is_pending j.status && is_due now j.not_before

-- ORDER BY priority DESC, created_at ASC, id ASC: j stands in front of k.
unfoldable pub precedes : Job → Job → Bool
precedes j k =
    if ltb_ℤ k.priority j.priority
    then true
    else if ltb_ℤ j.priority k.priority
    then false
    else if ltb j.created_at k.created_at
    then true
    else if ltb k.created_at j.created_at
    then false
    else ltb j.id k.id

first_of : Job → Option Job → Job
unfolding precedes
first_of j none = j
first_of j (some k) = if precedes k j then k else j

-- The first row in that order with p, if there is one: ORDER BY … LIMIT 1.
unfoldable pub select_first : (Job → Bool) → List Job → Option Job
unfolding first_of
select_first p [] = none
select_first p (j ∷ rows) =
    let rest = select_first p rows in if p j then some (first_of j rest) else rest

-- What `_row_to_job` makes of a row: a zero max_attempts reads as 3.
pub record ClaimedJob : Type 0 where
  pub id : ℕ
  pub kind : Text
  pub payload : Dict
  pub attempts : ℕ
  pub max_attempts : ℕ

unfoldable pub row_to_job : Job → ClaimedJob
row_to_job j = record {
  id = j.id;
  kind = j.kind;
  payload = j.payload;
  attempts = j.attempts;
  max_attempts = if j.max_attempts == 0 then 3 else j.max_attempts;
}

abbrev pub start_running : ℕ → Job → Job
start_running now j = record j {
  status = running;
  attempts = j.attempts + 1;
  started_at = some now;
  updated_at = now;
  not_before = none;
}

abbrev pub claim_row : ℕ → Queue → Option Job → Option ClaimedJob × Queue
claim_row now q none = (none, q)
claim_row now q (some j) = (
  some (record (row_to_job j) { attempts = j.attempts + 1 }),
  record q { rows = update_where (has_id j.id) (start_running now) q.rows },
)

-- `is_locked` marks the rows that other transactions hold: FOR UPDATE SKIP LOCKED passes them over.
unfoldable pub claim_next : (Job → Bool) → ℕ → Queue → Option ClaimedJob × Queue
unfolding select_first row_to_job
claim_next is_locked now q =
    claim_row now q (select_first (λ j. is_runnable now j && not (is_locked j)) q.rows)

-- COALESCE(started_at, created_at, updated_at); created_at is never null.
abbrev pub started : Job → ℕ
started j = elim j.started_at [ none ↦ j.created_at | some t ↦ t ]

unfoldable pub is_stale : ℕ → ℕ → Job → Bool
is_stale now sec j = is_running j.status && ltb (started j + secs sec) now

abbrev pub stale_message : ℕ → Text
stale_message sec =
    codes "stale running reclaimed after "
    ++ (decimal sec
        ++ codes "s — worker likely restarted mid-job; retried automatically while attempts remain")

-- jsonb_build_object('error', …, 'category', …)
abbrev pub error_result : Text → Text → Dict
error_result error category =
    entry "error" (str (take 2000 error)) (entry "category" (str category) empty)

unfoldable pub reclaim_row : ℕ → ℕ → ℕ → Job → Job
reclaim_row now delay sec j = record j {
  status = if ltb j.attempts j.max_attempts then pending else failed;
  not_before = if ltb j.attempts j.max_attempts then some (now + secs delay) else none;
  error_category = some (codes "stale");
  result = some (obj (error_result (stale_message sec) (codes "stale")));
  finished_at = if ltb j.attempts j.max_attempts then none else some now;
  updated_at = now;
}

unfoldable pub reclaim_stale_running : ℕ → ℕ → ℕ → Queue → List ℕ × Queue
unfolding ids_where update_where
reclaim_stale_running now stale_after_sec requeue_delay_sec q =
    let sec = max 60 stale_after_sec in
    (
      ids_where (is_stale now sec) q.rows,
      record q {
        rows = update_where (is_stale now sec) (reclaim_row now requeue_delay_sec sec) q.rows;
      },
    )

abbrev pub finish_row : ℕ → Dict → Job → Job
finish_row now outcome j = record j {
  status = done;
  result = some (obj outcome);
  error_category = none;
  finished_at = some now;
  updated_at = now;
}

unfoldable pub mark_done : ℕ → ℕ → Dict → Queue → Queue
unfolding update_where
mark_done now job_id outcome q = record q {
  rows = update_where (has_id job_id) (finish_row now outcome) q.rows;
}

abbrev pub requeue_row : ℕ → Text → Text → ℕ → Job → Job
requeue_row now error category delay_sec j = record j {
  status = pending;
  not_before = some (now + secs delay_sec);
  error_category = some category;
  result = some (
      obj (
        entry "error" (str (take 2000 error))
          (entry "category" (str category) (entry "retry_after_sec" (num (pos delay_sec)) empty))));
  finished_at = none;
  updated_at = now;
}

-- Another row holds the key that the row would take in the unique index.
unfoldable pub is_taken : List Job → Job → Bool
unfolding clash
is_taken rows j = any (λ k. not (k.id == j.id) && clash j k) rows

-- Only a row that was not active takes a new key, so the index can refuse the update.
unfoldable pub mark_retry : ℕ → ℕ → Text → Text → ℕ → Queue → Result Queue
unfolding is_taken update_where
mark_retry now job_id error category delay_sec q =
    if any (λ j. has_id job_id j && is_taken q.rows (requeue_row now error category delay_sec j))
      q.rows
    then raise (integrity_error (codes "job_flex_ingest_kind_hash_active"))
    else ok (record q {
      rows = update_where (has_id job_id) (requeue_row now error category delay_sec) q.rows;
    })

abbrev pub fail_row : ℕ → Text → Text → Job → Job
fail_row now error category j = record j {
  status = failed;
  error_category = some category;
  result = some (obj (error_result error category));
  finished_at = some now;
  updated_at = now;
}

unfoldable pub mark_failed : ℕ → ℕ → Text → Text → Queue → Queue
unfolding update_where
mark_failed now job_id error category q = record q {
  rows = update_where (has_id job_id) (fail_row now error category) q.rows;
}

-- COALESCE(not_before, now)
abbrev pub due_at : ℕ → Option ℕ → ℕ
due_at now none = now
due_at now (some t) = t

unfoldable pub defer_row : ℕ → ℕ → Job → Job
defer_row now delay_sec j = record j {
  not_before = some (max (due_at now j.not_before) (now + secs delay_sec));
  updated_at = now;
}

-- %s::bigint IS NULL OR id <> %s::bigint
abbrev pub is_other : Option ℕ → Job → Bool
is_other none j = true
is_other (some n) j = not (j.id == n)

unfoldable pub defer_pending : ℕ → ℕ → Option ℕ → Queue → List ℕ × Queue
unfolding ids_where update_where
defer_pending now delay_sec exclude_id q =
    let chosen = λ (j : Job). is_pending j.status && is_other exclude_id j in
    (
      ids_where chosen q.rows,
      record q { rows = update_where chosen (defer_row now delay_sec) q.rows },
    )

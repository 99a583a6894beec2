-- ===== src/Api/Jobs.antt =====
-- api/ingest.py: the routes over the job table. The zone and the format of an instant (zoneinfo,
-- strftime) are arguments.
use bifrost_platform_plugin.Common.{
  ℕ, ◌+◌, Bool, true, false, ◌&&◌, not, Option, none, some, List, [], ◌∷◌, ◌++◌, ltb, if◌then◌else◌,
  any, filter, take,
}
use bifrost_platform_plugin.Common.Text.{Text, codes, strip, text_eq, decimal}
use bifrost_platform_plugin.Common.Json.{Json, Dict, get}
use bifrost_platform_plugin.Common.Result.{Result, ok, raise, ◌>>=◌}
use bifrost_platform_plugin.Queue.{
  Status, pending, running, done, failed, is_pending, Job, Queue, update_where, has_id,
}
use bifrost_platform_plugin.Slots.{slot_names, enqueue_slot, dict_or_empty}
use bifrost_platform_plugin.Worker.{truthy}
use bifrost_platform_plugin.Api.{HttpReply, answer, http_exception, server_error, str_value}

abbrev pub status_text : Status → Text
status_text pending = codes "pending"
status_text running = codes "running"
status_text done = codes "done"
status_text failed = codes "failed"

-- GROUP BY status, with 0 for a status that no row has.
unfoldable pub count_status : Text → List Job → ℕ
count_status s [] = 0
count_status s (j ∷ rows) =
    count_status s rows + (if text_eq (status_text j.status) s then 1 else 0)

pub record QueueSummary : Type 0 where
  pub n_pending : ℕ
  pub n_running : ℕ
  pub n_done : ℕ
  pub n_failed : ℕ

unfoldable pub queue_summary : Queue → QueueSummary
unfolding count_status
queue_summary q = record {
  n_pending = count_status (codes "pending") q.rows;
  n_running = count_status (codes "running") q.rows;
  n_done = count_status (codes "done") q.rows;
  n_failed = count_status (codes "failed") q.rows;
}

unfoldable pub place_id : Job → List Job → List Job
place_id j [] = j ∷ []
place_id j (k ∷ rows) =
    let rest = place_id j rows in if ltb j.id k.id then k ∷ rest else j ∷ k ∷ rows

-- ORDER BY id DESC
unfoldable pub by_id_desc : List Job → List Job
unfolding place_id
by_id_desc [] = []
by_id_desc (j ∷ rows) = place_id j (by_id_desc rows)

-- `if status:` and its clause; an empty text asks for nothing.
abbrev pub asks_for : Option Text → Text → Bool
asks_for none column = true
asks_for (some []) column = true
asks_for (some (c ∷ s)) column = text_eq column (c ∷ s)

unfoldable pub list_jobs : Option Text → Option Text → ℕ → Queue → List Job
unfolding by_id_desc
list_jobs status kind limit q = take limit (
    by_id_desc
      (filter (λ j. asks_for status (status_text j.status) && asks_for kind j.kind) q.rows))

-- str(a or b or "")
abbrev str_or_next : (Json → Text) → Option Json → Text → Text
str_or_next print none next = next
str_or_next print (some v) next = if truthy v then str_value print v else next

abbrev pub named_kind : (Json → Text) → Dict → Text
unfolding get truthy strip
named_kind print body =
    strip (str_or_next print (get body "kind") (str_or_next print (get body "slot") []))

abbrev pub is_slot : Text → Bool
is_slot kind = any (λ name. text_eq (codes name) kind) slot_names

-- The queue after a call that returned, or the one of before.
abbrev pub enqueued : Queue → Result (Option ℕ × Queue) → HttpReply (Option ℕ) × Queue
enqueued q (raise e) = (server_error e, q)
enqueued q (ok (job_id, q')) = (answer job_id, q')

-- KINDS has the names of the slots, so a kind is the slot of its own name. `digest`, `today` are those of
-- enqueue_slot, `repr_of` is repr() of a text; `scheduler_cfg` is dict(schedule.get("scheduler") or {}). What is answered besides the
-- id of the job tells of the arguments.
module _ (print : Json → Text) (repr_of : Text → Text) (digest : Dict → Text) (today : Text) where
  unfoldable pub enqueue_job : ℕ → Dict → Dict → Queue → HttpReply (Option ℕ) × Queue
  unfolding named_kind get enqueue_slot
  enqueue_job now scheduler_cfg body q =
      let kind = named_kind print body in
      if is_slot kind
      then enqueued q (
          dict_or_empty (get body "payload")
          >>= (λ payload. enqueue_slot digest today now kind scheduler_cfg payload q))
      else (http_exception 400 (codes "unknown kind: " ++ repr_of kind), q)

-- WHERE id = %s; the id is the primary key.
unfoldable pub find_job : ℕ → List Job → Option Job
find_job n [] = none
find_job n (j ∷ rows) = if has_id n j then some j else find_job n rows

abbrev pub is_throttled : Option Text → Bool
is_throttled none = false
is_throttled (some c) = text_eq c (codes "throttled")

-- nb is not None and nb > now
abbrev pub is_later : ℕ → Option ℕ → Bool
is_later now none = false
is_later now (some nb) = ltb now nb

unfoldable pub clear_not_before : ℕ → Job → Job
clear_not_before now j = record j { not_before = none; updated_at = now }

pub record RunNow : Type 0 where
  pub job_id : ℕ
  pub kind : Text
  pub was_not_before : Option Text

-- WHERE id = %s AND status = 'pending'
abbrev pub is_waiting : ℕ → Job → Bool
is_waiting job_id j = has_id job_id j && is_pending j.status

-- What the row that was read calls for: an HTTPException, or the update.
pub data Decision : Type 0 where
  refuse : ℕ → Text → Decision
  run : Job → Decision

module _ (local_text iso_text : ℕ → Text) where
  abbrev pub shown_until : Option ℕ → Text
  shown_until none = codes "—"
  shown_until (some nb) = local_text nb

  abbrev pub iso_of : Option ℕ → Option Text
  iso_of none = none
  iso_of (some nb) = some (iso_text nb)

  unfoldable pub decide : ℕ → ℕ → Bool → Option Job → Decision
  decide now job_id force none = refuse 404 (codes "job " ++ (decimal job_id ++ codes " not found"))
  decide now job_id force (some row) =
      if not (is_pending row.status)
      then refuse 409 (
          codes "job "
          ++ (decimal job_id
              ++ (codes " is "
                  ++ (status_text row.status ++ codes ", only a pending job can run now"))))
      else if is_throttled row.error_category && is_later now row.not_before && not force
      then refuse 409 (
          codes "IB throttled this token; a request before "
          ++ (shown_until row.not_before ++ codes " fails again (force=true overrides)"))
      else run row

  abbrev pub carry_out : ℕ → ℕ → Queue → Decision → HttpReply RunNow × Queue
  carry_out now job_id q (refuse code detail) = (http_exception code detail, q)
  carry_out now job_id q (run row) = (
    answer (record { job_id = job_id; kind = row.kind; was_not_before = iso_of row.not_before }),
    record q { rows = update_where (is_waiting job_id) (clear_not_before now) q.rows },
  )

  -- The SELECT reads the table as it is at `read`, the UPDATE changes the one at `q`: in between, other
  -- transactions may have committed.
  unfoldable pub run_job_now : ℕ → ℕ → Bool → Queue → Queue → HttpReply RunNow × Queue
  unfolding decide find_job update_where clear_not_before
  run_job_now now job_id force read q =
      carry_out now job_id q (decide now job_id force (find_job job_id read.rows))

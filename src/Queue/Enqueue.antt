-- ===== src/Queue/Enqueue.antt =====
-- scheduler/enqueue.py: insert with dedup, the record of a manual run, and the trim of old jobs.
pub mod Dedup
pub mod Trim
use bifrost_platform_plugin.Common.{
  ℕ, zero, suc, ◌+◌, ◌-◌, ◌*◌, Bool, true, false, ◌&&◌, ◌||◌, not, Option, none, some, List, [],
  ◌∷◌, ◌++◌, ltb, leb, ◌==◌, if◌then◌else◌, any, filter, drop, map, length,
}
use bifrost_platform_plugin.Common.Int.{ℤ, pos, negsuc}
use bifrost_platform_plugin.Common.Text.{Text, codes, strip, text_eq}
use bifrost_platform_plugin.Common.Json.{Dict, Json, bool, entry, empty, merge}
use bifrost_platform_plugin.Common.Result.{Result, ok, raise, value_error, data_error}
use bifrost_platform_plugin.Queue.{
  Status, pending, running, done, failed, is_active, is_finished, Job, Queue, secs, clash,
  update_where, has_id, ids_where,
}

-- The row that the INSERT proposes; what it leaves out has the column's default.
abbrev pub proposed : ℕ → ℕ → Text → Dict → Option Text → ℤ → ℕ → Job
proposed id now kind payload hash priority max_attempts = record {
  id = id;
  kind = kind;
  payload = payload;
  payload_hash = hash;
  priority = priority;
  status = pending;
  attempts = 0;
  max_attempts = max_attempts;
  result = none;
  error_category = none;
  not_before = none;
  created_at = now;
  updated_at = now;
  started_at = none;
  finished_at = none;
}

-- ON CONFLICT … DO NOTHING: the id is drawn from the sequence also if the row is not inserted.
unfoldable pub insert_unless_clash : Job → Queue → Option ℕ × Queue
unfolding clash
insert_unless_clash j q =
    if any (clash j) q.rows
    then (none, record q { next_id = suc q.next_id })
    else (some j.id, record { next_id = suc q.next_id; rows = q.rows ++ j ∷ [] })

abbrev pub is_empty : Text → Bool
is_empty [] = true
is_empty (_ ∷ _) = false

-- payload if hash_payload is None else hash_payload
abbrev pub or_else : Option Dict → Dict → Dict
or_else none payload = payload
or_else (some d) payload = d

-- The row of a manual run: already running, with one attempt of one, and outside the index.
abbrev pub manual_row : ℕ → ℕ → Text → Dict → Job
manual_row id now kind payload =
    let body = merge (entry "manual" (bool true) empty) payload in
    record (proposed id now kind body none (pos 0) 1) {
      status = running;
      attempts = 1;
      started_at = some now;
    }

-- The columns priority and max_attempts are smallint.
abbrev pub is_smallint : ℤ → Bool
is_smallint (pos n) = leb n 32767
is_smallint (negsuc n) = leb n 32767

-- `digest` is payload_hash: the head of the SHA-256 of the sorted JSON text.
module _ (digest : Dict → Text) where
  unfoldable pub insert_job :
      ℕ → Text → Dict → ℤ → ℕ → Option Dict → Queue → Result (Option ℕ × Queue)
  insert_job now kind payload priority max_attempts hash_payload q =
      let kind_s = strip kind in
      let ph = digest (or_else hash_payload payload) in
      if is_empty kind_s
      then raise (value_error (codes "kind is required"))
      else if is_smallint priority && is_smallint (pos max_attempts)
      then ok (
          insert_unless_clash
            (proposed q.next_id now kind_s payload (some ph) priority max_attempts) q)
      else raise (data_error (codes "smallint out of range"))

unfoldable pub insert_manual_job : ℕ → Text → Dict → Queue → Result (ℕ × Queue)
insert_manual_job now kind payload q =
    let kind_s = strip kind in
    let row = manual_row q.next_id now kind_s payload in
    if is_empty kind_s
    then raise (value_error (codes "kind is required"))
    else ok (q.next_id, record { next_id = suc q.next_id; rows = q.rows ++ row ∷ [] })

abbrev pub days : ℕ → ℕ
days n = secs (n * 86400)

abbrev ended_before : ℕ → ℕ → Option ℕ → Bool
ended_before now keep_days none = false
ended_before now keep_days (some t) = ltb (t + days keep_days) now

unfoldable pub is_expired : ℕ → ℕ → Job → Bool
is_expired now keep_days j = is_finished j.status && ended_before now keep_days j.finished_at

-- ORDER BY finished_at DESC NULLS LAST, id DESC: j stands in front of k.
abbrev pub ended_after : Option ℕ → Option ℕ → ℕ → ℕ → Bool
ended_after none none i n = ltb n i
ended_after none (some t) i n = false
ended_after (some s) none i n = true
ended_after (some s) (some t) i n = if ltb t s then true else if ltb s t then false else ltb n i

unfoldable pub newer : Job → Job → Bool
newer j k = ended_after j.finished_at k.finished_at j.id k.id

unfoldable pub insert_newest : Job → List Job → List Job
insert_newest j [] = j ∷ []
insert_newest j (k ∷ rows) =
    let rest = insert_newest j rows in if newer k j then k ∷ rest else j ∷ k ∷ rows

unfoldable pub sort_newest : List Job → List Job
unfolding insert_newest
sort_newest [] = []
sort_newest (j ∷ rows) = insert_newest j (sort_newest rows)

abbrev pub finished_rows : List Job → List Job
finished_rows rows = filter (λ j. is_finished j.status) rows

-- id IN (SELECT … ORDER BY … OFFSET keep_max)
abbrev pub is_listed : List Job → Job → Bool
is_listed rows j = any (λ k. k.id == j.id) rows

unfoldable pub surplus : ℕ → List Job → List Job
unfolding sort_newest
surplus keep_max rows = drop keep_max (sort_newest (finished_rows rows))

abbrev pub delete_where : (Job → Bool) → List Job → List Job
delete_where p rows = filter (λ j. not (p j)) rows

-- The number of deleted rows, and the queue.
unfoldable pub trim_old_jobs : ℕ → ℕ → ℕ → Queue → ℕ × Queue
unfolding is_expired surplus
trim_old_jobs now keep_days keep_max q =
    let fresh = delete_where (is_expired now keep_days) q.rows in
    let kept = delete_where (is_listed (surplus keep_max fresh)) fresh in
    (length q.rows - length kept, record q { rows = kept })

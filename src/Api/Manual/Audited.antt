-- ===== src/Api/Manual/Audited.antt =====
-- api/manual_ops.py: the trail that a run leaves when the database answers.
use bifrost_platform_plugin.Common.{
  ℕ, suc, ◌≡◌, refl, sym, ◌∙◌, subst, inl, inr, Bool, true, false, not, Option, none, some, List,
  [], ◌∷◌, ◌++◌, map, filter, if◌then◌else◌, All, arith, Bool-cases, ==_iff,
}
use mathlib.Core.List.{map-append}
use bifrost_platform_plugin.Common.Int.{ℤ, pos, pos_part}
use bifrost_platform_plugin.Common.Text.{Text, codes, strip, text_eq}
use bifrost_platform_plugin.Common.Json.{Json, num, str, Dict, empty, entry, get, put, merge}
use bifrost_platform_plugin.Common.Result.{Result, ok}
use bifrost_platform_plugin.Queue.{Status, Job, Queue, update_where, has_id}
use bifrost_platform_plugin.Queue.Rows.{update_where-others}
use bifrost_platform_plugin.Queue.Claim.{mark_done, mark_failed, finish_row, fail_row}
use bifrost_platform_plugin.Queue.Invariant.{IsSound, mark_done-IsSound, mark_failed-IsSound}
use bifrost_platform_plugin.Queue.Enqueue.{insert_manual_job, is_empty, manual_row}
use bifrost_platform_plugin.Schema.{FreshnessRow, lookup, short_error}
use bifrost_platform_plugin.Schema.Freshness.{record_freshness-tells}
use bifrost_platform_plugin.Retry.{classify_flex_error, value}
use bifrost_platform_plugin.Worker.{or_value}
use bifrost_platform_plugin.Ingest.Handlers.{count_of}
use bifrost_platform_plugin.Api.{HttpReply, answer, str_value}
use bifrost_platform_plugin.Api.Settings.{body_or_empty}
use bifrost_platform_plugin.Api.Manual.{
  Trail, Database, audit_start, audit_finish, run_landed, error_of, error_or_none, end_job,
  note_freshness,
}
use bifrost_platform_plugin.Api.Manual.Routes.{
  Fetches, run_of, kind_of, audited_run, finished_run, audited, trigger_payload, trigger_flex_fetch,
  run_kind,
}

-- No statement of the audit fails.
pub record IsUp (db : Database) : Type 0 where
  pub creates : db.create ≡ none
  pub marks : db.mark ≡ false
  pub records : db.record_row ≡ false

abbrev ended_as : Bool → Status
ended_as true = Status.done
ended_as false = Status.failed

-- A job that has ended as the result says, with the category of its error.
abbrev pub Ended : (Json → Text) → Dict → Job → Type 0
Ended print result j =
    (j.status ≡ ended_as (run_landed print result))
    × (j.error_category ≡ (
        if run_landed print result
        then none
        else some (codes (value (classify_flex_error (error_of print result))))))

-- What a run with this result leaves of the tables as they are `during` it.
pub record Leaves (print : Json → Text) (job_kind : Text) (result : Dict) (id : ℕ)
    (during after : Trail) : Type 0 where
  pub ended : All (λ j. j.id ≡ id → Ended print result j) after.queue.rows
  pub same_ids : map (λ j. j.id) after.queue.rows ≡ map (λ j. j.id) during.queue.rows
  pub others :
      filter (λ j. not (has_id id j)) after.queue.rows
      ≡ filter (λ j. not (has_id id j)) during.queue.rows
  pub sound : IsSound during.queue → IsSound after.queue
  pub row : FreshnessRow
  pub there : lookup after.freshness job_kind ≡ some row
  pub row_ok : row.last_ok ≡ run_landed print result
  pub row_job : row.last_job_id ≡ some id
  pub row_error :
      row.last_error
      ≡ (if run_landed print result then none else short_error (some (error_of print result)))

module _ (n : ℕ) (f : Job → Job) where
  update-ids :
      ((j : Job) → (f j).id ≡ j.id)
      → (rows : List Job) → map (λ j. j.id) (update_where (has_id n) f rows) ≡ map (λ j. j.id) rows
  unfolding update_where
  update-ids same [] = refl
  update-ids same (j ∷ rows) = ground (arith, update-ids same rows, same j)

  update-hit :
      (P : Job → Type 0)
      → ((j : Job) → P (f j))
      → (rows : List Job) → All (λ j. j.id ≡ n → P j) (update_where (has_id n) f rows)
  unfolding update_where
  update-hit P hit [] = tt
  update-hit P hit (j ∷ rows) = elim (Bool-cases (has_id n j)) [
    | inl yes_n ↦ rw yes_n (λ _. hit j, update-hit P hit rows)
    | inr no_n ↦ rw no_n (λ e. absurd (ground (arith, ==_iff j.id n)), update-hit P hit rows)
  ]

module _ (print : Json → Text) (now id : ℕ) (result : Dict) (processed : ℤ) (q : Queue) where
  -- What ending the job does to the queue.
  pub record Ends (after : Queue) : Type 0 where
    pub ended : All (λ j. j.id ≡ id → Ended print result j) after.rows
    pub same_ids : map (λ j. j.id) after.rows ≡ map (λ j. j.id) q.rows
    pub others : filter (λ j. not (has_id id j)) after.rows ≡ filter (λ j. not (has_id id j)) q.rows
    pub sound : IsSound q → IsSound after

  mark_done-Ends :
      (outcome : Dict) → run_landed print result ≡ true → Ends (mark_done now id outcome q)
  unfolding mark_done
  mark_done-Ends outcome landed = record {
    ended =
        update-hit id (finish_row now outcome) (Ended print result) (λ j. rw landed (refl, refl))
          q.rows;
    same_ids = update-ids id (finish_row now outcome) (λ j. refl) q.rows;
    others =
        update_where-others (has_id id) (finish_row now outcome) (has_id id) (λ j h. h) (λ j. refl)
          q.rows;
    sound = mark_done-IsSound now id outcome q;
  }

  mark_failed-Ends :
      run_landed print result ≡ false
      → Ends (
          mark_failed now id
            (error_of print result)
            (codes (value (classify_flex_error (error_of print result))))
            q)
  unfolding mark_failed
  mark_failed-Ends missed =
      let category = codes (value (classify_flex_error (error_of print result))) in
      let row = fail_row now (error_of print result) category in
      record {
        ended = update-hit id row (Ended print result) (λ j. rw missed (refl, refl)) q.rows;
        same_ids = update-ids id row (λ j. refl) q.rows;
        others = update_where-others (has_id id) row (has_id id) (λ j h. h) (λ j. refl) q.rows;
        sound = mark_failed-IsSound now id (error_of print result) category q;
      }

  end_job-Ends : Ends (end_job print now id result processed q)
  unfolding end_job
  end_job-Ends = elim (Bool-cases (run_landed print result)) [
    | inl landed ↦ rw landed (mark_done-Ends _ landed)
    | inr missed ↦ rw missed (mark_failed-Ends missed)
  ]

noted_error :
    (landed : Bool) (e : Text)
    → (if landed then none else short_error (if landed then none else some e))
      ≡ (if landed then none else short_error (some e))
noted_error true e = refl
noted_error false e = refl

-- The number of rows that the result tells of.
abbrev pub count_in : (Json → Text) → Dict → Result ℤ
count_in print result =
    count_of (str_value print) (or_value (get result "count") (get result "inserted"))

module _ (print : Json → Text) (db : Database) (up : IsUp db) (job_kind : Text) (result : Dict)
    (processed : ℤ) (counted : count_in print result ≡ ok processed) where
  abbrev outcome : ℕ → Trail → Trail
  outcome id t = record {
    queue = end_job print db.marked_at id result processed t.queue;
    freshness = note_freshness print db job_kind (some id) result processed t.freshness;
  }

  outcome-Leaves : (id : ℕ) (t : Trail) → Leaves print job_kind result id t (outcome id t)
  outcome-Leaves id t =
      let e = end_job-Ends print db.marked_at id result processed t.queue in
      let (row, there, row_ok, row_error, row_job, row_at) =
        record_freshness-tells db.recorded_at job_kind (pos_part processed) none
          (error_or_none print result) (some id) t.freshness (run_landed print result) in
      record {
        ended = e.ended;
        same_ids = e.same_ids;
        others = e.others;
        sound = e.sound;
        row = row;
        there = there;
        row_ok = row_ok;
        row_job = row_job;
        row_error = row_error ∙ noted_error (run_landed print result) (error_of print result);
      }

  audit_finish-outcome :
      (id : ℕ) (t : Trail) → audit_finish print db job_kind (some id) result t ≡ ok (outcome id t)
  unfolding audit_finish
  audit_finish-outcome id t = rw (counted, up.marks, up.records) refl

  -- The row that the audit inserts before the run.
  pub record Started (body : Dict) (q q' : Queue) : Type 0 where
    pub inserted : insert_manual_job db.created_at job_kind body q ≡ ok (q.next_id, q')
    pub ids : map (λ j. j.id) q'.rows ≡ map (λ j. j.id) q.rows ++ (q.next_id ∷ [])

  -- An audited run answers: its job is inserted, and ended once the run is over.
  pub record Audited (body : Dict) (meanwhile : Trail → Trail) (t : Trail)
      (end : HttpReply Dict × Trail) : Type 0 where
    pub queued : Queue
    pub begun : Started body t.queue queued
    pub answered : end.0 ≡ answer (put result "job_id" (num (pos t.queue.next_id)))
    pub leaves :
        Leaves print job_kind result t.queue.next_id (meanwhile (record t { queue = queued })) end.1

  insert-Started :
      (body : Dict) (q : Queue)
      → is_empty (strip job_kind) ≡ false
      → (q' : Queue) × Started body q q'
  unfolding insert_manual_job
  insert-Started body q named = (
    record {
      next_id = suc q.next_id;
      rows = q.rows ++ manual_row q.next_id db.created_at (strip job_kind) body ∷ [];
    },
    record {
      inserted = rw named refl;
      ids =
          map-append (λ j. j.id) q.rows
            (manual_row q.next_id db.created_at (strip job_kind) body ∷ []);
    },
  )

  audit_start-Started :
      (body : Dict) (q q' : Queue)
      → Started body q q'
      → audit_start db job_kind body q ≡ (some q.next_id, q')
  unfolding audit_start
  audit_start-Started body q q' s = rw (up.creates, s.inserted) refl

  finished-Audited :
      (body : Dict) (meanwhile : Trail → Trail) (t : Trail) (q' : Queue)
      → Started body t.queue q'
      → Audited body meanwhile t
          (finished_run print db meanwhile job_kind result (some t.queue.next_id, q') t)
  unfolding finished_run
  finished-Audited body meanwhile t q' s =
      let during = meanwhile (record t { queue = q' }) in
      subst (λ r. Audited body meanwhile t (audited (some t.queue.next_id) result during r))
        (sym (audit_finish-outcome t.queue.next_id during))
        (record {
          queued = q';
          begun = s;
          answered = refl;
          leaves = outcome-Leaves t.queue.next_id during;
        })

  audited_run-Audited :
      (body : Dict) (meanwhile : Trail → Trail) (t : Trail)
      → is_empty (strip job_kind) ≡ false
      → Audited body meanwhile t (audited_run print db meanwhile job_kind body result t)
  unfolding audited_run
  audited_run-Audited body meanwhile t named =
      let (q', s) = insert-Started body t.queue named in
      subst (λ p. Audited body meanwhile t (finished_run print db meanwhile job_kind result p t))
        (sym (audit_start-Started body t.queue q' s)) (finished-Audited body meanwhile t q' s)

run_of-named :
    (runs : Fetches) (kind job_kind : Text) (run : Dict → Dict)
    → run_of runs kind ≡ some (job_kind, run)
    → is_empty (strip job_kind) ≡ false
unfolding strip
run_of-named runs kind job_kind run h = elim (Bool-cases (text_eq kind (codes "trades"))) [
  | inl first ↦ let e : job_kind ≡ codes "flex-trades" = ground arith in rw e refl
  | inr other ↦ elim (Bool-cases (text_eq kind (codes "transactions"))) [
    | inl second ↦ let e : job_kind ≡ codes "flex-transactions" = ground arith in rw e refl
    | inr unknown ↦ absurd (ground arith)
  ]
]

-- A trigger of a known kind whose run counts its rows answers, when no statement of the audit fails,
-- whatever other transactions do to the tables while it runs. Its job was inserted under the next id
-- before the run, and the answer names it. After the run every row with that id is done exactly if the
-- run said ok and told of no error, and otherwise failed with the category of the error; the ids and all
-- other rows are as they were during the run, and a queue in order stays in order; and the freshness row
-- of the kind tells the same end, with the error and the job.
pub trigger_flex_fetch-Audited :
    (print : Json → Text) (db : Database) (meanwhile : Trail → Trail) (repr_of : Text → Text)
    (runs : Fetches) (body : Option Dict) (t : Trail) (job_kind : Text) (run : Dict → Dict)
    (processed : ℤ) (up : IsUp db)
    (known : run_of runs (kind_of print (body_or_empty body)) ≡ some (job_kind, run))
    (counted : count_in print (run (trigger_payload body)) ≡ ok processed)
    → Audited print db up job_kind
        (run (trigger_payload body))
        processed
        counted
        (merge (entry "source" (str (codes "trigger")) empty) (trigger_payload body))
        meanwhile
        t
        (trigger_flex_fetch print db meanwhile repr_of runs body t)
unfolding trigger_flex_fetch run_kind
trigger_flex_fetch-Audited print db meanwhile repr_of runs body t job_kind run processed up known
      counted =
    subst
      (λ o.
        Audited print db up job_kind (run (trigger_payload body)) processed counted
          (merge (entry "source" (str (codes "trigger")) empty) (trigger_payload body)) meanwhile t
          (run_kind print db meanwhile repr_of (kind_of print (body_or_empty body))
            (trigger_payload body) o t))
      (sym known)
      (audited_run-Audited print db up job_kind (run (trigger_payload body)) processed counted _
        meanwhile t (run_of-named runs _ job_kind run known))

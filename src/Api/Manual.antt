-- ===== src/Api/Manual.antt =====
-- api/manual_ops.py: a Flex fetch, or an upload of its XML, that the route runs itself, and the trail that it
-- leaves: a row of the job table and a row of the freshness table.
pub mod Routes
pub mod Audited
use bifrost_platform_plugin.Common.{
  ℕ, suc, String, Bool, true, false, ◌&&◌, not, Option, none, some, List, [], ◌∷◌, ◌++◌, length,
  map, if◌then◌else◌,
}
use bifrost_platform_plugin.Common.Int.{ℤ, pos, pos_part}
use bifrost_platform_plugin.Common.Text.{Text, codes, strip, text_eq}
use bifrost_platform_plugin.Common.Json.{
  Json, null, bool, num, str, obj, Dict, empty, entry, get, put, merge, is_dict_key,
}
use bifrost_platform_plugin.Common.Result.{Result, ok, raise}
use bifrost_platform_plugin.Queue.{Queue}
use bifrost_platform_plugin.Queue.Claim.{mark_done, mark_failed}
use bifrost_platform_plugin.Queue.Enqueue.{insert_manual_job}
use bifrost_platform_plugin.Schema.{FreshnessTable, record_freshness}
use bifrost_platform_plugin.Retry.{classify_flex_error, value}
use bifrost_platform_plugin.Worker.{truthy, or_value}
use bifrost_platform_plugin.Slots.{set_default}
use bifrost_platform_plugin.Ingest.{join}
use bifrost_platform_plugin.Ingest.Handlers.{errors_of, count_of}
use bifrost_platform_plugin.Api.{HttpReply, answer, http_exception, server_error, str_value}

-- The two tables of the trail.
pub record Trail : Type 0 where
  pub queue : Queue
  pub freshness : FreshnessTable

-- What goes wrong with the database around a run: `create` before the audit row is committed, with
-- whether its id was drawn from the sequence, `mark` at the update of the job, `record_row` at the
-- freshness row. The three times are those of clock_timestamp().
pub record Database : Type 0 where
  pub create : Option Bool
  pub mark : Bool
  pub record_row : Bool
  pub created_at : ℕ
  pub marked_at : ℕ
  pub recorded_at : ℕ

abbrev pub created : Result (ℕ × Queue) → Queue → Option ℕ × Queue
created (raise e) q = (none, q)
created (ok (job_id, q')) q = (some job_id, q')

abbrev pub start_with : Option Bool → ℕ → Text → Dict → Queue → Option ℕ × Queue
start_with (some true) now job_kind payload q = (none, record q { next_id = suc q.next_id })
start_with (some false) now job_kind payload q = (none, q)
start_with none now job_kind payload q = created (insert_manual_job now job_kind payload q) q

-- `_audit_start`
unfoldable pub audit_start : Database → Text → Dict → Queue → Option ℕ × Queue
unfolding insert_manual_job
audit_start db job_kind payload q = start_with db.create db.created_at job_kind payload q

-- The keys of the summary, those that the result has.
abbrev pub summary_keys : List String
summary_keys =
    "count" ∷ "message" ∷ "range_from" ∷ "range_to" ∷ "data_from" ∷ "data_to" ∷ "per_query"
    ∷ "errors" ∷ []

unfoldable pub summary_of : List String → Dict → Dict
unfolding get
summary_of [] result = empty
summary_of (k ∷ keys) result =
    let rest = summary_of keys result in
    elim (get result k) [ none ↦ rest | some v ↦ entry k v rest ]

module _ (print : Json → Text) where
  -- `ok` of the audit: the result says ok and holds no error.
  abbrev pub no_errors : List Text → Bool
  no_errors [] = true
  no_errors (e ∷ errors) = false

  abbrev pub says_ok : Option Json → Bool
  says_ok none = false
  says_ok (some v) = truthy v

  unfoldable pub run_landed : Dict → Bool
  unfolding get truthy
  run_landed result =
      says_ok (get result "ok") && no_errors (errors_of (str_value print) (get result "errors"))

  abbrev or_joined : List Text → Text
  unfolding join
  or_joined [] = codes "manual run failed"
  or_joined (e ∷ errors) = join (codes "; ") (e ∷ errors)

  abbrev error_or : Option Json → Text → Text
  unfolding truthy
  error_or none other = other
  error_or (some v) other = if truthy v then str_value print v else other

  -- str(result.get("error") or "; ".join(errors) or "manual run failed")
  unfoldable pub error_of : Dict → Text
  unfolding get or_joined error_or
  error_of result =
      error_or (get result "error") (or_joined (errors_of (str_value print) (get result "errors")))

  -- The job of the audit, ended as the result says.
  unfoldable pub end_job : ℕ → ℕ → Dict → ℤ → Queue → Queue
  unfolding run_landed error_of mark_done mark_failed summary_of
  end_job now job_id result processed q =
      if run_landed result
      then mark_done now job_id
          (entry "inserted" (num processed)
            (entry "ok" (bool true) (entry "result" (obj (summary_of summary_keys result)) empty)))
          q
      else mark_failed now job_id (error_of result)
          (codes (value (classify_flex_error (error_of result)))) q

  abbrev pub end_audit : ℕ → Option ℕ → Dict → ℤ → Queue → Queue
  end_audit now none result processed q = q
  end_audit now (some job_id) result processed q = end_job now job_id result processed q

  abbrev pub error_or_none : Dict → Option Text
  error_or_none result = if run_landed result then none else some (error_of result)

  abbrev pub note_freshness :
      Database → Text → Option ℕ → Dict → ℤ → FreshnessTable → FreshnessTable
  note_freshness db job_kind job_id result processed table =
      record_freshness db.recorded_at job_kind (run_landed result) (pos_part processed) none
        (error_or_none result) job_id table

  -- Each of the two updates commits by itself. Without an audit row there is no job to mark.
  abbrev pub finish_with : Bool → Bool → Database → Text → Option ℕ → Dict → ℤ → Trail → Trail
  finish_with true f db job_kind (some job_id) result processed t = t
  finish_with m true db job_kind job_id result processed t = record t {
    queue = end_audit db.marked_at job_id result processed t.queue;
  }
  finish_with m false db job_kind job_id result processed t = record {
    queue = end_audit db.marked_at job_id result processed t.queue;
    freshness = note_freshness db job_kind job_id result processed t.freshness;
  }

  abbrev pub finish_counted : Database → Text → Option ℕ → Dict → Result ℤ → Trail → Result Trail
  finish_counted db job_kind job_id result (raise e) t = raise e
  finish_counted db job_kind job_id result (ok processed) t =
      ok (finish_with db.mark db.record_row db job_kind job_id result processed t)

  -- `_audit_finish`: only int() can raise, ahead of the updates.
  unfoldable pub audit_finish : Database → Text → Option ℕ → Dict → Trail → Result Trail
  unfolding get end_job record_freshness
  audit_finish db job_kind job_id result t =
      finish_counted db job_kind job_id result
        (count_of (str_value print) (or_value (get result "count") (get result "inserted"))) t

-- ===== src/Ingest/Handlers.antt =====
-- worker/handlers.py: the handlers of the two kinds, dispatch and record_ingest_outcome. `str_of` is str() on a
-- value, `repr_of` repr() on a kind.
pub mod Recorded
pub mod Kinds
use bifrost_platform_plugin.Common.{
  ℕ, zero, suc, Bool, true, false, ◌||◌, Option, none, some, List, [], ◌∷◌, ◌++◌, if◌then◌else◌,
  String,
}
use bifrost_platform_plugin.Common.Text.{Text, codes, strip, text_eq}
use bifrost_platform_plugin.Common.Int.{ℤ, pos, pos_part}
use bifrost_platform_plugin.Common.Json.{
  Json, null, bool, num, str, arr, obj, Items, nil, cons, Dict, empty, entry, get, put, int_of,
}
use bifrost_platform_plugin.Common.Result.{
  Exception, value_error, type_error, runtime_error, Result, ok, raise, ◌>>=◌,
}
use bifrost_platform_plugin.Worker.{truthy, or_value}
use bifrost_platform_plugin.Schema.{FreshnessTable, record_freshness}
use bifrost_platform_plugin.Flex.Request.{is_given}
use bifrost_platform_plugin.Ingest.{join}

abbrev pub is_false : Option Json → Bool
is_false (some (bool false)) = true
is_false v = false

module _ (str_of : Json → Text) where
  abbrev error_text : Text → Option Json → Text
  error_text label none = label ++ codes " failed"
  error_text label (some v) = if truthy v then str_of v else label ++ codes " failed"

  -- The errors that are not blank.
  unfoldable pub told : Items → List Text
  unfolding strip
  told nil = []
  told (cons e es) =
      let rest = told es in if is_given (strip (str_of e)) then str_of e ∷ rest else rest

  -- The results of the runs hold a list of errors, or none.
  abbrev pub errors_of : Option Json → List Text
  errors_of (some (arr es)) = told es
  errors_of v = []

  abbrev pub count_of : Option Json → Result ℤ
  count_of none = ok (pos 0)
  count_of (some v) =
      if truthy v
      then elim (int_of v) [
        | none ↦ raise (value_error (codes "invalid literal for int()"))
        | some n ↦ ok n
      ]
      else ok (pos 0)

  abbrev landed_result : Dict → Result ℤ → Result Dict
  landed_result found (raise e) = raise e
  landed_result found (ok n) =
      ok (entry "inserted" (num n) (entry "ok" (bool true) (entry "result" (obj found) empty)))

  abbrev pub all_landed : Dict → Text → List Text → Result Dict
  all_landed found label [] =
      landed_result found (count_of (or_value (get found "count") (get found "inserted")))
  all_landed found label (e ∷ errors) =
      raise (runtime_error (label ++ (codes " partial: " ++ join (codes "; ") (e ∷ errors))))

  -- `_require_ok`
  unfoldable pub require_ok : Dict → Text → Result Dict
  unfolding told join truthy get
  require_ok found label =
      if is_false (get found "ok")
      then raise (runtime_error (error_text label (get found "error")))
      else all_landed found label (errors_of (get found "errors"))

-- HANDLERS: what the two runs return for a payload.
pub record Handlers : Type 0 where
  pub flex_trades : Dict → Result Dict
  pub flex_transactions : Dict → Result Dict

abbrev pub handler_of : Handlers → Text → Option (Dict → Result Dict)
handler_of handlers kind =
    if text_eq kind (codes "flex-trades")
    then some handlers.flex_trades
    else if text_eq kind (codes "flex-transactions")
    then some handlers.flex_transactions
    else none

-- The connection of the outcome: whether it opens, the clock that it shows, if it does, the rows that it
-- counts since then, if it can, and the time at which the freshness row is written.
pub record Connection : Type 0 where
  pub opened : Option Exception
  pub db_now : Option ℕ
  pub rows_since : Text → ℕ → Option ℕ
  pub recorded : Result ℕ

-- `_count_new_rows`
abbrev pub count_new_rows : Connection → Text → Option ℕ → Option ℕ
count_new_rows conn kind none = none
count_new_rows conn kind (some since) = conn.rows_since kind since

-- What `dispatch` does with a row of the outcome.
abbrev inserted_of : Option Json → ℕ
inserted_of (some (num n)) = pos_part n
inserted_of v = 0

abbrev pub with_new_rows : Dict → Option ℕ → Dict
with_new_rows out none = put out "new_rows" null
with_new_rows out (some n) = put out "new_rows" (num (pos n))

abbrev pub recorded_as :
    Text → Option ℕ → Option ℕ → Dict → Result ℕ → FreshnessTable → Result Dict × FreshnessTable
recorded_as kind new_rows job_id out (raise e) table = (raise e, table)
recorded_as kind new_rows job_id out (ok now) table = (
  ok (with_new_rows out new_rows),
  record_freshness now kind true (inserted_of (get out "inserted")) new_rows none job_id table,
)

abbrev pub finished :
    Connection → Text → Option ℕ → Result Dict → FreshnessTable → Result Dict × FreshnessTable
finished conn kind job_id (raise e) table = (raise e, table)
finished conn kind job_id (ok out) table =
    recorded_as kind (count_new_rows conn kind conn.db_now) job_id out conn.recorded table

abbrev pub run_handler :
    Connection
    → Text
    → Option ℕ
    → Dict
    → Option Exception
    → (Dict → Result Dict)
    → FreshnessTable
    → Result Dict × FreshnessTable
run_handler conn kind job_id payload (some e) fn table = (raise e, table)
run_handler conn kind job_id payload none fn table = finished conn kind job_id (fn payload) table

abbrev pub handled_by :
    (Text → Text)
    → Connection
    → Text
    → Option ℕ
    → Dict
    → Option (Dict → Result Dict)
    → FreshnessTable
    → Result Dict × FreshnessTable
handled_by repr_of conn kind job_id payload none table =
    (raise (value_error (codes "unknown job kind: " ++ repr_of kind)), table)
handled_by repr_of conn kind job_id payload (some fn) table =
    run_handler conn (strip kind) job_id payload conn.opened fn table

unfoldable pub dispatch :
    (Text → Text)
    → Handlers
    → Connection
    → Text
    → Dict
    → Option ℕ
    → FreshnessTable
    → Result Dict × FreshnessTable
unfolding strip record_freshness put get
dispatch repr_of handlers conn kind payload job_id table =
    handled_by repr_of conn kind job_id payload (handler_of handlers (strip kind)) table

abbrev noted :
    Text
    → Bool
    → Option Text
    → Option ℕ
    → Option Exception
    → Result ℕ
    → FreshnessTable
    → Result (Unit {0}) × FreshnessTable
noted kind is_ok error job_id (some e) at table = (raise e, table)
noted kind is_ok error job_id none (raise e) table = (raise e, table)
noted kind is_ok error job_id none (ok now) table =
    (ok tt, record_freshness now kind is_ok 0 none error job_id table)

unfoldable pub record_ingest_outcome :
    Connection
    → Text
    → Bool
    → Option Text
    → Option ℕ
    → FreshnessTable
    → Result (Unit {0}) × FreshnessTable
unfolding record_freshness strip
record_ingest_outcome conn kind is_ok error job_id table =
    noted (strip kind) is_ok error job_id conn.opened conn.recorded table

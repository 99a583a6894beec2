-- ===== src/Ingest/Trades.antt =====
-- orchestration/trades.py: fetch_flex_trades_and_upsert_executions, the window and the requests. The reads of
-- the database, the answers of the service and the writer of the executions are arguments.
pub mod Report
pub mod Texts
pub mod Run
pub mod Upload
pub mod Complete
use bifrost_platform_plugin.Common.{
  ℕ, zero, suc, ◌+◌, Bool, true, false, ◌&&◌, not, any, Option, none, some, List, [], ◌∷◌, ◌++◌,
  length, map, if◌then◌else◌, ◌==◌, String,
}
use bifrost_platform_plugin.Common.Text.{Text, codes, strip, decimal}
use bifrost_platform_plugin.Common.Int.{ℤ, pos, negsuc}
use bifrost_platform_plugin.Common.Json.{Dict}
use bifrost_platform_plugin.Common.Fields.{text_field}
use bifrost_platform_plugin.Common.Result.{Exception, on_value_error, Result, ok, raise, ◌>>=◌}
use bifrost_platform_plugin.Windows.{Mode, init, incremental, Window, trades_window}
use bifrost_platform_plugin.Config.{Entry, some_text, stripped_or}
use bifrost_platform_plugin.Flex.Rows.{Row, Value}
use bifrost_platform_plugin.Flex.Request.{is_given}
use bifrost_platform_plugin.Ingest.{Ask}
use bifrost_platform_plugin.Ingest.Fallback.{Fetched, Sent, fetch_trades_with_date_fallback}
use bifrost_platform_plugin.Ingest.Span.{Span, rows_span, printed}

-- What get_flex_executions_stats returns of it that a run reads.
pub record Stats : Type 0 where
  pub count : ℕ
  pub max_date : Option ℕ

-- The newest stored trade date, if there are executions at all.
abbrev last_trade_date : Stats → Option ℕ
last_trade_date stats = if stats.count == 0 then none else stats.max_date

-- The dates of the request, and how they were found.
pub record Range : Type 0 where
  pub from_date : Text
  pub to_date : Text
  pub range_mode : Text
  pub range_days : Option ℕ

abbrev mode_text : Mode → Text
mode_text init = codes "init"
mode_text incremental = codes "incremental"

abbrev pub window_range : (ℕ → Text) → Window → Range
window_range yyyymmdd w = record {
  from_date = yyyymmdd w.start;
  to_date = yyyymmdd w.end;
  range_mode = mode_text w.mode;
  range_days = some w.days;
}

abbrev pub manual_range : Text → Text → Range
manual_range from_date to_date = record {
  from_date = from_date;
  to_date = to_date;
  range_mode = codes "manual";
  range_days = none;
}

-- The dates of the payload, or else the automatic window.
unfoldable pub range_of : (ℕ → Text) → ℕ → Result Stats → Result (ℕ × ℕ) → Dict → Result Range
unfolding text_field trades_window
range_of yyyymmdd today stats days payload = text_field payload "from_date" >>= (λ from_date.
    text_field payload "to_date" >>= (λ to_date.
      if is_given from_date
      then ok (manual_range from_date to_date)
      else if is_given to_date
      then ok (manual_range from_date to_date)
      else stats >>= (λ before. days >>= (λ (default, first).
        trades_window (last_trade_date before) default first today
        >>= (λ w. ok (window_range yyyymmdd w))))))

-- The entries with a token and a query, their texts stripped.
abbrev role_or_unknown : Text → Text
role_or_unknown [] = codes "unknown"
role_or_unknown (c ∷ s) = c ∷ s

abbrev stripped_entry : Entry → Entry
stripped_entry e = record e {
  token = strip e.token;
  query_id = strip e.query_id;
  role = role_or_unknown (strip e.role);
  query_label = some_text (stripped_or e.query_label);
}

unfoldable pub run_entries : List Entry → List Entry
unfolding strip
run_entries [] = []
run_entries (e ∷ es) =
    let rest = run_entries es in
    let f = stripped_entry e in if is_given f.token && is_given f.query_id then f ∷ rest else rest

-- What is noted of a query that was answered.
pub record PerQuery : Type 0 where
  pub entry : Entry
  pub rows : ℕ
  pub data_from : Option Text
  pub data_to : Option Text
  pub used_fallback : Bool
  pub fallback_kind : Option Text

-- The rows, errors and counts of all queries; -1 counts a query that failed.
pub record Gathered (F : Type 0) : Type 0 where
  pub all_rows : List (Row F)
  pub errors : List Text
  pub rows_per_fetch : List ℤ
  pub per_query : List PerQuery

abbrev pub nothing_gathered : {F : Type 0} → Gathered F
nothing_gathered = record { all_rows = []; errors = []; rows_per_fetch = []; per_query = [] }

-- "Flex query i/n (role query_id): error"
abbrev pub query_error : ℕ → ℕ → Entry → Text → Text
query_error i n e m =
    codes "Flex query "
    ++ (decimal i
        ++ (codes "/"
            ++ (decimal n
                ++ (codes " (" ++ (e.role ++ (codes " " ++ (e.query_id ++ (codes "): " ++ m))))))))

module _ {F : Type 0} (isoformat : ℕ → Text) (day_of_number : Value F → Option ℕ) where
  abbrev pub note_rows : Entry → Fetched (Row F) → Gathered F → Gathered F
  note_rows e got rest = record {
    all_rows = got.rows ++ rest.all_rows;
    errors = rest.errors;
    rows_per_fetch = pos (length got.rows) ∷ rest.rows_per_fetch;
    per_query =
        (record {
          entry = e;
          rows = length got.rows;
          data_from = printed isoformat (rows_span day_of_number got.rows).0;
          data_to = printed isoformat (rows_span day_of_number got.rows).1;
          used_fallback = got.used_fallback;
          fallback_kind = got.fallback_kind;
        })
        ∷ rest.per_query;
  }

  abbrev pub note_error : Text → Gathered F → Gathered F
  note_error m rest = record rest {
    errors = m ∷ rest.errors;
    rows_per_fetch = negsuc 0 ∷ rest.rows_per_fetch;
  }

  -- A ValueError is noted, and the next query follows; another exception ends the run.
  abbrev pub note :
      ℕ → ℕ → Entry → Result (Fetched (Row F)) → Result (Gathered F) → Result (Gathered F)
  note i n e (ok got) rest = rest >>= (λ others. ok (note_rows e got others))
  note i n e (raise x) rest =
      on_value_error x (λ m. rest >>= (λ others. ok (note_error (query_error i n e m) others)))
        (raise x)

  module _ (fetch : Entry → List Ask → Ask → Result (List (Row F))) where
    unfoldable pub gather : Range → Bool → ℕ → ℕ → List Entry → Result (Gathered F)
    unfolding fetch_trades_with_date_fallback rows_span
    gather range allow_fallback i n [] = ok nothing_gathered
    gather range allow_fallback i n (e ∷ es) =
        note i n e
          (fetch_trades_with_date_fallback (fetch e) range.from_date range.to_date allow_fallback).0
          (gather range allow_fallback (suc i) n es)

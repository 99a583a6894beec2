-- ===== src/Ingest/Trades/Report.antt =====
-- orchestration/trades.py: fetch_flex_trades_and_upsert_executions, from the rows to the result and the message.
-- Whether a message is delivered changes nothing in a run, so a run only says which one it publishes.
use bifrost_platform_plugin.Common.{
  ℕ, Bool, true, false, Option, none, some, List, [], ◌∷◌, ◌++◌, length, take, map, String,
}
use bifrost_platform_plugin.Common.Text.{Text, codes, decimal}
use bifrost_platform_plugin.Common.Int.{pos}
use bifrost_platform_plugin.Common.Json.{Json, null, bool, num, str, arr, Dict}
use bifrost_platform_plugin.Common.Result.{Exception, message, Result, ok, raise}
use bifrost_platform_plugin.Config.{Entry}
use bifrost_platform_plugin.Flex.Rows.{Row}
use bifrost_platform_plugin.Ingest.{texts, text_or_null, given_or_null, join, failed}
use bifrost_platform_plugin.Ingest.Span.{join_spans, printed}
use bifrost_platform_plugin.Ingest.Trades.{Stats, Range, PerQuery, Gathered}
use bifrost_platform_plugin.Ingest.Trades.Texts.{
  accounts_of, counts, days_or_null, dict, error_sentence, host_sentence, last_sentence,
  query_dicts, span_sentence,
}

-- What publish_flex_executions_system_message is given.
pub record Message : Type 0 where
  pub is_ok : Bool
  pub title : Text
  pub body : Text
  pub reason : Option Text
  pub level : Text

-- A run: the dict that it returns, its message, and the rows that it gave to the writer.
pub record Run (F : Type 0) : Type 0 where
  pub result : Dict
  pub published : Message
  pub written : Option (List (Row F))

abbrev pub error_message : Text → Text → Option Text → Message
error_message title body reason = record {
  is_ok = false;
  title = title;
  body = body;
  reason = reason;
  level = codes "error";
}

abbrev pub failed_run : {F : Type 0} → Text → Text → Text → Run F
failed_run title error reason = record {
  result = failed error;
  published = error_message title error (some reason);
  written = none;
}

-- What `except Exception` makes of an exception.
abbrev pub broken_run : {F : Type 0} → Text → Option (List (Row F)) → Exception → Run F
broken_run title written e = record {
  result = failed (message e);
  published = error_message title (message e) (some (take 500 (message e)));
  written = written;
}

abbrev pub fetch_failed : Text
fetch_failed = codes "Flex executions fetch failed"

module _ {F : Type 0} (isoformat : ℕ → Text) (write : List (Row F) → Result Bool)
    (stats_after : Result Stats) (range : Range) (entries : List Entry) where
  abbrev pub all_failed : Gathered F → Run F
  all_failed got =
      let err = join (codes "; ") got.errors in
      record {
        result = dict (
            ("ok", bool false)
            ∷ ("error", str err)
            ∷ ("count", num (pos 0))
            ∷ ("by_account", num (pos (length entries)))
            ∷ ("by_account_counts", arr (counts got.rows_per_fetch))
            ∷ []);
        published = error_message fetch_failed err (some (take 500 err));
        written = none;
      }

  abbrev no_trades : Text
  no_trades = codes "No trades in Flex report."

  abbrev pub no_rows : Gathered F → Run F
  no_rows got = record {
    result = dict (
        ("ok", bool true)
        ∷ ("count", num (pos 0))
        ∷ ("message", str no_trades)
        ∷ ("errors", arr (texts got.errors))
        ∷ ("by_account", num (pos (length entries)))
        ∷ ("by_account_counts", arr (counts got.rows_per_fetch))
        ∷ ("data_from", null)
        ∷ ("data_to", null)
        ∷ ("raw_count", num (pos 0))
        ∷ ("per_query", arr (query_dicts got.per_query))
        ∷ ("range_mode", str range.range_mode)
        ∷ ("range_from", given_or_null range.from_date)
        ∷ ("range_to", given_or_null range.to_date)
        ∷ []);
    published = record {
      is_ok = true;
      title = codes "Flex executions import: no rows";
      body = no_trades;
      reason = none;
      level = codes "warning";
    };
    written = none;
  }

  -- The fields that a failed and a finished write share.
  abbrev query_fields : Gathered F → List (String × Json)
  query_fields got =
      ("by_account", num (pos (length entries)))
      ∷ ("by_account_counts", arr (counts got.rows_per_fetch))
      ∷ ("per_query", arr (query_dicts got.per_query))
      ∷ ("range_mode", str range.range_mode)
      ∷ ("range_days", days_or_null range.range_days)
      ∷ ("range_from", given_or_null range.from_date)
      ∷ ("range_to", given_or_null range.to_date)
      ∷ []

  abbrev pub not_written : Gathered F → Option Text → Option Text → Run F
  not_written got from to =
      let werr = codes "Failed to write account_executions." in
      record {
        result = dict (
            ("ok", bool false)
            ∷ ("error", str werr)
            ∷ ("count", num (pos 0))
            ∷ ("raw_count", num (pos (length got.all_rows)))
            ∷ ("data_from", text_or_null from)
            ∷ ("data_to", text_or_null to)
            ∷ query_fields got);
        published =
            error_message (codes "Flex executions write failed") werr
              (some (codes "write_account_executions_to_db"));
        written = some got.all_rows;
      }

  abbrev summary : Gathered F → Option Text → Option Text → Option Text → Text
  summary got from to last =
      codes "Upserted "
      ++ (decimal (length got.all_rows)
          ++ (codes " execution(s) from "
              ++ (decimal (length entries)
                  ++ (codes " Flex account config row(s); affected "
                      ++ (decimal (length (accounts_of [] got.all_rows))
                          ++ (codes " account(s)."
                              ++ (last_sentence last
                                  ++ (span_sentence from to
                                      ++ (host_sentence entries got.rows_per_fetch
                                          ++ error_sentence got.errors)))))))))

  abbrev pub imported : Gathered F → Option Text → Option Text → Stats → Run F
  imported got from to after =
      let last = printed isoformat after.max_date in
      let msg = summary got from to last in
      record {
        result = dict (
            ("ok", bool true)
            ∷ ("count", num (pos (length got.all_rows)))
            ∷ ("raw_count", num (pos (length got.all_rows)))
            ∷ ("message", str msg)
            ∷ ("errors", arr (texts got.errors))
            ∷ ("updated_accounts", num (pos (length (accounts_of [] got.all_rows))))
            ∷ ("last_flex_date_after", text_or_null last)
            ∷ ("data_from", text_or_null from)
            ∷ ("data_to", text_or_null to)
            ∷ query_fields got);
        published = record {
          is_ok = true;
          title = codes "Flex executions imported";
          body = msg;
          reason = none;
          level = codes "success";
        };
        written = some got.all_rows;
      }

  abbrev pub after_stats : Gathered F → Option Text → Option Text → Result Stats → Run F
  after_stats got from to (raise e) = broken_run fetch_failed (some got.all_rows) e
  after_stats got from to (ok after) = imported got from to after

  -- After the writer: what it said, and then the read of the stored executions.
  abbrev pub after_write : Gathered F → Option Text → Option Text → Result Bool → Run F
  after_write got from to (raise e) = broken_run fetch_failed (some got.all_rows) e
  after_write got from to (ok false) = not_written got from to
  after_write got from to (ok true) = after_stats got from to stats_after

  abbrev pub end_texts : List PerQuery → Option Text × Option Text
  end_texts per_query =
      let span = join_spans (none, none) (map (λ q. (q.data_from, q.data_to)) per_query) in
      (printed isoformat span.0, printed isoformat span.1)

  abbrev pub store : Gathered F → List Text → List (Row F) → Run F
  store got [] [] = no_rows got
  store got (e ∷ errors) [] = all_failed got
  store got errors (r ∷ rows) =
      after_write got (end_texts got.per_query).0 (end_texts got.per_query).1 (write got.all_rows)

  unfoldable pub finish : Result (Gathered F) → Run F
  unfolding accounts_of join decimal join_spans
  finish (raise e) = broken_run fetch_failed none e
  finish (ok got) = store got got.errors got.all_rows

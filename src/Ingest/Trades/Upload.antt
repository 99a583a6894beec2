-- ===== src/Ingest/Trades/Upload.antt =====
-- orchestration/trades.py: upsert_executions_from_uploaded_flex_xml.
use bifrost_platform_plugin.Common.{
  Bool, true, false, none, some, List, [], ◌∷◌, ◌++◌, length, if◌then◌else◌,
}
use bifrost_platform_plugin.Common.Text.{Text, codes, strip, decimal}
use bifrost_platform_plugin.Common.Int.{pos}
use bifrost_platform_plugin.Common.Json.{Dict, bool, num, str}
use bifrost_platform_plugin.Common.Result.{Result, ok, raise}
use bifrost_platform_plugin.Config.{postgres_ready}
use bifrost_platform_plugin.Flex.Rows.{Row}
use bifrost_platform_plugin.Ingest.Trades.Report.{Run, failed_run, broken_run}
use bifrost_platform_plugin.Ingest.Trades.Texts.{accounts_of, dict}
use bifrost_platform_plugin.Ingest.Trades.Run.{no_postgres}

abbrev upload_failed : Text
upload_failed = codes "Flex XML upload failed"

abbrev no_trade_rows : Text
no_trade_rows =
    codes "No Trade rows parsed from XML. Ensure this is a Flex Trades report (Activity → Trades)."

abbrev not_stored : Text
not_stored = codes "Failed to write account_executions."

module _ {F : Type 0} (parse : Text → Result (List (Row F)))
    (write : List (Row F) → Result Bool) where
  abbrev uploaded : List (Row F) → Run F
  uploaded rows =
      let updated_accounts = length (accounts_of [] rows) in
      let msg =
        codes "Upserted "
        ++ (decimal (length rows)
            ++ (codes " execution(s) from uploaded Flex XML for "
                ++ (decimal updated_accounts ++ codes " account(s)."))) in
      record {
        result = dict (
            ("ok", bool true)
            ∷ ("count", num (pos (length rows)))
            ∷ ("updated_accounts", num (pos updated_accounts))
            ∷ ("message", str msg)
            ∷ []);
        published = record {
          is_ok = true;
          title = codes "Flex XML executions imported";
          body = msg;
          reason = none;
          level = codes "success";
        };
        written = some rows;
      }

  abbrev after_upload : List (Row F) → Result Bool → Run F
  after_upload rows (raise e) = broken_run upload_failed (some rows) e
  after_upload rows (ok false) =
      record (failed_run (codes "Flex XML write failed") not_stored
        (codes "write_account_executions_to_db")) { written = some rows }
  after_upload rows (ok true) = uploaded rows

  abbrev parsed_upload : Result (List (Row F)) → Run F
  parsed_upload (raise e) = broken_run upload_failed none e
  parsed_upload (ok []) =
      failed_run (codes "Flex XML upload: no trades") no_trade_rows (codes "parse_trades_xml empty")
  parsed_upload (ok (r ∷ rows)) = after_upload (r ∷ rows) (write (r ∷ rows))

  abbrev upload : Text → Run F
  upload [] =
      failed_run upload_failed (codes "Missing xml field in request body.") (codes "missing xml")
  upload (c ∷ s) = parsed_upload (parse (c ∷ s))

  unfoldable pub upsert_executions_from_uploaded_flex_xml : Dict → Text → Run F
  unfolding strip accounts_of decimal
  upsert_executions_from_uploaded_flex_xml config raw_xml =
      if postgres_ready config
      then upload (strip raw_xml)
      else failed_run upload_failed no_postgres (codes "no control_via_db")

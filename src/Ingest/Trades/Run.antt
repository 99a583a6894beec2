-- ===== src/Ingest/Trades/Run.antt =====
-- orchestration/trades.py: the whole of fetch_flex_trades_and_upsert_executions.
use bifrost_platform_plugin.Common.{ℕ, Bool, Option, none, List, [], ◌∷◌, length, if◌then◌else◌}
use bifrost_platform_plugin.Common.Text.{Text, codes}
use bifrost_platform_plugin.Common.Json.{Dict}
use bifrost_platform_plugin.Common.Result.{Result, ok, raise}
use bifrost_platform_plugin.Config.{Entry, Environment, Golden, get_purpose_entries, postgres_ready}
use bifrost_platform_plugin.Flex.Rows.{Row, Value}
use bifrost_platform_plugin.Ingest.{Ask, allows_fallback}
use bifrost_platform_plugin.Ingest.Trades.{Stats, Range, range_of, run_entries, gather}
use bifrost_platform_plugin.Ingest.Trades.Report.{Run, failed_run, broken_run, fetch_failed, finish}

abbrev pub no_postgres : Text
no_postgres = codes "PostgreSQL is required to write account_executions."

abbrev pub no_credentials : Text
no_credentials =
    codes
      "No Flex credentials for trades: set FLEX_HOST_TOKEN / FLEX_SECONDARY_TOKEN (K8s Secret bifrost-flex-tokens) and purpose=trades query_id rows (Settings → IB Connection → Flex Query IDs, or Ops Console Flex Plugin)."

-- What a run finds around it. `golden` is the configuration that it reads, `stats` and `days` the reads for the
-- automatic window, `stats_after` the read that follows the writer.
pub record Around (F : Type 0) : Type 0 where
  pub environment : Environment
  pub golden : Result Golden
  pub stats : Result Stats
  pub days : Result (ℕ × ℕ)
  pub today : ℕ
  pub yyyymmdd : ℕ → Text
  pub isoformat : ℕ → Text
  pub day_of_number : Value F → Option ℕ
  pub fetch : Entry → List Ask → Ask → Result (List (Row F))
  pub write : List (Row F) → Result Bool
  pub stats_after : Result Stats

module _ {F : Type 0} (around : Around F) where
  abbrev pub requested : Dict → List Entry → Result Range → Run F
  requested payload entries (raise e) = broken_run fetch_failed none e
  requested payload entries (ok range) =
      finish around.isoformat around.write around.stats_after range entries (
        gather around.isoformat around.day_of_number around.fetch range (allows_fallback payload) 1
          (length entries) entries)

  abbrev pub with_entries : Dict → List Entry → Run F
  with_entries payload [] =
      failed_run fetch_failed no_credentials (codes "no flex trades credentials")
  with_entries payload (e ∷ es) =
      requested payload (e ∷ es)
        (range_of around.yyyymmdd around.today around.stats around.days payload)

  abbrev pub with_golden : Dict → Result Golden → Run F
  with_golden payload (raise e) = broken_run fetch_failed none e
  with_golden payload (ok golden) =
      with_entries payload
        (run_entries (get_purpose_entries around.environment golden (codes "trades")))

  unfoldable pub fetch_flex_trades_and_upsert_executions : Dict → Dict → Run F
  unfolding finish gather range_of run_entries get_purpose_entries
  fetch_flex_trades_and_upsert_executions config payload =
      if postgres_ready config
      then with_golden payload around.golden
      else failed_run fetch_failed no_postgres (codes "no control_via_db")

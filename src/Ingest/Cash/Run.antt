-- ===== src/Ingest/Cash/Run.antt =====
-- orchestration/transactions.py: the result of a cash run, and fetch_cash_transactions_from_flex.
use bifrost_platform_plugin.Common.{
  ℕ, zero, suc, true, false, List, [], ◌∷◌, ◌++◌, length, if◌then◌else◌, ltb, String,
}
use bifrost_platform_plugin.Common.Text.{Text, codes, decimal}
use bifrost_platform_plugin.Common.Int.{pos}
use bifrost_platform_plugin.Common.Json.{Json, bool, num, str, arr, Dict}
use bifrost_platform_plugin.Common.Result.{message, Result, ok, raise, ◌>>=◌}
use bifrost_platform_plugin.Config.{Environment, Golden, get_purpose_entries, postgres_ready}
use bifrost_platform_plugin.Flex.Rows.{Row}
use bifrost_platform_plugin.Ingest.{Ask, texts, given_or_null, join, failed, allows_fallback}
use bifrost_platform_plugin.Ingest.Trades.{Range}
use bifrost_platform_plugin.Ingest.Trades.Texts.{dict, days_or_null, error_sentence}
use bifrost_platform_plugin.Ingest.Cash.{
  Query, queries_of, cash_range, chunks_of, Sink, fetch_queries,
}

-- The fields that the ends with no rows, with none written and with some have in common.
abbrev range_fields : ℕ → ℕ → Range → List (String × Json)
range_fields accounts n range =
    ("by_account", num (pos accounts))
    ∷ ("range_from", given_or_null range.from_date)
    ∷ ("range_to", given_or_null range.to_date)
    ∷ ("range_mode", str range.range_mode)
    ∷ ("range_days", days_or_null range.range_days)
    ∷ ("range_chunks", num (pos n))
    ∷ []

abbrev skipped_sentence : ℕ → Text
skipped_sentence zero = []
skipped_sentence (suc n) = codes " Skipped " ++ (decimal (suc n) ++ codes " row(s).")

abbrev nothing_written : ℕ → ℕ → Text
nothing_written parsed zero =
    codes "Parsed " ++ (decimal parsed ++ codes " cash transaction(s) but wrote 0.")
nothing_written parsed (suc n) =
    codes "Parsed "
    ++ (decimal parsed
        ++ (codes " cash transaction(s) but wrote 0 (" ++ (decimal (suc n) ++ codes " skipped).")))

abbrev chunks_sentence : ℕ → Range → Text
chunks_sentence n range =
    if ltb 1 n
    then codes " Window "
      ++ (range.from_date
          ++ (codes ".."
              ++ (range.to_date
                  ++ (codes " in " ++ (decimal n ++ codes " requests per account.")))))
    else []

module _ (accounts n : ℕ) (range : Range) where
  abbrev no_transactions : List Text → Dict
  no_transactions errors = dict (
      ("ok", bool true)
      ∷ ("count", num (pos 0))
      ∷ ("message", str (codes "No cash transactions in report."))
      ∷ ("errors", arr (texts errors))
      ∷ range_fields accounts n range)

  -- `written` and `skipped` are what the upsert counts.
  abbrev upserted : ℕ → List Text → ℕ × ℕ → Dict
  upserted parsed errors (zero, skipped) = dict (
      ("ok", bool false)
      ∷ ("error", str (nothing_written parsed skipped))
      ∷ ("count", num (pos 0))
      ∷ ("skipped", num (pos skipped))
      ∷ range_fields accounts n range)
  upserted parsed errors (suc written, skipped) = dict (
      ("ok", bool true)
      ∷ ("count", num (pos (suc written)))
      ∷ ("skipped", num (pos skipped))
      ∷ (
        "message",
        str (
            codes "Upserted "
            ++ (decimal (suc written)
                ++ (codes " transaction(s) from "
                    ++ (decimal accounts
                        ++ (codes " Flex account(s)."
                            ++ (skipped_sentence skipped
                                ++ (chunks_sentence n range ++ error_sentence errors))))))),
      )
      ∷ ("errors", arr (texts errors))
      ∷ range_fields accounts n range)

  abbrev pub conclude : {F : Type 0} → (List (Row F) → Result (ℕ × ℕ)) → Sink F → Result Dict
  conclude upsert ([], []) = ok (no_transactions [])
  conclude upsert ([], e ∷ errors) = ok (failed (join (codes "; ") (e ∷ errors)))
  conclude upsert (r ∷ rows, errors) =
      upsert (r ∷ rows) >>= (λ counted. ok (upserted (length (r ∷ rows)) errors counted))

-- What a run finds around it.
pub record CashAround (F : Type 0) : Type 0 where
  pub environment : Environment
  pub golden : Result Golden
  pub days : Result (ℕ × ℕ)
  pub last_dates : Result (List ℕ)
  pub today : ℕ
  pub yyyymmdd : ℕ → Text
  pub fetch : Query → Ask → Result (List (Row F))
  pub upsert : List (Row F) → Result (ℕ × ℕ)

abbrev pub no_credentials : Text
no_credentials =
    codes
      "No Flex credentials for cash_transactions: set FLEX_HOST_TOKEN / FLEX_SECONDARY_TOKEN (K8s Secret bifrost-flex-tokens) and purpose=cash_transactions query_id rows (Settings → IB Connection → Flex Query IDs, or Ops Console Flex Plugin)."

-- `except Exception`
abbrev pub or_failed : Result Dict → Dict
or_failed (ok d) = d
or_failed (raise e) = failed (message e)

module _ {F : Type 0} (around : CashAround F) where
  abbrev pub cash_run : Dict → List Query → Result Dict
  cash_run payload [] = ok (failed no_credentials)
  cash_run payload (q ∷ qs) = do
    range ← cash_range around.yyyymmdd around.today around.days around.last_dates payload
    chunks ← chunks_of around.yyyymmdd range
    sink ← fetch_queries around.fetch chunks (allows_fallback payload) (q ∷ qs) ([], [])
    conclude (suc (length qs)) (length chunks) range around.upsert sink

  unfoldable pub fetch_cash_transactions_from_flex : Dict → Dict → Dict
  unfolding cash_range chunks_of fetch_queries queries_of get_purpose_entries join decimal
  fetch_cash_transactions_from_flex config payload =
      if postgres_ready config
      then or_failed (
          around.golden >>= (λ golden. cash_run payload (
            queries_of
              (get_purpose_entries around.environment golden (codes "cash_transactions")))))
      else failed (codes "Postgres config required to write account_transactions.")

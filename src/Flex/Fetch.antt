-- ===== src/Flex/Fetch.antt =====
-- client/flex_client.py: fetch_trades and fetch_cash_transactions, the request, the polls and the parser in turn.
use bifrost_platform_plugin.Common.{ℕ, Bool, Option, none, List}
use bifrost_platform_plugin.Common.Text.{Text}
use bifrost_platform_plugin.Common.Result.{Result, ok, ◌>>=◌}
use bifrost_platform_plugin.Flex.{Parsed, Reply}
use bifrost_platform_plugin.Flex.Rows.{Row}
use bifrost_platform_plugin.Flex.Request.{Params, request_report}
use bifrost_platform_plugin.Flex.Statement.{get_statement}
use bifrost_platform_plugin.Flex.Trades.{parse_trades_xml}
use bifrost_platform_plugin.Flex.Cash.{parse_cash_transactions_xml}

-- The service: what it answers to a request, and to the polls for a reference.
pub record Service : Type 0 where
  pub send : Params → Reply
  pub answers : Text → ℕ → Reply

module _ {F : Type 0} (why : Text → Text) (fromstring : Text → Parsed)
    (float_of : Text → Option F) where
  -- What get_statement gives for the reference of a request.
  unfoldable pub report_of : Service → Text → Text → Text → Text → Option ℕ → Result Text
  unfolding request_report get_statement
  report_of service token query_id from_date to_date period = do
    ref ← request_report why fromstring service.send token query_id from_date to_date period
    get_statement fromstring (service.answers ref)

  module _ (is_zero at_least_zero : F → Bool) (nothing : F) where
    unfoldable pub fetch_cash_transactions :
        Service → Text → Text → Text → Text → Result (List (Row F))
    unfolding report_of parse_cash_transactions_xml
    fetch_cash_transactions service token query_id from_date to_date = do
      body ← report_of service token query_id from_date to_date none
      ok (parse_cash_transactions_xml float_of is_zero at_least_zero nothing fromstring body)

  module _ (show_float : F → Text) (local_to_utc : ℕ → ℕ) where
    unfoldable pub fetch_trades :
        Service → Text → Text → Text → Text → Option ℕ → Result (List (Row F))
    unfolding report_of parse_trades_xml
    fetch_trades service token query_id from_date to_date period = do
      body ← report_of service token query_id from_date to_date period
      parse_trades_xml float_of show_float local_to_utc fromstring body

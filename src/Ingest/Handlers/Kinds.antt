-- ===== src/Ingest/Handlers/Kinds.antt =====
-- worker/handlers.py: the handlers of the two kinds, on the configuration that core_config makes.
use bifrost_platform_plugin.Common.Text.{Text, codes}
use bifrost_platform_plugin.Common.Json.{Json, Dict}
use bifrost_platform_plugin.Common.Result.{Result}
use bifrost_platform_plugin.Ingest.Handlers.{require_ok}
use bifrost_platform_plugin.Ingest.Cash.Run.{CashAround, fetch_cash_transactions_from_flex}
use bifrost_platform_plugin.Ingest.Trades.Run.{Around, fetch_flex_trades_and_upsert_executions}

module _ {F : Type 0} (str_of : Json → Text) where
  unfoldable pub handle_flex_trades : Around F → Dict → Dict → Result Dict
  unfolding fetch_flex_trades_and_upsert_executions require_ok
  handle_flex_trades around config payload =
      require_ok str_of (fetch_flex_trades_and_upsert_executions around config payload).result
        (codes "flex-trades")

  unfoldable pub handle_flex_transactions : CashAround F → Dict → Dict → Result Dict
  unfolding fetch_cash_transactions_from_flex require_ok
  handle_flex_transactions around config payload =
      require_ok str_of (fetch_cash_transactions_from_flex around config payload)
        (codes "flex-transactions")

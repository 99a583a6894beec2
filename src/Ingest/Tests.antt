-- ===== src/Ingest/Tests.antt =====
-- orchestration/trades.py, transactions.py and worker/handlers.py: runs of one query, and the requests of a fallback.
use bifrost_platform_plugin.Common.{subst, ℕ, ◌≡◌, refl, true, none, some, List, [], ◌∷◌, ◌++◌}
use bifrost_platform_plugin.Common.Text.{Text, codes, text_eq, strip}
use bifrost_platform_plugin.Common.Int.{pos}
use bifrost_platform_plugin.Common.Json.{Json, str, num, bool, Dict, empty, entry, get, int_of}
use bifrost_platform_plugin.Common.Result.{value_error, Result, ok, raise}
use bifrost_platform_plugin.Flex.Rows.{Row, words, on_day}
use bifrost_platform_plugin.Flex.Request.{is_given}
use bifrost_platform_plugin.Schema.{FreshnessTable}
use bifrost_platform_plugin.Windows.{minus_days}
use bifrost_platform_plugin.Ingest.{Ask}
use bifrost_platform_plugin.Ingest.Fallback.{
  Fetched, fell_back, window_ask, default_ask, fetch_trades_with_date_fallback,
}
use bifrost_platform_plugin.Ingest.Fallback.Honest.{Honest, fetch_trades_with_date_fallback-Honest}
use bifrost_platform_plugin.Ingest.Handlers.{Handlers, Connection, dispatch, with_new_rows}
use bifrost_platform_plugin.Ingest.Handlers.Recorded.{IsFresh, Ran, dispatch-IsFresh}
use bifrost_platform_plugin.Ingest.Handlers.Kinds.{handle_flex_trades}
use bifrost_platform_plugin.Ingest.Trades.Run.{Around, fetch_flex_trades_and_upsert_executions}
use bifrost_platform_plugin.Ingest.Trades.Complete.{Done, handle_flex_trades-Done}
use bifrost_platform_plugin.Ingest.Cash.{Query, Chunk, fetch_queries}
use bifrost_platform_plugin.Ingest.Cash.Fetched.{Speaks, QueryAnswers, fetch_queries-QueryAnswers}

-- IB rejects the window, and then has one row for the query's own period.
abbrev rejecting : List Ask → Ask → Result (List ℕ)
rejecting [] a =
    raise (value_error (codes "Flex request failed: [1003] Statement is not available"))
rejecting (b ∷ asks) a = ok (7 ∷ [])

abbrev fallen : Fetched ℕ
fallen = fell_back (7 ∷ []) (codes "query_default_after_1003")

abbrev sent : List Ask
sent = default_ask ∷ window_ask (codes "20240101") (codes "20240131") ∷ []

rejected :
    fetch_trades_with_date_fallback rejecting (codes "20240101") (codes "20240131") true
    ≡ (ok fallen, sent)
unfolding fetch_trades_with_date_fallback
rejected = refl

fetch_trades_with_date_fallback-Honest_example : Honest rejecting fallen sent
fetch_trades_with_date_fallback-Honest_example =
    fetch_trades_with_date_fallback-Honest rejecting (codes "20240101") (codes "20240131") true
      fallen sent rejected

abbrev three_rows : Dict
three_rows = entry "inserted" (num (pos 3)) empty

abbrev handlers : Handlers
handlers = record {
  flex_trades = λ payload. ok three_rows;
  flex_transactions = λ payload. ok three_rows;
}

abbrev connection : Connection
connection = record {
  opened = none;
  db_now = some 10;
  rows_since = λ kind t. some 2;
  recorded = ok 20;
}

abbrev quoted_kind : Text → Text
quoted_kind s = codes "'" ++ (s ++ codes "'")

abbrev fresh_table : FreshnessTable
fresh_table = (dispatch quoted_kind handlers connection (codes " flex-trades ") empty (some 4) []).1

dispatched :
    dispatch quoted_kind handlers connection (codes " flex-trades ") empty (some 4) []
    ≡ (ok (with_new_rows three_rows (some 2)), fresh_table)
unfolding dispatch strip text_eq
dispatched = refl

dispatch-IsFresh_example :
    IsFresh fresh_table (strip (codes " flex-trades ")) (some 4)
    × Ran handlers (strip (codes " flex-trades ")) empty
dispatch-IsFresh_example =
    dispatch-IsFresh quoted_kind handlers connection (codes " flex-trades ") empty (some 4) []
      fresh_table (with_new_rows three_rows (some 2)) dispatched

-- A configuration of one query, which has one fill.
abbrev fill : Row ℕ
fill = ("account_id", words (codes "U1")) ∷ ("trade_date", on_day 738000) ∷ []

abbrev shown : Json → Text
shown (str s) = s
shown v = []

abbrev around : Around ℕ
around = record {
  environment = record { flex_host_token = some (codes "H"); flex_secondary_token = none };
  golden = ok (record {
    settings = none;
    queries =
        (record {
          sort_order = 0;
          query_label = none;
          purpose = some (codes "trades");
          query_host_id = some (codes "1");
          query_secondary_id = none;
        })
        ∷ [];
  });
  stats = ok (record { count = 0; max_date = none });
  days = ok (30, 360);
  today = 738002;
  yyyymmdd = λ d. codes "20210729";
  isoformat = λ d. codes "2021-07-29";
  day_of_number = λ v. none;
  fetch = λ e asks a. ok (fill ∷ []);
  write = λ rows. ok true;
  stats_after = ok (record { count = 1; max_date = some 738000 });
}

abbrev config : Dict
config = entry "sink" (str (codes "postgres")) empty

run_ok :
    get (fetch_flex_trades_and_upsert_executions around config empty).result "ok" ≡ some (bool true)
unfolding fetch_flex_trades_and_upsert_executions get minus_days
run_ok = refl

handled : (out : Dict) × (handle_flex_trades shown around config empty ≡ ok out)
unfolding handle_flex_trades minus_days int_of
handled = (_, refl)

handle_flex_trades-Done_example : Done shown (λ s. refl) around empty
handle_flex_trades-Done_example =
    handle_flex_trades-Done shown (λ s. refl) around empty config handled.0 handled.1

-- One window, which IB rejects with a message; the query's own period has a row.
abbrev chunks : List Chunk
chunks = (codes "20240101", codes "20240630") ∷ []

abbrev no_statement : Text
no_statement = codes "Flex request failed: [1003] Statement is not available"

abbrev answer_from : Text → Result (List (Row ℕ))
answer_from [] = ok (fill ∷ [])
answer_from (c ∷ s) = raise (value_error no_statement)

abbrev cash_fetch : Query → Ask → Result (List (Row ℕ))
cash_fetch q a = answer_from a.from_date

abbrev queries : List Query
queries = (codes "H", codes "1") ∷ []

cash_fetched : fetch_queries cash_fetch chunks true queries ([], []) ≡ ok (fill ∷ [], [])
unfolding fetch_queries
cash_fetched = refl

message_given : (s m : Text) → answer_from s ≡ raise (value_error m) → is_given m ≡ true
message_given [] m h = cc
message_given (c ∷ s) m h =
    let same : no_statement ≡ m = cc in subst (λ t. is_given t ≡ true) same refl

cash_fetch-Speaks : Speaks cash_fetch
cash_fetch-Speaks q a m h = message_given a.from_date m h

fetch_queries-QueryAnswers_example : QueryAnswers cash_fetch chunks true queries (fill ∷ [])
fetch_queries-QueryAnswers_example =
    fetch_queries-QueryAnswers cash_fetch chunks true queries (fill ∷ []) cash_fetch-Speaks
      cash_fetched

-- ===== src/Flex/Tests.antt =====
-- client/flex_client.py: polls, windows and reports of a few elements. The parser of the tests knows two texts.
use bifrost_platform_plugin.Common.{
  ℕ, zero, suc, ◌<◌, ◌≡◌, refl, true, Option, none, some, List, [], ◌∷◌, if◌then◌else◌, arith, ◌⊎◌,
  ◌==◌,
}
use bifrost_platform_plugin.Common.Text.{Text, codes, text_eq, strip, is_digit, contains}
use bifrost_platform_plugin.Common.Result.{Exception, ok, raise, message}
use bifrost_platform_plugin.Retry.{throttled, config, not_ready, classify_flex_error}
use bifrost_platform_plugin.Flex.{
  Element, element, nil, cons, Parsed, tree, malformed, Reply, body, refused, text_of, local_name,
  iter, get_attr, attrib, report_account_id,
}
use bifrost_platform_plugin.Flex.Statement.{poll_of, unready, ready, get_statement, poll_from}
use bifrost_platform_plugin.Flex.Statement.Polls.{
  get_statement-IsReport, get_statement-waits, get_statement-not_ready, IsReport, SaysCode,
}
use bifrost_platform_plugin.Flex.Trades.{stripped, parse_trades_xml, trade_row}
use bifrost_platform_plugin.Flex.Trades.Kept.{parse_trades_xml-Kept, Kept}
use bifrost_platform_plugin.Flex.Rows.{Row, get_field, attributes, words}
use bifrost_platform_plugin.Calendar.{strptime}
use bifrost_platform_plugin.Flex.Request.{report_params}
use bifrost_platform_plugin.Flex.Cash.{cash_time, cash_fields}

abbrev leaf : Text → Text → Element
leaf t s = element t [] (some s) nil

abbrev fill : Element
fill =
    element (codes "Trade") ((codes "accountId", codes "U1") ∷ (codes "rtn", codes " x ") ∷ []) none
      nil

abbrev report : Element
report = element (codes "FlexQueryResponse") [] none (
    cons
      (element (codes "FlexStatement") ((codes "accountId", codes "U1") ∷ []) none (cons fill nil))
      nil)

abbrev busy : Element
busy = element (codes "FlexStatementResponse") [] none (
    cons (leaf (codes "Status") (codes "Warn")) (
      cons (leaf (codes "ErrorCode") (codes "1019"))
        (cons (leaf (codes "ErrorMessage") (codes "in progress")) nil)))

abbrev fromstring : Text → Parsed
fromstring [] = malformed (codes "no element found")
fromstring (c ∷ s) = if text_eq (c ∷ s) (codes "report") then tree report else tree busy

-- The service is down once, and then has the report.
abbrev late : ℕ → Reply
late zero = refused (codes "HTTP Error 503")
late (suc i) = body (codes "report")

late_report : get_statement fromstring late ≡ ok (codes "report")
unfolding get_statement poll_from text_eq iter
late_report = refl

get_statement-IsReport_example :
    (root : Element) × (fromstring (codes "report") ≡ tree root) × IsReport root
unfolding text_eq
get_statement-IsReport_example = get_statement-IsReport fromstring late (codes "report") late_report

late_down : (j : ℕ) → j < 1 → (why : Text) × (poll_of fromstring (late j) ≡ unready why)
unfolding poll_of
late_down zero lt = (_, refl)
late_down (suc j) lt = absurd (omega arith)

late_up : poll_of fromstring (late 1) ≡ ready (codes "report")
unfolding poll_of text_eq iter
late_up = refl

get_statement-waits_example : get_statement fromstring late ≡ ok (codes "report")
get_statement-waits_example =
    get_statement-waits fromstring 1 late (codes "report") (omega arith) late_down late_up

-- The service never gets ready.
abbrev always_busy : ℕ → Reply
always_busy i = body (codes "busy")

busy_down : (j : ℕ) → j < 23 → (why : Text) × (poll_of fromstring (always_busy j) ≡ unready why)
unfolding poll_of text_eq iter
busy_down j lt = (_, refl)

busy-SaysCode : SaysCode busy 49 48 49 57
unfolding text_of text_eq local_name
busy-SaysCode = record { response = refl; code = refl }

get_statement-not_ready_example :
    (e : Exception) × (get_statement fromstring always_busy ≡ raise e)
    × (contains (codes "did not return report") (message e) ≡ true)
    × ((classify_flex_error (message e) ≡ throttled)
        ⊎ (classify_flex_error (message e) ≡ config)
        ⊎ (classify_flex_error (message e) ≡ not_ready))
unfolding text_eq is_digit
get_statement-not_ready_example =
    get_statement-not_ready fromstring always_busy (codes "busy") busy 49 48 49 57 busy_down refl
      refl busy-SaysCode (refl, refl, refl, refl) refl

-- Floats and zones play no part in the fill.
abbrev no_float : Text → Option ℕ
no_float s = none

abbrev shown : ℕ → Text
shown n = []

abbrev same : ℕ → ℕ
same t = t

abbrev fills : List (Row ℕ)
fills = trade_row no_float shown same (codes "U1") (stripped (attrib fill)) ∷ []

fills_read : parse_trades_xml no_float shown same fromstring (codes "report") ≡ ok fills
unfolding parse_trades_xml text_eq local_name
fills_read = refl

parse_trades_xml-Kept_example :
    Kept no_float shown same (report_account_id report) (iter report) fills
unfolding text_eq
parse_trades_xml-Kept_example =
    parse_trades_xml-Kept no_float shown same fromstring (codes "report") report fills refl
      fills_read

-- The extra attribute of the fill is in its row.
fill_extra :
    get_field (trade_row no_float shown same (codes "U1") (stripped (attrib fill))) "raw_extra"
    ≡ attributes ((codes "rtn", codes "x") ∷ [])
unfolding trade_row text_eq strip
fill_extra = refl

-- Windows.
abbrev no_reason : Text → Text
no_reason s = s

january :
    report_params no_reason (codes "T") (codes "Q") (codes "20240101") (codes "20240131") none
    ≡ ok (
        ("t", codes "T")
        ∷ ("q", codes "Q")
        ∷ ("v", codes "3")
        ∷ ("fd", codes "20240101")
        ∷ ("td", codes "20240131")
        ∷ [])
unfolding report_params strptime strip
january = refl

-- A cash row of attributes alone.
abbrev deposit : Element
deposit =
    element (codes "CashTransaction")
      ((codes "accountId", codes "U1")
        ∷ (codes "dateTime", codes "20240131;093000")
        ∷ (codes "amount", codes "5")
        ∷ (codes "type", codes "Deposits/Withdrawals")
        ∷ [])
      none nil

deposit_day : cash_time (codes "20240131;093000") ≡ cash_time (codes "2024-01-31")
unfolding cash_time
deposit_day = refl

deposit_type :
    get_field (cash_fields no_float (λ n. n == 0) (λ n. true) 0 [] deposit 7) "type"
    ≡ words (codes "deposit")
unfolding cash_fields get_field get_attr text_eq
deposit_type = refl

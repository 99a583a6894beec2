-- ===== src/Flex/Trades.antt =====
-- client/flex_client.py: parse_trades_xml. `float_of` is float() on a text, `show_float` is str().
pub mod Kept
use bifrost_platform_plugin.Common.{
  ℕ, zero, suc, ◌+◌, Bool, true, false, ◌&&◌, not, Option, none, some, List, [], ◌∷◌, ◌++◌, leb,
  if◌then◌else◌, any, map, filter, take, String,
}
use bifrost_platform_plugin.Common.Text.{Text, codes, strip, text_eq, is_digit, upper, contains}
use bifrost_platform_plugin.Common.Json.{int_of_text}
use bifrost_platform_plugin.Common.Result.{Exception, value_error, Result, ok, raise}
use bifrost_platform_plugin.Calendar.{strptime, ymd, date_of}
use bifrost_platform_plugin.Flex.{
  Attrs, Element, Parsed, tree, malformed, attrib, or_text, get_attr, iter, is_named,
  report_account_id,
}
use bifrost_platform_plugin.Flex.Rows.{
  Value, absent, words, real, integer, on_day, at_instant, attributes, Row, get_field, put_field,
  or_none, real_or_none, day_or_none, instant_or_none, integer_or_none, no_commas,
  parse_flex_datetime,
}

-- attrs.get(k, default)
unfoldable pub get_attr_or : Attrs → String → Text → Text
get_attr_or [] k default = default
get_attr_or ((j, v) ∷ attrs) k default =
    let rest = get_attr_or attrs k default in if text_eq j (codes k) then v else rest

abbrev pub stripped : Attrs → Attrs
stripped attrs = map (λ kv. (kv.0, strip kv.1)) attrs

-- `_parse_yyyymmdd_to_date`
unfoldable pub parse_yyyymmdd_to_date : Text → Option ℕ
parse_yyyymmdd_to_date raw = elim (strip raw) [
  | [] ↦ none
  | c ∷ s ↦ elim (strptime ymd (take 8 (c ∷ s))) [ none ↦ none | some t ↦ some (date_of t) ]
]

abbrev all_digits : Text → Bool
all_digits [] = false
all_digits (c ∷ s) = not (any (λ d. not (is_digit d)) (c ∷ s))

-- The attributes that have a field of their own.
abbrev pub known_keys : List String
known_keys =
    "accountId" ∷ "acctAlias" ∷ "model" ∷ "currency" ∷ "fxRateToBase" ∷ "assetCategory"
    ∷ "subCategory" ∷ "symbol" ∷ "description" ∷ "conid" ∷ "securityID" ∷ "securityIDType" ∷ "cusip"
    ∷ "isin" ∷ "figi" ∷ "listingExchange" ∷ "underlyingConid" ∷ "underlyingSymbol"
    ∷ "underlyingSecurityID" ∷ "underlyingListingExchange" ∷ "issuer" ∷ "issuerCountryCode"
    ∷ "tradeID" ∷ "multiplier" ∷ "relatedTradeID" ∷ "strike" ∷ "reportDate" ∷ "expiry" ∷ "dateTime"
    ∷ "putCall" ∷ "tradeDate" ∷ "principalAdjustFactor" ∷ "settleDateTarget" ∷ "transactionType"
    ∷ "exchange" ∷ "quantity" ∷ "tradePrice" ∷ "tradeMoney" ∷ "proceeds" ∷ "taxes" ∷ "ibCommission"
    ∷ "ibCommissionCurrency" ∷ "netCash" ∷ "closePrice" ∷ "openCloseIndicator" ∷ "notes" ∷ "cost"
    ∷ "fifoPnlRealized" ∷ "mtmPnl" ∷ []

unfoldable pub is_known : Text → Bool
is_known k = any (λ known. text_eq (codes known) k) known_keys

-- The attributes that are left for raw_extra.
abbrev pub extra_of : Attrs → Attrs
extra_of attrs = filter (λ kv. not (is_known kv.0)) attrs

module _ {F : Type 0} (float_of : Text → Option F) (show_float : F → Text)
    (local_to_utc : ℕ → ℕ) where
  abbrev float_or_none : Text → Option F
  float_or_none [] = none
  float_or_none (c ∷ s) = float_of (no_commas (c ∷ s))

  -- `_f`
  abbrev float_at : Attrs → String → Value F
  float_at attrs k = real_or_none (float_or_none (get_attr attrs k))

  abbrev text_at : Attrs → String → Value F
  text_at attrs k = or_none (get_attr attrs k)

  abbrev day_at : Attrs → String → Value F
  day_at attrs k = day_or_none (parse_yyyymmdd_to_date (get_attr attrs k))

  abbrev number_of : Text → Value F
  number_of s = if all_digits s then integer_or_none (int_of_text s) else absent

  abbrev strike_of : Text → Option F
  strike_of [] = none
  strike_of (c ∷ s) = float_of (c ∷ s)

  abbrev shown_strike : Option F → Text
  shown_strike none = []
  shown_strike (some x) = show_float x

  abbrev bar : Text
  bar = codes "|"

  -- symbol|sec_type|expiry|strike|right, if there are a symbol and a type.
  abbrev contract_key : Text → Text → Text → Text → Text → Value F
  contract_key [] sec exp strike right = absent
  contract_key (c ∷ sym) [] exp strike right = absent
  contract_key (c ∷ sym) (d ∷ sec) exp strike right =
      words
        ((c ∷ sym) ++ (bar ++ ((d ∷ sec) ++ (bar ++ (exp ++ (bar ++ (strike ++ (bar ++ right))))))))

  abbrev pub account_at : Text → Attrs → Text
  account_at report attrs = or_text (get_attr attrs "accountId") report

  abbrev later_time : Option ℕ → Option ℕ → Option ℕ
  later_time (some t) other = some t
  later_time none other = other

  -- The time of the fill, or else the day of the trade.
  abbrev pub time_at : Attrs → Option ℕ
  time_at attrs =
      later_time (parse_flex_datetime local_to_utc (get_attr attrs "dateTime")).0
        (parse_flex_datetime local_to_utc (get_attr attrs "tradeDate")).0

  -- The fields of the dict, as they are first set.
  unfoldable pub trade_fields : Text → Attrs → Row F
  unfolding get_attr get_attr_or or_text parse_yyyymmdd_to_date
  trade_fields report attrs =
      let sec_type = get_attr attrs "assetCategory" in
      let symbol = get_attr attrs "symbol" in
      let strike = strike_of (get_attr attrs "strike") in
      ("account_id", words (account_at report attrs))
      ∷ ("time", instant_or_none (time_at attrs))
      ∷ ("symbol", or_none symbol)
      ∷ ("sec_type", or_none sec_type)
      ∷ ("side", or_none (map upper (get_attr attrs "buySell")))
      ∷ ("quantity", real_or_none (float_or_none (get_attr_or attrs "quantity" (codes "0"))))
      ∷ ("price", real_or_none (float_or_none (get_attr_or attrs "tradePrice" (codes "0"))))
      ∷ ("source", words (codes "flex_trades"))
      ∷ ("exec_id", text_at attrs "ibExecID")
      ∷ ("expiry", text_at attrs "expiry")
      ∷ ("strike", real_or_none strike)
      ∷ ("option_right", text_at attrs "putCall")
      ∷ (
        "exchange",
        or_none (or_text (get_attr attrs "exchange") (get_attr attrs "listingExchange")),
      )
      ∷ ("order_id", number_of (or_text (get_attr attrs "ibOrderID") (get_attr attrs "orderID")))
      ∷ ("cum_qty", absent)
      ∷ (
        "contract_key",
        contract_key (strip symbol) (strip sec_type) (strip (get_attr attrs "expiry"))
            (shown_strike strike) (strip (get_attr attrs "putCall")),
      )
      ∷ ("currency", text_at attrs "currency")
      ∷ ("asset_category", or_none sec_type)
      ∷ ("sub_category", text_at attrs "subCategory")
      ∷ ("description", text_at attrs "description")
      ∷ ("conid", number_of (get_attr attrs "conid"))
      ∷ ("security_id", text_at attrs "securityID")
      ∷ ("security_id_type", text_at attrs "securityIDType")
      ∷ ("cusip", text_at attrs "cusip")
      ∷ ("isin", text_at attrs "isin")
      ∷ ("figi", text_at attrs "figi")
      ∷ ("listing_exchange", text_at attrs "listingExchange")
      ∷ ("underlying_conid", number_of (get_attr attrs "underlyingConid"))
      ∷ ("underlying_symbol", text_at attrs "underlyingSymbol")
      ∷ ("underlying_security_id", text_at attrs "underlyingSecurityID")
      ∷ ("underlying_listing_exchange", text_at attrs "underlyingListingExchange")
      ∷ ("issuer", text_at attrs "issuer")
      ∷ ("issuer_country_code", text_at attrs "issuerCountryCode")
      ∷ ("trade_id", text_at attrs "tradeID")
      ∷ ("related_trade_id", text_at attrs "relatedTradeID")
      ∷ ("report_date", day_at attrs "reportDate")
      ∷ ("trade_date", day_at attrs "tradeDate")
      ∷ ("settle_date_target", day_at attrs "settleDateTarget")
      ∷ ("transaction_type", text_at attrs "transactionType")
      ∷ ("multiplier", float_at attrs "multiplier")
      ∷ ("principal_adjust_factor", text_at attrs "principalAdjustFactor")
      ∷ ("proceeds", float_at attrs "proceeds")
      ∷ ("taxes", float_at attrs "taxes")
      ∷ ("net_cash", float_at attrs "netCash")
      ∷ ("close_price", float_at attrs "closePrice")
      ∷ ("open_close_indicator", text_at attrs "openCloseIndicator")
      ∷ ("notes", text_at attrs "notes")
      ∷ ("cost", float_at attrs "cost")
      ∷ ("fifo_pnl_realized", float_at attrs "fifoPnlRealized")
      ∷ ("mtm_pnl", float_at attrs "mtmPnl")
      ∷ ("trade_money", float_at attrs "tradeMoney")
      ∷ ("fx_rate_to_base", float_at attrs "fxRateToBase")
      ∷ ("acct_alias", text_at attrs "acctAlias")
      ∷ ("model", text_at attrs "model")
      ∷ ("commission", float_at attrs "ibCommission")
      ∷ ("currency_commission", text_at attrs "ibCommissionCurrency")
      ∷ ("realized_pnl", float_at attrs "fifoPnlRealized")
      ∷ []

  abbrev pub with_extra : Attrs → Row F → Row F
  with_extra [] row = row
  with_extra (kv ∷ extra) row = put_field row "raw_extra" (attributes (kv ∷ extra))

  -- a or b, on values that are texts or None
  abbrev pub first_value : Value F → Value F → Value F
  first_value absent b = b
  first_value a b = a

  -- The currency of the commission stands in for a currency that is missing.
  abbrev pub with_currency : Text → Row F → Row F
  with_currency [] row = row
  with_currency (c ∷ s) row =
      put_field row "currency" (first_value (get_field row "currency") (words (c ∷ s)))

  unfoldable pub trade_row : Text → Attrs → Row F
  unfolding trade_fields put_field get_field is_known
  trade_row report attrs =
      with_currency (get_attr attrs "ibCommissionCurrency")
        (with_extra (extra_of attrs) (trade_fields report attrs))

  abbrev pub is_nobody : Text → Option ℕ → Bool
  is_nobody [] none = true
  is_nobody account t = false

  -- The trades of a list of elements; a trade with neither a time nor an account is left out.
  unfoldable pub trade_rows : Text → List Element → List (Row F)
  unfolding trade_row
  trade_rows report [] = []
  trade_rows report (e ∷ es) =
      let rest = trade_rows report es in
      let attrs = stripped (attrib e) in
      if is_named "Trade" e
      then if is_nobody (account_at report attrs) (time_at attrs)
        then rest
        else trade_row report attrs ∷ rest
      else rest

  abbrev pub not_trades : Exception
  not_trades = value_error (
      codes
        "Flex report contains Cash Transactions, not Trades. Use a Flex Query that includes Activity → Trades (not Cash Transactions). In Settings → IB Connection → Flex, ensure the row with purpose=trades uses a Query ID that returns Trades.")

  abbrev pub checked_rows : Text → List (Row F) → Result (List (Row F))
  checked_rows xml_body [] =
      if contains (codes "CashTransaction") xml_body then raise not_trades else ok []
  checked_rows xml_body (r ∷ rows) = ok (r ∷ rows)

  abbrev pub read_trades : Text → Parsed → Result (List (Row F))
  read_trades xml_body (malformed e) = ok []
  read_trades xml_body (tree root) =
      checked_rows xml_body (trade_rows (report_account_id root) (iter root))

  unfoldable pub parse_trades_xml : (Text → Parsed) → Text → Result (List (Row F))
  unfolding trade_rows iter report_account_id
  parse_trades_xml fromstring xml_body = read_trades xml_body (fromstring xml_body)

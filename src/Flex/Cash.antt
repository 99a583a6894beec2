-- ===== src/Flex/Cash.antt =====
-- client/flex_client.py: parse_cash_transactions_xml. `float_of` is float() on a text; `is_zero`, `at_least_zero`
-- and `nothing` are == 0, >= 0 and 0.0.
use bifrost_platform_plugin.Common.{
  ℕ, Bool, true, false, ◌&&◌, ◌||◌, Option, none, some, List, [], ◌∷◌, ◌++◌, if◌then◌else◌, map,
  take, String,
}
use bifrost_platform_plugin.Common.Text.{Text, codes, strip, text_eq, upper, lower, contains}
use bifrost_platform_plugin.Common.Json.{int_of_text}
use bifrost_platform_plugin.Calendar.{Part, gap, lit, strptime, ymd, iso_day}
use bifrost_platform_plugin.Flex.{
  Attrs, Element, Parsed, tree, malformed, attrib, attr, text_of, or_text, iter, is_named,
  report_account_id,
}
use bifrost_platform_plugin.Flex.Rows.{
  words, real, at_instant, attributes, Row, or_none, real_or_none, integer_or_none, no_commas,
  compact_time, iso_time, searched_day,
}

-- The text of the child with one of the two names, or else of the attribute with the first.
abbrev child_or : Element → String → String → Text
child_or e name other = or_text (text_of e name []) (text_of e other [])

abbrev field_of : Element → String → String → Text
field_of e name other = or_text (child_or e name other) (attr e name)

abbrev account_of : Text → Element → Text
account_of report e =
    or_text (child_or e "accountId" "AccountId")
      (or_text (or_text (attr e "accountId") (attr e "accountID")) report)

abbrev date_text : Element → Text
date_text e =
    or_text (or_text (child_or e "dateTime" "DateTime") (text_of e "settleDate" []))
      (or_text (attr e "dateTime") (attr e "settleDate"))

abbrev transaction_of : Element → Text
transaction_of e =
    or_text (child_or e "transactionID" "TransactionID")
      (strip (or_text (attr e "transactionID") (attr e "TransactionID")))

-- The formats of the date, each with the characters that it is given.
abbrev pub cash_formats : List (List Part × ℕ)
cash_formats =
    (compact_time, 8)
    ∷ (ymd, 8)
    ∷ (iso_time (lit b'T'), 19)
    ∷ (iso_time gap, 19)
    ∷ (iso_day, 10)
    ∷ []

unfoldable pub first_cash_format : List (List Part × ℕ) → Text → Option ℕ
unfolding strptime
first_cash_format [] s = none
first_cash_format (f ∷ formats) s =
    let rest = first_cash_format formats s in
    elim (strptime f.0 (take f.1 s)) [ some t ↦ some t | none ↦ rest ]

-- The time that a row is stored under, in UTC.
unfoldable pub cash_time : Text → Option ℕ
unfolding first_cash_format searched_day strip
cash_time raw =
    let s = strip raw in
    elim (first_cash_format cash_formats s) [ some t ↦ some t | none ↦ searched_day s ]

abbrev amount_or_zero : Text → Text
amount_or_zero [] = codes "0"
amount_or_zero (c ∷ s) = c ∷ s

-- A field of the row that is there only if its text is not empty.
abbrev given : {F : Type 0} → String → Text → Row F
given k [] = []
given k (c ∷ s) = (k, words (c ∷ s)) ∷ []

abbrev given_attributes : {F : Type 0} → Attrs → Row F
given_attributes [] = []
given_attributes (kv ∷ attrs) = ("raw_extra", attributes (kv ∷ attrs)) ∷ []

abbrev given_integer : {F : Type 0} → String → Text → Row F
given_integer k [] = []
given_integer k (c ∷ s) = (k, integer_or_none (int_of_text (c ∷ s))) ∷ []

abbrev joined : {F : Type 0} → List (Row F) → Row F
joined [] = []
joined (r ∷ rs) = r ++ joined rs

abbrev none_of : Text → Bool
none_of [] = true
none_of (c ∷ s) = false

module _ {F : Type 0} (float_of : Text → Option F) (is_zero at_least_zero : F → Bool)
    (nothing : F) where
  -- `_normalize_type`
  unfoldable pub normalize_type : Text → Text → F → Text
  unfolding contains
  normalize_type flex_type code amount =
      let t = map lower (strip flex_type) in
      let c = map upper (strip code) in
      if contains (codes "deposits/withdrawals") t || contains (codes "deposits and withdrawals") t
      then if at_least_zero amount then codes "deposit" else codes "withdrawal"
      else if contains (codes "deposit") t || (contains (codes "dep") c || text_eq c (codes "DEP"))
      then codes "deposit"
      else if contains (codes "withdraw") t
          || (contains (codes "withdrawal") t
              || (contains (codes "wth") c || text_eq c (codes "WTH")))
      then codes "withdrawal"
      else if contains (codes "transfer") t
          || (contains (codes "tra") c || contains (codes "internal") t)
      then codes "transfer"
      else if contains (codes "dividend") t
          || (contains (codes "div") c || contains (codes "dvd") c)
      then codes "dividend"
      else codes "other"

  abbrev float_or_zero : Option F → F
  float_or_zero none = nothing
  float_or_zero (some x) = x

  abbrev pub amount_of : Element → F
  amount_of e = float_or_zero (
      float_of
        (no_commas (or_text (child_or e "amount" "Amount") (amount_or_zero (attr e "amount")))))

  abbrev given_float : String → Text → Row F
  given_float k [] = []
  given_float k (c ∷ s) = (k, real_or_none (float_of (c ∷ s))) ∷ []

  unfoldable pub cash_fields : Text → Element → ℕ → Row F
  unfolding normalize_type text_of or_text
  cash_fields report e ts =
      let flex_type = field_of e "type" "Type" in
      let code = field_of e "code" "Code" in
      ("account_id", words (strip (account_of report e)))
      ∷ ("ts", at_instant ts)
      ∷ ("amount", real (amount_of e))
      ∷ ("type", words (normalize_type flex_type code (amount_of e)))
      ∷ ("currency", or_none (field_of e "currency" "Currency"))
      ∷ ("description", or_none (field_of e "description" "Description"))
      ∷ joined (
          given "flex_transaction_id" (transaction_of e)
          ∷ given "flex_type" flex_type
          ∷ given "flex_code" code
          ∷ given "asset_category" (field_of e "assetCategory" "AssetCategory")
          ∷ given "asset_subcategory" (field_of e "subCategory" "SubCategory")
          ∷ given "symbol" (field_of e "symbol" "Symbol")
          ∷ given_integer "conid" (field_of e "conid" "Conid")
          ∷ given "security_id" (field_of e "securityID" "SecurityID")
          ∷ given "security_id_type" (field_of e "securityIDType" "SecurityIDType")
          ∷ given "listing_exchange" (field_of e "listingExchange" "ListingExchange")
          ∷ given "report_date" (field_of e "reportDate" "ReportDate")
          ∷ given "available_for_trading_date"
              (field_of e "availableForTradingDate" "AvailableForTradingDate")
          ∷ given_float "fx_rate_to_base" (field_of e "fxRateToBase" "FxRateToBase")
          ∷ given_attributes (attrib e)
          ∷ [])

  -- The row of an element; without a date, or with neither an account nor an amount, there is none.
  unfoldable pub cash_row : Text → Element → Option (Row F)
  unfolding cash_fields cash_time
  cash_row report e =
      if none_of (account_of report e) && is_zero (amount_of e)
      then none
      else elim (cash_time (date_text e)) [ none ↦ none | some ts ↦ some (cash_fields report e ts) ]

  unfoldable pub cash_rows : Text → List Element → List (Row F)
  unfolding cash_row
  cash_rows report [] = []
  cash_rows report (e ∷ es) =
      let rest = cash_rows report es in
      if is_named "CashTransaction" e
      then elim (cash_row report e) [ none ↦ rest | some r ↦ r ∷ rest ]
      else rest

  abbrev read_cash : Parsed → List (Row F)
  read_cash (malformed e) = []
  read_cash (tree root) = cash_rows (report_account_id root) (iter root)

  unfoldable pub parse_cash_transactions_xml : (Text → Parsed) → Text → List (Row F)
  unfolding cash_rows
  parse_cash_transactions_xml fromstring xml_body = read_cash (fromstring xml_body)

-- ===== src/Flex/Request.antt =====
-- client/flex_client.py: SendRequest. `why` is the message of strptime's ValueError for a text, `send`
-- what the service answers to the parameters.
pub mod Limits
use bifrost_platform_plugin.Common.{
  ℕ, zero, suc, ◌+◌, ◌-◌, Bool, true, false, ◌&&◌, ◌||◌, Option, none, some, List, [], ◌∷◌, ◌++◌,
  ltb, if◌then◌else◌, map, take, String, max,
}
use bifrost_platform_plugin.Common.Text.{Text, codes, strip, text_eq, lower, decimal}
use bifrost_platform_plugin.Common.Result.{
  Exception, value_error, parse_error, Result, ok, raise, ◌>>=◌,
}
use bifrost_platform_plugin.Calendar.{strptime, ymd, date_of}
use bifrost_platform_plugin.Windows.{max_flex_days}
use bifrost_platform_plugin.Flex.{
  Element, Parsed, tree, malformed, Reply, body, refused, broken, text_of,
}

abbrev pub Params : Type 0
Params = List (String × Text)

abbrev pub is_given : Text → Bool
is_given [] = false
is_given (c ∷ s) = true

-- s.strip()[:8]
abbrev pub day_text : Text → Text
day_text s = take 8 (strip s)

abbrev too_long : Exception
too_long = value_error (
    codes "Date range cannot exceed "
    ++ (decimal max_flex_days
        ++ codes
            " days (IB Flex limit). Use from_date and to_date within 366 days, or omit both to use the query default period (e.g. Last 365 Calendar Days)."))

abbrev bad_format : Text → Exception
bad_format e = value_error (codes "from_date and to_date must be yyyyMMdd format: " ++ e)

module _ (why : Text → Text) where
  -- The two ends of a window, if both are days and near enough to each other.
  abbrev pub checked_days : Text → Text → Option ℕ → Option ℕ → Result (Unit {0})
  checked_days fd td none to = raise (bad_format (why fd))
  checked_days fd td (some from) none = raise (bad_format (why td))
  checked_days fd td (some from) (some to) =
      if ltb max_flex_days (date_of to - date_of from) then raise too_long else ok tt

  -- The parameters of the request; a date that is not given is empty.
  unfoldable pub report_params : Text → Text → Text → Text → Option ℕ → Result Params
  report_params token query_id from_date to_date (some period) =
      ok (("t", token) ∷ ("q", query_id) ∷ ("v", codes "3") ∷ ("p", decimal period) ∷ [])
  report_params token query_id from_date to_date none =
      if is_given from_date && is_given to_date
      then checked_days (day_text from_date) (day_text to_date) (strptime ymd (day_text from_date))
          (strptime ymd (day_text to_date))
        >>= (λ checked. ok (
            ("t", token)
            ∷ ("q", query_id)
            ∷ ("v", codes "3")
            ∷ ("fd", day_text from_date)
            ∷ ("td", day_text to_date)
            ∷ []))
      else if is_given from_date || is_given to_date
      then raise (
          value_error
            (codes "When overriding dates, both from_date and to_date are required (yyyyMMdd)."))
      else ok (("t", token) ∷ ("q", query_id) ∷ ("v", codes "3") ∷ [])

  abbrev reference_or : Text → Result Text
  reference_or [] = raise (value_error (codes "Flex SendRequest returned no ReferenceCode"))
  reference_or (c ∷ s) = ok (c ∷ s)

  abbrev read_response : Parsed → Result Text
  read_response (malformed e) = raise (parse_error e)
  read_response (tree root) =
      if text_eq (map lower (strip (text_of root "Status" []))) (codes "fail")
      then raise (
          value_error (
            codes "Flex request failed: ["
            ++ (text_of root "ErrorCode" []
                ++ (codes "] " ++ text_of root "ErrorMessage" (codes "Unknown error")))))
      else reference_or (strip (text_of root "ReferenceCode" []))

  module _ (fromstring : Text → Parsed) where
    abbrev read_reference : Reply → Result Text
    read_reference (refused e) = raise (value_error (codes "Flex SendRequest failed: " ++ e))
    read_reference (broken e) = raise e
    read_reference (body s) = read_response (fromstring s)

    unfoldable pub request_report :
        (Params → Reply) → Text → Text → Text → Text → Option ℕ → Result Text
    unfolding report_params text_of
    request_report send token query_id from_date to_date period = do
      params ← report_params token query_id from_date to_date period
      read_reference (send params)

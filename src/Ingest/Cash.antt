-- ===== src/Ingest/Cash.antt =====
-- orchestration/transactions.py: fetch_cash_transactions_from_flex. The reads of the database, the answers of
-- the service and the upsert are arguments, as are strftime and the days of the stored transactions.
pub mod Run
pub mod Fetched
use bifrost_platform_plugin.Common.{
  ℕ, zero, suc, ◌+◌, Bool, true, false, ◌&&◌, Option, none, some, List, [], ◌∷◌, ◌++◌, length, map,
  take, if◌then◌else◌, ltb, ◌==◌, String,
}
use bifrost_platform_plugin.Common.Text.{Text, codes, strip, decimal}
use bifrost_platform_plugin.Common.Int.{ℤ, pos}
use bifrost_platform_plugin.Common.Json.{Json, null, bool, num, str, arr, Dict}
use bifrost_platform_plugin.Common.Fields.{text_field}
use bifrost_platform_plugin.Common.Result.{
  Exception, message, on_value_error, Result, ok, raise, ◌>>=◌,
}
use bifrost_platform_plugin.Calendar.{strptime, ymd, date_of}
use bifrost_platform_plugin.Windows.{
  Mode, init, incremental, Window, transactions_window, split_window, chunk_max_span_days,
}
use bifrost_platform_plugin.Config.{Entry}
use bifrost_platform_plugin.Flex.Rows.{Row}
use bifrost_platform_plugin.Flex.Request.{is_given}
use bifrost_platform_plugin.Ingest.{
  Ask, is_unavailable, texts, given_or_null, join, failed, allows_fallback,
}
use bifrost_platform_plugin.Ingest.Fallback.{window_ask, default_ask}
use bifrost_platform_plugin.Ingest.Trades.{Range, window_range, manual_range}

-- A token and a query.
abbrev pub Query : Type 0
Query = Text × Text

-- The entries of the configuration with a token and a query.
unfoldable pub queries_of : List Entry → List Query
unfolding strip
queries_of [] = []
queries_of (e ∷ es) =
    let rest = queries_of es in
    if is_given (strip e.token) && is_given (strip e.query_id)
    then (strip e.token, strip e.query_id) ∷ rest
    else rest

-- `_parse_yyyymmdd`
abbrev parse_yyyymmdd : Text → Option ℕ
parse_yyyymmdd s = elim (strptime ymd (take 8 (strip s))) [
  | none ↦ none
  | some t ↦ some (date_of t)
]

-- The dates of the payload, or else the window of `_scheduled_window`.
unfoldable pub cash_range : (ℕ → Text) → ℕ → Result (ℕ × ℕ) → Result (List ℕ) → Dict → Result Range
unfolding text_field transactions_window
cash_range yyyymmdd today days last_dates payload = text_field payload "from_date" >>= (λ from_date.
    text_field payload "to_date" >>= (λ to_date.
      if is_given from_date
      then ok (manual_range from_date to_date)
      else if is_given to_date
      then ok (manual_range from_date to_date)
      else days >>= (λ (default, first). last_dates >>= (λ dates.
        transactions_window dates default first today >>= (λ w. ok (window_range yyyymmdd w))))))

abbrev pub Chunk : Type 0
Chunk = Text × Text

abbrev printed_chunk : (ℕ → Text) → ℕ × ℕ → Chunk
printed_chunk yyyymmdd (a, b) = (yyyymmdd a, yyyymmdd b)

abbrev split_days : (ℕ → Text) → Chunk → Option ℕ → Option ℕ → Result (List Chunk)
split_days yyyymmdd whole (some fd) (some td) =
    split_window fd td chunk_max_span_days >>= (λ days. ok (map (printed_chunk yyyymmdd) days))
split_days yyyymmdd whole fd td = ok (whole ∷ [])

-- The requests of a window; one that is given by half is passed on as it is.
unfoldable pub chunks_of : (ℕ → Text) → Range → Result (List Chunk)
unfolding split_window strptime strip
chunks_of yyyymmdd range =
    if is_given range.from_date && is_given range.to_date
    then split_days yyyymmdd (range.from_date, range.to_date) (parse_yyyymmdd range.from_date)
        (parse_yyyymmdd range.to_date)
    else ok ((range.from_date, range.to_date) ∷ [])

-- The rows so far, and the errors.
abbrev pub Sink : Type 0 → Type 0
Sink F = List (Row F) × List Text

module _ {F : Type 0} (fetch : Query → Ask → Result (List (Row F))) where
  abbrev pub chunk_error : List (Row F) → Text → Result (List (Row F) × Option Text)
  chunk_error rows e = ok (rows, some e)

  abbrev pub after_own_period :
      List (Row F) → Text → Result (List (Row F)) → Result (List (Row F) × Option Text)
  after_own_period sink e (ok rows) = ok (sink ++ rows, none)
  after_own_period sink e (raise x) =
      on_value_error x
        (λ m. chunk_error sink (e ++ (codes "; fallback query-default failed: " ++ m))) (raise x)

  abbrev pub after_request :
      Query
      → Chunk
      → Bool
      → List (Row F)
      → Result (List (Row F))
      → Result (List (Row F) × Option Text)
  after_request q (from, to) allow_fallback sink (ok rows) = ok (sink ++ rows, none)
  after_request q (from, to) allow_fallback sink (raise x) =
      on_value_error x
        (λ m.
          if allow_fallback && (is_given from && (is_given to && is_unavailable x))
          then after_own_period sink m (fetch q default_ask)
          else chunk_error sink m)
        (raise x)

  -- `_fetch_chunk`: the rows with those of one window, and the error of one that failed.
  unfoldable pub fetch_chunk :
      Query → Chunk → Bool → List (Row F) → Result (List (Row F) × Option Text)
  unfolding is_unavailable
  fetch_chunk q chunk allow_fallback sink =
      after_request q chunk allow_fallback sink (fetch q (window_ask chunk.0 chunk.1))

  abbrev pub labelled : ℕ → Chunk → Text → Text
  labelled n chunk e =
      if n == 1 then e else chunk.0 ++ (codes ".." ++ (chunk.1 ++ (codes ": " ++ e)))

  abbrev pub with_chunk_error : List Text → ℕ → Chunk → Option Text → List Text
  with_chunk_error errors n chunk none = errors
  with_chunk_error errors n chunk (some []) = errors
  with_chunk_error errors n chunk (some (c ∷ e)) = errors ++ (labelled n chunk (c ∷ e) ∷ [])

  -- The chunks of a query in turn; n of them make its window.
  unfoldable pub fetch_chunks : Query → ℕ → Bool → List Chunk → Sink F → Result (Sink F)
  unfolding fetch_chunk
  fetch_chunks q n allow_fallback [] sink = ok sink
  fetch_chunks q n allow_fallback (chunk ∷ chunks) (rows, errors) =
      fetch_chunk q chunk (allow_fallback && (n == 1)) rows >>= (λ (more, e).
        fetch_chunks q n allow_fallback chunks (more, with_chunk_error errors n chunk e))

  unfoldable pub fetch_queries : List Chunk → Bool → List Query → Sink F → Result (Sink F)
  unfolding fetch_chunks
  fetch_queries chunks allow_fallback [] sink = ok sink
  fetch_queries chunks allow_fallback (q ∷ qs) sink =
      fetch_chunks q (length chunks) allow_fallback chunks sink
      >>= (λ more. fetch_queries chunks allow_fallback qs more)

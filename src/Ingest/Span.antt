-- ===== src/Ingest/Span.antt =====
-- orchestration/utils.py: rows_span, and the span of all queries of a trades run. The dates are ordinals;
-- `isoformat` prints one, and `day_of_number` is the date of a Unix time.
use bifrost_platform_plugin.Common.{ℕ, Option, none, some, List, [], ◌∷◌, min, max}
use bifrost_platform_plugin.Common.Text.{Text}
use bifrost_platform_plugin.Calendar.{strptime, iso_day, date_of}
use bifrost_platform_plugin.Flex.Rows.{
  Value, absent, real, integer, on_day, at_instant, Row, get_field,
}

-- The lower and the upper end of the days seen.
abbrev pub Span : Type 0
Span = Option ℕ × Option ℕ

abbrev pub lower_end : Option ℕ → ℕ → Option ℕ
lower_end none d = some d
lower_end (some m) d = some (min m d)

abbrev pub upper_end : Option ℕ → ℕ → Option ℕ
upper_end none d = some d
upper_end (some m) d = some (max m d)

abbrev pub widen : Span → Option ℕ → Span
widen (lo, hi) none = (lo, hi)
widen (lo, hi) (some d) = (lower_end lo d, upper_end hi d)

module _ {F : Type 0} (day_of_number : Value F → Option ℕ) where
  abbrev day_of_time : Value F → Option ℕ
  day_of_time (at_instant t) = some (date_of t)
  day_of_time (real x) = day_of_number (real x)
  day_of_time (integer n) = day_of_number (integer n)
  day_of_time v = none

  -- The fields of the two dates are a day or None.
  abbrev day_of_date : Value F → Value F → Option ℕ
  day_of_date (on_day d) other = some d
  day_of_date absent (on_day d) = some d
  day_of_date v other = none

  abbrev first_day : Option ℕ → Option ℕ → Option ℕ
  first_day none other = other
  first_day (some d) other = some d

  unfoldable pub day_of_row : Row F → Option ℕ
  unfolding get_field
  day_of_row r =
      first_day (day_of_time (get_field r "time"))
        (day_of_date (get_field r "trade_date") (get_field r "report_date"))

  unfoldable pub span_from : Span → List (Row F) → Span
  unfolding day_of_row
  span_from span [] = span
  span_from span (r ∷ rows) = span_from (widen span (day_of_row r)) rows

  -- The first and the last day of the rows.
  unfoldable pub rows_span : List (Row F) → Span
  unfolding span_from
  rows_span rows = span_from (none, none) rows

abbrev pub printed : (ℕ → Text) → Option ℕ → Option Text
printed isoformat none = none
printed isoformat (some d) = some (isoformat d)

abbrev day_of : Text → Option ℕ
day_of s = elim (strptime iso_day s) [ none ↦ none | some t ↦ some (date_of t) ]

abbrev joined_end : (Option ℕ → ℕ → Option ℕ) → Option ℕ → Option ℕ → Option ℕ
joined_end f end none = end
joined_end f end (some d) = f end d

-- A query's span is read back from its texts; a text that is not a date ends the item.
abbrev join_hi : Span → Option Text → Span
join_hi (lo, hi) none = (lo, hi)
join_hi (lo, hi) (some s) = (lo, joined_end upper_end hi (day_of s))

abbrev join_lo : Span → Option ℕ → Option Text → Span
join_lo (lo, hi) none to = (lo, hi)
join_lo (lo, hi) (some d) to = join_hi (lower_end lo d, hi) to

abbrev join_item : Span → Option Text × Option Text → Span
join_item span (none, to) = join_hi span to
join_item span (some s, to) = join_lo span (day_of s) to

unfoldable pub join_spans : Span → List (Option Text × Option Text) → Span
unfolding strptime
join_spans span [] = span
join_spans span (item ∷ items) = join_spans (join_item span item) items

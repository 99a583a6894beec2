-- ===== src/Windows.antt =====
-- orchestration/transactions.py and orchestration/trades.py: the date windows of a run. A date is
-- its proleptic Gregorian ordinal, from 1 to the last day of the year 9999.
pub mod Chunks
pub mod Bounds
mod Tests
use bifrost_platform_plugin.Common.{
  ℕ, zero, suc, ◌+◌, ◌-◌, ◌≤◌, ◌<◌, Bool, true, false, Option, none, some, List, [], ◌∷◌, ◌++◌, leb,
  ltb, ◌==◌, if◌then◌else◌, min, max,
}
use bifrost_platform_plugin.Common.Text.{Text, codes}
use bifrost_platform_plugin.Common.Result.{Result, ok, raise, overflow_error, runtime_error, ◌>>=◌}

-- date.max.toordinal()
abbrev pub max_ordinal : ℕ
max_ordinal = 3652059

-- d + timedelta(days=n) and d - timedelta(days=n)
unfoldable pub plus_days : ℕ → ℕ → Result ℕ
plus_days d n =
    if leb (d + n) max_ordinal
    then ok (d + n)
    else raise (overflow_error (codes "date value out of range"))

unfoldable pub minus_days : ℕ → ℕ → Result ℕ
minus_days d n =
    if ltb n d then ok (d - n) else raise (overflow_error (codes "date value out of range"))

abbrev pub max_flex_days : ℕ
max_flex_days = 366

abbrev pub chunk_max_span_days : ℕ
chunk_max_span_days = max_flex_days - 2

pub data Mode : Type 0 where
  init incremental : Mode

pub record Window : Type 0 where
  pub start : ℕ
  pub end : ℕ
  pub mode : Mode
  pub days : ℕ

-- min(values) of the dates of a dict that is not empty.
unfoldable pub oldest : ℕ → List ℕ → ℕ
oldest d [] = d
oldest d (e ∷ dates) = oldest (min d e) dates

-- The dates are the values of `last_dates`. `(yesterday - start).days` is not negative, since the
-- start is never behind yesterday.
unfoldable pub transactions_window : List ℕ → ℕ → ℕ → ℕ → Result Window
transactions_window [] default_days init_days today = do
  yesterday ← minus_days today 1
  start ← minus_days yesterday (max 1 init_days)
  ok (record { start = start; end = yesterday; mode = init; days = yesterday - start })
transactions_window (d ∷ dates) default_days init_days today = do
  yesterday ← minus_days today 1
  floor ← minus_days yesterday (max 1 default_days)
  let start = min (oldest d dates) floor
  ok (record { start = start; end = yesterday; mode = incremental; days = yesterday - start })

-- The `while cur <= end` of split_window, on fuel.
unfoldable pub split_from : ℕ → ℕ → ℕ → ℕ → Result (List (ℕ × ℕ))
split_from zero end span cur = raise (runtime_error (codes "out of fuel"))
split_from (suc fuel) end span cur = elim (leb cur end) [
  | true ↦ do
    reach ← plus_days cur span
    let chunk_end = min end reach
    next ← plus_days chunk_end 1
    rest ← split_from fuel end span next
    ok ((cur, chunk_end) ∷ rest)
  | false ↦ ok []
]

-- Each round moves `cur` by a day at least, so the days of the window and one are fuel enough.
unfoldable pub split_window : ℕ → ℕ → ℕ → Result (List (ℕ × ℕ))
split_window start end max_span_days =
    if ltb end start
    then ok ((start, end) ∷ [])
    else split_from (end - start + 2) end max_span_days start

-- The automatic window of a trades run: `last` is the newest stored trade date, absent if there is
-- no stored execution.
unfoldable pub trades_window : Option ℕ → ℕ → ℕ → ℕ → Result Window
trades_window none default_days init_days today = do
  yesterday ← minus_days today 1
  start ← minus_days yesterday init_days
  ok (record { start = start; end = yesterday; mode = init; days = init_days })
trades_window (some last) default_days init_days today = do
  yesterday ← minus_days today 1
  let total_days = yesterday - last + default_days
  start ← minus_days yesterday total_days
  ok (record { start = start; end = yesterday; mode = incremental; days = total_days })

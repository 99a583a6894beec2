-- ===== src/Cron.antt =====
-- scheduler/cronutil.py: five-field crons and the minutes at which they fire. An instant is a number
-- of microseconds of UTC; what a clock in the zone of the cron shows at an instant (zoneinfo) is the
-- argument `local`. A text in an error message holds no quotes, so repr puts it between two.
pub mod Fires
pub mod Next
mod Tests
use bifrost_platform_plugin.Common.{
  ℕ, String, zero, suc, ◌+◌, ◌-◌, ◌*◌, ◌/◌, ◌%◌, Bool, true, false, ◌&&◌, not, Option, none, some,
  List, [], ◌∷◌, ◌++◌, ltb, leb, ◌==◌, if◌then◌else◌, any, filter, drop, take,
}
use bifrost_platform_plugin.Common.Int.{ℤ, pos, negsuc}
use bifrost_platform_plugin.Common.Text.{Text, codes, strip, starts_with, is_space, text_eq}
use bifrost_platform_plugin.Common.Json.{int_of_text}
use bifrost_platform_plugin.Common.Result.{Result, ok, raise, value_error, ◌>>=◌}

-- A set of int, as the list of its members; none of those read from a cron is negative.
abbrev pub Values : Type 0
Values = List ℕ

abbrev quoting : String → Text → Text
quoting what part = codes what ++ (codes "'" ++ (part ++ codes "'"))

-- int(s)
abbrev parse_int : Text → Result ℤ
parse_int s = elim (int_of_text s) [
  | none ↦ raise (value_error (quoting "invalid literal for int() with base 10: " s))
  | some n ↦ ok n
]

-- range(lo, lo + n)
unfoldable pub range_from : ℕ → ℕ → Values
range_from lo zero = []
range_from lo (suc n) = lo ∷ range_from (suc lo) n

-- set(range(a, b + 1)); `a` holds no minus sign.
abbrev span : ℤ → ℤ → Values
span (pos a) (pos b) = range_from a (b + 1 - a)
span a b = []

abbrev single : ℤ → Values
single (pos n) = n ∷ []
single (negsuc n) = []

abbrev stepped : Text → ℕ → ℕ → ℤ → Result Values
stepped part minimum maximum (pos (suc n)) =
    ok (filter (λ v. v % suc n == 0) (range_from minimum (maximum + 1 - minimum)))
stepped part minimum maximum step =
    raise (value_error (quoting "invalid step in cron field: " part))

-- p.split("-", 1), if there is a minus sign.
unfoldable pub split_minus : Text → Option (Text × Text)
split_minus [] = none
split_minus (c ∷ s) =
    if c == b'-'
    then some ([], s)
    else elim (split_minus s) [ none ↦ none | some ab ↦ some (c ∷ ab.0, ab.1) ]

abbrev unstepped : Text → Option (Text × Text) → Result Values
unstepped p none = do n ← parse_int p; ok (single n)
unstepped p (some (a, b)) = do lo ← parse_int a; hi ← parse_int b; ok (span lo hi)

-- `_parse_part`
unfoldable pub parse_part : Text → ℕ → ℕ → Result Values
unfolding split_minus
parse_part part minimum maximum =
    let p = strip part in
    if starts_with p (codes "*/")
    then parse_int (drop 2 p) >>= stepped part minimum maximum
    else unstepped p (split_minus p)

abbrev push : ℕ → List Text → List Text
push c [] = (c ∷ []) ∷ []
push c (w ∷ ws) = (c ∷ w) ∷ ws

-- Cut at each place with p: s.split(","), and, with the empty words left out, s.split().
unfoldable pub split_by : (ℕ → Bool) → Text → List Text
split_by p [] = [] ∷ []
split_by p (c ∷ s) = let rest = split_by p s in if p c then [] ∷ rest else push c rest

abbrev is_word : Text → Bool
is_word [] = false
is_word (_ ∷ _) = true

unfoldable pub parse_parts : List Text → ℕ → ℕ → Result Values
unfolding parse_part
parse_parts [] minimum maximum = ok []
parse_parts (part ∷ parts) minimum maximum = do
  values ← parse_part part minimum maximum
  more ← parse_parts parts minimum maximum
  ok (values ++ more)

-- `_parse_field`: `none` admits every value.
unfoldable pub parse_field : Text → ℕ → ℕ → Result (Option Values)
unfolding parse_parts split_by
parse_field field minimum maximum =
    let f = strip field in
    if text_eq f (codes "*")
    then ok none
    else do values ← parse_parts (split_by (λ c. c == b',') f) minimum maximum; ok (some values)

-- The three fields that are looked at.
pub record Cron : Type 0 where
  pub minutes : Option Values
  pub hours : Option Values
  pub dows : Option Values

abbrev parse_fields : Text → List Text → Result Cron
parse_fields expr (minute_s ∷ hour_s ∷ dom ∷ month ∷ dow_s ∷ []) = do
  minutes ← parse_field minute_s 0 59
  hours ← parse_field hour_s 0 23
  dows ← parse_field dow_s 0 6
  ok (record { minutes = minutes; hours = hours; dows = dows })
parse_fields expr parts = raise (value_error (quoting "expected 5-field cron, got " expr))

unfoldable pub parse_cron : Text → Result Cron
unfolding parse_field split_by
parse_cron expr = parse_fields expr (filter is_word (split_by is_space (strip expr)))

-- What a clock shows; weekday() is 0 on Monday.
pub record Clock : Type 0 where
  pub minute : ℕ
  pub hour : ℕ
  pub weekday : ℕ

abbrev pub admits : Option Values → ℕ → Bool
admits none n = true
admits (some values) n = any (λ v. v == n) values

-- `_matches`
unfoldable pub matches : Cron → Clock → Bool
matches cron at =
    admits cron.minutes at.minute
    && admits cron.hours at.hour
    && admits cron.dows (if at.weekday == 6 then 0 else at.weekday + 1)

-- timedelta(minutes=1)
abbrev pub minute_us : ℕ
minute_us = 60000000

-- The first whole minute from `start` on.
unfoldable pub first_minute : ℕ → ℕ
first_minute start =
    let cur = start / minute_us * minute_us in if ltb cur start then cur + minute_us else cur

-- The `while cur < end`, on fuel.
unfoldable pub fires_from : ℕ → Cron → (ℕ → Clock) → ℕ → ℕ → List ℕ
unfolding matches
fires_from zero cron local end cur = []
fires_from (suc fuel) cron local end cur =
    let rest = fires_from fuel cron local end (cur + minute_us) in
    if ltb cur end then (if matches cron (local cur) then cur ∷ rest else rest) else []

-- Each round moves on by a minute, so the minutes up to `end` and one are fuel enough.
unfoldable pub iter_cron_fires : Text → (ℕ → Clock) → ℕ → ℕ → Result (List ℕ)
iter_cron_fires expr local start end = do
  cron ← parse_cron expr
  let cur = first_minute start
  ok (fires_from ((end - cur) / minute_us + 1) cron local end cur)

abbrev last_of : List ℕ → Option ℕ
last_of [] = none
last_of (t ∷ []) = some t
last_of (t ∷ u ∷ ts) = last_of (u ∷ ts)

-- `lookback_days` has its default, and `before` is not that near to the start of the epoch.
unfoldable pub previous_fire : Text → (ℕ → Clock) → ℕ → Result (Option ℕ)
previous_fire expr local before = do
  fires ← iter_cron_fires expr local (before - 14 * 1440 * minute_us) before
  ok (last_of fires)

-- `horizon_days` has its default. The search starts a minute after `after`.
unfoldable pub next_fires : Text → (ℕ → Clock) → ℕ → ℕ → Result (List ℕ)
next_fires expr local after count = do
  fires ← iter_cron_fires expr local (after + minute_us) (after + 14 * 1440 * minute_us)
  ok (take count fires)

abbrev pub first_fire : List ℕ → Option ℕ
first_fire [] = none
first_fire (t ∷ ts) = some t

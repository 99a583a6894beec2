-- ===== src/Flex/Rows.antt =====
-- client/flex_client.py: the rows that the parsers make of an element. A float is of a type F of its
-- own, since what float() and the float operations do is an argument. A time is the number of seconds
-- of UTC from the first day of the year 1, which is the Unix time moved by a constant.
use bifrost_platform_plugin.Common.{
  ℕ, zero, suc, Bool, true, false, not, Option, none, some, List, [], ◌∷◌, ◌++◌, ltb, ◌==◌,
  if◌then◌else◌, length, take, filter, String, str_eq,
}
use bifrost_platform_plugin.Common.Int.{ℤ}
use bifrost_platform_plugin.Common.Text.{Text, strip, is_digit}
use bifrost_platform_plugin.Calendar.{Part, gap, lit, strptime, ymd, iso_day, clock_parts}
use bifrost_platform_plugin.Flex.{Attrs}

-- The values of a row; `absent` is None.
pub data Value (F : Type 0) : Type 0 where
  absent : Value F
  words : Text → Value F
  real : F → Value F
  integer : ℤ → Value F
  on_day : ℕ → Value F
  at_instant : ℕ → Value F
  attributes : Attrs → Value F

-- A dict from names to values, in the order of insertion.
abbrev pub Row : Type 0 → Type 0
Row F = List (String × Value F)

module _ {F : Type 0} where
  -- row.get(k)
  unfoldable pub get_field : Row F → String → Value F
  get_field [] k = absent
  get_field ((j, v) ∷ row) k = let rest = get_field row k in if str_eq j k then v else rest

  -- row[k] = v
  unfoldable pub put_field : Row F → String → Value F → Row F
  put_field [] k v = (k, v) ∷ []
  put_field ((j, w) ∷ row) k v =
      let rest = put_field row k v in if str_eq j k then (j, v) ∷ row else (j, w) ∷ rest

  -- s or None
  abbrev pub or_none : Text → Value F
  or_none [] = absent
  or_none (c ∷ s) = words (c ∷ s)

  abbrev pub real_or_none : Option F → Value F
  real_or_none none = absent
  real_or_none (some x) = real x

  abbrev pub day_or_none : Option ℕ → Value F
  day_or_none none = absent
  day_or_none (some d) = on_day d

  abbrev pub instant_or_none : Option ℕ → Value F
  instant_or_none none = absent
  instant_or_none (some t) = at_instant t

  abbrev pub integer_or_none : Option ℤ → Value F
  integer_or_none none = absent
  integer_or_none (some n) = integer n

-- s.replace(",", "")
abbrev pub no_commas : Text → Text
no_commas s = filter (λ c. not (c == b',')) s

-- A match of \d{8} at the head.
unfoldable pub digits_at : ℕ → Text → Option Text
unfolding is_digit
digits_at zero s = some []
digits_at (suc n) [] = none
digits_at (suc n) (c ∷ s) =
    let rest = digits_at n s in
    if is_digit c then elim rest [ none ↦ none | some t ↦ some (c ∷ t) ] else none

-- re.search(r"(\d{8})", s)
unfoldable pub eight_digits : Text → Option Text
unfolding digits_at
eight_digits [] = none
eight_digits (c ∷ s) =
    let rest = eight_digits s in elim (digits_at 8 (c ∷ s)) [ some t ↦ some t | none ↦ rest ]

-- %Y%m%d;%H%M%S
abbrev pub compact_time : List Part
compact_time =
    Part.year ∷ Part.month ∷ Part.day ∷ lit b';' ∷ Part.hour ∷ Part.minute ∷ Part.second ∷ []

-- %Y-%m-%dT%H:%M:%S and %Y-%m-%d %H:%M:%S
abbrev pub iso_time : Part → List Part
iso_time between = iso_day ++ (between ∷ clock_parts)

-- A format, the characters that it is given, and whether it leaves out the time of day.
pub record Format : Type 0 where
  pub parts : List Part
  pub width : ℕ
  pub date_only : Bool

abbrev pub flex_datetime_formats : List Format
flex_datetime_formats =
    (record { parts = compact_time; width = 15; date_only = false })
    ∷ (record { parts = iso_time (lit b'T'); width = 19; date_only = false })
    ∷ (record { parts = iso_time gap; width = 19; date_only = false })
    ∷ (record { parts = ymd; width = 8; date_only = true })
    ∷ (record { parts = iso_day; width = 10; date_only = true })
    ∷ []

-- The first eight digits as a day.
unfoldable pub searched_day : Text → Option ℕ
unfolding eight_digits
searched_day s = elim (eight_digits s) [ none ↦ none | some t ↦ strptime ymd t ]

-- The formats in turn, each on the characters that it is given; a text that is too short is not tried.
unfoldable pub first_format : List Format → Text → Option (ℕ × Bool)
first_format [] s = none
first_format (f ∷ formats) s =
    let rest = first_format formats s in
    if ltb (length s) f.width
    then rest
    else elim (strptime f.parts (take f.width s)) [ some t ↦ some (t, f.date_only) | none ↦ rest ]

module _ (local_to_utc : ℕ → ℕ) where
  abbrev read_instant : Text → Option (ℕ × Bool) → Option ℕ × Bool
  read_instant s (some (t, date_only)) = (some (local_to_utc t), date_only)
  read_instant s none = elim (searched_day s) [
    | none ↦ (none, false)
    | some t ↦ (some (local_to_utc t), true)
  ]

  -- `parse_flex_datetime`; `local_to_utc` is `_local_to_utc`.
  unfoldable pub parse_flex_datetime : Text → Option ℕ × Bool
  unfolding first_format searched_day strip
  parse_flex_datetime raw = elim (strip raw) [
    | [] ↦ (none, false)
    | c ∷ s ↦ read_instant (c ∷ s) (first_format flex_datetime_formats (c ∷ s))
  ]

-- ===== src/Calendar.antt =====
-- datetime as the program uses it: strptime on the formats of the Flex Web Service, and the ordinal of
-- a date. An instant without a zone is the number of seconds from the first day of the year 1.
mod Tests
use bifrost_platform_plugin.Common.{
  ℕ, zero, suc, ◌+◌, ◌-◌, ◌*◌, ◌/◌, ◌%◌, Bool, true, false, ◌&&◌, ◌||◌, not, Option, none, some,
  List, [], ◌∷◌, ◌++◌, map, ltb, leb, ◌==◌, if◌then◌else◌, String,
}
use bifrost_platform_plugin.Common.Text.{Text, codes, is_digit, is_space, lstrip}

-- What a directive of a format reads. A space of the format stands for white space of any length.
pub data Part : Type 0 where
  year month day hour minute second : Part
  lit : ℕ → Part
  gap : Part

-- The fields that a format has read.
pub record Stamp : Type 0 where
  pub y : ℕ
  pub m : ℕ
  pub d : ℕ
  pub hh : ℕ
  pub mm : ℕ
  pub ss : ℕ

-- What a format leaves out: the first of January 1900 at midnight.
abbrev pub blank_stamp : Stamp
blank_stamp = record { y = 1900; m = 1; d = 1; hh = 0; mm = 0; ss = 0 }

-- A pattern of character classes, each from one code to another, and the number that it reads.
abbrev Class : Type 0
Class = ℕ × ℕ

abbrev digits_from : ℕ → ℕ → Class
digits_from lo hi = (48 + lo, 48 + hi)

abbrev read_digit : ℕ → ℕ → ℕ
read_digit n c = if c == b' ' then n else n * 10 + (c - 48)

unfoldable pub match_class : List Class → ℕ → Text → Option (ℕ × Text)
match_class [] n s = some (n, s)
match_class (k ∷ ks) n [] = none
match_class (k ∷ ks) n (c ∷ s) =
    let rest = match_class ks (read_digit n c) s in if leb k.0 c && leb c k.1 then rest else none

-- The alternatives of a directive in the order in which the regular expression of _strptime tries them.
abbrev pub alternatives : Part → List (List Class)
alternatives year =
    (digits_from 0 9 ∷ digits_from 0 9 ∷ digits_from 0 9 ∷ digits_from 0 9 ∷ []) ∷ []
alternatives month =
    (digits_from 1 1 ∷ digits_from 0 2 ∷ [])
    ∷ (digits_from 0 0 ∷ digits_from 1 9 ∷ [])
    ∷ (digits_from 1 9 ∷ [])
    ∷ []
alternatives day =
    (digits_from 3 3 ∷ digits_from 0 1 ∷ [])
    ∷ (digits_from 1 2 ∷ digits_from 0 9 ∷ [])
    ∷ (digits_from 0 0 ∷ digits_from 1 9 ∷ [])
    ∷ (digits_from 1 9 ∷ [])
    ∷ ((32, 32) ∷ digits_from 1 9 ∷ [])
    ∷ []
alternatives hour =
    (digits_from 2 2 ∷ digits_from 0 3 ∷ [])
    ∷ (digits_from 0 1 ∷ digits_from 0 9 ∷ [])
    ∷ (digits_from 0 9 ∷ [])
    ∷ []
alternatives minute = (digits_from 0 5 ∷ digits_from 0 9 ∷ []) ∷ (digits_from 0 9 ∷ []) ∷ []
alternatives second =
    (digits_from 6 6 ∷ digits_from 0 1 ∷ [])
    ∷ (digits_from 0 5 ∷ digits_from 0 9 ∷ [])
    ∷ (digits_from 0 9 ∷ [])
    ∷ []
alternatives (lit c) = ((c, c) ∷ []) ∷ []
alternatives gap = []

abbrev pub set_part : Part → ℕ → Stamp → Stamp
set_part year n t = record t { y = n }
set_part month n t = record t { m = n }
set_part day n t = record t { d = n }
set_part hour n t = record t { hh = n }
set_part minute n t = record t { mm = n }
set_part second n t = record t { ss = n }
set_part (lit c) n t = t
set_part gap n t = t

abbrev or_else {ℓ} : {A : Type ℓ} → Option A → Option A → Option A
or_else none b = b
or_else (some a) b = some a

abbrev starts_blank : Text → Bool
starts_blank [] = false
starts_blank (c ∷ s) = is_space c

-- The first alternative after which the rest of the format matches too.
unfoldable pub match_alternatives :
    (ℕ → Text → Option (Stamp × Text)) → List (List Class) → Text → Option (Stamp × Text)
unfolding match_class
match_alternatives more [] s = none
match_alternatives more (a ∷ alts) s =
    or_else (elim (match_class a 0 s) [ none ↦ none | some r ↦ more r.0 r.1 ])
      (match_alternatives more alts s)

-- The match of a format at the head of a text, and what is left of the text.
unfoldable pub match_parts : List Part → Stamp → Text → Option (Stamp × Text)
unfolding match_alternatives is_space lstrip
match_parts [] t s = some (t, s)
match_parts (gap ∷ parts) t s = if starts_blank s then match_parts parts t (lstrip s) else none
match_parts (part ∷ parts) t s =
    match_alternatives (λ n rest. match_parts parts (set_part part n t) rest) (alternatives part) s

unfoldable pub is_leap : ℕ → Bool
is_leap y = (y % 4 == 0) && (not (y % 100 == 0) || (y % 400 == 0))

abbrev pub month_lengths : Bool → List ℕ
month_lengths leap =
    31 ∷ (if leap then 29 else 28) ∷ 31 ∷ 30 ∷ 31 ∷ 30 ∷ 31 ∷ 31 ∷ 30 ∷ 31 ∷ 30 ∷ 31 ∷ []

-- The length of the month, and the days of the year before it.
unfoldable pub month_at : ℕ → List ℕ → ℕ → ℕ × ℕ
month_at before [] m = (0, before)
month_at before (n ∷ lengths) zero = (0, before)
month_at before (n ∷ lengths) (suc zero) = (n, before)
month_at before (n ∷ lengths) (suc (suc m)) = month_at (before + n) lengths (suc m)

abbrev days_before_year : ℕ → ℕ
days_before_year y = let p = y - 1 in p * 365 + p / 4 - p / 100 + p / 400

-- The instant, if the fields name a day and a time of day; otherwise datetime() raises ValueError.
unfoldable pub instant_of : Stamp → Option ℕ
unfolding is_leap month_at
instant_of t =
    let at = month_at 0 (month_lengths (is_leap t.y)) t.m in
    if ltb 0 t.y && ltb 0 t.d && leb t.d at.0 && ltb t.hh 24 && ltb t.mm 60 && ltb t.ss 60
    then some ((days_before_year t.y + at.1 + t.d) * 86400 + t.hh * 3600 + t.mm * 60 + t.ss)
    else none

abbrev whole : Option (Stamp × Text) → Option ℕ
whole none = none
whole (some (t, [])) = instant_of t
whole (some (t, c ∷ s)) = none

-- datetime.strptime(s, format); `none` is a ValueError.
unfoldable pub strptime : List Part → Text → Option ℕ
unfolding match_parts instant_of
strptime format s = whole (match_parts format blank_stamp s)

-- %Y%m%d
abbrev pub ymd : List Part
ymd = year ∷ month ∷ day ∷ []

-- %Y-%m-%d
abbrev pub iso_day : List Part
iso_day = year ∷ lit b'-' ∷ month ∷ lit b'-' ∷ day ∷ []

-- %H:%M:%S
abbrev pub clock_parts : List Part
clock_parts = hour ∷ lit b':' ∷ minute ∷ lit b':' ∷ second ∷ []

-- .date(), as its ordinal.
abbrev pub date_of : ℕ → ℕ
date_of t = t / 86400

-- ===== src/Cron/Tests.antt =====
-- scheduler/cronutil.py: the cron of the daily slots, on a clock that shows UTC.
use bifrost_platform_plugin.Common.{
  ℕ, ◌+◌, ◌*◌, ◌/◌, ◌%◌, ◌≡◌, refl, some, List, [], ◌∷◌, ◌↔◌, Memᴰ,
}
use bifrost_platform_plugin.Common.Text.{Text, codes, strip, starts_with, text_eq}
use bifrost_platform_plugin.Common.Json.{int_of_text}
use bifrost_platform_plugin.Common.Result.{ok}
use bifrost_platform_plugin.Cron.{Cron, Clock, parse_cron, range_from, minute_us, iter_cron_fires}
use bifrost_platform_plugin.Cron.Fires.{IsFire, iter_cron_fires-IsFire}

abbrev utc : ℕ → Clock
utc t = record {
  minute = t / minute_us % 60;
  hour = t / (60 * minute_us) % 24;
  weekday = (t / (1440 * minute_us) + 3) % 7;
}

abbrev daily : Text
daily = codes "30 6 * * 1-6"

abbrev morning : Cron
morning = record {
  minutes = some (30 ∷ []);
  hours = some (6 ∷ []);
  dows = some (1 ∷ 2 ∷ 3 ∷ 4 ∷ 5 ∷ 6 ∷ []);
}

daily_is_read : parse_cron daily ≡ ok morning
unfolding parse_cron strip text_eq starts_with int_of_text range_from
daily_is_read = refl

-- 1970-01-31, a Saturday, at noon.
abbrev noon : ℕ
noon = (30 * 1440 + 720) * minute_us

iter_cron_fires-IsFire_example :
    (fires : List ℕ) × (iter_cron_fires daily utc (29 * 1440 * minute_us) noon ≡ ok fires)
    × ((t : ℕ) → (Memᴰ t fires ↔ IsFire morning utc (29 * 1440 * minute_us) noon t))
iter_cron_fires-IsFire_example =
    iter_cron_fires-IsFire daily morning utc (29 * 1440 * minute_us) noon daily_is_read

-- The Monday after.
abbrev monday : ℕ
monday = (32 * 1440 + 390) * minute_us

-- ===== src/Flex/Request/Limits.antt =====
-- client/flex_client.py: the window of a request.
use bifrost_platform_plugin.Common.{
  ℕ, ◌-◌, ◌≤◌, ◌≡◌, refl, sym, true, Option, none, some, [], ◌∷◌, arith,
}
use bifrost_platform_plugin.Common.Text.{Text, codes}
use bifrost_platform_plugin.Common.Result.{ok, >>=-eq-ok, ok-injective}
use bifrost_platform_plugin.Calendar.{strptime, ymd, date_of}
use bifrost_platform_plugin.Flex.Request.{Params, is_given, day_text, checked_days, report_params}

module _ (why : Text → Text) where
  -- The request carries a window, of two dates that are at most 366 days apart.
  abbrev pub IsWindow : Text → Text → Text → Text → Params → Type 0
  IsWindow token query_id from_date to_date params =
      (a b : ℕ) × (strptime ymd (day_text from_date) ≡ some a)
      × (strptime ymd (day_text to_date) ≡ some b)
      × (date_of b - date_of a ≤ 366)
      × (params
          ≡ ("t", token)
            ∷ ("q", query_id)
            ∷ ("v", codes "3")
            ∷ ("fd", day_text from_date)
            ∷ ("td", day_text to_date)
            ∷ [])

  checked_days-ok :
      (fd td : Text) (from to : Option ℕ) (u : Unit {0})
      → checked_days why fd td from to ≡ ok u
      → (a b : ℕ) × (from ≡ some a) × (to ≡ some b) × (date_of b - date_of a ≤ 366)
  checked_days-ok fd td none to u h = cc
  checked_days-ok fd td (some a) none u h = cc
  checked_days-ok fd td (some a) (some b) u h = (a, b, refl, refl, ground arith)

  -- A request with both dates that is not refused before it is sent carries them as a window, and they are
  -- at most 366 days apart.
  report_params-IsWindow :
      (token query_id from_date to_date : Text) (params : Params)
      → is_given from_date ≡ true
      → is_given to_date ≡ true
      → report_params why token query_id from_date to_date none ≡ ok params
      → IsWindow token query_id from_date to_date params
  unfolding report_params
  report_params-IsWindow token query_id [] to_date params from to h = cc
  report_params-IsWindow token query_id (c ∷ s) [] params from to h = cc
  report_params-IsWindow token query_id (c ∷ s) (d ∷ t) params from to h =
      let (u, checked, h1) =
        >>=-eq-ok
          (checked_days why (day_text (c ∷ s)) (day_text (d ∷ t)) (strptime ymd (day_text (c ∷ s)))
            (strptime ymd (day_text (d ∷ t))))
          _ h in
      let (a, b, is_a, is_b, near) =
        checked_days-ok (day_text (c ∷ s)) (day_text (d ∷ t)) _ _ u checked in
      (a, b, is_a, is_b, near, sym (ok-injective h1))

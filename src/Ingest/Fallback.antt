-- ===== src/Ingest/Fallback.antt =====
-- orchestration/trades.py: `_fetch_trades_with_date_fallback`. `fetch` is what fetch_trades gives for a request,
-- after the requests that were sent before it.
pub mod Honest
use bifrost_platform_plugin.Common.{
  ℕ, zero, suc, ◌+◌, ◌≤◌, ◌≡◌, refl, ◌⊎◌, inl, inr, Bool, true, false, ◌&&◌, ◌||◌, not, Option,
  none, some, List, [], ◌∷◌, ◌++◌, if◌then◌else◌, length, arith, Memᴰ,
}
use bifrost_platform_plugin.Common.Text.{Text, codes}
use bifrost_platform_plugin.Common.Result.{
  Exception, value_error, message, on_value_error, Result, ok, raise,
}
use bifrost_platform_plugin.Ingest.{Ask, is_unavailable}
use bifrost_platform_plugin.Flex.Request.{is_given}

-- The rows, whether a fallback gave them, and which one.
pub record Fetched (Item : Type 0) : Type 0 where
  pub rows : List Item
  pub used_fallback : Bool
  pub fallback_kind : Option Text

-- The result, and the requests that were sent, the newest first.
abbrev pub Sent : Type 0 → Type 0
Sent Item = Result (Fetched Item) × List Ask

abbrev pub window_ask : Text → Text → Ask
window_ask from_date to_date = record { from_date = from_date; to_date = to_date; period = none }

abbrev pub default_ask : Ask
default_ask = record { from_date = []; to_date = []; period = none }

abbrev pub period_ask : Ask
period_ask = record { from_date = []; to_date = []; period = some 5 }

abbrev pub default_kind : Option Text → Text
default_kind none = codes "query_default_after_empty"
default_kind (some e) = codes "query_default_after_1003"

abbrev pub first_error : Option Text → Text → Option Text
first_error none e = some e
first_error (some p) e = some p

module _ {Item : Type 0} where
  abbrev pub plain : List Item → Fetched Item
  plain rows = record { rows = rows; used_fallback = false; fallback_kind = none }

  abbrev pub fell_back : List Item → Text → Fetched Item
  fell_back rows kind = record { rows = rows; used_fallback = true; fallback_kind = some kind }

  -- The third step; `primary` is the message of the first error.
  abbrev pub after_period : List Ask → Option Text → Result (List Item) → Sent Item
  after_period asks primary (ok (r ∷ rows)) =
      (ok (fell_back (r ∷ rows) (codes "period5_after_empty_or_1003")), asks)
  after_period asks none (ok []) = (ok (plain []), asks)
  after_period asks (some p) (ok []) = (raise (value_error p), asks)
  after_period asks none (raise e) = (raise e, asks)
  after_period asks (some p) (raise e) =
      on_value_error e
        (λ m. (
          raise (value_error (p ++ (codes "; fallback query-default/period=5 also failed: " ++ m))),
          asks,
        ))
        (raise e, asks)

  module _ (fetch : List Ask → Ask → Result (List Item)) where
    abbrev pub ask_period : List Ask → Option Text → Sent Item
    ask_period asks primary = after_period (period_ask ∷ asks) primary (fetch asks period_ask)

    -- The second step.
    abbrev pub after_default : List Ask → Option Text → Result (List Item) → Sent Item
    after_default asks primary (ok (r ∷ rows)) =
        (ok (fell_back (r ∷ rows) (default_kind primary)), asks)
    after_default asks primary (ok []) = ask_period asks primary
    after_default asks primary (raise e) =
        on_value_error e (λ m. ask_period asks (first_error primary m)) (raise e, asks)

    abbrev pub ask_default : List Ask → Option Text → Sent Item
    ask_default asks primary = after_default (default_ask ∷ asks) primary (fetch asks default_ask)

    -- The first step; `both` is whether the window has both its dates.
    abbrev pub after_window : List Ask → Bool → Bool → Result (List Item) → Sent Item
    after_window asks both allow_fallback (ok (r ∷ rows)) = (ok (plain (r ∷ rows)), asks)
    after_window asks both false (ok []) = (ok (plain []), asks)
    after_window asks both true (ok []) = ask_default asks none
    after_window asks both allow_fallback (raise e) =
        on_value_error e
          (λ m.
            if both && (allow_fallback && is_unavailable e)
            then ask_default asks (some m)
            else (raise e, asks))
          (raise e, asks)

    unfoldable pub fetch_trades_with_date_fallback : Text → Text → Bool → Sent Item
    unfolding is_unavailable
    fetch_trades_with_date_fallback from_date to_date allow_fallback =
        after_window (window_ask from_date to_date ∷ []) (is_given from_date && is_given to_date)
          allow_fallback (fetch [] (window_ask from_date to_date))

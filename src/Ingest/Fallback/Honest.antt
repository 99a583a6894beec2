-- ===== src/Ingest/Fallback/Honest.antt =====
-- orchestration/trades.py: what `_fetch_trades_with_date_fallback` sends, and what its rows come from.
use bifrost_platform_plugin.Common.{
  ◌≤◌, ◌≡◌, refl, subst, Bool, true, false, ◌&&◌, Option, none, some, List, [], ◌∷◌, ◌++◌,
  if◌then◌else◌, length, arith,
}
use bifrost_platform_plugin.Common.Text.{Text, codes}
use bifrost_platform_plugin.Common.Result.{value_error, on_value_error-both, Result, ok, raise}
use bifrost_platform_plugin.Flex.Request.{is_given}
use bifrost_platform_plugin.Ingest.{Ask, is_unavailable}
use bifrost_platform_plugin.Ingest.Fallback.{
  Fetched, Sent, plain, window_ask, default_ask, period_ask, first_error, after_period, ask_period,
  after_default, ask_default, after_window, fetch_trades_with_date_fallback,
}

-- Without the fallback: the answer to the one request.
abbrev pub direct : {Item : Type 0} → Result (List Item) → Result (Fetched Item)
direct (ok rows) = ok (plain rows)
direct (raise e) = raise e

module _ {Item : Type 0} (fetch : List Ask → Ask → Result (List Item)) where
  direct-after_window :
      (asks : List Ask) (both : Bool) (r : Result (List Item))
      → after_window fetch asks both false r ≡ (direct r, asks)
  direct-after_window asks both (ok (r ∷ rows)) = refl
  direct-after_window asks both (ok []) = refl
  direct-after_window asks both (raise e) =
      on_value_error-both (λ y. y ≡ (raise e, asks)) e
        (λ m.
          if both && (false && is_unavailable e)
          then ask_default fetch asks (some m)
          else (raise e, asks))
        (raise e, asks) (λ m h. ground arith) refl

  -- Without the fallback one request is sent, and its answer is the result.
  fetch_trades_with_date_fallback-off :
      (from_date to_date : Text)
      → fetch_trades_with_date_fallback fetch from_date to_date false
        ≡ (direct (fetch [] (window_ask from_date to_date)), window_ask from_date to_date ∷ [])
  unfolding fetch_trades_with_date_fallback
  fetch_trades_with_date_fallback-off from_date to_date =
      direct-after_window (window_ask from_date to_date ∷ [])
        (is_given from_date && is_given to_date) (fetch [] (window_ask from_date to_date))

  -- The newest request was answered with the rows.
  abbrev pub Answers : List Ask → List Item → Type 0
  Answers [] rows = ⊥
  Answers (a ∷ asks) rows = fetch asks a ≡ ok rows

  -- Every request was answered with no rows.
  abbrev pub NoRows : List Ask → Type 0
  NoRows [] = Unit
  NoRows (a ∷ asks) = (fetch asks a ≡ ok []) × NoRows asks

  -- What the rows of a result are: those of the newest request, of three at most; no rows means that there
  -- were none in any answer.
  abbrev pub Honest : Fetched Item → List Ask → Type 0
  Honest got asks =
      Answers asks got.rows
      × (length asks ≤ 3)
      × (got.rows ≡ [] → NoRows asks)
      × (got.used_fallback ≡ true → 2 ≤ length asks)

  abbrev HonestSent : Sent Item → Type 0
  HonestSent (ok got, asks) = Honest got asks
  HonestSent (raise e, asks) = Unit

  cons≢nil : {r : Item} {rows : List Item} {X : Type 0} → r ∷ rows ≡ [] → X
  cons≢nil h = cc

  after_period-Honest :
      (asks : List Ask) (primary : Option Text) (r : Result (List Item))
      → length asks ≡ 2
      → (primary ≡ none → NoRows asks)
      → fetch asks period_ask ≡ r
      → HonestSent (after_period (period_ask ∷ asks) primary r)
  after_period-Honest asks primary (ok (r ∷ rows)) two quiet at =
      (at, omega arith, (λ h. cons≢nil h), λ h. omega arith)
  after_period-Honest asks none (ok []) two quiet at =
      (at, omega arith, (λ h. (at, quiet refl)), λ h. omega arith)
  after_period-Honest asks (some p) (ok []) two quiet at = tt
  after_period-Honest asks none (raise e) two quiet at = tt
  after_period-Honest asks (some p) (raise e) two quiet at =
      on_value_error-both HonestSent e
        (λ m. (
          raise (value_error (p ++ (codes "; fallback query-default/period=5 also failed: " ++ m))),
          period_ask ∷ asks,
        ))
        (raise e, period_ask ∷ asks) (λ m h. tt) tt

  quiet_error : {X : Type 0} (primary : Option Text) (m : Text) → first_error primary m ≡ none → X
  quiet_error none m h = cc
  quiet_error (some p) m h = cc

  after_default-Honest :
      (asks : List Ask) (primary : Option Text) (r : Result (List Item))
      → length asks ≡ 1
      → (primary ≡ none → NoRows asks)
      → fetch asks default_ask ≡ r
      → HonestSent (after_default fetch (default_ask ∷ asks) primary r)
  after_default-Honest asks primary (ok (r ∷ rows)) one quiet at =
      (at, omega arith, (λ h. cons≢nil h), λ h. omega arith)
  after_default-Honest asks primary (ok []) one quiet at =
      after_period-Honest (default_ask ∷ asks) primary _ (omega arith) (λ h. (at, quiet h)) refl
  after_default-Honest asks primary (raise e) one quiet at =
      on_value_error-both HonestSent e
        (λ m. ask_period fetch (default_ask ∷ asks) (first_error primary m))
        (raise e, default_ask ∷ asks)
        (λ m h.
          after_period-Honest (default_ask ∷ asks) (first_error primary m) _ (omega arith)
            (λ k. quiet_error primary m k) refl)
        tt

  if-HonestSent :
      (b : Bool) (x y : Sent Item) → HonestSent x → HonestSent y → HonestSent (if b then x else y)
  if-HonestSent true x y h k = h
  if-HonestSent false x y h k = k

  after_window-Honest :
      (a : Ask) (both allow_fallback : Bool) (r : Result (List Item))
      → fetch [] a ≡ r
      → HonestSent (after_window fetch (a ∷ []) both allow_fallback r)
  after_window-Honest a both allow_fallback (ok (r ∷ rows)) at =
      (at, omega arith, (λ h. cons≢nil h), λ h. cc)
  after_window-Honest a both false (ok []) at = (at, omega arith, (λ h. (at, tt)), λ h. cc)
  after_window-Honest a both true (ok []) at =
      after_default-Honest (a ∷ []) none _ refl (λ h. (at, tt)) refl
  after_window-Honest a both allow_fallback (raise e) at =
      on_value_error-both HonestSent e
        (λ m.
          if both && (allow_fallback && is_unavailable e)
          then ask_default fetch (a ∷ []) (some m)
          else (raise e, a ∷ []))
        (raise e, a ∷ [])
        (λ m h.
          if-HonestSent (both && (allow_fallback && is_unavailable e)) _ _
            (after_default-Honest (a ∷ []) (some m) _ refl (λ k. cc) refl) tt)
        tt

  -- Rows that are returned are the answer to the newest request, of three at most. If none are returned,
  -- then every request that was sent was answered with no rows: an error is never taken for an empty report.
  pub fetch_trades_with_date_fallback-Honest :
      (from_date to_date : Text) (allow_fallback : Bool) (got : Fetched Item) (asks : List Ask)
      → fetch_trades_with_date_fallback fetch from_date to_date allow_fallback ≡ (ok got, asks)
      → Honest got asks
  unfolding fetch_trades_with_date_fallback
  fetch_trades_with_date_fallback-Honest from_date to_date allow_fallback got asks h =
      subst HonestSent h (
        after_window-Honest (window_ask from_date to_date) (is_given from_date && is_given to_date)
          allow_fallback (fetch [] (window_ask from_date to_date)) refl)

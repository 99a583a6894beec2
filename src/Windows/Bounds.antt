-- ===== src/Windows/Bounds.antt =====
-- orchestration/transactions.py and orchestration/trades.py: where the window of a run starts and
-- ends.
use bifrost_platform_plugin.Common.{
  ℕ, ◌+◌, ◌-◌, ◌≤◌, ◌<◌, ◌≡◌, refl, some, List, [], ◌∷◌, arith, min, max,
}
use bifrost_platform_plugin.Common.Result.{Result, ok}
use bifrost_platform_plugin.Windows.{
  minus_days, init, incremental, Window, oldest, transactions_window, trades_window,
}

minus_days_lem : (d n : ℕ) → n < d → minus_days d n ≡ ok (d - n)
unfolding minus_days
minus_days_lem d n h = ground arith

-- No day of the list is before `start`.
abbrev pub NoneBefore : ℕ → List ℕ → Type 0
NoneBefore start [] = Unit
NoneBefore start (d ∷ dates) = (start ≤ d) × NoneBefore start dates

NoneBefore-weaken : {a b : ℕ} → a ≤ b → (dates : List ℕ) → NoneBefore b dates → NoneBefore a dates
NoneBefore-weaken h [] known = known
NoneBefore-weaken h (d ∷ dates) (k, known) = (omega arith, NoneBefore-weaken h dates known)

oldest-NoneBefore :
    (d : ℕ) (dates : List ℕ) → (oldest d dates ≤ d) × NoneBefore (oldest d dates) dates
unfolding oldest
oldest-NoneBefore d [] = (ground arith, tt)
oldest-NoneBefore d (e ∷ dates) =
    let (low, known) = oldest-NoneBefore (min d e) dates in (ground arith, (ground arith, known))

-- A window of a cash-transactions run: it ends yesterday, its days are counted, it goes back `back`
-- days at least, and no stored day is before it.
abbrev pub Reaches : ℕ → List ℕ → ℕ → Result Window → Type 0
Reaches back dates today r =
    (w : Window) × (r ≡ ok w)
    × (w.end + 1 ≡ today)
    × (w.start + w.days ≡ w.end)
    × (w.start + back ≤ w.end)
    × NoneBefore w.start dates

transactions_window-none :
    (default_days init_days today : ℕ)
    → max 1 init_days + 1 < today
    → Reaches (max 1 init_days) [] today (transactions_window [] default_days init_days today)
unfolding transactions_window
transactions_window-none default_days init_days today room = (
  record {
    start = today - 1 - max 1 init_days;
    end = today - 1;
    mode = init;
    days = today - 1 - (today - 1 - max 1 init_days);
  },
  (rw
      (
        minus_days_lem today 1 (ground arith),
        minus_days_lem (today - 1) (max 1 init_days) (ground arith),
      )
      refl),
  omega arith,
  omega arith,
  omega arith,
  tt,
)

-- If some cash transaction is stored and the calendar reaches back far enough, the window of a run
-- ends yesterday, counts its days, goes back `default_days` and one day at least, and starts no
-- later than the last stored day of any account.
pub transactions_window-Reaches :
    (d : ℕ) (dates : List ℕ) (default_days init_days today : ℕ)
    → max 1 default_days + 1 < today
    → Reaches
        (max 1 default_days)
        (d ∷ dates)
        today
        (transactions_window (d ∷ dates) default_days init_days today)
unfolding transactions_window
transactions_window-Reaches d dates default_days init_days today room =
    let start = min (oldest d dates) (today - 1 - max 1 default_days) in
    let (low, known) = oldest-NoneBefore d dates in
    (
      record { start = start; end = today - 1; mode = incremental; days = today - 1 - start },
      (rw
          (
            minus_days_lem today 1 (ground arith),
            minus_days_lem (today - 1) (max 1 default_days) (ground arith),
          )
          refl),
      omega arith,
      ground arith,
      ground arith,
      (ground arith, NoneBefore-weaken (ground arith) dates known),
    )

-- If an execution is stored and the calendar reaches back far enough, the window of a trades run
-- ends yesterday and starts `default_days` days before the newest stored trade date, or before
-- yesterday if that date is later.
pub trades_window-overlap :
    (last default_days init_days today : ℕ)
    → default_days < last
    → default_days + 1 < today
    → (w : Window) × (trades_window (some last) default_days init_days today ≡ ok w)
      × (w.end + 1 ≡ today)
      × (w.start + w.days ≡ w.end)
      × (w.start + default_days ≡ min last w.end)
unfolding trades_window
trades_window-overlap last default_days init_days today known room =
    let total = today - 1 - last + default_days in
    (
      record { start = today - 1 - total; end = today - 1; mode = incremental; days = total },
      (rw
          (
            minus_days_lem today 1 (ground arith),
            minus_days_lem (today - 1) (today - 1 - last + default_days) (ground arith),
          )
          refl),
      omega arith,
      omega arith,
      ground arith,
    )

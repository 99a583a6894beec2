-- ===== src/Ingest/Trades/Complete.antt =====
-- orchestration/trades.py and worker/handlers.py: the queries and the rows behind a trades job that is done.
use bifrost_platform_plugin.Common.{
  ℕ, suc, ◌≡◌, refl, ap, ◌∙◌, subst, ◌⊎◌, inl, inr, Bool, true, false, Option, List, [], ◌∷◌, ◌++◌,
  if◌then◌else◌, length, All,
}
use bifrost_platform_plugin.Common.Text.{Text, codes, strip}
use bifrost_platform_plugin.Common.Strip.{strip-cons}
use bifrost_platform_plugin.Common.Json.{Json, str, Dict, get}
use bifrost_platform_plugin.Common.Result.{on_value_error-both, Result, ok, raise}
use bifrost_platform_plugin.Config.{Entry, postgres_ready, Golden, get_purpose_entries}
use bifrost_platform_plugin.Flex.Rows.{Row, Value}
use bifrost_platform_plugin.Flex.Request.{is_given}
use bifrost_platform_plugin.Ingest.{Ask, texts, allows_fallback}
use bifrost_platform_plugin.Ingest.Fallback.{Fetched, fetch_trades_with_date_fallback}
use bifrost_platform_plugin.Ingest.Handlers.{told, errors_of, is_false}
use bifrost_platform_plugin.Ingest.Handlers.Recorded.{require_ok-quiet}
use bifrost_platform_plugin.Ingest.Handlers.Kinds.{handle_flex_trades}
use bifrost_platform_plugin.Ingest.Trades.{
  Range, range_of, run_entries, Gathered, gather, note, Stats,
}
use bifrost_platform_plugin.Ingest.Trades.Report.{
  Run, finish, store, after_write, after_stats, failed_run, fetch_failed,
}
use bifrost_platform_plugin.Ingest.Trades.Run.{
  Around, no_postgres, requested, with_entries, with_golden,
  fetch_flex_trades_and_upsert_executions,
}

-- Every entry was answered with rows of its own, and `all` is all of them, in the order of the entries.
abbrev pub Answered :
    {F : Type 0}
    → (Entry → List Ask → Ask → Result (List (Row F)))
    → Range
    → Bool
    → List Entry
    → List (Row F)
    → Type 0
Answered fetch range allow_fallback [] all = all ≡ []
Answered {F} fetch range allow_fallback (e ∷ es) all =
    (got : Fetched (Row F)) × (rest : List (Row F)) × ((fetch_trades_with_date_fallback (fetch e)
        range.from_date range.to_date allow_fallback).0
      ≡ ok got)
    × (all ≡ got.rows ++ rest)
    × Answered fetch range allow_fallback es rest

-- A text that begins with a letter.
abbrev Begins : Text → Type 0
Begins s = (rest : Text) × (s ≡ 70 ∷ rest)

module _ {F : Type 0} (isoformat : ℕ → Text) (day_of_number : Value F → Option ℕ)
    (fetch : Entry → List Ask → Ask → Result (List (Row F))) (range : Range)
    (allow_fallback : Bool) where
  -- What a gathered result says of the entries.
  abbrev Tells : List Entry → Result (Gathered F) → Type 0
  Tells es (raise e) = Unit
  Tells es (ok got) =
      All Begins got.errors
      × (got.errors ≡ [] → Answered fetch range allow_fallback es got.all_rows)

  note-Tells :
      (i n : ℕ) (e : Entry) (es : List Entry) (first : Result (Fetched (Row F)))
      (rest : Result (Gathered F))
      → (fetch_trades_with_date_fallback (fetch e) range.from_date range.to_date allow_fallback).0
        ≡ first
      → Tells es rest
      → Tells (e ∷ es) (note isoformat day_of_number i n e first rest)
  note-Tells i n e es (ok got) (raise x) h k = tt
  note-Tells i n e es (ok got) (ok others) h k =
      (k.0, λ quiet. (got, others.all_rows, h, refl, k.1 quiet))
  note-Tells i n e es (raise x) (raise y) h k =
      on_value_error-both (Tells (e ∷ es)) x _ (raise x) (λ m eq. tt) tt
  note-Tells i n e es (raise x) (ok others) h k =
      on_value_error-both (Tells (e ∷ es)) x _ (raise x) (λ m eq. (((_, refl), k.0), λ loud. cc)) tt

  gather-Tells :
      (i n : ℕ) (es : List Entry)
      → Tells es (gather isoformat day_of_number fetch range allow_fallback i n es)
  unfolding gather
  gather-Tells i n [] = (tt, λ h. refl)
  gather-Tells i n (e ∷ es) =
      note-Tells i n e es _ (gather isoformat day_of_number fetch range allow_fallback (suc i) n es)
        refl (gather-Tells (suc i) n es)

cons_if :
    {X : Type 0} (b : Bool) (x : Text) (xs ys : List Text)
    → b ≡ true
    → (if b then x ∷ xs else ys) ≡ []
    → X
cons_if true x xs ys h k = cc
cons_if false x xs ys h k = cc

told-Begins :
    (str_of : Json → Text) (errors : List Text)
    → ((s : Text) → str_of (str s) ≡ s)
    → All Begins errors
    → told str_of (texts errors) ≡ []
    → errors ≡ []
unfolding told
told-Begins str_of [] shows h quiet = refl
told-Begins str_of (e ∷ errors) shows h quiet =
    cons_if (is_given (strip (str_of (str e)))) (str_of (str e)) _ _
      (ap (λ s. is_given (strip s)) (shows e ∙ h.0.1) ∙ ap is_given (strip-cons 70 h.0.0 refl))
      quiet

true≢false : {X : Type 0} → true ≡ false → X
true≢false h = cc

module _ {F : Type 0} (str_of : Json → Text) (shows : (s : Text) → str_of (str s) ≡ s) where
  -- The rows were stored, if there were any.
  abbrev pub Stored : (List (Row F) → Result Bool) → List (Row F) → Type 0
  Stored write rows = (rows ≡ []) ⊎ (write rows ≡ ok true)

  -- What a handler takes for a success.
  abbrev Accepts : Run F → Type 0
  Accepts run =
      (is_false (get run.result "ok") ≡ false) × (errors_of str_of (get run.result "errors") ≡ [])

  module _ (isoformat : ℕ → Text) (day_of_number : Value F → Option ℕ)
      (write : List (Row F) → Result Bool) (stats_after : Result Stats) (range : Range)
      (entries : List Entry) where
    after_stats-Accepts :
        (got : Gathered F) (from to : Option Text) (read : Result Stats)
        → Accepts (after_stats isoformat write stats_after range entries got from to read)
        → told str_of (texts got.errors) ≡ []
    unfolding get
    after_stats-Accepts got from to (raise e) h = true≢false h.0
    after_stats-Accepts got from to (ok after) h = h.1

    after_write-Accepts :
        (got : Gathered F) (from to : Option Text) (wrote : Result Bool)
        → Accepts (after_write isoformat write stats_after range entries got from to wrote)
        → (wrote ≡ ok true) × (told str_of (texts got.errors) ≡ [])
    unfolding get
    after_write-Accepts got from to (raise e) h = true≢false h.0
    after_write-Accepts got from to (ok false) h = true≢false h.0
    after_write-Accepts got from to (ok true) h =
        (refl, after_stats-Accepts got from to stats_after h)

    store-Accepts :
        (got : Gathered F) (errors : List Text) (rows : List (Row F))
        → got.errors ≡ errors
        → got.all_rows ≡ rows
        → All Begins errors
        → Accepts (store isoformat write stats_after range entries got errors rows)
        → (errors ≡ []) × Stored write got.all_rows
    unfolding get
    store-Accepts got [] [] he hr b h = (refl, inl hr)
    store-Accepts got (e ∷ errors) [] he hr b h = true≢false h.0
    store-Accepts got errors (r ∷ rows) he hr b h =
        let (wrote, quiet) = after_write-Accepts got _ _ (write got.all_rows) h in
        (
          told-Begins str_of errors shows b (subst (λ es. told str_of (texts es) ≡ []) he quiet),
          inr wrote,
        )

    -- A result that a handler accepts comes from queries that were all answered.
    finish-Accepts :
        (allow_fallback : Bool) (fetch : Entry → List Ask → Ask → Result (List (Row F)))
        (es : List Entry) (r : Result (Gathered F))
        → Tells isoformat day_of_number fetch range allow_fallback es r
        → Accepts (finish isoformat write stats_after range entries r)
        → (all : List (Row F)) × Answered fetch range allow_fallback es all × Stored write all
    unfolding finish get
    finish-Accepts allow_fallback fetch es (raise e) tells h = true≢false h.0
    finish-Accepts allow_fallback fetch es (ok got) tells h =
        let (quiet, stored) = store-Accepts got got.errors got.all_rows refl refl tells.0 h in
        (got.all_rows, tells.1 quiet, stored)

  -- The entries and the range of a run, and that its queries were all answered and its rows stored.
  abbrev pub Done : Around F → Dict → Type 0
  Done around payload =
      (golden : Golden) × (range : Range) × (all : List (Row F)) × (around.golden ≡ ok golden)
      × (range_of around.yyyymmdd around.today around.stats around.days payload ≡ ok range)
      × Answered around.fetch range (allows_fallback payload)
          (run_entries (get_purpose_entries around.environment golden (codes "trades"))) all
      × Stored around.write all

  module _ (around : Around F) (payload : Dict) where
    requested-Accepts :
        (entries : List Entry) (range : Result Range)
        → Accepts (requested around payload entries range)
        → (found : Range) × (all : List (Row F)) × (range ≡ ok found)
          × Answered around.fetch found (allows_fallback payload) entries all
          × Stored around.write all
    unfolding get
    requested-Accepts entries (raise e) h = true≢false h.0
    requested-Accepts entries (ok range) h =
        let (all, answered, stored) =
          finish-Accepts around.isoformat around.day_of_number around.write around.stats_after range
            entries (allows_fallback payload) around.fetch entries _
            (gather-Tells around.isoformat around.day_of_number around.fetch range
              (allows_fallback payload) 1 (length entries) entries)
            h in
        (range, all, refl, answered, stored)

    with_entries-Accepts :
        (entries : List Entry)
        → Accepts (with_entries around payload entries)
        → (found : Range) × (all : List (Row F)) × (range_of around.yyyymmdd around.today
              around.stats around.days payload
            ≡ ok found)
          × Answered around.fetch found (allows_fallback payload) entries all
          × Stored around.write all
    unfolding get
    with_entries-Accepts [] h = true≢false h.0
    with_entries-Accepts (e ∷ es) h =
        requested-Accepts (e ∷ es)
          (range_of around.yyyymmdd around.today around.stats around.days payload) h

    with_golden-Accepts :
        (golden : Result Golden)
        → around.golden ≡ golden
        → Accepts (with_golden around payload golden)
        → Done around payload
    unfolding get
    with_golden-Accepts (raise e) at h = true≢false h.0
    with_golden-Accepts (ok golden) at h =
        let (range, all, found, answered, stored) =
          with_entries-Accepts
            (run_entries (get_purpose_entries around.environment golden (codes "trades"))) h in
        (golden, range, all, at, found, answered, stored)

    run-Accepts :
        (ready : Bool)
        → Accepts (
            if ready
            then with_golden around payload around.golden
            else failed_run fetch_failed no_postgres (codes "no control_via_db"))
        → Done around payload
    unfolding get
    run-Accepts true h = with_golden-Accepts around.golden refl h
    run-Accepts false h = true≢false h.0

    -- If the handler of trades returns, then every query of the run was answered, with the rows of the last
    -- request that was sent for it, and all these rows together were stored, unless there were none.
    pub handle_flex_trades-Done :
        (config : Dict) (out : Dict)
        → handle_flex_trades str_of around config payload ≡ ok out
        → Done around payload
    unfolding handle_flex_trades fetch_flex_trades_and_upsert_executions
    handle_flex_trades-Done config out h = run-Accepts (postgres_ready config) (
        require_ok-quiet str_of
          (fetch_flex_trades_and_upsert_executions around config payload).result
          (codes "flex-trades") out h)

-- ===== src/Ingest/Handlers/Recorded.antt =====
-- worker/handlers.py: what a dispatched job leaves behind.
use bifrost_platform_plugin.Common.{
  ℕ, ◌≡◌, refl, sym, ap, subst, Bool, true, false, Option, none, some, List, [], ◌∷◌, if◌then◌else◌,
}
use bifrost_platform_plugin.Common.Text.{Text, strip}
use bifrost_platform_plugin.Common.Json.{Json, Dict, get}
use bifrost_platform_plugin.Common.Result.{Exception, Result, ok, raise}
use bifrost_platform_plugin.Schema.{FreshnessRow, FreshnessTable, lookup}
use bifrost_platform_plugin.Schema.Freshness.{record_freshness-success}
use bifrost_platform_plugin.Ingest.Handlers.{
  Handlers, Connection, handler_of, dispatch, run_handler, finished, handled_by, recorded_as,
  require_ok, errors_of, is_false, all_landed,
}

quiet :
    (str_of : Json → Text) (failing : Bool) (e : Exception) (found : Dict) (label : Text)
    (errors : List Text) (out : Dict)
    → (if failing then raise e else all_landed str_of found label errors) ≡ ok out
    → (failing ≡ false) × (errors ≡ [])
quiet str_of true e found label errors out h = cc
quiet str_of false e found label [] out h = (refl, refl)
quiet str_of false e found label (x ∷ errors) out h = cc

-- A run did not fail, and no error of it is left out.
pub require_ok-quiet :
    (str_of : Json → Text) (result : Dict) (label : Text) (out : Dict)
    → require_ok str_of result label ≡ ok out
    → (is_false (get result "ok") ≡ false) × (errors_of str_of (get result "errors") ≡ [])
unfolding require_ok
require_ok-quiet str_of result label out h =
    quiet str_of (is_false (get result "ok")) _ result label
      (errors_of str_of (get result "errors")) out h

-- The row of a kind after a job: of a success, at some time.
abbrev pub IsFresh : FreshnessTable → Text → Option ℕ → Type 0
IsFresh table kind job_id =
    (row : FreshnessRow) × (lookup table kind ≡ some row)
    × (row.last_ok ≡ true)
    × (row.last_error ≡ none)
    × (row.last_job_id ≡ job_id)

recorded_as-IsFresh :
    (kind : Text) (new_rows job_id : Option ℕ) (before : Dict) (at : Result ℕ)
    (table after : FreshnessTable) (out : Dict)
    → recorded_as kind new_rows job_id before at table ≡ (ok out, after)
    → IsFresh after kind job_id
recorded_as-IsFresh kind new_rows job_id before (raise e) table after out h = cc
recorded_as-IsFresh kind new_rows job_id before (ok now) table after out h =
    subst (λ t. IsFresh t kind job_id) (ap (λ p. p.1) h)
      (_, record_freshness-success now kind _ new_rows none job_id table, refl, refl, refl)

recorded_as-raise :
    (kind : Text) (new_rows job_id : Option ℕ) (before : Dict) (at : Result ℕ)
    (table after : FreshnessTable) (e : Exception)
    → recorded_as kind new_rows job_id before at table ≡ (raise e, after)
    → after ≡ table
recorded_as-raise kind new_rows job_id before (raise x) table after e h = ap (λ p. p.1) (sym h)
recorded_as-raise kind new_rows job_id before (ok now) table after e h = cc

finished-IsFresh :
    (conn : Connection) (kind : Text) (job_id : Option ℕ) (got : Result Dict)
    (table after : FreshnessTable) (out : Dict)
    → finished conn kind job_id got table ≡ (ok out, after)
    → IsFresh after kind job_id × ((before : Dict) × (got ≡ ok before))
finished-IsFresh conn kind job_id (raise e) table after out h = cc
finished-IsFresh conn kind job_id (ok before) table after out h =
    (recorded_as-IsFresh kind _ job_id before conn.recorded table after out h, (before, refl))

finished-raise :
    (conn : Connection) (kind : Text) (job_id : Option ℕ) (got : Result Dict)
    (table after : FreshnessTable) (e : Exception)
    → finished conn kind job_id got table ≡ (raise e, after)
    → after ≡ table
finished-raise conn kind job_id (raise x) table after e h = ap (λ p. p.1) (sym h)
finished-raise conn kind job_id (ok before) table after e h =
    recorded_as-raise kind _ job_id before conn.recorded table after e h

-- A handler of the kind ran, and returned.
abbrev pub Ran : Handlers → Text → Dict → Type 0
Ran handlers kind payload =
    (fn : Dict → Result Dict) × (handler_of handlers kind ≡ some fn)
    × ((before : Dict) × (fn payload ≡ ok before))

run_handler-IsFresh :
    (conn : Connection) (kind : Text) (job_id : Option ℕ) (payload : Dict)
    (failure : Option Exception) (fn : Dict → Result Dict) (table after : FreshnessTable)
    (out : Dict)
    → run_handler conn kind job_id payload failure fn table ≡ (ok out, after)
    → IsFresh after kind job_id × ((before : Dict) × (fn payload ≡ ok before))
run_handler-IsFresh conn kind job_id payload (some e) fn table after out h = cc
run_handler-IsFresh conn kind job_id payload none fn table after out h =
    finished-IsFresh conn kind job_id (fn payload) table after out h

run_handler-raise :
    (conn : Connection) (kind : Text) (job_id : Option ℕ) (payload : Dict)
    (failure : Option Exception) (fn : Dict → Result Dict) (table after : FreshnessTable)
    (e : Exception)
    → run_handler conn kind job_id payload failure fn table ≡ (raise e, after)
    → after ≡ table
run_handler-raise conn kind job_id payload (some x) fn table after e h = ap (λ p. p.1) (sym h)
run_handler-raise conn kind job_id payload none fn table after e h =
    finished-raise conn kind job_id (fn payload) table after e h

module _ (repr_of : Text → Text) (handlers : Handlers) (conn : Connection) (kind : Text)
    (payload : Dict) (job_id : Option ℕ) (table after : FreshnessTable) where
  handled_by-IsFresh :
      (fn : Option (Dict → Result Dict)) (out : Dict)
      → handler_of handlers (strip kind) ≡ fn
      → handled_by repr_of conn kind job_id payload fn table ≡ (ok out, after)
      → IsFresh after (strip kind) job_id × Ran handlers (strip kind) payload
  handled_by-IsFresh none out found h = cc
  handled_by-IsFresh (some fn) out found h =
      let (fresh, before) =
        run_handler-IsFresh conn (strip kind) job_id payload conn.opened fn table after out h in
      (fresh, (fn, found, before))

  handled_by-raise :
      (fn : Option (Dict → Result Dict)) (e : Exception)
      → handled_by repr_of conn kind job_id payload fn table ≡ (raise e, after)
      → after ≡ table
  handled_by-raise none e h = ap (λ p. p.1) (sym h)
  handled_by-raise (some fn) e h =
      run_handler-raise conn (strip kind) job_id payload conn.opened fn table after e h

  -- If dispatch returns, then the handler of the kind returned, and the freshness row of the kind tells of a
  -- success of this job.
  pub dispatch-IsFresh :
      (out : Dict)
      → dispatch repr_of handlers conn kind payload job_id table ≡ (ok out, after)
      → IsFresh after (strip kind) job_id × Ran handlers (strip kind) payload
  unfolding dispatch
  dispatch-IsFresh out h = handled_by-IsFresh (handler_of handlers (strip kind)) out refl h

  -- If dispatch raises, then the freshness table is as it was.
  dispatch-raise :
      (e : Exception)
      → dispatch repr_of handlers conn kind payload job_id table ≡ (raise e, after)
      → after ≡ table
  unfolding dispatch
  dispatch-raise e h = handled_by-raise (handler_of handlers (strip kind)) e h

-- ===== src/Schema/History.antt =====
-- schema/ddl.py: the freshness row of a kind after many attempts of several kinds.
use bifrost_platform_plugin.Common.{
  ℕ, ◌≡◌, refl, sym, ◌∙◌, ap, Bool, true, false, Option, some, List, [], ◌∷◌, if◌then◌else◌,
  Bool-cases, inl, inr,
}
use bifrost_platform_plugin.Common.Text.{Text, text_eq, text_eq_iff}
use bifrost_platform_plugin.Schema.{FreshnessTable, lookup, record_freshness}
use bifrost_platform_plugin.Schema.Freshness.{
  last_success, record_freshness-failure, record_freshness-success, record_freshness-other,
}

-- The arguments of one call of record_ingest_outcome.
pub record Attempt : Type 0 where
  pub at : ℕ
  pub kind : Text
  pub ok : Bool
  pub processed : ℕ
  pub new_rows : Option ℕ
  pub error : Option Text
  pub job_id : Option ℕ

abbrev pub recorded : Attempt → FreshnessTable → FreshnessTable
recorded a table = record_freshness a.at a.kind a.ok a.processed a.new_rows a.error a.job_id table

unfoldable pub record_all : List Attempt → FreshnessTable → FreshnessTable
record_all [] table = table
record_all (a ∷ attempts) table = record_all attempts (recorded a table)

abbrev pub Success : Type 0
Success = Option ℕ × Option ℕ × Option ℕ × Option ℕ

-- The last of the attempts that is a success of the kind, as its time and its counts.
unfoldable pub newest_success : Text → List Attempt → Success → Success
newest_success kind [] known = known
newest_success kind (a ∷ attempts) known = newest_success kind attempts (
    if text_eq a.kind kind
    then if a.ok then (some a.at, some a.processed, some a.processed, a.new_rows) else known
    else known)

-- What one attempt makes of the last success that is known.
abbrev after_attempt : Text → Attempt → Success → Success
after_attempt kind a known =
    if text_eq a.kind kind
    then if a.ok then (some a.at, some a.processed, some a.processed, a.new_rows) else known
    else known

own-last_success :
    (ok : Bool) (a : Attempt) (table : FreshnessTable)
    → last_success (lookup (recorded (record a { ok = ok }) table) a.kind) ≡ (
        if ok
        then (some a.at, some a.processed, some a.processed, a.new_rows)
        else last_success (lookup table a.kind))
own-last_success true a table =
    ap last_success
      (record_freshness-success a.at a.kind a.processed a.new_rows a.error a.job_id table)
own-last_success false a table =
    (record_freshness-failure a.at a.kind a.processed a.new_rows a.error a.job_id table).0

recorded-last_success :
    (kind : Text) (a : Attempt) (table : FreshnessTable)
    → last_success (lookup (recorded a table) kind)
      ≡ after_attempt kind a (last_success (lookup table kind))
recorded-last_success kind a table = elim (Bool-cases (text_eq a.kind kind)) [
  | inl same ↦ rw (same, sym ((text_eq_iff a.kind kind).0 same)) (own-last_success a.ok a table)
  | inr other ↦
      rw
        (
          other,
          record_freshness-other a.at a.kind a.processed a.new_rows a.error a.job_id table a.ok kind
              other,
        )
        refl
]

-- After any sequence of attempts of any kinds, successful and failed, the row of a kind shows the
-- time and the counts of the last successful attempt of that kind, or what it showed before them if
-- none of them is one.
pub record_all-last_success :
    (kind : Text) (attempts : List Attempt) (table : FreshnessTable)
    → last_success (lookup (record_all attempts table) kind)
      ≡ newest_success kind attempts (last_success (lookup table kind))
unfolding record_all newest_success
record_all-last_success kind [] table = refl
record_all-last_success kind (a ∷ attempts) table =
    record_all-last_success kind attempts (recorded a table)
    ∙ ap (newest_success kind attempts) (recorded-last_success kind a table)

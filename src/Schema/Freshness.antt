-- ===== src/Schema/Freshness.antt =====
-- schema/ddl.py: what the freshness row of a kind tells after an attempt.
use bifrost_platform_plugin.Common.{
  ℕ, ◌≡◌, refl, Bool, true, false, Option, none, some, [], ◌∷◌, arith, if◌then◌else◌, Option-cases,
  inl, inr,
}
use bifrost_platform_plugin.Common.Text.{Text, text_eq, text_eq_iff}
use bifrost_platform_plugin.Schema.{
  FreshnessRow, FreshnessTable, lookup, upsert, record_freshness, success_row, short_error,
}

abbrev or_new : FreshnessRow → (FreshnessRow → FreshnessRow) → Option FreshnessRow → FreshnessRow
or_new row merge none = row
or_new row merge (some old) = merge old

lookup-upsert :
    (d e : Text) (row : FreshnessRow) (merge : FreshnessRow → FreshnessRow) (table : FreshnessTable)
    → lookup (upsert d row merge table) e
      ≡ (if text_eq d e then some (or_new row merge (lookup table d)) else lookup table e)
unfolding lookup upsert
lookup-upsert d e row merge [] = refl
lookup-upsert d e row merge ((i, old) ∷ table) =
    ground
      (arith, text_eq_iff d e, text_eq_iff i d, text_eq_iff i e, lookup-upsert d e row merge table)

lookup-upsert_self :
    (d : Text) (row : FreshnessRow) (merge : FreshnessRow → FreshnessRow) (table : FreshnessTable)
    → lookup (upsert d row merge table) d ≡ some (or_new row merge (lookup table d))
lookup-upsert_self d row merge table =
    rw (lookup-upsert d d row merge table, (text_eq_iff d d).1 refl) refl

-- The parts of a row that tell of the last success.
abbrev pub last_success : Option FreshnessRow → Option ℕ × Option ℕ × Option ℕ × Option ℕ
last_success none = (none, none, none, none)
last_success (some r) = (r.latest_ts, r.row_count, r.processed_rows, r.new_rows)

module _ (now : ℕ) (dimension : Text) (processed : ℕ) (new_rows : Option ℕ) (error : Option Text)
    (job_id : Option ℕ) (table : FreshnessTable) where
  -- A failed attempt leaves the time and the counts of the last success as they were, those of a
  -- kind that never succeeded empty, and marks the row as not ok with the error.
  pub record_freshness-failure :
      (last_success (
          lookup
            (record_freshness now dimension false processed new_rows error job_id table)
            dimension)
        ≡ last_success (lookup table dimension))
      × ((r : FreshnessRow) × (lookup
              (record_freshness now dimension false processed new_rows error job_id table)
              dimension
            ≡ some r)
          × (r.last_ok ≡ false)
          × (r.last_error ≡ short_error error))
  unfolding record_freshness
  record_freshness-failure = rw lookup-upsert_self (elim (Option-cases (lookup table dimension)) [
    | inl new ↦ rw new (refl, (_, refl, refl, refl))
    | inr (old, there) ↦ rw there (refl, (_, refl, refl, refl))
  ])

  -- A successful run sets the time, the counts and the job, and clears the error.
  pub record_freshness-success :
      lookup (record_freshness now dimension true processed new_rows error job_id table) dimension
      ≡ some (success_row now processed new_rows job_id)
  unfolding record_freshness
  record_freshness-success = rw lookup-upsert_self (elim (Option-cases (lookup table dimension)) [
    | inl new ↦ rw new refl
    | inr (old, there) ↦ rw there refl
  ])

  -- After any attempt the row tells of it: how it ended, its error, its job and its time.
  pub record_freshness-tells :
      (ok : Bool)
      → (r : FreshnessRow) × (lookup
            (record_freshness now dimension ok processed new_rows error job_id table)
            dimension
          ≡ some r)
        × (r.last_ok ≡ ok)
        × (r.last_error ≡ (if ok then none else short_error error))
        × (r.last_job_id ≡ job_id)
        × (r.last_finished_at ≡ now)
  unfolding record_freshness
  record_freshness-tells true = (_, record_freshness-success, refl, refl, refl, refl)
  record_freshness-tells false =
      rw lookup-upsert_self (elim (Option-cases (lookup table dimension)) [
        | inl new ↦ rw new (_, refl, refl, refl, refl, refl)
        | inr (old, there) ↦ rw there (_, refl, refl, refl, refl, refl)
      ])

  -- An attempt of one kind does not touch the row of another.
  pub record_freshness-other :
      (ok : Bool) (other : Text)
      → text_eq dimension other ≡ false
      → lookup (record_freshness now dimension ok processed new_rows error job_id table) other
        ≡ lookup table other
  unfolding record_freshness
  record_freshness-other true other h = simp lookup-upsert (rw h refl)
  record_freshness-other false other h = simp lookup-upsert (rw h refl)

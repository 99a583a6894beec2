-- ===== src/Schema.antt =====
-- schema/ddl.py: the tables flex_ingest_freshness and flex_settings.
pub mod Freshness
pub mod History
mod Tests
use bifrost_platform_plugin.Common.{
  ℕ, zero, suc, ◌+◌, Bool, true, false, Option, none, some, List, [], ◌∷◌, if◌then◌else◌, take,
}
use bifrost_platform_plugin.Common.Int.{ℤ, floor_at}
use bifrost_platform_plugin.Common.Text.{Text, codes, text_eq}

-- A row of flex_ingest_freshness.
pub record FreshnessRow : Type 0 where
  pub latest_ts : Option ℕ
  pub row_count : Option ℕ
  pub updated_at : ℕ
  pub last_ok : Bool
  pub last_error : Option Text
  pub processed_rows : Option ℕ
  pub new_rows : Option ℕ
  pub last_job_id : Option ℕ
  pub last_finished_at : ℕ

-- The table by its primary key, the dimension.
abbrev pub FreshnessTable : Type 0
FreshnessTable = List (Text × FreshnessRow)

unfoldable pub lookup : FreshnessTable → Text → Option FreshnessRow
lookup [] d = none
lookup ((e, row) ∷ table) d = if text_eq e d then some row else lookup table d

-- INSERT … ON CONFLICT (dimension) DO UPDATE: `merge` makes the new row of the old one.
unfoldable pub upsert :
    Text → FreshnessRow → (FreshnessRow → FreshnessRow) → FreshnessTable → FreshnessTable
upsert d row merge [] = (d, row) ∷ []
upsert d row merge ((e, old) ∷ table) =
    let rest = upsert d row merge table in
    if text_eq e d then (e, merge old) ∷ table else (e, old) ∷ rest

-- (error or "")[:2000] or None
abbrev pub short_error : Option Text → Option Text
short_error none = none
short_error (some []) = none
short_error (some (c ∷ s)) = some (take 2000 (c ∷ s))

abbrev pub success_row : ℕ → ℕ → Option ℕ → Option ℕ → FreshnessRow
success_row now processed new_rows job_id = record {
  latest_ts = some now;
  row_count = some processed;
  updated_at = now;
  last_ok = true;
  last_error = none;
  processed_rows = some processed;
  new_rows = new_rows;
  last_job_id = job_id;
  last_finished_at = now;
}

abbrev pub failure_row : ℕ → Option Text → Option ℕ → FreshnessRow
failure_row now error job_id = record {
  latest_ts = none;
  row_count = none;
  updated_at = now;
  last_ok = false;
  last_error = error;
  processed_rows = none;
  new_rows = none;
  last_job_id = job_id;
  last_finished_at = now;
}

-- The UPDATE branch of a failure names five columns and leaves the others.
abbrev pub note_failure : ℕ → Option Text → Option ℕ → FreshnessRow → FreshnessRow
note_failure now error job_id old = record old {
  updated_at = now;
  last_ok = false;
  last_error = error;
  last_job_id = job_id;
  last_finished_at = now;
}

unfoldable pub record_freshness :
    ℕ → Text → Bool → ℕ → Option ℕ → Option Text → Option ℕ → FreshnessTable → FreshnessTable
unfolding upsert
record_freshness now dimension true processed new_rows error job_id table =
    let row = success_row now processed new_rows job_id in upsert dimension row (λ old. row) table
record_freshness now dimension false processed new_rows error job_id table =
    upsert dimension (failure_row now (short_error error) job_id)
      (note_failure now (short_error error) job_id) table

-- The row of flex_settings as it is read: each column may be null.
abbrev pub SettingsRow : Type 0
SettingsRow = Option ℤ × Option ℤ

unfoldable pub read_flex_settings : Option SettingsRow → Option (ℕ × ℕ)
read_flex_settings none = none
read_flex_settings (some (none, init)) = none
read_flex_settings (some (some default, none)) = none
read_flex_settings (some (some default, some init)) = some (floor_at 1 default, floor_at 1 init)

-- ===== src/Schema/Tests.antt =====
-- schema/ddl.py: attempts of two kinds of ingest.
use bifrost_platform_plugin.Common.{◌≡◌, true, false, none, some, List, [], ◌∷◌}
use bifrost_platform_plugin.Common.Text.{codes}
use bifrost_platform_plugin.Schema.{FreshnessTable, lookup, record_freshness}
use bifrost_platform_plugin.Schema.Freshness.{last_success}
use bifrost_platform_plugin.Schema.History.{
  Attempt, record_all, newest_success, record_all-last_success,
}

abbrev filled : FreshnessTable
filled = record_freshness 5 (codes "flex-trades") true 10 (some 3) none (some 1) []

abbrev attempts : List Attempt
attempts =
    (record {
      at = 9;
      kind = codes "flex-transactions";
      ok = true;
      processed = 4;
      new_rows = some 4;
      error = none;
      job_id = some 2;
    })
    ∷ (record {
      at = 12;
      kind = codes "flex-trades";
      ok = false;
      processed = 0;
      new_rows = none;
      error = some (codes "timeout");
      job_id = some 3;
    })
    ∷ []

record_all-last_success_example :
    last_success (lookup (record_all attempts filled) (codes "flex-trades"))
    ≡ newest_success
        (codes "flex-trades")
        attempts
        (last_success (lookup filled (codes "flex-trades")))
record_all-last_success_example = record_all-last_success (codes "flex-trades") attempts filled

-- ===== src/Api/Tests.antt =====
-- Calls of the routes on small tables.
use bifrost_platform_plugin.Common.{
  ℕ, String, ◌≡◌, refl, true, false, Option, none, some, [], ◌∷◌, ◌++◌, arith, All,
}
use bifrost_platform_plugin.Common.Int.{pos}
use bifrost_platform_plugin.Common.Text.{Text, codes, strip, text_eq}
use bifrost_platform_plugin.Common.Json.{
  Json, str, num, bool, arr, obj, nil, cons, Dict, empty, entry, get, merge, int_of,
}
use bifrost_platform_plugin.Common.Result.{ok}
use bifrost_platform_plugin.Queue.{Job, Queue}
use bifrost_platform_plugin.Queue.Enqueue.{proposed}
use bifrost_platform_plugin.Queue.Invariant.{IsSound}
use bifrost_platform_plugin.Cron.{Clock}
use bifrost_platform_plugin.Config.{Golden, Environment}
use bifrost_platform_plugin.Config.Days.{a_row}
use bifrost_platform_plugin.Ops.{assess_kind}
use bifrost_platform_plugin.Ops.Checks.{SelfCheck}
use bifrost_platform_plugin.Ops.Input.{KindInput}
use bifrost_platform_plugin.Ops.Collect.{Reads, collect_check_input}
use bifrost_platform_plugin.Worker.{truthy}
use bifrost_platform_plugin.Schema.{lookup}
use bifrost_platform_plugin.Api.Settings.{
  body_or_empty, mask_token_last4, config_summary, write_flex_config_endpoint,
}
use bifrost_platform_plugin.Api.Stored.{Stored, write_flex_config_endpoint-Stored}
use bifrost_platform_plugin.Api.Masked.{config_summary-masked}
use bifrost_platform_plugin.Api.Jobs.{run_job_now}
use bifrost_platform_plugin.Api.RunNow.{RunsNow, run_job_now-RunsNow}
use bifrost_platform_plugin.Api.Offered.{offers_run}
use bifrost_platform_plugin.Api.Checked.{Runs, collect_check_input-Runs}
use bifrost_platform_plugin.Api.Manual.{Trail, Database}
use bifrost_platform_plugin.Api.Manual.Routes.{
  Fetches, run_of, kind_of, trigger_payload, trigger_flex_fetch,
}
use bifrost_platform_plugin.Api.Manual.Audited.{IsUp, Audited, count_in, trigger_flex_fetch-Audited}

abbrev print : Json → Text
print v = []

abbrev before : Golden
before = record { settings = some (some (pos 30), some (pos 360)); queries = [] }

abbrev config : Dict
config = entry "sink" (str (codes "postgres")) empty

abbrev long_env : Environment
long_env = record { flex_host_token = some (codes "12345678"); flex_secondary_token = none }

abbrev other_env : Environment
other_env = record { flex_host_token = some (codes "0005678 "); flex_secondary_token = none }

abbrev body : Dict
body =
    entry "accounts" (arr (cons (obj (entry "query_host_id" (str (codes " 7 ")) empty)) nil))
      (entry "flex_default_range_days" (num (pos 45)) empty)

write_flex_config_endpoint-Stored_example :
    Stored long_env before
      (some body)
      (write_flex_config_endpoint print none config (some body) before)
write_flex_config_endpoint-Stored_example =
    write_flex_config_endpoint-Stored long_env before print none config (some body) (a_row 29 359)

config_summary-masked_example :
    config_summary long_env (none, none) none none before
    ≡ config_summary other_env (none, none) none none before
unfolding mask_token_last4 strip
config_summary-masked_example =
    config_summary-masked long_env other_env (none, none) none none before refl refl

-- A job that waits, and was not throttled.
abbrev waiting : Job
waiting = record (proposed 1 5 (codes "flex-trades") empty (some (codes "a")) (pos 0) 3) {
  error_category = some (codes "not_ready");
  not_before = some 2000;
}

abbrev one : Queue
one = record { next_id = 2; rows = waiting ∷ [] }

one-IsSound : IsSound one
one-IsSound = record { each = (ground arith, tt); apart = (tt, tt) }

abbrev clock_text : ℕ → Text
clock_text t = []

run_job_now-RunsNow_example :
    RunsNow clock_text clock_text 1000 1 false one one
      (run_job_now clock_text clock_text 1000 1 false one one)
run_job_now-RunsNow_example = run_job_now-RunsNow clock_text clock_text 1000 1 false one one

abbrev up : Database
up = record {
  create = none;
  mark = false;
  record_row = false;
  created_at = 1;
  marked_at = 2;
  recorded_at = 3;
}

abbrev found : Dict
found = entry "ok" (bool true) (entry "count" (num (pos 4)) empty)

abbrev fetches : Fetches
fetches = record { trades = λ d. found; transactions = λ d. found; upload = λ s. found }

abbrev quoted : Text → Text
quoted s = codes "'" ++ (s ++ codes "'")

abbrev idle : Trail
idle = record { queue = one; freshness = [] }

all_up : IsUp up
all_up = record { creates = refl; marks = refl; records = refl }

trades_known :
    run_of fetches (kind_of print (body_or_empty none)) ≡ some (codes "flex-trades", fetches.trades)
unfolding text_eq get strip
trades_known = refl

four_counted : count_in print found ≡ ok (pos 4)
unfolding truthy get int_of
four_counted = refl

trigger_flex_fetch-Audited_example :
    Audited print up all_up
      (codes "flex-trades")
      found
      (pos 4)
      four_counted
      (merge (entry "source" (str (codes "trigger")) empty) (trigger_payload none))
      (λ t. t)
      idle
      (trigger_flex_fetch print up (λ t. t) quoted fetches none idle)
trigger_flex_fetch-Audited_example =
    trigger_flex_fetch-Audited print up (λ t. t) quoted fetches none idle (codes "flex-trades")
      fetches.trades (pos 4) all_up trades_known four_counted

abbrev midnight : ℕ → Clock
midnight t = record { minute = 0; hour = 0; weekday = 0 }

abbrev around : Reads
around = record {
  now = 1000;
  db_now = 1000;
  queue = one;
  freshness = [];
  heartbeat = none;
  environment = long_env;
  issued = (none, none);
  data_latest = [];
  coverage = ok ([], []);
  class_name = [];
  disabled = none;
  poll_interval_sec = 5;
  scheduler_cfg = empty;
}

abbrev no_kind : String → Option Job → KindInput
no_kind kind job = record {
  kind = codes kind;
  job = job;
  freshness = none;
  planned_last = none;
  planned_next = none;
  kind_max_attempts = 8;
}

abbrev checked : SelfCheck
checked = record {
  base = record {
    now = 1000;
    grace_sec = 2700;
    cooldown_until = none;
    catchup_enabled = true;
    worker_poll_sec = 5;
  };
  kinds = no_kind "flex-trades" (some waiting) ∷ no_kind "flex-transactions" none ∷ [];
  heartbeat = none;
  tokens = record { host = true; secondary = false; issued_at = none; age_days = none };
  data_latest = [];
  coverage = some ([], []);
  coverage_error = none;
}

checked_lem : collect_check_input midnight around ≡ ok checked
unfolding collect_check_input text_eq lookup
checked_lem = refl

abbrev shown_clock : Option ℕ → Text
shown_clock t = []

collect_check_input-Runs_example :
    All
      (λ k.
        offers_run (assess_kind shown_clock print k checked.base) ≡ true
        → Runs shown_clock print clock_text clock_text 1000 one k)
      checked.kinds
collect_check_input-Runs_example =
    collect_check_input-Runs shown_clock print clock_text clock_text midnight around checked
      one-IsSound checked_lem

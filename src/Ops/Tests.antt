-- ===== src/Ops/Tests.antt =====
-- ops/diagnose.py and ops/coverage.py: a slot that was missed, and an account with a gap.
use bifrost_platform_plugin.Common.{
  ℕ, ◌+◌, ◌*◌, ◌/◌, ◌%◌, ◌≡◌, refl, true, false, ◌&&◌, Option, none, some, List, [], ◌∷◌, arith,
}
use bifrost_platform_plugin.Common.Int.{pos}
use bifrost_platform_plugin.Common.Text.{Text, codes, text_eq, strip, starts_with}
use bifrost_platform_plugin.Common.Json.{Json, Dict, obj, str, empty, entry, int_of_text}
use bifrost_platform_plugin.Common.Result.{ok}
use bifrost_platform_plugin.Queue.{Job, Status}
use bifrost_platform_plugin.Queue.Enqueue.{proposed}
use bifrost_platform_plugin.Schema.{lookup}
use bifrost_platform_plugin.Cron.{
  Clock, minute_us, parse_cron, first_minute, fires_from, iter_cron_fires, previous_fire,
}
use bifrost_platform_plugin.Slots.{Missed, missed_slots}
use bifrost_platform_plugin.Ops.{assess_kind, same_verdict, worst}
use bifrost_platform_plugin.Ops.Input.{Verdict, KindInput, CheckInput}
use bifrost_platform_plugin.Ops.Checks.{SelfCheck}
use bifrost_platform_plugin.Ops.Collect.{Reads, base_input, collect_kind}
use bifrost_platform_plugin.Ops.Diagnose.{Diagnosis, diagnose}
use bifrost_platform_plugin.Ops.Diagnose.Calm.{Promised, diagnose-Promised}
use bifrost_platform_plugin.Ops.CatchUp.{finds, assess_kind-missed}
use bifrost_platform_plugin.Ops.Coverage.{CoverageRow}

abbrev check : CheckInput
check = record {
  now = 901000000;
  grace_sec = 600;
  cooldown_until = none;
  catchup_enabled = true;
  worker_poll_sec = 5;
}

abbrev clock : Option ℕ → Text
clock t = codes "Mon 06:30 EDT"

abbrev shown : Json → Text
shown v = []

abbrev utc : ℕ → Clock
utc t = record {
  minute = t / minute_us % 60;
  hour = t / (60 * minute_us) % 24;
  weekday = (t / (1440 * minute_us) + 3) % 7;
}

-- The fire of the trades slot at one o'clock was missed: the last job is done, but it is older.
abbrev earlier : Job
earlier = record (proposed 1 5 (codes "flex-trades") empty none (pos 0) 3) { status = Status.done }

abbrev schedule : Dict
schedule =
    entry "slots"
      (obj (entry "flex-trades" (obj (entry "cron" (str (codes "0 1 * * *")) empty)) empty)) empty

abbrev at_three : Reads
at_three = record {
  now = 180 * minute_us;
  db_now = 180 * minute_us;
  queue = record { next_id = 2; rows = earlier ∷ [] };
  freshness = [];
  heartbeat = none;
  environment = record { flex_host_token = none; flex_secondary_token = none };
  issued = (none, none);
  data_latest = [];
  coverage = ok ([], []);
  class_name = [];
  disabled = none;
  poll_interval_sec = 5;
  scheduler_cfg = schedule;
}

abbrev trades : KindInput
trades = record {
  kind = codes "flex-trades";
  job = some earlier;
  freshness = none;
  planned_last = some (60 * minute_us);
  planned_next = some (1500 * minute_us);
  kind_max_attempts = 8;
}

trades_collected : collect_kind utc at_three "flex-trades" ≡ ok trades
unfolding collect_kind text_eq strip starts_with lookup parse_cron int_of_text first_minute
    fires_from iter_cron_fires previous_fire
trades_collected = refl

assess_kind-missed_example :
    (missed : List Missed) × (missed_slots utc
        (λ t. codes "1970-01-01")
        (180 * minute_us)
        (base_input utc at_three).grace_sec
        schedule
        (earlier ∷ [])
        ("flex-trades" ∷ [])
      ≡ ok missed)
    × (same_verdict Verdict.missed
          (assess_kind clock shown trades (base_input utc at_three)).verdict
        ≡ (true && finds missed))
assess_kind-missed_example =
    assess_kind-missed utc (λ t. codes "1970-01-01") at_three clock shown "flex-trades" trades
      (((λ _. omega arith, λ _. omega arith), tt), tt) trades_collected

it_is_missed : (assess_kind clock shown trades (base_input utc at_three)).verdict ≡ Verdict.missed
unfolding assess_kind base_input
it_is_missed = refl

throttled_first : worst (Verdict.ok ∷ Verdict.throttled ∷ Verdict.waiting ∷ []) ≡ Verdict.throttled
unfolding worst
throttled_first = refl

abbrev same_order : List Text → List Text
same_order accounts = accounts

abbrev march : ℕ → Text
march n = codes "2026-03"

abbrev rows : List CoverageRow
rows =
    (record { account_id = codes "U1"; month = 3; executions = 4; gap = true })
    ∷ (record { account_id = codes "U2"; month = 3; executions = 1; gap = false })
    ∷ []

abbrev self_check : SelfCheck
self_check = record {
  base = check;
  kinds = trades ∷ [];
  heartbeat = none;
  tokens = record { host = true; secondary = false; issued_at = none; age_days = none };
  data_latest = [];
  coverage = none;
  coverage_error = none;
}

diagnose-Promised_example :
    (d : Diagnosis) × (diagnose clock shown self_check ≡ some d)
    × Promised clock shown d.verdict d.checks d.kinds
diagnose-Promised_example = diagnose-Promised clock shown self_check

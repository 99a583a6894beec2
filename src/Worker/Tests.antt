-- ===== src/Worker/Tests.antt =====
-- worker/loop.py: turns on a queue of two jobs.
use bifrost_platform_plugin.Common.{
  ℕ, zero, suc, inr, ◌+◌, ◌≤◌, ◌<◌, ◌≡◌, refl, arith, true, false, none, some, [], ◌∷◌,
  if◌then◌else◌, ltb,
}
use bifrost_platform_plugin.Common.Int.{pos}
use bifrost_platform_plugin.Common.Text.{codes, text_eq}
use bifrost_platform_plugin.Common.Json.{empty}
use bifrost_platform_plugin.Common.Result.{Exception, runtime_error, operational_error, ok, raise}
use bifrost_platform_plugin.Retry.{default_policy}
use bifrost_platform_plugin.Retry.Codes.{classify-throttled}
use bifrost_platform_plugin.Queue.{Job, Queue, clash}
use bifrost_platform_plugin.Queue.Claim.{
  ClaimedJob, claim_next, select_first, row_to_job, is_runnable,
}
use bifrost_platform_plugin.Queue.Enqueue.{proposed}
use bifrost_platform_plugin.Queue.Invariant.{IsSound}
use bifrost_platform_plugin.Worker.{Config, World, Tick, turn}
use bifrost_platform_plugin.Worker.Run.{initial_state, start_up, turns, run_forever-keeps}
use bifrost_platform_plugin.Worker.Settled.{IsSettled}
use bifrost_platform_plugin.Worker.Outcome.{turn-settles, turn-cools}
use bifrost_platform_plugin.Worker.Db.{WorkerDb, Round, call}
use bifrost_platform_plugin.Worker.Db.Rounds.{IsDown, is_handled, call-survives, call_bounds}

abbrev first : Job
first = proposed 1 5 (codes "flex-trades") empty (some (codes "a")) (pos 0) 3

abbrev second : Job
second = proposed 2 5 (codes "flex-transactions") empty (some (codes "b")) (pos 0) 3

abbrev two : Queue
two = record { next_id = 3; rows = first ∷ second ∷ [] }

two-IsSound : IsSound two
unfolding clash text_eq
two-IsSound = record {
  each = (ground arith, (ground arith, tt));
  apart = ((record { ids = λ e. omega (arith, e); keys = refl }, tt), (tt, tt));
}

abbrev cfg : Config
cfg = record {
  stale_sec = 600;
  requeue_sec = 60;
  reclaim_every = 12;
  policy = default_policy;
  catchup_enabled = true;
}

abbrev throttle : Exception
throttle = runtime_error (codes "IB Flex error [1018] Too many requests")

abbrev tick : Tick
tick = record {
  is_locked = λ _. false;
  reconnects = 0;
  claim_at = 10;
  reclaim_at = 11;
  mark_at = 12;
  defer_at = 13;
  dispatch = λ job table. (raise throttle, table);
  catchup = λ q. (ok 0, q);
  outcome_at = some 14;
  seen_at = some 15;
}

abbrev begun : World
begun = record {
  state = initial_state;
  idle_ticks = 0;
  queue = two;
  freshness = [];
  heartbeat = none;
}

abbrev taken : ClaimedJob
taken = record {
  id = 1;
  kind = codes "flex-trades";
  payload = empty;
  attempts = 1;
  max_attempts = 3;
}

run_forever-keeps_example :
    (w : World) × (turns cfg (tick ∷ tick ∷ []) (start_up cfg 9 none none [] two) ≡ ok w)
    × IsSound w.queue
run_forever-keeps_example =
    run_forever-keeps cfg 9 none none [] two (tick ∷ tick ∷ []) two-IsSound
      ((λ q s. s), ((λ q s. s), tt))

claimed : (claim_next (λ _. false) 10 two).0 ≡ some taken
unfolding claim_next select_first row_to_job is_runnable
claimed = refl

turn-settles_example : (w : World) × (turn cfg tick begun ≡ ok w) × IsSettled 1 w.queue
turn-settles_example = turn-settles cfg tick begun taken two-IsSound claimed

turn-cools_example :
    (w : World) × (turn cfg tick begun ≡ ok w)
    × ((claim_next (λ _. false) 1800000000 w.queue).0 ≡ none)
turn-cools_example =
    turn-cools cfg tick begun taken throttle (λ _. false) 1800000000 two-IsSound claimed refl
      (classify-throttled (codes "IB Flex error ") (codes " Too many requests")) (omega arith)
      (λ e. omega (arith, e)) (omega arith) (omega arith)

abbrev outage : Round ℕ
outage = record {
  closed = true;
  connect = raise (operational_error (codes "could not connect"));
  run = raise (operational_error (codes "could not connect"));
}

abbrev service : Round ℕ
service = record { closed = false; connect = ok tt; run = ok 7 }

-- The first two rounds meet the outage.
abbrev rounds : ℕ → Round ℕ
rounds zero = outage
rounds (suc zero) = outage
rounds n = service

abbrev fresh : WorkerDb
fresh = record { connected = false; reconnects = 0 }

outage-IsDown : (j : ℕ) → j < 2 → IsDown (rounds j)
outage-IsDown zero h = record {
  error = operational_error (codes "could not connect");
  retried = refl;
  run = refl;
  connect = inr refl;
}
outage-IsDown (suc zero) h = record {
  error = operational_error (codes "could not connect");
  retried = refl;
  run = refl;
  connect = inr refl;
}
outage-IsDown (suc (suc j)) h = absurd (omega (arith, h))

call-survives_example : (call rounds fresh).result ≡ ok 7
call-survives_example =
    call-survives rounds 2 fresh 7 (omega arith) outage-IsDown
      (record { run = refl; connect = refl })

-- The same six rounds, and another end of the story.
abbrev at_once : ℕ → Round ℕ
at_once n = if ltb n 6 then rounds n else outage

first_six : (j : ℕ) → j < 6 → rounds j ≡ at_once j
first_six j h = ground arith

call_bounds_example :
    (call rounds fresh ≡ call at_once fresh)
    × (is_handled (call rounds fresh).result ≡ true)
    × ((call rounds fresh).slept ≤ 135)
    × ((call rounds fresh).db.reconnects ≤ fresh.reconnects + 5)
call_bounds_example = call_bounds rounds at_once fresh first_six

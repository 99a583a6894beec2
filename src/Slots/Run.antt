-- ===== src/Slots/Run.antt =====
-- worker/loop.py and worker/catchup.py: the worker with the catch-up of missed slots in its turns.
use bifrost_platform_plugin.Common.{ℕ, ◌≡◌, Option, List, [], ◌∷◌, map, All}
use bifrost_platform_plugin.Common.Text.{Text}
use bifrost_platform_plugin.Common.Json.{Dict}
use bifrost_platform_plugin.Common.Result.{ok}
use bifrost_platform_plugin.Queue.{Queue}
use bifrost_platform_plugin.Queue.Invariant.{IsSound}
use bifrost_platform_plugin.Schema.{FreshnessTable}
use bifrost_platform_plugin.Worker.{Config, State, World, Tick}
use bifrost_platform_plugin.Worker.Turn.{CatchesUp}
use bifrost_platform_plugin.Worker.Run.{start_up, turns, run_forever-keeps}
use bifrost_platform_plugin.Cron.{Clock}
use bifrost_platform_plugin.Slots.{catchup_missed_slots}
use bifrost_platform_plugin.Slots.Keeps.{Budgeted, catchup_missed_slots-IsSound}

module _ (local : ℕ → Clock) (day : ℕ → Text) (digest : Dict → Text) (today : Text) (grace_sec : ℕ)
    (scheduler_cfg : Dict) where
  -- The turn whose catch-up is that of the schedule, at the instant that stands beside it.
  abbrev pub catching : Tick × ℕ → Tick
  catching t = record t.0 {
    catchup = catchup_missed_slots local day digest today t.1 grace_sec scheduler_cfg;
  }

  catching-CatchesUp :
      Budgeted scheduler_cfg → (ticks : List (Tick × ℕ)) → All CatchesUp (map catching ticks)
  catching-CatchesUp budgeted [] = tt
  catching-CatchesUp budgeted (t ∷ ticks) = (
    λ q s.
        catchup_missed_slots-IsSound digest today scheduler_cfg budgeted t.1 local day grace_sec q
          s,
    catching-CatchesUp budgeted ticks,
  )

  -- If every slot of the schedule has at least one attempt, a worker that starts on a queue in order,
  -- and catches up on missed slots in its idle turns, runs any number of turns without an exception
  -- and leaves the queue in order, whatever dispatch returns or raises.
  pub run_forever-catches_up :
      (cfg : Config) (reclaim_at : ℕ) (seen_at : Option ℕ) (heartbeat : Option (ℕ × State))
      (freshness : FreshnessTable) (q : Queue) (ticks : List (Tick × ℕ))
      → Budgeted scheduler_cfg
      → IsSound q
      → (w : World) × (turns cfg
            (map catching ticks)
            (start_up cfg reclaim_at seen_at heartbeat freshness q)
          ≡ ok w)
        × IsSound w.queue
  run_forever-catches_up cfg reclaim_at seen_at heartbeat freshness q ticks budgeted s =
      run_forever-keeps cfg reclaim_at seen_at heartbeat freshness q (map catching ticks) s
        (catching-CatchesUp budgeted ticks)

-- ===== src/Worker/Run.antt =====
-- worker/loop.py: run_forever, from the start of the process through its turns.
use bifrost_platform_plugin.Common.{ℕ, ◌≡◌, refl, Option, none, some, List, [], ◌∷◌, length, All}
use bifrost_platform_plugin.Common.Result.{Result, ok, ◌>>=◌}
use bifrost_platform_plugin.Queue.{Queue}
use bifrost_platform_plugin.Queue.Claim.{reclaim_stale_running}
use bifrost_platform_plugin.Queue.Invariant.{IsSound, reclaim_stale_running-IsSound}
use bifrost_platform_plugin.Schema.{FreshnessTable}
use bifrost_platform_plugin.Worker.{Config, State, World, Tick, beat, turn}
use bifrost_platform_plugin.Worker.Turn.{CatchesUp}
use bifrost_platform_plugin.Worker.Returns.{turn-keeps}

abbrev pub initial_state : State
initial_state = record {
  jobs_done = 0;
  jobs_failed = 0;
  jobs_retried = 0;
  catchups = 0;
  last_kind = none;
  last_claim_at = none;
  last_error = [];
  last_error_category = [];
  stale_reclaimed = 0;
  db_reconnects = 0;
}

-- What stands before the loop: stale jobs are reclaimed and a first heartbeat is written.
unfoldable pub start_up :
    Config → ℕ → Option ℕ → Option (ℕ × State) → FreshnessTable → Queue → World
start_up cfg reclaim_at seen_at heartbeat freshness q =
    let (ids, q') = reclaim_stale_running reclaim_at cfg.stale_sec cfg.requeue_sec q in
    beat seen_at (record {
      state = record initial_state { stale_reclaimed = length ids };
      idle_ticks = 0;
      queue = q';
      freshness = freshness;
      heartbeat = heartbeat;
    })

-- The first turns of `while True`, one for each tick.
unfoldable pub turns : Config → List Tick → World → Result World
turns cfg [] w = ok w
turns cfg (t ∷ ticks) w = do w' ← turn cfg t w; turns cfg ticks w'

turns-keeps :
    (cfg : Config) (ticks : List Tick) (w : World)
    → All CatchesUp ticks
    → IsSound w.queue
    → (w' : World) × (turns cfg ticks w ≡ ok w') × IsSound w'.queue
unfolding turns
turns-keeps cfg [] w catches s = (w, refl, s)
turns-keeps cfg (t ∷ ticks) w catches s =
    let (v, returned, kept) = turn-keeps cfg t w catches.0 s in
    let (w', finished, sound) = turns-keeps cfg ticks v catches.1 kept in
    (w', rw returned finished, sound)

beat-IsSound : (seen : Option ℕ) (w : World) → IsSound w.queue → IsSound (beat seen w).queue
beat-IsSound none w s = s
beat-IsSound (some now) w s = s

-- A worker that starts on a queue in order runs any number of turns without an exception, whatever
-- dispatch returns or raises in them, and leaves the queue in order: unique ids, at most one active
-- row for each kind and hash, and no attempt beyond a budget. The catch-up of each turn is taken to
-- keep the queue in order.
pub run_forever-keeps :
    (cfg : Config) (reclaim_at : ℕ) (seen_at : Option ℕ) (heartbeat : Option (ℕ × State))
    (freshness : FreshnessTable) (q : Queue) (ticks : List Tick)
    → IsSound q
    → All CatchesUp ticks
    → (w : World) × (turns cfg ticks (start_up cfg reclaim_at seen_at heartbeat freshness q) ≡ ok w)
      × IsSound w.queue
unfolding start_up
run_forever-keeps cfg reclaim_at seen_at heartbeat freshness q ticks s catches =
    turns-keeps cfg ticks (start_up cfg reclaim_at seen_at heartbeat freshness q) catches (
      beat-IsSound seen_at _
        (reclaim_stale_running-IsSound reclaim_at cfg.stale_sec cfg.requeue_sec q s))

-- ===== src/Worker/Outcome.antt =====
-- worker/loop.py: what a turn makes of the job that it claims.
use mathlib.Core.Option.{some-injective}
use bifrost_platform_plugin.Common.{ℕ, ◌+◌, ◌≡◌, ◌≢◌, ◌<◌, subst, Bool, Option, none, some}
use bifrost_platform_plugin.Common.Result.{Exception, ok, raise, message}
use bifrost_platform_plugin.Retry.{throttled, classify_flex_error}
use bifrost_platform_plugin.Queue.{Job, Queue, secs}
use bifrost_platform_plugin.Queue.Claim.{ClaimedJob, claim_next}
use bifrost_platform_plugin.Queue.Claim.Choice.{claim_next-cases}
use bifrost_platform_plugin.Queue.Invariant.{IsSound, claim_next-IsSound}
use bifrost_platform_plugin.Worker.{
  Config, Tick, World, turn, after_claim, job_turn, settle_run, ran,
}
use bifrost_platform_plugin.Worker.Cooldown.{failure_turn-cools}
use bifrost_platform_plugin.Worker.Settled.{IsSettled, job_turn-IsSettled}
use bifrost_platform_plugin.Worker.Returns.{Returns, run-Returns}

abbrev counted : Tick → World → World
counted t w = record w { state = record w.state { db_reconnects = t.reconnects } }

turn-Returns : (cfg : Config) (t : Tick) (w : World) → IsSound w.queue → Returns (turn cfg t w)
unfolding turn
turn-Returns cfg t w s =
    run-Returns cfg t (counted t w) w.queue (claim_next t.is_locked t.claim_at w.queue)
      (claim_next-IsSound t.is_locked t.claim_at w.queue s)
      (claim_next-cases t.is_locked t.claim_at w.queue)

after_claim-eq-ok :
    (cfg : Config) (t : Tick) (v w' : World) (r : Option ClaimedJob × Queue) (job : ClaimedJob)
    → r.0 ≡ some job
    → after_claim cfg t v r ≡ ok w'
    → job_turn cfg t job (record v { queue = r.1 }) ≡ ok w'
after_claim-eq-ok cfg t v w' (none, q) job e h = cc
after_claim-eq-ok cfg t v w' (some j, q) job e h =
    subst (λ x. job_turn cfg t x (record v { queue = q }) ≡ ok w') (some-injective _ _ e) h

-- A turn that claims a job on a queue in order ends without an exception and leaves the job in no
-- running row, whatever dispatch returned or raised.
pub turn-settles :
    (cfg : Config) (t : Tick) (w : World) (job : ClaimedJob)
    → IsSound w.queue
    → (claim_next t.is_locked t.claim_at w.queue).0 ≡ some job
    → (w' : World) × (turn cfg t w ≡ ok w') × IsSettled job.id w'.queue
unfolding turn
turn-settles cfg t w job s claimed =
    let (w', returned) = turn-Returns cfg t w s in
    (
      w',
      returned,
      job_turn-IsSettled cfg t job
          (record (counted t w) { queue = (claim_next t.is_locked t.claim_at w.queue).1 }) w'
          (after_claim-eq-ok cfg t (counted t w) w' _ job claimed returned),
    )

-- A turn on a queue in order whose job has attempts left and fails with an error text that reads
-- as a throttled token, under a throttle delay that is not zero, ends without an exception and puts
-- the whole queue to rest: at each time before that delay has passed, counted from the requeue and
-- from the deferral, no claim finds a job.
pub turn-cools :
    (cfg : Config) (t : Tick) (w : World) (job : ClaimedJob) (e : Exception)
    (is_locked : Job → Bool) (s : ℕ)
    → IsSound w.queue
    → (claim_next t.is_locked t.claim_at w.queue).0 ≡ some job
    → (t.dispatch job w.freshness).0 ≡ raise e
    → classify_flex_error (message e) ≡ throttled
    → job.attempts < job.max_attempts
    → cfg.policy.throttled_delay_sec ≢ 0
    → s < t.mark_at + secs cfg.policy.throttled_delay_sec
    → s < t.defer_at + secs cfg.policy.throttled_delay_sec
    → (w' : World) × (turn cfg t w ≡ ok w') × ((claim_next is_locked s w'.queue).0 ≡ none)
unfolding turn job_turn
turn-cools cfg t w job e is_locked s sound claimed raised c room some_wait early early' =
    let (w', returned) = turn-Returns cfg t w sound in
    let v = record (counted t w) { queue = (claim_next t.is_locked t.claim_at w.queue).1 } in
    let ended : job_turn cfg t job v ≡ ok w' =
      after_claim-eq-ok cfg t (counted t w) w' _ job claimed returned in
    (
      w',
      returned,
      failure_turn-cools cfg t job e (ran t job v) w' is_locked s c room some_wait early early'
          (subst (λ r. settle_run cfg t job (ran t job v) r ≡ ok w') raised ended),
    )

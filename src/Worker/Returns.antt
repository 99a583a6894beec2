-- ===== src/Worker/Returns.antt =====
-- worker/loop.py: how a turn on a queue in order ends.
use mathlib.Core.Option.{some-injective}
use bifrost_platform_plugin.Common.{
  ℕ, All_tt, ◌≡◌, refl, sym, subst, Bool, true, Option, none, some, arith, All, inl, inr, ◌⊎◌,
}
use bifrost_platform_plugin.Common.Text.{Text, codes}
use bifrost_platform_plugin.Common.Json.{Dict}
use bifrost_platform_plugin.Common.Result.{Result, ok, raise, message, ◌>>=◌}
use bifrost_platform_plugin.Retry.{value, classify_flex_error, plan_retry, RetryPlan, PlanStatus}
use bifrost_platform_plugin.Queue.{Job, Queue, is_active, has_id}
use bifrost_platform_plugin.Queue.Claim.{ClaimedJob, claim_next, start_running}
use bifrost_platform_plugin.Queue.Claim.Choice.{Idle, Taken, is_free, claim_next-cases}
use bifrost_platform_plugin.Queue.Rows.{update_where-All}
use bifrost_platform_plugin.Queue.Invariant.{IsSound, claim_next-IsSound}
use bifrost_platform_plugin.Queue.Accept.{mark_retry-accepts}
use bifrost_platform_plugin.Worker.{
  Config, Tick, World, turn, after_claim, job_turn, settle_run, ran, failure_turn, settle_as,
  with_error,
}
use bifrost_platform_plugin.Worker.Turn.{CatchesUp, turn-IsSound}

-- Each row with the id is pending or running.
abbrev pub IsHeld : ℕ → Queue → Type 0
IsHeld n q = All (λ k. k.id ≡ n → is_active k.status ≡ true) q.rows

abbrev pub Returns : Result World → Type 0
Returns r = (w : World) × (r ≡ ok w)

-- What follows a result that is known to be there.
after :
    {A : Type 0} (r : Result A) (f : A → Result World) {a : A}
    → r ≡ ok a
    → Returns (f a)
    → Returns (r >>= f)
after r f e h = rw e h

settle_as-Returns :
    (status : PlanStatus) (t : Tick) (job : ClaimedJob) (plan : RetryPlan) (msg : Text) (w : World)
    → IsSound w.queue
    → IsHeld job.id w.queue
    → Returns (settle_as status t job plan msg w)
unfolding settle_as
settle_as-Returns PlanStatus.pending t job plan msg w s held =
    after _ _
      (mark_retry-accepts t.mark_at job.id msg (codes (value plan.category)) plan.delay_sec w.queue
        s held)
      (_, refl)
settle_as-Returns PlanStatus.failed t job plan msg w s held = (_, refl)

settle_run-Returns :
    (cfg : Config) (t : Tick) (job : ClaimedJob) (w : World) (r : Result Dict)
    → IsSound w.queue
    → IsHeld job.id w.queue
    → Returns (settle_run cfg t job w r)
unfolding failure_turn
settle_run-Returns cfg t job w (ok result) s held = (_, refl)
settle_run-Returns cfg t job w (raise e) s held =
    let msg = message e in
    let plan = plan_retry (classify_flex_error msg) job.attempts job.max_attempts cfg.policy in
    let (v, settled) =
      settle_as-Returns plan.status t job plan msg (with_error msg plan w) s held in
    after _ _ settled (_, refl)

-- The row that a claim took is active, and no other row has its id.
claimed-IsHeld :
    (free : Job → Bool) (now : ℕ) (q : Queue) (r : Option ClaimedJob × Queue)
    → (t : Taken free now q r) → IsHeld t.job.id r.1
claimed-IsHeld free now q r t = subst (IsHeld t.job.id) (sym t.queue) (
    update_where-All (has_id t.row.id) (start_running now) (λ k _ hit named. refl)
      (λ k _ miss named. absurd (ground (arith, t.same_job))) q.rows (All_tt q.rows))

pub run-Returns :
    (cfg : Config) (t : Tick) (w : World) (q : Queue) (r : Option ClaimedJob × Queue)
    → IsSound r.1
    → Idle (is_free t.is_locked t.claim_at) q r
      ⊎ Taken (is_free t.is_locked t.claim_at) t.claim_at q r
    → Returns (after_claim cfg t w r)
unfolding job_turn
run-Returns cfg t w q (none, q') s how = (_, refl)
run-Returns cfg t w q (some job, q') s (inl idle) = cc (idle.nothing)
run-Returns cfg t w q (some job, q') s (inr taken) =
    settle_run-Returns cfg t job (ran t job (record w { queue = q' })) _ s (
      subst (λ (j : ClaimedJob). IsHeld j.id q') (some-injective _ _ (sym taken.returned))
        (claimed-IsHeld _ t.claim_at q (some job, q') taken))

-- On a queue in order, whatever dispatch returns or raises, a turn ends without an exception, and
-- the queue is in order again: unique ids, at most one active row for each kind and hash, no
-- attempt beyond a budget. The catch-up of the turn is taken to keep the queue in order.
pub turn-keeps :
    (cfg : Config) (t : Tick) (w : World)
    → CatchesUp t
    → IsSound w.queue
    → (w' : World) × (turn cfg t w ≡ ok w') × IsSound w'.queue
unfolding turn
turn-keeps cfg t w catches s =
    let (w', returned) =
      run-Returns cfg t (record w { state = record w.state { db_reconnects = t.reconnects } })
        w.queue (claim_next t.is_locked t.claim_at w.queue)
        (claim_next-IsSound t.is_locked t.claim_at w.queue s)
        (claim_next-cases t.is_locked t.claim_at w.queue) in
    (w', returned, turn-IsSound cfg t w w' catches s returned)

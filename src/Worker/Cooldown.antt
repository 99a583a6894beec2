-- ===== src/Worker/Cooldown.antt =====
-- worker/loop.py: the queue after a throttled failure.
use bifrost_platform_plugin.Common.{
  ℕ, ◌+◌, ◌<◌, ◌≡◌, ◌≢◌, sym, ap, ◌∙◌, subst, Bool, false, none, some, arith, All, All-at, All_tt,
  Bool-cases, inl, inr, ◌==◌,
}
use bifrost_platform_plugin.Common.Text.{Text, codes}
use bifrost_platform_plugin.Common.Result.{Exception, ok, message, >>=-eq-ok}
use bifrost_platform_plugin.Retry.{
  ErrorCategory, value, throttled, classify_flex_error, plan_retry, RetryPolicy, RetryPlan,
  PlanStatus,
}
use bifrost_platform_plugin.Queue.{Job, Queue, secs, has_id}
use bifrost_platform_plugin.Queue.Claim.{
  ClaimedJob, claim_next, is_runnable, mark_retry, requeue_row, defer_pending, defer_row,
}
use bifrost_platform_plugin.Queue.Claim.Choice.{claim_next-cases}
use bifrost_platform_plugin.Queue.Rows.{update_where-All}
use bifrost_platform_plugin.Queue.Requeue.{mark_retry-eq-ok}
use bifrost_platform_plugin.Worker.Turn.{failure_turn-settled}
use bifrost_platform_plugin.Worker.{Config, Tick, World, failure_turn, settle_as, with_error, cool}

-- No row is runnable at the time s, so a claim takes none and changes nothing.
claim_next-quiet :
    (is_locked : Job → Bool) (s : ℕ) (q : Queue)
    → All (λ k. is_runnable s k ≡ false) q.rows
    → (claim_next is_locked s q).0 ≡ none
claim_next-quiet is_locked s q quiet = elim (claim_next-cases is_locked s q) [
  | inl idle ↦ idle.nothing
  | inr t ↦
      let miss = All-at (λ k. is_runnable s k ≡ false) quiet t.chosen.member in
      absurd (ground (arith, t.chosen.fits))
]

module _ (s now now' n delay : ℕ) (error category : Text) (early : s < now + secs delay)
    (early' : s < now' + secs delay) where
  -- The row of the job itself waits for its delay.
  mark_retry-waits :
      (q q' : Queue)
      → mark_retry now n error category delay q ≡ ok q'
      → All (λ k. k.id ≡ n → is_runnable s k ≡ false) q'.rows
  unfolding is_runnable
  mark_retry-waits q q' e = rw (mark_retry-eq-ok now n error category delay q q' e).1 (
      update_where-All (has_id n) (requeue_row now error category delay)
        (λ k _ hit named. ground arith) (λ k _ miss named. absurd (ground arith)) q.rows
        (All_tt q.rows))

  -- The others wait for the cooldown.
  defer_pending-waits :
      (q : Queue)
      → All (λ k. k.id ≡ n → is_runnable s k ≡ false) q.rows
      → All (λ k. is_runnable s k ≡ false) (defer_pending now' delay (some n) q).1.rows
  unfolding defer_pending defer_row is_runnable
  defer_pending-waits q h =
      update_where-All _ (defer_row now' delay) (λ k c hit. ground arith)
        (λ k c miss. ground (arith, Bool-cases (k.id == n))) q.rows h

abbrev throttled_plan : ℕ → RetryPlan
throttled_plan wait = record {
  status = PlanStatus.pending;
  category = throttled;
  delay_sec = wait;
  cooldown_all_sec = wait;
}

plan_retry-throttled :
    (attempts max_attempts : ℕ) (p : RetryPolicy)
    → attempts < max_attempts
    → plan_retry throttled attempts max_attempts p ≡ throttled_plan p.throttled_delay_sec
unfolding plan_retry
plan_retry-throttled attempts max_attempts p room = ground arith

module _ (cfg : Config) (t : Tick) (job : ClaimedJob) where
  abbrev wait : ℕ
  wait = cfg.policy.throttled_delay_sec

  cool-wait :
      (plan : RetryPlan) (q : Queue)
      → plan.cooldown_all_sec ≡ wait
      → wait ≢ 0
      → cool t.defer_at plan.cooldown_all_sec job.id q
        ≡ (defer_pending t.defer_at wait (some job.id) q).1
  cool-wait plan q c some_wait = rw c (ground arith)

  settle_as-cools :
      (status : PlanStatus) (plan : RetryPlan) (msg : Text) (w w' : World) (s : ℕ)
      → status ≡ PlanStatus.pending
      → plan.delay_sec ≡ wait
      → plan.cooldown_all_sec ≡ wait
      → wait ≢ 0
      → s < t.mark_at + secs wait
      → s < t.defer_at + secs wait
      → settle_as status t job plan msg w ≡ ok w'
      → All (λ k. is_runnable s k ≡ false) w'.queue.rows
  unfolding settle_as
  settle_as-cools PlanStatus.failed plan msg w w' s p d c some_wait early early' e = cc
  settle_as-cools PlanStatus.pending plan msg w w' s p d c some_wait early early' e =
      let cat = codes (value plan.category) in
      let (q, marked, done) =
        >>=-eq-ok (mark_retry t.mark_at job.id msg cat plan.delay_sec w.queue) _ e in
      let waiting =
        mark_retry-waits s t.mark_at t.defer_at job.id wait msg cat early early' w.queue q
          (subst (λ (x : ℕ). mark_retry t.mark_at job.id msg cat x w.queue ≡ ok q) d marked) in
      let rested =
        defer_pending-waits s t.mark_at t.defer_at job.id wait msg cat early early' q waiting in
      let same : cool t.defer_at plan.cooldown_all_sec job.id q ≡ w'.queue = ground arith in
      subst (λ (r : Queue). All (λ k. is_runnable s k ≡ false) r.rows)
        (sym (cool-wait plan q c some_wait) ∙ same) rested

  throttled_lem :
      (c : ErrorCategory)
      → c ≡ throttled
      → job.attempts < job.max_attempts
      → plan_retry c job.attempts job.max_attempts cfg.policy ≡ throttled_plan wait
  throttled_lem c e room = rw e (plan_retry-throttled job.attempts job.max_attempts cfg.policy room)

  -- A job that fails with a throttled token while attempts remain puts the whole queue to rest:
  -- until the throttle delay has passed, counted from the requeue and from the deferral, no claim
  -- finds a job.
  pub failure_turn-cools :
      (e : Exception) (w w' : World) (is_locked : Job → Bool) (s : ℕ)
      → classify_flex_error (message e) ≡ throttled
      → job.attempts < job.max_attempts
      → wait ≢ 0
      → s < t.mark_at + secs wait
      → s < t.defer_at + secs wait
      → failure_turn cfg t job e w ≡ ok w'
      → (claim_next is_locked s w'.queue).0 ≡ none
  failure_turn-cools e w w' is_locked s c room some_wait early early' h =
      claim_next-quiet is_locked s w'.queue (
        failure_turn-settled cfg t job (λ q. All (λ k. is_runnable s k ≡ false) q.rows) e w w'
          (λ plan v chosen settled.
            let planned = chosen ∙ throttled_lem (classify_flex_error (message e)) c room in
            settle_as-cools plan.status plan (message e) (with_error (message e) plan w) v s
              (ap (λ (p : RetryPlan). p.status) planned)
              (ap (λ (p : RetryPlan). p.delay_sec) planned)
              (ap (λ (p : RetryPlan). p.cooldown_all_sec) planned) some_wait early early' settled)
          h)

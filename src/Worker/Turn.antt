-- ===== src/Worker/Turn.antt =====
-- worker/loop.py: the queue after a turn of the loop.
use mathlib.Core.Option.{some-injective}
use bifrost_platform_plugin.Common.{
  ℕ, ◌+◌, ◌<◌, ◌≡◌, refl, sym, ap, ◌∙◌, subst, Bool, false, Option, none, some, ◌++◌, arith, All,
  All-at, Bool-cases, inl, inr, ==_iff, ◌==◌, leb,
}
use bifrost_platform_plugin.Common.Text.{Text, codes}
use bifrost_platform_plugin.Common.Json.{Dict}
use bifrost_platform_plugin.Common.Result.{Exception, Result, ok, raise, message, >>=-eq-ok}
use bifrost_platform_plugin.Retry.{value, classify_flex_error, plan_retry, RetryPlan, PlanStatus}
use bifrost_platform_plugin.Retry.Plan.{plan_retry-Promise}
use bifrost_platform_plugin.Queue.{Job, Queue, has_id}
use bifrost_platform_plugin.Queue.Claim.{
  ClaimedJob, claim_next, start_running, mark_retry, reclaim_stale_running, mark_done, mark_failed,
}
use bifrost_platform_plugin.Queue.Claim.Choice.{Taken, is_free, claim_next-cases}
use bifrost_platform_plugin.Queue.Rows.{by_id, update_where-All}
use bifrost_platform_plugin.Queue.Invariant.{
  IsRow, IsSound, is_free-pending, claim_next-IsSound, mark_done-IsSound, mark_failed-IsSound,
  defer_pending-IsSound, reclaim_stale_running-IsSound,
}
use bifrost_platform_plugin.Queue.Requeue.{mark_retry-IsSound}
use bifrost_platform_plugin.Worker.{
  Config, Tick, World, turn, after_claim, idle_turn, look_after, job_turn, settle_run, ran,
  success_turn, failure_turn, settle_as, with_error, cool, beat, note_outcome, caught_up,
}

-- The catch-up of the turn keeps the queue in order.
abbrev pub CatchesUp : Tick → Type 0
CatchesUp t = (q : Queue) → IsSound q → IsSound (t.catchup q).1

cool-IsSound : (now cooldown n : ℕ) (q : Queue) → IsSound q → IsSound (cool now cooldown n q)
cool-IsSound now cooldown n q s = elim (Bool-cases (cooldown == 0)) [
  | inl off ↦ rw off s
  | inr on ↦ rw on (defer_pending-IsSound now cooldown (some n) q s)
]

-- The rows with the id have an attempt left.
abbrev HasRoom : ℕ → Queue → Type 0
HasRoom n q = All (λ k. k.id ≡ n → k.attempts < k.max_attempts) q.rows

settle_as-IsSound :
    (status : PlanStatus) (t : Tick) (job : ClaimedJob) (plan : RetryPlan) (msg : Text)
    (w w' : World)
    → IsSound w.queue
    → (status ≡ PlanStatus.pending → HasRoom job.id w.queue)
    → settle_as status t job plan msg w ≡ ok w'
    → IsSound w'.queue
unfolding settle_as
settle_as-IsSound PlanStatus.pending t job plan msg w w' s room e =
    let cat = codes (value plan.category) in
    let (q, marked, done) =
      >>=-eq-ok (mark_retry t.mark_at job.id msg cat plan.delay_sec w.queue) _ e in
    let same : cool t.defer_at plan.cooldown_all_sec job.id q ≡ w'.queue = ground arith in
    subst IsSound same (
      cool-IsSound t.defer_at plan.cooldown_all_sec job.id q
        (mark_retry-IsSound t.mark_at job.id msg cat plan.delay_sec w.queue q s (room refl) marked))
settle_as-IsSound PlanStatus.failed t job plan msg w w' s room e =
    let cat = codes (value plan.category) in
    let same : mark_failed t.mark_at job.id msg cat w.queue ≡ w'.queue = ground arith in
    subst IsSound same (mark_failed-IsSound t.mark_at job.id msg cat w.queue s)

pub noted-queue :
    (seen outcome : Option ℕ) (kind error : Text) (n : ℕ) (w : World)
    → (beat seen (note_outcome outcome kind error n w)).queue ≡ w.queue
noted-queue seen outcome kind error n w = ground arith

module _ (cfg : Config) (t : Tick) (job : ClaimedJob) where
  -- What a failed turn does to the queue is what the settling does.
  pub failure_turn-settled :
      (P : Queue → Type 0) (e : Exception) (w w' : World)
      → ((plan : RetryPlan) (v : World)
          → plan
            ≡ plan_retry (classify_flex_error (message e)) job.attempts job.max_attempts cfg.policy
          → settle_as plan.status t job plan (message e) (with_error (message e) plan w) ≡ ok v
          → P v.queue)
      → failure_turn cfg t job e w ≡ ok w'
      → P w'.queue
  unfolding failure_turn
  failure_turn-settled P e w w' prove h =
      let msg = message e in
      let plan = plan_retry (classify_flex_error msg) job.attempts job.max_attempts cfg.policy in
      let (v, settled, done) =
        >>=-eq-ok (settle_as plan.status t job plan msg (with_error msg plan w)) _ h in
      let cause = codes (value plan.category) ++ (codes ": " ++ msg) in
      let same : beat t.seen_at (note_outcome t.outcome_at job.kind cause job.id v) ≡ w' =
        ground arith in
      subst P
        (sym (noted-queue t.seen_at t.outcome_at job.kind cause job.id v)
          ∙ ap (λ (x : World). x.queue) same)
        (prove plan v refl settled)

  failure_turn-IsSound :
      (e : Exception) (w w' : World)
      → IsSound w.queue
      → (job.attempts < job.max_attempts → HasRoom job.id w.queue)
      → failure_turn cfg t job e w ≡ ok w'
      → IsSound w'.queue
  failure_turn-IsSound e w w' s room = failure_turn-settled IsSound e w w' λ plan v planned settled.
      let promise =
        plan_retry-Promise (classify_flex_error (message e)) job.attempts job.max_attempts
          cfg.policy in
      settle_as-IsSound plan.status t job plan (message e) (with_error (message e) plan w) v s
        (λ again.
          room (promise.retried.0 (ap (λ (p : RetryPlan). p.status) (sym planned) ∙ again)).1)
        settled

  settle_run-IsSound :
      (w w' : World) (r : Result Dict)
      → IsSound w.queue
      → (job.attempts < job.max_attempts → HasRoom job.id w.queue)
      → settle_run cfg t job w r ≡ ok w'
      → IsSound w'.queue
  unfolding success_turn
  settle_run-IsSound w w' (ok result) s room h =
      let same : success_turn t job result w ≡ w' = ground arith in
      let kept : (success_turn t job result w).queue ≡ mark_done t.mark_at job.id result w.queue =
        ground arith in
      subst IsSound (sym kept ∙ ap (λ (x : World). x.queue) same)
        (mark_done-IsSound t.mark_at job.id result w.queue s)
  settle_run-IsSound w w' (raise e) s room h = failure_turn-IsSound e w w' s room h

-- The row that a claim took has an attempt left after it if the claimed job has one.
claimed-HasRoom :
    (is_locked : Job → Bool) (now : ℕ) (q : Queue) (r : Option ClaimedJob × Queue)
    (t : Taken (is_free is_locked now) now q r)
    → IsSound q
    → t.job.attempts < t.job.max_attempts
    → HasRoom t.job.id r.1
claimed-HasRoom is_locked now q r t s room =
    let row = t.chosen.member in
    let waits = is_free-pending is_locked now t.row t.chosen.fits in
    let before = (All-at (IsRow q.next_id) s.each row).room waits.0 in
    let after : t.row.attempts + 1 < t.row.max_attempts =
      omega (arith, t.counted, t.budget (omega arith)) in
    subst (HasRoom t.job.id) (sym t.queue) (
      update_where-All (has_id t.row.id) (start_running now)
        (λ k same hit named.
          subst (λ (j : Job). j.attempts + 1 < j.max_attempts) (sym (same ((==_iff _ _).0 hit)))
            after)
        (λ k same miss named. absurd (other k miss named)) q.rows (by_id q.rows s.apart row))
  where
    other : (k : Job) → has_id t.row.id k ≡ false → ¬ (k.id ≡ t.job.id)
    other k miss named = ground (arith, t.same_job)

beat-queue : (seen : Option ℕ) (w : World) → (beat seen w).queue ≡ w.queue
beat-queue none w = refl
beat-queue (some now) w = refl

caught_up-queue : (r : Result ℕ × Queue) (w : World) → (caught_up r w).queue ≡ r.1
caught_up-queue (ok n, q) w = refl
caught_up-queue (raise e, q) w = refl

idle_turn-IsSound :
    (cfg : Config) (t : Tick) (w : World)
    → CatchesUp t
    → IsSound w.queue
    → IsSound (idle_turn cfg t w).queue
unfolding idle_turn look_after
idle_turn-IsSound cfg t w catches s =
    let (ids, q) = reclaim_stale_running t.reclaim_at cfg.stale_sec cfg.requeue_sec w.queue in
    let reclaimed =
      reclaim_stale_running-IsSound t.reclaim_at cfg.stale_sec cfg.requeue_sec w.queue s in
    elim (Bool-cases (leb cfg.reclaim_every (w.idle_ticks + 1))) [
      | inl due ↦ elim (Bool-cases cfg.catchup_enabled) [
        | inl on ↦ rw (due, on, beat-queue, caught_up-queue) (catches q reclaimed)
        | inr off ↦ rw (due, off, beat-queue) reclaimed
      ]
      | inr early ↦ rw early s
    ]

after_claim-IsSound :
    (cfg : Config) (t : Tick) (w w' : World) (r : Option ClaimedJob × Queue)
    → CatchesUp t
    → IsSound r.1
    → ((job : ClaimedJob) → r.0 ≡ some job → job.attempts < job.max_attempts → HasRoom job.id r.1)
    → after_claim cfg t w r ≡ ok w'
    → IsSound w'.queue
unfolding job_turn
after_claim-IsSound cfg t w w' (none, q) catches s room h =
    let same : idle_turn cfg t (record w { queue = q }) ≡ w' = ground arith in
    subst (λ (x : World). IsSound x.queue) same
      (idle_turn-IsSound cfg t (record w { queue = q }) catches s)
after_claim-IsSound cfg t w w' (some job, q) catches s room h =
    settle_run-IsSound cfg t job (ran t job (record w { queue = q })) w' _ s (room job refl) h

-- A turn that does not raise leaves the queue in order, if the catch-up does: unique ids, at most
-- one active row for each kind and hash, and no job with more attempts than its budget.
pub turn-IsSound :
    (cfg : Config) (t : Tick) (w w' : World)
    → CatchesUp t
    → IsSound w.queue
    → turn cfg t w ≡ ok w'
    → IsSound w'.queue
unfolding turn
turn-IsSound cfg t w w' catches s =
    let r = claim_next t.is_locked t.claim_at w.queue in
    after_claim-IsSound cfg t (record w { state = record w.state { db_reconnects = t.reconnects } })
      w' r catches (claim_next-IsSound t.is_locked t.claim_at w.queue s)
      λ job returned room. elim (claim_next-cases t.is_locked t.claim_at w.queue) [
        | inl idle ↦ cc (idle.nothing)
        | inr taken ↦
            let same : taken.job ≡ job = some-injective _ _ (sym taken.returned ∙ returned) in
            subst (λ (j : ClaimedJob). j.attempts < j.max_attempts → HasRoom j.id r.1) same
              (claimed-HasRoom t.is_locked t.claim_at w.queue r taken s) room
      ]

-- ===== src/Worker/Settled.antt =====
-- worker/loop.py: the row of the job that a turn claimed.
use bifrost_platform_plugin.Common.{
  ℕ, ◌≡◌, refl, sym, ap, ◌∙◌, subst, false, arith, All, All_tt, Bool-cases, inl, inr, ◌==◌,
}
use bifrost_platform_plugin.Common.Text.{Text, codes}
use bifrost_platform_plugin.Common.Json.{Dict}
use bifrost_platform_plugin.Common.Result.{Result, ok, raise, message, >>=-eq-ok}
use bifrost_platform_plugin.Retry.{value, RetryPlan, PlanStatus}
use bifrost_platform_plugin.Queue.{Job, Queue, is_running, has_id, update_where}
use bifrost_platform_plugin.Queue.Claim.{
  ClaimedJob, mark_retry, requeue_row, mark_done, finish_row, mark_failed, fail_row, defer_pending,
  defer_row,
}
use bifrost_platform_plugin.Queue.Rows.{update_where-All}
use bifrost_platform_plugin.Queue.Requeue.{mark_retry-eq-ok}
use bifrost_platform_plugin.Worker.{
  Config, Tick, World, job_turn, settle_run, ran, success_turn, settle_as, with_error, cool,
}
use bifrost_platform_plugin.Worker.Turn.{failure_turn-settled}

-- No row with the id is running.
abbrev pub IsSettled : ℕ → Queue → Type 0
IsSettled n q = All (λ k. k.id ≡ n → is_running k.status ≡ false) q.rows

module _ (n : ℕ) where
  set-IsSettled :
      (q : Queue) (f : Job → Job)
      → ((k : Job) → is_running (f k).status ≡ false)
      → IsSettled n (record q { rows = update_where (has_id n) f q.rows })
  set-IsSettled q f idle =
      update_where-All (has_id n) f (λ k _ hit named. idle k)
        (λ k _ miss named. absurd (ground arith)) q.rows (All_tt q.rows)

  cool-IsSettled :
      (now cooldown : ℕ) (q : Queue) → IsSettled n q → IsSettled n (cool now cooldown n q)
  unfolding defer_pending defer_row
  cool-IsSettled now cooldown q s = elim (Bool-cases (cooldown == 0)) [
    | inl off ↦ rw off s
    | inr on ↦
        rw on (update_where-All _ (defer_row now cooldown) (λ k c hit. c) (λ k c miss. c) q.rows s)
  ]

settle_as-IsSettled :
    (status : PlanStatus) (t : Tick) (job : ClaimedJob) (plan : RetryPlan) (msg : Text)
    (w w' : World)
    → settle_as status t job plan msg w ≡ ok w'
    → IsSettled job.id w'.queue
unfolding settle_as mark_failed
settle_as-IsSettled PlanStatus.pending t job plan msg w w' e =
    let cat = codes (value plan.category) in
    let (q, marked, done) =
      >>=-eq-ok (mark_retry t.mark_at job.id msg cat plan.delay_sec w.queue) _ e in
    let same : cool t.defer_at plan.cooldown_all_sec job.id q ≡ w'.queue = ground arith in
    let marked_rows =
      (mark_retry-eq-ok t.mark_at job.id msg cat plan.delay_sec w.queue q marked).1 in
    subst (IsSettled job.id) same (
      cool-IsSettled job.id t.defer_at plan.cooldown_all_sec q (
        subst (IsSettled job.id) (sym marked_rows) (
          set-IsSettled job.id w.queue (requeue_row t.mark_at msg cat plan.delay_sec) (λ k. refl))))
settle_as-IsSettled PlanStatus.failed t job plan msg w w' e =
    let cat = codes (value plan.category) in
    let same : mark_failed t.mark_at job.id msg cat w.queue ≡ w'.queue = ground arith in
    subst (IsSettled job.id) same
      (set-IsSettled job.id w.queue (fail_row t.mark_at msg cat) (λ k. refl))

settle_run-IsSettled :
    (cfg : Config) (t : Tick) (job : ClaimedJob) (w w' : World) (r : Result Dict)
    → settle_run cfg t job w r ≡ ok w'
    → IsSettled job.id w'.queue
unfolding success_turn mark_done
settle_run-IsSettled cfg t job w w' (ok result) h =
    let same : success_turn t job result w ≡ w' = ground arith in
    let kept : (success_turn t job result w).queue ≡ mark_done t.mark_at job.id result w.queue =
      ground arith in
    subst (IsSettled job.id) (sym kept ∙ ap (λ (x : World). x.queue) same)
      (set-IsSettled job.id w.queue (finish_row t.mark_at result) (λ k. refl))
settle_run-IsSettled cfg t job w w' (raise e) h =
    failure_turn-settled cfg t job (IsSettled job.id) e w w'
      (λ plan v planned.
        settle_as-IsSettled plan.status t job plan (message e) (with_error (message e) plan w) v)
      h

-- A turn that does not raise leaves the job that it claimed in no running row: it is done, failed
-- or pending again, whatever dispatch returned or raised.
pub job_turn-IsSettled :
    (cfg : Config) (t : Tick) (job : ClaimedJob) (w w' : World)
    → job_turn cfg t job w ≡ ok w'
    → IsSettled job.id w'.queue
unfolding job_turn
job_turn-IsSettled cfg t job w w' = settle_run-IsSettled cfg t job (ran t job w) w' _

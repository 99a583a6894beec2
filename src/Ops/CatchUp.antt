-- ===== src/Ops/CatchUp.antt =====
-- ops/diagnose.py and worker/catchup.py: the slots that the self-check and the catch-up take for missed.
use bifrost_platform_plugin.Common.{
  ℕ, String, ◌≤◌, ◌≡◌, refl, sym, ◌∙◌, ap, subst, Bool, true, false, ◌&&◌, Option, none, some, List,
  [], ◌∷◌, ◌++◌, arith, Bool-cases, inl, inr,
}
use bifrost_platform_plugin.Common.Text.{Text, codes}
use bifrost_platform_plugin.Common.Json.{Json, get}
use bifrost_platform_plugin.Queue.{Job, Status}
use bifrost_platform_plugin.Common.Result.{ok, ok-injective, >>=-eq-ok}
use bifrost_platform_plugin.Cron.{Clock, previous_fire, next_fires}
use bifrost_platform_plugin.Cron.Fires.{previous_fire-before}
use bifrost_platform_plugin.Slots.{
  is_missed, Missed, missed_at, missed_cron, missed_slots, slot_config, slot_budget, cron_of,
}
use bifrost_platform_plugin.Ops.{assess_kind, same_verdict, by_job, by_status, pending_at}
use bifrost_platform_plugin.Ops.Collect.{
  Reads, latest_of, base_input, collect_kind, kind_input, planned,
}
use bifrost_platform_plugin.Ops.Collect.Latest.{IsInStep, created_of, latest_of-newest}
use bifrost_platform_plugin.Ops.Input.{
  Verdict, KindInput, CheckInput, KindVerdict, missed_since, missed_plan,
}

-- No job of the kind is on its way, and the last one did not fail.
abbrev pub is_settled : Option Job → Bool
is_settled none = true
is_settled (some j) = elim j.status [ Status.done ↦ true | _ ↦ false ]

missed_since-is_missed :
    (inp : CheckInput) (job : Option Job) (planned : ℕ)
    → planned ≤ inp.now
    → missed_since inp job (some planned) ≡ is_missed inp.now inp.grace_sec (created_of job) planned
unfolding is_missed
missed_since-is_missed inp none planned h = ground arith
missed_since-is_missed inp (some j) planned h = ground arith

module _ (clock : Option ℕ → Text) (str_of : Json → Text) (k : KindInput) (inp : CheckInput) where
  abbrev is_missed_verdict : KindVerdict → Bool
  is_missed_verdict v = same_verdict Verdict.missed v.verdict

  pending-missed :
      (j : Job) (o : Option ℕ) → is_missed_verdict (pending_at clock str_of k inp j o) ≡ false
  pending-missed j none = refl
  pending-missed j (some t) = ground arith

  by_status-missed :
      (j : Job) (s : Status)
      → is_missed_verdict (by_status clock str_of k inp j s)
        ≡ (elim s [ Status.done ↦ true | _ ↦ false ] && missed_plan k inp)
  by_status-missed j Status.running = refl
  by_status-missed j Status.pending = pending-missed j j.not_before
  by_status-missed j Status.failed = ground arith
  by_status-missed j Status.done = ground arith

  by_job-missed :
      (job : Option Job)
      → is_missed_verdict (by_job clock str_of k inp job) ≡ (is_settled job && missed_plan k inp)
  by_job-missed none = ground arith
  by_job-missed (some j) = by_status-missed j j.status

-- The catch-up has a slot to enqueue.
abbrev pub finds : List Missed → Bool
finds [] = false
finds (m ∷ missed) = true

module _ (local : ℕ → Clock) (day : ℕ → Text) where
  missed_since-missed_at :
      (inp : CheckInput) (job : Option Job) (slot : String) (last : Option ℕ)
      → ((planned : ℕ) → last ≡ some planned → planned ≤ inp.now)
      → missed_since inp job last
        ≡ finds (missed_at local day inp.now inp.grace_sec (created_of job) slot last ++ [])
  missed_since-missed_at inp job slot none h = refl
  missed_since-missed_at inp job slot (some p) h =
      elim (Bool-cases (is_missed inp.now inp.grace_sec (created_of job) p)) [
        | inl yes_missed ↦ rw yes_missed (missed_since-is_missed inp job p (h p refl) ∙ yes_missed)
        | inr not_missed ↦ rw not_missed (missed_since-is_missed inp job p (h p refl) ∙ not_missed)
      ]

  module _ (a : Reads) where
    planned-before :
        (cron : Text) (plan : Option ℕ × Option ℕ) (p : ℕ)
        → planned local a cron ≡ ok plan
        → plan.0 ≡ some p
        → p ≤ a.now
    unfolding planned
    planned-before [] plan p h e = cc (ap (λ x. x.0) (ok-injective h), e)
    planned-before (c ∷ cron) plan p h e =
        let (last, fired, h1) = >>=-eq-ok (previous_fire (c ∷ cron) local a.now) _ h in
        let (upcoming, next, h2) = >>=-eq-ok (next_fires (c ∷ cron) local a.now 1) _ h1 in
        let same : last ≡ some p = ap (λ x. x.0) (ok-injective h2) ∙ e in
        let before = previous_fire-before (c ∷ cron) local a.now p (fired ∙ ap ok same) in
        omega (arith, before)

    -- The catch-up reads the same planned fire.
    planned-missed_cron :
        (grace_sec : ℕ) (newest : Option ℕ) (slot : String) (cron : Text)
        (plan : Option ℕ × Option ℕ)
        → planned local a cron ≡ ok plan
        → missed_cron local day a.now grace_sec newest slot cron
          ≡ ok (missed_at local day a.now grace_sec newest slot plan.0)
    unfolding planned
    planned-missed_cron grace_sec newest slot [] plan h =
        ap (λ o. ok (missed_at local day a.now grace_sec newest slot o))
          (ap (λ x. x.0) (ok-injective h))
    planned-missed_cron grace_sec newest slot (c ∷ cron) plan h =
        let (last, fired, h1) = >>=-eq-ok (previous_fire (c ∷ cron) local a.now) _ h in
        let (upcoming, next, h2) = >>=-eq-ok (next_fires (c ∷ cron) local a.now 1) _ h1 in
        rw fired (
          ap (λ o. ok (missed_at local day a.now grace_sec newest slot o))
            (ap (λ x. x.0) (ok-injective h2)))

    module _ (clock : Option ℕ → Text) (str_of : Json → Text) where
      -- If the rows of the table were created in the order of their ids, and the self-check could read
      -- what it needs of a slot, then the catch-up over that table, of that slot and with the same time,
      -- schedule and grace, returns; and the self-check says of the kind that its slot was missed exactly
      -- when the catch-up has found it missed and the last job of the kind, if there is one, is done.
      pub assess_kind-missed :
          (slot : String) (k : KindInput)
          → IsInStep a.queue.rows
          → collect_kind local a slot ≡ ok k
          → (missed : List Missed) × (missed_slots local day a.now
                (base_input local a).grace_sec
                a.scheduler_cfg
                a.queue.rows
                (slot ∷ [])
              ≡ ok missed)
            × (same_verdict Verdict.missed (assess_kind clock str_of k (base_input local a)).verdict
                ≡ (is_settled k.job && finds missed))
      unfolding collect_kind missed_slots assess_kind missed_plan base_input kind_input
      assess_kind-missed slot k step h =
          let inp = base_input local a in
          let rows = a.queue.rows in
          let (scfg, s1, h1) = >>=-eq-ok (slot_config a.scheduler_cfg slot) _ h in
          let (cron, s2, h2) = >>=-eq-ok (cron_of (get scfg "cron")) _ h1 in
          let (plan, s3, h3) = >>=-eq-ok (planned local a cron) _ h2 in
          let (budget, s4, h4) = >>=-eq-ok (slot_budget scfg) _ h3 in
          let job = latest_of (codes slot) rows in
          let missed = missed_at local day a.now inp.grace_sec (created_of job) slot plan.0 ++ [] in
          (
            missed,
            rw
                (
                  s1,
                  s2,
                  sym (latest_of-newest (codes slot) rows step),
                  planned-missed_cron inp.grace_sec (created_of job) slot cron plan s3,
                )
                refl,
            subst
                (λ i.
                  same_verdict Verdict.missed (assess_kind clock str_of i inp).verdict
                  ≡ (is_settled i.job && finds missed))
                (ok-injective h4)
                (by_job-missed clock str_of _ inp job
                  ∙ ap (λ b. is_settled job && b)
                      (missed_since-missed_at inp job slot plan.0
                        λ p e. planned-before cron plan p s3 e)),
          )

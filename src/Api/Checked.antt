-- ===== src/Api/Checked.antt =====
-- api/ops.py, ops/diagnose.py and api/ingest.py: from the tables to the self-check, and from what it offers
-- back to the tables.
use bifrost_platform_plugin.Common.{
  ℕ, String, ◌≡◌, refl, sym, ap, ◌∙◌, subst, Bool, true, false, ◌&&◌, Option, none, some, List, [],
  ◌∷◌, All, All-map, Memᴰ, arith, Bool-cases, Option-cases, inl, inr, ==_self, ==_iff,
}
use bifrost_platform_plugin.Common.Text.{Text, text_eq}
use bifrost_platform_plugin.Common.Json.{Json, get}
use bifrost_platform_plugin.Common.Result.{ok, >>=-eq-ok, ok-injective}
use bifrost_platform_plugin.Queue.{is_pending, Job, Queue, has_id}
use bifrost_platform_plugin.Queue.Rows.{by_id}
use bifrost_platform_plugin.Queue.Invariant.{IsSound}
use bifrost_platform_plugin.Cron.{Clock}
use bifrost_platform_plugin.Slots.{slot_names, slot_config, slot_budget, cron_of}
use bifrost_platform_plugin.Ops.{assess_kind, by_job, enqueue_action}
use bifrost_platform_plugin.Ops.Input.{KindInput, CheckInput}
use bifrost_platform_plugin.Ops.Checks.{SelfCheck}
use bifrost_platform_plugin.Ops.Collect.{
  Reads, latest_of, kind_input, planned, collect_kind, collect_kinds, collect_check_input,
  base_input,
}
use bifrost_platform_plugin.Ops.Collect.Latest.{latest_of-Memᴰ}
use bifrost_platform_plugin.Api.{answer}
use bifrost_platform_plugin.Api.Jobs.{
  find_job, is_later, RunNow, Decision, refuse, run, decide, carry_out, run_job_now,
}
use bifrost_platform_plugin.Api.Offered.{offers_run, accepts, assess_kind-offers}

-- With the rows apart, the row is what the route reads under its id.
find_job-own :
    (j : Job) (rows : List Job)
    → All (λ k. k.id ≡ j.id → k ≡ j) rows
    → Memᴰ j rows
    → find_job j.id rows ≡ some j
unfolding find_job
find_job-own j [] h m = elim m [ ]
find_job-own j (x ∷ rows) h m = elim (Bool-cases (has_id j.id x)) [
  | inl hit ↦ rw hit (ap some (h.0 ((==_iff x.id j.id).0 hit)))
  | inr miss ↦ rw miss (find_job-own j rows h.1 (behind m miss))
]
  where
    behind : Memᴰ j (x ∷ rows) → has_id j.id x ≡ false → Memᴰ j rows
    behind (Memᴰ.head e) miss = absurd (cc (ap (has_id j.id) e, miss, ==_self j.id))
    behind (Memᴰ.tail m) miss = m

module _ (local : ℕ → Clock) (a : Reads) where
  collect_kind-job :
      (slot : String) (k : KindInput)
      → collect_kind local a slot ≡ ok k
      → k.job ≡ latest_of k.kind a.queue.rows
  unfolding collect_kind kind_input
  collect_kind-job slot k h =
      let (scfg, s1, h1) = >>=-eq-ok (slot_config a.scheduler_cfg slot) _ h in
      let (cron, s2, h2) = >>=-eq-ok (cron_of (get scfg "cron")) _ h1 in
      let (plan, s3, h3) = >>=-eq-ok (planned local a cron) _ h2 in
      let (budget, s4, h4) = >>=-eq-ok (slot_budget scfg) _ h3 in
      subst (λ i. i.job ≡ latest_of i.kind a.queue.rows) (ok-injective h4) refl

  collect_kinds-job :
      (slots : List String) (kinds : List KindInput)
      → collect_kinds local a slots ≡ ok kinds
      → All (λ k. k.job ≡ latest_of k.kind a.queue.rows) kinds
  unfolding collect_kinds
  collect_kinds-job [] kinds h =
      subst (All (λ k. k.job ≡ latest_of k.kind a.queue.rows)) (ok-injective h) tt
  collect_kinds-job (slot ∷ slots) kinds h =
      let (k, s1, h1) = >>=-eq-ok (collect_kind local a slot) _ h in
      let (ks, s2, h2) = >>=-eq-ok (collect_kinds local a slots) _ h1 in
      subst (All (λ i. i.job ≡ latest_of i.kind a.queue.rows)) (ok-injective h2)
        (collect_kind-job slot k s1, collect_kinds-job slots ks s2)

third_true : (x y z : Bool) → (x && y && z) ≡ true → z ≡ true
third_true x y z h = ground arith

module _ (clock : Option ℕ → Text) (str_of : Json → Text) (local_text iso_text : ℕ → Text) where
  none-offers :
      (k : KindInput) (inp : CheckInput)
      → k.job ≡ none
      → offers_run (assess_kind clock str_of k inp) ≡ false
  unfolding assess_kind enqueue_action text_eq
  none-offers k inp e = ap (λ o. offers_run (by_job clock str_of k inp o)) e ∙ ground arith

  carry_out-answers :
      (now n : ℕ) (q : Queue) (d : Decision)
      → accepts d ≡ true
      → (r : RunNow) × (after : Queue) × (carry_out local_text iso_text now n q d
          ≡ (answer r, after))
  carry_out-answers now n q (refuse code detail) h = cc
  carry_out-answers now n q (run j) h = (_, _, refl)

  run_job_now-answers :
      (now : ℕ) (q : Queue) (j : Job)
      → IsSound q
      → Memᴰ j q.rows
      → accepts (decide local_text iso_text now j.id false (some j)) ≡ true
      → (r : RunNow) × (after : Queue) × (run_job_now local_text iso_text now j.id false q q
          ≡ (answer r, after))
  unfolding run_job_now
  run_job_now-answers now q j s m h =
      subst
        (λ o.
          (r : RunNow) × (after : Queue) × (carry_out local_text iso_text now j.id q
              (decide local_text iso_text now j.id false o)
            ≡ (answer r, after)))
        (sym (find_job-own j q.rows (by_id q.rows s.apart m) m))
        (carry_out-answers now j.id q (decide local_text iso_text now j.id false (some j)) h)

  -- The job that the verdict on a kind is about, and the route's answer for it.
  abbrev pub Runs : ℕ → Queue → KindInput → Type 0
  Runs now q k =
      (j : Job) × (k.job ≡ some j)
      × (r : RunNow) × (after : Queue) × (run_job_now local_text iso_text now j.id false q q
          ≡ (answer r, after))

  offered-Runs :
      (inp : CheckInput) (q : Queue) (k : KindInput)
      → IsSound q
      → k.job ≡ latest_of k.kind q.rows
      → offers_run (assess_kind clock str_of k inp) ≡ true
      → Runs inp.now q k
  offered-Runs inp q k s at offered = elim (Option-cases k.job) [
    | inl absent ↦ absurd (cc (none-offers k inp absent, offered))
    | inr (j, e) ↦
        let runs = sym (assess_kind-offers clock str_of local_text iso_text k inp j e) ∙ offered in
        let accepted =
          third_true (is_pending j.status) (is_later inp.now j.not_before)
            (accepts (decide local_text iso_text inp.now j.id false (some j))) runs in
        let member = latest_of-Memᴰ k.kind q.rows j (sym at ∙ e) in
        let (r, after, answers) = run_job_now-answers inp.now q j s member accepted in
        (j, e, r, after, answers)
  ]

  -- What the self-check offers works: on a queue in order, for every kind for which the self-check that
  -- was read from the tables offers a "Run now" to be pressed, the kind has a last job, and a call of
  -- run-now for that job, at the time of the check and without force, answers and is not refused.
  pub collect_check_input-Runs :
      (local : ℕ → Clock) (a : Reads) (s : SelfCheck)
      → IsSound a.queue
      → collect_check_input local a ≡ ok s
      → All
          (λ k. offers_run (assess_kind clock str_of k s.base) ≡ true → Runs a.now a.queue k)
          s.kinds
  unfolding collect_check_input base_input
  collect_check_input-Runs local a s sound h =
      let (kinds, s1, h1) = >>=-eq-ok (collect_kinds local a slot_names) _ h in
      subst
        (λ (c : SelfCheck).
          All (λ k. offers_run (assess_kind clock str_of k c.base) ≡ true → Runs a.now a.queue k)
            c.kinds)
        (ok-injective h1)
        (All-map (λ k at offered. offered-Runs (base_input local a) a.queue k sound at offered)
          kinds (collect_kinds-job local a slot_names kinds s1))

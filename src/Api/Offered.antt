-- ===== src/Api/Offered.antt =====
-- ops/diagnose.py and api/ingest.py: the "Run now" that the self-check offers, and the route behind it.
use bifrost_platform_plugin.Common.{
  ℕ, ◌≡◌, refl, ap, ◌∙◌, Bool, true, false, ◌&&◌, Option, none, some, any, ltb, arith, Bool-cases,
  inl, inr,
}
use bifrost_platform_plugin.Common.Text.{Text, codes, text_eq}
use bifrost_platform_plugin.Common.Json.{Json}
use bifrost_platform_plugin.Queue.{Status, is_pending, Job}
use bifrost_platform_plugin.Ops.{assess_kind, by_job, by_status, pending_at, enqueue_action}
use bifrost_platform_plugin.Ops.Input.{KindInput, CheckInput, KindVerdict, Action}
use bifrost_platform_plugin.Api.Jobs.{Decision, refuse, run, decide, is_later}

-- The verdict has a "Run now" that can be pressed.
abbrev pub offers_run : KindVerdict → Bool
offers_run v = any (λ (a : Action). text_eq a.id (codes "run_now") && a.enabled) v.actions

abbrev pub accepts : Decision → Bool
accepts (refuse code detail) = false
accepts (run j) = true

module _ (clock : Option ℕ → Text) (str_of : Json → Text) (local_text iso_text : ℕ → Text)
    (k : KindInput) (inp : CheckInput) (j : Job) where
  -- The job waits for its time, and the route would run it now.
  abbrev runs_now : Bool
  runs_now =
      is_pending j.status
      && is_later inp.now j.not_before
      && accepts (decide local_text iso_text inp.now j.id false (some j))

  later-offers :
      (t : ℕ) (c : Option Text)
      → j.status ≡ Status.pending
      → j.not_before ≡ some t
      → j.error_category ≡ c
      → offers_run (pending_at clock str_of k inp j (some t)) ≡ runs_now
  unfolding decide text_eq
  later-offers t none waits e cat = elim (Bool-cases (ltb inp.now t)) [
    | inl later ↦ rw (waits, e, cat, later) refl
    | inr due ↦ rw (waits, e, cat, due) refl
  ]
  later-offers t (some c) waits e cat = elim (Bool-cases (ltb inp.now t)) [
    | inl later ↦ elim (Bool-cases (text_eq c (codes "throttled"))) [
      | inl hot ↦ rw (waits, e, cat, later, hot) refl
      | inr cold ↦ rw (waits, e, cat, later, cold) refl
    ]
    | inr due ↦ rw (waits, e, cat, due) refl
  ]

  pending-offers :
      (o : Option ℕ)
      → j.status ≡ Status.pending
      → j.not_before ≡ o
      → offers_run (pending_at clock str_of k inp j o) ≡ runs_now
  pending-offers none waits e = rw (waits, e) refl
  pending-offers (some t) waits e = later-offers t j.error_category waits e refl

  status-offers :
      (s : Status) → j.status ≡ s → offers_run (by_status clock str_of k inp j s) ≡ runs_now
  unfolding enqueue_action text_eq
  status-offers Status.running e = rw e refl
  status-offers Status.pending e = pending-offers j.not_before e refl
  status-offers Status.failed e = rw e (ground arith)
  status-offers Status.done e = rw e (ground arith)

  -- The self-check offers "Run now" for a kind, to be pressed, exactly if the last job of the kind is
  -- pending, its time is still to come, and the route would accept it at that time without force.
  pub assess_kind-offers : k.job ≡ some j → offers_run (assess_kind clock str_of k inp) ≡ runs_now
  unfolding assess_kind
  assess_kind-offers e =
      ap (λ o. offers_run (by_job clock str_of k inp o)) e ∙ status-offers j.status refl

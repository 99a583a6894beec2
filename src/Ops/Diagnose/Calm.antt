-- ===== src/Ops/Diagnose/Calm.antt =====
-- ops/diagnose.py: that the self-check answers, and what its answer leaves out.
use bifrost_platform_plugin.Common.{
  ℕ, ◌≡◌, ◌≢◌, refl, sym, ap, ◌∙◌, subst, ◌⊎◌, inl, inr, Bool, true, false, ◌&&◌, ◌||◌, not, Option,
  none, some, List, [], ◌∷◌, any, map, All, arith, Bool-cases,
}
use bifrost_platform_plugin.Common.Text.{Text}
use bifrost_platform_plugin.Common.Json.{Json}
use bifrost_platform_plugin.Ops.{worst, verdict_order, first_in, same_verdict}
use bifrost_platform_plugin.Ops.Input.{
  Verdict, CheckInput, KindVerdict, failed, missed, throttled, waiting, running, queued, ok, idle,
  unknown,
}
use bifrost_platform_plugin.Ops.Checks.{Check, SelfCheck}
use bifrost_platform_plugin.Ops.Diagnose.{
  Overall, of_kinds, attention, Diagnosis, first_with, next_step_of, is_calm, overall_of,
  verdicts_of, checks_of, diagnosed, diagnose, say_first, when_failed, when_missed, when_throttled,
  when_waiting,
}

-- A verdict that asks for something, or tells of a job on its way.
abbrev pub is_busy : Verdict → Bool
is_busy ok = false
is_busy idle = false
is_busy unknown = false
is_busy v = true

abbrev pub verdict_at : Text × KindVerdict → Verdict
verdict_at kv = kv.1.verdict

first_in-any :
    (order verdicts : List Verdict)
    → (first_in order verdicts ≡ unknown)
      ⊎ (any (same_verdict (first_in order verdicts)) verdicts ≡ true)
unfolding first_in
first_in-any [] verdicts = inl refl
first_in-any (v ∷ order) verdicts = elim (Bool-cases (any (same_verdict v) verdicts)) [
  | inl there ↦ rw there (inr there)
  | inr absent ↦ rw absent (first_in-any order verdicts)
]

-- The overall verdict is that of a kind.
worst-any :
    (verdicts : List Verdict) (v : Verdict)
    → worst verdicts ≡ v
    → v ≢ unknown
    → any (same_verdict v) verdicts ≡ true
unfolding worst
worst-any verdicts v e ne = elim (first_in-any verdict_order verdicts) [
  | inl absent ↦ absurd (ne (sym e ∙ absent))
  | inr there ↦ subst (λ w. any (same_verdict w) verdicts ≡ true) e there
]

module _ (verdicts : List Verdict) where
  -- None of the verdicts that go before "ok" is there.
  abbrev NoBusy : Type 0
  NoBusy =
      (any (same_verdict failed) verdicts ≡ false)
      × (any (same_verdict missed) verdicts ≡ false)
      × (any (same_verdict throttled) verdicts ≡ false)
      × (any (same_verdict waiting) verdicts ≡ false)
      × (any (same_verdict running) verdicts ≡ false)
      × (any (same_verdict queued) verdicts ≡ false)

  worst-NoBusy : is_calm (worst verdicts) ≡ true → NoBusy
  unfolding worst first_in
  worst-NoBusy h = ground arith

not_busy :
    (v : Verdict)
    → same_verdict failed v ≡ false
    → same_verdict missed v ≡ false
    → same_verdict throttled v ≡ false
    → same_verdict waiting v ≡ false
    → same_verdict running v ≡ false
    → same_verdict queued v ≡ false
    → is_busy v ≡ false
not_busy failed a b c d e f = cc
not_busy missed a b c d e f = cc
not_busy throttled a b c d e f = cc
not_busy waiting a b c d e f = cc
not_busy running a b c d e f = cc
not_busy queued a b c d e f = cc
not_busy ok a b c d e f = refl
not_busy idle a b c d e f = refl
not_busy unknown a b c d e f = refl

or_false : {a b : Bool} → (a || b) ≡ false → (a ≡ false) × (b ≡ false)
or_false {a} {b} h = ground arith

NoBusy-All :
    (kinds : List (Text × KindVerdict))
    → NoBusy (map verdict_at kinds)
    → All (λ kv. is_busy kv.1.verdict ≡ false) kinds
NoBusy-All [] n = tt
NoBusy-All (kv ∷ kinds) n =
    let a = or_false n.0 in
    let b = or_false n.1 in
    let c = or_false n.2 in
    let d = or_false n.3 in
    let e = or_false n.4 in
    let f = or_false n.5 in
    (not_busy kv.1.verdict a.0 b.0 c.0 d.0 e.0 f.0, NoBusy-All kinds (a.1, b.1, c.1, d.1, e.1, f.1))

all_ok : (checks : List Check) → any (λ c. not c.ok) checks ≡ false → All (λ c. c.ok ≡ true) checks
all_ok [] h = tt
all_ok (c ∷ checks) h = (ground arith, all_ok checks (or_false h).1)

first_with-some :
    (v : Verdict) (kinds : List (Text × KindVerdict))
    → any (same_verdict v) (map verdict_at kinds) ≡ true
    → (kv : Text × KindVerdict) × (first_with v kinds ≡ some kv)
unfolding first_with
first_with-some v [] h = cc
first_with-some v (kv ∷ kinds) h = elim (Bool-cases (same_verdict v kv.1.verdict)) [
  | inl here ↦ (kv, rw here refl)
  | inr later ↦ let (found, e) = first_with-some v kinds (ground arith) in (found, rw later e)
]

told-some :
    (say : Text × KindVerdict → Text) (o : Option (Text × KindVerdict))
    → ((kv : Text × KindVerdict) × (o ≡ some kv))
    → (step : Text) × (say_first say o ≡ some step)
told-some say none (kv, e) = cc
told-some say (some x) found = (say x, refl)

overall_of-cases :
    (verdicts : List Verdict) (checks : List Check)
    → (overall_of verdicts checks ≡ attention)
      ⊎ ((overall_of verdicts checks ≡ of_kinds (worst verdicts))
          × (is_calm (worst verdicts) ≡ true → any (λ (c : Check). not c.ok) checks ≡ false))
unfolding overall_of
overall_of-cases verdicts checks =
    elim (Bool-cases (is_calm (worst verdicts) && any (λ (c : Check). not c.ok) checks)) [
      | inl noted ↦ inl (rw noted refl)
      | inr plain ↦ inr (rw plain refl, λ calm. ground arith)
    ]

module _ (clock : Option ℕ → Text) (str_of : Json → Text) where
  -- The lookups of the next step find a verdict.
  next_step_of-some :
      (v : Verdict) (kinds : List (Text × KindVerdict)) (inp : CheckInput)
      → worst (map verdict_at kinds) ≡ v
      → (step : Text) × (next_step_of clock str_of (of_kinds v) kinds inp ≡ some step)
  unfolding next_step_of
  next_step_of-some failed kinds inp e =
      told-some (when_failed clock str_of) _
        (first_with-some failed kinds (worst-any _ failed e (λ p. cc)))
  next_step_of-some missed kinds inp e =
      told-some (when_missed clock str_of inp) _
        (first_with-some missed kinds (worst-any _ missed e (λ p. cc)))
  next_step_of-some throttled kinds inp e =
      told-some (when_throttled clock str_of) _
        (first_with-some throttled kinds (worst-any _ throttled e (λ p. cc)))
  next_step_of-some waiting kinds inp e =
      told-some (when_waiting clock str_of) _
        (first_with-some waiting kinds (worst-any _ waiting e (λ p. cc)))
  next_step_of-some running kinds inp e = (_, refl)
  next_step_of-some queued kinds inp e = (_, refl)
  next_step_of-some ok kinds inp e = (_, refl)
  next_step_of-some idle kinds inp e = (_, refl)
  next_step_of-some unknown kinds inp e = (_, refl)

  attention-some :
      (kinds : List (Text × KindVerdict)) (inp : CheckInput)
      → (step : Text) × (next_step_of clock str_of attention kinds inp ≡ some step)
  unfolding next_step_of
  attention-some kinds inp = (_, refl)

  step-some :
      (kinds : List (Text × KindVerdict)) (checks : List Check) (inp : CheckInput)
      → (step : Text) × (next_step_of clock str_of
            (overall_of (map verdict_at kinds) checks)
            kinds
            inp
          ≡ some step)
  step-some kinds checks inp = elim (overall_of-cases (map verdict_at kinds) checks) [
    | inl e ↦
        subst (λ o. (step : Text) × (next_step_of clock str_of o kinds inp ≡ some step)) (sym e)
          (attention-some kinds inp)
    | inr (e, calm) ↦
        subst (λ o. (step : Text) × (next_step_of clock str_of o kinds inp ≡ some step)) (sym e)
          (next_step_of-some (worst (map verdict_at kinds)) kinds inp refl)
  ]

  -- What an overall verdict promises of the checks and the kinds.
  abbrev pub Promised : Overall → List Check → List (Text × KindVerdict) → Type 0
  Promised attention checks kinds = Unit {0}
  Promised (of_kinds v) checks kinds =
      is_calm v ≡ true
      → All (λ c. c.ok ≡ true) checks × All (λ kv. is_busy kv.1.verdict ≡ false) kinds

  overall_of-Promised :
      (kinds : List (Text × KindVerdict)) (checks : List Check)
      → Promised (overall_of (map verdict_at kinds) checks) checks kinds
  overall_of-Promised kinds checks = elim (overall_of-cases (map verdict_at kinds) checks) [
    | inl e ↦ subst (λ o. Promised o checks kinds) (sym e) tt
    | inr (e, calm) ↦
        subst (λ o. Promised o checks kinds) (sym e)
          (λ c. (all_ok checks (calm c), NoBusy-All kinds (worst-NoBusy (map verdict_at kinds) c)))
  ]

  -- The self-check always answers: no lookup of its next step fails, whatever it reads. And where it
  -- says ok or idle, every check is ok and no kind is failed, missed, throttled, waiting, running or
  -- queued.
  pub diagnose-Promised :
      (s : SelfCheck)
      → (d : Diagnosis) × (diagnose clock str_of s ≡ some d) × Promised d.verdict d.checks d.kinds
  unfolding diagnose
  diagnose-Promised s =
      let kinds = verdicts_of clock str_of s in
      let checks = checks_of clock str_of s in
      let (step, e) = step-some kinds checks s.base in
      (
        record {
          verdict = overall_of (map verdict_at kinds) checks;
          next_step = step;
          kinds = kinds;
          checks = checks;
        },
        ap (diagnosed (overall_of (map verdict_at kinds) checks) kinds checks) e,
        overall_of-Promised kinds checks,
      )

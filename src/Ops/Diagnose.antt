-- ===== src/Ops/Diagnose.antt =====
-- ops/diagnose.py: the self-check as a whole: its checks, its overall verdict and the next step. The KeyError
-- of a lookup is `none`. How the answer prints a verdict is left out.
pub mod Calm
use bifrost_platform_plugin.Common.{
  ℕ, String, ◌+◌, ◌*◌, ◌/◌, Bool, true, false, ◌&&◌, ◌||◌, not, Option, none, some, List, [], ◌∷◌,
  ◌++◌, ltb, if◌then◌else◌, any, map, min, str_eq,
}
use bifrost_platform_plugin.Common.Text.{Text, codes, decimal, text_eq}
use bifrost_platform_plugin.Common.Json.{Json}
use bifrost_platform_plugin.Queue.{Job}
use bifrost_platform_plugin.Ingest.{join}
use bifrost_platform_plugin.Ops.{assess_kind, worst, same_verdict}
use bifrost_platform_plugin.Ops.Input.{
  Verdict, CheckInput, KindInput, KindVerdict, failed, missed, throttled, waiting, running, queued,
  ok, idle, unknown, micros, is_cooling,
}
use bifrost_platform_plugin.Ops.Checks.{Check, SelfCheck, tokens_check, worker_check}
use bifrost_platform_plugin.Ops.CoverageCheck.{coverage_check}

-- `_worst`, or "attention".
pub data Overall : Type 0 where
  of_kinds : Verdict → Overall
  attention : Overall

pub record Diagnosis : Type 0 where
  pub verdict : Overall
  pub next_step : Text
  pub kinds : List (Text × KindVerdict)
  pub checks : List Check

-- The least of the times that are there.
unfoldable pub soonest : List (Option ℕ) → Option ℕ
soonest [] = none
soonest (none ∷ times) = soonest times
soonest (some t ∷ times) = elim (soonest times) [ none ↦ some t | some u ↦ some (min t u) ]

abbrev week : ℕ
week = 7 * 86400 * micros

unfoldable pub is_stale_table : ℕ → String × Option ℕ → Bool
is_stale_table now (table, none) = true
is_stale_table now (table, some d) = str_eq table "executions_raw_flex" && ltb (d + week) now

-- coverage is not None or coverage_error
abbrev pub is_collected : SelfCheck → Bool
is_collected s = elim s.coverage [
  | some c ↦ true
  | none ↦ elim s.coverage_error [ none ↦ false | some e ↦ elim e [ [] ↦ false | c ∷ cs ↦ true ] ]
]

-- The first verdict of that kind: the dict over reversed(verdicts) keeps it.
unfoldable pub first_with : Verdict → List (Text × KindVerdict) → Option (Text × KindVerdict)
first_with v [] = none
first_with v (kv ∷ verdicts) =
    let rest = first_with v verdicts in if same_verdict v kv.1.verdict then some kv else rest

abbrev pub is_calm : Verdict → Bool
is_calm ok = true
is_calm idle = true
is_calm v = false

unfoldable pub overall_of : List Verdict → List Check → Overall
unfolding worst
overall_of verdicts checks =
    if is_calm (worst verdicts) && any (λ (c : Check). not c.ok) checks
    then attention
    else of_kinds (worst verdicts)

abbrev pub say_first : (Text × KindVerdict → Text) → Option (Text × KindVerdict) → Option Text
say_first say none = none
say_first say (some kv) = some (say kv)

abbrev pub diagnosed :
    Overall → List (Text × KindVerdict) → List Check → Option Text → Option Diagnosis
diagnosed overall verdicts checks none = none
diagnosed overall verdicts checks (some step) =
    some (record { verdict = overall; next_step = step; kinds = verdicts; checks = checks })

module _ (clock : Option ℕ → Text) (str_of : Json → Text) where
  unfoldable pub cooldown_check : CheckInput → Check
  cooldown_check inp =
      if is_cooling inp
      then record {
        id = codes "cooldown";
        ok = false;
        detail =
            codes "IB throttle cooldown until "
            ++ (clock inp.cooldown_until ++ codes " — no request before then.");
      }
      else record { id = codes "cooldown"; ok = true; detail = codes "No IB throttle cooldown." }

  unfoldable pub schedule_check : SelfCheck → Check
  unfolding soonest decimal
  schedule_check s = record {
    id = codes "schedule";
    ok = true;
    detail =
        codes "Trigger: Dagster research_flex_morning_schedule; next planned "
        ++ (clock (soonest (map (λ (k : KindInput). k.planned_next) s.kinds))
            ++ (if s.base.catchup_enabled
                then codes "; worker catch-up "
                  ++ (decimal (s.base.grace_sec / 60) ++ codes " min after a missed slot")
                else codes "; catch-up disabled"));
  }

  abbrev part : String × Option ℕ → Text
  part (table, none) = codes table ++ codes ": none"
  part (table, some d) = codes table ++ (codes ": " ++ clock (some d))

  abbrev or_dash : Text → Text
  or_dash [] = codes "—"
  or_dash (c ∷ s) = c ∷ s

  unfoldable pub data_check : SelfCheck → Check
  unfolding is_stale_table join
  data_check s = record {
    id = codes "data";
    ok = not (any (is_stale_table s.base.now) s.data_latest);
    detail = or_dash (join (codes "; ") (map part s.data_latest));
  }

  -- `_checks`
  unfoldable pub checks_of : SelfCheck → List Check
  unfolding tokens_check worker_check cooldown_check schedule_check data_check coverage_check
  checks_of s =
      tokens_check s.tokens
      ∷ worker_check s.base.now s.heartbeat
      ∷ cooldown_check s.base
      ∷ schedule_check s
      ∷ data_check s
      ∷ (if is_collected s then coverage_check s.coverage s.coverage_error ∷ [] else [])

  abbrev is_config : Option Job → Bool
  is_config none = false
  is_config (some j) = elim j.error_category [ none ↦ false | some c ↦ text_eq c (codes "config") ]

  abbrev pub when_failed : Text × KindVerdict → Text
  when_failed (kind, v) =
      if is_config v.job
      then codes "Fix the configuration for "
        ++ (kind ++ codes " (see its action), then enqueue; nothing automatic will help.")
      else kind
        ++ codes " exhausted its attempts; enqueue it again (the next planned run will also try)."

  abbrev pub when_missed : CheckInput → Text × KindVerdict → Text
  when_missed inp (kind, v) =
      if inp.catchup_enabled
      then codes "Enqueue " ++ (kind ++ codes " now, or wait for the worker's catch-up.")
      else codes "Enqueue " ++ (kind ++ codes " now.")

  abbrev pub when_throttled : Text × KindVerdict → Text
  when_throttled (kind, v) =
      codes "Do nothing until "
      ++ (clock v.next_at
          ++ codes "; the worker retries by itself and every request before then fails.")

  abbrev pub when_waiting : Text × KindVerdict → Text
  when_waiting (kind, v) =
      codes "The worker retries "
      ++ (kind ++ (codes " at " ++ (clock v.next_at ++ codes "; press Run now to skip the wait.")))

  abbrev when_soonest : Option ℕ → Text
  when_soonest none = codes "Nothing to do."
  when_soonest (some t) = codes "Nothing to do; next planned run " ++ (clock (some t) ++ codes ".")

  abbrev nothing_to_do : List (Text × KindVerdict) → Text
  unfolding soonest
  nothing_to_do verdicts =
      when_soonest (soonest (map (λ (kv : Text × KindVerdict). kv.1.next_at) verdicts))

  -- `_next_step`
  unfoldable pub next_step_of : Overall → List (Text × KindVerdict) → CheckInput → Option Text
  unfolding first_with nothing_to_do
  next_step_of (of_kinds failed) verdicts inp = say_first when_failed (first_with failed verdicts)
  next_step_of (of_kinds missed) verdicts inp =
      say_first (when_missed inp) (first_with missed verdicts)
  next_step_of (of_kinds throttled) verdicts inp =
      say_first when_throttled (first_with throttled verdicts)
  next_step_of (of_kinds waiting) verdicts inp =
      say_first when_waiting (first_with waiting verdicts)
  next_step_of (of_kinds running) verdicts inp =
      some (codes "A job is in flight; refresh in a minute.")
  next_step_of (of_kinds queued) verdicts inp =
      some (codes "A job is in flight; refresh in a minute.")
  next_step_of overall verdicts inp = some (nothing_to_do verdicts)

  unfoldable pub verdicts_of : SelfCheck → List (Text × KindVerdict)
  unfolding assess_kind
  verdicts_of s = map (λ (k : KindInput). (k.kind, assess_kind clock str_of k s.base)) s.kinds

  unfoldable pub diagnose : SelfCheck → Option Diagnosis
  unfolding verdicts_of checks_of overall_of next_step_of
  diagnose s =
      let verdicts = verdicts_of s in
      let checks = checks_of s in
      let overall = overall_of (map (λ (kv : Text × KindVerdict). kv.1.verdict) verdicts) checks in
      diagnosed overall verdicts checks (next_step_of overall verdicts s.base)

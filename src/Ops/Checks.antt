-- ===== src/Ops/Checks.antt =====
-- ops/diagnose.py: the checks of the self-check on the tokens and the worker.
use bifrost_platform_plugin.Common.{
  ℕ, String, ◌+◌, ◌-◌, ◌*◌, ◌/◌, Bool, true, false, ◌&&◌, not, Option, none, some, List, [], ◌∷◌,
  ◌++◌, ltb, leb, ◌==◌, if◌then◌else◌,
}
use bifrost_platform_plugin.Common.Text.{Text, codes, decimal}
use bifrost_platform_plugin.Common.Dicts.{or_default}
use bifrost_platform_plugin.Ops.Input.{CheckInput, KindInput, micros}
use bifrost_platform_plugin.Ops.Coverage.{Gap}

pub record Check : Type 0 where
  pub id : Text
  pub ok : Bool
  pub detail : Text

-- The row of flex_worker_heartbeat.
pub record Heartbeat : Type 0 where
  pub seen_at : Option ℕ
  pub pod : Option Text
  pub version : Option Text
  pub jobs_done : Option ℕ
  pub jobs_retried : Option ℕ
  pub jobs_failed : Option ℕ
  pub db_reconnects : Option ℕ
  pub catchups : Option ℕ

pub record Tokens : Type 0 where
  pub host : Bool
  pub secondary : Bool
  pub issued_at : Option Text
  pub age_days : Option ℕ

-- CheckInput with the fields that the verdicts do not read.
pub record SelfCheck : Type 0 where
  pub base : CheckInput
  pub kinds : List KindInput
  pub heartbeat : Option Heartbeat
  pub tokens : Tokens
  pub data_latest : List (String × Option ℕ)
  pub coverage : Option (List Text × List Gap)
  pub coverage_error : Option Text

abbrev pub heartbeat_stale_sec : ℕ
heartbeat_stale_sec = 180

-- x or "?", and x or 0
abbrev or_unknown : Option Text → Text
or_unknown none = codes "?"
or_unknown (some []) = codes "?"
or_unknown (some (c ∷ s)) = c ∷ s

abbrev issued_text : Option Text → Option ℕ → Text
issued_text none age = codes ", issue date unknown"
issued_text (some []) age = codes ", issue date unknown"
issued_text (some (c ∷ s)) age =
    codes ", issued "
    ++ (c ∷ s
        ++ (codes " ("
            ++ (elim age as (λ a. Text) [ none ↦ codes "None" | some n ↦ decimal n ]
                ++ codes "d ago)")))

abbrev is_old : Option ℕ → Bool
is_old none = false
is_old (some n) = ltb 335 n

abbrev sides : Bool → Bool → Text
sides true true = codes "host+secondary"
sides true false = codes "host"
sides false true = codes "secondary"
sides false false = []

unfoldable pub tokens_check : Tokens → Check
tokens_check t =
    if not t.host && not t.secondary
    then record {
      id = codes "tokens";
      ok = false;
      detail = codes "No Flex token in Secret bifrost-flex-tokens — run make sync-flex-tokens.";
    }
    else record {
      id = codes "tokens";
      ok = not (is_old t.age_days);
      detail =
          sides t.host t.secondary
          ++ (codes " from Secret"
              ++ (issued_text t.issued_at t.age_days
                  ++ (if is_old t.age_days
                      then codes " — IB expires tokens after a year, rotate soon."
                      else [])));
    }

-- int(silent), the seconds since then; a time to come gives a number that is not positive.
abbrev whole_seconds : ℕ → ℕ → Text
whole_seconds now seen =
    if leb seen now
    then decimal ((now - seen) / micros)
    else if (seen - now) / micros == 0
    then codes "0"
    else b'-' ∷ decimal ((seen - now) / micros)

abbrev count_text : Option ℕ → Text
count_text n = decimal (or_default 0 n)

abbrev alive_text : Heartbeat → ℕ → ℕ → Text
alive_text hb now seen =
    codes "worker alive, seen "
    ++ (whole_seconds now seen
        ++ (codes "s ago (pod "
            ++ (or_unknown hb.pod
                ++ (codes ", v"
                    ++ (or_unknown hb.version
                        ++ (codes ", done "
                            ++ (count_text hb.jobs_done
                                ++ (codes " / retried "
                                    ++ (count_text hb.jobs_retried
                                        ++ (codes " / failed "
                                            ++ (count_text hb.jobs_failed
                                                ++ (codes ", db reconnects "
                                                    ++ (count_text hb.db_reconnects
                                                        ++ (codes ", catch-ups "
                                                            ++ (count_text hb.catchups
                                                            ++ codes ")")))))))))))))))

abbrev silent_text : Heartbeat → ℕ → ℕ → Text
silent_text hb now seen =
    codes "worker silent for "
    ++ (decimal ((now - seen) / (60 * micros))
        ++ (codes " min (last pod " ++ (or_unknown hb.pod ++ codes ") — check flex-query-worker.")))

abbrev pub is_alive : ℕ → ℕ → Bool
is_alive now seen = leb now (seen + heartbeat_stale_sec * micros)

abbrev never_seen : Check
never_seen = record {
  id = codes "worker";
  ok = false;
  detail = codes "Worker has never reported in — is flex-query-worker running on 0.6.1+?";
}

abbrev seen_check : ℕ → Heartbeat → Option ℕ → Check
seen_check now hb none = never_seen
seen_check now hb (some seen) = record {
  id = codes "worker";
  ok = is_alive now seen;
  detail = if is_alive now seen then alive_text hb now seen else silent_text hb now seen;
}

unfoldable pub worker_check : ℕ → Option Heartbeat → Check
worker_check now none = never_seen
worker_check now (some hb) = seen_check now hb hb.seen_at

-- ===== src/Slots/Tests.antt =====
-- worker/catchup.py: the daily schedule on an empty queue.
use bifrost_platform_plugin.Common.{
  map, some, none, true, false, [], ◌∷◌, ℕ, String, str_eq, ◌+◌, ◌*◌, ◌/◌, ◌%◌, ◌<◌, ◌≡◌, refl, sym,
  ◌∙◌, ap, arith, ◌⊎◌, inl, inr, Bool-cases,
}
use bifrost_platform_plugin.Common.Int.{pos}
use bifrost_platform_plugin.Common.Text.{codes}
use bifrost_platform_plugin.Common.Json.{Dict, num, str, obj, empty, entry, get, int_of}
use bifrost_platform_plugin.Common.Result.{ok, raise, runtime_error}
use bifrost_platform_plugin.Queue.{Queue}
use bifrost_platform_plugin.Queue.Invariant.{IsSound}
use bifrost_platform_plugin.Cron.{Clock, minute_us}
use bifrost_platform_plugin.Retry.{default_policy}
use bifrost_platform_plugin.Worker.{truthy, Config, Tick, World}
use bifrost_platform_plugin.Worker.Run.{start_up, turns}
use bifrost_platform_plugin.Slots.Run.{catching, run_forever-catches_up}
use bifrost_platform_plugin.Slots.{slot_config, slot_budget, catchup_missed_slots}
use bifrost_platform_plugin.Slots.Keeps.{Budgeted, catchup_missed_slots-IsSound}

abbrev settings : Dict
settings = entry "cron" (str (codes "30 6 * * 1-6")) (entry "max_attempts" (num (pos 3)) empty)

abbrev slots : Dict
slots = entry "flex-trades" (obj settings) (entry "flex-transactions" (obj settings) empty)

abbrev schedule : Dict
schedule = entry "slots" (obj slots) empty

get-slots : (slot : String) → (get slots slot ≡ none) ⊎ (get slots slot ≡ some (obj settings))
unfolding get
get-slots slot =
    ground
      (arith, Bool-cases (str_eq "flex-trades" slot), Bool-cases (str_eq "flex-transactions" slot))

slot_config-schedule :
    (slot : String)
    → (slot_config schedule slot ≡ ok empty) ⊎ (slot_config schedule slot ≡ ok settings)
unfolding slot_config get
slot_config-schedule slot = elim (get-slots slot) [
  | inl absent ↦ inl (rw absent refl)
  | inr there ↦ inr (rw there refl)
]

budget_default : slot_budget empty ≡ ok 8
unfolding slot_budget get
budget_default = refl

budget_set : slot_budget settings ≡ ok 3
unfolding slot_budget get truthy int_of
budget_set = refl

paid_by :
    (d scfg : Dict) (m n : ℕ)
    → 0 < m
    → slot_budget d ≡ ok m
    → ok d ≡ ok scfg
    → slot_budget scfg ≡ ok n
    → 0 < n
paid_by d scfg m n some_budget known same paid =
    let e : d ≡ scfg = ground arith in
    let budgets_agree : ok m ≡ ok n = sym known ∙ (ap slot_budget e ∙ paid) in ground arith

schedule-Budgeted : Budgeted schedule
schedule-Budgeted slot scfg n read paid = elim (slot_config-schedule slot) [
  | inl e ↦ paid_by empty scfg 8 n (omega arith) budget_default (sym e ∙ read) paid
  | inr e ↦ paid_by settings scfg 3 n (omega arith) budget_set (sym e ∙ read) paid
]

abbrev utc : ℕ → Clock
utc t = record {
  minute = t / minute_us % 60;
  hour = t / (60 * minute_us) % 24;
  weekday = (t / (1440 * minute_us) + 3) % 7;
}

abbrev nothing : Queue
nothing = record { next_id = 1; rows = [] }

-- 1970-01-31, a Saturday, at noon, with a grace of 45 minutes.
catchup_missed_slots-IsSound_example :
    IsSound
      (catchup_missed_slots utc
        (λ t. codes "1970-01-31")
        (λ d. codes "a")
        (codes "1970-01-31")
        ((30 * 1440 + 720) * minute_us)
        2700
        schedule
        nothing).1
catchup_missed_slots-IsSound_example =
    catchup_missed_slots-IsSound (λ d. codes "a") (codes "1970-01-31") schedule schedule-Budgeted
      ((30 * 1440 + 720) * minute_us) utc (λ t. codes "1970-01-31") 2700 nothing
      (record { each = tt; apart = tt })

abbrev cfg : Config
cfg = record {
  stale_sec = 600;
  requeue_sec = 60;
  reclaim_every = 1;
  policy = default_policy;
  catchup_enabled = true;
}

abbrev idle : Tick
idle = record {
  is_locked = λ _. false;
  reconnects = 0;
  claim_at = 10;
  reclaim_at = 11;
  mark_at = 12;
  defer_at = 13;
  dispatch = λ job table. (raise (runtime_error (codes "timed out")), table);
  catchup = λ q. (ok 0, q);
  outcome_at = some 14;
  seen_at = some 15;
}

run_forever-catches_up_example :
    (w : World) × (turns cfg
        (map
          (catching utc
            (λ t. codes "1970-01-31")
            (λ d. codes "a")
            (codes "1970-01-31")
            2700
            schedule)
          ((idle, (30 * 1440 + 720) * minute_us) ∷ []))
        (start_up cfg 9 none none [] nothing)
      ≡ ok w)
    × IsSound w.queue
run_forever-catches_up_example =
    run_forever-catches_up utc (λ t. codes "1970-01-31") (λ d. codes "a") (codes "1970-01-31") 2700
      schedule cfg 9 none none [] nothing ((idle, (30 * 1440 + 720) * minute_us) ∷ [])
      schedule-Budgeted (record { each = tt; apart = tt })

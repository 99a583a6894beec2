-- ===== src/Slots/Keeps.antt =====
-- worker/catchup.py: the queue after a catch-up.
use bifrost_platform_plugin.Common.{
  ℕ, String, ◌<◌, ◌≡◌, refl, Option, none, some, List, [], ◌∷◌, map,
}
use bifrost_platform_plugin.Common.Text.{lower, Text, codes, strip}
use bifrost_platform_plugin.Common.Json.{Dict, get}
use bifrost_platform_plugin.Common.Result.{Result, ok, raise, ◌>>=◌}
use bifrost_platform_plugin.Common.Int.{pos}
use bifrost_platform_plugin.Queue.{Queue}
use bifrost_platform_plugin.Queue.Enqueue.Dedup.{insert_job-IsSound}
use bifrost_platform_plugin.Queue.Invariant.{IsSound}
use bifrost_platform_plugin.Cron.{Clock}
use bifrost_platform_plugin.Slots.{
  slot_config, slot_budget, named, enqueue_named, enqueue_slot, Missed, missed_slots,
  enqueue_missed, catchup_missed_slots, slot_names, int_or, payload_of, enqueue_key, after_slot,
  after_missed,
}

-- Every slot has at least one attempt.
abbrev pub Budgeted : Dict → Type 0
Budgeted scheduler_cfg =
    (slot : String) (scfg : Dict) (n : ℕ)
    → slot_config scheduler_cfg slot ≡ ok scfg
    → slot_budget scfg ≡ ok n
    → 0 < n

-- What is returned, if anything is, leaves the queue in order.
abbrev Leaves : Result (Option ℕ × Queue) → Type 0
Leaves (ok r) = IsSound r.1
Leaves (raise e) = Unit

then_Leaves :
    {A : Type 0} (r : Result A) (f : A → Result (Option ℕ × Queue))
    → ((a : A) → r ≡ ok a → Leaves (f a))
    → Leaves (r >>= f)
then_Leaves (ok a) f h = h a refl
then_Leaves (raise e) f h = tt

returned_Leaves :
    (r : Result (Option ℕ × Queue))
    → ((o : Option ℕ) (q : Queue) → r ≡ ok (o, q) → IsSound q)
    → Leaves r
returned_Leaves (ok (o, q)) h = h o q refl
returned_Leaves (raise e) h = tt

module _ (digest : Dict → Text) (today : Text) (scheduler_cfg : Dict)
    (budgeted : Budgeted scheduler_cfg) (now : ℕ) where
  enqueue_named-Leaves :
      (slot : String) (payload : Dict) (q : Queue)
      → IsSound q
      → Leaves (enqueue_named digest today now slot scheduler_cfg payload q)
  enqueue_named-Leaves slot payload q s =
      then_Leaves (slot_config scheduler_cfg slot) _ λ scfg read.
        then_Leaves (int_or (pos 0) (get scfg "priority")) _ λ priority _.
          then_Leaves (slot_budget scfg) _ λ budget read'. returned_Leaves _ (λ o q'.
            insert_job-IsSound digest now _ _ priority budget _ q o q' s
              (budgeted slot scfg budget read read'))

  enqueue_key-Leaves :
      (key : Option String) (payload : Dict) (q : Queue)
      → IsSound q
      → Leaves (enqueue_key digest today now key scheduler_cfg payload q)
  enqueue_key-Leaves none payload q s = tt
  enqueue_key-Leaves (some key) payload q s = enqueue_named-Leaves key payload q s

  enqueue_slot-Leaves :
      (slot : Text) (payload : Dict) (q : Queue)
      → IsSound q
      → Leaves (enqueue_slot digest today now slot scheduler_cfg payload q)
  unfolding enqueue_slot
  enqueue_slot-Leaves slot payload q s =
      enqueue_key-Leaves (named (map lower (strip slot))) payload q s

  module _ (local : ℕ → Clock) (day : ℕ → Text) where
    after_slot-IsSound :
        (r : Result (Option ℕ × Queue)) (q : Queue) (more : Queue → Result ℕ × Queue)
        → IsSound q
        → Leaves r
        → ((q' : Queue) → IsSound q' → IsSound (more q').1)
        → IsSound (after_slot local day digest today r q more).1
    after_slot-IsSound (raise e) q more s h keep = s
    after_slot-IsSound (ok (o, q')) q more s h keep = keep q' h

    enqueue_missed-IsSound :
        (missed : List Missed) (q : Queue)
        → IsSound q
        → IsSound (enqueue_missed local day digest today now scheduler_cfg missed q).1
    unfolding enqueue_missed
    enqueue_missed-IsSound [] q s = s
    enqueue_missed-IsSound (m ∷ missed) q s =
        after_slot-IsSound _ q
          (λ q'. enqueue_missed local day digest today now scheduler_cfg missed q') s
          (enqueue_slot-Leaves (codes m.slot) (payload_of local day digest today m) q s)
          (λ q'. enqueue_missed-IsSound missed q')

    after_missed-IsSound :
        (q : Queue) (r : Result (List Missed))
        → IsSound q
        → IsSound (after_missed local day digest today now scheduler_cfg q r).1
    after_missed-IsSound q (raise e) s = s
    after_missed-IsSound q (ok missed) s = enqueue_missed-IsSound missed q s

    -- If every slot has at least one attempt, the catch-up keeps the queue in order, whatever slots
    -- it finds missed and whether or not it raises.
    pub catchup_missed_slots-IsSound :
        (grace_sec : ℕ) (q : Queue)
        → IsSound q
        → IsSound (catchup_missed_slots local day digest today now grace_sec scheduler_cfg q).1
    unfolding catchup_missed_slots
    catchup_missed_slots-IsSound grace_sec q s =
        after_missed-IsSound q
          (missed_slots local day now grace_sec scheduler_cfg q.rows slot_names) s

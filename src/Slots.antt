-- ===== src/Slots.antt =====
-- scheduler/daily.py and worker/catchup.py: the daily slots, and the worker's own enqueue of a slot
-- that the scheduler missed. The cron of a slot is a text where it is set, and a budget is not
-- negative. An instant is a number of microseconds of UTC; the clock and the date in the zone of the
-- schedule (zoneinfo) are arguments.
pub mod Keeps
pub mod Run
mod Tests
use bifrost_platform_plugin.Common.{
  ℕ, String, zero, suc, ◌+◌, ◌-◌, ◌*◌, Bool, true, false, ◌&&◌, ◌||◌, not, Option, none, some, List,
  [], ◌∷◌, ◌++◌, ltb, leb, ◌==◌, if◌then◌else◌, any, map, max,
}
use bifrost_platform_plugin.Common.Int.{ℤ, pos, negsuc}
use bifrost_platform_plugin.Common.Text.{lower, Text, codes, strip, text_eq}
use bifrost_platform_plugin.Common.Json.{
  Json, Dict, null, bool, num, str, arr, obj, empty, entry, get, put, int_of,
}
use bifrost_platform_plugin.Common.Result.{Result, ok, raise, value_error, type_error, ◌>>=◌}
use bifrost_platform_plugin.Queue.{Job, Queue, secs}
use bifrost_platform_plugin.Queue.Enqueue.{insert_job}
use bifrost_platform_plugin.Cron.{Clock, previous_fire}
use bifrost_platform_plugin.Worker.{truthy}

-- SLOT_KIND maps each name to itself.
abbrev pub slot_names : List String
slot_names = "flex-trades" ∷ "flex-transactions" ∷ []

abbrev default_slot_max_attempts : ℕ
default_slot_max_attempts = 8

-- dict(v or {})
abbrev pub dict_or_empty : Option Json → Result Dict
dict_or_empty none = ok empty
dict_or_empty (some (obj d)) = ok d
dict_or_empty (some v) = if truthy v then raise (type_error (codes "no mapping")) else ok empty

-- int(v or default)
abbrev int_or : ℤ → Option Json → Result ℤ
int_or default none = ok default
int_or default (some v) =
    if truthy v
    then elim (int_of v) [ none ↦ raise (value_error (codes "no integer")) | some n ↦ ok n ]
    else ok default

abbrev budget_of : ℤ → ℕ
budget_of (pos n) = n
budget_of (negsuc n) = 0

abbrev is_execution_key : String → Bool
is_execution_key k = any (λ e. text_eq (codes e) (codes k)) ("fallback" ∷ "catchup" ∷ [])

-- {k: v for k, v in body.items() if k not in _EXECUTION_KEYS}
unfoldable pub identity_of : Dict → Dict
identity_of empty = empty
identity_of (entry k v d) =
    let rest = identity_of d in if is_execution_key k then rest else entry k v rest

-- body.setdefault(k, v)
abbrev pub set_default : Dict → String → Json → Dict
set_default d k v = elim (get d k) [ none ↦ put d k v | some w ↦ d ]

-- The settings of a slot: `slots.get(slot)` of the schedule, as a dict.
unfoldable pub slot_config : Dict → String → Result Dict
slot_config scheduler_cfg slot = do
  slots ← dict_or_empty (get scheduler_cfg "slots")
  dict_or_empty (get slots slot)

unfoldable pub slot_budget : Dict → Result ℕ
slot_budget scfg = do
  n ← int_or (pos default_slot_max_attempts) (get scfg "max_attempts")
  ok (budget_of n)

abbrev named : Text → Option String
named key =
    if text_eq key (codes "flex-trades")
    then some "flex-trades"
    else if text_eq key (codes "flex-transactions")
    then some "flex-transactions"
    else none

-- `digest` is payload_hash, `today` is the day that stands for a missing as_of.
module _ (digest : Dict → Text) (today : Text) where
  abbrev enqueue_named : ℕ → String → Dict → Dict → Queue → Result (Option ℕ × Queue)
  enqueue_named now slot scheduler_cfg payload q = do
    scfg ← slot_config scheduler_cfg slot
    priority ← int_or (pos 0) (get scfg "priority")
    max_attempts ← slot_budget scfg
    let body = set_default payload "as_of" (str today)
    insert_job digest now (codes slot) (set_default body "fallback" (bool false)) priority
        max_attempts (some (identity_of body)) q

  abbrev enqueue_key : ℕ → Option String → Dict → Dict → Queue → Result (Option ℕ × Queue)
  enqueue_key now none scheduler_cfg payload q = raise (value_error (codes "unknown slot"))
  enqueue_key now (some key) scheduler_cfg payload q = enqueue_named now key scheduler_cfg payload q

  -- What is returned besides the id of the job tells of the arguments.
  unfoldable pub enqueue_slot : ℕ → Text → Dict → Dict → Queue → Result (Option ℕ × Queue)
  unfolding slot_config slot_budget
  enqueue_slot now slot scheduler_cfg payload q =
      enqueue_key now (named (map lower (strip slot))) scheduler_cfg payload q

-- str(v or ""): what is no text is no cron either.
abbrev pub cron_of : Option Json → Result Text
cron_of none = ok []
cron_of (some (str s)) = ok s
cron_of (some v) = if truthy v then raise (value_error (codes "expected 5-field cron")) else ok []

-- max(created_at) of the jobs of a kind.
unfoldable pub newest_of : Text → List Job → Option ℕ
newest_of kind [] = none
newest_of kind (j ∷ rows) =
    let rest = newest_of kind rows in
    if text_eq j.kind kind
    then elim rest [ none ↦ some j.created_at | some t ↦ some (max j.created_at t) ]
    else rest

abbrev is_since : Option ℕ → ℕ → Bool
is_since none planned = false
is_since (some t) planned = leb planned t

pub record Missed : Type 0 where
  pub slot : String
  pub planned_at : ℕ
  pub as_of : Text

-- The planned fire was missed: it is older than the grace, younger than a day, and no job of the
-- kind was created since.
unfoldable pub is_missed : ℕ → ℕ → Option ℕ → ℕ → Bool
is_missed now grace_sec newest planned =
    not (ltb (now - planned) (secs grace_sec))
    && not (ltb (secs 86400) (now - planned))
    && not (is_since newest planned)

module _ (local : ℕ → Clock) (day : ℕ → Text) where
  abbrev pub missed_at : ℕ → ℕ → Option ℕ → String → Option ℕ → List Missed
  missed_at now grace_sec newest slot none = []
  missed_at now grace_sec newest slot (some planned) =
      if is_missed now grace_sec newest planned
      then (record { slot = slot; planned_at = planned; as_of = day planned }) ∷ []
      else []

  abbrev pub missed_cron : ℕ → ℕ → Option ℕ → String → Text → Result (List Missed)
  missed_cron now grace_sec newest slot [] = ok []
  missed_cron now grace_sec newest slot (c ∷ cron) = do
    planned ← previous_fire (c ∷ cron) local now
    ok (missed_at now grace_sec newest slot planned)

  unfoldable pub missed_slots : ℕ → ℕ → Dict → List Job → List String → Result (List Missed)
  unfolding slot_config newest_of
  missed_slots now grace_sec scheduler_cfg rows [] = ok []
  missed_slots now grace_sec scheduler_cfg rows (slot ∷ slots) = do
    scfg ← slot_config scheduler_cfg slot
    cron ← cron_of (get scfg "cron")
    missed ← missed_cron now grace_sec (newest_of (codes slot) rows) slot cron
    more ← missed_slots now grace_sec scheduler_cfg rows slots
    ok (missed ++ more)

  module _ (digest : Dict → Text) (today : Text) where
    abbrev payload_of : Missed → Dict
    payload_of m = entry "as_of" (str m.as_of) (entry "catchup" (bool true) empty)

    -- How many jobs were enqueued.
    abbrev count : Option ℕ → Result ℕ → Result ℕ
    count none r = r
    count (some job_id) r = r >>= λ n. ok (n + 1)

    -- An exception ends the catch-up; the jobs that are enqueued stay.
    abbrev after_slot :
        Result (Option ℕ × Queue) → Queue → (Queue → Result ℕ × Queue) → Result ℕ × Queue
    after_slot (raise e) q more = (raise e, q)
    after_slot (ok (job_id, q')) q more = let rest = more q' in (count job_id rest.0, rest.1)

    unfoldable pub enqueue_missed : ℕ → Dict → List Missed → Queue → Result ℕ × Queue
    unfolding enqueue_slot
    enqueue_missed now scheduler_cfg [] q = (ok 0, q)
    enqueue_missed now scheduler_cfg (m ∷ missed) q =
        after_slot (enqueue_slot digest today now (codes m.slot) scheduler_cfg (payload_of m) q) q
          (λ q'. enqueue_missed now scheduler_cfg missed q')

    abbrev after_missed : ℕ → Dict → Queue → Result (List Missed) → Result ℕ × Queue
    after_missed now scheduler_cfg q (raise e) = (raise e, q)
    after_missed now scheduler_cfg q (ok missed) = enqueue_missed now scheduler_cfg missed q

    unfoldable pub catchup_missed_slots : ℕ → ℕ → Dict → Queue → Result ℕ × Queue
    unfolding missed_slots
    catchup_missed_slots now grace_sec scheduler_cfg q =
        after_missed now scheduler_cfg q
          (missed_slots now grace_sec scheduler_cfg q.rows slot_names)

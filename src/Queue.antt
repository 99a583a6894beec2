-- ===== src/Queue.antt =====
-- The table ops_jobs.job_flex_ingest (schema/ddl.py): its rows, its id sequence and the partial
-- unique index over active rows. A time is a number of microseconds.
pub mod Claim
pub mod Enqueue
pub mod Rows
pub mod Invariant
pub mod Requeue
pub mod Accept
mod Tests
use bifrost_platform_plugin.Common.{
  ℕ, zero, suc, ◌+◌, ◌*◌, Bool, true, false, ◌&&◌, ◌||◌, not, Option, none, some, List, [], ◌∷◌,
  ltb, leb, ◌==◌, if◌then◌else◌, any, filter, map,
}
use bifrost_platform_plugin.Common.Int.{ℤ, ltb_ℤ}
use bifrost_platform_plugin.Common.Text.{Text, text_eq}
use bifrost_platform_plugin.Common.Json.{Json, Dict}

-- The values of the status column.
pub data Status : Type 0 where
  pending running done failed : Status

abbrev pub is_pending : Status → Bool
is_pending pending = true
is_pending _ = false

abbrev pub is_running : Status → Bool
is_running running = true
is_running _ = false

-- status IN ('pending', 'running')
abbrev pub is_active : Status → Bool
is_active pending = true
is_active running = true
is_active _ = false

-- status IN ('done', 'failed')
abbrev pub is_finished : Status → Bool
is_finished s = not (is_active s)

-- A row of the table.
pub record Job : Type 0 where
  pub id : ℕ
  pub kind : Text
  pub payload : Dict
  pub payload_hash : Option Text
  pub priority : ℤ
  pub status : Status
  pub attempts : ℕ
  pub max_attempts : ℕ
  pub result : Option Json
  pub error_category : Option Text
  pub not_before : Option ℕ
  pub created_at : ℕ
  pub updated_at : ℕ
  pub started_at : Option ℕ
  pub finished_at : Option ℕ

-- `next_id` is the sequence behind the bigserial id.
pub record Queue : Type 0 where
  pub next_id : ℕ
  pub rows : List Job

-- make_interval(secs => n)
abbrev pub secs : ℕ → ℕ
secs n = n * 1000000

abbrev pub same_hash : Option Text → Option Text → Bool
same_hash (some h) (some k) = text_eq h k
same_hash _ _ = false

-- The two rows would meet in the unique index job_flex_ingest_kind_hash_active.
unfoldable pub clash : Job → Job → Bool
clash j k =
    is_active j.status
    && is_active k.status
    && text_eq j.kind k.kind
    && same_hash j.payload_hash k.payload_hash

-- UPDATE … SET f WHERE p
unfoldable pub update_where : (Job → Bool) → (Job → Job) → List Job → List Job
update_where p f [] = []
update_where p f (j ∷ rows) = (if p j then f j else j) ∷ update_where p f rows

abbrev pub has_id : ℕ → Job → Bool
has_id n j = j.id == n

-- The ids of the rows with p: RETURNING id.
unfoldable pub ids_where : (Job → Bool) → List Job → List ℕ
ids_where p [] = []
ids_where p (j ∷ rows) = let rest = ids_where p rows in if p j then j.id ∷ rest else rest

-- ===== src/Queue/Tests.antt =====
-- worker/claim.py and scheduler/enqueue.py on small tables.
use bifrost_platform_plugin.Common.{
  ◌≤◌, ◌≡◌, refl, arith, false, none, some, [], ◌∷◌, Memᴰ, length, ◌⊎◌, true, any, ◌++◌,
}
use bifrost_platform_plugin.Common.Int.{pos}
use bifrost_platform_plugin.Common.Text.{Text, codes, strip, text_eq}
use bifrost_platform_plugin.Common.Json.{Dict, empty}
use bifrost_platform_plugin.Common.Result.{ok}
use bifrost_platform_plugin.Queue.{running, done, Job, Queue, update_where, has_id, clash}
use bifrost_platform_plugin.Queue.Claim.{claim_next, requeue_row, mark_retry}
use bifrost_platform_plugin.Queue.Claim.Choice.{Idle, Taken, is_free, claim_next-cases}
use bifrost_platform_plugin.Queue.Invariant.{IsSound}
use bifrost_platform_plugin.Queue.Requeue.{mark_retry-IsSound}
use bifrost_platform_plugin.Queue.Accept.{mark_retry-accepts}
use bifrost_platform_plugin.Queue.Enqueue.{
  insert_job, insert_unless_clash, proposed, trim_old_jobs, finished_rows,
}
use bifrost_platform_plugin.Queue.Enqueue.Dedup.{holds_key, insert_job-IsSound, insert_job-again}
use bifrost_platform_plugin.Queue.Enqueue.Trim.{trim_old_jobs-bound, trim_old_jobs-keeps_active}

abbrev waiting : Job
waiting = proposed 1 5 (codes "flex-trades") empty (some (codes "a")) (pos 0) 3

abbrev busy : Job
busy = record (proposed 2 5 (codes "flex-trades") empty (some (codes "b")) (pos 1) 3) {
  status = running;
  attempts = 1;
  started_at = some 6;
}

abbrev over : Job
over = record (proposed 3 5 (codes "flex-transactions") empty (some (codes "a")) (pos 1) 3) {
  status = done;
  attempts = 1;
  started_at = some 6;
  finished_at = some 7;
}

abbrev three : Queue
three = record { next_id = 4; rows = waiting ∷ busy ∷ over ∷ [] }

abbrev digest_all : Dict → Text
digest_all d = codes "a"

three-IsSound : IsSound three
unfolding clash text_eq
three-IsSound = record {
  each = (ground arith, (ground arith, (ground arith, tt)));
  apart = (
    (
      record { ids = λ e. omega (arith, e); keys = refl },
      (record { ids = λ e. omega (arith, e); keys = refl }, tt),
    ),
    ((record { ids = λ e. omega (arith, e); keys = refl }, tt), (tt, tt)),
  );
}

claim_next-cases_example :
    Idle (is_free (λ _. false) 9) three (claim_next (λ _. false) 9 three)
    ⊎ Taken (is_free (λ _. false) 9) 9 three (claim_next (λ _. false) 9 three)
claim_next-cases_example = claim_next-cases (λ _. false) 9 three

abbrev retried : Queue
retried = record three {
  rows = waiting ∷ requeue_row 9 (codes "timeout") (codes "unknown") 120 busy ∷ over ∷ [];
}

mark_retry-three : mark_retry 9 2 (codes "timeout") (codes "unknown") 120 three ≡ ok retried
unfolding mark_retry clash text_eq
mark_retry-three = refl

mark_retry-IsSound_example : IsSound retried
mark_retry-IsSound_example =
    mark_retry-IsSound 9 2 (codes "timeout") (codes "unknown") 120 three retried three-IsSound
      ((λ e. omega (arith, e)), ((λ e. omega (arith, e)), ((λ e. omega (arith, e)), tt)))
      mark_retry-three

mark_retry-accepts_example :
    mark_retry 9 2 (codes "timeout") (codes "unknown") 120 three
    ≡ ok (record three {
      rows =
          update_where
            (has_id 2)
            (requeue_row 9 (codes "timeout") (codes "unknown") 120)
            three.rows;
    })
mark_retry-accepts_example =
    mark_retry-accepts 9 2 (codes "timeout") (codes "unknown") 120 three three-IsSound
      ((λ e. refl), ((λ e. refl), ((λ e. absurd (omega (arith, e))), tt)))

abbrev last : Job
last = proposed 4 8 (codes "flex-transactions") empty (some (codes "a")) (pos 0) 3

abbrev four : Queue
four = record { next_id = 5; rows = waiting ∷ busy ∷ over ∷ last ∷ [] }

-- A finished row does not stand in the way of a new one with its key.
insert_job-three :
    insert_job digest_all 8 (codes " flex-transactions ") empty (pos 0) 3 none three
    ≡ ok (some 4, four)
unfolding insert_job insert_unless_clash clash strip text_eq
insert_job-three = refl

insert_job-IsSound_example : IsSound four
insert_job-IsSound_example =
    insert_job-IsSound digest_all 8 (codes " flex-transactions ") empty (pos 0) 3 none three
      (some 4) four three-IsSound (omega arith) insert_job-three

-- The job has ended, so the same one is inserted again.
abbrev ended : Queue
ended = record {
  next_id = 5;
  rows = waiting ∷ busy ∷ over ∷ record last { status = done; finished_at = some 9 } ∷ [];
}

insert_job-again_example :
    (any (holds_key (codes "flex-transactions") (codes "a")) four.rows ≡ true)
    × (insert_job digest_all 20 (codes " flex-transactions ") empty (pos 7) 1 none ended
        ≡ ok (
          some 5,
          record {
            next_id = 6;
            rows =
                ended.rows
                ++ proposed 5 20 (codes "flex-transactions") empty (some (codes "a")) (pos 7) 1
                  ∷ [];
          },
        ))
unfolding text_eq strip
insert_job-again_example =
    insert_job-again digest_all 8 (codes " flex-transactions ") empty (pos 0) 3 none three (some 4)
      four 20 (pos 7) 1 ended insert_job-three refl refl

trim_old_jobs-bound_example : length (finished_rows (trim_old_jobs 9 1 0 three).1.rows) ≤ 0
trim_old_jobs-bound_example = trim_old_jobs-bound 9 1 0 three

trim_old_jobs-keeps_active_example : Memᴰ busy (trim_old_jobs 9 1 0 three).1.rows
trim_old_jobs-keeps_active_example =
    trim_old_jobs-keeps_active 9 1 0 three busy three-IsSound (Memᴰ.tail (Memᴰ.head refl)) refl

-- ===== src/Queue/Invariant.antt =====
-- What holds of the queue between two operations of worker/claim.py.
use bifrost_platform_plugin.Common.{
  ℕ, max, ◌≤◌, ◌<◌, ◌≡◌, refl, sym, subst, Bool, true, false, Option, none, some, arith, All,
  All-map, All-both, inl, inr, ==_iff,
}
use bifrost_platform_plugin.Common.Text.{Text}
use bifrost_platform_plugin.Common.Json.{Dict}
use bifrost_platform_plugin.Queue.{
  is_pending, is_running, is_active, is_finished, Job, Queue, update_where, has_id,
}
use bifrost_platform_plugin.Queue.Claim.{
  is_runnable, claim_next, start_running, reclaim_stale_running, reclaim_row, is_stale, mark_done,
  finish_row, mark_failed, fail_row, defer_pending, defer_row,
}
use bifrost_platform_plugin.Queue.Claim.Choice.{is_free, claim_next-cases}
use bifrost_platform_plugin.Queue.Rows.{
  by_id, Pairwise, Apart, Within, update_where-All, update_where-Apart,
}

abbrev pub is_some : Option ℕ → Bool
is_some none = false
is_some (some _) = true

-- A row as the operations leave it: its id was drawn from the sequence, its attempts stay within
-- its budget, with one left while it is pending, and it has an end exactly if it is finished.
pub record IsRow (next_id : ℕ) (j : Job) : Type 0 where
  pub drawn : j.id < next_id
  pub budget : j.attempts ≤ j.max_attempts
  pub room : is_pending j.status ≡ true → j.attempts < j.max_attempts
  pub ended : is_some j.finished_at ≡ is_finished j.status
  pub begun : is_running j.status ≡ true → is_some j.started_at ≡ true

pub record IsSound (q : Queue) : Type 0 where
  pub each : All (IsRow q.next_id) q.rows
  pub apart : Pairwise Apart q.rows

-- An update that keeps each chosen row in order, and takes no new key, keeps the queue in order.
update-IsSound :
    (C : Job → Type 0) (q : Queue) (p : Job → Bool) (f : Job → Job)
    → All C q.rows
    → ((j : Job) → C j → p j ≡ true → Within (f j) j)
    → ((j : Job) → C j → p j ≡ true → IsRow q.next_id j → IsRow q.next_id (f j))
    → IsSound q
    → IsSound (record q { rows = update_where p f q.rows })
update-IsSound C q p f context within keep s = record {
  each =
      update_where-All p f {C = λ j. IsRow q.next_id j × C j} (λ j c hit. keep j c.1 hit c.0)
        (λ j c miss. c.0) q.rows (All-both (IsRow q.next_id) C q.rows s.each context);
  apart = update_where-Apart p f within q.rows context s.apart;
}

-- The same where the update asks nothing of a row.
pub update_any-IsSound :
    (q : Queue) (p : Job → Bool) (f : Job → Job)
    → ((j : Job) → p j ≡ true → Within (f j) j)
    → ((j : Job) → p j ≡ true → IsRow q.next_id j → IsRow q.next_id (f j))
    → IsSound q
    → IsSound (record q { rows = update_where p f q.rows })
update_any-IsSound q p f within keep s =
    update-IsSound (IsRow q.next_id) q p f s.each (λ j _. within j) (λ j _. keep j) s

is_stale-active : (now sec : ℕ) (j : Job) → is_stale now sec j ≡ true → is_active j.status ≡ true
unfolding is_stale
is_stale-active now sec j h = ground arith

reclaim_row-IsRow :
    (now delay sec n : ℕ) (j : Job)
    → is_stale now sec j ≡ true
    → IsRow n j
    → IsRow n (reclaim_row now delay sec j)
unfolding reclaim_row
reclaim_row-IsRow now delay sec n j h r = ground arith

reclaim_row-Within :
    (now delay sec : ℕ) (j : Job)
    → is_stale now sec j ≡ true
    → Within (reclaim_row now delay sec j) j
unfolding reclaim_row
reclaim_row-Within now delay sec j h = record {
  id = refl;
  kind = refl;
  hash = refl;
  active = λ _. is_stale-active now sec j h;
}

module _ (now : ℕ) where
  pub mark_done-IsSound :
      (job_id : ℕ) (outcome : Dict) (q : Queue)
      → IsSound q
      → IsSound (mark_done now job_id outcome q)
  unfolding mark_done
  mark_done-IsSound job_id outcome q s =
      update_any-IsSound q (has_id job_id) (finish_row now outcome) (λ j _. ground arith)
        (λ j _ r. ground arith) s

  pub mark_failed-IsSound :
      (job_id : ℕ) (error category : Text) (q : Queue)
      → IsSound q
      → IsSound (mark_failed now job_id error category q)
  unfolding mark_failed
  mark_failed-IsSound job_id error category q s =
      update_any-IsSound q (has_id job_id) (fail_row now error category) (λ j _. ground arith)
        (λ j _ r. ground arith) s

  pub defer_pending-IsSound :
      (delay_sec : ℕ) (exclude_id : Option ℕ) (q : Queue)
      → IsSound q
      → IsSound (defer_pending now delay_sec exclude_id q).1
  unfolding defer_pending defer_row
  defer_pending-IsSound delay_sec exclude_id q s =
      update_any-IsSound q _ (defer_row now delay_sec) (λ j _. ground arith) (λ j _ r. ground arith)
        s

  pub reclaim_stale_running-IsSound :
      (stale_after_sec delay : ℕ) (q : Queue)
      → IsSound q
      → IsSound (reclaim_stale_running now stale_after_sec delay q).1
  unfolding reclaim_stale_running
  reclaim_stale_running-IsSound stale_after_sec delay q s =
      update_any-IsSound q _ _ (reclaim_row-Within now delay _)
        (reclaim_row-IsRow now delay _ q.next_id) s

  -- Taking back the stale jobs keeps the queue in order, and leaves no stale row behind.
  pub reclaim_stale_running-fresh :
      (stale_after_sec delay : ℕ) (q : Queue)
      → IsSound q
      → IsSound (reclaim_stale_running now stale_after_sec delay q).1
        × All
            (λ j. is_stale now (max 60 stale_after_sec) j ≡ false)
            (reclaim_stale_running now stale_after_sec delay q).1.rows
  unfolding reclaim_stale_running is_stale reclaim_row
  reclaim_stale_running-fresh stale_after_sec delay q s = (
    reclaim_stale_running-IsSound stale_after_sec delay q s,
    update_where-All (is_stale now (max 60 stale_after_sec))
        (reclaim_row now delay (max 60 stale_after_sec)) (λ j _ hit. ground arith)
        (λ j _ miss. miss) q.rows s.each,
  )

start_running-Within :
    (now : ℕ) (j : Job) → is_active j.status ≡ true → Within (start_running now j) j
start_running-Within now j active = record {
  id = refl;
  kind = refl;
  hash = refl;
  active = λ _. active;
}

start_running-IsRow :
    (now n : ℕ) (j : Job) → is_pending j.status ≡ true → IsRow n j → IsRow n (start_running now j)
start_running-IsRow now n j waiting r = ground arith

abbrev pub Waiting : Job → Type 0
Waiting j = (is_pending j.status ≡ true) × (is_active j.status ≡ true)

pub is_free-pending :
    (is_locked : Job → Bool) (now : ℕ) (j : Job) → is_free is_locked now j ≡ true → Waiting j
unfolding is_runnable
is_free-pending is_locked now j h = ground arith

-- A claim keeps the queue in order.
pub claim_next-IsSound :
    (is_locked : Job → Bool) (now : ℕ) (q : Queue)
    → IsSound q
    → IsSound (claim_next is_locked now q).1
claim_next-IsSound is_locked now q s = elim (claim_next-cases is_locked now q) [
  | inl idle ↦ rw idle.unchanged s
  | inr t ↦
      let waits = is_free-pending is_locked now t.row t.chosen.fits in
      let context =
        All-map (λ k same e. subst Waiting (sym (same e)) waits) q.rows
          (by_id q.rows s.apart t.chosen.member) in
      rw t.queue (
        update-IsSound (λ k. k.id ≡ t.row.id → Waiting k) q (has_id t.row.id) (start_running now)
          context (λ k c hit. start_running-Within now k (c ((==_iff _ _).0 hit)).1)
          (λ k c hit. start_running-IsRow now q.next_id k (c ((==_iff _ _).0 hit)).0) s)
]

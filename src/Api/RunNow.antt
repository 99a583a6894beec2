-- ===== src/Api/RunNow.antt =====
-- api/ingest.py: what POST /flex/ingest/jobs/{job_id}/run-now does, and the worker's next claim.
use bifrost_platform_plugin.Common.{
  ℕ, ◌≡◌, refl, sym, ap, ◌∙◌, subst, Bool, true, false, ◌&&◌, not, Option, none, some, List, [],
  ◌∷◌, arith, filter, All, All-at, Memᴰ, Bool-cases, inl, inr, ==_iff,
}
use bifrost_platform_plugin.Common.Text.{Text}
use bifrost_platform_plugin.Queue.{is_pending, Job, Queue, update_where, has_id}
use bifrost_platform_plugin.Queue.Rows.{update_where-others, Memᴰ-update_where}
use bifrost_platform_plugin.Queue.Invariant.{IsSound, update_any-IsSound}
use bifrost_platform_plugin.Queue.Claim.{precedes, is_runnable, claim_next}
use bifrost_platform_plugin.Queue.Claim.Choice.{is_free, Taken, claim_next-cases}
use bifrost_platform_plugin.Api.{HttpReply, answer, http_exception, server_error}
use bifrost_platform_plugin.Api.Jobs.{
  find_job, is_throttled, is_later, clear_not_before, RunNow, Decision, refuse, run, decide,
  is_waiting, carry_out, run_job_now,
}

-- The row with the id was pending when it was read, and it did not cool down from a throttle, or the
-- call was forced.
pub record MayRun (now job_id : ℕ) (force : Bool) (rows : List Job) (row : Job) : Type 0 where
  pub member : Memᴰ row rows
  pub id : row.id ≡ job_id
  pub waits : is_pending row.status ≡ true
  pub cooled :
      (is_throttled row.error_category && is_later now row.not_before) ≡ true → force ≡ true

find_job-found :
    (n : ℕ) (rows : List Job) (j : Job) → find_job n rows ≡ some j → Memᴰ j rows × (j.id ≡ n)
unfolding find_job
find_job-found n [] j h = cc
find_job-found n (k ∷ rows) j h = elim (Bool-cases (has_id n k)) [
  | inl hit ↦
      let same : k ≡ j = ground arith in
      (Memᴰ.head (sym same), sym (ap (λ i. i.id) same) ∙ (==_iff _ _).0 hit)
  | inr miss ↦ let (m, e) = find_job-found n rows j (ground arith) in (Memᴰ.tail m, e)
]

cleared :
    (now n : ℕ) (rows : List Job)
    → All
        (λ j. (j.id ≡ n) → is_pending j.status ≡ true → j.not_before ≡ none)
        (update_where (is_waiting n) (clear_not_before now) rows)
unfolding update_where clear_not_before
cleared now n [] = tt
cleared now n (j ∷ rows) = (ground arith, cleared now n rows)

module _ (local_text iso_text : ℕ → Text) (now job_id : ℕ) (force : Bool) where
  decide-run :
      (o : Option Job) (row : Job)
      → decide local_text iso_text now job_id force o ≡ run row
      → (o ≡ some row)
        × (is_pending row.status ≡ true)
        × ((is_throttled row.error_category && is_later now row.not_before) ≡ true → force ≡ true)
  unfolding decide
  decide-run none row h = cc
  decide-run (some k) row h = elim (Bool-cases (is_pending k.status)) [
    | inr idle ↦ absurd (ground arith)
    | inl waits ↦
        elim (Bool-cases
          (is_throttled k.error_category && is_later now k.not_before && not force)) [
            | inl held ↦ absurd (ground arith)
            | inr free ↦
                let same : k ≡ row = ground arith in
                subst
                  (λ j.
                    (some k ≡ some j)
                    × (is_pending j.status ≡ true)
                    × ((is_throttled j.error_category && is_later now j.not_before) ≡ true
                        → force ≡ true))
                  same (refl, waits, λ hot. ground arith)
          ]
  ]

  -- How the call ends: the queue that it leaves, for what it answers.
  abbrev pub RunsNow : Queue → Queue → HttpReply RunNow × Queue → Type 0
  RunsNow read q (answer r, after) =
      ((row : Job) × MayRun now job_id force read.rows row)
      × All (λ j. (j.id ≡ job_id) → is_pending j.status ≡ true → j.not_before ≡ none) after.rows
      × (filter (λ j. not (has_id job_id j)) after.rows
          ≡ filter (λ j. not (has_id job_id j)) q.rows)
      × (IsSound q → IsSound after)
  RunsNow read q (http_exception code detail, after) = after ≡ q
  RunsNow read q (server_error e, after) = after ≡ q

  carry_out-IsSound :
      (q : Queue)
      → IsSound q
      → IsSound (record q { rows = update_where (is_waiting job_id) (clear_not_before now) q.rows })
  unfolding clear_not_before
  carry_out-IsSound q s =
      update_any-IsSound q (is_waiting job_id) (clear_not_before now) (λ j _. ground arith)
        (λ j _ r. ground arith) s

  carry_out-RunsNow :
      (read q : Queue) (d : Decision)
      → decide local_text iso_text now job_id force (find_job job_id read.rows) ≡ d
      → RunsNow read q (carry_out local_text iso_text now job_id q d)
  unfolding clear_not_before
  carry_out-RunsNow read q (refuse code detail) h = refl
  carry_out-RunsNow read q (run row) h =
      let (found, waits, cooled) = decide-run (find_job job_id read.rows) row h in
      let (member, id) = find_job-found job_id read.rows row found in
      (
        (row, record { member = member; id = id; waits = waits; cooled = cooled }),
        cleared now job_id q.rows,
        update_where-others (is_waiting job_id) (clear_not_before now) (has_id job_id)
            (λ j h. ground arith) (λ j. refl) q.rows,
        carry_out-IsSound q,
      )

  -- However a call of run-now ends, also if other transactions changed the table between its two
  -- statements. Where it answers, the row that it read was pending under that id, and was not held back
  -- by a throttle unless the call was forced; afterwards no pending row with the id has a time to wait
  -- for, every other row is as it was, and a queue in order stays in order. Where it answers an error,
  -- the queue is as it was.
  pub run_job_now-RunsNow :
      (read q : Queue) → RunsNow read q (run_job_now local_text iso_text now job_id force read q)
  unfolding run_job_now
  run_job_now-RunsNow read q = carry_out-RunsNow read q _ refl

  -- The job is the next that a worker claims, unless a runnable one stands in front of it.
  pub record ClaimsIt (later : ℕ) (after : Queue) : Type 0 where
    pub taken : Taken (is_free (λ j. false) later) later after (claim_next (λ j. false) later after)
    pub row : Job
    pub member : Memᴰ row after.rows
    pub id : row.id ≡ job_id
    pub in_turn : precedes row taken.row ≡ false

  claims-waiting :
      (later : ℕ) (after : Queue) (row : Job)
      → Memᴰ row after.rows
      → row.id ≡ job_id
      → is_free (λ j. false) later row ≡ true
      → ClaimsIt later after
  claims-waiting later after row member id free = elim (claim_next-cases (λ j. false) later after) [
    | inl idle ↦
        absurd (cc (All-at (λ j. is_free (λ j. false) later j ≡ false) idle.none_free member, free))
    | inr t ↦ record {
      taken = t;
      row = row;
      member = member;
      id = id;
      in_turn = All-at _ t.chosen.first member free;
    }
  ]

  claims-cleared :
      (later : ℕ) (q : Queue) (row : Job)
      → Memᴰ row q.rows
      → row.id ≡ job_id
      → is_pending row.status ≡ true
      → ClaimsIt later
          (record q { rows = update_where (is_waiting job_id) (clear_not_before now) q.rows })
  unfolding clear_not_before is_runnable
  claims-cleared later q row member id waits =
      claims-waiting later _ (clear_not_before now row)
        (Memᴰ-update_where (is_waiting job_id) (clear_not_before now) q.rows member
          (ground (arith, (==_iff row.id job_id).1 id)))
        id (ground arith)

  carry_out-claims :
      (later : ℕ) (q after : Queue) (r : RunNow) (d : Decision)
      → decide local_text iso_text now job_id force (find_job job_id q.rows) ≡ d
      → carry_out local_text iso_text now job_id q d ≡ (answer r, after)
      → ClaimsIt later after
  carry_out-claims later q after r (refuse code detail) h e = cc
  carry_out-claims later q after r (run row) h e =
      let (found, waits, cooled) = decide-run (find_job job_id q.rows) row h in
      let (member, id) = find_job-found job_id q.rows row found in
      subst (ClaimsIt later) (ap (λ p. p.1) e) (claims-cleared later q row member id waits)

  -- If a call answers and no other transaction came in between, then the worker's next claim, at any
  -- later time, takes a job: this one, or one that does not come after it in the order of the queue.
  pub run_job_now-claimed :
      (later : ℕ) (q after : Queue) (r : RunNow)
      → run_job_now local_text iso_text now job_id force q q ≡ (answer r, after)
      → ClaimsIt later after
  unfolding run_job_now
  run_job_now-claimed later q after r e = carry_out-claims later q after r _ refl e

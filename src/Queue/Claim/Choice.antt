-- ===== src/Queue/Claim/Choice.antt =====
-- worker/claim.py: which row `claim_next` takes.
use bifrost_platform_plugin.Common.{
  ℕ, ◌+◌, ◌&&◌, not, ◌≡◌, refl, subst, Bool, true, false, Option, none, some, List, [], ◌∷◌, arith,
  All, All-map, Memᴰ, Bool-cases, inl, inr, ◌<◌, ◌⊎◌,
}
use bifrost_platform_plugin.Queue.{Job, Queue, update_where, has_id}
use bifrost_platform_plugin.Queue.Claim.{
  precedes, first_of, select_first, ClaimedJob, row_to_job, start_running, is_runnable, claim_row,
  claim_next,
}

precedes_irrefl : (j : Job) → precedes j j ≡ false
unfolding precedes
precedes_irrefl j = ground arith

precedes_asym : (j k : Job) → precedes j k ≡ true → precedes k j ≡ false
unfolding precedes
precedes_asym j k h = ground arith

-- What does not stand in front of k, does not stand in front of a row behind k.
not-precedes_trans :
    (j k l : Job) → precedes k j ≡ false → precedes l k ≡ false → precedes l j ≡ false
unfolding precedes
not-precedes_trans j k l h m = ground arith

-- The row is in the table, has p, and no row with p stands in front of it.
pub record Chosen (p : Job → Bool) (rows : List Job) (j : Job) : Type 0 where
  pub member : Memᴰ j rows
  pub fits : p j ≡ true
  pub first : All (λ k. p k ≡ true → precedes k j ≡ false) rows

pub select_first-none :
    (p : Job → Bool) (rows : List Job) → select_first p rows ≡ none → All (λ k. p k ≡ false) rows
unfolding select_first
select_first-none p [] e = tt
select_first-none p (x ∷ rows) e = elim (Bool-cases (p x)) [
  | inl fits ↦ absurd (ground arith)
  | inr misses ↦ (misses, select_first-none p rows (ground arith))
]

module _ (p : Job → Bool) (x : Job) (rows : List Job) where
  Chosen-later :
      {j : Job} → Chosen p rows j → (p x ≡ true → precedes x j ≡ false) → Chosen p (x ∷ rows) j
  Chosen-later c front = record {
    member = Memᴰ.tail c.member;
    fits = c.fits;
    first = (front, c.first);
  }

  -- The head is chosen over the first row of the tail exactly if that does not stand in front of it.
  Chosen-first_of :
      (fits : p x ≡ true) (o : Option Job)
      → select_first p rows ≡ o
      → ((j : Job) → o ≡ some j → Chosen p rows j)
      → Chosen p (x ∷ rows) (first_of x o)
  unfolding first_of
  Chosen-first_of fits none e tail = record {
    member = Memᴰ.head refl;
    fits = fits;
    first = (λ _. precedes_irrefl x, All-map (λ k miss hit. cc) rows (select_first-none p rows e));
  }
  Chosen-first_of fits (some k) e tail = elim (Bool-cases (precedes k x)) [
    | inl front ↦ rw front (Chosen-later (tail k refl) (λ _. precedes_asym k x front))
    | inr behind ↦ rw behind (record {
      member = Memᴰ.head refl;
      fits = fits;
      first = (
        λ _. precedes_irrefl x,
        All-map (λ l ahead hit. not-precedes_trans x k l behind (ahead hit)) rows
            (tail k refl).first,
      );
    })
  ]

pub select_first-Chosen :
    (p : Job → Bool) (rows : List Job) (j : Job) → select_first p rows ≡ some j → Chosen p rows j
unfolding select_first
select_first-Chosen p [] j e = cc
select_first-Chosen p (x ∷ rows) j e = elim (Bool-cases (p x)) [
  | inl fits ↦
      let same : first_of x (select_first p rows) ≡ j = ground arith in
      subst (Chosen p (x ∷ rows)) same
        (Chosen-first_of p x rows fits (select_first p rows) refl (select_first-Chosen p rows))
  | inr misses ↦ Chosen-later p x rows (select_first-Chosen p rows j (ground arith)) (λ h. cc)
]

-- The claim of one row: the job that the worker gets, and the row that is running afterwards.
pub record Taken (free : Job → Bool) (now : ℕ) (q : Queue) (r : Option ClaimedJob × Queue)
    : Type 0 where
  pub row : Job
  pub chosen : Chosen free q.rows row
  pub job : ClaimedJob
  pub returned : r.0 ≡ some job
  pub same_job : (job.id ≡ row.id) × (job.kind ≡ row.kind) × (job.payload ≡ row.payload)
  pub counted : job.attempts ≡ row.attempts + 1
  pub budget : 0 < row.max_attempts → job.max_attempts ≡ row.max_attempts
  pub queue : r.1 ≡ record q { rows = update_where (has_id row.id) (start_running now) q.rows }

-- No row could be claimed, and nothing was changed.
pub record Idle (free : Job → Bool) (q : Queue) (r : Option ClaimedJob × Queue) : Type 0 where
  pub nothing : r.0 ≡ none
  pub unchanged : r.1 ≡ q
  pub none_free : All (λ k. free k ≡ false) q.rows

-- The rows that a claim may take: runnable, and not locked by another transaction.
abbrev pub is_free : (Job → Bool) → ℕ → Job → Bool
is_free is_locked now j = is_runnable now j && not (is_locked j)

claim_row-cases :
    (free : Job → Bool) (now : ℕ) (q : Queue) (o : Option Job)
    → select_first free q.rows ≡ o
    → Idle free q (claim_row now q o) ⊎ Taken free now q (claim_row now q o)
unfolding row_to_job
claim_row-cases free now q none e =
    inl (record { nothing = refl; unchanged = refl; none_free = select_first-none free q.rows e })
claim_row-cases free now q (some j) e = inr (record {
  row = j;
  chosen = select_first-Chosen free q.rows j e;
  job = record (row_to_job j) { attempts = j.attempts + 1 };
  returned = refl;
  same_job = (refl, refl, refl);
  counted = refl;
  budget = λ some_budget. ground arith;
  queue = refl;
})

-- A claim takes the first free row by priority, age and id, counts one more attempt and changes
-- that row alone; or no row is free, and then nothing is changed.
pub claim_next-cases :
    (is_locked : Job → Bool) (now : ℕ) (q : Queue)
    → Idle (is_free is_locked now) q (claim_next is_locked now q)
      ⊎ Taken (is_free is_locked now) now q (claim_next is_locked now q)
unfolding claim_next
claim_next-cases is_locked now q = claim_row-cases (is_free is_locked now) now q _ refl

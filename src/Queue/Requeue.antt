-- ===== src/Queue/Requeue.antt =====
-- worker/claim.py: `mark_retry` makes a row active again, and the unique index may refuse that.
use bifrost_platform_plugin.Common.{
  ℕ, ◌<◌, ◌≡◌, ◌≢◌, refl, sym, true, false, ◌&&◌, not, Option, none, some, List, [], ◌∷◌, arith,
  any, All, All-both, Memᴰ, any-false-at, Bool-cases, inl, inr, if◌then◌else◌, ==_iff, ◌==◌,
}
use bifrost_platform_plugin.Common.Text.{Text, text_eq, text_eq_iff}
use bifrost_platform_plugin.Common.Result.{ok}
use bifrost_platform_plugin.Queue.{Job, Queue, clash, same_hash, update_where, has_id}
use bifrost_platform_plugin.Queue.Claim.{mark_retry, requeue_row, is_taken}
use bifrost_platform_plugin.Queue.Rows.{Pairwise, Apart, update_where-All}
use bifrost_platform_plugin.Queue.Invariant.{IsRow, IsSound}

pub text_eq_comm : (s t : Text) → text_eq s t ≡ text_eq t s
text_eq_comm s t = ground (arith, text_eq_iff s t, text_eq_iff t s)

same_hash_comm : (h k : Option Text) → same_hash h k ≡ same_hash k h
same_hash_comm none none = refl
same_hash_comm none (some k) = refl
same_hash_comm (some h) none = refl
same_hash_comm (some h) (some k) = text_eq_comm h k

pub clash_comm : (j k : Job) → clash j k ≡ clash k j
unfolding clash
clash_comm j k =
    ground (arith, text_eq_comm j.kind k.kind, same_hash_comm j.payload_hash k.payload_hash)

pub Apart-comm : {j k : Job} → Apart j k → Apart k j
Apart-comm {j} {k} a = record { ids = λ e. a.ids (sym e); keys = rw (clash_comm k j) a.keys }

module _ (n : ℕ) (f : Job → Job) (full : List Job) where
  placed : Job → Job
  placed j = if has_id n j then f j else j

  -- An update of one row keeps the rows apart if the new row is apart from all the others.
  module _
      (free : (j k : Job) → Memᴰ j full → Memᴰ k full → j.id ≡ n → Apart j k → Apart (f j) k) where
    placed-Apart : (j k : Job) → Memᴰ j full → Memᴰ k full → Apart j k → Apart (placed j) (placed k)
    unfolding placed
    placed-Apart j k mj mk a = elim (Bool-cases (has_id n j)) [
      | inl hit ↦ elim (Bool-cases (has_id n k)) [
        | inl too ↦ absurd (a.ids (ground arith))
        | inr other ↦ rw (hit, other) (free j k mj mk ((==_iff _ _).0 hit) a)
      ]
      | inr miss ↦ elim (Bool-cases (has_id n k)) [
        | inl hit ↦ rw (miss, hit) (Apart-comm (free k j mk mj ((==_iff _ _).0 hit) (Apart-comm a)))
        | inr other ↦ rw (miss, other) a
      ]
    ]

    one-Apart :
        (j : Job)
        → Memᴰ j full
        → (rows : List Job) → ((k : Job) → Memᴰ k rows → Memᴰ k full)
        → All (Apart j) rows
        → All (Apart (placed j)) (update_where (has_id n) f rows)
    unfolding update_where placed
    one-Apart j mj [] sub a = tt
    one-Apart j mj (k ∷ rows) sub a = (
      placed-Apart j k mj (sub k (Memᴰ.head refl)) a.0,
      one-Apart j mj rows (λ l m. sub l (Memᴰ.tail m)) a.1,
    )

    rows-Apart :
        (rows : List Job)
        → ((k : Job) → Memᴰ k rows → Memᴰ k full)
        → Pairwise Apart rows
        → Pairwise Apart (update_where (has_id n) f rows)
    unfolding update_where placed
    rows-Apart [] sub a = tt
    rows-Apart (j ∷ rows) sub a =
        let later = λ (l : Job) (m : Memᴰ l rows). sub l (Memᴰ.tail m) in
        (one-Apart j (sub j (Memᴰ.head refl)) rows later a.0, rows-Apart rows later a.1)

module _ (now n : ℕ) (error category : Text) (delay : ℕ) where
  abbrev requeued : Job → Job
  requeued = requeue_row now error category delay

  is_taken-at :
      (full : List Job) (j k : Job)
      → is_taken full j ≡ false
      → Memᴰ k full
      → j.id ≢ k.id
      → clash j k ≡ false
  unfolding is_taken
  is_taken-at full j k free m ne =
      let at_k = any-false-at (λ l. not (l.id == j.id) && clash j l) full free m in ground arith

  -- What the test of the index leaves open to the requeued row.
  requeued-free :
      (full : List Job)
      → any (λ j. has_id n j && is_taken full (requeued j)) full ≡ false
      → (j k : Job) → Memᴰ j full
      → Memᴰ k full
      → j.id ≡ n
      → Apart j k
      → Apart (requeued j) k
  requeued-free full vacant j k mj mk e a =
      let at_j = any-false-at (λ l. has_id n l && is_taken full (requeued l)) full vacant mj in
      let free : is_taken full (requeued j) ≡ false = ground arith in
      record { ids = a.ids; keys = is_taken-at full (requeued j) k free mk a.ids }

  -- A retry that is not refused changes the rows with the id, and no others.
  pub mark_retry-eq-ok :
      (q q' : Queue)
      → mark_retry now n error category delay q ≡ ok q'
      → (any (λ j. has_id n j && is_taken q.rows (requeued j)) q.rows ≡ false)
        × (q' ≡ record q { rows = update_where (has_id n) requeued q.rows })
  unfolding mark_retry
  mark_retry-eq-ok q q' e =
      elim (Bool-cases (any (λ j. has_id n j && is_taken q.rows (requeued j)) q.rows)) [
        | inl taken ↦ absurd (ground arith)
        | inr vacant ↦ (vacant, ground arith)
      ]

  requeued-IsRow :
      (next_id : ℕ) (j : Job)
      → (j.id ≡ n → j.attempts < j.max_attempts)
      → has_id n j ≡ true
      → IsRow next_id j
      → IsRow next_id (requeued j)
  requeued-IsRow next_id j room hit r = ground arith

  -- If attempts remain, a job that goes back to pending leaves the queue in order, whatever its
  -- status was: a key that another active row holds is refused.
  pub mark_retry-IsSound :
      (q q' : Queue)
      → IsSound q
      → All (λ j. j.id ≡ n → j.attempts < j.max_attempts) q.rows
      → mark_retry now n error category delay q ≡ ok q'
      → IsSound q'
  mark_retry-IsSound q q' s room e =
      let (vacant, same) = mark_retry-eq-ok q q' e in
      rw same (record {
        each =
            update_where-All (has_id n) requeued
              {C = λ j. IsRow q.next_id j × (j.id ≡ n → j.attempts < j.max_attempts)}
              (λ j c hit. requeued-IsRow q.next_id j c.1 hit c.0) (λ j c miss. c.0) q.rows
              (All-both _ _ q.rows s.each room);
        apart =
            rows-Apart n requeued q.rows (requeued-free q.rows vacant) q.rows (λ k m. m) s.apart;
      })

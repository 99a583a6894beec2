-- ===== src/Queue/Accept.antt =====
-- worker/claim.py: an active job that goes back to pending, and the unique index.
use bifrost_platform_plugin.Common.{
  ℕ, ◌≡◌, ◌≢◌, refl, sym, subst, true, false, ◌&&◌, List, [], ◌∷◌, arith, All, All-at, Memᴰ,
  Bool-cases, inl, inr, ==_iff, ◌==◌, any-false_of_All,
}
use bifrost_platform_plugin.Common.Text.{Text}
use bifrost_platform_plugin.Common.Result.{ok}
use bifrost_platform_plugin.Queue.{is_active, Job, Queue, has_id, update_where}
use bifrost_platform_plugin.Queue.Claim.{mark_retry, requeue_row, is_taken}
use bifrost_platform_plugin.Queue.Rows.{Pairwise, Apart, Within, Apart-Within, Within-refl}
use bifrost_platform_plugin.Queue.Invariant.{IsSound}
use bifrost_platform_plugin.Queue.Requeue.{Apart-comm}

-- Two rows with two ids are apart, whichever of them comes first.
Apart-of :
    (rows : List Job) (j k : Job)
    → Pairwise Apart rows
    → Memᴰ j rows
    → Memᴰ k rows
    → j.id ≢ k.id
    → Apart j k
Apart-of [] j k h mj mk ne = elim mj [ ]
Apart-of (x ∷ rows) j k h (Memᴰ.head e) (Memᴰ.head e') ne = absurd (ne (cc (e, e')))
Apart-of (x ∷ rows) j k h (Memᴰ.head e) (Memᴰ.tail mk) ne =
    subst (λ y. Apart y k) (sym e) (All-at (Apart x) h.0 mk)
Apart-of (x ∷ rows) j k h (Memᴰ.tail mj) (Memᴰ.head e) ne =
    subst (λ y. Apart j y) (sym e) (Apart-comm (All-at (Apart x) h.0 mj))
Apart-of (x ∷ rows) j k h (Memᴰ.tail mj) (Memᴰ.tail mk) ne = Apart-of rows j k h.1 mj mk ne

All-members : {P : Job → Type 0} (rows : List Job) → ((j : Job) → Memᴰ j rows → P j) → All P rows
All-members [] h = tt
All-members (j ∷ rows) h = (h j (Memᴰ.head refl), All-members rows λ k m. h k (Memᴰ.tail m))

module _ (now n : ℕ) (error category : Text) (delay : ℕ) where
  abbrev back : Job → Job
  back = requeue_row now error category delay

  -- The key of an active row is its own, so no other row holds it.
  not-is_taken :
      (full : List Job) (j : Job)
      → Pairwise Apart full
      → Memᴰ j full
      → is_active j.status ≡ true
      → is_taken full (back j) ≡ false
  unfolding is_taken
  not-is_taken full j h mj active =
      let within : Within (back j) j = record {
        id = refl;
        kind = refl;
        hash = refl;
        active = λ _. active;
      } in
      any-false_of_All _ full (
        All-members full λ k mk. elim (Bool-cases (k.id == j.id)) [
          | inl same ↦ rw same refl
          | inr other ↦
              rw other
                (Apart-Within (Apart-of full j k h mj mk (ground arith)) within
                  (Within-refl k)).keys
        ])

  -- In a queue in order, a job that is still active is taken back: the update is not refused.
  pub mark_retry-accepts :
      (q : Queue)
      → IsSound q
      → All (λ j. j.id ≡ n → is_active j.status ≡ true) q.rows
      → mark_retry now n error category delay q
        ≡ ok (record q { rows = update_where (has_id n) back q.rows })
  unfolding mark_retry
  mark_retry-accepts q s active =
      rw
        (any-false_of_All (λ j. has_id n j && is_taken q.rows (back j)) q.rows
          (All-members q.rows λ j mj. elim (Bool-cases (has_id n j)) [
            | inl hit ↦
                rw (hit, not-is_taken q.rows j s.apart mj (All-at _ active mj ((==_iff _ _).0 hit)))
                  refl
            | inr miss ↦ rw miss refl
          ]))
        refl

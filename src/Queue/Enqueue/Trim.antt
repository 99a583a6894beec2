-- ===== src/Queue/Enqueue/Trim.antt =====
-- scheduler/enqueue.py: what `trim_old_jobs` deletes and what it keeps.
use bifrost_platform_plugin.Common.{
  ℕ, ◌≤◌, ◌≡◌, refl, sym, ap, subst, Bool, true, false, not, List, [], ◌∷◌, arith, All, All-map,
  All-drop, All-filter, filter-All, any-false_of_All, Memᴰ, Bool-cases, inl, inr, ==_iff, ◌==◌,
  ==_self, filter, drop, take, length, length-append, length-filter, length-take, filter-append,
  filter-filter_comm, filter_none, take-append-drop, Memᴰ-filter,
}
use bifrost_platform_plugin.Queue.{is_active, is_finished, Job, Queue}
use bifrost_platform_plugin.Queue.Rows.{by_id}
use bifrost_platform_plugin.Queue.Invariant.{IsSound}
use bifrost_platform_plugin.Queue.Enqueue.{
  trim_old_jobs, delete_where, is_listed, is_expired, surplus, sort_newest, insert_newest, newer,
  finished_rows,
}

module _ (p : Job → Bool) where
  length-filter-insert_newest :
      (j : Job) (rows : List Job)
      → length (filter p (insert_newest j rows)) ≡ length (filter p (j ∷ rows))
  unfolding insert_newest
  length-filter-insert_newest j [] = refl
  length-filter-insert_newest j (k ∷ rows) = ground (arith, length-filter-insert_newest j rows)

  -- Sorting neither adds nor loses a row.
  length-filter-sort_newest :
      (rows : List Job) → length (filter p (sort_newest rows)) ≡ length (filter p rows)
  unfolding sort_newest
  length-filter-sort_newest [] = refl
  length-filter-sort_newest (j ∷ rows) =
      ground
        (arith, length-filter-insert_newest j (sort_newest rows), length-filter-sort_newest rows)

is_listed-Memᴰ : (j : Job) (rows : List Job) → Memᴰ j rows → is_listed rows j ≡ true
is_listed-Memᴰ j [] m = elim m [ ]
is_listed-Memᴰ j (k ∷ rows) (Memᴰ.head e) = rw (ap (λ (l : Job). l.id) (sym e), ==_self j.id) refl
is_listed-Memᴰ j (k ∷ rows) (Memᴰ.tail m) = ground (arith, is_listed-Memᴰ j rows m)

-- Every row of a list is on the list.
listed_each :
    (rows all : List Job)
    → ((j : Job) → Memᴰ j rows → Memᴰ j all)
    → All (λ j. not (is_listed all j) ≡ false) rows
listed_each [] all sub = tt
listed_each (j ∷ rows) all sub = (
  ap not (is_listed-Memᴰ j all (sub j (Memᴰ.head refl))),
  listed_each rows all (λ k m. sub k (Memᴰ.tail m)),
)

-- Of the rows in the order of the list, those that are not in its tail are at most those before it.
length-not_in_tail :
    (k : ℕ) (rows : List Job) → length (delete_where (is_listed (drop k rows)) rows) ≤ k
length-not_in_tail k rows =
    let off = λ (j : Job). not (is_listed (drop k rows) j) in
    let none_left =
      filter_none off (drop k rows) (listed_each (drop k rows) (drop k rows) (λ j m. m)) in
    omega (
      arith,
      ap (λ (l : List Job). length (filter off l)) (take-append-drop k rows),
      ap (λ (l : List Job). length l) (filter-append off (take k rows) (drop k rows)),
      length-append (filter off (take k rows)) (filter off (drop k rows)),
      ap (λ (l : List Job). length l) none_left,
      length-filter off (take k rows),
      length-take k rows,
    )

-- After a trim at most `keep_max` finished rows are left.
pub trim_old_jobs-bound :
    (now keep_days keep_max : ℕ) (q : Queue)
    → length (finished_rows (trim_old_jobs now keep_days keep_max q).1.rows) ≤ keep_max
unfolding trim_old_jobs
trim_old_jobs-bound now keep_days keep_max q =
    let fresh = delete_where (is_expired now keep_days) q.rows in
    let off = λ (j : Job). not (is_listed (surplus keep_max fresh) j) in
    omega (
      arith,
      ap (λ (l : List Job). length l) (filter-filter_comm (λ j. is_finished j.status) off fresh),
      length-filter-sort_newest off (finished_rows fresh),
      length-not_in_tail keep_max (sort_newest (finished_rows fresh)),
    )

module _ (P : Job → Type 0) where
  All-insert_newest : (j : Job) (rows : List Job) → P j → All P rows → All P (insert_newest j rows)
  unfolding insert_newest
  All-insert_newest j [] h a = (h, tt)
  All-insert_newest j (k ∷ rows) h a = elim (Bool-cases (newer k j)) [
    | inl behind ↦ rw behind (a.0, All-insert_newest j rows h a.1)
    | inr front ↦ rw front (h, a)
  ]

  All-sort_newest : (rows : List Job) → All P rows → All P (sort_newest rows)
  unfolding sort_newest
  All-sort_newest [] a = tt
  All-sort_newest (j ∷ rows) a =
      All-insert_newest j (sort_newest rows) a.0 (All-sort_newest rows a.1)

  All-surplus :
      (keep_max : ℕ) (rows : List Job)
      → All (λ j. is_finished j.status ≡ true → P j) rows
      → All P (surplus keep_max rows)
  unfolding surplus
  All-surplus keep_max rows h =
      All-drop P keep_max _ (All-sort_newest _ (filter-All P (λ j. is_finished j.status) rows h))

finished-other :
    (j k : Job)
    → is_active j.status ≡ true
    → (k.id ≡ j.id → k ≡ j)
    → is_finished k.status ≡ true
    → (k.id == j.id) ≡ false
finished-other j k active same ended = elim (Bool-cases (k.id == j.id)) [
  | inl e ↦
      let one : k ≡ j = same ((==_iff _ _).0 e) in
      let still : is_active k.status ≡ true =
        subst (λ (l : Job). is_active l.status ≡ true) (sym one) active in
      absurd (ground arith)
  | inr e ↦ e
]

active-kept :
    (now keep_days : ℕ) (j : Job)
    → is_active j.status ≡ true
    → not (is_expired now keep_days j) ≡ true
unfolding is_expired
active-kept now keep_days j active = rw active refl

-- In a queue in order, a trim deletes no pending and no running row.
pub trim_old_jobs-keeps_active :
    (now keep_days keep_max : ℕ) (q : Queue) (j : Job)
    → IsSound q
    → Memᴰ j q.rows
    → is_active j.status ≡ true
    → Memᴰ j (trim_old_jobs now keep_days keep_max q).1.rows
unfolding trim_old_jobs
trim_old_jobs-keeps_active now keep_days keep_max q j s m active =
    let fresh = delete_where (is_expired now keep_days) q.rows in
    let others =
      All-filter (λ k. k.id ≡ j.id → k ≡ j) (λ k. not (is_expired now keep_days k)) q.rows
        (by_id q.rows s.apart m) in
    let unlisted =
      any-false_of_All (λ k. k.id == j.id) (surplus keep_max fresh)
        (All-surplus (λ k. (k.id == j.id) ≡ false) keep_max fresh
          (All-map (λ k same ended. finished-other j k active same ended) fresh others)) in
    Memᴰ-filter _ fresh (Memᴰ-filter _ q.rows m (active-kept now keep_days j active))
      (ap not unlisted)

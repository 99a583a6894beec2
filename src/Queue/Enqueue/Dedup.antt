-- ===== src/Queue/Enqueue/Dedup.antt =====
-- scheduler/enqueue.py: inserting a job, and inserting it again.
use bifrost_platform_plugin.Common.{
  ℕ, suc, ◌<◌, ◌≡◌, refl, sym, ap, ◌∙◌, subst, Bool, true, false, ◌&&◌, if◌then◌else◌, Option, none,
  some, List, [], ◌∷◌, ◌++◌, arith, any, All, All-map, All-append, any-append, any-false-All,
  fun_ext, Bool-cases, inl, inr,
}
use bifrost_platform_plugin.Common.Int.{ℤ, pos}
use bifrost_platform_plugin.Common.Text.{Text, text_eq, text_eq_iff, strip}
use bifrost_platform_plugin.Common.Json.{Dict}
use bifrost_platform_plugin.Common.Result.{ok}
use bifrost_platform_plugin.Queue.{is_active, Job, Queue, clash, same_hash}
use bifrost_platform_plugin.Queue.Rows.{Pairwise, Apart}
use bifrost_platform_plugin.Queue.Requeue.{clash_comm, text_eq_comm}
use bifrost_platform_plugin.Queue.Invariant.{IsRow, IsSound}
use bifrost_platform_plugin.Queue.Enqueue.{
  is_empty, is_smallint, or_else, insert_unless_clash, insert_job, insert_manual_job, proposed,
  manual_row,
}

Pairwise-snoc :
    (rows : List Job) (j : Job)
    → Pairwise Apart rows
    → All (λ k. Apart k j) rows
    → Pairwise Apart (rows ++ j ∷ [])
Pairwise-snoc [] j h a = (tt, tt)
Pairwise-snoc (k ∷ rows) j h a =
    (All-append (Apart k) rows (j ∷ []) h.0 (a.0, tt), Pairwise-snoc rows j h.1 a.1)

IsRow-suc : (n : ℕ) (j : Job) → IsRow n j → IsRow (suc n) j
IsRow-suc n j r = ground arith

-- A new row with the next id, apart from all active rows, keeps the queue in order.
append-IsSound :
    (q : Queue) (j : Job)
    → IsSound q
    → j.id ≡ q.next_id
    → IsRow (suc q.next_id) j
    → any (clash j) q.rows ≡ false
    → IsSound (record { next_id = suc q.next_id; rows = q.rows ++ j ∷ [] })
append-IsSound q j s e r free = record {
  each =
      All-append (IsRow (suc q.next_id)) q.rows (j ∷ [])
        (All-map (IsRow-suc q.next_id) q.rows s.each) (r, tt);
  apart =
      Pairwise-snoc q.rows j s.apart
        (new-Apart q.rows s.each (any-false-All (clash j) q.rows free));
}
  where
    new-Apart :
        (rows : List Job)
        → All (IsRow q.next_id) rows
        → All (λ k. clash j k ≡ false) rows
        → All (λ k. Apart k j) rows
    new-Apart [] h c = tt
    new-Apart (k ∷ rows) h c = (
      record { ids = λ same. omega (arith, h.0.drawn); keys = rw (clash_comm k j) c.0 },
      new-Apart rows h.1 c.1,
    )

proposed-IsRow :
    (n now : ℕ) (kind : Text) (payload : Dict) (hash : Option Text) (priority : ℤ)
    (max_attempts : ℕ)
    → 0 < max_attempts
    → IsRow (suc n) (proposed n now kind payload hash priority max_attempts)
proposed-IsRow n now kind payload hash priority max_attempts h = record {
  drawn = omega arith;
  budget = omega arith;
  room = λ _. h;
  ended = refl;
  begun = λ e. cc;
}

bump-IsSound : (q : Queue) → IsSound q → IsSound (record q { next_id = suc q.next_id })
bump-IsSound q s = record { each = All-map (IsRow-suc q.next_id) q.rows s.each; apart = s.apart }

insert_unless_clash-IsSound :
    (q : Queue) (j : Job)
    → IsSound q
    → j.id ≡ q.next_id
    → IsRow (suc q.next_id) j
    → IsSound (insert_unless_clash j q).1
unfolding insert_unless_clash
insert_unless_clash-IsSound q j s e r = elim (Bool-cases (any (clash j) q.rows)) [
  | inl taken ↦ rw taken (bump-IsSound q s)
  | inr free ↦ rw free (append-IsSound q j s e r free)
]

-- The row is active and stands in the unique index under the kind and the hash.
abbrev pub holds_key : Text → Text → Job → Bool
holds_key kind hash j =
    is_active j.status
    && text_eq j.kind kind
    && elim j.payload_hash [ none ↦ false | some h ↦ text_eq h hash ]

module _ (j : Job) (hash : Text) (active : is_active j.status ≡ true)
    (keyed : j.payload_hash ≡ some hash) where
  clash-holds_key : (k : Job) → clash j k ≡ holds_key j.kind hash k
  unfolding clash
  clash-holds_key k = rw (active, keyed) (keys_agree k.payload_hash)
    where
      keys_agree :
          (o : Option Text)
          → (is_active k.status && text_eq j.kind k.kind && same_hash (some hash) o) ≡ (
              is_active k.status
              && text_eq k.kind j.kind
              && elim o [ none ↦ false | some h ↦ text_eq h hash ])
      keys_agree none = ground arith
      keys_agree (some h) = ground (arith, text_eq_comm j.kind k.kind, text_eq_comm hash h)

  any-clash : (rows : List Job) → any (clash j) rows ≡ any (holds_key j.kind hash) rows
  any-clash rows = ap (λ p. any p rows) (fun_ext clash-holds_key)

  -- After an insert, done or not, the key is taken.
  insert_unless_clash-taken :
      (q : Queue) → any (holds_key j.kind hash) (insert_unless_clash j q).1.rows ≡ true
  unfolding insert_unless_clash
  insert_unless_clash-taken q = elim (Bool-cases (any (clash j) q.rows)) [
    | inl taken ↦ rw taken (sym (any-clash q.rows) ∙ taken)
    | inr free ↦ rw (free, any-append (holds_key j.kind hash) q.rows (j ∷ []), own) (ground arith)
  ]
    where
      own : holds_key j.kind hash j ≡ true
      own = rw (active, keyed) (ground (arith, text_eq_iff j.kind j.kind, text_eq_iff hash hash))

module _ (digest : Dict → Text) (now : ℕ) (kind : Text) (payload : Dict) (priority : ℤ)
    (max_attempts : ℕ) (hash_payload : Option Dict) where
  -- An accepted insert with at least one attempt keeps the queue in order: in particular no two
  -- active rows ever have the same kind and hash.
  pub insert_job-IsSound :
      (q : Queue) (o : Option ℕ) (q' : Queue)
      → IsSound q
      → 0 < max_attempts
      → insert_job digest now kind payload priority max_attempts hash_payload q ≡ ok (o, q')
      → IsSound q'
  unfolding insert_job
  insert_job-IsSound q o q' s h e = elim (Bool-cases (is_empty (strip kind))) [
    | inl blank ↦ absurd (ground arith)
    | inr named ↦
        let row =
          proposed q.next_id now (strip kind) payload (some (digest (or_else hash_payload payload)))
            priority max_attempts in
        let same : q' ≡ (insert_unless_clash row q).1 = ground arith in
        rw same (insert_unless_clash-IsSound q row s refl (proposed-IsRow _ _ _ _ _ _ _ h))
  ]

  -- After an insert that returned, an active row has its kind and hash. A later insert of the same job
  -- into any queue, with a priority and a budget that their columns hold, inserts nothing while an active
  -- row there has that kind and hash: no id is returned and the rows stay. Where none has, it returns the
  -- next id and adds the row.
  pub insert_job-again :
      (q : Queue) (o : Option ℕ) (q' : Queue) (later : ℕ) (other : ℤ) (budget : ℕ) (after : Queue)
      → insert_job digest now kind payload priority max_attempts hash_payload q ≡ ok (o, q')
      → is_smallint other ≡ true
      → is_smallint (pos budget) ≡ true
      → (any (holds_key (strip kind) (digest (or_else hash_payload payload))) q'.rows ≡ true)
        × (insert_job digest later kind payload other budget hash_payload after
            ≡ ok (
                if any (holds_key (strip kind) (digest (or_else hash_payload payload))) after.rows
                then (none, record after { next_id = suc after.next_id })
                else (
                  some after.next_id,
                  record {
                    next_id = suc after.next_id;
                    rows =
                        after.rows
                        ++ proposed after.next_id later
                            (strip kind)
                            payload
                            (some (digest (or_else hash_payload payload)))
                            other
                            budget
                          ∷ [];
                  },
                )))
  unfolding insert_job insert_unless_clash
  insert_job-again q o q' later other budget after e fits_p fits_b =
      elim (Bool-cases (is_empty (strip kind))) [
        | inl blank ↦ absurd (ground arith)
        | inr named ↦
            let hash = digest (or_else hash_payload payload) in
            let row =
              proposed q.next_id now (strip kind) payload (some hash) priority max_attempts in
            let row' = proposed after.next_id later (strip kind) payload (some hash) other budget in
            let same : (insert_unless_clash row q).1 ≡ q' = ground arith in
            (
              subst (λ (r : Queue). any (holds_key (strip kind) hash) r.rows ≡ true) same
                  (insert_unless_clash-taken row hash refl refl q),
              rw (named, fits_p, fits_b, any-clash row' hash refl refl after.rows) refl,
            )
      ]

clash-unkeyed : (j : Job) (rows : List Job) → j.payload_hash ≡ none → any (clash j) rows ≡ false
unfolding clash
clash-unkeyed j [] e = refl
clash-unkeyed j (k ∷ rows) e = ground (arith, clash-unkeyed j rows e)

-- The record of a manual run keeps the queue in order, as a row that no other can clash with.
pub insert_manual_job-IsSound :
    (now : ℕ) (kind : Text) (payload : Dict) (q : Queue) (n : ℕ) (q' : Queue)
    → IsSound q
    → insert_manual_job now kind payload q ≡ ok (n, q')
    → IsSound q'
unfolding insert_manual_job
insert_manual_job-IsSound now kind payload q n q' s e = elim (Bool-cases (is_empty (strip kind))) [
  | inl blank ↦ absurd (ground arith)
  | inr named ↦
      let row = manual_row q.next_id now (strip kind) payload in
      let same : q' ≡ record { next_id = suc q.next_id; rows = q.rows ++ row ∷ [] } =
        ground arith in
      rw same (
        append-IsSound q row s refl
          (record {
            drawn = omega arith;
            budget = omega arith;
            room = λ h. cc;
            ended = refl;
            begun = λ h. refl;
          })
          (clash-unkeyed row q.rows refl))
]

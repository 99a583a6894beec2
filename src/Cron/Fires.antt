-- ===== src/Cron/Fires.antt =====
-- scheduler/cronutil.py: the minutes at which a cron fires.
use bifrost_platform_plugin.Common.{
  ◌∙◌, ℕ, zero, suc, ◌+◌, ◌-◌, ◌*◌, ◌/◌, ◌%◌, ◌≤◌, ◌<◌, ◌≡◌, refl, ap, subst, true, some, List, [],
  ◌∷◌, arith, ltb, ltb→lt, lt→ltb, All, All-map, All-at, Memᴰ, Bool-cases, inl, inr, ◌⊎◌, ◌==◌,
  ==_iff, ◌↔◌,
}
use bifrost_platform_plugin.Common.Text.{Text}
use bifrost_platform_plugin.Common.Result.{ok, ok-injective, >>=-eq-ok}
use bifrost_platform_plugin.Cron.{
  Cron, Clock, parse_cron, matches, minute_us, first_minute, fires_from, iter_cron_fires, last_of,
  previous_fire,
}

-- A whole minute of the time from `start` on and before `end`, at which the cron is due.
pub record IsFire (cron : Cron) (local : ℕ → Clock) (start end t : ℕ) : Type 0 where
  pub from : start ≤ t
  pub before : t < end
  pub whole : t % minute_us ≡ 0
  pub due : matches cron (local t) ≡ true

pub first_minute_lem :
    (start : ℕ)
    → (start ≤ first_minute start)
      × (first_minute start % minute_us ≡ 0)
      × (first_minute start < start + minute_us)
unfolding first_minute
first_minute_lem start = (ground arith, ground arith, ground arith)

module _ (cron : Cron) (local : ℕ → Clock) (end : ℕ) where
  pub fires_from-IsFire :
      (fuel cur : ℕ)
      → cur % minute_us ≡ 0
      → All (IsFire cron local cur end) (fires_from fuel cron local end cur)
  unfolding fires_from
  fires_from-IsFire zero cur whole = tt
  fires_from-IsFire (suc fuel) cur whole =
      let later =
        All-map
          (λ t (f : IsFire cron local (cur + minute_us) end t). record {
            from = omega (arith, f.from);
            before = f.before;
            whole = f.whole;
            due = f.due;
          })
          _ (fires_from-IsFire fuel (cur + minute_us) (omega (arith, whole))) in
      elim (Bool-cases (ltb cur end)) [
        | inr past ↦ rw past tt
        | inl inside ↦ elim (Bool-cases (matches cron (local cur))) [
          | inr idle ↦ rw (inside, idle) later
          | inl due ↦
              rw (inside, due)
                (
                  record {
                    from = omega arith;
                    before = ltb→lt cur end inside;
                    whole = whole;
                    due = due;
                  },
                  later,
                )
        ]
      ]

  fires_from-Memᴰ :
      (fuel cur t : ℕ)
      → cur % minute_us ≡ 0
      → end ≤ cur + fuel * minute_us
      → IsFire cron local cur end t
      → Memᴰ t (fires_from fuel cron local end cur)
  unfolding fires_from
  fires_from-Memᴰ zero cur t whole enough f = absurd (omega (arith, f.from, f.before))
  fires_from-Memᴰ (suc fuel) cur t whole enough f =
      rw (lt→ltb cur end (omega (arith, f.from, f.before))) (elim (Bool-cases (t == cur)) [
        | inl now ↦
            let same = (==_iff t cur).0 now in
            rw (subst (λ u. matches cron (local u) ≡ true) same f.due) (Memᴰ.head same)
        | inr later ↦
            let next : IsFire cron local (cur + minute_us) end t = record {
              from = ground (arith, f.from, f.whole, whole);
              before = f.before;
              whole = f.whole;
              due = f.due;
            } in
            let found =
              fires_from-Memᴰ fuel (cur + minute_us) t (omega (arith, whole))
                (omega (arith, enough)) next in
            elim (Bool-cases (matches cron (local cur))) [
              | inl due ↦ rw due (Memᴰ.tail found)
              | inr idle ↦ rw idle found
            ]
      ])

-- The fires of a cron that is read.
abbrev pub all_fires : Cron → (ℕ → Clock) → ℕ → ℕ → List ℕ
all_fires cron local start end =
    fires_from ((end - first_minute start) / minute_us + 1) cron local end (first_minute start)

pub iter_cron_fires-all :
    (expr : Text) (cron : Cron) (local : ℕ → Clock) (start end : ℕ)
    → parse_cron expr ≡ ok cron
    → iter_cron_fires expr local start end ≡ ok (all_fires cron local start end)
unfolding iter_cron_fires
iter_cron_fires-all expr cron local start end read = rw read refl

pub all_fires_iff :
    (cron : Cron) (local : ℕ → Clock) (start end t : ℕ)
    → Memᴰ t (all_fires cron local start end) ↔ IsFire cron local start end t
all_fires_iff cron local start end t =
    let (from, whole, near) = first_minute_lem start in
    let cur = first_minute start in
    let fuel = (end - cur) / minute_us + 1 in
    (
      λ m.
          let f =
            All-at (IsFire cron local cur end) (fires_from-IsFire cron local end fuel cur whole)
              m in
          record {
            from = omega (arith, f.from, from);
            before = f.before;
            whole = f.whole;
            due = f.due;
          },
      λ f. fires_from-Memᴰ cron local end fuel cur t whole (omega arith) (record {
        from = omega (arith, f.from, f.whole, whole, near);
        before = f.before;
        whole = f.whole;
        due = f.due;
      }),
    )

-- A cron that is read fires, between two instants, exactly at the whole minutes at which the clock
-- of its zone matches it.
pub iter_cron_fires-IsFire :
    (expr : Text) (cron : Cron) (local : ℕ → Clock) (start end : ℕ)
    → parse_cron expr ≡ ok cron
    → (fires : List ℕ) × (iter_cron_fires expr local start end ≡ ok fires)
      × ((t : ℕ) → (Memᴰ t fires ↔ IsFire cron local start end t))
iter_cron_fires-IsFire expr cron local start end read = (
  all_fires cron local start end,
  iter_cron_fires-all expr cron local start end read,
  all_fires_iff cron local start end,
)

-- The list is empty, or its last member is its greatest.
abbrev Newest : List ℕ → Type 0
Newest ts = (ts ≡ []) ⊎ ((f : ℕ) × (last_of ts ≡ some f) × Memᴰ f ts × All (λ u. u ≤ f) ts)

-- If a cron that is read is due at some whole minute of the two weeks before an instant, then
last_of-Memᴰ : (f : ℕ) (ts : List ℕ) → last_of ts ≡ some f → Memᴰ f ts
last_of-Memᴰ f [] h = cc
last_of-Memᴰ f (t ∷ []) h = Memᴰ.head (ground arith)
last_of-Memᴰ f (t ∷ u ∷ ts) h = Memᴰ.tail (last_of-Memᴰ f (u ∷ ts) h)

-- What `previous_fire` returns is before the time that it is asked for.
pub previous_fire-before :
    (expr : Text) (local : ℕ → Clock) (before f : ℕ)
    → previous_fire expr local before ≡ ok (some f)
    → f < before
unfolding previous_fire iter_cron_fires
previous_fire-before expr local before f h =
    let start = before - 14 * 1440 * minute_us in
    let (fires, listed, last) = >>=-eq-ok (iter_cron_fires expr local start before) _ h in
    let (cron, read, all) = >>=-eq-ok (parse_cron expr) _ listed in
    ((all_fires_iff cron local start before f).0
      (last_of-Memᴰ f _ (ap last_of (ok-injective all) ∙ ok-injective last))).before

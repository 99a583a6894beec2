-- ===== src/Worker/Db/Rounds.antt =====
-- worker/loop.py: what the caller of WorkerDb.call sees of an outage.
use native.Mathlib.Nat.{add-zero}
use bifrost_platform_plugin.Common.{
  ℕ, zero, suc, ◌+◌, ◌≤◌, ◌<◌, ◌≡◌, refl, Bool, true, false, Option, none, some, List, [], ◌∷◌,
  arith, ◌==◌, Bool-cases, inl, inr, length, ◌⊎◌, ◌&&◌, not, subst, ap, fun_ext, if◌then◌else◌,
}
use bifrost_platform_plugin.Common.Result.{Exception, Result, ok, raise}
use bifrost_platform_plugin.Worker.Db.{
  WorkerDb, Round, Called, is_retried, attempt, call_from, settle, call, reconnect_delays, dropped,
}

abbrev total : List ℕ → ℕ
total [] = 0
total (d ∷ ds) = d + total ds

-- What every call keeps to: no connection error gets out, at most the delays are slept, and at most
-- `most` reconnects are counted.
pub record Bounded {A : Type 0} (delays : List ℕ) (slept most : ℕ) (db : WorkerDb) (c : Called A)
    : Type 0 where
  pub handled : (e : Exception) → c.result ≡ raise e → is_retried e ≡ false
  pub sleeps : c.slept ≤ slept + total delays
  pub counts : c.db.reconnects ≤ db.reconnects + most

-- The first round counts no reconnect, and every other one at most one.
abbrev counted : Bool → ℕ
counted first = if first then 0 else 1

counted_at_most : (first : Bool) → counted first ≤ 1
counted_at_most first = ground arith

attempt-reconnects :
    {A : Type 0} (first : Bool) (r : Round A) (db : WorkerDb)
    → (attempt first r db).1.reconnects ≤ db.reconnects + counted first
unfolding attempt
attempt-reconnects first r db = ground arith

shift : (i j : ℕ) → i + suc j ≡ suc i + j
shift i j = omega arith

start : (j : ℕ) → j ≡ 0 + j
start j = omega arith

settle-Bounded :
    {A : Type 0} (delay : ℕ) (delays : List ℕ) (slept n most all : ℕ) (db : WorkerDb) (r : Result A)
    (db' : WorkerDb) (more : Exception → Called A)
    → n + most ≤ all
    → db'.reconnects ≤ db.reconnects + n
    → ((e : Exception) → Bounded delays (slept + delay) most (dropped db') (more e))
    → Bounded (delay ∷ delays) slept all db (settle r db' (slept + delay) more)
unfolding settle
settle-Bounded delay delays slept n most all db (ok a) db' more room h m = record {
  handled = λ e p. cc;
  sleeps = omega arith;
  counts = omega arith;
}
settle-Bounded delay delays slept n most all db (raise x) db' more room h m =
    elim (Bool-cases (is_retried x)) [
      | inl again ↦ rw again (record {
        handled = (m x).handled;
        sleeps = omega (arith, (m x).sleeps);
        counts = omega (arith, (m x).counts);
      })
      | inr final ↦
          rw final
            (record { handled = λ e p. ground arith; sleeps = omega arith; counts = omega arith })
    ]

-- The round fails with a connection error, whether or not the connection has to be opened.
pub record IsDown {A : Type 0} (r : Round A) : Type 0 where
  pub error : Exception
  pub retried : is_retried error ≡ true
  pub run : r.run ≡ raise error
  pub connect : (r.connect ≡ ok tt) ⊎ (r.connect ≡ raise error)

-- The round opens the connection and the operation returns a.
pub record Serves {A : Type 0} (r : Round A) (a : A) : Type 0 where
  pub run : r.run ≡ ok a
  pub connect : r.connect ≡ ok tt

attempt-IsDown :
    {A : Type 0} (first : Bool) (r : Round A) (db : WorkerDb) (d : IsDown r)
    → (attempt first r db).0 ≡ raise d.error
unfolding attempt
attempt-IsDown first r db d = elim (Bool-cases (db.connected && not r.closed)) [
  | inl live ↦ rw live d.run
  | inr lost ↦ elim d.connect [
    | inl fine ↦ rw (lost, fine) d.run
    | inr fails ↦ rw (lost, fails) refl
  ]
]

attempt-Serves :
    {A : Type 0} (first : Bool) (r : Round A) (db : WorkerDb) (a : A)
    → Serves r a
    → (attempt first r db).0 ≡ ok a
unfolding attempt
attempt-Serves first r db a s = elim (Bool-cases (db.connected && not r.closed)) [
  | inl live ↦ rw live s.run
  | inr lost ↦ rw (lost, s.connect) s.run
]

-- The call returns, or raises something else than a connection error.
abbrev pub is_handled : {A : Type 0} → Result A → Bool
is_handled (ok a) = true
is_handled (raise e) = not (is_retried e)

handled_of :
    {A : Type 0} (r : Result A)
    → ((e : Exception) → r ≡ raise e → is_retried e ≡ false)
    → is_handled r ≡ true
handled_of (ok a) h = refl
handled_of (raise e) h = rw (h e refl) refl

module _ {A : Type 0} (rounds : ℕ → Round A) where
  -- The rounds after the first.
  later-Bounded :
      (i : ℕ) (delays : List ℕ) (last : Option Exception) (slept : ℕ) (db : WorkerDb)
      → Bounded delays slept (length delays) db (call_from (suc i) delays rounds last slept db)
  unfolding call_from
  later-Bounded i [] last slept db = record {
    handled = λ e h. ground arith;
    sleeps = omega arith;
    counts = omega arith;
  }
  later-Bounded i (delay ∷ delays) last slept db =
      let (r, db') = attempt (suc i == 0) (rounds (suc i)) db in
      settle-Bounded delay delays slept 1 (length delays) (suc (length delays)) db r db' _
        (omega arith)
        (omega (
          arith,
          attempt-reconnects (suc i == 0) (rounds (suc i)) db,
          counted_at_most (suc i == 0),
        ))
        (λ e. later-Bounded (suc i) delays (some e) (slept + delay) (dropped db'))

  call-Bounded : (db : WorkerDb) → Bounded (0 ∷ reconnect_delays) 0 5 db (call rounds db)
  unfolding call call_from
  call-Bounded db =
      let (r, db') = attempt true (rounds 0) db in
      settle-Bounded 0 reconnect_delays 0 0 5 5 db r db' _ (omega arith)
        (attempt-reconnects true (rounds 0) db)
        (λ e. later-Bounded 0 reconnect_delays (some e) 0 (dropped db'))

  -- Rounds that go the same way up to the last delay make the same call.
  call_from-agree :
      (others : ℕ → Round A) (i : ℕ) (delays : List ℕ) (last : Option Exception) (slept : ℕ)
      (db : WorkerDb)
      → ((j : ℕ) → j < length delays → rounds (i + j) ≡ others (i + j))
      → call_from i delays rounds last slept db ≡ call_from i delays others last slept db
  unfolding call_from
  call_from-agree others i [] last slept db same = refl
  call_from-agree others i (delay ∷ delays) last slept db same =
      let now = subst (λ n. rounds n ≡ others n) (add-zero i) (same 0 (omega arith)) in
      let (r, db') = attempt (i == 0) (others i) db in
      rw now (
        ap (settle r db' (slept + delay)) (
          fun_ext λ e.
            call_from-agree others (suc i) delays (some e) (slept + delay) (dropped db')
              (λ j lt. subst (λ n. rounds n ≡ others n) (shift i j) (same (suc j) (omega arith)))))

  -- A call ends within six rounds: whatever the outside does after the first six, the call is the same.
  -- It lets no connection error out, sleeps for 135 seconds at most and counts five reconnects at most.
  pub call_bounds :
      (others : ℕ → Round A) (db : WorkerDb)
      → ((j : ℕ) → j < 6 → rounds j ≡ others j)
      → (call rounds db ≡ call others db)
        × (is_handled (call rounds db).result ≡ true)
        × ((call rounds db).slept ≤ 135)
        × ((call rounds db).db.reconnects ≤ db.reconnects + 5)
  unfolding call
  call_bounds others db same =
      let b = call-Bounded db in
      (
        call_from-agree others 0 (0 ∷ reconnect_delays) none 0 db
            (λ j lt. subst (λ n. rounds n ≡ others n) (start j) (same j lt)),
        handled_of (call rounds db).result b.handled,
        b.sleeps,
        b.counts,
      )

  call_from-result :
      (i k : ℕ) (delays : List ℕ) (last : Option Exception) (slept : ℕ) (db : WorkerDb) (a : A)
      → k < length delays
      → ((j : ℕ) → j < k → IsDown (rounds (i + j)))
      → Serves (rounds (i + k)) a
      → (call_from i delays rounds last slept db).result ≡ ok a
  unfolding call_from settle
  call_from-result i k [] last slept db a h down s = absurd (omega arith)
  call_from-result i zero (delay ∷ delays) last slept db a h down s =
      let serves = subst (λ n. Serves (rounds n) a) (add-zero i) s in
      rw (attempt-Serves (i == 0) (rounds i) db a serves) refl
  call_from-result i (suc k) (delay ∷ delays) last slept db a h down s =
      let now = subst (λ n. IsDown (rounds n)) (add-zero i) (down 0 (omega arith)) in
      let later = λ (j : ℕ) (lt : j < k).
        subst (λ n. IsDown (rounds n)) (shift i j) (down (suc j) (omega arith)) in
      rw (attempt-IsDown (i == 0) (rounds i) db now, now.retried)
        (call_from-result (suc i) k delays _ _ _ a (omega arith) later
          (subst (λ n. Serves (rounds n) a) (shift i k) s))

  -- Up to five rounds in a row may be lost to the outage: the call still returns what the
  -- operation returns in the next round.
  pub call-survives :
      (k : ℕ) (db : WorkerDb) (a : A)
      → k ≤ 5
      → ((j : ℕ) → j < k → IsDown (rounds j))
      → Serves (rounds k) a
      → (call rounds db).result ≡ ok a
  unfolding call
  call-survives k db a h down s =
      call_from-result 0 k (0 ∷ reconnect_delays) none 0 db a (omega arith)
        (λ j lt. subst (λ n. IsDown (rounds n)) (start j) (down j lt))
        (subst (λ n. Serves (rounds n) a) (start k) s)

-- ===== src/Worker/Db.antt =====
-- worker/loop.py: WorkerDb, one connection that is opened again when Postgres goes away.
pub mod Rounds
use bifrost_platform_plugin.Common.{
  ℕ, zero, suc, ◌+◌, Bool, true, false, ◌&&◌, not, Option, none, some, List, [], ◌∷◌, ◌++◌,
  if◌then◌else◌, ltb, ◌==◌,
}
use bifrost_platform_plugin.Common.Text.{Text, codes, decimal}
use bifrost_platform_plugin.Common.Result.{
  Exception, value_error, type_error, overflow_error, runtime_error, operational_error,
  interface_error, integrity_error, Result, ok, raise, message,
}

abbrev pub reconnect_delays : List ℕ
reconnect_delays = 5 ∷ 10 ∷ 20 ∷ 40 ∷ 60 ∷ []

-- `connected` is `conn is not None`.
pub record WorkerDb : Type 0 where
  pub connected : Bool
  pub reconnects : ℕ

-- What the outside does in one round: whether the connection reads as closed, what `connect` does
-- if it is called, and what the operation does on the connection.
pub record Round (A : Type 0) : Type 0 where
  pub closed : Bool
  pub connect : Result (Unit {0})
  pub run : Result A

-- except (psycopg2.OperationalError, psycopg2.InterfaceError)
abbrev pub is_retried : Exception → Bool
is_retried (operational_error m) = true
is_retried (interface_error m) = true
is_retried e = false

-- A new connection counts as a reconnect in every round but the first.
abbrev pub opened : Bool → WorkerDb → WorkerDb
opened first db = record {
  connected = true;
  reconnects = if first then db.reconnects else db.reconnects + 1;
}

abbrev pub open_then :
    {A : Type 0} → Bool → WorkerDb → Result (Unit {0}) → Result A → Result A × WorkerDb
open_then first db (raise e) run = (raise e, db)
open_then first db (ok _) run = (run, opened first db)

-- The body of the `try`: what it returns or raises, and the connection after it.
unfoldable pub attempt : {A : Type 0} → Bool → Round A → WorkerDb → Result A × WorkerDb
attempt first r db =
    if db.connected && not r.closed then (r.run, db) else open_then first db r.connect r.run

-- `_drop`
abbrev pub dropped : WorkerDb → WorkerDb
dropped db = record db { connected = false }

abbrev shown : Option Exception → Text
shown none = codes "None"
shown (some e) = message e

abbrev pub unavailable : Option Exception → Exception
unavailable last =
    runtime_error
      (codes "postgres unavailable after " ++ (decimal 5 ++ (codes " reconnects: " ++ shown last)))

-- The result of a call, the connection, and the seconds slept.
pub record Called (A : Type 0) : Type 0 where
  pub result : Result A
  pub db : WorkerDb
  pub slept : ℕ

-- What follows a round: return, raise, or, after a connection error, go on.
unfoldable pub settle : {A : Type 0} → Result A → WorkerDb → ℕ → (Exception → Called A) → Called A
settle (ok a) db slept more = record { result = ok a; db = db; slept = slept }
settle (raise e) db slept more =
    if is_retried e then more e else record { result = raise e; db = db; slept = slept }

-- The rounds from the i-th on, one for each delay that is left.
unfoldable pub call_from :
    {A : Type 0} → ℕ → List ℕ → (ℕ → Round A) → Option Exception → ℕ → WorkerDb → Called A
call_from i [] rounds last slept db = record {
  result = raise (unavailable last);
  db = db;
  slept = slept;
}
call_from i (delay ∷ delays) rounds last slept db =
    let (r, db') = attempt (i == 0) (rounds i) db in
    settle r db' (slept + delay)
      (λ e. call_from (suc i) delays rounds (some e) (slept + delay) (dropped db'))

unfoldable pub call : {A : Type 0} → (ℕ → Round A) → WorkerDb → Called A
unfolding call_from attempt settle
call rounds db = call_from 0 (0 ∷ reconnect_delays) rounds none 0 db

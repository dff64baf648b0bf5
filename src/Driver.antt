-- ===== src/Driver.antt =====
-- A SQLite database behind Go's database/sql, as both stores use it (internal/store). A stored time is
-- a text of RFC 3339 in whole seconds of UTC; here it is the number of seconds, in the same order.
pub mod Atomic
pub mod Reads
use ovpn.Prelude.{
  ℕ, ◌/◌, ◌^◌, Option, none, some, List, [], ◌∷◌, Text, Exec, Result, ok, err, ◌>>=◌, ◌>>◌,
}
use ovpn.Model.Types.{Time}

-- What the driver does is not the program's choice: each call to it takes the next outcome, an error
-- or none, and succeeds when the list is over. `conflict` is its error for a key that is taken, and
-- `now` what `util.NowUTC` returns during one operation.
pub record DbWorld (D : Type 0) : Type 0 where
  pub db : D
  pub now : Time
  pub outcomes : List (Option Text)
  pub conflict : Text

abbrev pub nanos_per_second : ℕ
nanos_per_second = 10 ^ 9

-- t.UTC().Format(time.RFC3339), which drops the fraction of the second.
abbrev pub rfc3339 : Time → ℕ
rfc3339 t = t / nanos_per_second

abbrev pub next_outcome : List (Option Text) → Option Text
next_outcome [] = none
next_outcome (o ∷ rest) = o

abbrev later_outcomes : List (Option Text) → List (Option Text)
later_outcomes [] = []
later_outcomes (o ∷ rest) = rest

abbrev outcome_result : Option Text → Result (Unit {0})
outcome_result none = ok tt
outcome_result (some e) = err e

module _ {D : Type 0} where
  -- One call to the driver.
  unfoldable pub driver_call : Exec (DbWorld D) (Unit {0})
  driver_call w =
      (outcome_result (next_outcome w.outcomes), record w { outcomes = later_outcomes w.outcomes })

  -- A statement that writes, once the driver has accepted the call.
  unfoldable pub write_db : (D → D) → Exec (DbWorld D) (Unit {0})
  write_db f w = (ok tt, record w { db = f w.db })

  -- db.ExecContext
  unfoldable pub exec_statement : (D → D) → Exec (DbWorld D) (Unit {0})
  unfolding ◌>>=◌ driver_call write_db
  exec_statement f = driver_call >> write_db f

  abbrev pub apply_checked : Option D → DbWorld D → Result (Unit {0}) × DbWorld D
  apply_checked none w = (err w.conflict, w)
  apply_checked (some db) w = (ok tt, record w { db = db })

  unfoldable pub write_checked : (D → Option D) → Exec (DbWorld D) (Unit {0})
  write_checked f w = apply_checked (f w.db) w

  -- A plain INSERT, which the database refuses where the key is taken.
  unfoldable pub exec_checked : (D → Option D) → Exec (DbWorld D) (Unit {0})
  unfolding ◌>>=◌ driver_call write_checked
  exec_checked f = driver_call >> write_checked f

  -- db.QueryContext with the scans of its rows, which fail as one call.
  unfoldable pub read_db : {A : Type 0} → (D → A) → Exec (DbWorld D) A
  read_db f w = (ok (f w.db), w)

  unfoldable pub query : {A : Type 0} → (D → A) → Exec (DbWorld D) A
  unfolding ◌>>=◌ driver_call read_db
  query f = driver_call >> read_db f

  -- What a deferred Rollback leaves: after an error the database is as it was.
  abbrev pub settle : {A : Type 0} → D → Result A × DbWorld D → Result A × DbWorld D
  settle before (ok a, w) = (ok a, w)
  settle before (err e, w) = (err e, record w { db = before })

  -- BeginTx, the statements, Commit.
  unfoldable pub transact : Exec (DbWorld D) (Unit {0}) → Exec (DbWorld D) (Unit {0})
  unfolding ◌>>=◌ driver_call
  transact body w = settle w.db ((driver_call >> (body >> driver_call)) w)

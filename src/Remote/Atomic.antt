-- ===== src/Remote/Atomic.antt =====
-- What the store's writes leave behind, whatever the driver does.
use ovpn.Prelude.{
  ℕ, refl, inl, inr, ℤ, pos, ltb_ℤ, ◌||◌, Text, ◌>>=◌, ◌>>◌, if◌then◌else◌, Bool-cases,
}
use ovpn.Remote.{Db, World, exec_statement, rfc3339}
use ovpn.Remote.Meta.{write_counter, upsert_counter_tx}
use ovpn.Remote.Traffic.{
  write_hourly, write_daily, write_total, add_delta_tx, add_delta, add_delta_if_any,
  add_delta_and_advance_counter,
}
use ovpn.Model.Types.{Time}
pub use ovpn.Driver.Atomic.{
  Writes, IsAtomic, atomic_ok, atomic_err, exec-IsAtomic, Writes-exec, Writes-then, Writes-checked,
  Writes-ext, transact-IsAtomic, transact_err,
}

-- The rows of one delta, in the order of the three statements.
abbrev pub with_delta : Text → ℤ → ℤ → Time → Time → Db → Db
with_delta email up down ts now db =
    write_total email up down (rfc3339 now)
      (write_daily email up down ts (write_hourly email up down ts db))

-- Only a delta above 0 is written.
unfoldable pub with_delta_if_any : Text → ℤ → ℤ → Time → Time → Db → Db
with_delta_if_any email up down ts now db =
    if ltb_ℤ (pos 0) up || ltb_ℤ (pos 0) down then with_delta email up down ts now db else db

Writes-add_delta_tx :
    (email : Text) (up down : ℤ) (ts : Time)
    → Writes (add_delta_tx email up down ts) (with_delta email up down ts)
unfolding add_delta_tx ◌>>=◌
Writes-add_delta_tx email up down ts w h =
    Writes-then
      (exec_statement (write_hourly email up down ts)
        >> exec_statement (write_daily email up down ts))
      (exec_statement (write_total email up down (rfc3339 w.now)))
      (λ _ db. write_daily email up down ts (write_hourly email up down ts db))
      (λ _. write_total email up down (rfc3339 w.now))
      (Writes-then (exec_statement (write_hourly email up down ts))
        (exec_statement (write_daily email up down ts)) (λ _. write_hourly email up down ts)
        (λ _. write_daily email up down ts) (Writes-exec (write_hourly email up down ts))
        (Writes-exec (write_daily email up down ts)))
      (Writes-exec (write_total email up down (rfc3339 w.now))) w h

Writes-add_delta_if_any :
    (email : Text) (up down : ℤ) (ts : Time)
    → Writes (add_delta_if_any email up down ts) (with_delta_if_any email up down ts)
unfolding add_delta_if_any with_delta_if_any
Writes-add_delta_if_any email up down ts w =
    elim (Bool-cases (ltb_ℤ (pos 0) up || ltb_ℤ (pos 0) down)) [
      | inl e ↦ rw e (Writes-add_delta_tx email up down ts w)
      | inr e ↦ rw e (λ h. (refl, refl))
    ]

Writes-upsert_counter_tx :
    (name : Text) (value : ℤ) (now : ℕ)
    → Writes (upsert_counter_tx name value now) (λ _. write_counter name value now)
unfolding upsert_counter_tx
Writes-upsert_counter_tx name value now = Writes-exec (write_counter name value now)

-- The traffic and the counter after a reading has been taken over.
abbrev pub with_reading : Text → ℤ → ℤ → Time → Text → ℤ → Time → Db → Db
with_reading email up down ts name value now db =
    write_counter name value (rfc3339 now) (with_delta_if_any email up down ts now db)

-- Whatever the driver refuses: a delta, where a direction of it is above 0, is added to the hourly,
-- daily and total traffic together with the write of the counter that it was read from, or an error is
-- returned and the database is as it was.
pub add_delta_and_advance-IsAtomic :
    (email : Text) (up down : ℤ) (ts : Time) (name : Text) (value : ℤ) (w : World)
    → IsAtomic
        (add_delta_and_advance_counter email up down ts name value)
        w
        (with_reading email up down ts name value)
unfolding add_delta_and_advance_counter
add_delta_and_advance-IsAtomic email up down ts name value w =
    transact-IsAtomic
      (add_delta_if_any email up down ts >> upsert_counter_tx name value (rfc3339 w.now))
      (λ now db.
        write_counter name value (rfc3339 w.now) (with_delta_if_any email up down ts now db))
      (Writes-then (add_delta_if_any email up down ts)
        (upsert_counter_tx name value (rfc3339 w.now)) (with_delta_if_any email up down ts)
        (λ _. write_counter name value (rfc3339 w.now)) (Writes-add_delta_if_any email up down ts)
        (Writes-upsert_counter_tx name value (rfc3339 w.now)))
      w

pub add_delta-IsAtomic :
    (email : Text) (up down : ℤ) (ts : Time) (w : World)
    → IsAtomic (add_delta email up down ts) w (with_delta email up down ts)
unfolding add_delta
add_delta-IsAtomic email up down ts w =
    transact-IsAtomic (add_delta_tx email up down ts) (with_delta email up down ts)
      (Writes-add_delta_tx email up down ts) w

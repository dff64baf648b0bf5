-- ===== src/Remote/Sessions.antt =====
-- internal/store/remote/diagnostics.go: the debug sessions, their captured events, and the cleanup.
pub mod Found
pub mod Cleaned
use ovpn.Prelude.{
  ℕ, ℤ, pos, negsuc, ◌+◌, ◌-◌, ◌*◌, leb_ℤ, ltb_ℤ, leb, ltb, ◌≤◌, ◌<◌, ◌≡◌, refl, ap, sym, ◌∙◌, ◌⊎◌,
  inl, inr, Bool, true, false, ◌&&◌, not, Option, none, some, List, [], ◌∷◌, map, codes, arith,
  Text, Exec, Result, ok, err, text_eq, text_eq_refl, pure, fail, ◌>>=◌, ◌>>◌, if◌then◌else◌,
  Bool-cases,
}
use ovpn.Strings.{trim_space, is_blank, text_mem}
use ovpn.Sql.{upsert, select_rows, first_row, order_by}
use ovpn.Sql.Laws.{first_row-upsert_self}
use ovpn.Remote.{
  Db, World, SessionRow, DebugEventRow, nanos_per_second, rfc3339, driver_call, exec_statement,
  query, transact,
}
use ovpn.Remote.Window.{positive_or}
use ovpn.Model.Types.{Time, ConnectionDebugSession, ConnectionDebugEvent}

abbrev pub debug_session_max : ℤ
debug_session_max = pos (24 * 3600 * nanos_per_second)

abbrev pub default_retention : ℤ
default_retention = pos (7 * 24 * 3600 * nanos_per_second)

abbrev quarter_hour : ℤ
quarter_hour = pos (15 * 60 * nanos_per_second)

abbrev pub same_session : SessionRow → SessionRow → Bool
same_session new old = text_eq old.email new.email

abbrev pub replace_session : SessionRow → SessionRow → SessionRow
replace_session old new = record old {
  started_at = new.started_at;
  expires_at = new.expires_at;
  updated_at = new.updated_at;
}

-- The duration that a session is given.
unfoldable pub session_length : ℤ → ℤ
session_length duration =
    let positive = positive_or duration quarter_hour in
    if ltb_ℤ debug_session_max positive then debug_session_max else positive

-- now.Add(duration), for a duration that is above 0.
abbrev pub add_length : Time → ℤ → Time
add_length now (pos n) = now + n
add_length now (negsuc n) = now

abbrev pub session_row : ConnectionDebugSession → Time → SessionRow
session_row session now = record {
  email = session.email;
  started_at = rfc3339 session.started_at;
  expires_at = rfc3339 session.expires_at;
  updated_at = rfc3339 now;
}

abbrev pub write_session : SessionRow → Db → Db
write_session row db = record db {
  connection_debug_sessions = upsert same_session replace_session row db.connection_debug_sessions;
}

abbrev pub new_session : Text → ℤ → Time → ConnectionDebugSession
new_session email duration now = record {
  email = trim_space email;
  started_at = now;
  expires_at = add_length now (session_length duration);
}

unfoldable pub start_debug_session : Text → ℤ → Time → Exec World ConnectionDebugSession
unfolding ◌>>=◌ pure fail exec_statement
start_debug_session email duration now =
    if is_blank email then fail (codes "email is required") else (do
      exec_statement (write_session (session_row (new_session email duration now) now))
      pure (new_session email duration now))

abbrev delete_session : Text → Db → Db
delete_session email db = record db {
  connection_debug_sessions =
      select_rows (λ row. not (text_eq row.email email)) db.connection_debug_sessions;
}

abbrev delete_events : Text → Db → Db
delete_events email db = record db {
  connection_debug_events =
      select_rows (λ row. not (text_eq row.email email)) db.connection_debug_events;
}

unfoldable pub stop_debug_session : Text → Exec World (Unit {0})
unfolding transact exec_statement
stop_debug_session email = transact (
    exec_statement (delete_session (trim_space email))
    >> exec_statement (delete_events (trim_space email)))

abbrev pub session_of_row : SessionRow → ConnectionDebugSession
session_of_row row = record {
  email = row.email;
  started_at = row.started_at * nanos_per_second;
  expires_at = row.expires_at * nanos_per_second;
}

abbrev pub found_session : Option SessionRow → Option ConnectionDebugSession
found_session none = none
found_session (some row) = some (session_of_row row)

unfoldable pub get_debug_session : Text → Time → Exec World (Option ConnectionDebugSession)
unfolding query
get_debug_session email now = query (λ db. found_session (
    first_row
      (λ (row : SessionRow).
        text_eq row.email (trim_space email) && ltb (rfc3339 now) row.expires_at)
      db.connection_debug_sessions))

abbrev active_rows : Time → Db → List SessionRow
active_rows now db =
    select_rows (λ row. ltb (rfc3339 now) row.expires_at) db.connection_debug_sessions

unfoldable pub list_debug_sessions : Time → Exec World (List ConnectionDebugSession)
unfolding query
list_debug_sessions now =
    query
      (λ db. map session_of_row (order_by (λ (row : SessionRow). row.email) (active_rows now db)))

-- activeDebugSessions, by the emails, which are all that the caller reads
unfoldable pub active_debug_sessions : Time → Exec World (List Text)
unfolding query
active_debug_sessions now = query (λ db. map (λ (row : SessionRow). row.email) (active_rows now db))

abbrev event_of_row : DebugEventRow → ConnectionDebugEvent
event_of_row row = record {
  timestamp = row.ts * nanos_per_second;
  result = row.result;
  email = row.email;
  source_network = row.source_network;
  destination = row.destination;
  destination_port = row.destination_port;
  destination_family = row.destination_family;
}

unfoldable pub insert_by_time : DebugEventRow → List DebugEventRow → List DebugEventRow
insert_by_time row [] = row ∷ []
insert_by_time row (next ∷ rows) =
    if leb row.ts next.ts then row ∷ next ∷ rows else next ∷ insert_by_time row rows

-- ORDER BY ts, id
unfoldable pub order_by_time : List DebugEventRow → List DebugEventRow
unfolding insert_by_time
order_by_time [] = []
order_by_time (row ∷ rows) = insert_by_time row (order_by_time rows)

unfoldable pub limited : {R : Type 0} → ℕ → List R → List R
limited n [] = []
limited n (row ∷ rows) = let rest = limited (n - 1) rows in if leb n 0 then [] else row ∷ rest

abbrev event_limit : ℤ → ℕ
event_limit (negsuc n) = 1000
event_limit (pos n) = if leb n 0 then 1000 else if leb n 1000 then n else 1000

unfoldable pub list_debug_events : Text → Time → Time → ℤ → Exec World (List ConnectionDebugEvent)
unfolding query limited order_by_time
list_debug_events email since until limit = query (λ db. map event_of_row (
    limited (event_limit limit) (
      order_by_time (
        select_rows
          (λ (row : DebugEventRow).
            text_eq row.email (trim_space email)
            && (leb (rfc3339 since) row.ts && ltb row.ts (rfc3339 until)))
          db.connection_debug_events))))

abbrev pub back_by : Time → ℤ → Time
back_by now (pos n) = now - n
back_by now (negsuc n) = now

abbrev pub expired_emails : ℕ → Db → List Text
expired_emails now db =
    map (λ (row : SessionRow). row.email)
      (select_rows (λ row. leb row.expires_at now) db.connection_debug_sessions)

abbrev pub drop_captured : ℕ → Db → Db
drop_captured now_text db = record db {
  connection_debug_events =
      select_rows (λ row. not (text_mem row.email (expired_emails now_text db)))
        db.connection_debug_events;
}

abbrev pub drop_sessions : ℕ → Db → Db
drop_sessions now_text db = record db {
  connection_debug_sessions =
      select_rows (λ row. not (leb row.expires_at now_text)) db.connection_debug_sessions;
}

abbrev pub drop_events : ℕ → Db → Db
drop_events cutoff db = record db {
  connection_debug_events = select_rows (λ row. not (ltb row.ts cutoff)) db.connection_debug_events;
}

abbrev pub drop_hourly : ℕ → Db → Db
drop_hourly cutoff db = record db {
  connection_hourly = select_rows (λ row. not (ltb row.window_start cutoff)) db.connection_hourly;
}

abbrev pub drop_sources : ℕ → Db → Db
drop_sources cutoff db = record db {
  connection_source_hourly =
      select_rows (λ row. not (ltb row.window_start cutoff)) db.connection_source_hourly;
}

abbrev pub drop_ports : ℕ → Db → Db
drop_ports cutoff db = record db {
  connection_port_hourly =
      select_rows (λ row. not (ltb row.window_start cutoff)) db.connection_port_hourly;
}

abbrev pub cutoff_of : Time → ℤ → ℕ
cutoff_of now retention = rfc3339 (back_by now (positive_or retention default_retention))

-- Six statements outside a transaction: an error leaves what the ones before it did.
unfoldable pub cleanup_connection_diagnostics : Time → ℤ → Exec World (Unit {0})
unfolding ◌>>=◌ exec_statement select_rows
cleanup_connection_diagnostics now retention =
    let cutoff = cutoff_of now retention in
    exec_statement (drop_captured (rfc3339 now))
    >> (exec_statement (drop_sessions (rfc3339 now))
        >> (exec_statement (drop_events cutoff)
            >> (exec_statement (drop_hourly cutoff)
                >> (exec_statement (drop_sources cutoff) >> exec_statement (drop_ports cutoff)))))

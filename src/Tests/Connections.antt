-- ===== src/Tests/Connections.antt =====
-- The theorems on the connection diagnostics at concrete calls.
use ovpn.Prelude.{pos, ◌+◌, ◌*◌, ◌≤◌, ◌≡◌, refl, none, some, [], ◌∷◌, Text, codes, ok, err, text_eq}
use ovpn.Strings.{trim_space}
use ovpn.Sql.{upsert, first_row, select_rows}
use ovpn.Remote.{World, nanos_per_second, rfc3339}
use ovpn.Remote.Connections.Recording.{record_connection_events}
use ovpn.Remote.Connections.AllOrNothing.{record_connection_events-all_or_nothing}
use ovpn.Remote.Sessions.{
  start_debug_session, get_debug_session, session_length, cleanup_connection_diagnostics,
}
use ovpn.Remote.Sessions.Found.{start_debug_session-get_debug_session}
use ovpn.Remote.Sessions.Cleaned.{kept_from, IsClean, cleanup_connection_diagnostics-IsClean}
use ovpn.Model.Types.{ConnectionEvent, ConnectionDebugSession}
use ovpn.Tests.Fixtures.{noon, store_with}

abbrev ann : Text
ann = codes "ann@a"

abbrev event : ConnectionEvent
event = record {
  timestamp = none;
  result = codes "accepted";
  email = ann;
  source_network = codes "192.0.2.0/24";
  destination = codes "example.org";
  destination_port = pos 443;
  destination_family = codes "domain";
  raw_destination_hint = [];
}

abbrev no_hash : Text → Text
no_hash t = t

abbrev third_refused : World
third_refused = store_with (none ∷ none ∷ some (codes "database is locked") ∷ [])

batch_refused :
    (record_connection_events no_hash (event ∷ []) (pos 0) (pos 0) noon third_refused).0
    ≡ err (codes "database is locked")
unfolding record_connection_events select_rows text_eq trim_space
batch_refused = refl

record_connection_events-all_or_nothing_example :
    (record_connection_events no_hash (event ∷ []) (pos 0) (pos 0) noon third_refused).1.db
    ≡ third_refused.db
record_connection_events-all_or_nothing_example =
    record_connection_events-all_or_nothing no_hash (event ∷ []) (pos 0) (pos 0) noon third_refused
      (codes "database is locked") batch_refused

abbrev session : ConnectionDebugSession
session = record { email = ann; started_at = noon; expires_at = noon + 900 * nanos_per_second }

abbrev session_found : ConnectionDebugSession
session_found = record {
  email = trim_space (codes " ann@a ");
  started_at = rfc3339 noon * nanos_per_second;
  expires_at = rfc3339 (noon + 900 * nanos_per_second) * nanos_per_second;
}

session_started :
    (start_debug_session (codes " ann@a ") (pos 0) noon (store_with [])).0 ≡ ok session
unfolding start_debug_session session_length trim_space text_eq
session_started = refl

session_read :
    (get_debug_session
      (codes " ann@a ")
      (noon + 5)
      (start_debug_session (codes " ann@a ") (pos 0) noon (store_with [])).1).0
    ≡ ok (some session_found)
unfolding start_debug_session get_debug_session session_length trim_space upsert first_row text_eq
session_read = refl

start_debug_session-get_debug_session_example :
    (noon + 900 * nanos_per_second ≤ noon + 24 * 3600 * nanos_per_second)
    × (some session_found ≡ some session_found)
start_debug_session-get_debug_session_example =
    start_debug_session-get_debug_session (codes " ann@a ") (pos 0) noon (noon + 5) (store_with [])
      session (some session_found) session_started refl session_read

abbrev started_before : World
started_before = (start_debug_session (codes " ann@a ") (pos 0) 0 (store_with [])).1

cleanup_after_start : (cleanup_connection_diagnostics noon (pos 0) started_before).0 ≡ ok tt
unfolding cleanup_connection_diagnostics start_debug_session session_length trim_space upsert
    text_eq
cleanup_after_start = refl

cleanup_connection_diagnostics-IsClean_example :
    IsClean noon
      (kept_from noon (pos 0))
      started_before.db
      (cleanup_connection_diagnostics noon (pos 0) started_before).1.db
cleanup_connection_diagnostics-IsClean_example =
    cleanup_connection_diagnostics-IsClean noon (pos 0) started_before cleanup_after_start

-- ===== src/Remote/Reports.antt =====
-- The reports of internal/store/remote/diagnostics.go. SQLite's sums of int64 columns are not cut at
-- 2 ^ 63, where the query would fail.
pub mod Agreement
use ovpn.Prelude.{
  ℕ, suc, ℤ, pos, negsuc, ◌+◌, ◌*◌, ◌+ℤ◌, leb_ℤ, ltb_ℤ, ltb, leb, ◌≡◌, Bool, true, false, ◌&&◌,
  ◌||◌, not, Option, none, some, List, [], ◌∷◌, map, Text, codes, Exec, pure, ◌==◌, ◌>>=◌, text_eq,
  if◌then◌else◌,
}
use ovpn.Strings.{trim_space, text_mem}
use ovpn.Sql.{select_rows, order_by}
use ovpn.Remote.{
  Db, World, ConnectionRow, SourceRow, PortRow, TrafficRow, nanos_per_second, rfc3339, query,
}
use ovpn.Remote.Quota.{parsed_time}
use ovpn.Remote.Traffic.{hour_of}
use ovpn.Remote.Connections.{later_seen}
use ovpn.Remote.Sessions.{get_debug_session, limited, back_by}
use ovpn.Model.Types.{
  Time, UserTraffic, ConnectionPortCount, ConnectionDebugSession, UserConnectionDiagnostics,
}

abbrev pub day_length : ℤ
day_length = pos (24 * (3600 * nanos_per_second))

-- `window_start >= ? AND window_start < ?`
abbrev pub within : Time → Time → ℕ → Bool
within since until start = leb (rfc3339 (hour_of since)) start && ltb start (rfc3339 until)

-- COALESCE(SUM(column), 0)
unfoldable pub sum_of : {R : Type 0} → (R → ℕ) → List R → ℕ
sum_of column [] = 0
sum_of column (row ∷ rows) = column row + sum_of column rows

unfoldable pub sum_of_ℤ : {R : Type 0} → (R → ℤ) → List R → ℤ
sum_of_ℤ column [] = pos 0
sum_of_ℤ column (row ∷ rows) = column row +ℤ sum_of_ℤ column rows

-- MAX(last_seen_at)
unfoldable pub last_seen : List ConnectionRow → Option ℕ
last_seen [] = none
last_seen (row ∷ rows) = later_seen row.last_seen_at (last_seen rows)

-- COUNT(DISTINCT column)
unfoldable pub count_distinct : List Text → List Text → ℕ
count_distinct seen [] = 0
count_distinct seen (x ∷ xs) =
    let known = count_distinct seen xs in
    let fresh = suc (count_distinct (x ∷ seen) xs) in if text_mem x seen then known else fresh

abbrev pub connection_rows : Text → Time → Time → Db → List ConnectionRow
connection_rows email since until db =
    select_rows
      (λ (row : ConnectionRow). text_eq row.email email && within since until row.window_start)
      db.connection_hourly

unfoldable pub source_networks : Text → Time → Time → Db → ℕ
unfolding select_rows count_distinct
source_networks email since until db = count_distinct [] (
    map (λ (row : SourceRow). row.source_bucket)
      (select_rows
        (λ (row : SourceRow). text_eq row.email email && within since until row.window_start)
        db.connection_source_hourly))

abbrev same_port : ℤ → ℤ → Bool
same_port a b = leb_ℤ a b && leb_ℤ b a

-- GROUP BY port
unfoldable pub add_port : ℤ → ℕ → List ConnectionPortCount → List ConnectionPortCount
add_port port n [] = record { port = port; count = n } ∷ []
add_port port n (c ∷ counts) =
    let rest = add_port port n counts in
    if same_port c.port port then record c { count = c.count + n } ∷ counts else c ∷ rest

unfoldable pub group_ports : List PortRow → List ConnectionPortCount
unfolding add_port
group_ports [] = []
group_ports (row ∷ rows) = add_port row.port row.count (group_ports rows)

-- ORDER BY total DESC, port ASC
abbrev port_before : ConnectionPortCount → ConnectionPortCount → Bool
port_before a b = ltb b.count a.count || (a.count == b.count && leb_ℤ a.port b.port)

unfoldable pub insert_port :
    ConnectionPortCount → List ConnectionPortCount → List ConnectionPortCount
insert_port c [] = c ∷ []
insert_port c (d ∷ counts) =
    let rest = insert_port c counts in if port_before c d then c ∷ d ∷ counts else d ∷ rest

unfoldable pub order_ports : List ConnectionPortCount → List ConnectionPortCount
unfolding insert_port
order_ports [] = []
order_ports (c ∷ counts) = insert_port c (order_ports counts)

unfoldable pub connection_top_ports : Text → Time → Time → ℕ → Exec World (List ConnectionPortCount)
unfolding query select_rows group_ports order_ports limited
connection_top_ports email since until limit = query (λ db. limited limit (
    order_ports (
      group_ports (
        select_rows
          (λ (row : PortRow). text_eq row.email email && within since until row.window_start)
          db.connection_port_hourly))))

abbrev pub session_end : Option ConnectionDebugSession → Option Time
session_end none = none
session_end (some s) = some s.expires_at

abbrev pub is_some : Option ConnectionDebugSession → Bool
is_some none = false
is_some (some s) = true

abbrev pub report_of :
    Text
    → Time
    → Time
    → List ConnectionRow
    → ℕ
    → List ConnectionPortCount
    → Option ConnectionDebugSession
    → UserConnectionDiagnostics
report_of email since until rows sources ports session = record {
  email = email;
  since = rfc3339 since;
  until = rfc3339 until;
  last_seen_at = parsed_time (last_seen rows);
  accepted_count = sum_of (λ (row : ConnectionRow). row.accepted_count) rows;
  rejected_count = sum_of (λ (row : ConnectionRow). row.rejected_count) rows;
  destination_ipv4_count = sum_of (λ (row : ConnectionRow). row.dest_ipv4_count) rows;
  destination_ipv6_count = sum_of (λ (row : ConnectionRow). row.dest_ipv6_count) rows;
  destination_domain_count = sum_of (λ (row : ConnectionRow). row.dest_domain_count) rows;
  destination_unknown_count = sum_of (λ (row : ConnectionRow). row.dest_unknown_count) rows;
  approx_source_networks = sources;
  source_networks_overflow = sum_of (λ (row : ConnectionRow). row.source_overflow_count) rows;
  top_ports = ports;
  debug_active = is_some session;
  debug_expires_at = session_end session;
}

abbrev pub port_limit : ℤ → ℕ
port_limit (pos n) = if n == 0 then 5 else n
port_limit (negsuc n) = 5

-- The times as the report takes them: now where there is no end, and the day before the end where
-- there is no start or it is not before the end. The time 0 is Go's zero time.
abbrev report_until : Time → Time → Time
report_until until now = if until == 0 then now else until

abbrev report_since : Time → Time → Time
report_since since until =
    if since == 0 || not (ltb since until) then back_by until day_length else since

unfoldable pub connection_report : Text → Time → Time → ℕ → Exec World UserConnectionDiagnostics
unfolding ◌>>=◌ pure query select_rows sum_of last_seen source_networks connection_top_ports
    get_debug_session
connection_report email since until limit = do
  rows ← query (connection_rows email since until)
  sources ← query (source_networks email since until)
  ports ← connection_top_ports email since until limit
  session ← get_debug_session email until
  pure (report_of email since until rows sources ports session)

unfoldable pub connection_diagnostics :
    Text → Time → Time → ℤ → Exec World UserConnectionDiagnostics
unfolding connection_report trim_space
connection_diagnostics email since until limit w =
    let end = report_until until w.now in
    connection_report (trim_space email) (report_since since end) end (port_limit limit) w

-- Each user with a row, in the order of the emails.
unfoldable pub emails_of : List Text → List ConnectionRow → List Text
emails_of seen [] = []
emails_of seen (row ∷ rows) =
    let known = emails_of seen rows in
    let fresh = row.email ∷ emails_of (row.email ∷ seen) rows in
    if text_mem row.email seen then known else fresh

abbrev pub rows_within : Time → Time → Db → List ConnectionRow
rows_within since until db =
    select_rows (λ (row : ConnectionRow). within since until row.window_start) db.connection_hourly

abbrev pub snapshot_of : Time → Time → List ConnectionRow → Text → ℕ → UserConnectionDiagnostics
snapshot_of since until all email sources =
    let rows = select_rows (λ (row : ConnectionRow). text_eq row.email email) all in
    record {
      email = email;
      since = rfc3339 since;
      until = rfc3339 until;
      last_seen_at = parsed_time (last_seen rows);
      accepted_count = sum_of (λ (row : ConnectionRow). row.accepted_count) rows;
      rejected_count = sum_of (λ (row : ConnectionRow). row.rejected_count) rows;
      destination_ipv4_count = 0;
      destination_ipv6_count = sum_of (λ (row : ConnectionRow). row.dest_ipv6_count) rows;
      destination_domain_count = 0;
      destination_unknown_count = 0;
      approx_source_networks = sources;
      source_networks_overflow = 0;
      top_ports = [];
      debug_active = false;
      debug_expires_at = none;
    }

-- COUNT(DISTINCT source_bucket) for a user of the snapshots
unfoldable pub snapshot_networks : Text → Time → Time → Db → ℕ
unfolding select_rows count_distinct
snapshot_networks email since until db = count_distinct [] (
    map (λ (row : SourceRow). row.source_bucket)
      (select_rows
        (λ (row : SourceRow). text_eq row.email email && within since until row.window_start)
        db.connection_source_hourly))

unfoldable pub snapshots :
    Time → Time → List ConnectionRow → List Text → Exec World (List UserConnectionDiagnostics)
unfolding ◌>>=◌ pure query snapshot_networks select_rows sum_of last_seen
snapshots since until all [] = pure []
snapshots since until all (email ∷ emails) = do
  sources ← query (snapshot_networks email since until)
  rest ← snapshots since until all emails
  pure (snapshot_of since until all email sources ∷ rest)

unfoldable pub list_connection_metric_snapshots :
    Time → Time → Exec World (List UserConnectionDiagnostics)
unfolding ◌>>=◌ query select_rows emails_of snapshots order_by
list_connection_metric_snapshots since until = do
  rows ← query (rows_within since until)
  snapshots since until rows (order_by (λ (email : Text). email) (emails_of [] rows))

abbrev traffic_between : Text → Time → List TrafficRow → UserTraffic
traffic_between email since rows = record {
  server_id = pos 0;
  email = email;
  window_start = since;
  window_type = codes "custom";
  uplink_bytes = sum_of_ℤ (λ (row : TrafficRow). row.uplink_bytes) rows;
  downlink_bytes = sum_of_ℤ (λ (row : TrafficRow). row.downlink_bytes) rows;
}

unfoldable pub user_traffic_between : Text → Time → Time → Exec World UserTraffic
unfolding query select_rows sum_of_ℤ trim_space
user_traffic_between given since until = query (λ db. traffic_between (trim_space given) since (
    select_rows
      (λ (row : TrafficRow).
        text_eq row.email (trim_space given) && within since until row.window_start)
      db.user_traffic_hourly))

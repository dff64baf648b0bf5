-- ===== src/Tests/Gauges.antt =====
-- The theorems on the gauges and on the reports of connections, at concrete stores.
use ovpn.Float.{Float64}
use ovpn.Prelude.{
  ℕ, ℤ, pos, negsuc, ◌+◌, ◌*◌, ◌/◌, ◌^◌, ◌≡◌, refl, inl, inr, text_eq, Bool, true, false, leb, some,
  none, List, [], ◌∷◌, Text, codes, ok,
}
use ovpn.Sql.{first_row, order_by}
use ovpn.Strings.{trim_space, text_mem}
use ovpn.Remote.{World, ConnectionRow, nanos_per_second, rfc3339}
use ovpn.Remote.Reports.{list_connection_metric_snapshots, connection_diagnostics}
use ovpn.Remote.Reports.Agreement.{Agrees, list_connection_metric_snapshots-Agrees}
use ovpn.Model.Types.{Time, QuotaUserStatus, UserConnectionDiagnostics}
use ovpn.Stats.{Agent}
use ovpn.Daemon.Rules.{SameAgent}
use ovpn.Daemon.Gauges.{users_over, metrics_refresh}
use ovpn.Daemon.Gauges.Quiet.{metrics_refresh-IsQuiet}
use ovpn.Tests.Fixtures.{noon, store_with, fractions, everyone, Served}

abbrev whole : ℤ → ℕ
whole (pos n) = n
whole (negsuc n) = 0

-- Whole percents.
abbrev percents : Float64
percents = record {
  F = ℕ;
  of_int64 = whole;
  mul = λ a b. a * b;
  div = λ a b. a * 100 / b;
  at_most = leb;
  literal = λ m k. m * 100 / 10 ^ k;
  hours = λ z. whole z / (3600 * nanos_per_second);
}

abbrev used : Text → ℤ → Bool → QuotaUserStatus
used email usage enabled = record {
  email = email;
  quota_enabled = enabled;
  window_30d_quota_byte = pos 100;
  window_30d_usage_byte = usage;
  blocked_by_quota = false;
  blocked_at = none;
  inbound_tag = [];
  has_runtime_identity = true;
}

abbrev three_users : List QuotaUserStatus
three_users =
    used (codes "ann@a") (pos 97) true
    ∷ used (codes "bob@b") (pos 85) true
    ∷ used (codes "eve@e") (pos 99) false
    ∷ []

bands_counted : (users_over percents 95 three_users ≡ 1) × (users_over percents 80 three_users ≡ 2)
unfolding users_over
bands_counted = (refl, refl)

abbrev no_time : Time → Text
no_time t = []

abbrev agent : Agent Served
agent = record { world = store_with []; runtime = everyone; trace = [] }

metrics_refresh-IsQuiet_example : SameAgent agent (metrics_refresh fractions no_time agent).1
metrics_refresh-IsQuiet_example = metrics_refresh-IsQuiet fractions no_time agent

abbrev connection_row : Text → ℕ → ConnectionRow
connection_row email accepted = record {
  email = email;
  window_start = rfc3339 noon;
  accepted_count = accepted;
  rejected_count = 1;
  dest_ipv4_count = 0;
  dest_ipv6_count = 2;
  dest_domain_count = accepted;
  dest_unknown_count = 0;
  source_overflow_count = 0;
  last_seen_at = some (rfc3339 noon);
  updated_at = rfc3339 noon;
}

abbrev busy : World
busy = record (store_with []) {
  db = record (store_with []).db {
    connection_hourly = connection_row (codes "ann@a") 3 ∷ connection_row (codes "bob@b") 5 ∷ [];
  };
}

abbrev next_hour : Time
next_hour = noon + 3600 * nanos_per_second

abbrev snapshot : Text → ℕ → UserConnectionDiagnostics
snapshot email accepted = record {
  email = email;
  since = rfc3339 noon;
  until = rfc3339 next_hour;
  last_seen_at = some noon;
  accepted_count = accepted;
  rejected_count = 1;
  destination_ipv4_count = 0;
  destination_ipv6_count = 2;
  destination_domain_count = 0;
  destination_unknown_count = 0;
  approx_source_networks = 0;
  source_networks_overflow = 0;
  top_ports = [];
  debug_active = false;
  debug_expires_at = none;
}

abbrev bob_report : UserConnectionDiagnostics
bob_report = record (snapshot (codes "bob@b") 5) { destination_domain_count = 5 }

snapshots_listed :
    (list_connection_metric_snapshots noon next_hour busy).0
    ≡ ok (snapshot (codes "ann@a") 3 ∷ snapshot (codes "bob@b") 5 ∷ [])
unfolding list_connection_metric_snapshots text_eq order_by text_mem
snapshots_listed = refl

bob_reported :
    (connection_diagnostics (codes " bob@b") noon next_hour (pos 0) busy).0 ≡ ok bob_report
unfolding connection_diagnostics text_eq trim_space first_row
bob_reported = refl

bob_named : codes "bob@b" ≡ trim_space (codes " bob@b")
unfolding trim_space
bob_named = refl

list_connection_metric_snapshots-Agrees_example : Agrees (snapshot (codes "bob@b") 5) bob_report
list_connection_metric_snapshots-Agrees_example =
    list_connection_metric_snapshots-Agrees noon next_hour (codes " bob@b") (pos 0) busy busy
      (snapshot (codes "ann@a") 3 ∷ snapshot (codes "bob@b") 5 ∷ []) (snapshot (codes "bob@b") 5)
      bob_report refl refl snapshots_listed bob_reported refl (inr (inl refl)) bob_named

-- ===== src/Remote.antt =====
-- internal/store/remote: the agent's SQLite database, and how a call to it ends. A stored time is a
-- text of RFC 3339 in whole seconds of UTC; here it is the number of seconds, in the same order.
pub mod Meta
pub mod Traffic
pub mod Window
pub mod Quota
pub mod Users
pub mod Status
pub mod UserStatus
pub mod Atomic
pub mod Books
pub mod Stored
pub mod Policies
pub mod Accepts
pub mod Connections
pub mod Sessions
pub mod Reports
pub mod Reading
use ovpn.Prelude.{ℕ, ℤ, Option, List, [], Text}
use ovpn.Driver.{DbWorld}
pub use ovpn.Driver.{nanos_per_second, rfc3339, apply_checked, settle}
unfoldable pub use ovpn.Driver.{
  driver_call, write_db, exec_statement, write_checked, exec_checked, read_db, query, transact,
}

pub record CounterRow : Type 0 where
  pub name : Text
  pub value : ℤ
  pub updated_at : ℕ

-- A row of user_traffic_hourly or user_traffic_daily.
pub record TrafficRow : Type 0 where
  pub email : Text
  pub window_start : ℕ
  pub uplink_bytes : ℤ
  pub downlink_bytes : ℤ

pub record TotalRow : Type 0 where
  pub email : Text
  pub uplink_bytes : ℤ
  pub downlink_bytes : ℤ
  pub updated_at : ℕ

pub record MetaRow : Type 0 where
  pub k : Text
  pub v : Text
  pub updated_at : ℕ

pub record QuotaPolicyRow : Type 0 where
  pub email : Text
  pub uuid : Text
  pub inbound_tag : Text
  pub quota_enabled : ℕ
  pub monthly_quota_byte : Option ℤ
  pub updated_at : ℕ

pub record QuotaStateRow : Type 0 where
  pub email : Text
  pub blocked : ℕ
  pub blocked_month : Text
  pub blocked_at : Option ℕ
  pub updated_at : ℕ

pub record UserPolicyRow : Type 0 where
  pub email : Text
  pub username : Text
  pub uuid : Text
  pub enabled : ℕ
  pub expiry_at : Option ℕ
  pub inbound_tag : Text
  pub updated_at : ℕ

pub record ConnectionRow : Type 0 where
  pub email : Text
  pub window_start : ℕ
  pub accepted_count : ℕ
  pub rejected_count : ℕ
  pub dest_ipv4_count : ℕ
  pub dest_ipv6_count : ℕ
  pub dest_domain_count : ℕ
  pub dest_unknown_count : ℕ
  pub source_overflow_count : ℕ
  pub last_seen_at : Option ℕ
  pub updated_at : ℕ

pub record SourceRow : Type 0 where
  pub email : Text
  pub window_start : ℕ
  pub source_bucket : Text
  pub count : ℕ
  pub updated_at : ℕ

pub record PortRow : Type 0 where
  pub email : Text
  pub window_start : ℕ
  pub port : ℤ
  pub count : ℕ
  pub updated_at : ℕ

pub record SessionRow : Type 0 where
  pub email : Text
  pub started_at : ℕ
  pub expires_at : ℕ
  pub updated_at : ℕ

-- The rows stand in the order of their ids.
pub record DebugEventRow : Type 0 where
  pub email : Text
  pub ts : ℕ
  pub result : Text
  pub source_network : Text
  pub destination : Text
  pub destination_port : ℤ
  pub destination_family : Text
  pub created_at : ℕ

pub record Db : Type 0 where
  pub counter_state : List CounterRow
  pub user_traffic_hourly : List TrafficRow
  pub user_traffic_daily : List TrafficRow
  pub user_traffic_total : List TotalRow
  pub collector_meta : List MetaRow
  pub quota_policy : List QuotaPolicyRow
  pub quota_state : List QuotaStateRow
  pub user_policy : List UserPolicyRow
  pub connection_hourly : List ConnectionRow
  pub connection_source_hourly : List SourceRow
  pub connection_port_hourly : List PortRow
  pub connection_debug_sessions : List SessionRow
  pub connection_debug_events : List DebugEventRow

-- The agent's database and its driver.
abbrev pub World : Type 0
World = DbWorld Db

abbrev pub empty_db : Db
empty_db = record {
  counter_state = [];
  user_traffic_hourly = [];
  user_traffic_daily = [];
  user_traffic_total = [];
  collector_meta = [];
  quota_policy = [];
  quota_state = [];
  user_policy = [];
  connection_hourly = [];
  connection_source_hourly = [];
  connection_port_hourly = [];
  connection_debug_sessions = [];
  connection_debug_events = [];
}

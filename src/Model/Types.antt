-- ===== src/Model/Types.antt =====
-- internal/model/types.go. `int64` is ℤ; a `time.Time` is the number of nanoseconds since
-- 0001-01-01T00:00:00Z, Go's zero time, so times before that are not represented. A pointer that may
-- be nil is an `Option`.
use ovpn.Prelude.{ℕ, ℤ, Bool, Option, List, Text, codes}

abbrev pub Time : Type 0
Time = ℕ

abbrev pub role_vpn : Text
role_vpn = codes "vpn"

abbrev pub role_proxy : Text
role_proxy = codes "proxy"

abbrev pub reality_tcp_vision : Text
reality_tcp_vision = codes "vless-reality-tcp-vision"

abbrev pub plain_xhttp : Text
plain_xhttp = codes "vless-xhttp-plain"

abbrev pub tls_self_sni_web : Text
tls_self_sni_web = codes "vless-tcp-tls-selfsni-web"

abbrev pub vless_enc_xhttp : Text
vless_enc_xhttp = codes "vless-xhttp-vlessenc"

pub record Server : Type 0 where
  pub id : ℤ
  pub name : Text
  pub role : Text
  pub host : Text
  pub domain : Text
  pub ssh_user : Text
  pub ssh_port : ℤ
  pub ssh_identity_file : Text
  pub ssh_known_hosts_file : Text
  pub ssh_strict_host_key : Bool
  pub xray_version : Text
  pub reality_private_key : Text
  pub reality_public_key : Text
  pub reality_short_ids : Text
  pub reality_server_name : Text
  pub reality_target : Text
  pub reality_min_client_version : Text
  pub vless_client_encryption : Text
  pub vless_server_decryption : Text
  pub primary_profile : Text
  pub enabled_profiles : Text
  pub proxy_preset : Text
  pub proxy_service_uuid : Text
  pub enabled : Bool
  pub created_at : Time
  pub updated_at : Time
  pub last_deploy_at : Option Time

pub record User : Type 0 where
  pub id : ℤ
  pub server_id : ℤ
  pub username : Text
  pub uuid : Text
  pub email : Text
  pub enabled : Bool
  pub expiry_date : Option Time
  pub traffic_limit_byte : Option ℤ
  pub quota_enabled : Bool
  pub quota_blocked : Bool
  pub quota_blocked_at : Option Time
  pub notes : Text
  pub tags_csv : Text
  pub created_at : Time
  pub updated_at : Time

pub record UserTraffic : Type 0 where
  pub server_id : ℤ
  pub email : Text
  pub window_start : Time
  pub window_type : Text
  pub uplink_bytes : ℤ
  pub downlink_bytes : ℤ

pub record TransportProfile : Type 0 where
  pub name : Text
  pub kind : Text
  pub status : Text
  pub port : ℕ
  pub inbound_tag : Text
  pub description : Text

pub record QuotaUserPolicy : Type 0 where
  pub email : Text
  pub uuid : Text
  pub inbound_tag : Text
  pub quota_enabled : Bool
  pub monthly_quota_byte : Option ℤ

pub record UserPolicy : Type 0 where
  pub username : Text
  pub email : Text
  pub uuid : Text
  pub enabled : Bool
  pub expiry_at : Option Time
  pub inbound_tag : Text

pub record QuotaUserStatus : Type 0 where
  pub email : Text
  pub quota_enabled : Bool
  pub window_30d_quota_byte : ℤ
  pub window_30d_usage_byte : ℤ
  pub blocked_by_quota : Bool
  pub blocked_at : Option Time
  pub inbound_tag : Text
  pub has_runtime_identity : Bool

-- The two times stand in the response as texts of RFC 3339, here as their whole seconds.
pub record QuotaStatusResponse : Type 0 where
  pub window_30d_start : ℕ
  pub window_30d_end : ℕ
  pub default_quota_byte : ℤ
  pub quota_enabled_users : ℕ
  pub blocked_users : ℕ
  pub users : List QuotaUserStatus

-- `F` is the type of float64.
pub record UserAccessStatus (F : Type 0) : Type 0 where
  pub username : Text
  pub email : Text
  pub uuid : Text
  pub enabled : Bool
  pub expiry_at : Option Time
  pub expiry_date : Text
  pub expired : Bool
  pub effective_enabled : Bool
  pub days_until_expiry : Option F
  pub inbound_tag : Text
  pub quota_enabled : Bool
  pub window_30d_quota_byte : ℤ
  pub window_30d_usage_byte : ℤ
  pub blocked_by_quota : Bool
  pub blocked_at : Option Time
  pub has_runtime_identity : Bool

pub record UserStatusResponse (F : Type 0) : Type 0 where
  pub time : ℕ
  pub effective_enabled_users : ℕ
  pub expiring_2d_users : ℕ
  pub expired_users : ℕ
  pub users : List (UserAccessStatus F)

-- An access log's line. `none` is Go's zero time.
pub record ConnectionEvent : Type 0 where
  pub timestamp : Option Time
  pub result : Text
  pub email : Text
  pub source_network : Text
  pub destination : Text
  pub destination_port : ℤ
  pub destination_family : Text
  pub raw_destination_hint : Text

pub record ConnectionDebugSession : Type 0 where
  pub email : Text
  pub started_at : Time
  pub expires_at : Time

pub record ConnectionDebugEvent : Type 0 where
  pub timestamp : Time
  pub result : Text
  pub email : Text
  pub source_network : Text
  pub destination : Text
  pub destination_port : ℤ
  pub destination_family : Text

-- The times of a report stand in it as texts of RFC 3339, here as their whole seconds.
pub record TrafficWindow : Type 0 where
  pub window : Text
  pub start : ℕ
  pub end : ℕ
  pub uplink_bytes : ℤ
  pub downlink_bytes : ℤ
  pub total_bytes : ℤ

pub record ConnectionPortCount : Type 0 where
  pub port : ℤ
  pub count : ℕ

pub record UserConnectionDiagnostics : Type 0 where
  pub email : Text
  pub since : ℕ
  pub until : ℕ
  pub last_seen_at : Option Time
  pub accepted_count : ℕ
  pub rejected_count : ℕ
  pub destination_ipv4_count : ℕ
  pub destination_ipv6_count : ℕ
  pub destination_domain_count : ℕ
  pub destination_unknown_count : ℕ
  pub approx_source_networks : ℕ
  pub source_networks_overflow : ℕ
  pub top_ports : List ConnectionPortCount
  pub debug_active : Bool
  pub debug_expires_at : Option Time

pub record UserDiagnosticsResponse (F : Type 0) : Type 0 where
  pub time : ℕ
  pub email : Text
  pub username : Text
  pub user : Option (UserAccessStatus F)
  pub traffic_windows : List TrafficWindow
  pub connections : UserConnectionDiagnostics
  pub hints : List Text

pub record DeployRevision : Type 0 where
  pub server_id : ℤ
  pub revision : Text
  pub config_hash : Text
  pub applied_by : Text
  pub applied_at : Time
  pub status : Text
  pub description : Text

pub record BackupRecord : Type 0 where
  pub id : ℤ
  pub server_id : ℤ
  pub kind : Text
  pub path : Text
  pub sha256 : Text
  pub created_at : Time
  pub created_by : Text
  pub remote_path : Text

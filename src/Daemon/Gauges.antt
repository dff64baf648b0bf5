-- ===== src/Daemon/Gauges.antt =====
-- The refresh of Prometheus's gauges from the store (newMetricsRefreshFunc of
-- cmd/ovpn-agent/http_routes.go and the setters of cmd/ovpn-agent/metrics.go).
pub mod Quiet
use ovpn.Float.{Float64}
use ovpn.Prelude.{
  ℕ, ℤ, pos, negsuc, ◌+◌, ◌*◌, ◌+ℤ◌, ◌++◌, ◌&&◌, wrap_int64, ltb_ℤ, Bool, true, false, Option, none,
  some, List, [], ◌∷◌, map, Text, codes, Result, ok, err, text_eq, if◌then◌else◌,
}
use ovpn.Strings.{trim_space}
use ovpn.Remote.{rfc3339}
use ovpn.Remote.Traffic.{list_totals}
use ovpn.Remote.Status.{count_if, quota_status}
use ovpn.Remote.UserStatus.{user_status}
use ovpn.Remote.Sessions.{back_by}
use ovpn.Remote.Reports.{day_length, list_connection_metric_snapshots}
use ovpn.Model.Types.{
  Time, UserTraffic, QuotaUserStatus, QuotaStatusResponse, UserAccessStatus, UserStatusResponse,
  UserConnectionDiagnostics,
}
use ovpn.Stats.{db_write_error, Agent, on_store, emit}
use ovpn.Stats.Quota.{default_quota_bytes}
use ovpn.Daemon.Reading.{default_quota_window}

-- The calls of a gauge: Reset, and Set under its labels.
pub data Setting (F : Type 0) : Type 0 where
  reset : Text → Setting F
  set : Text → List Text → F → Setting F

-- The gauges set, in their order, and the agent.
abbrev pub Refreshed : Type 0 → Type 0 → Type 0
Refreshed F S = List (Setting F) × Agent S

module _ {F S : Type 0} where
  abbrev pub after : List (Setting F) → Refreshed F S → Refreshed F S
  after settings (rest, a) = (settings ++ rest, a)

  abbrev pub gauges_or :
      {A : Type 0} → Text → (A → Agent S → Refreshed F S) → Result A × Agent S → Refreshed F S
  gauges_or operation next (ok x, a) = next x a
  gauges_or operation next (err e, a) = ([], emit true (db_write_error operation) a)

module _ (f : Float64) where
  abbrev Settings : Type 0
  Settings = List (Setting f.F)

  abbrev flag : Bool → f.F
  flag test = if test then f.of_int64 (pos 1) else f.of_int64 (pos 0)

  abbrev number : ℕ → f.F
  number n = f.of_int64 (pos n)

  -- `if email == "" { continue }`, and else the row's gauges.
  abbrev unless_blank : Text → Settings → Settings → Settings
  unless_blank email row rest = if text_eq email [] then rest else row ++ rest

  unfoldable pub traffic_settings : List UserTraffic → Settings
  unfolding trim_space
  traffic_settings [] = []
  traffic_settings (row ∷ rows) =
      let email = trim_space row.email in
      unless_blank email
        (set (codes "userTrafficTotalBytes") (email ∷ codes "uplink" ∷ [])
            (f.of_int64 row.uplink_bytes)
          ∷ set (codes "userTrafficTotalBytes") (email ∷ codes "downlink" ∷ [])
              (f.of_int64 row.downlink_bytes)
          ∷ set (codes "userTrafficTotalBytes") (email ∷ codes "total" ∷ [])
              (f.of_int64 (wrap_int64 (row.uplink_bytes +ℤ row.downlink_bytes)))
          ∷ [])
        (traffic_settings rows)

  unfoldable pub set_user_traffic_totals : List UserTraffic → Settings
  unfolding traffic_settings
  set_user_traffic_totals rows = reset (codes "userTrafficTotalBytes") ∷ traffic_settings rows

  abbrev quota_percent : QuotaUserStatus → f.F
  quota_percent user =
      if ltb_ℤ (pos 0) user.window_30d_quota_byte && ltb_ℤ (pos 0) user.window_30d_usage_byte
      then f.div (f.mul (f.of_int64 user.window_30d_usage_byte) (number 100))
          (f.of_int64 user.window_30d_quota_byte)
      else number 0

  unfoldable pub quota_settings : List QuotaUserStatus → Settings
  unfolding trim_space
  quota_settings [] = []
  quota_settings (user ∷ users) =
      let email = trim_space user.email in
      unless_blank email
        (set (codes "userWindow30DUsageBytes") (email ∷ []) (f.of_int64 user.window_30d_usage_byte)
          ∷ set (codes "userWindow30DQuotaBytes") (email ∷ [])
              (f.of_int64 user.window_30d_quota_byte)
          ∷ set (codes "userQuotaPercent") (email ∷ []) (quota_percent user)
          ∷ set (codes "userQuotaBlocked") (email ∷ []) (flag user.blocked_by_quota)
          ∷ set (codes "userQuotaEnabled") (email ∷ []) (flag user.quota_enabled)
          ∷ [])
        (quota_settings users)

  unfoldable pub set_user_quota_status : QuotaStatusResponse → Settings
  unfolding quota_settings
  set_user_quota_status status =
      map (λ (gauge : Text). reset gauge)
        (codes "userWindow30DUsageBytes"
          ∷ codes "userWindow30DQuotaBytes"
          ∷ codes "userQuotaPercent"
          ∷ codes "userQuotaBlocked"
          ∷ codes "userQuotaEnabled"
          ∷ [])
      ++ quota_settings status.users

  abbrev expiry_label : Text → Text
  expiry_label date = if text_eq date [] then codes "none" else date

  abbrev expiry_seconds : Option Time → f.F
  expiry_seconds none = number 0
  expiry_seconds (some at) = number (rfc3339 at)

  abbrev days_until : Option f.F → f.F
  days_until none = f.of_int64 (negsuc 9999)
  days_until (some days) = days

  unfoldable pub expiry_settings : List (UserAccessStatus f.F) → Settings
  unfolding trim_space
  expiry_settings [] = []
  expiry_settings (user ∷ users) =
      let email = trim_space user.email in
      let labels = email ∷ expiry_label (trim_space user.expiry_date) ∷ [] in
      unless_blank email
        (set (codes "userExpiryTimestamp") labels (expiry_seconds user.expiry_at)
          ∷ set (codes "userExpired") labels (flag user.expired)
          ∷ set (codes "userEffectiveEnabled") labels (flag user.effective_enabled)
          ∷ set (codes "userDaysUntilExpiry") labels (days_until user.days_until_expiry)
          ∷ [])
        (expiry_settings users)

  unfoldable pub set_user_expiry_status : UserStatusResponse f.F → Settings
  unfolding expiry_settings
  set_user_expiry_status status =
      map (λ (gauge : Text). reset gauge)
        (codes "userExpiryTimestamp"
          ∷ codes "userExpired"
          ∷ codes "userEffectiveEnabled"
          ∷ codes "userDaysUntilExpiry"
          ∷ [])
      ++ set (codes "usersExpiring2D") [] (number status.expiring_2d_users)
        ∷ set (codes "usersExpired") [] (number status.expired_users)
        ∷ expiry_settings status.users

  abbrev seen_setting : Text → Option Time → Settings
  seen_setting email none = []
  seen_setting email (some at) =
      set (codes "connectionLastSeenUnix") (email ∷ []) (number (rfc3339 at)) ∷ []

  unfoldable pub connection_settings : Text → List UserConnectionDiagnostics → Settings
  unfolding trim_space
  connection_settings window [] = []
  connection_settings window (row ∷ rows) =
      let email = trim_space row.email in
      unless_blank email
        (seen_setting email row.last_seen_at
          ++ set (codes "connectionRecentTotal") (email ∷ codes "accepted" ∷ window ∷ [])
              (number row.accepted_count)
            ∷ set (codes "connectionRecentTotal") (email ∷ codes "rejected" ∷ window ∷ [])
                (number row.rejected_count)
            ∷ set (codes "connectionSourceNetworks") (email ∷ window ∷ [])
                (number row.approx_source_networks)
            ∷ set (codes "connectionIPv6Destinations") (email ∷ window ∷ [])
                (number row.destination_ipv6_count)
            ∷ [])
        (connection_settings window rows)

  unfoldable pub set_connection_diagnostics : List UserConnectionDiagnostics → Text → Settings
  unfolding connection_settings trim_space
  set_connection_diagnostics rows given =
      let trimmed = trim_space given in
      let window = if text_eq trimmed [] then codes "24h" else trimmed in
      map (λ (gauge : Text). reset gauge)
        (codes "connectionLastSeenUnix"
          ∷ codes "connectionRecentTotal"
          ∷ codes "connectionSourceNetworks"
          ∷ codes "connectionIPv6Destinations"
          ∷ [])
      ++ connection_settings window rows

  -- Users whose quota is on and positive, with at least the share of it used.
  unfoldable pub users_over : f.F → List QuotaUserStatus → ℕ
  users_over share [] = 0
  users_over share (user ∷ users) =
      let ratio =
        f.div (f.of_int64 user.window_30d_usage_byte) (f.of_int64 user.window_30d_quota_byte) in
      count_if
        (user.quota_enabled && ltb_ℤ (pos 0) user.window_30d_quota_byte && f.at_most share ratio)
        (users_over share users)

  unfoldable pub band_settings : QuotaStatusResponse → Settings
  unfolding set_user_quota_status users_over
  band_settings status =
      set_user_quota_status status
      ++ set (codes "quotaBlockedUsers") [] (number status.blocked_users)
        ∷ set (codes "quotaUsersOver80") [] (number (users_over (f.literal 80 2) status.users))
        ∷ set (codes "quotaUsersOver95") [] (number (users_over (f.literal 95 2) status.users))
        ∷ []

  module _ (date_text : Time → Text) {S : Type 0} where
    unfoldable pub refresh_connections : Time → Agent S → Refreshed f.F S
    unfolding on_store emit list_connection_metric_snapshots set_connection_diagnostics
    refresh_connections now a =
        gauges_or (codes "connection_metrics")
          (λ rows b. (set_connection_diagnostics rows (codes "24h"), b))
          (on_store (list_connection_metric_snapshots (back_by now day_length) now) a)

    unfoldable pub refresh_users : Time → Agent S → Refreshed f.F S
    unfolding on_store emit user_status set_user_expiry_status refresh_connections
    refresh_users now a =
        gauges_or (codes "user_status")
          (λ status b. after (set_user_expiry_status status) (refresh_connections now b))
          (on_store (user_status f date_text now default_quota_window default_quota_bytes []) a)

    unfoldable pub refresh_quota : Time → Agent S → Refreshed f.F S
    unfolding on_store emit quota_status band_settings refresh_users
    refresh_quota now a =
        gauges_or (codes "quota_status")
          (λ status b. after (band_settings status) (refresh_users now b))
          (on_store (quota_status now default_quota_window default_quota_bytes []) a)

    unfoldable pub refresh_totals : Agent S → Refreshed f.F S
    unfolding on_store emit list_totals set_user_traffic_totals
    refresh_totals a =
        gauges_or (codes "list_totals") (λ rows b. (set_user_traffic_totals rows, b))
          (on_store list_totals a)

    -- newMetricsRefreshFunc
    unfoldable pub metrics_refresh : Agent S → Refreshed f.F S
    unfolding refresh_totals refresh_quota
    metrics_refresh a =
        let (settings, b) = refresh_totals a in after settings (refresh_quota b.world.now b)

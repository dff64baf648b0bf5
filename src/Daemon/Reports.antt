-- ===== src/Daemon/Reports.antt =====
-- GET /diagnostics/user (cmd/ovpn-agent/http_routes.go).
use ovpn.Float.{Float64}
use ovpn.Prelude.{
  ℕ, ℤ, pos, ◌*◌, ◌++◌, ◌==◌, ◌&&◌, ◌+ℤ◌, wrap_int64, ltb, not, Bool, Option, none, some, List, [],
  ◌∷◌, Text, codes, Exec, Result, ok, err, pure, ◌>>=◌, text_eq, if◌then◌else◌,
}
use ovpn.Strings.{trim_space}
use ovpn.Remote.{World, nanos_per_second, rfc3339}
use ovpn.Remote.Status.{quota_status}
use ovpn.Remote.UserStatus.{user_status}
use ovpn.Remote.Sessions.{back_by}
use ovpn.Remote.Reports.{day_length, connection_diagnostics, user_traffic_between}
use ovpn.Model.Types.{
  Time, UserTraffic, TrafficWindow, QuotaUserStatus, QuotaStatusResponse, UserAccessStatus,
  UserConnectionDiagnostics, UserDiagnosticsResponse,
}
use ovpn.Stats.{Agent, on_store}
use ovpn.Stats.Quota.{default_quota_bytes}
use ovpn.Daemon.{
  Request, failure, diagnostics, Served, respond, method_not_allowed, store_error, attempt, is_get,
}
use ovpn.Daemon.Reading.{default_quota_window, TimeParsers, parse_since_param}

abbrev hours_long : ℕ → ℤ
hours_long n = pos (n * (3600 * nanos_per_second))

abbrev window_specs : List (Text × ℤ)
window_specs =
    (codes "1h", hours_long 1) ∷ (codes "6h", hours_long 6) ∷ (codes "24h", hours_long 24) ∷ []

abbrev window_of : Text → Time → Time → UserTraffic → TrafficWindow
window_of name start until traffic = record {
  window = name;
  start = rfc3339 start;
  end = rfc3339 until;
  uplink_bytes = traffic.uplink_bytes;
  downlink_bytes = traffic.downlink_bytes;
  total_bytes = wrap_int64 (traffic.uplink_bytes +ℤ traffic.downlink_bytes);
}

unfoldable pub spec_windows : Text → Time → List (Text × ℤ) → Exec World (List TrafficWindow)
unfolding ◌>>=◌ pure user_traffic_between
spec_windows email until [] = pure []
spec_windows email until ((name, duration) ∷ specs) = do
  traffic ← user_traffic_between email (back_by until duration) until
  rest ← spec_windows email until specs
  pure (window_of name (back_by until duration) until traffic ∷ rest)

abbrev first_usage : List QuotaUserStatus → ℤ
first_usage [] = pos 0
first_usage (user ∷ users) = user.window_30d_usage_byte

abbrev quota_window : QuotaStatusResponse → TrafficWindow
quota_window quota = record {
  window = codes "30d";
  start = quota.window_30d_start;
  end = quota.window_30d_end;
  uplink_bytes = pos 0;
  downlink_bytes = pos 0;
  total_bytes = first_usage quota.users;
}

unfoldable pub build_traffic_windows : Text → Time → Exec World (List TrafficWindow)
unfolding ◌>>=◌ pure spec_windows quota_status
build_traffic_windows email until = do
  windows ← spec_windows email until window_specs
  quota ← quota_status until default_quota_window default_quota_bytes email
  pure (windows ++ quota_window quota ∷ [])

abbrev hint_if : Bool → Text → List Text → List Text
hint_if test hint hints = if test then hint ∷ hints else hints

module _ {F : Type 0} where
  abbrev user_hints : Option (UserAccessStatus F) → List Text → List Text
  user_hints none hints = hints
  user_hints (some user) hints =
      hint_if user.blocked_by_quota (codes "user is currently blocked by rolling quota")
        (hint_if (not user.effective_enabled) (codes "user is not effectively enabled") hints)

  unfoldable pub diagnostics_hints :
      Option (UserAccessStatus F) → UserConnectionDiagnostics → List Text
  diagnostics_hints user conn =
      codes "shared UUID; source networks are not exact device count"
      ∷ user_hints user (
          hint_if (conn.accepted_count == 0 && conn.rejected_count == 0)
            (codes "no parsed access-log connections in selected window")
            (hint_if (ltb 0 conn.destination_ipv6_count)
              (codes
                "IPv6 destinations were observed; check IPv4-only egress symptoms if apps connect but do not load")
              (hint_if (ltb 0 conn.source_networks_overflow)
                (codes
                  "source network cap was reached; approximate source count is lower than real distinct networks")
                [])))

  abbrev first_user : List (UserAccessStatus F) → Option (UserAccessStatus F)
  first_user [] = none
  first_user (user ∷ users) = some user

  abbrev username_of : Option (UserAccessStatus F) → Text
  username_of none = []
  username_of (some user) = user.username

  abbrev diagnostics_of :
      Text
      → Time
      → Option (UserAccessStatus F)
      → UserConnectionDiagnostics
      → List TrafficWindow
      → UserDiagnosticsResponse F
  diagnostics_of email until user conn windows = record {
    time = rfc3339 until;
    email = email;
    username = username_of user;
    user = user;
    traffic_windows = windows;
    connections = conn;
    hints = diagnostics_hints user conn;
  }

module _ (t : TimeParsers) (f : Float64) (date_text : Time → Text) where
  unfoldable pub build_user_diagnostics_response :
      Text → Time → Time → Exec World (UserDiagnosticsResponse f.F)
  unfolding ◌>>=◌ pure user_status connection_diagnostics build_traffic_windows diagnostics_hints
      trim_space
  build_user_diagnostics_response given since until = do
    status ←
        user_status f date_text until default_quota_window default_quota_bytes (trim_space given)
    conn ← connection_diagnostics (trim_space given) since until (pos 5)
    windows ← build_traffic_windows (trim_space given) until
    pure (diagnostics_of (trim_space given) until (first_user status.users) conn windows)

  module _ {S : Type 0} where
    abbrev diagnostics_since : Text → Result Time → Agent S → Served f.F S
    diagnostics_since email (err e) a = respond 400 (failure e) a
    diagnostics_since email (ok since) a =
        attempt (on_store (build_user_diagnostics_response email since a.world.now) a)
          (store_error (codes "connection_diagnostics"))
          (λ report. respond 200 (diagnostics report))

    unfoldable pub user_diagnostics_route : Request → Agent S → Served f.F S
    unfolding on_store build_user_diagnostics_response parse_since_param trim_space
    user_diagnostics_route r a =
        let email = trim_space (r.query (codes "email")) in
        if is_get r
        then (if text_eq email []
            then respond 400 (failure (codes "email is required")) a
            else diagnostics_since email
                (parse_since_param t (r.query (codes "since")) day_length a.world.now) a)
        else method_not_allowed a

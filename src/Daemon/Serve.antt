-- ===== src/Daemon/Serve.antt =====
-- The routing table of the daemon (registerHTTPRoutes of cmd/ovpn-agent/http_routes.go) behind its
-- token. A path that no route names is net/http's to answer, as is /metrics Prometheus's; both leave
-- the agent as it is.
pub mod ReadOnly
use ovpn.Float.{Float64}
use ovpn.Prelude.{
  ◌≡◌, Bool, true, false, Option, none, some, List, [], ◌∷◌, Text, codes, text_eq, if◌then◌else◌,
}
use ovpn.Dict.{get?}
use ovpn.Model.Types.{Time}
use ovpn.Stats.{Agent}
use ovpn.Daemon.{Request, RouteDeps, Served, Payload, elsewhere, respond}
use ovpn.Daemon.Auth.{require_agent_token}
use ovpn.Daemon.Reading.{
  TimeParsers, totals_route, daily_route, quota_status_route, users_status_route,
  quota_policies_route, health_route, debug_start_route, debug_sessions_route, debug_events_route,
  debug_stop_route,
}
use ovpn.Daemon.Reports.{user_diagnostics_route}
use ovpn.Daemon.Sync.{collect_route, quota_sync_route, users_sync_route}
use ovpn.Daemon.Runtime.{quota_reset_route, runtime_add_route, runtime_remove_route}

module _ (t : TimeParsers) (f : Float64) (date_text : Time → Text) {S : Type 0}
    (d : RouteDeps S) where
  abbrev pub Handler : Type 0
  Handler = Request → Agent S → Served f.F S

  abbrev pub route_or : Option Handler → Handler → Handler
  route_or none other = other
  route_or (some h) other = h

  unfoldable pub elsewhere_route : Handler
  elsewhere_route r a = respond 404 elsewhere a

  unfoldable pub reading_routes : List (Text × Handler)
  reading_routes =
      (codes "/metrics", elsewhere_route)
      ∷ (codes "/health", health_route t f date_text d)
      ∷ (codes "/stats/total", totals_route t f date_text d)
      ∷ (codes "/stats/daily", daily_route t f date_text d)
      ∷ (codes "/quota/status", quota_status_route t f date_text d)
      ∷ (codes "/users/status", users_status_route t f date_text d)
      ∷ (codes "/quota/policies", quota_policies_route t f date_text d)
      ∷ []

  unfoldable pub guarded_routes : List (Text × Handler)
  guarded_routes =
      (codes "/collect", collect_route f d)
      ∷ (codes "/quota/sync", quota_sync_route f d)
      ∷ (codes "/users/sync", users_sync_route f d)
      ∷ (codes "/diagnostics/user", user_diagnostics_route t f date_text)
      ∷ (codes "/diagnostics/debug/start", debug_start_route t f date_text d)
      ∷ (codes "/diagnostics/debug/sessions", debug_sessions_route t f date_text d)
      ∷ (codes "/diagnostics/debug/events", debug_events_route t f date_text d)
      ∷ (codes "/diagnostics/debug/stop", debug_stop_route t f date_text d)
      ∷ (codes "/quota/reset", quota_reset_route d)
      ∷ (codes "/runtime/user/add", runtime_add_route d)
      ∷ (codes "/runtime/user/remove", runtime_remove_route d)
      ∷ []

  -- http.ServeMux with exact paths.
  unfoldable pub routed : Handler
  unfolding get? reading_routes guarded_routes elsewhere_route
  routed r =
      route_or (get? r.path reading_routes) (route_or (get? r.path guarded_routes) elsewhere_route)
        r

  -- A request as the daemon answers it, under the token that it was started with.
  unfoldable pub serve : Text → Handler
  unfolding require_agent_token routed
  serve token = require_agent_token token routed

-- ===== src/Daemon/Reading.antt =====
-- The routes that read, and those of the debug sessions (cmd/ovpn-agent/http_routes.go and, for
-- /quota/policies, http_helpers.go). Package `time`'s parsers are parameters.
use ovpn.Float.{Float64}
use ovpn.Prelude.{
  ℕ, ℤ, pos, ◌*◌, leb_ℤ, true, false, Option, none, some, [], Text, codes, Result, ok, err, text_eq,
  if◌then◌else◌,
}
use ovpn.Strings.{trim_space}
use ovpn.Remote.{nanos_per_second, rfc3339}
use ovpn.Remote.Meta.{get_meta}
use ovpn.Remote.Traffic.{list_totals, list_daily}
use ovpn.Remote.Quota.{list_quota_policies}
use ovpn.Remote.Status.{quota_status}
use ovpn.Remote.UserStatus.{user_status}
use ovpn.Remote.Sessions.{
  start_debug_session, stop_debug_session, list_debug_sessions, list_debug_events, back_by,
}
use ovpn.Model.Types.{Time}
use ovpn.Stats.{db_write_error, xray_reachable, health_checked, Agent, on_store, emit}
use ovpn.Stats.Quota.{default_quota_bytes}
use ovpn.Daemon.{
  Request, DebugStartReq, RouteDeps, failure, done_email, traffic, quotas, accesses, policies,
  session, sessions, events, health, Served, respond, method_not_allowed, server_error, store_error,
  attempt, decoded, is_post, is_get,
}

-- stats.DefaultQuotaWindow
abbrev pub default_quota_window : ℤ
default_quota_window = pos (30 * (24 * (3600 * nanos_per_second)))

abbrev pub minutes : ℕ → ℤ
minutes n = pos (n * (60 * nanos_per_second))

-- time.ParseDuration, time.Parse at RFC 3339, and time.Parse at a day.
pub record TimeParsers : Type 0 where
  pub duration : Text → Option ℤ
  pub instant : Text → Option Time
  pub day : Text → Option Time

module _ (t : TimeParsers) where
  abbrev since_instant : Option Time → Result Time
  since_instant none = err (codes "since must be a duration such as 24h or an RFC3339 timestamp")
  since_instant (some at) = ok at

  abbrev since_duration : Text → Time → Option ℤ → Result Time
  since_duration raw now none = since_instant (t.instant raw)
  since_duration raw now (some length) =
      if leb_ℤ length (pos 0)
      then err (codes "since duration must be positive")
      else ok (back_by now length)

  -- parseSinceParam, at the time of the call
  unfoldable pub parse_since_param : Text → ℤ → Time → Result Time
  unfolding trim_space
  parse_since_param given fallback now =
      let raw = trim_space given in
      if text_eq raw [] then ok (back_by now fallback) else since_duration raw now (t.duration raw)

  abbrev day_or : Option Time → Time → Time
  day_or none now = now
  day_or (some day) now = day

  module _ (f : Float64) (date_text : Time → Text) {S : Type 0} (d : RouteDeps S) where
    -- /stats/total
    unfoldable pub totals_route : Request → Agent S → Served f.F S
    unfolding on_store list_totals
    totals_route r a =
        attempt (on_store list_totals a) server_error (λ rows. respond 200 (traffic rows))

    -- /stats/daily
    unfoldable pub daily_route : Request → Agent S → Served f.F S
    unfolding on_store list_daily trim_space
    daily_route r a =
        let q = trim_space (r.query (codes "date")) in
        let day = if text_eq q [] then a.world.now else day_or (t.day q) a.world.now in
        attempt (on_store (list_daily day) a) server_error (λ rows. respond 200 (traffic rows))

    -- /quota/status
    unfoldable pub quota_status_route : Request → Agent S → Served f.F S
    unfolding on_store quota_status trim_space
    quota_status_route r a =
        attempt
          (on_store
            (quota_status a.world.now default_quota_window default_quota_bytes
              (trim_space (r.query (codes "email"))))
            a)
          (store_error (codes "quota_status")) (λ status. respond 200 (quotas status))

    -- /users/status
    unfoldable pub users_status_route : Request → Agent S → Served f.F S
    unfolding on_store user_status trim_space
    users_status_route r a =
        attempt
          (on_store
            (user_status f date_text a.world.now default_quota_window default_quota_bytes
              (trim_space (r.query (codes "email"))))
            a)
          (store_error (codes "user_status")) (λ status. respond 200 (accesses status))

    -- /quota/policies
    unfoldable pub quota_policies_route : Request → Agent S → Served f.F S
    unfolding on_store list_quota_policies
    quota_policies_route r a =
        if is_get r
        then attempt (on_store list_quota_policies a) (store_error (codes "list_quota_policies"))
            (λ rows. respond 200 (policies rows))
        else method_not_allowed a

    -- The value of a key, empty where it is missing or cannot be read.
    abbrev pub meta_or_empty : Text → Result (Option Text) × Agent S → Text × Agent S
    meta_or_empty operation (ok none, a) = ([], a)
    meta_or_empty operation (ok (some v), a) = (v, a)
    meta_or_empty operation (err e, a) = ([], emit true (db_write_error operation) a)

    unfoldable pub read_meta : Text → Text → Agent S → Text × Agent S
    unfolding on_store get_meta emit
    read_meta key operation a = meta_or_empty operation (on_store (get_meta key) a)

    abbrev pub checked_xray : Option Text → Agent S → Agent S
    checked_xray none a =
        emit true (health_checked (codes "success")) (emit true (xray_reachable true) a)
    checked_xray (some e) a =
        emit true (health_checked (codes "error")) (emit true (xray_reachable false) a)

    -- /health
    unfoldable pub health_route : Request → Agent S → Served f.F S
    unfolding read_meta emit
    health_route r a =
        let api_error = d.api_error a.runtime in
        let (collected, b) =
          read_meta (codes "last_collect_at") (codes "get_meta_last_collect_at")
            (checked_xray api_error a) in
        let (reset, c) = read_meta (codes "last_reset_at") (codes "get_meta_last_reset_at") b in
        respond 200
          (health (record {
            xray_error = api_error;
            last_collect_at = collected;
            last_reset_at = reset;
            time = rfc3339 c.world.now;
          }))
          c

    abbrev debug_with : Text → Result ℤ → Agent S → Served f.F S
    debug_with email (err e) a = respond 400 (failure e) a
    debug_with email (ok duration) a =
        attempt (on_store (start_debug_session email duration a.world.now) a) server_error
          (λ started. respond 200 (session started))

    abbrev parsed_duration : Option ℤ → Result ℤ
    parsed_duration none = err (codes "duration must be a Go duration such as 15m")
    parsed_duration (some length) = ok length

    unfoldable pub start_debug : DebugStartReq → Agent S → Served f.F S
    unfolding on_store start_debug_session trim_space
    start_debug q a =
        let email = trim_space q.email in
        let raw = trim_space q.duration in
        if text_eq email []
        then respond 400 (failure (codes "email is required")) a
        else debug_with email
            (if text_eq raw [] then ok (minutes 15) else parsed_duration (t.duration raw)) a

    -- POST /diagnostics/debug/start
    unfoldable pub debug_start_route : Request → Agent S → Served f.F S
    unfolding start_debug
    debug_start_route r a =
        if is_post r
        then decoded (d.decoders.debug_start_req r.body) start_debug a
        else method_not_allowed a

    -- GET /diagnostics/debug/sessions
    unfoldable pub debug_sessions_route : Request → Agent S → Served f.F S
    unfolding on_store list_debug_sessions
    debug_sessions_route r a =
        if is_get r
        then attempt (on_store (list_debug_sessions a.world.now) a) server_error
            (λ rows. respond 200 (sessions (rfc3339 a.world.now) rows))
        else method_not_allowed a

    abbrev events_since : Text → Result Time → Agent S → Served f.F S
    events_since email (err e) a = respond 400 (failure e) a
    events_since email (ok since) a =
        attempt (on_store (list_debug_events email since a.world.now (pos 1000)) a) server_error
          (λ rows. respond 200 (events email (rfc3339 since) (rfc3339 a.world.now) rows))

    -- GET /diagnostics/debug/events
    unfoldable pub debug_events_route : Request → Agent S → Served f.F S
    unfolding on_store list_debug_events parse_since_param trim_space
    debug_events_route r a =
        let email = trim_space (r.query (codes "email")) in
        if is_get r
        then (if text_eq email []
            then respond 400 (failure (codes "email is required")) a
            else events_since email
                (parse_since_param (r.query (codes "since")) (minutes 15) a.world.now) a)
        else method_not_allowed a

    unfoldable pub stop_debug : Text → Agent S → Served f.F S
    unfolding on_store stop_debug_session trim_space
    stop_debug given a =
        let email = trim_space given in
        if text_eq email []
        then respond 400 (failure (codes "email is required")) a
        else attempt (on_store (stop_debug_session email) a) server_error
            (λ _. respond 200 (done_email email))

    -- POST /diagnostics/debug/stop
    unfoldable pub debug_stop_route : Request → Agent S → Served f.F S
    unfolding stop_debug
    debug_stop_route r a =
        if is_post r
        then decoded (d.decoders.debug_stop_req r.body) stop_debug a
        else method_not_allowed a
